-- ===== src/Cluster/Jobs.antt =====
-- Job slots and completions of coreinit/cluster_scheduler.c.
pub mod Completions
pub mod Created
pub mod Slots
use otos_coreinit.Base.{
  ℕ, suc, ◌+◌, ◌%◌, Bool, true, false, List, [], ◌∷◌, Option, none, some, ◌==◌, ◌&&◌, if◌then◌else◌,
  add64, get_elem?, set,
}
use otos_coreinit.Kernel.{Kernel, job}
use otos_coreinit.Cluster.Objects.{Job, node_affinity_any, block_none}
use otos_coreinit.Cluster.State.{Cluster, JobSlot, Completion, job_pool_size, destroy}

-- Overwrites the oldest of the `job_pool_size` places. The counter is a size_t.
unfoldable pub completion_record : {k : Kernel} → Cluster k → ℕ → ℕ → Cluster k
completion_record c job_handle value = record c {
  completions =
      set c.completions (c.completion_next % job_pool_size)
        (record { job_handle = job_handle; value = value; used = true });
  completion_next = add64 c.completion_next 1;
}

pub completion_find : List Completion → ℕ → Option ℕ
completion_find [] job_handle = none
completion_find (d ∷ ds) job_handle =
    if d.used && d.job_handle == job_handle then some d.value else completion_find ds job_handle

-- An index of the rest of an array, in the array.
abbrev pub next : Option ℕ → Option ℕ
next none = none
next (some i) = some (suc i)

-- The index of the first slot that is not used.
unfoldable pub free_slot : List JobSlot → Option ℕ
free_slot [] = none
free_slot (s ∷ ss) = if s.used then next (free_slot ss) else some 0

-- `job_data_for_handle_locked`, as the index of the slot.
unfoldable pub find_job : List JobSlot → ℕ → Option ℕ
find_job [] handle = none
find_job (s ∷ ss) handle =
    if s.used && s.handle == handle then some 0 else next (find_job ss handle)

abbrev pub job_for_handle : List JobSlot → ℕ → Option ℕ
job_for_handle ss handle = if handle == 0 then none else find_job ss handle

-- Changes the data of a slot.
unfoldable pub update_job : List JobSlot → ℕ → (Job → Job) → List JobSlot
update_job ss i f = elim (get_elem? ss i) [
  | none ↦ ss
  | some s ↦ set ss i (record s { info = f s.info })
]

-- The first slot that holds the job is given back.
unfoldable pub clear_slot : List JobSlot → ℕ → List JobSlot
clear_slot [] handle = []
clear_slot (s ∷ ss) handle =
    if s.used && s.handle == handle
    then record s { used = false } ∷ ss
    else s ∷ clear_slot ss handle

-- A new job's data.
abbrev pub new_job : ℕ → ℕ → ℕ → ℕ → ℕ → ℕ → ℕ → ℕ → Job
new_job type arg0 arg1 priority node_affinity resource_id resource_kind resource_min_capacity =
    record {
      type = type;
      arg0 = arg0;
      arg1 = arg1;
      base_priority = priority;
      effective_priority = priority;
      node_affinity = node_affinity;
      assigned_node = node_affinity_any;
      resource_id = resource_id;
      resource_kind = resource_kind;
      resource_min_capacity = resource_min_capacity;
      bound_resource_id = 0;
      blocked = 0;
      block_kind = block_none;
      block_id = 0;
      dispatched = false;
    }

module _ (k : Kernel) where
  -- The slot's handle is written last, and only if the factory gave one; a refused slot keeps its
  -- old handle and the new data.
  unfoldable pub create_job_object : Cluster k → Job → ℕ × Cluster k
  create_job_object c j = elim (free_slot c.jobs) [
    | none ↦ (0, c)
    | some i ↦
        let (handle, kernel') = k.create c.kernel (job i) in
        let old : ℕ = elim (get_elem? c.jobs i) [ none ↦ 0 | some s ↦ s.handle ] in
        if handle == 0
        then (
          0,
          record c {
            kernel = kernel';
            jobs = set c.jobs i (record { used = false; handle = old; info = j });
          },
        )
        else (
          handle,
          record c {
            kernel = kernel';
            jobs = set c.jobs i (record { used = true; handle = handle; info = j });
          },
        )
  ]

  unfoldable pub destroy_job_object : Cluster k → ℕ → Cluster k
  destroy_job_object c handle = elim (find_job c.jobs handle) [
    | none ↦ c
    | some i ↦ record (destroy k c handle) { jobs = clear_slot c.jobs handle }
  ]
