-- ===== src/Cluster/Objects.antt =====
-- The objects of coreinit/cluster_scheduler.c and their own handlers: resource, node, mutex, job.
-- A handler takes the data behind its pointer and returns the reply and the data after the call.
pub mod Exclusion
use otos_coreinit.Base.{
  ℕ, ◌+◌, ◌%◌, ◌^◌, Bool, true, false, List, [], ◌∷◌, Option, none, some, ◌==◌, ◌&&◌, not,
  if◌then◌else◌, to_int, sign_extend,
}
use otos_coreinit.Wire.{respond, word, flag}

abbrev pub node_affinity_any : ℕ
node_affinity_any = 0xFFFFFFFFFFFFFFFF

abbrev pub resource_kind_none : ℕ
resource_kind_none = 0xFFFFFFFFFFFFFFFF

abbrev pub resource_kind_memory : ℕ
resource_kind_memory = 0

abbrev pub resource_kind_mmu : ℕ
resource_kind_mmu = 3

abbrev pub sync_transfer : ℕ
sync_transfer = 0

abbrev pub sync_stream : ℕ
sync_stream = 1

abbrev pub sync_cow : ℕ
sync_cow = 2

abbrev pub block_none : ℕ
block_none = 0

abbrev pub block_mutex : ℕ
block_mutex = 1

abbrev pub block_job : ℕ
block_job = 2

-- `resource_data_t`
pub record Resource : Type 0 where
  pub owner_node : ℕ
  pub kind : ℕ
  pub descriptor : ℕ
  pub capacity : ℕ
  pub reserved_by : ℕ
  pub sync_kind : ℕ

abbrev pub resource_get_info_id : ℕ
resource_get_info_id = 0

abbrev pub reserve_id : ℕ
reserve_id = 1

abbrev pub release_reservation_id : ℕ
release_reservation_id = 2

abbrev pub reassign_id : ℕ
reassign_id = 3

-- `__sync_bool_compare_and_swap(&r->reserved_by, old, new)`
abbrev cas_reserved : Resource → ℕ → ℕ → Bool × Resource
cas_reserved r old new =
    if r.reserved_by == old then (true, record r { reserved_by = new }) else (false, r)

-- The RESERVE case: held by the same job already, or free.
unfoldable pub reserve : Resource → ℕ → Bool × Resource
reserve r requesting_job =
    if r.reserved_by == requesting_job then (true, r) else cas_reserved r 0 requesting_job

pub release_reservation : Resource → ℕ → Bool × Resource
release_reservation r requesting_job = cas_reserved r requesting_job 0

pub reassign : Resource → ℕ → Bool × Resource
reassign r new_owner_node =
    if r.reserved_by == 0 then (true, record r { owner_node = new_owner_node }) else (false, r)

abbrev answer : {A : Type 0} → ℕ → Bool × A → Option (List ℕ) × A
answer cap (ok, a) = (respond cap (flag ok ∷ []), a)

unfoldable pub resource_handler : Resource → ℕ → List ℕ → ℕ → Option (List ℕ) × Resource
resource_handler r method_id words cap =
    if method_id == resource_get_info_id
    then (
      respond cap
          (r.owner_node ∷ r.kind ∷ r.descriptor ∷ r.capacity ∷ r.sync_kind ∷ r.reserved_by ∷ []),
      r,
    )
    else if method_id == reserve_id
    then answer cap (reserve r (word words 0))
    else if method_id == release_reservation_id
    then answer cap (release_reservation r (word words 0))
    else if method_id == reassign_id
    then answer cap (reassign r (word words 0))
    else (none, r)

-- `node_data_t`
pub record Node : Type 0 where
  pub node_id : ℕ
  pub arch : ℕ
  pub signal_target : ℕ

abbrev pub node_get_info_id : ℕ
node_get_info_id = 0

abbrev pub node_signal_id : ℕ
node_signal_id = 1

-- The reply, and the target of the signal that it sends, if it sends one.
unfoldable pub node_handler : Node → ℕ → ℕ → Option (List ℕ) × Option ℕ
node_handler n method_id cap =
    if method_id == node_get_info_id
    then (respond cap (n.node_id ∷ n.arch ∷ []), none)
    else if method_id == node_signal_id
    then (none, some n.signal_target)
    else (none, none)

-- `mutex_data_t`
pub record Mutex : Type 0 where
  pub locked : Bool
  pub holder_job_id : ℕ

abbrev pub mutex_try_lock_id : ℕ
mutex_try_lock_id = 0

abbrev pub mutex_unlock_id : ℕ
mutex_unlock_id = 1

unfoldable pub try_lock : Mutex → ℕ → Bool × Mutex
try_lock m requesting_job_id =
    if not m.locked
    then (true, record { locked = true; holder_job_id = requesting_job_id })
    else (false, m)

unfoldable pub unlock : Mutex → ℕ → Bool × Mutex
unlock m requesting_job_id =
    if m.locked && m.holder_job_id == requesting_job_id
    then (true, record m { locked = false })
    else (false, m)

unfoldable pub mutex_handler : Mutex → ℕ → List ℕ → ℕ → Option (List ℕ) × Mutex
mutex_handler m method_id words cap =
    if method_id == mutex_try_lock_id
    then (let (ok, m') = try_lock m (word words 0) in
        (respond cap (flag ok ∷ m'.holder_job_id ∷ []), m'))
    else if method_id == mutex_unlock_id
    then answer cap (unlock m (word words 0))
    else (none, m)

-- `job_data_t`. The two priorities and `blocked` are ints, kept as 32-bit patterns.
pub record Job : Type 0 where
  pub type : ℕ
  pub arg0 : ℕ
  pub arg1 : ℕ
  pub base_priority : ℕ
  pub effective_priority : ℕ
  pub node_affinity : ℕ
  pub assigned_node : ℕ
  pub resource_id : ℕ
  pub resource_kind : ℕ
  pub resource_min_capacity : ℕ
  pub bound_resource_id : ℕ
  pub blocked : ℕ
  pub block_kind : ℕ
  pub block_id : ℕ
  pub dispatched : Bool

abbrev pub job_get_info_id : ℕ
job_get_info_id = 0

abbrev pub job_update_id : ℕ
job_update_id = 1

unfoldable pub job_handler : Job → ℕ → List ℕ → ℕ → Option (List ℕ) × Job
job_handler j method_id words cap =
    if method_id == job_get_info_id
    then (
      respond cap (
          j.type
          ∷ j.arg0
          ∷ j.arg1
          ∷ sign_extend j.base_priority
          ∷ sign_extend j.effective_priority
          ∷ j.node_affinity
          ∷ j.assigned_node
          ∷ j.resource_id
          ∷ j.resource_kind
          ∷ j.resource_min_capacity
          ∷ j.bound_resource_id
          ∷ sign_extend j.blocked
          ∷ j.block_kind
          ∷ j.block_id
          ∷ []),
      j,
    )
    else if method_id == job_update_id
    then (
      respond cap (1 ∷ []),
      record j {
        assigned_node = word words 0;
        bound_resource_id = word words 1;
        blocked = to_int (word words 2);
        block_kind = to_int (word words 3);
        block_id = word words 4;
        effective_priority = to_int (word words 5);
      },
    )
    else (none, j)
