-- ===== src/Cluster/Handlers.antt =====
-- The methods of coreinit/cluster_scheduler.c on nodes, resources and memory.
pub mod Guards
pub mod Releases
use otos_coreinit.Base.{
  ℕ, zero, suc, ◌+◌, Bool, true, false, List, [], ◌∷◌, Option, none, some, ◌==◌, ◌&&◌, ◌||◌, not,
  if◌then◌else◌, get_elem?,
}
use otos_coreinit.Kernel.{Kernel}
use otos_coreinit.Wire.{respond, word, flag}
use otos_coreinit.Cluster.Objects.{
  Job, node_affinity_any, resource_kind_memory, sync_stream, sync_cow, node_signal_id,
}
use otos_coreinit.Cluster.State.{
  Cluster, JobSlot, ResourceEntry, AllocEntry, job_pool_size, fill_first, invoke, destroy, at_least,
}
use otos_coreinit.Cluster.Resources.{
  ResourceInfo, create_resource_object, resource_get_info, resource_release_reservation,
  resource_reassign, owned_by, node_has_mmu, says_ok,
}
use otos_coreinit.Cluster.Nodes.{create_node_object, node_find_by_id, node_destroy}
use otos_coreinit.Cluster.Jobs.{update_job, destroy_job_object}

abbrev alloc_used : AllocEntry → Bool
alloc_used a = a.used

abbrev pub Reply : Type 0
Reply = Option (List ℕ)

abbrev pub touches : ℕ → Job → Bool
touches node_id j =
    j.assigned_node == node_id
    || (j.assigned_node == node_affinity_any && j.node_affinity == node_id)

-- The first used entry with this handle is marked unused.
unfoldable pub drop_entry : ℕ → List ResourceEntry → List ResourceEntry
drop_entry handle [] = []
drop_entry handle (e ∷ es) =
    if e.used && e.handle == handle
    then record e { used = false } ∷ es
    else e ∷ drop_entry handle es

module _ (k : Kernel) where
  unfoldable pub handle_join_node : Cluster k → List ℕ → ℕ → Reply × Cluster k
  handle_join_node c words cap =
      if not (node_find_by_id k c (word words 0) == 0)
      then (respond cap (0 ∷ []), c)
      else (let (handle, c') =
            create_node_object k c (word words 0) (word words 1) (word words 2) in
          (respond cap (handle ∷ []), c'))

  -- Destroys what the node owns, each owner asked for afresh.
  unfoldable pub sweep_resources :
      Cluster k → ℕ → List ResourceEntry → List ResourceEntry × Cluster k
  sweep_resources c node_id [] = ([], c)
  sweep_resources c node_id (e ∷ es) =
      let (owned, c1) = owned_by k c node_id e.handle in
      let gone = e.used && owned in
      let (es', c') =
        sweep_resources (if not e.used then c else if owned then destroy k c1 e.handle else c1)
          node_id es in
      ((if gone then record e { used = false } else e) ∷ es', c')

  unfoldable pub release_job_resource : Cluster k → ℕ → ℕ → Cluster k
  release_job_resource c job_handle bound_resource_id =
      (resource_release_reservation k c bound_resource_id job_handle).1

  -- One job at the departure of a node: cancelled if it needed that node, else put back.
  unfoldable pub leave_job : Cluster k → ℕ → ℕ → JobSlot → Cluster k
  leave_job c node_id i s =
      if not s.used
      then c
      else if not (touches node_id s.info)
      then c
      else if s.info.node_affinity == node_id
      then destroy_job_object k (release_job_resource c s.handle s.info.bound_resource_id) s.handle
      else record c {
        jobs = update_job c.jobs i (λ j. record j { assigned_node = node_affinity_any });
      }

  -- The loop over the slots from `i`, by the rounds that are left.
  unfoldable pub leave_jobs : ℕ → ℕ → Cluster k → ℕ → Cluster k
  leave_jobs zero i c node_id = c
  leave_jobs (suc n) i c node_id =
      leave_jobs n (i + 1)
        (elim (get_elem? c.jobs i) [ none ↦ c | some s ↦ leave_job c node_id i s ]) node_id

  unfoldable pub handle_leave_node : Cluster k → List ℕ → Reply × Cluster k
  handle_leave_node c words =
      let node_id = word words 0 in
      if node_find_by_id k c node_id == 0
      then (none, c)
      else (let left = node_destroy k c node_id in
          let (index, swept) = sweep_resources left node_id left.resource_index in
          let swept' : Cluster k = record swept { resource_index = index } in
          (none, leave_jobs job_pool_size 0 swept' node_id))

  unfoldable pub handle_preempt_node : Cluster k → List ℕ → ℕ → Reply × Cluster k
  handle_preempt_node c words cap =
      let node = node_find_by_id k c (word words 0) in
      if not (node == 0)
      then (respond cap (1 ∷ []), (invoke k c node node_signal_id (0 ∷ []) 0).1)
      else (respond cap (0 ∷ []), c)

  unfoldable pub handle_request_allocation : Cluster k → List ℕ → ℕ → Reply × Cluster k
  handle_request_allocation c words cap =
      let node_id = word words 0 in
      let base = word words 1 in
      let size = word words 2 in
      let kind = word words 3 in
      let (claimed, c1) = invoke k c c.memory_manager 0 (base ∷ size ∷ kind ∷ []) 24 in
      if says_ok 24 claimed
      then (let noted : Cluster k = record c1 {
        allocs =
            fill_first alloc_used
              (record { node_id = node_id; base = base; size = size; kind = kind; used = true })
              c1.allocs;
      } in
          let (resource, c2) =
            create_resource_object k noted node_id resource_kind_memory base size (word words 4)
              0 in
          (respond cap (1 ∷ resource ∷ []), c2))
      else (respond cap (0 ∷ 0 ∷ []), c1)

  unfoldable pub handle_allocate_slice : Cluster k → List ℕ → ℕ → Reply × Cluster k
  handle_allocate_slice c words cap =
      let size = word words 2 in
      let (reply, c1) = invoke k c c.memory_manager 1 (size ∷ word words 3 ∷ []) 40 in
      elim (at_least 24 reply) [
        | none ↦ (respond cap (0 ∷ 0 ∷ 0 ∷ []), c1)
        | some out ↦
            if not (word out 0 == 0)
            then (let (resource, c2) =
                  create_resource_object k c1 (word words 0) resource_kind_memory (word out 1) size
                    (word words 4) (word words 1) in
                (respond cap (1 ∷ resource ∷ word out 1 ∷ []), c2))
            else (respond cap (0 ∷ 0 ∷ word out 1 ∷ []), c1)
      ]

  unfoldable pub handle_release_slice : Cluster k → List ℕ → ℕ → Reply × Cluster k
  handle_release_slice c words cap =
      let resource = word words 0 in
      let (info, c0) = resource_get_info k c resource in
      elim info [
        | none ↦ (respond cap (0 ∷ []), c0)
        | some r ↦
            if not (r.kind == resource_kind_memory)
            then (respond cap (0 ∷ []), c0)
            else if not (r.reserved_by == word words 1)
            then (respond cap (0 ∷ []), c0)
            else (let (freed, c1) = invoke k c0 c0.memory_manager 2 (r.descriptor ∷ []) 24 in
                if says_ok 24 freed
                then (
                  respond cap (1 ∷ []),
                  record (destroy k c1 resource) {
                    resource_index = drop_entry resource c1.resource_index;
                  },
                )
                else (respond cap (0 ∷ []), c1))
      ]

  unfoldable pub handle_declare_resource : Cluster k → List ℕ → ℕ → Reply × Cluster k
  handle_declare_resource c words cap =
      let needs_mmu = word words 4 == sync_stream || word words 4 == sync_cow in
      let (has, c1) = if needs_mmu then node_has_mmu k c (word words 0) else (true, c) in
      if needs_mmu && not has
      then (respond cap (0 ∷ []), c1)
      else (let (resource, c') =
            create_resource_object k c1 (word words 0) (word words 1) (word words 2) (word words 3)
              (word words 4) 0 in
          (respond cap (resource ∷ []), c'))

  unfoldable pub handle_get_resource_info : Cluster k → List ℕ → ℕ → Reply × Cluster k
  handle_get_resource_info c words cap =
      let (info, c') = resource_get_info k c (word words 0) in
      (
        elim info [
          | none ↦ respond cap (0 ∷ 0 ∷ 0 ∷ 0 ∷ 0 ∷ 0 ∷ [])
          | some r ↦
              respond cap (1 ∷ r.owner_node ∷ r.kind ∷ r.descriptor ∷ r.capacity ∷ r.sync_kind ∷ [])
        ],
        c',
      )

  unfoldable pub handle_reassign_resource : Cluster k → List ℕ → ℕ → Reply × Cluster k
  handle_reassign_resource c words cap =
      let resource = word words 0 in
      let new_owner_node = word words 1 in
      let (info, c0) = resource_get_info k c resource in
      elim info [
        | none ↦ (respond cap (0 ∷ []), c0)
        | some r ↦
            if not (r.reserved_by == 0)
            then (respond cap (0 ∷ []), c0)
            else if node_find_by_id k c0 new_owner_node == 0
            then (respond cap (0 ∷ []), c0)
            else (let (ok, c') = resource_reassign k c0 resource new_owner_node in
                (respond cap (flag ok ∷ []), c'))
      ]
