-- ===== src/Cluster/Dispatch.antt =====
-- cluster_scheduler_init_schema and cluster_scheduler_handler of coreinit/cluster_scheduler.c.
use otos_coreinit.Base.{
  ℕ, zero, suc, ◌+◌, ◌-◌, false, List, [], ◌∷◌, none, ◌==◌, if◌then◌else◌, replicate,
}
use otos_coreinit.Kernel.{Kernel, mutex}
use otos_coreinit.MemMgr.{Window, Claim}
use otos_coreinit.Cluster.Objects.{Job, resource_kind_memory, sync_transfer}
use otos_coreinit.Cluster.State.{
  Cluster, JobSlot, resource_pool_size, max_nodes, max_alloc_records, max_mutexes, job_pool_size,
}
use otos_coreinit.Cluster.Resources.{create_resource_object}
use otos_coreinit.Cluster.Jobs.{new_job}
use otos_coreinit.Cluster.Handlers.{
  Reply, handle_join_node, handle_leave_node, handle_request_allocation, handle_declare_resource,
  handle_get_resource_info, handle_allocate_slice, handle_release_slice, handle_preempt_node,
  handle_reassign_resource,
}
use otos_coreinit.Cluster.JobHandlers.{
  handle_submit_job, handle_get_next_job, handle_report_job_result, handle_get_job_result,
  handle_mutex_try_lock, handle_mutex_unlock,
}

-- Method numbers of the ClusterScheduler interface; any other id has no effect.
pub data Method : Type 0 where
  join_node leave_node request_allocation declare_resource reassign_resource submit_job : Method
  get_next_job report_job_result mutex_try_lock mutex_unlock get_resource_info : Method
  allocate_slice release_slice preempt_node get_job_result other : Method

unfoldable pub method_of : ℕ → Method
method_of method_id =
    if method_id == 0
    then join_node
    else if method_id == 1
    then leave_node
    else if method_id == 2
    then request_allocation
    else if method_id == 3
    then declare_resource
    else if method_id == 4
    then reassign_resource
    else if method_id == 5
    then submit_job
    else if method_id == 6
    then get_next_job
    else if method_id == 7
    then report_job_result
    else if method_id == 8
    then mutex_try_lock
    else if method_id == 9
    then mutex_unlock
    else if method_id == 10
    then get_resource_info
    else if method_id == 11
    then allocate_slice
    else if method_id == 12
    then release_slice
    else if method_id == 13
    then preempt_node
    else if method_id == 14
    then get_job_result
    else other

abbrev blank_job : Job
blank_job = new_job 0 0 0 0 0 0 0 0

abbrev pub blank_slot : JobSlot
blank_slot = record { used = false; handle = 0; info = blank_job }

module _ (k : Kernel) where
  -- One mutex object for each id, its handle 0 where the factory refused.
  unfoldable pub create_mutexes : ℕ → ℕ → k.State → List ℕ × k.State
  create_mutexes zero i s = ([], s)
  create_mutexes (suc n) i s =
      let (handle, s') = k.create s (mutex i) in
      let (rest, s'') = create_mutexes n (i + 1) s' in (handle ∷ rest, s'')

  -- The image starts zeroed; what the function does not reset is as it was then.
  unfoldable pub init_schema : k.State → ℕ → Window → List Claim → Cluster k
  init_schema s memory_manager window claims =
      let (handles, s') = create_mutexes max_mutexes 0 s in
      let cleared : Cluster k = record {
        kernel = s';
        resource_storage = replicate resource_pool_size (record {
          owner_node = 0;
          kind = 0;
          descriptor = 0;
          capacity = 0;
          reserved_by = 0;
          sync_kind = 0;
        });
        resource_storage_next = 0;
        resource_index =
            replicate resource_pool_size (record { handle = 0; kind = 0; used = false });
        allocs =
            replicate max_alloc_records
              (record { node_id = 0; base = 0; size = 0; kind = 0; used = false });
        pool_resource = 0;
        node_storage = replicate max_nodes (record { node_id = 0; arch = 0; signal_target = 0 });
        node_storage_next = 0;
        node_index = replicate max_nodes (record { handle = 0; node_id = 0; used = false });
        mutex_storage = replicate max_mutexes (record { locked = false; holder_job_id = 0 });
        mutex_handles = handles;
        jobs = replicate job_pool_size blank_slot;
        completions = replicate job_pool_size (record { job_handle = 0; value = 0; used = false });
        completion_next = 0;
        memory_manager = memory_manager;
        window = window;
        claims = claims;
        signals = [];
      } in
      let (pool, c) =
        create_resource_object k cleared 0 resource_kind_memory window.alloc_min
          (window.alloc_max - window.alloc_min) sync_transfer 0 in
      record c { pool_resource = pool }

  unfoldable pub dispatch : Cluster k → Method → List ℕ → ℕ → Reply × Cluster k
  dispatch c join_node words cap = handle_join_node k c words cap
  dispatch c leave_node words cap = handle_leave_node k c words
  dispatch c request_allocation words cap = handle_request_allocation k c words cap
  dispatch c declare_resource words cap = handle_declare_resource k c words cap
  dispatch c get_resource_info words cap = handle_get_resource_info k c words cap
  dispatch c allocate_slice words cap = handle_allocate_slice k c words cap
  dispatch c release_slice words cap = handle_release_slice k c words cap
  dispatch c preempt_node words cap = handle_preempt_node k c words cap
  dispatch c reassign_resource words cap = handle_reassign_resource k c words cap
  dispatch c submit_job words cap = handle_submit_job k c words cap
  dispatch c get_next_job words cap = handle_get_next_job k c words cap
  dispatch c report_job_result words cap = handle_report_job_result k c words
  dispatch c get_job_result words cap = handle_get_job_result k c words cap
  dispatch c mutex_try_lock words cap = handle_mutex_try_lock k c words cap
  dispatch c mutex_unlock words cap = handle_mutex_unlock k c words
  dispatch c other words cap = (none, c)

  unfoldable pub handler : Cluster k → ℕ → List ℕ → ℕ → Reply × Cluster k
  handler c method_id words cap = dispatch c (method_of method_id) words cap
