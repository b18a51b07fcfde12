-- ===== src/Scheduler/Examples.antt =====
-- Clients of coreinit/scheduler.c at concrete clusters.
use otos_coreinit.Base.{
  ℕ, ◌+◌, List, ◌^◌, ◌-◌, ◌≡◌, ◌⊎◌, refl, true, false, [], ◌∷◌, none, some, arith, zero, suc,
  false≢true, replicate, All,
}
use otos_coreinit.Kernel.{memory_manager, job}
use otos_coreinit.Kernel.Table.{table-KernelLaws, table_kernel, lookup}
use otos_coreinit.Cluster.Objects.{Mutex}
use otos_coreinit.Cluster.State.{at_least, Cluster, JobSlot, fill_first}
use otos_coreinit.Cluster.Resources.{create_resource_object}
use otos_coreinit.Cluster.Jobs.{find_job, free_slot, update_job, create_job_object, new_job}
use otos_coreinit.Cluster.Pick.{
  unblock, considered, resource_ok_for, scan_jobs, offer, best, choose_resource, bind_resource_for,
  claim_job, pick_next_for_node,
}
use otos_coreinit.Cluster.JobHandlers.{job_info, handle_submit_job, job_finished}
use otos_coreinit.Cluster.Jobs.Completions.{Silent, record_all}
use otos_coreinit.Scheduler.Submit.{job_info-submit}
use otos_coreinit.Scheduler.Results.{get_job_result-report}
use otos_coreinit.Cluster.Dispatch.{method_of, dispatch, handler, init_schema, create_mutexes}
use otos_coreinit.Cluster.Traces.{Call, Boot, run, reached}
use otos_coreinit.Scheduler.{
  Client, scheduler_client_init, scheduler_client, scheduler_call, scheduler_submit_values_to_node,
  scheduler_get_job_result,
}
use otos_coreinit.Scheduler.Memory.{try_acquire_local}
use otos_coreinit.Scheduler.Memory.Mutex.{Finished, Waiting, try_acquire_local_lem}
use otos_coreinit.Scheduler.Worker.{
  Tables, JobFn, register_value_job_type, ran, round, report_words, reach, round-run,
}

abbrev any : ℕ
any = 0xFFFFFFFFFFFFFFFF

abbrev node7 : Client
node7 = record { core = none; global = record { invoke_fn = 0x1000; scheduler = 20; node_id = 7 } }

-- A core with a state of its own keeps the global binding as it is.
binds_the_core :
    scheduler_client (
      scheduler_client_init
        (record node7 { core = some (record { invoke_fn = 0; scheduler = 0; node_id = 0 }) })
        0x2000
        21
        9)
    ≡ record { invoke_fn = 0x2000; scheduler = 21; node_id = 9 }
unfolding scheduler_client scheduler_client_init
binds_the_core = refl

-- A job that finishes with the sum of its arguments.
abbrev adds : JobFn (Cluster table_kernel)
adds arg0 arg1 self s = ((1, arg0 + arg1), s)

abbrev no_types : Tables (Cluster table_kernel)
no_types = record { values = λ type. none; plain = λ type. none }

abbrev boot0 : Boot table_kernel
boot0 = record {
  kernel = record { count = 0; live = [] };
  memory_manager = 0;
  window = record { alloc_min = 4096; alloc_max = 1048576 };
  claims = [];
}

abbrev first_call : List Call
first_call =
    record { method_id = 5; words = any ∷ 3 ∷ 11 ∷ 12 ∷ 1 ∷ 0 ∷ any ∷ 0 ∷ []; cap = 24 } ∷ []

abbrev c1 : Cluster table_kernel
c1 = reached table_kernel boot0 first_call

abbrev second : ℕ × Cluster table_kernel
second =
    scheduler_submit_values_to_node (Cluster table_kernel) (reach table_kernel) node7 any 4 21 22
      (2 ^ 32 - 1) 0 any 0 c1

abbrev slot10 : JobSlot
slot10 = record {
  used = true;
  handle = 10;
  info = record (new_job 3 11 12 1 any 0 any 0) { dispatched = true; assigned_node = 7 };
}

round-run_example :
    round
      (Cluster table_kernel)
      (reach table_kernel)
      node7
      (register_value_job_type no_types 3 adds)
      c1
    ≡ (
      ran 10 1,
      run table_kernel c1 (
          record { method_id = 6; words = 7 ∷ []; cap = 64 }
          ∷ record { method_id = 7; words = 10 ∷ 1 ∷ 23 ∷ 23 ∷ []; cap = 0 }
          ∷ []),
    )
unfolding run handler method_of dispatch handle_submit_job create_job_object free_slot init_schema
    create_mutexes create_resource_object fill_first pick_next_for_node scan_jobs considered
    resource_ok_for unblock offer best claim_job update_job bind_resource_for choose_resource
    scheduler_client
round-run_example =
    round-run table_kernel node7 no_types c1 slot10 adds 1 23 [] (omega arith) refl (omega arith)
      refl

-- The start of a cluster with its memory manager; the allocator's mutex is behind the handle 2.
abbrev c0 : Cluster table_kernel
c0 =
    reached table_kernel
      (record {
        kernel = record { count = 1; live = (1, memory_manager) ∷ [] };
        memory_manager = 1;
        window = record { alloc_min = 4096; alloc_max = 1048576 };
        claims = [];
      })
      []

abbrev open_mutex : Mutex
open_mutex = record { locked = false; holder_job_id = 0 }

try_acquire_local_lem_example :
    ((open_mutex.locked ≡ false)
      × Finished 0 33
          (try_acquire_local (Cluster table_kernel) (reach table_kernel) node7 8192 3 33 c0))
    ⊎ ((open_mutex.locked ≡ true)
        × Waiting c0 0 open_mutex
            (try_acquire_local (Cluster table_kernel) (reach table_kernel) node7 8192 3 33 c0))
unfolding run init_schema create_mutexes create_resource_object fill_first lookup
try_acquire_local_lem_example =
    try_acquire_local_lem table-KernelLaws c0 node7 0 2 33 8192 3 open_mutex refl (omega arith)
      (record { named = refl; nonzero = refl; resolves = refl; stored = refl })

fresh_ring :
    (n h : ℕ) → All (Silent h) (replicate n (record { job_handle = 0; value = 0; used = false }))
fresh_ring zero h = tt
fresh_ring (suc n) h = ((λ u. absurd (false≢true u)), fresh_ring n h)

-- A job of type 3 that the node 7 runs; asked for by the same node.
get_job_result-report_example :
    (scheduler_get_job_result (Cluster table_kernel) (reach table_kernel) node7 10 (
      record_all
        (handler table_kernel c1 7 (report_words 10 job_finished 23) 0).1
        ((12, 5) ∷ []))).0
    ≡ some 23
unfolding run handler method_of dispatch handle_submit_job create_job_object free_slot init_schema
    create_mutexes create_resource_object fill_first find_job
get_job_result-report_example =
    get_job_result-report table_kernel node7 c1 10 23 (new_job 3 11 12 1 any 0 any 0) ((12, 5) ∷ [])
      refl refl (fresh_ring 32 10) ((omega arith), tt) (omega arith)

-- A second job: the kernel gives it the handle 11, and the first one stays behind the handle 10.
job_info-submit_example :
    (second.0 ≡ (table_kernel.create c1.kernel (job 1)).0)
    × (job_info second.1.jobs second.0
        ≡ some (record {
          type = 4;
          arg0 = 21;
          arg1 = 22;
          base_priority = 2 ^ 32 - 1;
          effective_priority = 2 ^ 32 - 1;
          node_affinity = any;
          assigned_node = any;
          resource_id = 0;
          resource_kind = any;
          resource_min_capacity = 0;
          bound_resource_id = 0;
          blocked = 0;
          block_kind = 0;
          block_id = 0;
          dispatched = false;
        }))
    × (job_info second.1.jobs 10 ≡ job_info c1.jobs 10)
unfolding run handler method_of dispatch handle_submit_job create_job_object free_slot init_schema
    create_mutexes create_resource_object fill_first scheduler_call at_least
job_info-submit_example =
    job_info-submit table-KernelLaws node7 boot0 first_call any 4 21 22 (2 ^ 32 - 1) 0 any 0 1 10
      (omega arith) (omega arith) refl (omega arith) (omega arith)
