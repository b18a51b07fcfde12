-- ===== src/Cluster/Examples/Methods.antt =====
-- Methods of coreinit/cluster_scheduler.c at concrete clusters and objects.
use otos_coreinit.Base.{◌≡◌, ◌⊎◌, refl, true, false, false≢true, [], ◌∷◌, none, some, set, arith}
use otos_coreinit.Kernel.{resource}
use otos_coreinit.Kernel.Table.{table_kernel, lookup}
use otos_coreinit.Wire.{respond, Message, build_flat, read_flat_exact, read_flat}
use otos_coreinit.Wire.RoundTrip.{read_flat_exact-build_flat}
use otos_coreinit.Cluster.Objects.{
  node_handler, Job, Resource, Mutex, reserve, reassign, mutex_handler, try_lock, unlock,
}
use otos_coreinit.Cluster.Objects.Exclusion.{
  serve_resource, serve_mutex, reservation-Exclusive, lock-Exclusive,
}
use otos_coreinit.Cluster.State.{
  Cluster, fill_first, invoke, call_object, call_mutex, param_words, at_least,
}
use otos_coreinit.Cluster.Resources.{create_resource_object}
use otos_coreinit.Cluster.Nodes.{find_node, create_node_object, node_find_by_id, node_destroy}
use otos_coreinit.Cluster.Nodes.Membership.{join_node-Member}
use otos_coreinit.Cluster.Jobs.{free_slot, find_job, create_job_object, new_job}
use otos_coreinit.Cluster.Handlers.{drop_entry, handle_join_node, handle_declare_resource}
use otos_coreinit.Cluster.Handlers.Guards.{Declared, declare_resource-OwnsMmu}
use otos_coreinit.Cluster.Asks.{Asked}
use otos_coreinit.Cluster.JobHandlers.{
  mutex_object_for_id, handle_mutex_try_lock, handle_submit_job,
}
use otos_coreinit.Scheduler.Memory.Contention.{Contended, lock-unlock-Contended}
use otos_coreinit.Cluster.Dispatch.{method_of, dispatch, handler, init_schema, create_mutexes}
use otos_coreinit.Cluster.Traces.{run}
use otos_coreinit.Cluster.Examples.{any, c2}

abbrev job11 : Job
job11 = new_job 3 11 12 1 any 0 any 0

abbrev job12 : Job
job12 = new_job 4 11 12 2 any 0 any 0

-- The job 11 holds the mutex 0.
abbrev with_lock : Cluster table_kernel
with_lock = (handler table_kernel c2 8 (0 ∷ 11 ∷ []) 24).1

lock-unlock-Contended_example :
    Contended with_lock 0 11 job12 job11
      (handler table_kernel with_lock 8 (0 ∷ 12 ∷ []) 24)
      (handler table_kernel (handler table_kernel with_lock 8 (0 ∷ 12 ∷ []) 24).1 9 (0 ∷ 11 ∷ []) 0)
unfolding run handler method_of dispatch handle_submit_job create_job_object free_slot init_schema
    create_mutexes create_resource_object fill_first find_job handle_mutex_try_lock
    mutex_object_for_id invoke call_object call_mutex param_words mutex_handler try_lock at_least
    lookup
lock-unlock-Contended_example =
    lock-unlock-Contended with_lock 0 2 12 11 job12 job11
      (record { named = refl; nonzero = refl; resolves = refl; stored = refl }) refl refl

abbrev held : Resource
held = record {
  owner_node = 7;
  kind = 0;
  descriptor = 4096;
  capacity = 8192;
  reserved_by = 11;
  sync_kind = 0;
}

reservation-Exclusive_example :
    (serve_resource held ((1, 12 ∷ []) ∷ (2, 12 ∷ []) ∷ (3, 9 ∷ []) ∷ []) ≡ held)
    × (reserve (serve_resource held ((1, 12 ∷ []) ∷ (2, 12 ∷ []) ∷ (3, 9 ∷ []) ∷ [])) 12
        ≡ (false, held))
    × (reassign (serve_resource held ((1, 12 ∷ []) ∷ (2, 12 ∷ []) ∷ (3, 9 ∷ []) ∷ [])) 9
        ≡ (false, held))
    × (reserve (serve_resource held ((1, 12 ∷ []) ∷ (2, 12 ∷ []) ∷ (3, 9 ∷ []) ∷ [])) 11
        ≡ (true, held))
reservation-Exclusive_example =
    reservation-Exclusive held ((1, 12 ∷ []) ∷ (2, 12 ∷ []) ∷ (3, 9 ∷ []) ∷ []) 12 9 (omega arith)
      (omega arith) (omega arith)

abbrev locked : Mutex
locked = record { locked = true; holder_job_id = 11 }

lock-Exclusive_example :
    (serve_mutex locked ((0, 12 ∷ []) ∷ (1, 12 ∷ []) ∷ []) ≡ locked)
    × (mutex_handler (serve_mutex locked ((0, 12 ∷ []) ∷ (1, 12 ∷ []) ∷ [])) 0 (12 ∷ []) 64
        ≡ (some (0 ∷ 11 ∷ []), locked))
    × (try_lock (unlock (serve_mutex locked ((0, 12 ∷ []) ∷ (1, 12 ∷ []) ∷ [])) 11).1 12
        ≡ (true, record { locked = true; holder_job_id = 12 }))
lock-Exclusive_example =
    lock-Exclusive locked ((0, 12 ∷ []) ∷ (1, 12 ∷ []) ∷ []) 12 refl (omega arith)

-- A cluster in which the job 11 holds a slice of memory, the resource behind the handle 13.
abbrev with_slice : Cluster table_kernel
with_slice = record c2 {
  kernel = record { count = 13; live = (13, resource 1) ∷ c2.kernel.live };
  resource_storage = set c2.resource_storage 1 held;
  claims = record { base = 4096; size = 8192; kind = 3; used = true } ∷ [];
}

declare_resource-OwnsMmu_example :
    (((handle_declare_resource table_kernel c2 (7 ∷ 0 ∷ 4096 ∷ 4096 ∷ 1 ∷ []) 64).0
        ≡ respond 64 (0 ∷ []))
      × Asked c2 (handle_declare_resource table_kernel c2 (7 ∷ 0 ∷ 4096 ∷ 4096 ∷ 1 ∷ []) 64).1)
    ⊎ Declared table_kernel c2
        (7 ∷ 0 ∷ 4096 ∷ 4096 ∷ 1 ∷ [])
        64
        (handle_declare_resource table_kernel c2 (7 ∷ 0 ∷ 4096 ∷ 4096 ∷ 1 ∷ []) 64)
declare_resource-OwnsMmu_example =
    declare_resource-OwnsMmu table_kernel c2 (7 ∷ 0 ∷ 4096 ∷ 4096 ∷ 1 ∷ []) 64 refl

join_node-Member_example :
    (node_find_by_id table_kernel (handle_join_node table_kernel c2 (7 ∷ 1 ∷ 0 ∷ []) 64).1 7
      ≡ (create_node_object table_kernel c2 7 1 0).0)
    × (handle_join_node table_kernel
          (handle_join_node table_kernel c2 (7 ∷ 1 ∷ 0 ∷ []) 64).1
          (7 ∷ 1 ∷ 0 ∷ [])
          64
        ≡ (respond 64 (0 ∷ []), (handle_join_node table_kernel c2 (7 ∷ 1 ∷ 0 ∷ []) 64).1))
    × (node_find_by_id table_kernel
          (node_destroy table_kernel (handle_join_node table_kernel c2 (7 ∷ 1 ∷ 0 ∷ []) 64).1 7)
          7
        ≡ 0)
unfolding run handler method_of dispatch handle_submit_job create_job_object free_slot init_schema
    create_mutexes create_resource_object fill_first find_node create_node_object
join_node-Member_example =
    join_node-Member table_kernel c2 (7 ∷ 1 ∷ 0 ∷ []) 64 refl (λ u. absurd (false≢true u))
      (omega arith)

read_flat_exact-build_flat_example :
    (m : Message) × (build_flat 40 (1 ∷ 10 ∷ []) ≡ some m)
    × (read_flat_exact m 2 ≡ some (1 ∷ 10 ∷ []))
    × (read_flat m.words ≡ 1 ∷ 10 ∷ [])
read_flat_exact-build_flat_example = read_flat_exact-build_flat 40 (1 ∷ 10 ∷ []) 2 (omega arith)

-- An id that is a negative int, or past the table, has no object.
ids_out_of_range :
    (mutex_object_for_id c2.mutex_handles 0 ≡ 2)
    × (mutex_object_for_id c2.mutex_handles 8 ≡ 0)
    × (mutex_object_for_id c2.mutex_handles 0xFFFFFFFF ≡ 0)
unfolding mutex_object_for_id run handler method_of dispatch handle_submit_job create_job_object
    free_slot init_schema create_mutexes create_resource_object
ids_out_of_range = (refl, refl, refl)

signals_its_target :
    node_handler (record { node_id = 7; arch = 1; signal_target = 3 }) 1 0 ≡ (none, some 3)
unfolding node_handler
signals_its_target = refl

drops_first :
    drop_entry 11 (
      record { handle = 10; kind = 0; used = true }
      ∷ record { handle = 11; kind = 0; used = true }
      ∷ record { handle = 11; kind = 0; used = true }
      ∷ [])
    ≡ record { handle = 10; kind = 0; used = true }
      ∷ record { handle = 11; kind = 0; used = false }
      ∷ record { handle = 11; kind = 0; used = true }
      ∷ []
unfolding drop_entry
drops_first = refl
