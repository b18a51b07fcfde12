-- ===== src/Cluster/Examples/Sequences.antt =====
-- Sequences of calls of coreinit/cluster_scheduler.c at concrete clusters.
use otos_coreinit.Base.{ℕ, ◌≡◌, ◌≢◌, refl, true, false, List, [], ◌∷◌, arith}
use otos_coreinit.Kernel.Table.{table_kernel, table-KernelLaws, lookup}
use otos_coreinit.Cluster.Objects.{Job, resource_handler, reserve}
use otos_coreinit.Cluster.State.{
  Cluster, JobSlot, fill_first, invoke, call_object, call_resource, param_words, destroy, at_least,
}
use otos_coreinit.Cluster.Resources.{
  create_resource_object, resource_get_info, resource_reserve, resource_call,
  resource_release_reservation,
}
use otos_coreinit.Cluster.Jobs.{
  free_slot, find_job, update_job, create_job_object, destroy_job_object, clear_slot, new_job,
  completion_record,
}
use otos_coreinit.Cluster.Pick.{
  unblock, considered, resource_ok_for, scan_jobs, offer, best, choose_resource, bind_resource_for,
  claim_job, pick_next_for_node, info_passes,
}
use otos_coreinit.Cluster.Pick.Chosen.{Handed, picked-Handed}
use otos_coreinit.Cluster.Pick.Order.{Served, pick-highest}
use otos_coreinit.Cluster.Handlers.{release_job_resource}
use otos_coreinit.Cluster.JobHandlers.{
  handle_submit_job, handle_get_next_job, handle_report_job_result, finish_job, returned,
  change_job,
}
use otos_coreinit.Cluster.Dispatch.{method_of, dispatch, handler, init_schema, create_mutexes}
use otos_coreinit.Cluster.Traces.{Call, run}
use otos_coreinit.Cluster.Traces.Handles.{handles-Distinct}
use otos_coreinit.Cluster.Traces.Jobs.{SameRequest, given_once, binding-stays, request-stays}
use otos_coreinit.Cluster.Traces.Finished.{finished_gone}
use otos_coreinit.Cluster.Examples.{boot, any, call, submit, get_next_job, two_jobs, c2}

-- The second job has the higher priority.
picks_higher : (pick_next_for_node table_kernel c2 7).0 ≡ (12, 1)
unfolding run handler method_of dispatch handle_submit_job create_job_object free_slot init_schema
    create_mutexes create_resource_object fill_first pick_next_for_node scan_jobs considered
    resource_ok_for unblock offer best claim_job update_job bind_resource_for choose_resource
picks_higher = refl

abbrev between : List Call
between = submit 5 9 0 ∷ get_next_job 8 ∷ call 8 (0 ∷ 12 ∷ []) ∷ []

given_once_example :
    (pick_next_for_node table_kernel
      (run table_kernel (pick_next_for_node table_kernel c2 7).1 between)
      9).0.0
    ≢ (pick_next_for_node table_kernel c2 7).0.0
unfolding run handler method_of dispatch handle_submit_job create_job_object free_slot init_schema
    create_mutexes create_resource_object fill_first pick_next_for_node scan_jobs considered
    resource_ok_for unblock offer best claim_job update_job bind_resource_for choose_resource
given_once_example =
    given_once table-KernelLaws boot two_jobs between 7 9 (omega arith)
      ((λ r. cc), ((λ r. cc), ((λ r. cc), tt)))

abbrev job12 : Job
job12 = new_job 4 11 12 2 any 0 any 0

abbrev slot12 : JobSlot
slot12 = record { used = true; handle = 12; info = job12 }

handles-Distinct_example : ◌≡◌ {A = ℕ} 1 1
unfolding run handler method_of dispatch handle_submit_job create_job_object free_slot init_schema
    create_mutexes create_resource_object fill_first pick_next_for_node scan_jobs considered
    resource_ok_for unblock offer best claim_job update_job bind_resource_for choose_resource
handles-Distinct_example =
    handles-Distinct table-KernelLaws boot two_jobs 1 1 slot12 slot12 refl refl refl refl refl

finished_gone_example : ◌≢◌ {A = ℕ} 12 11
unfolding run handler method_of dispatch handle_submit_job create_job_object free_slot init_schema
    create_mutexes create_resource_object fill_first pick_next_for_node scan_jobs considered
    resource_ok_for unblock offer best claim_job update_job bind_resource_for choose_resource
    handle_get_next_job handle_report_job_result finish_job find_job release_job_resource
    resource_release_reservation resource_call completion_record destroy_job_object clear_slot
    destroy
finished_gone_example =
    finished_gone table-KernelLaws boot two_jobs (get_next_job 7 ∷ []) (11 ∷ 1 ∷ 0 ∷ 99 ∷ [])
      (new_job 3 11 12 1 any 0 any 0) 1
      (record slot12 { info = record job12 { dispatched = true; assigned_node = 7 } }) refl refl
      refl refl

-- The cluster with the two slots alone.
abbrev small : Cluster table_kernel
small = record c2 {
  jobs = record { used = true; handle = 11; info = new_job 3 11 12 1 any 0 any 0 } ∷ slot12 ∷ [];
}

pick-highest_example : Served table_kernel slot12 (pick_next_for_node table_kernel small 7)
unfolding run handler method_of dispatch handle_submit_job create_job_object free_slot init_schema
    create_mutexes create_resource_object fill_first pick_next_for_node scan_jobs considered
    resource_ok_for unblock offer best claim_job update_job bind_resource_for choose_resource
pick-highest_example = pick-highest table_kernel small 7 1 slot12 (refl, (refl, tt)) refl refl refl

picked-Handed_example :
    Handed 7
      (pick_next_for_node table_kernel c2 7).0.0
      (pick_next_for_node table_kernel c2 7).0.1
      c2.jobs
      (pick_next_for_node table_kernel c2 7).1.jobs
unfolding run handler method_of dispatch handle_submit_job create_job_object free_slot init_schema
    create_mutexes create_resource_object fill_first pick_next_for_node scan_jobs considered
    resource_ok_for unblock offer best claim_job update_job bind_resource_for choose_resource
picked-Handed_example = picked-Handed table_kernel c2 7 (omega arith)

-- Job 11 has the pool's resource, 10.
abbrev bound_job : Job
bound_job = record (new_job 3 11 12 1 any 10 any 0) {
  bound_resource_id = 10;
  dispatched = true;
  assigned_node = 7;
}

abbrev with_resource : List Call
with_resource = submit 3 1 10 ∷ get_next_job 7 ∷ []

abbrev yielded : List Call
yielded = call 7 (11 ∷ 0 ∷ 0 ∷ 0 ∷ []) ∷ []

binding-stays_example : ◌≡◌ {A = ℕ} 10 10
unfolding run handler method_of dispatch handle_submit_job create_job_object free_slot init_schema
    create_mutexes create_resource_object fill_first pick_next_for_node scan_jobs considered
    resource_ok_for unblock offer best claim_job update_job bind_resource_for choose_resource
    handle_get_next_job info_passes resource_get_info invoke call_object call_resource param_words
    resource_handler reserve resource_reserve resource_call lookup handle_report_job_result
    change_job returned find_job at_least
binding-stays_example =
    binding-stays table-KernelLaws boot with_resource yielded 0 0 11 bound_job
      (record bound_job { dispatched = false })
      (record { slot = _; at = refl; used = refl; handle = refl; info = refl }) (omega arith)
      (record { slot = _; at = refl; used = refl; handle = refl; info = refl })

request-stays_example :
    (◌≡◌ {A = ℕ} 0 0) × SameRequest bound_job (record bound_job { dispatched = false })
unfolding run handler method_of dispatch handle_submit_job create_job_object free_slot init_schema
    create_mutexes create_resource_object fill_first pick_next_for_node scan_jobs considered
    resource_ok_for unblock offer best claim_job update_job bind_resource_for choose_resource
    handle_get_next_job info_passes resource_get_info invoke call_object call_resource param_words
    resource_handler reserve resource_reserve resource_call lookup handle_report_job_result
    change_job returned find_job at_least
request-stays_example =
    request-stays table-KernelLaws boot with_resource yielded 0 0 11 bound_job
      (record bound_job { dispatched = false })
      (record { slot = _; at = refl; used = refl; handle = refl; info = refl })
      (record { slot = _; at = refl; used = refl; handle = refl; info = refl })
