-- ===== src/Scheduler/Results.antt =====
-- scheduler_get_job_result of coreinit/scheduler.c against the scheduler it asks.
use otos_coreinit.Base.{
  ℕ, ◌<◌, ◌≡◌, ◌≢◌, refl, ap, List, [], ◌∷◌, none, some, length, All, Option, if◌then◌else◌, ◌==◌,
}
use otos_coreinit.Kernel.{Kernel}
use otos_coreinit.Wire.{word}
use otos_coreinit.Cluster.Objects.{Job}
use otos_coreinit.Cluster.State.{Cluster, job_pool_size, at_least}
use otos_coreinit.Cluster.Jobs.Completions.{Silent, record_all}
use otos_coreinit.Cluster.JobHandlers.{
  job_info, handle_report_job_result, handle_get_job_result, job_finished,
}
use otos_coreinit.Cluster.JobHandlers.Results.{get_job_result-report_job_result}
use otos_coreinit.Cluster.Dispatch.{method_of, dispatch, handler}
use otos_coreinit.Scheduler.{Client, scheduler_call, scheduler_get_job_result}
use otos_coreinit.Scheduler.Worker.{report_words, reach}

module _ (k : Kernel) (asking : Client) where
  read_value :
      (s : Cluster k) (h v : ℕ)
      → (handle_get_job_result k s (h ∷ []) 32).0 ≡ some (1 ∷ v ∷ [])
      → (scheduler_get_job_result (Cluster k) (reach k) asking h s).0 ≡ some v
  unfolding scheduler_call handler method_of dispatch at_least
  read_value s h v e =
      let read : Option (List ℕ) → Option ℕ = λ reply. elim (at_least 32 reply) [
        | none ↦ none
        | some out ↦ if word out 0 == 0 then none else some (word out 1)
      ] in
      ap read e

  -- The worker's report of a job that is there and finished with the block id `v` reaches whoever
  -- asks: if no completion of that job was in the ring, then, until 32 results of other jobs were
  -- recorded, scheduler_get_job_result for it succeeds, with the value `v`.
  pub get_job_result-report :
      (s : Cluster k) (h v : ℕ) (j : Job) (qs : List (ℕ × ℕ))
      → job_info s.jobs h ≡ some j
      → length s.completions ≡ job_pool_size
      → All (Silent h) s.completions
      → All (λ q. q.0 ≢ h) qs
      → length qs < job_pool_size
      → (scheduler_get_job_result
          (Cluster k)
          (reach k)
          asking
          h
          (record_all (handler k s 7 (report_words h job_finished v) 0).1 qs)).0
        ≡ some v
  unfolding handler method_of dispatch
  get_job_result-report s h v j qs here size fresh others few =
      read_value (record_all (handle_report_job_result k s (report_words h job_finished v)).1 qs) h
        v
        (get_job_result-report_job_result k s (report_words h job_finished v) 32 j qs refl here size
          fresh others few)
