-- ===== src/Cluster/JobHandlers/Results.antt =====
-- The end of a job in coreinit/cluster_scheduler.c: its slot, its completion, its handle.
use otos_coreinit.Base.{
  ℕ, ◌<◌, ◌≡◌, ◌≢◌, refl, ◌∙◌, ap, inl, inr, List, [], ◌∷◌, some, arith, length, to_int, All,
  Option-cases,
}
use otos_coreinit.Kernel.{Kernel}
use otos_coreinit.Wire.{word, respond}
use otos_coreinit.Cluster.Objects.{Job}
use otos_coreinit.Cluster.State.{Cluster, Completion, job_pool_size, destroy}
use otos_coreinit.Cluster.Jobs.{find_job, completion_record, completion_find, destroy_job_object}
use otos_coreinit.Cluster.Jobs.Completions.{Silent, record_all, completion_find-record_all}
use otos_coreinit.Cluster.Quiet.{Quiet, resource_call-Quiet}
use otos_coreinit.Cluster.Resources.{resource_release_reservation}
use otos_coreinit.Cluster.Handlers.{release_job_resource}
use otos_coreinit.Cluster.JobHandlers.{
  job_info, finish_job, handle_report_job_result, handle_get_job_result, job_finished,
}

release_job_resource-Quiet :
    (k : Kernel) (c : Cluster k) (j r : ℕ) → Quiet c (release_job_resource k c j r)
unfolding release_job_resource resource_release_reservation
release_job_resource-Quiet k c j r = resource_call-Quiet k c r 2 j

module _ (k : Kernel) where
  completions_kept :
      (c : Cluster k) (h : ℕ) → (destroy_job_object k c h).completions ≡ c.completions
  unfolding destroy_job_object destroy
  completions_kept c h = elim (Option-cases (find_job c.jobs h)) [
    | inl n ↦ rw (n, destroy_job_object) refl
    | inr (i, e) ↦ rw (e, destroy_job_object) refl
  ]

  pub finish_job_found :
      (c : Cluster k) (h v : ℕ) (j : Job)
      → job_info c.jobs h ≡ some j
      → finish_job k c h v
        ≡ destroy_job_object k
            (completion_record (release_job_resource k c h j.bound_resource_id) h v)
            h
  unfolding finish_job
  finish_job_found c h v j e = rw (e, finish_job) refl

  pub report_finished :
      (c : Cluster k) (words : List ℕ)
      → to_int (word words 1) ≡ job_finished
      → (handle_report_job_result k c words).1 ≡ finish_job k c (word words 0) (word words 3)
  unfolding handle_report_job_result
  report_finished c words e = rw e refl

  answered :
      (c : Cluster k) (h v cap : ℕ)
      → completion_find c.completions h ≡ some v
      → (handle_get_job_result k c (h ∷ []) cap).0 ≡ respond cap (1 ∷ v ∷ [])
  unfolding handle_get_job_result
  answered c h v cap e = rw (e, handle_get_job_result) refl

  next_kept :
      (c : Cluster k) (h : ℕ) → (destroy_job_object k c h).completion_next ≡ c.completion_next
  unfolding destroy_job_object destroy
  next_kept c h = elim (Option-cases (find_job c.jobs h)) [
    | inl n ↦ rw (n, destroy_job_object) refl
    | inr (i, e) ↦ rw (e, destroy_job_object) refl
  ]

  -- The ring depends on the ring alone.
  record_all-completions :
      (c d : Cluster k) (qs : List (ℕ × ℕ))
      → c.completions ≡ d.completions
      → c.completion_next ≡ d.completion_next
      → (record_all c qs).completions ≡ (record_all d qs).completions
  unfolding record_all completion_record
  record_all-completions c d [] same next = same
  record_all-completions c d ((h, v) ∷ qs) same next =
      record_all-completions (completion_record c h v) (completion_record d h v) qs
        (ground (arith, same, next)) (ground (arith, next))

  -- The two methods on one state: with no completion of the job in the ring before its report, and
  -- fewer than 32 results of other jobs recorded since.
  pub get_job_result-report_job_result :
      (c : Cluster k) (words : List ℕ) (cap : ℕ) (j : Job) (qs : List (ℕ × ℕ))
      → to_int (word words 1) ≡ job_finished
      → job_info c.jobs (word words 0) ≡ some j
      → length c.completions ≡ job_pool_size
      → All (Silent (word words 0)) c.completions
      → All (λ q. q.0 ≢ word words 0) qs
      → length qs < job_pool_size
      → (handle_get_job_result k
          (record_all (handle_report_job_result k c words).1 qs)
          (word words 0 ∷ [])
          cap).0
        ≡ respond cap (1 ∷ word words 3 ∷ [])
  unfolding record_all
  get_job_result-report_job_result c words cap j qs finished here size fresh others few =
      let h = word words 0 in
      let v = word words 3 in
      let r = release_job_resource k c h j.bound_resource_id in
      let q = release_job_resource-Quiet k c h j.bound_resource_id in
      let d = completion_record r h v in
      let found =
        completion_find-record_all r h v qs (rw (q.completions) size) (rw (q.completions) fresh)
          others few in
      let state = report_finished c words finished ∙ finish_job_found c h v j here in
      let same =
        record_all-completions (destroy_job_object k d h) d qs (completions_kept d h)
          (next_kept d h) in
      answered (record_all (handle_report_job_result k c words).1 qs) h v cap
        (rw state (ap (λ (ds : List Completion). completion_find ds h) same ∙ found))
