-- ===== src/Cluster/Keeps/JobMethods.antt =====
-- Each method of coreinit/cluster_scheduler.c on jobs and mutexes, and a whole call of the
-- handler, keeps what is closed under its changes to a job.
use otos_coreinit.Base.{
  ℕ, ◌≡◌, refl, inl, inr, List, [], ◌∷◌, arith, ◌==◌, not, lt_int, get_elem?, to_int, Bool-cases,
  Option-cases, AllAt,
}
use otos_coreinit.Kernel.{Kernel}
use otos_coreinit.Wire.{word}
use otos_coreinit.Cluster.Objects.{Job}
use otos_coreinit.Cluster.State.{Cluster, JobSlot, invoke, at_least}
use otos_coreinit.Cluster.Resources.{says_ok}
use otos_coreinit.Cluster.Jobs.{completion_record, completion_find}
use otos_coreinit.Cluster.Quiet.{invoke-Quiet}
use otos_coreinit.Cluster.Pick.{pick_next_for_node}
use otos_coreinit.Cluster.JobHandlers.{
  handle_submit_job, handle_get_next_job, finish_job, handle_report_job_result,
  handle_get_job_result, handle_mutex_try_lock, handle_mutex_unlock, returned, inherit, job_info,
  mutex_object_for_id,
}
use otos_coreinit.Cluster.Dispatch.{Method, dispatch}
use otos_coreinit.Cluster.Keeps.{Guard, Avoids, On, Has, Closed, change_job-On}
use otos_coreinit.Cluster.Keeps.Calls.{Quiet-Has, create_job_object-Has, destroy_job_object-Has}
use otos_coreinit.Cluster.Keeps.Picks.{release_job_resource-Has, pick_next_for_node-Has}
use otos_coreinit.Cluster.Keeps.Methods.{
  join_node-Has, leave_node-Has, preempt_node-Has, request_allocation-Has, allocate_slice-Has,
  release_slice-Has, declare_resource-Has, get_resource_info-Has, reassign_resource-Has,
}

-- A report on the job `h` itself keeps `Q` as well.
abbrev pub Returns : (ℕ → Job → Type 0) → ℕ → Method → List ℕ → Type 0
Returns Q h m words =
    m ≡ Method.report_job_result
    → word words 0 ≡ h
    → (i result block_id : ℕ) (j : Job) → Q i j
    → Q i (returned result block_id j)

module _ {k : Kernel} (laws : Guard k) (Q : ℕ → Job → Type 0) (h : ℕ) (c : Cluster k) where
  module _ (v : Has laws Q h c) (words : List ℕ) (cap : ℕ) where
    submit_job-Has : Avoids laws h → Has laws Q h (handle_submit_job k c words cap).1
    unfolding handle_submit_job
    submit_job-Has new = create_job_object-Has laws Q h c _ new v

    get_next_job-Has : Closed Q → Has laws Q h (handle_get_next_job k c words cap).1
    unfolding handle_get_next_job
    get_next_job-Has cl =
        let picked = pick_next_for_node-Has laws Q h cl c (word words 0) v in
        elim (Bool-cases (not ((pick_next_for_node k c (word words 0)).0.0 == 0))) [
          | inr z ↦ rw z picked
          | inl z ↦
              rw z
                (elim (Option-cases (
                  get_elem? (pick_next_for_node k c (word words 0)).1.jobs
                    (pick_next_for_node k c (word words 0)).0.1)) [
                      | inl e ↦ rw e picked
                      | inr (s, e) ↦ rw e picked
                    ])
        ]

    finish_job-Has : (job value : ℕ) → Has laws Q h (finish_job k c job value)
    unfolding finish_job completion_record
    finish_job-Has job value = elim (Option-cases (job_info c.jobs job)) [
      | inl e ↦ rw (e, finish_job) v
      | inr (j, e) ↦
          let freed = release_job_resource-Has laws Q h c job j.bound_resource_id v in
          rw (e, finish_job)
            (destroy_job_object-Has laws Q h _ job
              (record { issued = freed.issued; on = freed.on }))
    ]

    report_job_result-Has :
        Returns Q h Method.report_job_result words
        → Has laws Q h (handle_report_job_result k c words).1
    unfolding handle_report_job_result
    report_job_result-Has keep = elim (Bool-cases (to_int (word words 1) == 1)) [
      | inl e ↦ rw e (finish_job-Has (word words 0) (word words 3))
      | inr e ↦ rw e (record {
        issued = v.issued;
        on =
            change_job-On Q h c.jobs (word words 0) _ v.on
              (λ at i j fits. keep refl at i (to_int (word words 1)) (word words 2) j fits);
      })
    ]

    get_job_result-Has : Has laws Q h (handle_get_job_result k c words cap).1
    unfolding handle_get_job_result
    get_job_result-Has = elim (Option-cases (completion_find c.completions (word words 0))) [
      | inl e ↦ rw (e, handle_get_job_result) v
      | inr (value, e) ↦ rw (e, handle_get_job_result) v
    ]

  pub inherit-On :
      Closed Q
      → (ss : List JobSlot) (requesting holder : ℕ) → AllAt (On Q h) 0 ss
      → AllAt (On Q h) 0 (inherit ss requesting holder)
  unfolding inherit
  inherit-On cl ss requesting holder on = elim (Option-cases (job_info ss requesting)) [
    | inl e ↦ rw (e, inherit) on
    | inr (self, e) ↦
        rw (e, inherit)
          (change_job-On Q h ss holder _ on (λ at i j fits.
            elim (Bool-cases (lt_int j.effective_priority self.effective_priority)) [
              | inl lower ↦ rw lower (cl.reprioritised i j self.effective_priority fits)
              | inr higher ↦ rw higher fits
            ]))
  ]

  module _ (cl : Closed Q) (v : Has laws Q h c) (words : List ℕ) (cap : ℕ) where
    mutex_try_lock-Has : Has laws Q h (handle_mutex_try_lock k c words cap).1
    unfolding handle_mutex_try_lock
    mutex_try_lock-Has =
        let m = mutex_object_for_id c.mutex_handles (to_int (word words 0)) in
        let called = invoke k c m 0 (word words 1 ∷ []) 40 in
        let v1 =
          Quiet-Has laws Q h
            (invoke-Quiet k c m 0 (word words 1 ∷ []) 40 (omega arith) (omega arith)) v in
        elim (Bool-cases (not (m == 0))) [
          | inr z ↦ rw z v
          | inl z ↦ rw z (elim (Option-cases (at_least 32 called.0)) [
            | inl e ↦ rw e v1
            | inr (out, e) ↦ rw e (elim (Bool-cases (word out 0 == 0)) [
              | inr taken ↦ rw taken v1
              | inl refused ↦ rw refused (record {
                issued = v1.issued;
                on = inherit-On cl called.1.jobs (word words 1) (word out 1) v1.on;
              })
            ])
          ])
        ]

    mutex_unlock-Has : Has laws Q h (handle_mutex_unlock k c words).1
    unfolding handle_mutex_unlock
    mutex_unlock-Has =
        let m = mutex_object_for_id c.mutex_handles (to_int (word words 0)) in
        let called = invoke k c m 1 (word words 1 ∷ []) 24 in
        let v1 =
          Quiet-Has laws Q h
            (invoke-Quiet k c m 1 (word words 1 ∷ []) 24 (omega arith) (omega arith)) v in
        elim (Bool-cases (m == 0)) [
          | inl z ↦ rw z v
          | inr z ↦ rw z (elim (Bool-cases (says_ok 24 called.0)) [
            | inr e ↦ rw e v1
            | inl e ↦ rw e (record {
              issued = v1.issued;
              on =
                  change_job-On Q h called.1.jobs (word words 1) _ v1.on
                    (λ at i j fits. cl.reprioritised i j j.base_priority fits);
            })
          ])
        ]

  pub dispatch-Has :
      Closed Q
      → Has laws Q h c
      → (m : Method) (words : List ℕ) (cap : ℕ) → (m ≡ Method.submit_job → Avoids laws h)
      → Returns Q h m words
      → Has laws Q h (dispatch k c m words cap).1
  unfolding dispatch
  dispatch-Has cl v Method.join_node words cap new keep = join_node-Has laws Q h c v words cap
  dispatch-Has cl v Method.leave_node words cap new keep = leave_node-Has laws Q h c v words cap cl
  dispatch-Has cl v Method.request_allocation words cap new keep =
      request_allocation-Has laws Q h c v words cap
  dispatch-Has cl v Method.declare_resource words cap new keep =
      declare_resource-Has laws Q h c v words cap
  dispatch-Has cl v Method.get_resource_info words cap new keep =
      get_resource_info-Has laws Q h c v words cap
  dispatch-Has cl v Method.allocate_slice words cap new keep =
      allocate_slice-Has laws Q h c v words cap
  dispatch-Has cl v Method.release_slice words cap new keep =
      release_slice-Has laws Q h c v words cap
  dispatch-Has cl v Method.preempt_node words cap new keep = preempt_node-Has laws Q h c v words cap
  dispatch-Has cl v Method.reassign_resource words cap new keep =
      reassign_resource-Has laws Q h c v words cap
  dispatch-Has cl v Method.submit_job words cap new keep = submit_job-Has v words cap (new refl)
  dispatch-Has cl v Method.get_next_job words cap new keep = get_next_job-Has v words cap cl
  dispatch-Has cl v Method.report_job_result words cap new keep =
      report_job_result-Has v words cap keep
  dispatch-Has cl v Method.get_job_result words cap new keep = get_job_result-Has v words cap
  dispatch-Has cl v Method.mutex_try_lock words cap new keep = mutex_try_lock-Has cl v words cap
  dispatch-Has cl v Method.mutex_unlock words cap new keep = mutex_unlock-Has cl v words cap
  dispatch-Has cl v Method.other words cap new keep = v
