-- ===== src/Cluster/Traces/Finished.antt =====
-- A job of coreinit/cluster_scheduler.c that reported its end is gone for good.
use otos_coreinit.Base.{
  ℕ, ◌+◌, ◌<◌, ◌≡◌, ◌≢◌, refl, sym, ◌∙◌, subst, inl, inr, true, List, [], ◌∷◌, none, some, arith,
  ◌==◌, ◌&&◌, to_int, get_elem?, All-of, AllAt, AllAt-get_elem?, Bool-cases, Option-cases,
}
use otos_coreinit.Kernel.{Kernel, KernelLaws}
use otos_coreinit.Wire.{word}
use otos_coreinit.Cluster.Objects.{Job}
use otos_coreinit.Cluster.State.{Cluster, JobSlot}
use otos_coreinit.Cluster.Jobs.{find_job, clear_slot, completion_record, destroy_job_object}
use otos_coreinit.Cluster.JobHandlers.{job_info, handle_report_job_result, job_finished}
use otos_coreinit.Cluster.JobHandlers.Results.{report_finished, finish_job_found}
use otos_coreinit.Cluster.Keeps.{On, Has}
use otos_coreinit.Cluster.Handlers.{release_job_resource}
use otos_coreinit.Cluster.Keeps.Calls.{destroy_job_object-Has}
use otos_coreinit.Cluster.Keeps.Picks.{release_job_resource-Has}
use otos_coreinit.Cluster.Traces.{Call, run, given_out, run-Has, Boot, reached}
use otos_coreinit.Cluster.Traces.Handles.{reached-Single, Never, Never-Closed}

-- Behind the one slot of a handle it does not stand.
behind :
    (ss : List JobSlot) (h b i0 : ℕ)
    → i0 < b
    → AllAt (On (λ i j. i ≡ i0) h) b ss
    → AllAt (On Never h) b ss
behind [] h b i0 lt on = tt
behind (s ∷ ss) h b i0 lt on =
    ((λ u e. omega (arith, on.0 u e)), behind ss h (b + 1) i0 (omega arith) on.1)

clear_slot-Never :
    (ss : List JobSlot) (h b i0 : ℕ)
    → AllAt (On (λ i j. i ≡ i0) h) b ss
    → AllAt (On Never h) b (clear_slot ss h)
unfolding clear_slot
clear_slot-Never [] h b i0 on = tt
clear_slot-Never (s ∷ ss) h b i0 on = elim (Bool-cases (s.used && s.handle == h)) [
  | inl e ↦
      let here : b ≡ i0 = on.0 (ground arith) (ground arith) in
      rw e ((λ u at. cc), behind ss h (b + 1) i0 (omega arith) on.1)
  | inr e ↦ rw e ((λ u at. ground arith), clear_slot-Never ss h (b + 1) i0 on.1)
]

find_job-Never : (ss : List JobSlot) (h b : ℕ) → AllAt (On Never h) b ss → find_job ss h ≡ none
unfolding find_job
find_job-Never [] h b on = refl
find_job-Never (s ∷ ss) h b on = elim (Bool-cases (s.used && s.handle == h)) [
  | inl e ↦ absurd (on.0 (ground arith) (ground arith))
  | inr e ↦ ground (arith, find_job-Never ss h (b + 1) on.1)
]

job_info-Never :
    (ss : List JobSlot) (h : ℕ) (j : Job) → AllAt (On Never h) 0 ss → job_info ss h ≢ some j
job_info-Never ss h j on e = let gone = find_job-Never ss h 0 on in ground (arith, gone, e)

Never-find_job : (ss : List JobSlot) (h b : ℕ) → find_job ss h ≡ none → AllAt (On Never h) b ss
unfolding find_job
Never-find_job [] h b e = tt
Never-find_job (s ∷ ss) h b e =
    ((λ u at. ground (arith, e, u, at)), Never-find_job ss h (b + 1) (ground (arith, e)))

module _ {k : Kernel} (laws : KernelLaws k) where
  destroyed-Never :
      (c : Cluster k) (h i0 : ℕ)
      → AllAt (On (λ i j. i ≡ i0) h) 0 c.jobs
      → AllAt (On Never h) 0 (destroy_job_object k c h).jobs
  unfolding destroy_job_object
  destroyed-Never c h i0 on = elim (Option-cases (find_job c.jobs h)) [
    | inl n ↦ rw (n, destroy_job_object) (Never-find_job c.jobs h 0 n)
    | inr (i, e) ↦ rw (e, destroy_job_object) (clear_slot-Never c.jobs h 0 i0 on)
  ]

  -- Once a job has reported that it finished, no slot holds its handle any more, whatever is called
  -- after that.
  pub finished_gone :
      (b : Boot k) (before after : List Call) (words : List ℕ) (j : Job) (i : ℕ) (s : JobSlot)
      → to_int (word words 1) ≡ job_finished
      → job_info (reached k b before).jobs (word words 0) ≡ some j
      → get_elem? (run k (handle_report_job_result k (reached k b before) words).1 after).jobs i
        ≡ some s
      → s.used ≡ true
      → s.handle ≢ word words 0
  unfolding completion_record
  finished_gone b before after words j i s finished here at used same =
      let c = reached k b before in
      let h = word words 0 in
      let single = reached-Single laws h b before in
      let d = completion_record (release_job_resource k c h j.bound_resource_id) h (word words 3) in
      let freed =
        release_job_resource-Has (given_out laws h) (λ i j. i ≡ single.index) h c h
          j.bound_resource_id
          (record {
            issued = λ new. job_info-Never c.jobs h j (single.absent new) here;
            on = single.one;
          }) in
      let recorded : Has (given_out laws h) (λ x y. x ≡ single.index) h d = record {
        issued = freed.issued;
        on = freed.on;
      } in
      let gone : Has (given_out laws h) Never h (destroy_job_object k d h) = record {
        issued =
            (destroy_job_object-Has (given_out laws h) (λ x y. x ≡ single.index) h d h
              recorded).issued;
        on = destroyed-Never d h single.index freed.on;
      } in
      let state =
        report_finished k c words finished ∙ finish_job_found k c h (word words 3) j here in
      let v =
        run-Has laws Never h Never-Closed after _ (All-of after (λ q e r x m n y z. z))
          (subst (Has (given_out laws h) Never h) (sym state) gone) in
      AllAt-get_elem? (On Never h) _ i s v.on at used same
