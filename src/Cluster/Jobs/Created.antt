-- ===== src/Cluster/Jobs/Created.antt =====
-- The job that create_job_object of coreinit/cluster_scheduler.c leaves behind.
use otos_coreinit.Base.{
  ℕ, ◌+◌, AllAt, ◌≡◌, ◌≢◌, refl, inl, inr, List, [], ◌∷◌, some, arith, ◌==◌, set,
  get_elem?-set_self, sym, Option-cases, Bool-cases, ==_ne,
}
use otos_coreinit.Kernel.{Kernel, KernelLaws, job}
use otos_coreinit.Cluster.Keeps.{On}
use otos_coreinit.Cluster.Traces.{Call, Boot, reached}
use otos_coreinit.Cluster.Traces.Handles.{Never, reached-Single}
use otos_coreinit.Cluster.JobHandlers.{job_info}
use otos_coreinit.Cluster.Objects.{Job}
use otos_coreinit.Cluster.State.{Cluster, JobSlot}
use otos_coreinit.Cluster.Jobs.{free_slot, create_job_object}
use otos_coreinit.Cluster.Jobs.Slots.{
  holding, Without, free_slot_found, free_slot_inside, job_info_other, job_info_at,
}

module _ (k : Kernel) where
  made_slot :
      (c : Cluster k) (j : Job)
      → (create_job_object k c j).0 ≢ 0
      → (i : ℕ) × (free_slot c.jobs ≡ some i)
        × ((create_job_object k c j).1.jobs ≡ set c.jobs i (holding (create_job_object k c j).0 j))
  unfolding create_job_object
  made_slot c j made = elim (Option-cases (free_slot c.jobs)) [
    | inl n ↦ absurd (made (rw (n, create_job_object) refl))
    | inr (i, e) ↦ elim (Bool-cases ((k.create c.kernel (job i)).0 == 0)) [
      | inl z ↦ absurd (made (rw (e, create_job_object) (rw z refl)))
      | inr z ↦ (i, e, rw (e, create_job_object) (rw z refl))
    ]
  ]

  -- A job that was made, with a handle that no job had, is the one that its handle finds.
  pub made_found :
      (c : Cluster k) (j : Job)
      → (create_job_object k c j).0 ≢ 0
      → Without (create_job_object k c j).0 c.jobs
      → job_info (create_job_object k c j).1.jobs (create_job_object k c j).0 ≡ some j
  made_found c j made new =
      let h = (create_job_object k c j).0 in
      let (i, free, jobs) = made_slot c j made in
      let found = free_slot_found c.jobs i h j free new in
      let there = get_elem?-set_self c.jobs i (holding h j) (free_slot_inside c.jobs i free) in
      rw jobs (job_info_at (set c.jobs i (holding h j)) h i (holding h j) made found there)

  made_fresh :
      KernelLaws k
      → (c : Cluster k) (j : Job) → (create_job_object k c j).0 ≢ 0
      → ¬ k.Issued c.kernel (create_job_object k c j).0
  unfolding create_job_object
  made_fresh laws c j made = elim (Option-cases (free_slot c.jobs)) [
    | inl n ↦ absurd (made (rw (n, create_job_object) refl))
    | inr (i, e) ↦ elim (Bool-cases ((k.create c.kernel (job i)).0 == 0)) [
      | inl z ↦ absurd (made (rw (e, create_job_object) (rw z refl)))
      | inr z ↦ rw (e, create_job_object) (rw z (laws.create_fresh c.kernel (job i) (ground arith)))
    ]
  ]

  -- The jobs behind other handles are as before, also when no job was made.
  pub made_others :
      (c : Cluster k) (j : Job) (g : ℕ)
      → g ≢ (create_job_object k c j).0
      → job_info (create_job_object k c j).1.jobs g ≡ job_info c.jobs g
  unfolding create_job_object
  made_others c j g = elim (Option-cases (free_slot c.jobs)) [
    | inl n ↦ rw (n, create_job_object) (λ other. refl)
    | inr (i, e) ↦
        rw (e, create_job_object)
          (elim (Bool-cases ((k.create c.kernel (job i)).0 == 0)) [
            | inl z ↦ rw z (λ other. job_info_other c.jobs i g _ e (λ used. cc))
            | inr z ↦ rw z (λ other. job_info_other c.jobs i g _ e (λ used same. other (sym same)))
          ])
  ]

  pub made_handle :
      (c : Cluster k) (j : Job) (i : ℕ)
      → free_slot c.jobs ≡ some i
      → (k.create c.kernel (job i)).0 ≢ 0
      → (create_job_object k c j).0 ≡ (k.create c.kernel (job i)).0
  unfolding create_job_object
  made_handle c j i e made =
      rw (e, create_job_object) (rw (==_ne (k.create c.kernel (job i)).0 0 made) refl)

Never-Without : (h b : ℕ) (ss : List JobSlot) → AllAt (On Never h) b ss → Without h ss
Never-Without h b [] on = tt
Never-Without h b (s ∷ ss) on = (on.0, Never-Without h (b + 1) ss on.1)

-- A job made in a state that a sequence of calls reached is the one that its handle finds.
pub made_found_reached :
    {k : Kernel}
    → KernelLaws k
    → (b : Boot k) (qs : List Call) (j : Job) → (create_job_object k (reached k b qs) j).0 ≢ 0
    → job_info
        (create_job_object k (reached k b qs) j).1.jobs
        (create_job_object k (reached k b qs) j).0
      ≡ some j
made_found_reached {k} laws b qs j made =
    let c = reached k b qs in
    let h = (create_job_object k c j).0 in
    let v = reached-Single laws h b qs in
    made_found k c j made (Never-Without h 0 c.jobs (v.absent (made_fresh k laws c j made)))
