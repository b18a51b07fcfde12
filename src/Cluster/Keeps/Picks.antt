-- ===== src/Cluster/Keeps/Picks.antt =====
-- What a pick and a departure keep of a job, in coreinit/cluster_scheduler.c.
use otos_coreinit.Base.{
  ℕ, zero, suc, ◌+◌, ◌≡◌, ◌∙◌, ap, subst, inl, inr, List, [], ◌∷◌, some, arith, ◌==◌, not,
  get_elem?, AllAt, of_get_elem?-set, Bool-cases, Option-cases,
}
use otos_coreinit.Kernel.{Kernel}
use otos_coreinit.Cluster.Objects.{Job}
use otos_coreinit.Cluster.State.{Cluster, JobSlot}
use otos_coreinit.Cluster.Resources.{resource_reserve, resource_release_reservation}
use otos_coreinit.Cluster.Jobs.{update_job}
use otos_coreinit.Cluster.Quiet.{Quiet, Quiet-trans, resource_call-Quiet, resource_reserve-Quiet}
use otos_coreinit.Cluster.Pick.{
  Scan, Best, unblock, considered, scan_jobs, offer, bind_resource_for, choose_resource, claim_job,
  pick_next_for_node, best, no_scan,
}
use otos_coreinit.Cluster.Pick.Looks.{choose_resource-Quiet, scan_jobs-Quiet}
use otos_coreinit.Cluster.Handlers.{release_job_resource, leave_job, leave_jobs, touches}
use otos_coreinit.Cluster.Keeps.{Guard, On, Has, Closed, update_job-On, unblock-On}
use otos_coreinit.Cluster.Keeps.Calls.{Quiet-Has, destroy_job_object-Has}

-- After a slot was given the data `j`, that is the data it holds.
claimed_at :
    (ss : List JobSlot) (i : ℕ) (s : JobSlot) (j : Job)
    → get_elem? ss i ≡ some s
    → (t : JobSlot) → get_elem? (update_job ss i (λ _. j)) i ≡ some t
    → t.info ≡ j
unfolding update_job
claimed_at ss i s j e t =
    rw (e, update_job)
      (λ g. ap (λ (x : JobSlot). x.info) (of_get_elem?-set ss i (record s { info = j }) t g))

module _ {k : Kernel} (laws : Guard k) (Q : ℕ → Job → Type 0) (h : ℕ) where
  pub release_job_resource-Has :
      (c : Cluster k) (j r : ℕ) → Has laws Q h c → Has laws Q h (release_job_resource k c j r)
  unfolding release_job_resource resource_release_reservation
  release_job_resource-Has c j r v = Quiet-Has laws Q h (resource_call-Quiet k c r 2 j) v

  module _ (cl : Closed Q) where
    scan_jobs-On :
        (c : Cluster k) (n : ℕ) (ss : List JobSlot) (i : ℕ) (sc : Scan)
        → AllAt (On Q h) i ss
        → AllAt (On Q h) i (scan_jobs k c n ss i sc).0.0
    unfolding scan_jobs
    scan_jobs-On c n [] i sc on = tt
    scan_jobs-On c n (s ∷ ss) i sc on =
        let here = (considered k c n s).0 in
        let c' = (considered k c n s).1 in
        elim (Bool-cases (considered k c n s).0) [
          | inl e ↦ rw e (
            unblock-On Q h cl c.jobs i s on.0,
            scan_jobs-On c' n ss (i + 1) (offer i (unblock c.jobs s) sc) on.1,
          )
          | inr e ↦ rw e (on.0, scan_jobs-On c' n ss (i + 1) sc on.1)
        ]

    -- Binding writes to a slot that holds the data it was given, without a resource so far.
    bind_resource_for-Has :
        (c : Cluster k) (i handle : ℕ) (j : Job)
        → ((s : JobSlot) → get_elem? c.jobs i ≡ some s → s.info ≡ j)
        → Has laws Q h c
        → Has laws Q h (bind_resource_for k c i handle j)
    unfolding bind_resource_for
    bind_resource_for-Has c i handle j at v = elim (Bool-cases (not (j.bound_resource_id == 0))) [
      | inl b ↦ rw b v
      | inr b ↦ rw b (elim (Bool-cases ((choose_resource k c j).0 == 0)) [
        | inl z ↦ rw z (Quiet-Has laws Q h (choose_resource-Quiet k c j) v)
        | inr z ↦
            rw z
              (elim (Bool-cases
                (resource_reserve k (choose_resource k c j).1 (choose_resource k c j).0 handle).0) [
                  | inr f ↦ rw f (Quiet-Has laws Q h q v)
                  | inl t ↦ rw t (record {
                    issued = (Quiet-Has laws Q h q v).issued;
                    on = update_job-On Q h _ i _ (Quiet-Has laws Q h q v).on (λ s g e fits.
                        cl.bound i s.info (choose_resource k c j).0
                          (ap (λ (x : Job). x.bound_resource_id) (at s (rw (← q.jobs) g))
                            ∙ ground arith)
                          fits);
                  })
                ])
      ])
    ]
      where
        q :
            Quiet c
              (resource_reserve k (choose_resource k c j).1 (choose_resource k c j).0 handle).1
        q =
            Quiet-trans (choose_resource-Quiet k c j)
              (resource_reserve-Quiet k (choose_resource k c j).1 (choose_resource k c j).0 handle)

    claim_job-Has :
        (c : Cluster k) (n : ℕ) (b : Best) → Has laws Q h c → Has laws Q h (claim_job k c n b).1
    unfolding claim_job
    claim_job-Has c n b v = elim (Option-cases (get_elem? c.jobs b.slot)) [
      | inl e ↦ rw (e, claim_job) v
      | inr (s, e) ↦
          rw (e, claim_job)
            (elim (Bool-cases s.info.dispatched) [
              | inl d ↦ rw d v
              | inr d ↦ rw d (
                  bind_resource_for-Has _ b.slot b.handle _ (claimed_at c.jobs b.slot s _ e)
                    (record {
                      issued = v.issued;
                      on = update_job-On Q h c.jobs b.slot _ v.on (λ s' g at fits.
                          let same : s' ≡ s = cc in
                          cl.claimed b.slot s.info _
                            (subst (λ (x : JobSlot). Q b.slot x.info) same fits));
                    }))
            ])
    ]

    pub pick_next_for_node-Has :
        (c : Cluster k) (n : ℕ) → Has laws Q h c → Has laws Q h (pick_next_for_node k c n).1
    unfolding pick_next_for_node
    pick_next_for_node-Has c n v =
        let q = scan_jobs-Quiet k c n c.jobs 0 no_scan in
        let on = scan_jobs-On c n c.jobs 0 no_scan v.on in
        let sc = (scan_jobs k c n c.jobs 0 no_scan).0.1 in
        elim (Option-cases (best (scan_jobs k c n c.jobs 0 no_scan).0.1)) [
          | inl e ↦
              rw (e, pick_next_for_node)
                (record { issued = (Quiet-Has laws Q h q v).issued; on = on })
          | inr (b, e) ↦
              rw (e, pick_next_for_node)
                (claim_job-Has _ n b (record { issued = (Quiet-Has laws Q h q v).issued; on = on }))
        ]

    leave_job-Has :
        (c : Cluster k) (n i : ℕ) (s : JobSlot)
        → Has laws Q h c
        → Has laws Q h (leave_job k c n i s)
    unfolding leave_job
    leave_job-Has c n i s v = elim (Bool-cases (not s.used)) [
      | inl u ↦ rw u v
      | inr u ↦ rw u (elim (Bool-cases (not (touches n s.info))) [
        | inl t ↦ rw t v
        | inr t ↦ rw t (elim (Bool-cases (s.info.node_affinity == n)) [
          | inl a ↦ rw a (
              destroy_job_object-Has laws Q h _ s.handle
                (release_job_resource-Has c s.handle s.info.bound_resource_id v))
          | inr a ↦ rw a (record {
            issued = v.issued;
            on = update_job-On Q h c.jobs i _ v.on (λ s' g at fits. cl.put_back i s'.info fits);
          })
        ])
      ])
    ]

    pub leave_jobs-Has :
        (m i : ℕ) (c : Cluster k) (n : ℕ) → Has laws Q h c → Has laws Q h (leave_jobs k m i c n)
    unfolding leave_jobs
    leave_jobs-Has zero i c n v = v
    leave_jobs-Has (suc m) i c n v = elim (Option-cases (get_elem? c.jobs i)) [
      | inl e ↦ rw e (leave_jobs-Has m (i + 1) c n v)
      | inr (s, e) ↦
          rw e (leave_jobs-Has m (i + 1) (leave_job k c n i s) n (leave_job-Has c n i s v))
    ]
