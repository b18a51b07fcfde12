-- ===== src/Cluster/Pick/Order.antt =====
-- pick_next_for_node of coreinit/cluster_scheduler.c hands out a ready job of the highest priority.
use otos_coreinit.Base.{
  ℕ, zero, suc, ◌+◌, ◌%◌, ◌^◌, ◌≤◌, ◌≡◌, refl, sym, subst, ◌∙◌, inl, inr, true, false, List, [],
  ◌∷◌, some, arith, ◌==◌, lt_int, get_elem?, All, Bool-cases, Option-cases,
}
use otos_coreinit.Kernel.{Kernel}
use otos_coreinit.Cluster.State.{Cluster, JobSlot}
use otos_coreinit.Cluster.Pick.{
  Scan, Best, candidate, unblock, considered, scan_jobs, offer, claim_job, pick_next_for_node, best,
  no_scan,
}
use otos_coreinit.Cluster.Pick.Scanned.{From, nothing_yet, scan_jobs-From}
use otos_coreinit.Cluster.Pick.Chosen.{claim_job-slot}

-- The order of the ints that two patterns stand for.
abbrev rank : ℕ → ℕ
rank p = (p + 2 ^ 31) % 2 ^ 32

-- The scan has a ready candidate of at least this rank.
record Top (p : ℕ) (sc : Scan) : Type 0 where
  b : Best
  is : sc.best_ready ≡ some b
  high : p ≤ rank b.priority

offer-Top :
    (i : ℕ) (s : JobSlot) (sc : Scan)
    → s.info.blocked ≡ 0
    → Top (rank s.info.effective_priority) (offer i s sc)
unfolding offer
offer-Top i s sc ready = elim (Option-cases sc.best_ready) [
  | inl e ↦ record { b = candidate i s; is = ground arith; high = omega arith }
  | inr (b, e) ↦ elim (Bool-cases (lt_int b.priority s.info.effective_priority)) [
    | inl lower ↦ record { b = candidate i s; is = ground arith; high = omega arith }
    | inr higher ↦ record { b = b; is = ground arith; high = ground arith }
  ]
]

offer_keeps : (i : ℕ) (s : JobSlot) (sc : Scan) (p : ℕ) → Top p sc → Top p (offer i s sc)
unfolding offer
offer_keeps i s sc p t = elim (Bool-cases (s.info.blocked == 0)) [
  | inr blocked ↦ record { b = t.b; is = ground (arith, t.is); high = t.high }
  | inl ready ↦ elim (Bool-cases (lt_int t.b.priority s.info.effective_priority)) [
    | inl lower ↦ record {
      b = candidate i s;
      is = ground (arith, t.is);
      high = ground (arith, t.high);
    }
    | inr higher ↦ record { b = t.b; is = ground (arith, t.is); high = t.high }
  ]
]

module _ (k : Kernel) where
  -- Asking after the job's resource leaves the cluster as it is.
  abbrev pub Clean : Cluster k → ℕ → JobSlot → Type 0
  Clean c n s = (considered k c n s).1 ≡ c

  scan_keeps :
      (c : Cluster k) (n : ℕ) (ss : List JobSlot) (i : ℕ) (sc : Scan) (p : ℕ)
      → Top p sc
      → Top p (scan_jobs k c n ss i sc).0.1
  unfolding scan_jobs
  scan_keeps c n [] i sc p t = t
  scan_keeps c n (s ∷ ss) i sc p t = elim (Bool-cases (considered k c n s).0) [
    | inl h ↦ rw h (
        scan_keeps (considered k c n s).1 n ss (i + 1) (offer i (unblock c.jobs s) sc) p
          (offer_keeps i (unblock c.jobs s) sc p t))
    | inr h ↦ rw h (scan_keeps (considered k c n s).1 n ss (i + 1) sc p t)
  ]

  scan_jobs-Top :
      (c : Cluster k) (n : ℕ) (ss : List JobSlot) (i : ℕ) (sc : Scan) (x : ℕ) (s : JobSlot)
      → All (Clean c n) ss
      → get_elem? ss x ≡ some s
      → (considered k c n s).0 ≡ true
      → (unblock c.jobs s).info.blocked ≡ 0
      → Top (rank (unblock c.jobs s).info.effective_priority) (scan_jobs k c n ss i sc).0.1
  unfolding scan_jobs
  scan_jobs-Top c n [] i sc x s clean at here ready = cc
  scan_jobs-Top c n (y ∷ ss) i sc zero s clean at here ready =
      let same : y ≡ s = cc in
      rw same (
        rw here (
          scan_keeps (considered k c n s).1 n ss (i + 1) (offer i (unblock c.jobs s) sc) _
            (offer-Top i (unblock c.jobs s) sc ready)))
  scan_jobs-Top c n (y ∷ ss) i sc (suc x) s clean at here ready =
      elim (Bool-cases (considered k c n y).0) [
        | inl h ↦ rw h (
            rw (clean.0) (
              scan_jobs-Top c n ss (i + 1) (offer i (unblock c.jobs y) sc) x s clean.1 at here
                ready))
        | inr h ↦ rw h (rw (clean.0) (scan_jobs-Top c n ss (i + 1) sc x s clean.1 at here ready))
      ]

  -- What a pick tells of the job `s` that waits: it hands out `t`, ready and not below `s`.
  pub record Served (s : JobSlot) (r : (ℕ × ℕ) × Cluster k) : Type 0 where
    pub t : JobSlot
    pub at : get_elem? r.1.jobs r.0.1 ≡ some t
    pub handle : r.0.0 ≡ t.handle
    pub dispatched : t.info.dispatched ≡ true
    pub ready : t.info.blocked ≡ 0
    pub high : lt_int t.info.effective_priority s.info.effective_priority ≡ false

  scanned : Cluster k → ℕ → Cluster k
  scanned c n = record (scan_jobs k c n c.jobs 0 no_scan).1 {
    jobs = (scan_jobs k c n c.jobs 0 no_scan).0.0;
  }

  pick-claim_job :
      (c : Cluster k) (n : ℕ) (b : Best)
      → (scan_jobs k c n c.jobs 0 no_scan).0.1.best_ready ≡ some b
      → pick_next_for_node k c n
        ≡ (((claim_job k (scanned c n) n b).0, b.slot), (claim_job k (scanned c n) n b).1)
  unfolding pick_next_for_node best scanned
  pick-claim_job c n b e = rw (e, pick_next_for_node) refl

  unblock-effective :
      (all : List JobSlot) (s : JobSlot)
      → (unblock all s).info.effective_priority ≡ s.info.effective_priority
  unfolding unblock
  unblock-effective all s = ground arith

  claimed-Served :
      (c : Cluster k) (n : ℕ) (s : JobSlot)
      → (top : Top
          (rank (unblock c.jobs s).info.effective_priority)
          (scan_jobs k c n c.jobs 0 no_scan).0.1)
      → From n 0 c.jobs (scan_jobs k c n c.jobs 0 no_scan).0.0 top.b true
      → Served s (
        ((claim_job k (scanned c n) n top.b).0, top.b.slot),
        (claim_job k (scanned c n) n top.b).1,
      )
  unfolding scanned
  claimed-Served c n s top f =
      let here : top.b.slot ≡ f.j = omega (arith, f.slot) in
      let now : get_elem? (scan_jobs k c n c.jobs 0 no_scan).0.0 top.b.slot ≡ some f.now = cc in
      let given =
        claim_job-slot k (scanned c n) n top.b f.now now (f.waiting ∙ f.open_to.waiting) in
      record {
        t = _;
        at = given.1.1;
        handle = given.0 ∙ f.handle ∙ sym f.same.handle;
        dispatched = refl;
        ready = ground (arith, f.blocked);
        high = ground (arith, top.high, f.priority, unblock-effective c.jobs s);
      }

  -- Where asking after resources leaves the cluster as it is, and a ready job `s` waits that the
  -- node may run, the node is given a job: it is ready, it is marked as dispatched, and its priority
  -- is not below that of `s`.
  pub pick-highest :
      (c : Cluster k) (n x : ℕ) (s : JobSlot)
      → All (Clean c n) c.jobs
      → get_elem? c.jobs x ≡ some s
      → (considered k c n s).0 ≡ true
      → (unblock c.jobs s).info.blocked ≡ 0
      → Served s (pick_next_for_node k c n)
  pick-highest c n x s clean at here ready =
      let top = scan_jobs-Top c n c.jobs 0 no_scan x s clean at here ready in
      elim (scan_jobs-From k c n c.jobs 0 no_scan top.b true top.is) [
        | inl none_yet ↦ absurd (nothing_yet top.b true none_yet)
        | inr f ↦
            subst (Served s) (sym (pick-claim_job c n top.b top.is)) (claimed-Served c n s top f)
      ]
