-- ===== src/Cluster/Pick/Scanned.antt =====
-- The candidates that the loop of pick_next_for_node (coreinit/cluster_scheduler.c) comes to.
use otos_coreinit.Base.{
  ℕ, suc, ◌+◌, ◌≡◌, ◌⊎◌, refl, ◌∙◌, ap, inl, inr, Bool, true, false, List, [], ◌∷◌, some, arith,
  ◌==◌, not, ◌&&◌, get_elem?, Bool-cases, Option-cases,
}
use otos_coreinit.Kernel.{Kernel}
use otos_coreinit.Cluster.State.{Cluster, JobSlot}
use otos_coreinit.Cluster.Pick.{
  Scan, Best, candidate, eligible, unblock, considered, scan_jobs, offer, best, no_scan,
}

-- A job that node `n` may be given.
pub record Open (n : ℕ) (s : JobSlot) : Type 0 where
  pub used : s.used ≡ true
  pub waiting : s.info.dispatched ≡ false
  pub eligible : eligible n s.info ≡ true

-- The same job, but for the marks that a pick may change.
pub record Same (s t : JobSlot) : Type 0 where
  pub used : t.used ≡ s.used
  pub handle : t.handle ≡ s.handle
  pub type : t.info.type ≡ s.info.type
  pub arg0 : t.info.arg0 ≡ s.info.arg0
  pub arg1 : t.info.arg1 ≡ s.info.arg1
  pub node_affinity : t.info.node_affinity ≡ s.info.node_affinity

unblock-Same : (all : List JobSlot) (s : JobSlot) → Same s (unblock all s)
unfolding unblock
unblock-Same all s = ground arith

unblock-assigned :
    (all : List JobSlot) (s : JobSlot) → (unblock all s).info.assigned_node ≡ s.info.assigned_node
unfolding unblock
unblock-assigned all s = ground arith

unblock-dispatched :
    (all : List JobSlot) (s : JobSlot) → (unblock all s).info.dispatched ≡ s.info.dispatched
unfolding unblock
unblock-dispatched all s = ground arith

unblock-effective :
    (all : List JobSlot) (s : JobSlot)
    → (unblock all s).info.effective_priority ≡ s.info.effective_priority
unfolding unblock
unblock-effective all s = ground arith

-- The candidate `b` stands `j` slots behind the slot `i`.
pub record From (n i : ℕ) (ss ss' : List JobSlot) (b : Best) (ready : Bool) : Type 0 where
  pub j : ℕ
  pub old : JobSlot
  pub now : JobSlot
  pub at_old : get_elem? ss j ≡ some old
  pub at_now : get_elem? ss' j ≡ some now
  pub slot : b.slot ≡ i + j
  pub handle : b.handle ≡ old.handle
  pub open_to : Open n old
  pub same : Same old now
  pub assigned : now.info.assigned_node ≡ old.info.assigned_node
  pub effective : now.info.effective_priority ≡ old.info.effective_priority
  pub waiting : now.info.dispatched ≡ old.info.dispatched
  pub priority : b.priority ≡ now.info.effective_priority
  pub blocked : (now.info.blocked == 0) ≡ ready

-- The scan's candidate among the ready jobs, or among those that wait for a mutex.
abbrev pub In : Best → Bool → Scan → Type 0
In b true sc = sc.best_ready ≡ some b
In b false sc = sc.best_blocked_mutex ≡ some b

offer-In :
    (i : ℕ) (s : JobSlot) (sc : Scan) (b : Best) (w : Bool)
    → In b w (offer i s sc)
    → ((b ≡ candidate i s) × ((s.info.blocked == 0) ≡ w)) ⊎ In b w sc
unfolding offer
offer-In i s sc b true e = ground arith
offer-In i s sc b false e = ground arith

pub best-In : (sc : Scan) (b : Best) → best sc ≡ some b → (w : Bool) × In b w sc
unfolding best
best-In sc b e = elim (Option-cases sc.best_ready) [
  | inl none_ready ↦ (false, ground arith)
  | inr (b', r) ↦ (true, ground arith)
]

pub nothing_yet : (b : Best) (w : Bool) → ¬ In b w no_scan
nothing_yet b true e = cc
nothing_yet b false e = cc

module _ (k : Kernel) where
  considered-Open : (c : Cluster k) (n : ℕ) (s : JobSlot) → (considered k c n s).0 ≡ true → Open n s
  unfolding considered
  considered-Open c n s =
      elim (Bool-cases ((s.used && not s.info.dispatched) && eligible n s.info)) [
        | inl e ↦ rw e (λ h. ground arith)
        | inr e ↦ rw e (λ h. cc)
      ]

  later :
      {n i : ℕ} {ss ss' : List JobSlot} {b : Best} {w : Bool} (s s' : JobSlot)
      → From n (i + 1) ss ss' b w
      → From n i (s ∷ ss) (s' ∷ ss') b w
  later s s' f = record {
    j = suc f.j;
    old = f.old;
    now = f.now;
    at_old = f.at_old;
    at_now = f.at_now;
    slot = omega (arith, f.slot);
    handle = f.handle;
    open_to = f.open_to;
    same = f.same;
    assigned = f.assigned;
    effective = f.effective;
    waiting = f.waiting;
    priority = f.priority;
    blocked = f.blocked;
  }

  first :
      (c : Cluster k) (n i : ℕ) (s : JobSlot) (ss ss' : List JobSlot) (b : Best) (w : Bool)
      → (considered k c n s).0 ≡ true
      → b ≡ candidate i (unblock c.jobs s)
      → ((unblock c.jobs s).info.blocked == 0) ≡ w
      → From n i (s ∷ ss) (unblock c.jobs s ∷ ss') b w
  first c n i s ss ss' b w here e ready = record {
    j = 0;
    old = s;
    now = unblock c.jobs s;
    at_old = refl;
    at_now = refl;
    slot = ap (λ (x : Best). x.slot) e ∙ omega arith;
    handle = ap (λ (x : Best). x.handle) e ∙ (unblock-Same c.jobs s).handle;
    open_to = considered-Open c n s here;
    same = unblock-Same c.jobs s;
    assigned = unblock-assigned c.jobs s;
    effective = unblock-effective c.jobs s;
    waiting = unblock-dispatched c.jobs s;
    priority = ap (λ (x : Best). x.priority) e;
    blocked = ready;
  }

  pub scan_jobs-From :
      (c : Cluster k) (n : ℕ) (ss : List JobSlot) (i : ℕ) (sc : Scan) (b : Best) (w : Bool)
      → In b w (scan_jobs k c n ss i sc).0.1
      → In b w sc ⊎ From n i ss (scan_jobs k c n ss i sc).0.0 b w
  unfolding scan_jobs
  scan_jobs-From c n [] i sc b w = λ e. inl e
  scan_jobs-From c n (s ∷ ss) i sc b w =
      let c' = (considered k c n s).1 in
      elim (Bool-cases (considered k c n s).0) [
        | inl h ↦ rw h (λ e.
            elim (scan_jobs-From c' n ss (i + 1) (offer i (unblock c.jobs s) sc) b w e) [
              | inr f ↦ inr (later s (unblock c.jobs s) f)
              | inl o ↦ elim (offer-In i (unblock c.jobs s) sc b w o) [
                | inl new ↦ inr (first c n i s ss _ b w h new.0 new.1)
                | inr old ↦ inl old
              ]
            ])
        | inr h ↦ rw h (λ e. elim (scan_jobs-From c' n ss (i + 1) sc b w e) [
          | inr f ↦ inr (later s s f)
          | inl old ↦ inl old
        ])
      ]
