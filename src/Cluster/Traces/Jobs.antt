-- ===== src/Cluster/Traces/Jobs.antt =====
-- What any sequence of calls of coreinit/cluster_scheduler.c keeps of a job.
use otos_coreinit.Base.{
  ℕ, ◌≡◌, ◌≢◌, refl, sym, ◌∙◌, subst, ap, true, List, some, arith, get_elem?, false≢true, All,
  All-of, All-imp, AllAt-intro, AllAt-get_elem?,
}
use otos_coreinit.Kernel.{Kernel, KernelLaws}
use otos_coreinit.Cluster.Objects.{Job}
use otos_coreinit.Cluster.State.{Cluster, JobSlot}
use otos_coreinit.Cluster.JobHandlers.{returned}
use otos_coreinit.Cluster.Pick.{pick_next_for_node}
use otos_coreinit.Cluster.Pick.Chosen.{picked-Handed}
use otos_coreinit.Cluster.Keeps.{On, Has, Closed}
use otos_coreinit.Cluster.Traces.{Call, run, Reports, given_out, run-Has, Boot, reached}
use otos_coreinit.Cluster.Traces.Handles.{Single, reached-Single, pick-Single}

-- A slot that a job is in.
pub record Holds (ss : List JobSlot) (i h : ℕ) (j : Job) : Type 0 where
  pub slot : JobSlot
  pub at : get_elem? ss i ≡ some slot
  pub used : slot.used ≡ true
  pub handle : slot.handle ≡ h
  pub info : slot.info ≡ j

-- The words of the job's submission.
pub record SameRequest (j j' : Job) : Type 0 where
  pub type : j'.type ≡ j.type
  pub arg0 : j'.arg0 ≡ j.arg0
  pub arg1 : j'.arg1 ≡ j.arg1
  pub base_priority : j'.base_priority ≡ j.base_priority
  pub node_affinity : j'.node_affinity ≡ j.node_affinity
  pub resource_id : j'.resource_id ≡ j.resource_id
  pub resource_kind : j'.resource_kind ≡ j.resource_kind
  pub resource_min_capacity : j'.resource_min_capacity ≡ j.resource_min_capacity

abbrev Dispatched : ℕ → Job → Type 0
Dispatched i j = j.dispatched ≡ true

abbrev Bound : ℕ → ℕ → Job → Type 0
Bound r i j = (j.bound_resource_id ≡ r) × (r ≢ 0)

abbrev Submitted : ℕ → Job → ℕ → Job → Type 0
Submitted i0 j0 i j = (i ≡ i0) × SameRequest j0 j

Dispatched-Closed : Closed Dispatched
Dispatched-Closed = record {
  unblocked = λ i j q. q;
  claimed = λ i j n q. refl;
  bound = λ i j r e q. q;
  put_back = λ i j q. q;
  reprioritised = λ i j p q. q;
}

Bound-Closed : (r : ℕ) → Closed (Bound r)
Bound-Closed r = record {
  unblocked = λ i j q. q;
  claimed = λ i j n q. q;
  bound = λ i j n e q. absurd (q.1 (sym q.0 ∙ e));
  put_back = λ i j q. q;
  reprioritised = λ i j p q. q;
}

Submitted-Closed : (i0 : ℕ) (j0 : Job) → Closed (Submitted i0 j0)
Submitted-Closed i0 j0 = record {
  unblocked = λ i j q. ground (arith, q.0, q.1);
  claimed = λ i j n q. ground (arith, q.0, q.1);
  bound = λ i j n e q. ground (arith, q.0, q.1);
  put_back = λ i j q. ground (arith, q.0, q.1);
  reprioritised = λ i j p q. ground (arith, q.0, q.1);
}

returned-Bound :
    (r i result block_id : ℕ) (j : Job) → Bound r i j → Bound r i (returned result block_id j)
unfolding returned
returned-Bound r i result block_id j q = ground (arith, q.0, q.1)

returned-Submitted :
    (i0 : ℕ) (j0 : Job) (i result block_id : ℕ) (j : Job)
    → Submitted i0 j0 i j
    → Submitted i0 j0 i (returned result block_id j)
unfolding returned
returned-Submitted i0 j0 i result block_id j q = ground (arith, q.0, q.1)

module _ {k : Kernel} (laws : KernelLaws k) where
  -- Where one slot holds the job, what fits its data is tracked.
  tracked :
      (Q : ℕ → Job → Type 0) (c : Cluster k) (i h : ℕ) (j : Job)
      → Single h c
      → Holds c.jobs i h j
      → Q i j
      → Has (given_out laws h) Q h c
  tracked Q c i h j single holds q =
      let here : i ≡ single.index =
        AllAt-get_elem? (On (λ x y. x ≡ single.index) h) c.jobs i holds.slot single.one holds.at
          holds.used holds.handle in
      record {
        issued = λ new.
            AllAt-get_elem? (On (λ x y. ⊥) h) c.jobs i holds.slot (single.absent new) holds.at
              holds.used holds.handle;
        on = AllAt-intro (On Q h) c.jobs (λ x s at used e.
            let there : x ≡ single.index =
              AllAt-get_elem? (On (λ x y. x ≡ single.index) h) c.jobs x s single.one at used e in
            let same_index : i ≡ x = here ∙ sym there in
            let same : holds.slot ≡ s = cc in
            subst (λ (n : ℕ). Q n s.info) same_index
              (subst (Q i) (sym holds.info ∙ ap (λ (t : JobSlot). t.info) same) q));
      }

  after :
      (Q : ℕ → Job → Type 0) (c : Cluster k) (i h : ℕ) (j : Job)
      → Has (given_out laws h) Q h c
      → Holds c.jobs i h j
      → Q i j
  after Q c i h j v holds =
      subst (Q i) holds.info
        (AllAt-get_elem? (On Q h) c.jobs i holds.slot v.on holds.at holds.used holds.handle)

  -- After a pick the slot of the job that was handed out is marked.
  picked-Holds :
      (c : Cluster k) (n : ℕ)
      → (pick_next_for_node k c n).0.0 ≢ 0
      → (j : Job) × Holds
          (pick_next_for_node k c n).1.jobs
          (pick_next_for_node k c n).0.1
          (pick_next_for_node k c n).0.0
          j
        × (j.dispatched ≡ true)
  picked-Holds c n some_job =
      let p = picked-Handed k c n some_job in
      (
        p.after.info,
        record {
          slot = p.after;
          at = p.at_after;
          used = p.same.used ∙ p.open_to.used;
          handle = p.same.handle ∙ p.handle;
          info = refl;
        },
        p.dispatched,
      )

  -- A job that a node was given is given to no node again, whatever is called in between, as long
  -- as nobody reports a result for it.
  pub given_once :
      (b : Boot k) (before between : List Call) (n n' : ℕ)
      → (pick_next_for_node k (reached k b before) n).0.0 ≢ 0
      → All (λ q. ¬ Reports (pick_next_for_node k (reached k b before) n).0.0 q) between
      → (pick_next_for_node k
          (run k (pick_next_for_node k (reached k b before) n).1 between)
          n').0.0
        ≢ (pick_next_for_node k (reached k b before) n).0.0
  given_once b before between n n' some_job silent again =
      let c = reached k b before in
      let h = (pick_next_for_node k c n).0.0 in
      let held = picked-Holds c n some_job in
      let v =
        tracked Dispatched (pick_next_for_node k c n).1 (pick_next_for_node k c n).0.1 h held.0
          (pick-Single laws h c n (reached-Single laws h b before)) held.1 held.2 in
      let v' =
        run-Has laws Dispatched h Dispatched-Closed between _
          (All-imp between (λ q quiet e at i r b' j done. absurd (quiet (e, at))) silent) v in
      let p = picked-Handed k _ n' (subst (λ (x : ℕ). x ≢ 0) (sym again) some_job) in
      false≢true (
        sym p.open_to.waiting
        ∙ AllAt-get_elem? (On Dispatched h) _ _ p.before v'.on p.at_before p.open_to.used
            (p.handle ∙ again))

  -- A live job that a resource is bound to keeps that binding as long as it is live, whatever methods
  -- of the scheduler object are called. (UPDATE_SCHEDULING_STATE of the job's own object, which
  -- overwrites the binding, is no method of the scheduler and not among them.)
  pub binding-stays :
      (b : Boot k) (before qs : List Call) (i i' h : ℕ) (j j' : Job)
      → Holds (reached k b before).jobs i h j
      → j.bound_resource_id ≢ 0
      → Holds (run k (reached k b before) qs).jobs i' h j'
      → j'.bound_resource_id ≡ j.bound_resource_id
  binding-stays b before qs i i' h j j' held bound held' =
      let r = j.bound_resource_id in
      let v =
        tracked (Bound r) (reached k b before) i h j (reached-Single laws h b before) held
          (refl, bound) in
      (after (Bound r) _ i' h j'
        (run-Has laws (Bound r) h (Bound-Closed r) qs _
          (All-of qs (λ q e at x y z w g. returned-Bound r x y z w g)) v)
        held').0

  -- A live job keeps its slot and all that it was submitted with as long as it is live, whatever
  -- is called.
  pub request-stays :
      (b : Boot k) (before qs : List Call) (i i' h : ℕ) (j j' : Job)
      → Holds (reached k b before).jobs i h j
      → Holds (run k (reached k b before) qs).jobs i' h j'
      → (i' ≡ i) × SameRequest j j'
  request-stays b before qs i i' h j j' held held' =
      let v =
        tracked (Submitted i j) (reached k b before) i h j (reached-Single laws h b before) held
          (refl, ground arith) in
      after (Submitted i j) _ i' h j'
        (run-Has laws (Submitted i j) h (Submitted-Closed i j) qs _
          (All-of qs (λ q e at x y z w g. returned-Submitted i j x y z w g)) v)
        held'
