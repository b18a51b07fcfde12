-- ===== src/Cluster/Traces/Handles.antt =====
-- Each job handle of coreinit/cluster_scheduler.c stands in one slot at most, whatever is called.
use otos_coreinit.Base.{
  ℕ, ◌≡◌, ◌≢◌, ◌⊎◌, refl, sym, ◌∙◌, subst, inl, inr, true, List, [], ◌∷◌, some, arith, ◌==◌, ==→eq,
  get_elem?, set, AllAt, AllAt-of, AllAt-set, AllAt-imp, AllAt-replicate, AllAt-get_elem?,
  Bool-cases, Option-cases,
}
use otos_coreinit.Kernel.{Kernel, KernelLaws, job}
use otos_coreinit.MemMgr.{Window, Claim}
use otos_coreinit.Cluster.Objects.{Job}
use otos_coreinit.Cluster.State.{Cluster, JobSlot, job_pool_size}
use otos_coreinit.Cluster.Jobs.{free_slot, create_job_object}
use otos_coreinit.Cluster.JobHandlers.{handle_submit_job}
use otos_coreinit.Cluster.Dispatch.{Method, method_of, dispatch, handler, init_schema, blank_slot}
use otos_coreinit.Cluster.Keeps.{On, Closed}
use otos_coreinit.Cluster.Pick.{pick_next_for_node}
use otos_coreinit.Cluster.Keeps.Picks.{pick_next_for_node-Has}
use otos_coreinit.Cluster.Keeps.Calls.{create_resource_object-Has}
use otos_coreinit.Cluster.Keeps.JobMethods.{dispatch-Has}
use otos_coreinit.Cluster.Traces.{Call, run, Boot, reached, given_out, given_out-Avoids, any_kernel}

abbrev pub Never : ℕ → Job → Type 0
Never i j = ⊥

abbrev InSlot : ℕ → ℕ → Job → Type 0
InSlot i0 i j = i ≡ i0

abbrev Anything : ℕ → Job → Type 0
Anything i j = Unit

-- A handle not given out stands nowhere, any other in one slot at most.
pub record Single {k : Kernel} (h : ℕ) (c : Cluster k) : Type 0 where
  pub absent : ¬ k.Issued c.kernel h → AllAt (On Never h) 0 c.jobs
  pub index : ℕ
  pub one : AllAt (On (InSlot index) h) 0 c.jobs

pub Never-Closed : Closed Never
Never-Closed = record {
  unblocked = λ i j q. q;
  claimed = λ i j n q. q;
  bound = λ i j r e q. q;
  put_back = λ i j q. q;
  reprioritised = λ i j p q. q;
}

InSlot-Closed : (i0 : ℕ) → Closed (InSlot i0)
InSlot-Closed i0 = record {
  unblocked = λ i j q. q;
  claimed = λ i j n q. q;
  bound = λ i j r e q. q;
  put_back = λ i j q. q;
  reprioritised = λ i j p q. q;
}

Anything-Closed : Closed Anything
Anything-Closed = record {
  unblocked = λ i j q. q;
  claimed = λ i j n q. q;
  bound = λ i j r e q. q;
  put_back = λ i j q. q;
  reprioritised = λ i j p q. q;
}

is_submit : (m : Method) → (m ≡ Method.submit_job) ⊎ (m ≢ Method.submit_job)
is_submit Method.join_node = inr (λ e. cc)
is_submit Method.leave_node = inr (λ e. cc)
is_submit Method.request_allocation = inr (λ e. cc)
is_submit Method.declare_resource = inr (λ e. cc)
is_submit Method.reassign_resource = inr (λ e. cc)
is_submit Method.submit_job = inl refl
is_submit Method.get_next_job = inr (λ e. cc)
is_submit Method.report_job_result = inr (λ e. cc)
is_submit Method.mutex_try_lock = inr (λ e. cc)
is_submit Method.mutex_unlock = inr (λ e. cc)
is_submit Method.get_resource_info = inr (λ e. cc)
is_submit Method.allocate_slice = inr (λ e. cc)
is_submit Method.release_slice = inr (λ e. cc)
is_submit Method.preempt_node = inr (λ e. cc)
is_submit Method.get_job_result = inr (λ e. cc)
is_submit Method.other = inr (λ e. cc)

module _ {k : Kernel} (laws : KernelLaws k) (h : ℕ) where
  -- What was not given out after a call was not before it.
  earlier :
      (c : Cluster k) (m : Method) (words : List ℕ) (cap : ℕ)
      → ¬ k.Issued (dispatch k c m words cap).1.kernel h
      → ¬ k.Issued c.kernel h
  earlier c m words cap new old =
      (dispatch-Has (given_out laws h) Anything h c Anything-Closed
          (record { issued = λ f. f old; on = AllAt-of (On Anything h) 0 c.jobs (λ i s u e. tt) }) m
          words cap (λ e. given_out-Avoids laws h) (λ e at i r b j q. tt)).issued
        new

  other-Single :
      (c : Cluster k) (m : Method) (words : List ℕ) (cap : ℕ)
      → m ≢ Method.submit_job
      → Single h c
      → Single h (dispatch k c m words cap).1
  other-Single c m words cap ne v = record {
    absent = λ new.
        (dispatch-Has (any_kernel k) Never h c Never-Closed
          (record { issued = tt; on = v.absent (earlier c m words cap new) }) m words cap
          (λ e. absurd (ne e)) (λ e at i r b j q. q)).on;
    index = v.index;
    one =
        (dispatch-Has (any_kernel k) (InSlot v.index) h c (InSlot-Closed v.index)
          (record { issued = tt; on = v.one }) m words cap (λ e. absurd (ne e))
          (λ e at i r b j q. q)).on;
  }

  -- A slot that is written without a use, or with another handle, changes nothing for `h`.
  written :
      (c : Cluster k) (s' : k.State) (i : ℕ) (s : JobSlot)
      → (¬ k.Issued s' h → ¬ k.Issued c.kernel h)
      → (s.used ≡ true → s.handle ≢ h)
      → Single h c
      → Single {k = k} h (record c { kernel = s'; jobs = set c.jobs i s })
  written c s' i s back other v = record {
    absent = λ new. AllAt-set (On Never h) c.jobs i s (v.absent (back new)) (λ u e. other u e);
    index = v.index;
    one = AllAt-set (On (InSlot v.index) h) c.jobs i s v.one (λ u e. absurd (other u e));
  }

  create_job_object-Single :
      (c : Cluster k) (j : Job) → Single h c → Single h (create_job_object k c j).1
  unfolding create_job_object
  create_job_object-Single c j v = elim (Option-cases (free_slot c.jobs)) [
    | inl n ↦ rw (n, create_job_object) v
    | inr (i, e) ↦
        let made = k.create c.kernel (job i) in
        let back : ¬ k.Issued made.1 h → ¬ k.Issued c.kernel h =
          λ new old. new (laws.create_keeps c.kernel (job i) h old) in
        rw (e, create_job_object)
          (elim (Bool-cases (made.0 == 0)) [
            | inl z ↦ rw z (written c made.1 i _ back (λ u at. cc) v)
            | inr z ↦ rw z (elim (Bool-cases (made.0 == h)) [
              | inr other ↦ written c made.1 i _ back (λ u at. ground arith) v
              | inl here ↦
                  let at = ==→eq made.0 h here in
                  let fresh : ¬ k.Issued c.kernel h =
                    subst (λ (x : ℕ). ¬ k.Issued c.kernel x) at
                      (laws.create_fresh c.kernel (job i) (ground arith)) in
                  record {
                    absent = λ new. absurd (
                        new (
                          subst (k.Issued made.1) at
                            (laws.create_issues c.kernel (job i) (ground arith))));
                    index = i;
                    one =
                        AllAt-set (On (InSlot i) h) c.jobs i _
                          (AllAt-imp {Q = On (InSlot i) h} 0 c.jobs
                            (λ n s gone u e. absurd (gone u e)) (v.absent fresh))
                          (λ u e. refl);
                  }
            ])
          ])
  ]

  dispatch-Single :
      (c : Cluster k) (m : Method) (words : List ℕ) (cap : ℕ)
      → Single h c
      → Single h (dispatch k c m words cap).1
  unfolding dispatch handle_submit_job
  dispatch-Single c m words cap v = elim (is_submit m) [
    | inl e ↦ rw e (create_job_object-Single c _ v)
    | inr e ↦ other-Single c m words cap e v
  ]

  pub run-Single : (qs : List Call) (c : Cluster k) → Single h c → Single h (run k c qs)
  unfolding run handler
  run-Single [] c v = v
  run-Single (q ∷ qs) c v =
      run-Single qs _ (dispatch-Single c (method_of q.method_id) q.words q.cap v)

  init_schema-Single :
      (s : k.State) (memory_manager : ℕ) (window : Window) (claims : List Claim)
      → Single h (init_schema k s memory_manager window claims)
  unfolding init_schema
  init_schema-Single s memory_manager window claims = record {
    absent = λ new.
        (create_resource_object-Has (any_kernel k) Never h _ 0 0 window.alloc_min _ 0 0 (record {
          issued = tt;
          on = AllAt-replicate (On Never h) 0 job_pool_size blank_slot (λ i u e. cc);
        })).on;
    index = 0;
    one =
        (create_resource_object-Has (any_kernel k) (InSlot 0) h _ 0 0 window.alloc_min _ 0 0
          (record {
            issued = tt;
            on = AllAt-replicate (On (InSlot 0) h) 0 job_pool_size blank_slot (λ i u e. cc);
          })).on;
  }

  pub reached-Single : (b : Boot k) (qs : List Call) → Single h (reached k b qs)
  reached-Single b qs =
      run-Single qs _ (init_schema-Single b.kernel b.memory_manager b.window b.claims)

  pub pick-Single : (c : Cluster k) (n : ℕ) → Single h c → Single h (pick_next_for_node k c n).1
  pick-Single c n v = record {
    absent = λ new.
        (pick_next_for_node-Has (any_kernel k) Never h Never-Closed c n (record {
          issued = tt;
          on = v.absent (λ old.
              (pick_next_for_node-Has (given_out laws h) Anything h Anything-Closed c n (record {
                issued = λ f. f old;
                on = AllAt-of (On Anything h) 0 c.jobs (λ i s u e. tt);
              })).issued
                new);
        })).on;
    index = v.index;
    one =
        (pick_next_for_node-Has (any_kernel k) (InSlot v.index) h (InSlot-Closed v.index) c n
          (record { issued = tt; on = v.one })).on;
  }

-- Two live slots with the same job handle are the same slot, in every cluster that is reached.
pub handles-Distinct :
    {k : Kernel} (laws : KernelLaws k) (b : Boot k) (qs : List Call) (i j : ℕ) (s t : JobSlot)
    → get_elem? (reached k b qs).jobs i ≡ some s
    → get_elem? (reached k b qs).jobs j ≡ some t
    → s.used ≡ true
    → t.used ≡ true
    → s.handle ≡ t.handle
    → i ≡ j
handles-Distinct laws b qs i j s t at_i at_j used_i used_j same =
    let single = reached-Single laws t.handle b qs in
    AllAt-get_elem? (On (InSlot single.index) t.handle) _ i s single.one at_i used_i same
    ∙ sym (AllAt-get_elem? (On (InSlot single.index) t.handle) _ j t single.one at_j used_j refl)
