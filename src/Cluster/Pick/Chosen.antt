-- ===== src/Cluster/Pick/Chosen.antt =====
-- Which job pick_next_for_node of coreinit/cluster_scheduler.c hands out, and what becomes of it.
use otos_coreinit.Base.{
  ℕ, ◌≡◌, ◌≢◌, refl, sym, ◌∙◌, ap, inl, inr, Bool, true, false, List, some, arith, ◌==◌, not,
  if◌then◌else◌, get_elem?, Bool-cases, Option-cases, get_elem?-set_self, lt_of_get_elem?,
}
use otos_coreinit.Kernel.{Kernel}
use otos_coreinit.Cluster.Objects.{Job, node_affinity_any}
use otos_coreinit.Cluster.State.{Cluster, JobSlot}
use otos_coreinit.Cluster.Resources.{resource_reserve}
use otos_coreinit.Cluster.Jobs.{update_job}
use otos_coreinit.Cluster.Quiet.{Quiet-trans, resource_reserve-Quiet}
use otos_coreinit.Cluster.Pick.{
  Best, scan_jobs, bind_resource_for, choose_resource, claim_job, pick_next_for_node, best, no_scan,
}
use otos_coreinit.Cluster.Pick.Looks.{choose_resource-Quiet}
use otos_coreinit.Cluster.Pick.Scanned.{Open, Same, From, best-In, nothing_yet, scan_jobs-From}

-- Slot `i` of the two arrays, before and after a pick that gave it to node `n`.
pub record Handed (n h i : ℕ) (ss ts : List JobSlot) : Type 0 where
  pub before : JobSlot
  pub after : JobSlot
  pub at_before : get_elem? ss i ≡ some before
  pub at_after : get_elem? ts i ≡ some after
  pub handle : before.handle ≡ h
  pub open_to : Open n before
  pub same : Same before after
  pub effective : after.info.effective_priority ≡ before.info.effective_priority
  pub dispatched : after.info.dispatched ≡ true
  pub assigned : after.info.assigned_node ≡ n

get_elem?-update_job :
    (ss : List JobSlot) (i : ℕ) (f : Job → Job) (s : JobSlot)
    → get_elem? ss i ≡ some s
    → get_elem? (update_job ss i f) i ≡ some (record s { info = f s.info })
unfolding update_job
get_elem?-update_job ss i f s e =
    rw (e, update_job) (get_elem?-set_self ss i _ (lt_of_get_elem? ss i s e))

module _ (k : Kernel) where
  -- Binding a resource changes nothing else of a slot.
  bind_resource_for-slot :
      (c : Cluster k) (i h : ℕ) (j : Job) (s : JobSlot)
      → get_elem? c.jobs i ≡ some s
      → (r : ℕ) × (get_elem? (bind_resource_for k c i h j).jobs i
          ≡ some (record s { info = record (s.info) { bound_resource_id = r } }))
  unfolding bind_resource_for
  bind_resource_for-slot c i h j s e = elim (Bool-cases (not (j.bound_resource_id == 0))) [
    | inl b ↦ (s.info.bound_resource_id, rw b e)
    | inr b ↦ elim (Bool-cases ((choose_resource k c j).0 == 0)) [
      | inl z ↦ (
        s.info.bound_resource_id,
        rw b (
            rw z (ap (λ (x : List JobSlot). get_elem? x i) (choose_resource-Quiet k c j).jobs ∙ e)),
      )
      | inr z ↦
          elim (Bool-cases
            (resource_reserve k (choose_resource k c j).1 (choose_resource k c j).0 h).0) [
              | inr f ↦ (s.info.bound_resource_id, rw b (rw z (rw f kept)))
              | inl t ↦ (
                (choose_resource k c j).0,
                rw b (rw z (rw t (get_elem?-update_job _ i _ s kept))),
              )
            ]
    ]
  ]
    where
      c2 : Cluster k
      c2 = (resource_reserve k (choose_resource k c j).1 (choose_resource k c j).0 h).1

      kept : get_elem? c2.jobs i ≡ some s
      kept =
          ap (λ (x : List JobSlot). get_elem? x i)
            (Quiet-trans (choose_resource-Quiet k c j)
              (resource_reserve-Quiet k (choose_resource k c j).1 (choose_resource k c j).0 h)).jobs
          ∙ e

  pub claim_job-slot :
      (c : Cluster k) (n : ℕ) (b : Best) (s : JobSlot)
      → get_elem? c.jobs b.slot ≡ some s
      → s.info.dispatched ≡ false
      → ((claim_job k c n b).0 ≡ b.handle)
        × ((r : ℕ) × (get_elem? (claim_job k c n b).1.jobs b.slot
              ≡ some (record s {
                info = record (s.info) {
                  dispatched = true;
                  assigned_node =
                      if s.info.assigned_node == node_affinity_any then n else s.info.assigned_node;
                  bound_resource_id = r;
                };
              })))
  unfolding claim_job
  claim_job-slot c n b s e d =
      rw (e, claim_job)
        (rw d (
          refl,
          bind_resource_for-slot _ b.slot b.handle _ _ (get_elem?-update_job c.jobs b.slot _ s e),
        ))

  claimed-Handed :
      (c c' : Cluster k) (n : ℕ) (b : Best) (w : Bool)
      → From n 0 c.jobs c'.jobs b w
      → Handed n (claim_job k c' n b).0 b.slot c.jobs (claim_job k c' n b).1.jobs
  claimed-Handed c c' n b w f =
      let here : b.slot ≡ f.j = omega (arith, f.slot) in
      let now : get_elem? c'.jobs b.slot ≡ some f.now = cc in
      let given = claim_job-slot c' n b f.now now (f.waiting ∙ f.open_to.waiting) in
      record {
        before = f.old;
        after = _;
        at_before = cc;
        at_after = given.1.1;
        handle = sym f.handle ∙ sym given.0;
        open_to = f.open_to;
        same = record {
          used = f.same.used;
          handle = f.same.handle;
          type = f.same.type;
          arg0 = f.same.arg0;
          arg1 = f.same.arg1;
          node_affinity = f.same.node_affinity;
        };
        effective = f.effective;
        dispatched = refl;
        assigned = ground (arith, f.assigned, f.open_to.eligible);
      }

  -- A job that is handed out stood in a slot in use, not dispatched, and open to the node that asks;
  -- after the pick the same slot holds the same job with the same handle and effective priority,
  -- dispatched and assigned to that node.
  pub picked-Handed :
      (c : Cluster k) (n : ℕ)
      → (pick_next_for_node k c n).0.0 ≢ 0
      → Handed n
          (pick_next_for_node k c n).0.0
          (pick_next_for_node k c n).0.1
          c.jobs
          (pick_next_for_node k c n).1.jobs
  unfolding pick_next_for_node
  picked-Handed c n = elim (Option-cases (best (scan_jobs k c n c.jobs 0 no_scan).0.1)) [
    | inl e ↦ rw (e, pick_next_for_node) (λ h. absurd (h refl))
    | inr (b, e) ↦
        rw (e, pick_next_for_node)
          (λ h.
            let w = (best-In _ b e).0 in
            elim (scan_jobs-From k c n c.jobs 0 no_scan b w (best-In _ b e).1) [
              | inl o ↦ absurd (nothing_yet b w o)
              | inr f ↦ claimed-Handed c _ n b w f
            ])
  ]
