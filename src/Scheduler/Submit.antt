-- ===== src/Scheduler/Submit.antt =====
-- submit of coreinit/scheduler.c against the scheduler that it reaches.
use otos_coreinit.Base.{
  ℕ, ◌^◌, ◌<◌, ◌≡◌, ◌≢◌, ◌∙◌, ap, subst, sym, inl, inr, List, some, false, arith, ltb, to_int,
  sign_extend, Bool-cases,
}
use otos_coreinit.Kernel.{Kernel, KernelLaws, job}
use otos_coreinit.Cluster.Objects.{node_affinity_any, block_none}
use otos_coreinit.Cluster.State.{Cluster, at_least}
use otos_coreinit.Cluster.Jobs.{new_job, create_job_object, free_slot}
use otos_coreinit.Cluster.Jobs.Created.{made_found_reached, made_handle, made_others}
use otos_coreinit.Cluster.JobHandlers.{job_info, handle_submit_job}
use otos_coreinit.Cluster.Dispatch.{method_of, dispatch, handler}
use otos_coreinit.Cluster.Traces.{Call, Boot, reached}
use otos_coreinit.Scheduler.{Client, scheduler_call, scheduler_submit_values_to_node}
use otos_coreinit.Scheduler.Worker.{reach}

to_int_kept : (i : ℕ) → i < 2 ^ 32 → to_int i ≡ i
to_int_kept i small = omega arith

int_kept : (i : ℕ) → i < 2 ^ 32 → to_int (sign_extend i) ≡ i
int_kept i small = elim (Bool-cases (ltb i (2 ^ 31))) [
  | inl e ↦ rw e (omega arith)
  | inr e ↦ rw e (omega arith)
]

submitted :
    {k : Kernel} (asking : Client) (s : Cluster k)
    (node_affinity type arg0 arg1 priority resource_id resource_kind resource_min_capacity : ℕ)
    → type < 2 ^ 32
    → priority < 2 ^ 32
    → scheduler_submit_values_to_node
        (Cluster k)
        (reach k)
        asking
        node_affinity
        type
        arg0
        arg1
        priority
        resource_id
        resource_kind
        resource_min_capacity
        s
      ≡ create_job_object k s (
          new_job type arg0 arg1 priority node_affinity resource_id resource_kind
            resource_min_capacity)
unfolding scheduler_call handler method_of dispatch handle_submit_job at_least
submitted {k} asking s node_affinity type arg0 arg1 priority resource_id resource_kind
      resource_min_capacity type_fits priority_fits =
    let sent : ℕ → ℕ → ℕ × Cluster k = λ t p.
      create_job_object k s
        (new_job t arg0 arg1 p node_affinity resource_id resource_kind resource_min_capacity) in
    ap (λ (t : ℕ). sent t (to_int (sign_extend priority))) (to_int_kept type type_fits)
    ∙ ap (λ (p : ℕ). sent type p) (int_kept priority priority_fits)

module _ {k : Kernel} (laws : KernelLaws k) (asking : Client) (b : Boot k) (qs : List Call)
    (node_affinity type arg0 arg1 priority resource_id resource_kind
      resource_min_capacity : ℕ) where
  abbrev before : Cluster k
  before = reached k b qs

  abbrev answer : ℕ × Cluster k
  answer =
      scheduler_submit_values_to_node (Cluster k) (reach k) asking node_affinity type arg0 arg1
        priority resource_id resource_kind resource_min_capacity before

  -- In a state that calls reached from the start, with a free slot and a kernel that makes the
  -- object of the job: scheduler_submit_values_to_node with a type and a priority of 32 bits answers
  -- the handle of that object, which finds a job with that type, those arguments, that priority as its
  -- base and its effective priority, that affinity and that demand for a resource, assigned to no
  -- node, not dispatched, not blocked and with nothing bound, while every other handle `g` finds what
  -- it found before.
  pub job_info-submit :
      (i g : ℕ)
      → type < 2 ^ 32
      → priority < 2 ^ 32
      → free_slot before.jobs ≡ some i
      → (k.create before.kernel (job i)).0 ≢ 0
      → g ≢ answer.0
      → (answer.0 ≡ (k.create before.kernel (job i)).0)
        × (job_info answer.1.jobs answer.0
            ≡ some (record {
              type = type;
              arg0 = arg0;
              arg1 = arg1;
              base_priority = priority;
              effective_priority = priority;
              node_affinity = node_affinity;
              assigned_node = node_affinity_any;
              resource_id = resource_id;
              resource_kind = resource_kind;
              resource_min_capacity = resource_min_capacity;
              bound_resource_id = 0;
              blocked = 0;
              block_kind = block_none;
              block_id = 0;
              dispatched = false;
            }))
        × (job_info answer.1.jobs g ≡ job_info before.jobs g)
  job_info-submit i g type_fits priority_fits free made other =
      let sent =
        new_job type arg0 arg1 priority node_affinity resource_id resource_kind
          resource_min_capacity in
      let same =
        submitted asking before node_affinity type arg0 arg1 priority resource_id resource_kind
          resource_min_capacity type_fits priority_fits in
      let handle = made_handle k before sent i free made in
      subst
        (λ (r : ℕ × Cluster k).
          (r.0 ≡ (k.create before.kernel (job i)).0)
          × (job_info r.1.jobs r.0 ≡ some sent)
          × (job_info r.1.jobs g ≡ job_info before.jobs g))
        (sym same)
        (
          handle,
          made_found_reached laws b qs sent (subst (λ (h : ℕ). h ≢ 0) (sym handle) made),
          made_others k before sent g (subst (λ (r : ℕ × Cluster k). g ≢ r.0) same other),
        )
