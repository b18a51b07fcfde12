-- ===== src/Cluster/Quiet.antt =====
-- Calls of coreinit/cluster_scheduler.c that reach one object: what they leave alone.
use otos_coreinit.Base.{
  ℕ, ◌≡◌, ◌≢◌, refl, ◌∙◌, inl, inr, true, List, [], ◌∷◌, arith, ◌==◌, ◌&&◌, length, get_elem?,
  set_self, Bool-cases, Option-cases,
}
use otos_coreinit.Kernel.{Kernel, Object, resource, node, mutex, job, memory_manager}
use otos_coreinit.Cluster.Objects.{node_handler, job_handler}
use otos_coreinit.Cluster.State.{
  Cluster, ResourceEntry, invoke, call_object, call_resource, call_node, call_mutex, call_job,
  call_memory, param_words,
}
use otos_coreinit.Cluster.Resources.{
  resource_get_info, resource_call, resource_reserve, owned_by, has_mmu_in, node_has_mmu,
}

-- All but the data of resources and mutexes, the claims and the signals is as before.
pub record Quiet {k : Kernel} (c d : Cluster k) : Type 0 where
  pub kernel : d.kernel ≡ c.kernel
  pub jobs : d.jobs ≡ c.jobs
  pub resource_index : d.resource_index ≡ c.resource_index
  pub node_index : d.node_index ≡ c.node_index
  pub completions : d.completions ≡ c.completions
  pub mutex_handles : d.mutex_handles ≡ c.mutex_handles
  pub memory_manager : d.memory_manager ≡ c.memory_manager

pub Quiet-refl : {k : Kernel} (c : Cluster k) → Quiet c c
Quiet-refl c = record {
  kernel = refl;
  jobs = refl;
  resource_index = refl;
  node_index = refl;
  completions = refl;
  mutex_handles = refl;
  memory_manager = refl;
}

pub Quiet-trans : {k : Kernel} {c d e : Cluster k} → Quiet c d → Quiet d e → Quiet c e
Quiet-trans p q = record {
  kernel = q.kernel ∙ p.kernel;
  jobs = q.jobs ∙ p.jobs;
  resource_index = q.resource_index ∙ p.resource_index;
  node_index = q.node_index ∙ p.node_index;
  completions = q.completions ∙ p.completions;
  mutex_handles = q.mutex_handles ∙ p.mutex_handles;
  memory_manager = q.memory_manager ∙ p.memory_manager;
}

module _ (k : Kernel) where
  call_job-Quiet :
      (c : Cluster k) (i method_id : ℕ) (words : List ℕ) (cap : ℕ)
      → (method_id == 0) ≡ true
      → Quiet c (call_job k c i method_id words cap).1
  unfolding call_job job_handler
  call_job-Quiet c i method_id words cap e = elim (Option-cases (get_elem? c.jobs i)) [
    | inl n ↦ rw (n, call_job) (Quiet-refl c)
    | inr (s, h) ↦ rw (h, call_job, e) (ground (arith, set_self c.jobs i s h))
  ]

  call_resource-Quiet :
      (c : Cluster k) (i method_id : ℕ) (words : List ℕ) (cap : ℕ)
      → Quiet c (call_resource k c i method_id words cap).1
  unfolding call_resource
  call_resource-Quiet c i method_id words cap =
      elim (Option-cases (get_elem? c.resource_storage i)) [
        | inl n ↦ rw (n, call_resource) (Quiet-refl c)
        | inr (r, h) ↦ rw (h, call_resource) (ground arith)
      ]

  call_mutex-Quiet :
      (c : Cluster k) (i method_id : ℕ) (words : List ℕ) (cap : ℕ)
      → Quiet c (call_mutex k c i method_id words cap).1
  unfolding call_mutex
  call_mutex-Quiet c i method_id words cap = elim (Option-cases (get_elem? c.mutex_storage i)) [
    | inl n ↦ rw (n, call_mutex) (Quiet-refl c)
    | inr (r, h) ↦ rw (h, call_mutex) (ground arith)
  ]

  call_node-Quiet :
      (c : Cluster k) (i method_id cap : ℕ) → Quiet c (call_node k c i method_id cap).1
  unfolding call_node
  call_node-Quiet c i method_id cap = elim (Option-cases (get_elem? c.node_storage i)) [
    | inl n ↦ rw (n, call_node) (Quiet-refl c)
    | inr (r, h) ↦
        rw (h, call_node)
          (elim (Option-cases (node_handler r method_id cap).1) [
            | inl e ↦ rw e (Quiet-refl c)
            | inr (t, e) ↦ rw e (ground arith)
          ])
  ]

  -- A message of one to five words changes no job.
  call_object-Quiet :
      (c : Cluster k) (o : Object) (method_id : ℕ) (words : List ℕ) (cap : ℕ)
      → (length words == param_words o method_id) ≡ true
      → length words ≢ 6
      → length words ≢ 0
      → Quiet c (call_object k c o method_id words cap).1
  unfolding call_object call_memory param_words
  call_object-Quiet c (resource i) method_id words cap e six zero =
      call_resource-Quiet c i method_id words cap
  call_object-Quiet c (node i) method_id words cap e six zero = call_node-Quiet c i method_id cap
  call_object-Quiet c (mutex i) method_id words cap e six zero =
      call_mutex-Quiet c i method_id words cap
  call_object-Quiet c (job i) method_id words cap e six zero =
      call_job-Quiet c i method_id words cap (ground arith)
  call_object-Quiet c memory_manager method_id words cap e six zero = ground arith

  pub invoke-Quiet :
      (c : Cluster k) (handle method_id : ℕ) (words : List ℕ) (cap : ℕ)
      → length words ≢ 6
      → length words ≢ 0
      → Quiet c (invoke k c handle method_id words cap).1
  unfolding invoke
  invoke-Quiet c handle method_id words cap six zero =
      elim (Option-cases (k.resolve c.kernel handle)) [
        | inl n ↦ rw (n, invoke) (Quiet-refl c)
        | inr (o, h) ↦
            rw (h, invoke)
              (elim (Bool-cases (length words == param_words o method_id)) [
                | inl e ↦ rw e (call_object-Quiet c o method_id words cap e six zero)
                | inr e ↦ rw e (Quiet-refl c)
              ])
      ]

  pub resource_get_info-Quiet :
      (c : Cluster k) (handle : ℕ) → Quiet c (resource_get_info k c handle).1
  unfolding resource_get_info
  resource_get_info-Quiet c handle = elim (Bool-cases (handle == 0)) [
    | inl e ↦ rw e (Quiet-refl c)
    | inr e ↦ rw e (invoke-Quiet c handle 0 (0 ∷ []) 64 (omega arith) (omega arith))
  ]

  pub resource_call-Quiet :
      (c : Cluster k) (handle method_id w : ℕ) → Quiet c (resource_call k c handle method_id w).1
  unfolding resource_call
  resource_call-Quiet c handle method_id w = elim (Bool-cases (handle == 0)) [
    | inl e ↦ rw e (Quiet-refl c)
    | inr e ↦ rw e (invoke-Quiet c handle method_id (w ∷ []) 24 (omega arith) (omega arith))
  ]

  pub resource_reserve-Quiet : (c : Cluster k) (r j : ℕ) → Quiet c (resource_reserve k c r j).1
  unfolding resource_reserve
  resource_reserve-Quiet c r j = resource_call-Quiet c r 1 j

  pub owned_by-Quiet : (c : Cluster k) (n handle : ℕ) → Quiet c (owned_by k c n handle).1
  unfolding owned_by
  owned_by-Quiet c n handle = resource_get_info-Quiet c handle

  has_mmu_in-Quiet :
      (c : Cluster k) (n : ℕ) (es : List ResourceEntry) → Quiet c (has_mmu_in k c n es).1
  unfolding has_mmu_in
  has_mmu_in-Quiet c n [] = Quiet-refl c
  has_mmu_in-Quiet c n (e ∷ es) = elim (Bool-cases (e.used && e.kind == 3)) [
    | inl m ↦ rw m (elim (Bool-cases (owned_by k c n e.handle).0) [
      | inl o ↦ rw o (owned_by-Quiet c n e.handle)
      | inr o ↦ rw o (
          Quiet-trans (owned_by-Quiet c n e.handle)
            (has_mmu_in-Quiet (owned_by k c n e.handle).1 n es))
    ])
    | inr m ↦ rw m (has_mmu_in-Quiet c n es)
  ]

  pub node_has_mmu-Quiet : (c : Cluster k) (n : ℕ) → Quiet c (node_has_mmu k c n).1
  unfolding node_has_mmu
  node_has_mmu-Quiet c n = has_mmu_in-Quiet c n c.resource_index
