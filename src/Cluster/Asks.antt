-- ===== src/Cluster/Asks.antt =====
-- GET_INFO of coreinit/cluster_scheduler.c: a question to any object leaves the resources' data and the
-- memory manager's claims as they are.
use otos_coreinit.Base.{
  ℕ, ◌≡◌, refl, ◌∙◌, inl, inr, true, List, [], ◌∷◌, some, ◌==◌, ◌&&◌, false≢true, ==→eq, get_elem?,
  set_self, Bool-cases, Option-cases,
}
use otos_coreinit.Kernel.{Kernel, Object, resource, node, mutex, job, memory_manager}
use otos_coreinit.MemMgr.{free_locked}
use otos_coreinit.MemMgr.Reuse.{handler-free}
use otos_coreinit.Wire.{flag}
use otos_coreinit.Cluster.Objects.{resource_handler, node_handler}
use otos_coreinit.Cluster.State.{
  Cluster, ResourceEntry, invoke, call_object, call_memory, call_resource, call_node, call_mutex,
  call_job, param_words,
}
use otos_coreinit.Cluster.Resources.{ResourceInfo, resource_get_info, owned_by, has_mmu_in}
use otos_coreinit.Cluster.Quiet.{Quiet, Quiet-refl, Quiet-trans, resource_get_info-Quiet}

pub record Same {k : Kernel} (c d : Cluster k) : Type 0 where
  pub resources : d.resource_storage ≡ c.resource_storage
  pub claims : d.claims ≡ c.claims

-- Beside what Quiet says, every resource has the data it had, and the ledger its claims.
pub record Asked {k : Kernel} (c d : Cluster k) : Type 0 where
  pub quiet : Quiet c d
  pub same : Same c d

Same-refl : {k : Kernel} (c : Cluster k) → Same c c
Same-refl c = record { resources = refl; claims = refl }

pub Asked-refl : {k : Kernel} (c : Cluster k) → Asked c c
Asked-refl c = record { quiet = Quiet-refl c; same = Same-refl c }

pub Asked-trans : {k : Kernel} {c d e : Cluster k} → Asked c d → Asked d e → Asked c e
Asked-trans p q = record {
  quiet = Quiet-trans p.quiet q.quiet;
  same = record {
    resources = q.same.resources ∙ p.same.resources;
    claims = q.same.claims ∙ p.same.claims;
  };
}

module _ (k : Kernel) where
  ask_resource : (c : Cluster k) (i : ℕ) → Same c (call_resource k c i 0 (0 ∷ []) 64).1
  unfolding call_resource resource_handler
  ask_resource c i = elim (Option-cases (get_elem? c.resource_storage i)) [
    | inl n ↦ rw (n, call_resource) (Same-refl c)
    | inr (r, h) ↦
        rw (h, call_resource)
          (record { resources = set_self c.resource_storage i r h; claims = refl })
  ]

  ask_node : (c : Cluster k) (i : ℕ) → Same c (call_node k c i 0 64).1
  unfolding call_node node_handler
  ask_node c i = elim (Option-cases (get_elem? c.node_storage i)) [
    | inl n ↦ rw (n, call_node) (Same-refl c)
    | inr (r, h) ↦ rw (h, call_node) (Same-refl c)
  ]

  ask_mutex : (c : Cluster k) (i : ℕ) → Same c (call_mutex k c i 0 (0 ∷ []) 64).1
  unfolding call_mutex
  ask_mutex c i = elim (Option-cases (get_elem? c.mutex_storage i)) [
    | inl n ↦ rw (n, call_mutex) (Same-refl c)
    | inr (r, h) ↦ rw (h, call_mutex) (record { resources = refl; claims = refl })
  ]

  ask_job : (c : Cluster k) (i : ℕ) → Same c (call_job k c i 0 (0 ∷ []) 64).1
  unfolding call_job
  ask_job c i = elim (Option-cases (get_elem? c.jobs i)) [
    | inl n ↦ rw (n, call_job) (Same-refl c)
    | inr (r, h) ↦ rw (h, call_job) (record { resources = refl; claims = refl })
  ]

  ask_object :
      (c : Cluster k) (o : Object)
      → (1 == param_words o 0) ≡ true
      → Same c (call_object k c o 0 (0 ∷ []) 64).1
  unfolding call_object param_words
  ask_object c (resource i) e = ask_resource c i
  ask_object c (node i) e = ask_node c i
  ask_object c (mutex i) e = ask_mutex c i
  ask_object c (job i) e = ask_job c i
  ask_object c memory_manager e = cc

  ask : (c : Cluster k) (handle : ℕ) → Same c (invoke k c handle 0 (0 ∷ []) 64).1
  unfolding invoke
  ask c handle = elim (Option-cases (k.resolve c.kernel handle)) [
    | inl n ↦ rw (n, invoke) (Same-refl c)
    | inr (o, h) ↦
        rw (h, invoke)
          (elim (Bool-cases (1 == param_words o 0)) [
            | inl e ↦ rw e (ask_object c o e)
            | inr e ↦ rw e (Same-refl c)
          ])
  ]

  get_info-Same : (c : Cluster k) (handle : ℕ) → Same c (resource_get_info k c handle).1
  unfolding resource_get_info
  get_info-Same c handle = elim (Bool-cases (handle == 0)) [
    | inl e ↦ rw e (Same-refl c)
    | inr e ↦ rw e (ask c handle)
  ]

  pub resource_get_info-Asked :
      (c : Cluster k) (handle : ℕ) → Asked c (resource_get_info k c handle).1
  resource_get_info-Asked c handle = record {
    quiet = resource_get_info-Quiet k c handle;
    same = get_info-Same c handle;
  }

  pub owned_by-Asked : (c : Cluster k) (n handle : ℕ) → Asked c (owned_by k c n handle).1
  unfolding owned_by
  owned_by-Asked c n handle = resource_get_info-Asked c handle

  pub has_mmu_in-Asked :
      (c : Cluster k) (n : ℕ) (es : List ResourceEntry) → Asked c (has_mmu_in k c n es).1
  unfolding has_mmu_in
  has_mmu_in-Asked c n [] = Asked-refl c
  has_mmu_in-Asked c n (e ∷ es) = elim (Bool-cases (e.used && e.kind == 3)) [
    | inl m ↦ rw m (elim (Bool-cases (owned_by k c n e.handle).0) [
      | inl o ↦ rw o (owned_by-Asked c n e.handle)
      | inr o ↦ rw o (
          Asked-trans (owned_by-Asked c n e.handle)
            (has_mmu_in-Asked (owned_by k c n e.handle).1 n es))
    ])
    | inr m ↦ rw m (has_mmu_in-Asked c n es)
  ]

  -- What an object told that counts as owned by the node.
  pub owned_told :
      (c : Cluster k) (n handle : ℕ)
      → (owned_by k c n handle).0 ≡ true
      → (r : ResourceInfo) × ((resource_get_info k c handle).0 ≡ some r) × (r.owner_node ≡ n)
  unfolding owned_by
  owned_told c n handle owned = elim (Option-cases (resource_get_info k c handle).0) [
    | inl e ↦ absurd (false≢true (rw (e, owned_by) at owned))
    | inr (r, e) ↦
        let same : (r.owner_node == n) ≡ true = rw (e, owned_by) at owned in
        (r, e, ==→eq r.owner_node n same)
  ]

  -- FREE of the memory manager, reached through its handle.
  pub free_call :
      (c : Cluster k) (base : ℕ)
      → k.resolve c.kernel c.memory_manager ≡ some memory_manager
      → invoke k c c.memory_manager 2 (base ∷ []) 24 ≡ (
        some (flag (free_locked c.claims base).0 ∷ []),
        record c { claims = (free_locked c.claims base).1 },
      )
  unfolding invoke call_object call_memory param_words
  free_call c base mm = rw (mm, invoke) (rw (handler-free c.window c.claims base) refl)
