-- ===== src/Scheduler/Memory/Allocator.antt =====
-- The allocator's mutex in coreinit/cluster_scheduler.c: what the calls that coreinit/job_memory.c
-- makes do to it.
use otos_coreinit.Base.{
  ℕ, ◌≡◌, refl, sym, subst, ◌∙◌, ap, inl, inr, true, false, List, [], ◌∷◌, Option, none, some,
  arith, ◌==◌, not, leb, get_elem?, get_or, set, Bool-cases, Option-cases, ==→eq,
}
use otos_coreinit.Kernel.{Kernel, KernelLaws, mutex, memory_manager, resource}
use otos_coreinit.MemMgr.{Claim}
use otos_coreinit.Wire.{word}
use otos_coreinit.Cluster.Objects.{Mutex, mutex_handler, try_lock, unlock}
use otos_coreinit.Cluster.State.{
  Cluster, invoke, call_object, call_mutex, call_memory, param_words, at_least, resource_pool_size,
}
use otos_coreinit.Cluster.Resources.{create_resource_object}
use otos_coreinit.Cluster.Handlers.{handle_allocate_slice}
use otos_coreinit.Cluster.JobHandlers.{
  mutex_object_for_id, inherit, change_job, handle_mutex_try_lock, handle_mutex_unlock,
}
use otos_coreinit.Cluster.Dispatch.{method_of, dispatch, handler}

-- The allocator's mutex object is `x`, with the data `m`, behind the handle `h`.
pub record Allocator {k : Kernel} (x h : ℕ) (m : Mutex) (c : Cluster k) : Type 0 where
  pub named : get_or c.mutex_handles 0 0 ≡ h
  pub nonzero : (h == 0) ≡ false
  pub resolves : k.resolve c.kernel h ≡ some (mutex x)
  pub stored : get_elem? c.mutex_storage x ≡ some m

-- The three calls of the mutex's own handler.
tried_free :
    (m : Mutex) (j : ℕ)
    → m.locked ≡ false
    → mutex_handler m 0 (j ∷ []) 40
      ≡ (some (1 ∷ j ∷ []), record { locked = true; holder_job_id = j })
unfolding mutex_handler try_lock
tried_free m j free = ground (arith, free)

tried_locked :
    (m : Mutex) (j : ℕ)
    → m.locked ≡ true
    → mutex_handler m 0 (j ∷ []) 40 ≡ (some (0 ∷ m.holder_job_id ∷ []), m)
unfolding mutex_handler try_lock
tried_locked m j taken = ground (arith, taken)

unlocked :
    (j : ℕ)
    → mutex_handler (record { locked = true; holder_job_id = j }) 1 (j ∷ []) 24
      ≡ (some (1 ∷ []), record { locked = false; holder_job_id = j })
unfolding mutex_handler unlock
unlocked j = ground arith

module _ {k : Kernel} where
  invoke_mutex :
      (c : Cluster k) (x h j method_id cap : ℕ) (m : Mutex)
      → leb method_id 1 ≡ true
      → Allocator x h m c
      → invoke k c h method_id (j ∷ []) cap ≡ (
        (mutex_handler m method_id (j ∷ []) cap).0,
        record c {
          mutex_storage = set c.mutex_storage x (mutex_handler m method_id (j ∷ []) cap).1;
        },
      )
  unfolding invoke call_object call_mutex param_words
  invoke_mutex c x h j method_id cap m low a =
      rw (a.resolves, invoke) (rw low (rw (a.stored, call_mutex) refl))

  -- MUTEX_TRY_LOCK and MUTEX_UNLOCK for the allocator's mutex, once the object has answered.
  lock_answer :
      (c d : Cluster k) (x h j : ℕ) (m : Mutex) (holder : ℕ)
      → Allocator x h m c
      → invoke k c h 0 (j ∷ []) 40 ≡ (some (1 ∷ holder ∷ []), d)
      → handler k c 8 (0 ∷ j ∷ []) 24 ≡ (some (1 ∷ []), d)
  unfolding handler method_of dispatch handle_mutex_try_lock mutex_object_for_id at_least
  lock_answer c d x h j m holder a e =
      let called : invoke k c (get_or c.mutex_handles 0 0) 0 (j ∷ []) 40
          ≡ (some (1 ∷ holder ∷ []), d) =
        rw (a.named) e in
      rw (a.named) (
        rw (a.nonzero)
          (rw e (ap (λ (y : Option (List ℕ) × Cluster k). (some (1 ∷ []), y.1)) called)))

  refuse_answer :
      (c d : Cluster k) (x h j : ℕ) (m : Mutex) (holder : ℕ)
      → Allocator x h m c
      → invoke k c h 0 (j ∷ []) 40 ≡ (some (0 ∷ holder ∷ []), d)
      → handler k c 8 (0 ∷ j ∷ []) 24 ≡ (some (0 ∷ []), record d { jobs = inherit d.jobs j holder })
  unfolding handler method_of dispatch handle_mutex_try_lock mutex_object_for_id at_least
  refuse_answer c d x h j m holder a e =
      let called : invoke k c (get_or c.mutex_handles 0 0) 0 (j ∷ []) 40
          ≡ (some (0 ∷ holder ∷ []), d) =
        rw (a.named) e in
      rw (a.named) (
        rw (a.nonzero) (
          rw e (
            ap
              (λ (y : Option (List ℕ) × Cluster k).
                (some (0 ∷ []), record (y.1) { jobs = inherit y.1.jobs j holder }))
              called)))

  pub lock_free :
      (c : Cluster k) (x h j : ℕ) (m : Mutex)
      → Allocator x h m c
      → m.locked ≡ false
      → handler k c 8 (0 ∷ j ∷ []) 24 ≡ (
        some (1 ∷ []),
        record c {
          mutex_storage = set c.mutex_storage x (record { locked = true; holder_job_id = j });
        },
      )
  lock_free c x h j m a free =
      lock_answer c _ x h j m j a
        (rw (invoke_mutex c x h j 0 40 m refl a) (rw (tried_free m j free) refl))

  pub lock_taken :
      (c : Cluster k) (x h j : ℕ) (m : Mutex)
      → Allocator x h m c
      → m.locked ≡ true
      → handler k c 8 (0 ∷ j ∷ []) 24 ≡ (
        some (0 ∷ []),
        record c {
          mutex_storage = set c.mutex_storage x m;
          jobs = inherit c.jobs j m.holder_job_id;
        },
      )
  lock_taken c x h j m a taken =
      refuse_answer c _ x h j m m.holder_job_id a
        (rw (invoke_mutex c x h j 0 40 m refl a) (rw (tried_locked m j taken) refl))

  unlock_answer :
      (c d : Cluster k) (x h j : ℕ) (m : Mutex)
      → Allocator x h m c
      → invoke k c h 1 (j ∷ []) 24 ≡ (some (1 ∷ []), d)
      → handler k c 9 (0 ∷ j ∷ []) 0 ≡ (
        none,
        record d {
          jobs = change_job d.jobs j (λ t. record t { effective_priority = t.base_priority });
        },
      )
  unfolding handler method_of dispatch handle_mutex_unlock mutex_object_for_id at_least
  unlock_answer c d x h j m a e = rw (a.named) (rw (a.nonzero) (rw e refl))

  -- The unlock by the holder clears the lock, resets the holder's priority and touches nothing else.
  pub unlock_held :
      (c : Cluster k) (x h j : ℕ)
      → Allocator x h (record { locked = true; holder_job_id = j }) c
      → handler k c 9 (0 ∷ j ∷ []) 0 ≡ (
        none,
        record c {
          mutex_storage = set c.mutex_storage x (record { locked = false; holder_job_id = j });
          jobs = change_job c.jobs j (λ t. record t { effective_priority = t.base_priority });
        },
      )
  unlock_held c x h j a =
      unlock_answer c _ x h j _ a (rw (invoke_mutex c x h j 1 24 _ refl a) (rw (unlocked j) refl))

  -- The unlock clears the lock and touches no other object.
  pub unlock_storage :
      (c : Cluster k) (x h j : ℕ)
      → Allocator x h (record { locked = true; holder_job_id = j }) c
      → (handler k c 9 (0 ∷ j ∷ []) 0).1.mutex_storage
        ≡ set c.mutex_storage x (record { locked = false; holder_job_id = j })
  unlock_storage c x h j a =
      ap (λ (r : Option (List ℕ) × Cluster k). r.1.mutex_storage) (unlock_held c x h j a)

module _ {k : Kernel} (laws : KernelLaws k) where
  create_resource_object-Allocator :
      (c : Cluster k) (x h : ℕ) (m : Mutex) (o kd d cp sy r : ℕ)
      → k.Issued c.kernel h
      → Allocator x h m c
      → Allocator x h m (create_resource_object k c o kd d cp sy r).1
  unfolding create_resource_object
  create_resource_object-Allocator c x h m o kd d cp sy r known a =
      let made = k.create c.kernel (resource c.resource_storage_next) in
      elim (Bool-cases (leb resource_pool_size c.resource_storage_next)) [
        | inl full ↦ rw full (record {
          named = a.named;
          nonzero = a.nonzero;
          resolves = a.resolves;
          stored = a.stored;
        })
        | inr room ↦
            let kept : k.resolve made.1 h ≡ some (mutex x) = elim (Bool-cases (made.0 == h)) [
              | inl same ↦ absurd (
                  laws.create_fresh c.kernel (resource c.resource_storage_next)
                    (ground (arith, a.nonzero, same))
                    (subst (k.Issued c.kernel) (sym (==→eq made.0 h same)) known))
              | inr other ↦
                  laws.create_others c.kernel (resource c.resource_storage_next) h
                    (ground (arith, other))
                  ∙ a.resolves
            ] in
            rw room (elim (Bool-cases (made.0 == 0)) [
              | inl z ↦ rw z (record {
                named = a.named;
                nonzero = a.nonzero;
                resolves = kept;
                stored = a.stored;
              })
              | inr z ↦ rw z (record {
                named = a.named;
                nonzero = a.nonzero;
                resolves = kept;
                stored = a.stored;
              })
            ])
      ]

  invoke_memory :
      (c : Cluster k) (p q : ℕ)
      → k.resolve c.kernel c.memory_manager ≡ some memory_manager
      → (cs : List Claim) × ((invoke k c c.memory_manager 1 (p ∷ q ∷ []) 40).1
          ≡ record c { claims = cs })
  unfolding invoke call_object call_memory param_words
  invoke_memory c p q e = rw (e, invoke) (_, refl)

  pub allocate-Allocator :
      (c : Cluster k) (x h : ℕ) (m : Mutex) (words : List ℕ) (cap : ℕ)
      → k.resolve c.kernel c.memory_manager ≡ some memory_manager
      → k.Issued c.kernel h
      → Allocator x h m c
      → Allocator x h m (handle_allocate_slice k c words cap).1
  unfolding handle_allocate_slice
  allocate-Allocator c x h m words cap mm known a =
      let called = invoke_memory c (word words 2) (word words 3) mm in
      let a1 : Allocator x h m
          (invoke k c c.memory_manager 1 (word words 2 ∷ word words 3 ∷ []) 40).1 =
        rw (called.1) (record {
          named = a.named;
          nonzero = a.nonzero;
          resolves = a.resolves;
          stored = a.stored;
        }) in
      let known1 : k.Issued
          (invoke k c c.memory_manager 1 (word words 2 ∷ word words 3 ∷ []) 40).1.kernel h =
        rw (called.1) known in
      elim (Option-cases
        (at_least 24 (invoke k c c.memory_manager 1 (word words 2 ∷ word words 3 ∷ []) 40).0)) [
          | inl e ↦ rw (e, handle_allocate_slice) a1
          | inr (out, e) ↦
              rw (e, handle_allocate_slice)
                (elim (Bool-cases (not (word out 0 == 0))) [
                  | inl ok ↦ rw ok (
                      create_resource_object-Allocator _ x h m (word words 0) 0 (word out 1)
                        (word words 2) (word words 4) (word words 1) known1 a1)
                  | inr bad ↦ rw bad a1
                ])
        ]
