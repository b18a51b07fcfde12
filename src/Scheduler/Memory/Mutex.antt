-- ===== src/Scheduler/Memory/Mutex.antt =====
-- coreinit/job_memory.c over coreinit/cluster_scheduler.c: the allocator's mutex around a slice.
use otos_coreinit.Base.{
  ℕ, ◌≡◌, ◌⊎◌, refl, ◌∙◌, ap, inl, inr, true, false, List, [], ◌∷◌, Option, none, some, ◌==◌, not,
  get_elem?, set, get_elem?-set_self, lt_of_get_elem?, Bool-cases,
}
use otos_coreinit.Kernel.{Kernel, KernelLaws, memory_manager}
use otos_coreinit.Wire.{word}
use otos_coreinit.Cluster.Objects.{Mutex}
use otos_coreinit.Cluster.State.{Cluster, at_least}
use otos_coreinit.Cluster.Handlers.{handle_allocate_slice}
use otos_coreinit.Cluster.Dispatch.{method_of, dispatch, handler}
use otos_coreinit.Scheduler.{
  Client, scheduler_node_id, scheduler_call, scheduler_mutex_try_lock, scheduler_mutex_unlock,
  scheduler_allocate_slice,
}
use otos_coreinit.Scheduler.Memory.{Outcome, finished, blocked_on_mutex, Slice, try_acquire_local}
use otos_coreinit.Scheduler.Worker.{reach}
use otos_coreinit.Scheduler.Memory.Allocator.{
  Allocator, lock_free, lock_taken, unlock_storage, allocate-Allocator,
}

-- The job got an answer at once, and the mutex is free again.
pub record Finished {k : Kernel} (x j : ℕ) (r : Outcome Slice × Cluster k) : Type 0 where
  pub slice : Slice
  pub answer : r.0 ≡ finished slice
  pub free : get_elem? r.1.mutex_storage x ≡ some (record { locked = false; holder_job_id = j })

-- The job has to wait; nothing was allocated, and the mutex is its holder's as before.
pub record Waiting {k : Kernel} (c : Cluster k) (x : ℕ) (m : Mutex) (r : Outcome Slice × Cluster k)
    : Type 0 where
  pub answer : r.0 ≡ blocked_on_mutex 0
  pub claims : r.1.claims ≡ c.claims
  pub held : get_elem? r.1.mutex_storage x ≡ some m

module _ {k : Kernel} (laws : KernelLaws k) where
  try_lock_client :
      (client : Client) (c d : Cluster k) (j w : ℕ)
      → handler k c 8 (0 ∷ j ∷ []) 24 ≡ (some (w ∷ []), d)
      → scheduler_mutex_try_lock (Cluster k) (reach k) client 0 j c ≡ (not (w == 0), d)
  unfolding scheduler_mutex_try_lock scheduler_call at_least
  try_lock_client client c d j w e =
      ap
        (λ (r : Option (List ℕ) × Cluster k).
          let first : ℕ = elim (at_least 24 r.0) [ none ↦ 0 | some out ↦ word out 0 ] in
          (not (first == 0), r.1))
        e

  allocate_client :
      (client : Client) (c : Cluster k) (size kind sync_kind j : ℕ)
      → (scheduler_allocate_slice (Cluster k) (reach k) client size kind sync_kind j c).1
        ≡ (handle_allocate_slice k c
            (scheduler_node_id client ∷ j ∷ size ∷ kind ∷ sync_kind ∷ [])
            48).1
  unfolding scheduler_allocate_slice scheduler_call handler method_of dispatch
  allocate_client client c size kind sync_kind j = refl

  unlock_client :
      (client : Client) (c : Cluster k) (j : ℕ)
      → scheduler_mutex_unlock (Cluster k) (reach k) client 0 j c ≡ (handler k c 9 (0 ∷ j ∷ []) 0).1
  unfolding scheduler_mutex_unlock scheduler_call
  unlock_client client c j = refl

  acquire_free :
      (c : Cluster k) (client : Client) (x h j size kind : ℕ) (m : Mutex)
      → k.resolve c.kernel c.memory_manager ≡ some memory_manager
      → k.Issued c.kernel h
      → Allocator x h m c
      → m.locked ≡ false
      → Finished x j (try_acquire_local (Cluster k) (reach k) client size kind j c)
  unfolding try_acquire_local
  acquire_free c client x h j size kind m mm known a free =
      let locked : Mutex = record { locked = true; holder_job_id = j } in
      let c1 : Cluster k = record c { mutex_storage = set c.mutex_storage x locked } in
      let a1 : Allocator x h locked c1 = record {
        named = a.named;
        nonzero = a.nonzero;
        resolves = a.resolves;
        stored =
            get_elem?-set_self c.mutex_storage x locked
              (lt_of_get_elem? c.mutex_storage x m a.stored);
      } in
      let a2 =
        allocate-Allocator laws c1 x h locked (scheduler_node_id client ∷ j ∷ size ∷ kind ∷ 0 ∷ [])
          48 mm known a1 in
      let d = (scheduler_allocate_slice (Cluster k) (reach k) client size kind 0 j c1).1 in
      let a3 : Allocator x h locked d = rw (allocate_client client c1 size kind 0 j) a2 in
      rw (try_lock_client client c c1 j 1 (lock_free c x h j m a free)) (record {
        slice = _;
        answer = refl;
        free =
            ap (λ (e : Cluster k). get_elem? e.mutex_storage x) (unlock_client client d j)
            ∙ ap (λ (ms : List Mutex). get_elem? ms x) (unlock_storage d x h j a3)
            ∙ get_elem?-set_self d.mutex_storage x _
                (lt_of_get_elem? d.mutex_storage x locked a3.stored);
      })

  acquire_taken :
      (c : Cluster k) (client : Client) (x h j size kind : ℕ) (m : Mutex)
      → Allocator x h m c
      → m.locked ≡ true
      → Waiting c x m (try_acquire_local (Cluster k) (reach k) client size kind j c)
  unfolding try_acquire_local
  acquire_taken c client x h j size kind m a taken =
      rw (try_lock_client client c _ j 0 (lock_taken c x h j m a taken)) (record {
        answer = refl;
        claims = refl;
        held =
            get_elem?-set_self c.mutex_storage x m (lt_of_get_elem? c.mutex_storage x m a.stored);
      })

  -- An attempt of a job to get a slice of memory, where the allocator's mutex and the memory manager
  -- are live objects: if the mutex was free, the job gets its answer and the mutex is free again; if
  -- another call holds it, the job is told to wait for mutex 0, nothing is allocated, and the mutex
  -- is still its holder's.
  pub try_acquire_local_lem :
      (c : Cluster k) (client : Client) (x h j size kind : ℕ) (m : Mutex)
      → k.resolve c.kernel c.memory_manager ≡ some memory_manager
      → k.Issued c.kernel h
      → Allocator x h m c
      → ((m.locked ≡ false)
          × Finished x j (try_acquire_local (Cluster k) (reach k) client size kind j c))
        ⊎ ((m.locked ≡ true)
            × Waiting c x m (try_acquire_local (Cluster k) (reach k) client size kind j c))
  try_acquire_local_lem c client x h j size kind m mm known a = elim (Bool-cases m.locked) [
    | inl taken ↦ inr (taken, acquire_taken c client x h j size kind m a taken)
    | inr free ↦ inl (free, acquire_free c client x h j size kind m mm known a free)
  ]
