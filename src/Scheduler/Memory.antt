-- ===== src/Scheduler/Memory.antt =====
-- coreinit/job_memory.c: a slice of memory for a job, under the allocator's mutex.
pub mod Allocator
pub mod Mutex
pub mod Contention
use otos_coreinit.Base.{ℕ, Bool, List, [], ◌∷◌, Option, none, some, ◌==◌, not, if◌then◌else◌}
use otos_coreinit.Cluster.Objects.{sync_transfer}
use otos_coreinit.Cluster.JobHandlers.{job_finished, job_blocked_on_mutex}
use otos_coreinit.Scheduler.{
  Client, Invoke, scheduler_mutex_try_lock, scheduler_mutex_unlock, scheduler_allocate_slice,
  scheduler_release_slice,
}

abbrev pub allocator_mutex_id : ℕ
allocator_mutex_id = 0

-- `job_memory_slice_t`
pub record Slice : Type 0 where
  pub resource_id : ℕ
  pub base : ℕ
  pub size : ℕ
  pub sync_kind : ℕ
  pub owned : Bool

-- What a job returns at once, or the mutex that it has to wait for.
pub data Outcome {ℓ} (A : Type ℓ) : Type ℓ where
  finished : A → Outcome A
  blocked_on_mutex : ℕ → Outcome A

module _ (S : Type 0) (invoke : Invoke S) (c : Client) where
  pub try_acquire_local : ℕ → ℕ → ℕ → S → Outcome Slice × S
  try_acquire_local size kind self_job_id s =
      let (locked, s1) = scheduler_mutex_try_lock S invoke c allocator_mutex_id self_job_id s in
      let ((ok, resource_id, base), s2) =
        scheduler_allocate_slice S invoke c size kind sync_transfer self_job_id s1 in
      if not locked then (blocked_on_mutex allocator_mutex_id, s1) else (
        finished (record {
          resource_id = resource_id;
          base = base;
          size = size;
          sync_kind = sync_transfer;
          owned = not (resource_id == 0);
        }),
        scheduler_mutex_unlock S invoke c allocator_mutex_id self_job_id s2,
      )

  abbrev pub try_release : ℕ → ℕ → S → Outcome Bool × S
  try_release resource_id self_job_id s =
      let (locked, s1) = scheduler_mutex_try_lock S invoke c allocator_mutex_id self_job_id s in
      let (ok, s2) = scheduler_release_slice S invoke c resource_id self_job_id s1 in
      if not locked
      then (blocked_on_mutex allocator_mutex_id, s1)
      else (finished ok, scheduler_mutex_unlock S invoke c allocator_mutex_id self_job_id s2)
