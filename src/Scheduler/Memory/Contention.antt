-- ===== src/Scheduler/Memory/Contention.antt =====
-- A job that finds the allocator's mutex taken, in coreinit/cluster_scheduler.c: its priority goes to
-- the holder until the holder unlocks.
use otos_coreinit.Base.{
  ℕ, ◌≡◌, ◌≢◌, ◌⊎◌, refl, ◌∙◌, true, false, List, [], ◌∷◌, Option, none, some, lt_int, get_elem?,
  set, get_elem?-set_self, lt_of_get_elem?,
}
use otos_coreinit.Kernel.{Kernel}
use otos_coreinit.Cluster.Objects.{Job, Mutex}
use otos_coreinit.Cluster.State.{Cluster, JobSlot}
use otos_coreinit.Cluster.JobHandlers.{job_info, change_job, inherit}
use otos_coreinit.Cluster.JobHandlers.Priority.{
  inherit-highest, job_info-change_job, job_info-change_other, job_info-inherit_other,
}
use otos_coreinit.Cluster.Dispatch.{handler}
use otos_coreinit.Scheduler.Memory.Allocator.{Allocator, lock_taken, unlock_held}

-- The refused attempt of a job `self`, with its answer and the cluster `d` after it, and the cluster
-- `u` after the unlock of the holder, whose data was `held`.
pub record Contended {k : Kernel} (c : Cluster k) (x holder : ℕ) (self held : Job)
    (r : Option (List ℕ) × Cluster k) (u : Option (List ℕ) × Cluster k) : Type 0 where
  pub refused : r.0 ≡ some (0 ∷ [])
  pub p : ℕ
  pub inherited : job_info r.1.jobs holder ≡ some (record held { effective_priority = p })
  pub not_below_waiting : lt_int p self.effective_priority ≡ false
  pub not_below_own : lt_int p held.effective_priority ≡ false
  pub one_of : (p ≡ held.effective_priority) ⊎ (p ≡ self.effective_priority)
  pub still_locked :
      get_elem? r.1.mutex_storage x ≡ some (record { locked = true; holder_job_id = holder })
  pub reset :
      job_info u.1.jobs holder ≡ some (record held { effective_priority = held.base_priority })
  pub unlocked :
      get_elem? u.1.mutex_storage x ≡ some (record { locked = false; holder_job_id = holder })
  pub others :
      (g : ℕ)
      → g ≢ holder
      → (job_info r.1.jobs g ≡ job_info c.jobs g) × (job_info u.1.jobs g ≡ job_info c.jobs g)

abbrev reset_priority : Job → Job
reset_priority t = record t { effective_priority = t.base_priority }

module _ {k : Kernel} where
  contended :
      (c : Cluster k) (x waiting holder : ℕ) (self held : Job)
      → get_elem? c.mutex_storage x ≡ some (record { locked = true; holder_job_id = holder })
      → job_info c.jobs waiting ≡ some self
      → job_info c.jobs holder ≡ some held
      → let m : Mutex = record { locked = true; holder_job_id = holder } in
        let d : Cluster k = record c {
          mutex_storage = set c.mutex_storage x m;
          jobs = inherit c.jobs waiting holder;
        } in
        Contended c x holder self held
          (some (0 ∷ []), d)
          (
            none,
            record d {
              mutex_storage =
                  set d.mutex_storage x (record { locked = false; holder_job_id = holder });
              jobs = change_job d.jobs holder reset_priority;
            },
          )
  contended c x waiting holder self held stored at_self at_held =
      let m : Mutex = record { locked = true; holder_job_id = holder } in
      let open_m : Mutex = record { locked = false; holder_job_id = holder } in
      let ss : List JobSlot = inherit c.jobs waiting holder in
      let (p, now, over_waiting, over_own, either) =
        inherit-highest c.jobs waiting holder self held at_self at_held in
      let taken =
        get_elem?-set_self c.mutex_storage x m (lt_of_get_elem? c.mutex_storage x m stored) in
      record {
        refused = refl;
        p = p;
        inherited = now;
        not_below_waiting = over_waiting;
        not_below_own = over_own;
        one_of = either;
        still_locked = taken;
        reset =
            job_info-change_job ss holder reset_priority (record held { effective_priority = p })
              now;
        unlocked =
            get_elem?-set_self (set c.mutex_storage x m) x open_m
              (lt_of_get_elem? (set c.mutex_storage x m) x m taken);
        others = λ g other.
            let kept = job_info-inherit_other c.jobs waiting holder g self at_self other in
            (kept, job_info-change_other ss holder g reset_priority other ∙ kept);
      }

  -- A job asks for the allocator's mutex, which another job holds: MUTEX_TRY_LOCK answers 0, and the
  -- holder then runs at the higher of the two priorities: it is not below the waiting job's, not
  -- below its own before, and equal to one of them. After the holder's MUTEX_UNLOCK the mutex is
  -- free and the holder runs at its base priority again. Nothing else of the holder changes in the
  -- two calls, and every other handle finds the same job data as before after each of them.
  pub lock-unlock-Contended :
      (c : Cluster k) (x h waiting holder : ℕ) (self held : Job)
      → Allocator x h (record { locked = true; holder_job_id = holder }) c
      → job_info c.jobs waiting ≡ some self
      → job_info c.jobs holder ≡ some held
      → Contended c x holder self held
          (handler k c 8 (0 ∷ waiting ∷ []) 24)
          (handler k (handler k c 8 (0 ∷ waiting ∷ []) 24).1 9 (0 ∷ holder ∷ []) 0)
  lock-unlock-Contended c x h waiting holder self held a at_self at_held =
      let m : Mutex = record { locked = true; holder_job_id = holder } in
      let d : Cluster k = record c {
        mutex_storage = set c.mutex_storage x m;
        jobs = inherit c.jobs waiting holder;
      } in
      let a1 : Allocator x h m d = record {
        named = a.named;
        nonzero = a.nonzero;
        resolves = a.resolves;
        stored =
            get_elem?-set_self c.mutex_storage x m (lt_of_get_elem? c.mutex_storage x m a.stored);
      } in
      rw (lock_taken c x h waiting m a refl) (
        rw (unlock_held d x h holder a1)
          (contended c x waiting holder self held a.stored at_self at_held))
