-- ===== src/Cluster/Keeps.antt =====
-- What every method of coreinit/cluster_scheduler.c keeps of one job, by the changes that a method
-- can make to a job's data.
pub mod Calls
pub mod Picks
pub mod Methods
pub mod JobMethods
use otos_coreinit.Base.{
  ℕ, zero, suc, ◌+◌, ◌≡◌, ◌≢◌, refl, sym, ◌∙◌, inl, inr, Bool, true, false, List, [], ◌∷◌, Option,
  none, some, arith, ◌==◌, not, ◌&&◌, if◌then◌else◌, get_elem?, set, AllAt, AllAt-set,
  AllAt-get_elem?, Bool-cases, Option-cases,
}
use otos_coreinit.Kernel.{Kernel, Object}
use otos_coreinit.Cluster.Objects.{Job, node_affinity_any}
use otos_coreinit.Cluster.State.{Cluster, JobSlot, destroy}
use otos_coreinit.Cluster.Jobs.{
  find_job, job_for_handle, update_job, clear_slot, free_slot, create_job_object,
  destroy_job_object,
}
use otos_coreinit.Cluster.Pick.{unblock}
use otos_coreinit.Cluster.Quiet.{Quiet}
use otos_coreinit.Cluster.JobHandlers.{change_job, job_info, inherit}

-- What a call of the kernel's factory keeps of the kernel.
pub record Guard (k : Kernel) : Type 1 where
  pub Keeps : k.State → Type 0
  pub create_keeps : (s : k.State) (o : Object) → Keeps s → Keeps (k.create s o).1
  pub destroy_keeps : (s : k.State) (d : ℕ) → Keeps s → Keeps (k.destroy s d)

-- A job that is created gets another handle than `h`.
abbrev pub Avoids : {k : Kernel} → Guard k → ℕ → Type 0
Avoids {k} laws h =
    (s : k.State) (o : Object) → laws.Keeps s → (k.create s o).0 ≢ 0 → (k.create s o).0 ≢ h

-- The slot `i` holds the job `h` only with data that fits `Q`.
abbrev pub On : (ℕ → Job → Type 0) → ℕ → ℕ → JobSlot → Type 0
On Q h i s = s.used ≡ true → s.handle ≡ h → Q i s.info

pub record Has {k : Kernel} (laws : Guard k) (Q : ℕ → Job → Type 0) (h : ℕ) (c : Cluster k)
    : Type 0 where
  pub issued : laws.Keeps c.kernel
  pub on : AllAt (On Q h) 0 c.jobs

-- `Q` outlasts what the methods other than a report do to a job in its slot.
pub record Closed (Q : ℕ → Job → Type 0) : Type 0 where
  pub unblocked : (i : ℕ) (j : Job) → Q i j → Q i (record j { blocked = 0; block_kind = 0 })
  pub claimed :
      (i : ℕ) (j : Job) (n : ℕ) → Q i j → Q i (record j { dispatched = true; assigned_node = n })
  pub bound :
      (i : ℕ) (j : Job) (r : ℕ)
      → j.bound_resource_id ≡ 0
      → Q i j
      → Q i (record j { bound_resource_id = r })
  pub put_back : (i : ℕ) (j : Job) → Q i j → Q i (record j { assigned_node = node_affinity_any })
  pub reprioritised : (i : ℕ) (j : Job) (p : ℕ) → Q i j → Q i (record j { effective_priority = p })

pub find_job-slot :
    (ss : List JobSlot) (h i : ℕ) (s : JobSlot)
    → find_job ss h ≡ some i
    → get_elem? ss i ≡ some s
    → s.handle ≡ h
unfolding find_job
find_job-slot [] h i s f g = cc
find_job-slot (x ∷ ss) h zero s f g = ground arith
find_job-slot (x ∷ ss) h (suc i) s f g = ground (arith, find_job-slot ss h i s)

module _ (Q : ℕ → Job → Type 0) (h : ℕ) where
  pub update_job-On :
      (ss : List JobSlot) (i : ℕ) (f : Job → Job)
      → AllAt (On Q h) 0 ss
      → ((s : JobSlot) → get_elem? ss i ≡ some s → s.handle ≡ h → Q i s.info → Q i (f s.info))
      → AllAt (On Q h) 0 (update_job ss i f)
  unfolding update_job
  update_job-On ss i f on keep = elim (Option-cases (get_elem? ss i)) [
    | inl n ↦ rw (n, update_job) on
    | inr (s, g) ↦
        rw (g, update_job)
          (AllAt-set (On Q h) ss i _ on
            (λ used at. keep s g at (AllAt-get_elem? (On Q h) ss i s on g used at)))
  ]

  pub change_job-On :
      (ss : List JobSlot) (handle : ℕ) (f : Job → Job)
      → AllAt (On Q h) 0 ss
      → (handle ≡ h → (i : ℕ) (j : Job) → Q i j → Q i (f j))
      → AllAt (On Q h) 0 (change_job ss handle f)
  unfolding change_job
  change_job-On ss handle f on keep = elim (Bool-cases (handle == 0)) [
    | inl z ↦ rw (z, change_job) on
    | inr z ↦
        rw (z, change_job)
          (elim (Option-cases (find_job ss handle)) [
            | inl n ↦ rw (n, change_job) on
            | inr (i, e) ↦
                rw (e, change_job)
                  (update_job-On ss i f on
                    (λ s g at. keep (sym (find_job-slot ss handle i s e g) ∙ at) i s.info))
          ])
  ]

  pub clear_slot-On :
      (ss : List JobSlot) (i handle : ℕ)
      → AllAt (On Q h) i ss
      → AllAt (On Q h) i (clear_slot ss handle)
  unfolding clear_slot
  clear_slot-On [] i handle on = tt
  clear_slot-On (s ∷ ss) i handle on = elim (Bool-cases (s.used && s.handle == handle)) [
    | inl e ↦ rw e ((λ used at. cc), on.1)
    | inr e ↦ rw e (on.0, clear_slot-On ss (i + 1) handle on.1)
  ]

  pub unblock-On :
      Closed Q → (all : List JobSlot) (i : ℕ) (s : JobSlot) → On Q h i s → On Q h i (unblock all s)
  unfolding unblock
  unblock-On cl all i s on =
      ground (arith, λ (u : s.used ≡ true) (e : s.handle ≡ h). cl.unblocked i s.info (on u e))
