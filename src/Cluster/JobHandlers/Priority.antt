-- ===== src/Cluster/JobHandlers/Priority.antt =====
-- Priority inheritance in coreinit/cluster_scheduler.c.
use otos_coreinit.Base.{
  ℕ, zero, suc, ◌≡◌, ◌⊎◌, refl, ◌∙◌, inl, inr, false, List, [], ◌∷◌, some, arith, if◌then◌else◌,
  lt_int, get_elem?, set, get_elem?-set_self, lt_of_get_elem?, Option-cases, ◌≢◌, sym, ap,
  Bool-cases, true, ◌==◌, ◌&&◌, get_elem?-set_ne,
}
use otos_coreinit.Cluster.Objects.{Job}
use otos_coreinit.Cluster.State.{JobSlot}
use otos_coreinit.Cluster.Jobs.{next, find_job, job_for_handle, update_job}
use otos_coreinit.Cluster.JobHandlers.{job_info, change_job, inherit}

find_job-set :
    (ss : List JobSlot) (h i : ℕ) (s : JobSlot) (j : Job)
    → get_elem? ss i ≡ some s
    → find_job (set ss i (record s { info = j })) h ≡ find_job ss h
unfolding find_job
find_job-set [] h i s j at = refl
find_job-set (x ∷ ss) h zero s j at = ground arith
find_job-set (x ∷ ss) h (suc i) s j at = ground (arith, find_job-set ss h i s j at)

-- Reading a job's data after it was changed.
pub job_info-change_job :
    (ss : List JobSlot) (h : ℕ) (f : Job → Job) (j : Job)
    → job_info ss h ≡ some j
    → job_info (change_job ss h f) h ≡ some (f j)
unfolding change_job update_job
job_info-change_job ss h f j e = elim (Option-cases (job_for_handle ss h)) [
  | inl n ↦ cc
  | inr (i, at) ↦ elim (Option-cases (get_elem? ss i)) [
    | inl n ↦ cc
    | inr (s, here) ↦ ground (
      arith,
      find_job-set ss h i s (f s.info) here,
      get_elem?-set_self ss i (record s { info = f s.info }) (lt_of_get_elem? ss i s here),
    )
  ]
]

-- The holder's priority after the inheritance: its own, or the waiting job's if that is higher.
abbrev raised : Job → Job → Job
raised self held =
    if lt_int held.effective_priority self.effective_priority
    then record held { effective_priority = self.effective_priority }
    else held

inherit-raised :
    (ss : List JobSlot) (waiting holder : ℕ) (self held : Job)
    → job_info ss waiting ≡ some self
    → job_info ss holder ≡ some held
    → job_info (inherit ss waiting holder) holder ≡ some (raised self held)
unfolding inherit
inherit-raised ss waiting holder self held at_self at_held =
    rw (at_self, inherit) (job_info-change_job ss holder _ held at_held)

pub inherit-highest :
    (ss : List JobSlot) (waiting holder : ℕ) (self held : Job)
    → job_info ss waiting ≡ some self
    → job_info ss holder ≡ some held
    → (p : ℕ) × (job_info (inherit ss waiting holder) holder
        ≡ some (record held { effective_priority = p }))
      × (lt_int p self.effective_priority ≡ false)
      × (lt_int p held.effective_priority ≡ false)
      × ((p ≡ held.effective_priority) ⊎ (p ≡ self.effective_priority))
inherit-highest ss waiting holder self held at_self at_held =
    let now = inherit-raised ss waiting holder self held at_self at_held in
    let p = (raised self held).effective_priority in
    (p, now ∙ ground arith, ground arith, ground arith, ground arith)

found_first :
    (x : JobSlot) (ss : List JobSlot) (h i : ℕ) (s : JobSlot)
    → (x.used && (x.handle == h)) ≡ true
    → find_job (x ∷ ss) h ≡ some i
    → get_elem? (x ∷ ss) i ≡ some s
    → s.handle ≡ h
unfolding find_job
found_first x ss h i s here found at =
    let first : some 0 ≡ some i = rw (here, find_job) at found in
    let index : 0 ≡ i = ground (arith, first) in
    let slot : some x ≡ some s = ap (get_elem? (x ∷ ss)) index ∙ at in
    let same : x ≡ s = ground (arith, slot) in sym (ap (λ y. y.handle) same) ∙ ground (arith, here)

found_later :
    (x : JobSlot) (ss : List JobSlot) (h i : ℕ) (s : JobSlot)
    → (x.used && (x.handle == h)) ≡ false
    → find_job (x ∷ ss) h ≡ some i
    → get_elem? (x ∷ ss) i ≡ some s
    → ((n : ℕ) (t : JobSlot) → find_job ss h ≡ some n → get_elem? ss n ≡ some t → t.handle ≡ h)
    → s.handle ≡ h
unfolding find_job
found_later x ss h i s past found at rest = elim (Option-cases (find_job ss h)) [
  | inl n ↦ ground (arith, past, found, n)
  | inr (m, f) ↦
      let later : some (suc m) ≡ some i = ap next (sym f) ∙ rw (past, find_job) at found in
      let index : suc m ≡ i = ground (arith, later) in
      rest m s f (ap (get_elem? (x ∷ ss)) index ∙ at)
]

found_handle :
    (ss : List JobSlot) (h i : ℕ) (s : JobSlot)
    → find_job ss h ≡ some i
    → get_elem? ss i ≡ some s
    → s.handle ≡ h
unfolding find_job
found_handle [] h i s found at = cc
found_handle (x ∷ ss) h i s found at = elim (Bool-cases (x.used && (x.handle == h))) [
  | inl here ↦ found_first x ss h i s here found at
  | inr past ↦ found_later x ss h i s past found at (found_handle ss h)
]

found_of : (ss : List JobSlot) (h i : ℕ) → job_for_handle ss h ≡ some i → find_job ss h ≡ some i
found_of ss h i at = elim (Bool-cases (h == 0)) [
  | inl z ↦ ground (arith, at, z)
  | inr z ↦ ground (arith, at, z)
]

job_info-set_other :
    (ss : List JobSlot) (h g i : ℕ) (s : JobSlot) (j : Job)
    → g ≢ h
    → job_for_handle ss h ≡ some i
    → get_elem? ss i ≡ some s
    → job_info (set ss i (record s { info = j })) g ≡ job_info ss g
job_info-set_other ss h g i s j other at here =
    let same = find_job-set ss g i s j here in
    elim (Bool-cases (g == 0)) [
      | inl z ↦ rw (z, job_info) refl
      | inr z ↦ elim (Option-cases (find_job ss g)) [
        | inl n ↦ rw (z, job_info) (rw same (rw n refl))
        | inr (m, f) ↦
            let apart : i ≢ m = λ d. other (
              sym (found_handle ss g m s f (ap (get_elem? ss) (sym d) ∙ here))
              ∙ found_handle ss h i s (found_of ss h i at) here) in
            rw (z, job_info)
              (rw same (rw f (rw (get_elem?-set_ne ss i m (record s { info = j }) apart) refl)))
      ]
    ]

-- A change of one job's data leaves the data behind any other handle.
pub job_info-change_other :
    (ss : List JobSlot) (h g : ℕ) (f : Job → Job)
    → g ≢ h
    → job_info (change_job ss h f) g ≡ job_info ss g
unfolding change_job update_job
job_info-change_other ss h g f other = elim (Option-cases (job_for_handle ss h)) [
  | inl n ↦ rw (n, change_job) refl
  | inr (i, at) ↦ elim (Option-cases (get_elem? ss i)) [
    | inl n ↦ rw (at, change_job) (rw (n, update_job) refl)
    | inr (s, here) ↦
        rw (at, change_job)
          (rw (here, update_job) (job_info-set_other ss h g i s (f s.info) other at here))
  ]
]

pub job_info-inherit_other :
    (ss : List JobSlot) (waiting holder g : ℕ) (self : Job)
    → job_info ss waiting ≡ some self
    → g ≢ holder
    → job_info (inherit ss waiting holder) g ≡ job_info ss g
unfolding inherit
job_info-inherit_other ss waiting holder g self at_self other =
    rw (at_self, inherit) (job_info-change_other ss holder g _ other)
