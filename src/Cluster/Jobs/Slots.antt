-- ===== src/Cluster/Jobs/Slots.antt =====
-- The job slots of coreinit/cluster_scheduler.c when the first free one is written.
use otos_coreinit.Base.{
  ℕ, zero, suc, ◌≡◌, ◌≢◌, refl, ap, inl, inr, true, List, [], ◌∷◌, some, arith, ◌==◌, get_elem?,
  set, get_elem?-set_ne, false, ◌&&◌, All, Option, none, length, ◌<◌, Option-cases, Bool-cases,
  ==_refl, ==_ne,
}
use otos_coreinit.Cluster.JobHandlers.{job_info}
use otos_coreinit.Cluster.Objects.{Job}
use otos_coreinit.Cluster.State.{JobSlot}
use otos_coreinit.Cluster.Jobs.{next, free_slot, find_job}

abbrev pub holding : ℕ → Job → JobSlot
holding h j = record { used = true; handle = h; info = j }

abbrev pub Without : ℕ → List JobSlot → Type 0
Without h ss = All (λ s. s.used ≡ true → s.handle ≢ h) ss

inside : (o : Option ℕ) (i : ℕ) → next o ≡ some (suc i) → o ≡ some i
inside none i e = cc
inside (some n) i e = ground arith

not_first : (o : Option ℕ) → next o ≢ some 0
not_first none e = cc
not_first (some n) e = cc

free_slot_rest :
    (x : JobSlot) (ss : List JobSlot) (i : ℕ)
    → free_slot (x ∷ ss) ≡ some (suc i)
    → (x.used ≡ true) × (free_slot ss ≡ some i)
unfolding free_slot
free_slot_rest x ss i e = elim (Bool-cases (x.used)) [
  | inl used ↦ (used, inside (free_slot ss) i (ground (arith, e, used)))
  | inr free ↦ ground (arith, e, free)
]

pub free_slot_found :
    (ss : List JobSlot) (i h : ℕ) (j : Job)
    → free_slot ss ≡ some i
    → Without h ss
    → find_job (set ss i (holding h j)) h ≡ some i
unfolding free_slot find_job
free_slot_found [] i h j e new = cc
free_slot_found (x ∷ ss) zero h j e new = rw (==_refl h) refl
free_slot_found (x ∷ ss) (suc i) h j e new =
    let (used, rest) = free_slot_rest x ss i e in
    rw used (rw (==_ne x.handle h (new.0 used)) (ap next (free_slot_found ss i h j rest new.1)))

pub free_slot_inside : (ss : List JobSlot) (i : ℕ) → free_slot ss ≡ some i → i < length ss
unfolding free_slot
free_slot_inside [] i e = cc
free_slot_inside (x ∷ ss) zero e = omega arith
free_slot_inside (x ∷ ss) (suc i) e =
    omega (arith, free_slot_inside ss i (free_slot_rest x ss i e).1)

pub job_info_at :
    (ss : List JobSlot) (h i : ℕ) (s : JobSlot)
    → h ≢ 0
    → find_job ss h ≡ some i
    → get_elem? ss i ≡ some s
    → job_info ss h ≡ some (s.info)
job_info_at ss h i s ne found at = rw (==_ne h 0 ne, job_info) (rw (found) (rw at refl))

free_slot_first : (x : JobSlot) (ss : List JobSlot) → free_slot (x ∷ ss) ≡ some 0 → x.used ≡ false
unfolding free_slot
free_slot_first x ss e = elim (Bool-cases (x.used)) [
  | inl used ↦ absurd (not_first (free_slot ss) (ground (arith, e, used)))
  | inr free ↦ free
]

find_job_rest :
    (x : JobSlot) (ss : List JobSlot) (g n : ℕ)
    → find_job (x ∷ ss) g ≡ some (suc n)
    → find_job ss g ≡ some n
unfolding find_job
find_job_rest x ss g n e = elim (Bool-cases (x.used && (x.handle == g))) [
  | inl here ↦ ground (arith, e, here)
  | inr past ↦ inside (find_job ss g) n (ground (arith, e, past))
]

find_job_first :
    (x : JobSlot) (ss : List JobSlot) (g : ℕ) → find_job (x ∷ ss) g ≡ some 0 → x.used ≡ true
unfolding find_job
find_job_first x ss g e = elim (Bool-cases (x.used)) [
  | inl used ↦ used
  | inr free ↦ absurd (not_first (find_job ss g) (ground (arith, e, free)))
]

found_not_free :
    (ss : List JobSlot) (i g n : ℕ) → free_slot ss ≡ some i → find_job ss g ≡ some n → i ≢ n
unfolding free_slot find_job
found_not_free [] i g n e f same = cc
found_not_free (x ∷ ss) zero g zero e f same =
    ground (arith, free_slot_first x ss e, find_job_first x ss g f)
found_not_free (x ∷ ss) zero g (suc n) e f same = ground (arith, same)
found_not_free (x ∷ ss) (suc i) g zero e f same = ground (arith, same)
found_not_free (x ∷ ss) (suc i) g (suc n) e f same =
    found_not_free ss i g n (free_slot_rest x ss i e).1 (find_job_rest x ss g n f) (omega arith)

find_job_other :
    (ss : List JobSlot) (i g : ℕ) (s : JobSlot)
    → free_slot ss ≡ some i
    → (s.used ≡ true → s.handle ≢ g)
    → find_job (set ss i s) g ≡ find_job ss g
unfolding find_job
find_job_other [] i g s e other = refl
find_job_other (x ∷ ss) zero g s e other = rw (free_slot_first x ss e) (elim (Bool-cases (s.used)) [
  | inl used ↦ rw used (rw (==_ne s.handle g (other used)) refl)
  | inr free ↦ rw free refl
])
find_job_other (x ∷ ss) (suc i) g s e other =
    rw (find_job_other ss i g s (free_slot_rest x ss i e).1 other) refl

pub job_info_other :
    (ss : List JobSlot) (i g : ℕ) (s : JobSlot)
    → free_slot ss ≡ some i
    → (s.used ≡ true → s.handle ≢ g)
    → job_info (set ss i s) g ≡ job_info ss g
job_info_other ss i g s e other =
    let same = find_job_other ss i g s e other in
    elim (Bool-cases (g == 0)) [
      | inl z ↦ rw (z, job_info) refl
      | inr z ↦ elim (Option-cases (find_job ss g)) [
        | inl n ↦ rw (z, job_info) (rw same (rw n refl))
        | inr (m, f) ↦
            rw (z, job_info)
              (rw same (rw f (rw (get_elem?-set_ne ss i m s (found_not_free ss i g m e f)) refl)))
      ]
    ]
