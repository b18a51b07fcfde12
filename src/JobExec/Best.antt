-- ===== src/JobExec/Best.antt =====
-- coreinit/job_exec.c: what the loop over the job table keeps.
use otos_coreinit.Base.{
  ℕ, ◌+◌, ◌≡◌, subst, Bool, true, false, List, [], ◌∷◌, Option, none, some, arith, get_elem?, inl,
  inr, Bool-cases, lt_int, if◌then◌else◌, ◌&&◌, AllAt, AllAt-get_elem?, AllAt-intro, ◌≤◌, ◌<◌, ◌⊎◌,
}
use otos_coreinit.JobExec.{Slot, best_of, outranks}

module _ (P : ℕ → Slot → Type 0) (test : Slot → Bool) where
  abbrev Held : Option (ℕ × Slot) → Type 0
  Held none = Unit
  Held (some (n, s)) = P n s × (test s ≡ true)

  offered-Held :
      (i : ℕ) (s : Slot) (best : Option (ℕ × Slot))
      → P i s
      → Held best
      → Held (if test s && outranks s best then some (i, s) else best)
  offered-Held i s best p h = elim (Bool-cases (test s)) [
    | inl passed ↦ elim (Bool-cases (outranks s best)) [
      | inl more ↦ rw (passed) (rw more (p, passed))
      | inr less ↦ rw (passed) (rw less h)
    ]
    | inr failed ↦ rw failed h
  ]

  best_of-Held :
      (i : ℕ) (ss : List Slot) (best : Option (ℕ × Slot))
      → AllAt P i ss
      → Held best
      → Held (best_of test i ss best)
  unfolding best_of
  best_of-Held i [] best all h = h
  best_of-Held i (s ∷ ss) best all h =
      best_of-Held (i + 1) ss (if test s && outranks s best then some (i, s) else best) all.1
        (offered-Held i s best all.0 h)

-- What is kept against the priority `p` of the place `m`: it is higher, or it is not lower and stands
-- no later.
abbrev Tops : ℕ → ℕ → Option (ℕ × Slot) → Type 0
Tops p m none = ⊥
Tops p m (some (n, s)) = (lt_int p s.priority ≡ true) ⊎ ((n ≤ m) × (lt_int s.priority p ≡ false))

-- What is kept stands before the place `i`.
abbrev Before : ℕ → Option (ℕ × Slot) → Type 0
Before i none = Unit
Before i (some (n, s)) = n ≤ i

offered-Tops :
    (test : Slot → Bool) (p m i : ℕ) (s : Slot) (best : Option (ℕ × Slot))
    → Tops p m best
    → Tops p m (if test s && outranks s best then some (i, s) else best)
offered-Tops test p m i s none h = elim h [ ]
offered-Tops test p m i s (some (j, b)) h =
    elim (Bool-cases (test s && lt_int b.priority s.priority)) [
      | inl more ↦ rw more (inl (ground (arith, more, h)))
      | inr less ↦ rw less h
    ]

best_of-Tops :
    (test : Slot → Bool) (p m i : ℕ) (ss : List Slot) (best : Option (ℕ × Slot))
    → Tops p m best
    → Tops p m (best_of test i ss best)
unfolding best_of
best_of-Tops test p m i [] best h = h
best_of-Tops test p m i (s ∷ ss) best h =
    best_of-Tops test p m (i + 1) ss (if test s && outranks s best then some (i, s) else best)
      (offered-Tops test p m i s best h)

taken-Tops :
    (test : Slot → Bool) (i : ℕ) (s : Slot) (best : Option (ℕ × Slot))
    → Before i best
    → test s ≡ true
    → Tops s.priority i (if test s && outranks s best then some (i, s) else best)
taken-Tops test i s none before passed = rw passed (inr (omega arith, ground arith))
taken-Tops test i s (some (j, b)) before passed = elim (Bool-cases (lt_int b.priority s.priority)) [
  | inl more ↦ rw passed (rw more (inr (omega arith, ground arith)))
  | inr less ↦ rw passed (rw less (inr (before, less)))
]

offered-Before :
    (test : Slot → Bool) (i : ℕ) (s : Slot) (best : Option (ℕ × Slot))
    → Before i best
    → Before (i + 1) (if test s && outranks s best then some (i, s) else best)
offered-Before test i s none h = elim (Bool-cases (test s)) [
  | inl more ↦ rw more (omega arith)
  | inr less ↦ rw less tt
]
offered-Before test i s (some (j, b)) h =
    elim (Bool-cases (test s && lt_int b.priority s.priority)) [
      | inl more ↦ rw more (omega arith)
      | inr less ↦ rw less (omega (arith, h))
    ]

best_of-Top :
    (test : Slot → Bool) (i : ℕ) (ss : List Slot) (best : Option (ℕ × Slot))
    → Before i best
    → AllAt (λ m s. test s ≡ true → Tops s.priority m (best_of test i ss best)) i ss
unfolding best_of
best_of-Top test i [] best before = tt
best_of-Top test i (s ∷ ss) best before = (
  λ passed.
      best_of-Tops test s.priority i (i + 1) ss
        (if test s && outranks s best then some (i, s) else best)
        (taken-Tops test i s best before passed),
  best_of-Top test (i + 1) ss (if test s && outranks s best then some (i, s) else best)
      (offered-Before test i s best before),
)

-- A slot that passes the test, against what the loop keeps.
kept-Tops :
    (test : Slot → Bool) (ss : List Slot) (r : Option (ℕ × Slot)) (m : ℕ) (t : Slot)
    → best_of test 0 ss none ≡ r
    → get_elem? ss m ≡ some t
    → test t ≡ true
    → Tops t.priority m r
kept-Tops test ss r m t got e passed = subst (Tops t.priority m) got (
    AllAt-get_elem? (λ m s. test s ≡ true → Tops s.priority m (best_of test 0 ss none)) ss m t
      (best_of-Top test 0 ss none tt) e passed)

-- The slot that the loop keeps: it is in the table and passes the test, none that passes has a higher
-- priority, and those that stand before it have a lower one.
pub record Highest (test : Slot → Bool) (ss : List Slot) (n : ℕ) (s : Slot) : Type 0 where
  pub here : get_elem? ss n ≡ some s
  pub passes : test s ≡ true
  pub top :
      (i : ℕ) (t : Slot)
      → get_elem? ss i ≡ some t
      → test t ≡ true
      → lt_int s.priority t.priority ≡ false
  pub first :
      (i : ℕ) (t : Slot)
      → i < n
      → get_elem? ss i ≡ some t
      → test t ≡ true
      → lt_int t.priority s.priority ≡ true

Tops-top : (p m n : ℕ) (s : Slot) → Tops p m (some (n, s)) → lt_int s.priority p ≡ false
Tops-top p m n s (inl above) = ground (arith, above)
Tops-top p m n s (inr (at, above)) = above

Tops-first : (p m n : ℕ) (s : Slot) → Tops p m (some (n, s)) → m < n → lt_int p s.priority ≡ true
Tops-first p m n s (inl above) before = above
Tops-first p m n s (inr (at, above)) before = absurd (omega (arith, at, before))

pub best_of-Highest :
    (test : Slot → Bool) (ss : List Slot) (n : ℕ) (s : Slot)
    → best_of test 0 ss none ≡ some (n, s)
    → Highest test ss n s
best_of-Highest test ss n s got =
    let held =
      subst (λ r. Held (λ i t. get_elem? ss i ≡ some t) test r) got
        (best_of-Held (λ i t. get_elem? ss i ≡ some t) test 0 ss none
          (AllAt-intro (λ i t. get_elem? ss i ≡ some t) ss (λ i t e. e)) tt) in
    record {
      here = held.0;
      passes = held.1;
      top = λ i t e passed.
          Tops-top t.priority i n s (kept-Tops test ss (some (n, s)) i t got e passed);
      first = λ i t before e passed.
          Tops-first t.priority i n s (kept-Tops test ss (some (n, s)) i t got e passed) before;
    }

-- Without one no slot passes the test.
pub best_of-none :
    (test : Slot → Bool) (ss : List Slot)
    → best_of test 0 ss none ≡ none
    → (i : ℕ) (t : Slot) → get_elem? ss i ≡ some t
    → test t ≡ false
best_of-none test ss got i t e = elim (Bool-cases (test t)) [
  | inl passed ↦ absurd (kept-Tops test ss none i t got e passed)
  | inr failed ↦ failed
]
