-- ===== src/JobExec/Table.antt =====
-- coreinit/job_exec.c: the job table after a write to one slot.
use otos_coreinit.Base.{
  ℕ, zero, suc, ◌+◌, ◌≡◌, ◌≢◌, refl, sym, ap, ◌∙◌, subst, Bool, true, List, [], ◌∷◌, some, arith,
  get_elem?, inl, inr, ◌⊎◌, Bool-cases,
}
use otos_coreinit.JobExec.{running, Slot, update, first_at}

pub get_elem?-update_self :
    (ss : List Slot) (i : ℕ) (f : Slot → Slot) (s : Slot)
    → get_elem? ss i ≡ some s
    → get_elem? (update ss i f) i ≡ some (f s)
get_elem?-update_self [] i f s e = cc
get_elem?-update_self (x ∷ xs) zero f s e = ground (arith, e)
get_elem?-update_self (x ∷ xs) (suc i) f s e = get_elem?-update_self xs i f s e

pub get_elem?-update_ne :
    (ss : List Slot) (i j : ℕ) (f : Slot → Slot)
    → i ≢ j
    → get_elem? (update ss i f) j ≡ get_elem? ss j
get_elem?-update_ne [] i j f d = refl
get_elem?-update_ne (x ∷ xs) zero zero f d = absurd (d refl)
get_elem?-update_ne (x ∷ xs) zero (suc j) f d = refl
get_elem?-update_ne (x ∷ xs) (suc i) zero f d = refl
get_elem?-update_ne (x ∷ xs) (suc i) (suc j) f d = get_elem?-update_ne xs i j f (λ e. d (ap suc e))

-- A slot of the table after a write was written, or stood there before.
pub of_get_elem?-update :
    (ss : List Slot) (i j : ℕ) (f : Slot → Slot) (t : Slot)
    → get_elem? (update ss i f) j ≡ some t
    → ((i ≡ j) × (s : Slot) × (get_elem? ss j ≡ some s) × (f s ≡ t))
      ⊎ ((i ≢ j) × (get_elem? ss j ≡ some t))
of_get_elem?-update [] i j f t e = cc
of_get_elem?-update (x ∷ xs) zero zero f t e = inl (refl, x, refl, ground (arith, e))
of_get_elem?-update (x ∷ xs) zero (suc j) f t e = inr (λ d. omega (arith, d), e)
of_get_elem?-update (x ∷ xs) (suc i) zero f t e = inr (λ d. omega (arith, d), e)
of_get_elem?-update (x ∷ xs) (suc i) (suc j) f t e = elim (of_get_elem?-update xs i j f t e) [
  | inl (same, s, before, is) ↦ inl (ap suc same, s, before, is)
  | inr (other, before) ↦ inr (λ d. other (omega (arith, d)), before)
]

abbrev pub Idle : List Slot → Type 0
Idle ss = (i : ℕ) (s : Slot) → get_elem? ss i ≡ some s → s.state ≢ running

-- A write that leaves the slot not running keeps a table idle.
pub update-Idle :
    (ss : List Slot) (n : ℕ) (f : Slot → Slot)
    → ((s : Slot) → (f s).state ≢ running)
    → Idle ss
    → Idle (update ss n f)
update-Idle ss n f stops idle i t e r = elim (of_get_elem?-update ss n i f t e) [
  | inl (same, s, before, is) ↦ stops s (ap (λ u. u.state) is ∙ r)
  | inr (other, before) ↦ idle i t before r
]

-- Only a slot that a write puts to RUNNING runs in a table that was idle.
pub update-only :
    (ss : List Slot) (n : ℕ) (f : Slot → Slot)
    → Idle ss
    → (i : ℕ) (t : Slot) → get_elem? (update ss n f) i ≡ some t
    → t.state ≡ running
    → i ≡ n
update-only ss n f idle i t e r = elim (of_get_elem?-update ss n i f t e) [
  | inl (same, s, before, is) ↦ sym same
  | inr (other, before) ↦ absurd (idle i t before r)
]

-- A write that keeps the states.
pub keep-only :
    (ss : List Slot) (n cur : ℕ) (f : Slot → Slot)
    → ((s : Slot) → (f s).state ≡ s.state)
    → ((i : ℕ) (t : Slot) → get_elem? ss i ≡ some t → t.state ≡ running → i ≡ cur)
    → (i : ℕ) (t : Slot) → get_elem? (update ss n f) i ≡ some t
    → t.state ≡ running
    → i ≡ cur
keep-only ss n cur f same_state only i t e r = elim (of_get_elem?-update ss n i f t e) [
  | inl (same, s, before, is) ↦ only i s before (sym (same_state s) ∙ (ap (λ u. u.state) is ∙ r))
  | inr (other, before) ↦ only i t before r
]

-- What stands at a place after a write at any place.
pub get_elem?-update_any :
    (ss : List Slot) (m n : ℕ) (f : Slot → Slot) (s : Slot)
    → get_elem? ss n ≡ some s
    → (t : Slot) × (get_elem? (update ss m f) n ≡ some t) × ((t ≡ s) ⊎ (t ≡ f s))
get_elem?-update_any [] m n f s e = cc
get_elem?-update_any (x ∷ xs) zero zero f s e = (f x, refl, inr (ground (arith, e)))
get_elem?-update_any (x ∷ xs) zero (suc n) f s e = (s, e, inl refl)
get_elem?-update_any (x ∷ xs) (suc m) zero f s e = (s, e, inl refl)
get_elem?-update_any (x ∷ xs) (suc m) (suc n) f s e = get_elem?-update_any xs m n f s e

first_at_from {ℓ} :
    {A : Type ℓ} (test : A → Bool) (b : ℕ) (ss : List A) (i : ℕ)
    → first_at test b ss ≡ some i
    → (j : ℕ) × (s : A) × (b + j ≡ i) × (get_elem? ss j ≡ some s) × (test s ≡ true)
first_at_from test b [] i e = cc
first_at_from test b (s ∷ ss) i e = elim (Bool-cases (test s)) [
  | inl passed ↦
      let same : some b ≡ some i = rw (passed, first_at) at e in
      (0, s, ground (arith, same), refl, passed)
  | inr failed ↦
      let (j, t, at, here, passed) = first_at_from test (b + 1) ss i (rw (failed, first_at) at e) in
      (suc j, t, omega (arith, at), here, passed)
]

-- The first that passes a test stands in the list.
pub first_at-get_elem? {ℓ} :
    {A : Type ℓ} (test : A → Bool) (ss : List A) (i : ℕ)
    → first_at test 0 ss ≡ some i
    → (s : A) × (get_elem? ss i ≡ some s) × (test s ≡ true)
first_at-get_elem? test ss i e =
    let (j, s, at, here, passed) = first_at_from test 0 ss i e in
    let same : j ≡ i = omega (arith, at) in
    (s, subst (λ x. get_elem? ss x ≡ some s) same here, passed)
