-- ===== src/Base/Lists.antt =====
-- Arrays as lists with native indices, and predicates on their elements.
use Prim.Native.Nat.{ℕ, zero, suc, ◌+◌, ◌<◌, ◌≤◌}
use mathlib.Core.Path.{◌≡◌, refl, ap, subst}
use mathlib.Core.Logic.{◌≢◌}
use mathlib.Core.List.{List, [], ◌∷◌, ◌++◌}
use mathlib.Core.Option.{Option, none, some}
use native.Mathlib.Omega.{arith}

module _ {ℓ} {A : Type ℓ} where
  abbrev pub length : List A → ℕ
  length [] = 0
  length (x ∷ xs) = suc (length xs)

  abbrev pub get_elem? : List A → ℕ → Option A
  get_elem? [] i = none
  get_elem? (x ∷ xs) zero = some x
  get_elem? (x ∷ xs) (suc i) = get_elem? xs i

  abbrev pub get_or : List A → ℕ → A → A
  get_or [] i d = d
  get_or (x ∷ xs) zero d = x
  get_or (x ∷ xs) (suc i) d = get_or xs i d

  -- A write out of bounds changes nothing.
  abbrev pub set : List A → ℕ → A → List A
  set [] i v = []
  set (x ∷ xs) zero v = v ∷ xs
  set (x ∷ xs) (suc i) v = x ∷ set xs i v

  abbrev pub take : ℕ → List A → List A
  take zero xs = []
  take (suc n) [] = []
  take (suc n) (x ∷ xs) = x ∷ take n xs

  abbrev pub drop : ℕ → List A → List A
  drop zero xs = xs
  drop (suc n) [] = []
  drop (suc n) (x ∷ xs) = drop n xs

  abbrev pub replicate : ℕ → A → List A
  replicate zero a = []
  replicate (suc n) a = a ∷ replicate n a

module _ {ℓ} {A : Type ℓ} where
  pub length-append : (xs ys : List A) → length (xs ++ ys) ≡ length xs + length ys
  length-append [] ys = omega arith
  length-append (x ∷ xs) ys = omega (arith, length-append xs ys)

  pub get_elem?-append :
      (xs : List A) (y : A) (ys : List A) → get_elem? (xs ++ y ∷ ys) (length xs) ≡ some y
  get_elem?-append [] y ys = refl
  get_elem?-append (x ∷ xs) y ys = get_elem?-append xs y ys

  pub length-take_le : (n : ℕ) (xs : List A) → length (take n xs) ≤ n
  length-take_le zero xs = omega arith
  length-take_le (suc n) [] = omega arith
  length-take_le (suc n) (x ∷ xs) = omega (arith, length-take_le n xs)

  pub take-length : (xs : List A) → take (length xs) xs ≡ xs
  take-length [] = refl
  take-length (x ∷ xs) = ap (◌∷◌ x) (take-length xs)

  pub length-set : (xs : List A) (i : ℕ) (v : A) → length (set xs i v) ≡ length xs
  length-set [] i v = refl
  length-set (x ∷ xs) zero v = refl
  length-set (x ∷ xs) (suc i) v = ap suc (length-set xs i v)

  pub get_elem?-set_self :
      (xs : List A) (i : ℕ) (v : A) → i < length xs → get_elem? (set xs i v) i ≡ some v
  get_elem?-set_self [] i v h = elim h [ ]
  get_elem?-set_self (x ∷ xs) zero v h = refl
  get_elem?-set_self (x ∷ xs) (suc i) v h = get_elem?-set_self xs i v (omega arith)

  pub get_elem?-set_ne :
      (xs : List A) (i j : ℕ) (v : A) → i ≢ j → get_elem? (set xs i v) j ≡ get_elem? xs j
  get_elem?-set_ne [] i j v h = refl
  get_elem?-set_ne (x ∷ xs) zero zero v h = absurd (h refl)
  get_elem?-set_ne (x ∷ xs) zero (suc j) v h = refl
  get_elem?-set_ne (x ∷ xs) (suc i) zero v h = refl
  get_elem?-set_ne (x ∷ xs) (suc i) (suc j) v h = get_elem?-set_ne xs i j v (λ e. h (ap suc e))

  pub get_or-set_self :
      (xs : List A) (i : ℕ) (v d : A) → i < length xs → get_or (set xs i v) i d ≡ v
  get_or-set_self [] i v d h = elim h [ ]
  get_or-set_self (x ∷ xs) zero v d h = refl
  get_or-set_self (x ∷ xs) (suc i) v d h = get_or-set_self xs i v d (omega arith)

  pub get_or-set_ne :
      (xs : List A) (i j : ℕ) (v d : A) → i ≢ j → get_or (set xs i v) j d ≡ get_or xs j d
  get_or-set_ne [] i j v d h = refl
  get_or-set_ne (x ∷ xs) zero zero v d h = absurd (h refl)
  get_or-set_ne (x ∷ xs) zero (suc j) v d h = refl
  get_or-set_ne (x ∷ xs) (suc i) zero v d h = refl
  get_or-set_ne (x ∷ xs) (suc i) (suc j) v d h = get_or-set_ne xs i j v d (λ e. h (ap suc e))

  pub lt_of_get_elem? : (xs : List A) (i : ℕ) (a : A) → get_elem? xs i ≡ some a → i < length xs
  lt_of_get_elem? [] i a h = cc
  lt_of_get_elem? (x ∷ xs) zero a h = omega arith
  lt_of_get_elem? (x ∷ xs) (suc i) a h = omega (arith, lt_of_get_elem? xs i a h)

  pub length-replicate : (n : ℕ) (a : A) → length (replicate n a) ≡ n
  length-replicate zero a = refl
  length-replicate (suc n) a = ap suc (length-replicate n a)

-- A predicate of every element, by recursion.
abbrev pub All {ℓ κ} : {A : Type ℓ} → (A → Type κ) → List A → Type κ
All P [] = Unit
All P (x ∷ xs) = P x × All P xs

module _ {ℓ κ} {A : Type ℓ} (P : A → Type κ) where
  pub All-append : (xs ys : List A) → All P xs → All P ys → All P (xs ++ ys)
  All-append [] ys h k = k
  All-append (x ∷ xs) ys h k = (h.0, All-append xs ys h.1 k)

  pub All-get_elem? : (xs : List A) (i : ℕ) (a : A) → All P xs → get_elem? xs i ≡ some a → P a
  All-get_elem? [] i a h e = cc
  All-get_elem? (x ∷ xs) zero a h e = ground (arith, h.0)
  All-get_elem? (x ∷ xs) (suc i) a h e = All-get_elem? xs i a h.1 e

pub All-of {ℓ κ} : {A : Type ℓ} {P : A → Type κ} (xs : List A) → ((a : A) → P a) → All P xs
All-of [] h = tt
All-of (x ∷ xs) h = (h x, All-of xs h)

pub All-imp {ℓ κ κ'} :
    {A : Type ℓ} {P : A → Type κ} {Q : A → Type κ'} (xs : List A)
    → ((a : A) → P a → Q a)
    → All P xs
    → All Q xs
All-imp [] f h = tt
All-imp (x ∷ xs) f h = (f x h.0, All-imp xs f h.1)

pub set_self {ℓ} :
    {A : Type ℓ} (xs : List A) (i : ℕ) (a : A) → get_elem? xs i ≡ some a → set xs i a ≡ xs
set_self [] i a h = refl
set_self (x ∷ xs) zero a h = ground arith
set_self (x ∷ xs) (suc i) a h = ap (◌∷◌ x) (set_self xs i a h)

pub All-set {ℓ κ} :
    {A : Type ℓ} (P : A → Type κ) (xs : List A) (i : ℕ) (a : A)
    → All P xs
    → P a
    → All P (set xs i a)
All-set P [] i a h p = tt
All-set P (x ∷ xs) zero a h p = (p, h.1)
All-set P (x ∷ xs) (suc i) a h p = (h.0, All-set P xs i a h.1 p)

-- What stands at an index after a write there.
pub of_get_elem?-set {ℓ} :
    {A : Type ℓ} (xs : List A) (i : ℕ) (a b : A) → get_elem? (set xs i a) i ≡ some b → b ≡ a
of_get_elem?-set [] i a b h = cc
of_get_elem?-set (x ∷ xs) zero a b h = cc
of_get_elem?-set (x ∷ xs) (suc i) a b h = of_get_elem?-set xs i a b h

-- A predicate of each element and its index, the first index being `i`.
abbrev pub AllAt {ℓ κ} : {A : Type ℓ} → (ℕ → A → Type κ) → ℕ → List A → Type κ
AllAt P i [] = Unit
AllAt P i (x ∷ xs) = P i x × AllAt P (i + 1) xs

module _ {ℓ κ} {A : Type ℓ} (P : ℕ → A → Type κ) where
  moved : (m n : ℕ) (a : A) → m ≡ n → P m a → P n a
  moved m n a e = subst (λ x. P x a) e

  AllAt-get_elem?_from :
      (xs : List A) (b i : ℕ) (a : A) → AllAt P b xs → get_elem? xs i ≡ some a → P (b + i) a
  AllAt-get_elem?_from [] b i a h e = cc
  AllAt-get_elem?_from (x ∷ xs) b zero a h e = moved b (b + 0) a (omega arith) (ground (arith, h.0))
  AllAt-get_elem?_from (x ∷ xs) b (suc i) a h e =
      moved (b + 1 + i) (b + suc i) a (omega arith) (AllAt-get_elem?_from xs (b + 1) i a h.1 e)

  AllAt-set_from :
      (xs : List A) (b i : ℕ) (a : A) → AllAt P b xs → P (b + i) a → AllAt P b (set xs i a)
  AllAt-set_from [] b i a h p = tt
  AllAt-set_from (x ∷ xs) b zero a h p = (moved (b + 0) b a (omega arith) p, h.1)
  AllAt-set_from (x ∷ xs) b (suc i) a h p =
      (h.0, AllAt-set_from xs (b + 1) i a h.1 (moved (b + suc i) (b + 1 + i) a (omega arith) p))

  pub AllAt-get_elem? :
      (xs : List A) (i : ℕ) (a : A) → AllAt P 0 xs → get_elem? xs i ≡ some a → P i a
  AllAt-get_elem? xs i a h e = moved (0 + i) i a (omega arith) (AllAt-get_elem?_from xs 0 i a h e)

  pub AllAt-set : (xs : List A) (i : ℕ) (a : A) → AllAt P 0 xs → P i a → AllAt P 0 (set xs i a)
  AllAt-set xs i a h p = AllAt-set_from xs 0 i a h (moved i (0 + i) a (omega arith) p)

  pub AllAt-of : (b : ℕ) (xs : List A) → ((i : ℕ) (a : A) → P i a) → AllAt P b xs
  AllAt-of b [] h = tt
  AllAt-of b (x ∷ xs) h = (h b x, AllAt-of (b + 1) xs h)

  AllAt-intro_from :
      (b : ℕ) (xs : List A)
      → ((i : ℕ) (a : A) → get_elem? xs i ≡ some a → P (b + i) a)
      → AllAt P b xs
  AllAt-intro_from b [] h = tt
  AllAt-intro_from b (x ∷ xs) h = (
    moved (b + 0) b x (omega arith) (h 0 x refl),
    AllAt-intro_from (b + 1) xs
        (λ i a e. moved (b + suc i) (b + 1 + i) a (omega arith) (h (suc i) a e)),
  )

  pub AllAt-intro :
      (xs : List A) → ((i : ℕ) (a : A) → get_elem? xs i ≡ some a → P i a) → AllAt P 0 xs
  AllAt-intro xs h = AllAt-intro_from 0 xs (λ i a e. moved i (0 + i) a (omega arith) (h i a e))

  pub AllAt-replicate : (b n : ℕ) (a : A) → ((i : ℕ) → P i a) → AllAt P b (replicate n a)
  AllAt-replicate b zero a h = tt
  AllAt-replicate b (suc n) a h = (h b, AllAt-replicate (b + 1) n a h)

pub AllAt-imp {ℓ κ κ'} :
    {A : Type ℓ} {P : ℕ → A → Type κ} {Q : ℕ → A → Type κ'} (b : ℕ) (xs : List A)
    → ((i : ℕ) (a : A) → P i a → Q i a)
    → AllAt P b xs
    → AllAt Q b xs
AllAt-imp b [] f h = tt
AllAt-imp b (x ∷ xs) f h = (f b x h.0, AllAt-imp (b + 1) xs f h.1)
