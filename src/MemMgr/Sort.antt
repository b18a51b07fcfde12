-- ===== src/MemMgr/Sort.antt =====
-- The selection sort in coreinit/mem_mgr.c's `alloc_locked`.
use otos_coreinit.Base.{
  ℕ, zero, suc, false, ◌≤◌, ◌≡◌, refl, inl, inr, List, [], ◌∷◌, arith, ltb, ◌==◌, All, length,
  Bool-cases, ==→eq, if◌then◌else◌,
}
use otos_coreinit.MemMgr.{sort, min_of, put_first, swap_in}

-- The sort keeps every property of all elements, in both directions.
module _ {ℓ} (P : ℕ → Type ℓ) where
  min_of-All : (m : ℕ) (ys : List ℕ) → P m → All P ys → P (min_of m ys)
  unfolding min_of
  min_of-All m [] h k = h
  min_of-All m (y ∷ ys) h k = elim (Bool-cases (ltb y m)) [
    | inl e ↦ rw e (min_of-All y ys k.0 k.1)
    | inr e ↦ rw e (min_of-All m ys h k.1)
  ]

  put_first-All : (m x : ℕ) (ys : List ℕ) → P x → All P ys → All P (put_first m x ys)
  unfolding put_first
  put_first-All m x [] h k = tt
  put_first-All m x (y ∷ ys) h k = elim (Bool-cases (y == m)) [
    | inl e ↦ rw e (h, k.1)
    | inr e ↦ rw e (k.0, put_first-All m x ys h k.1)
  ]

  swap_in-All : (m x : ℕ) (ys : List ℕ) → P x → All P ys → All P (swap_in m x ys)
  unfolding swap_in
  swap_in-All m x ys h k = elim (Bool-cases (m == x)) [
    | inl e ↦ rw e k
    | inr e ↦ rw e (put_first-All m x ys h k)
  ]

  pub sort-All : (n : ℕ) (xs : List ℕ) → All P xs → All P (sort n xs)
  unfolding sort
  sort-All zero xs k = k
  sort-All (suc n) [] k = tt
  sort-All (suc n) (x ∷ xs) k =
      (min_of-All x xs k.0 k.1, sort-All n _ (swap_in-All (min_of x xs) x xs k.0 k.1))

  put_first-All-inv : (m x : ℕ) (ys : List ℕ) → P m → All P (put_first m x ys) → All P ys
  unfolding put_first
  put_first-All-inv m x [] h = λ k. tt
  put_first-All-inv m x (y ∷ ys) h = elim (Bool-cases (y == m)) [
    | inl e ↦ rw e (λ k. (rw (==→eq y m e) h, k.1))
    | inr e ↦ rw e (λ k. (k.0, put_first-All-inv m x ys h k.1))
  ]

  -- A minimum that is not the start value `s` stands in the list, so `x` takes its place.
  put_first-new :
      (s x : ℕ) (ys : List ℕ) (m : ℕ)
      → min_of s ys ≡ m
      → (m == s) ≡ false
      → All P (put_first m x ys)
      → P x
  unfolding min_of put_first
  put_first-new s x [] m e ne = absurd (ground arith)
  put_first-new s x (y ∷ ys) m e ne = elim (Bool-cases (y == m)) [
    | inl here ↦ rw here (λ k. k.0)
    | inr later ↦
        rw later (λ k. put_first-new (if ltb y s then y else s) x ys m e (ground arith) k.1)
  ]

  swap_in-All-inv :
      (x : ℕ) (xs : List ℕ) → P (min_of x xs) → All P (swap_in (min_of x xs) x xs) → P x × All P xs
  unfolding swap_in
  swap_in-All-inv x xs h = elim (Bool-cases (min_of x xs == x)) [
    | inl e ↦ rw (e, swap_in) (λ k. (rw (← ==→eq _ x e) h, k))
    | inr e ↦
        rw (e, swap_in)
          (λ k.
            (put_first-new x x xs (min_of x xs) refl e k, put_first-All-inv (min_of x xs) x xs h k))
  ]

length-put_first : (m x : ℕ) (ys : List ℕ) → length (put_first m x ys) ≡ length ys
unfolding put_first
length-put_first m x [] = refl
length-put_first m x (y ∷ ys) = ground (arith, length-put_first m x ys)

length-swap_in : (m x : ℕ) (ys : List ℕ) → length (swap_in m x ys) ≡ length ys
unfolding swap_in
length-swap_in m x ys = ground (arith, length-put_first m x ys)

module _ {ℓ} (P : ℕ → Type ℓ) where
  pub sort-All-inv : (n : ℕ) (xs : List ℕ) → length xs ≡ n → All P (sort n xs) → All P xs
  unfolding sort
  sort-All-inv zero [] e k = tt
  sort-All-inv zero (x ∷ xs) e k = absurd (omega arith)
  sort-All-inv (suc n) [] e k = tt
  sort-All-inv (suc n) (x ∷ xs) e (h, k) = swap_in-All-inv P x xs h (
      sort-All-inv n (swap_in (min_of x xs) x xs) (omega (arith, length-swap_in (min_of x xs) x xs))
        k)

min_of-le : (m : ℕ) (ys : List ℕ) → min_of m ys ≤ m
unfolding min_of
min_of-le m [] = omega arith
min_of-le m (y ∷ ys) = ground (arith, min_of-le (if ltb y m then y else m) ys)

min_of-All-le : (m : ℕ) (ys : List ℕ) → All (λ y. min_of m ys ≤ y) ys
unfolding min_of
min_of-All-le m [] = tt
min_of-All-le m (y ∷ ys) =
    let m' : ℕ = if ltb y m then y else m in (ground (arith, min_of-le m' ys), min_of-All-le m' ys)

abbrev pub IsSorted : List ℕ → Type 0
IsSorted [] = Unit
IsSorted (x ∷ xs) = All (λ y. x ≤ y) xs × IsSorted xs

-- The rounds leave a sorted list.
pub sort-IsSorted : (n : ℕ) (xs : List ℕ) → length xs ≡ n → IsSorted (sort n xs)
unfolding sort
sort-IsSorted zero [] e = tt
sort-IsSorted zero (x ∷ xs) e = absurd (omega arith)
sort-IsSorted (suc n) [] e = tt
sort-IsSorted (suc n) (x ∷ xs) e =
    let m : ℕ = min_of x xs in
    (
      sort-All (λ y. m ≤ y) n (swap_in m x xs)
          (swap_in-All (λ y. m ≤ y) m x xs (min_of-le x xs) (min_of-All-le x xs)),
      sort-IsSorted n (swap_in m x xs) (omega (arith, length-swap_in m x xs)),
    )
