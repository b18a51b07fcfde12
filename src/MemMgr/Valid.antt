-- ===== src/MemMgr/Valid.antt =====
-- The claim ledger of coreinit/mem_mgr.c: its invariant, kept by every operation.
use otos_coreinit.Base.{
  ℕ, ◌+◌, ◌≤◌, ◌<◌, ◌≡◌, refl, ◌⊎◌, inl, inr, true, false, List, [], ◌∷◌, ◌++◌, arith, add64, ltb,
  leb, ◌||◌, ◌&&◌, ◌==◌, All, All-append, length, length-append, u64, Bool-cases,
}
use otos_coreinit.MemMgr.{
  Claim, Window, max_claims, overlaps, new_claim, claim_locked, try_start, try_starts, alloc_locked,
  free_locked, clamp,
}

-- Two used claims share no address.
abbrev pub Apart : Claim → Claim → Type 0
Apart c d = c.used ≡ true → d.used ≡ true → (c.base + c.size ≤ d.base) ⊎ (d.base + d.size ≤ c.base)

abbrev pub InRange : Claim → Type 0
InRange c = c.base + c.size < u64

abbrev pub IsDisjoint : List Claim → Type 0
IsDisjoint [] = Unit
IsDisjoint (c ∷ cs) = All (Apart c) cs × IsDisjoint cs

pub record IsValid (cs : List Claim) : Type 0 where
  pub in_range : All InRange cs
  pub disjoint : IsDisjoint cs
  pub small : length cs ≤ max_claims

overlaps-Apart :
    (cs : List Claim) (base size kind : ℕ)
    → base + size < u64
    → All InRange cs
    → overlaps cs base (add64 base size) ≡ false
    → All (λ c. Apart c (new_claim base size kind)) cs
unfolding overlaps
overlaps-Apart [] base size kind h r e = tt
overlaps-Apart (c ∷ cs) base size kind h r e =
    (λ used _. ground arith, overlaps-Apart cs base size kind h r.1 (ground arith))

IsDisjoint-append :
    (cs : List Claim) (d : Claim)
    → IsDisjoint cs
    → All (λ c. Apart c d) cs
    → IsDisjoint (cs ++ d ∷ [])
IsDisjoint-append [] d h k = (tt, tt)
IsDisjoint-append (c ∷ cs) d h k =
    (All-append (Apart c) cs (d ∷ []) h.0 (k.0, tt), IsDisjoint-append cs d h.1 k.1)

IsValid-append :
    (cs : List Claim) (base size kind : ℕ)
    → IsValid cs
    → base + size < u64
    → overlaps cs base (add64 base size) ≡ false
    → length cs < max_claims
    → IsValid (cs ++ new_claim base size kind ∷ [])
IsValid-append cs base size kind v h e l = record {
  in_range = All-append InRange cs _ v.in_range (h, tt);
  disjoint = IsDisjoint-append cs _ v.disjoint (overlaps-Apart cs base size kind h v.in_range e);
  small = omega (arith, length-append cs (new_claim base size kind ∷ []));
}

pub claim_locked-IsValid :
    (cs : List Claim) (base size kind : ℕ)
    → IsValid cs
    → base + size < u64
    → IsValid (claim_locked cs base size kind).1
unfolding claim_locked
claim_locked-IsValid cs base size kind v h =
    elim (Bool-cases (overlaps cs base (add64 base size))) [
      | inl e ↦ rw e v
      | inr e ↦ rw e (elim (Bool-cases (leb max_claims (length cs))) [
        | inl full ↦ rw full v
        | inr free ↦ rw free (IsValid-append cs base size kind v h e (ground arith))
      ])
    ]

pub free_locked-InRange :
    (cs : List Claim) (base : ℕ) → All InRange cs → All InRange (free_locked cs base).1
unfolding free_locked
free_locked-InRange [] base r = tt
free_locked-InRange (c ∷ cs) base r = ground (arith, free_locked-InRange cs base r.1)

free_locked-Apart :
    (cs : List Claim) (base : ℕ) (d : Claim)
    → All (Apart d) cs
    → All (Apart d) (free_locked cs base).1
unfolding free_locked
free_locked-Apart [] base d a = tt
free_locked-Apart (c ∷ cs) base d a = elim (Bool-cases (c.used && c.base == base)) [
  | inl e ↦ rw e ((λ used freed. cc), a.1)
  | inr e ↦ rw e (a.0, free_locked-Apart cs base d a.1)
]

pub length-free_locked : (cs : List Claim) (base : ℕ) → length (free_locked cs base).1 ≡ length cs
unfolding free_locked
length-free_locked [] base = refl
length-free_locked (c ∷ cs) base = ground (arith, length-free_locked cs base)

Apart-freed : (c : Claim) (cs : List Claim) → All (Apart (record c { used = false })) cs
Apart-freed c [] = tt
Apart-freed c (d ∷ cs) = ((λ freed used. cc), Apart-freed c cs)

free_locked-IsDisjoint :
    (cs : List Claim) (base : ℕ) → IsDisjoint cs → IsDisjoint (free_locked cs base).1
unfolding free_locked
free_locked-IsDisjoint [] base h = tt
free_locked-IsDisjoint (c ∷ cs) base h = elim (Bool-cases (c.used && c.base == base)) [
  | inl e ↦ rw e (Apart-freed c cs, h.1)
  | inr e ↦ rw e (free_locked-Apart cs base c h.0, free_locked-IsDisjoint cs base h.1)
]

pub free_locked-IsValid :
    (cs : List Claim) (base : ℕ) → IsValid cs → IsValid (free_locked cs base).1
free_locked-IsValid cs base v = record {
  in_range = free_locked-InRange cs base v.in_range;
  disjoint = free_locked-IsDisjoint cs base v.disjoint;
  small = omega (arith, length-free_locked cs base);
}

-- What an accepted start is: it does not wrap, and `claim_locked` took it.
try_start-IsValid :
    (w : Window) (cs : List Claim) (size kind start : ℕ)
    → IsValid cs
    → size < u64
    → IsValid (try_start w cs size kind start).1
unfolding try_start
try_start-IsValid w cs size kind start v h =
    elim (Bool-cases (ltb w.alloc_max (add64 start size) || ltb (add64 start size) start)) [
      | inl out ↦ rw out v
      | inr inside ↦ rw inside (elim (Bool-cases (overlaps cs start (add64 start size))) [
        | inl e ↦ rw e v
        | inr e ↦ rw e (claim_locked-IsValid cs start size kind v (ground arith))
      ])
    ]

try_starts-IsValid :
    (w : Window) (cs : List Claim) (size kind : ℕ) (starts : List ℕ)
    → IsValid cs
    → size < u64
    → IsValid (try_starts w cs size kind starts).1
unfolding try_starts
try_starts-IsValid w cs size kind [] v h = v
try_starts-IsValid w cs size kind (c ∷ rest) v h =
    elim (Bool-cases (try_start w cs size kind (clamp w c)).0) [
      | inl e ↦ rw e (try_start-IsValid w cs size kind (clamp w c) v h)
      | inr e ↦ rw e (try_starts-IsValid w cs size kind rest v h)
    ]

pub alloc_locked-IsValid :
    (w : Window) (cs : List Claim) (size kind : ℕ)
    → IsValid cs
    → size < u64
    → IsValid (alloc_locked w cs size kind).1
unfolding alloc_locked
alloc_locked-IsValid w cs size kind v h = try_starts-IsValid w cs size kind _ v h
