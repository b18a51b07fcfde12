-- ===== src/MemMgr/Slide.antt =====
-- Placements beside the claims of coreinit/mem_mgr.c: any of them slides down to a candidate start
-- of `alloc_locked`.
use otos_coreinit.Base.{
  ℕ, ◌+◌, ◌≤◌, ◌≡◌, refl, ◌⊎◌, inl, inr, true, false, List, [], ◌∷◌, arith, ltb, leb, ◌&&◌,
  if◌then◌else◌, All, Bool-cases,
}
use otos_coreinit.MemMgr.{Claim, Window, claim_end, overlaps, claim_ends}
use otos_coreinit.MemMgr.Valid.{InRange}

-- `[start, start + size)` shares no address with a used claim.
abbrev pub Misses : ℕ → ℕ → Claim → Type 0
Misses start size c = c.used ≡ true → (c.base + c.size ≤ start) ⊎ (start + size ≤ c.base)

-- A placement of `size` bytes that the window and the table allow.
pub record Fits (w : Window) (cs : List Claim) (size start : ℕ) : Type 0 where
  pub above : w.alloc_min ≤ start
  pub below : start + size ≤ w.alloc_max
  pub free : All (Misses start size) cs

pub overlaps-Misses :
    (cs : List Claim) (start size : ℕ)
    → All InRange cs
    → overlaps cs start (start + size) ≡ false
    → All (Misses start size) cs
unfolding overlaps
overlaps-Misses [] start size r e = tt
overlaps-Misses (c ∷ cs) start size r e =
    (λ used. ground arith, overlaps-Misses cs start size r.1 (ground arith))

pub Misses-overlaps :
    (cs : List Claim) (start size : ℕ)
    → All InRange cs
    → All (Misses start size) cs
    → overlaps cs start (start + size) ≡ false
unfolding overlaps
Misses-overlaps [] start size r m = refl
Misses-overlaps (c ∷ cs) start size r m = ground (arith, m.0, Misses-overlaps cs start size r.1 m.1)

abbrev pub raise : ℕ → Claim → ℕ → ℕ
raise m c s = if c.used && (leb (claim_end c) s && ltb m (claim_end c)) then claim_end c else m

-- The largest end of a used claim up to `s`, if it is above `m`.
pub highest : ℕ → List Claim → ℕ → ℕ
highest m [] s = m
highest m (c ∷ cs) s = highest (raise m c s) cs s

pub highest-ge : (m : ℕ) (cs : List Claim) (s : ℕ) → m ≤ highest m cs s
unfolding highest
highest-ge m [] s = omega arith
highest-ge m (c ∷ cs) s = ground (arith, highest-ge (raise m c s) cs s)

pub highest-le : (m : ℕ) (cs : List Claim) (s : ℕ) → m ≤ s → highest m cs s ≤ s
unfolding highest
highest-le m [] s h = h
highest-le m (c ∷ cs) s h = highest-le (raise m c s) cs s (ground arith)

highest-All :
    (m : ℕ) (cs : List Claim) (s : ℕ)
    → All (λ c. c.used ≡ true → claim_end c ≤ s → claim_end c ≤ highest m cs s) cs
unfolding highest
highest-All m [] s = tt
highest-All m (c ∷ cs) s =
    let m' : ℕ = raise m c s in
    ((λ used le. ground (arith, highest-ge m' cs s)), highest-All m' cs s)

pub highest-P {ℓ} :
    (P : ℕ → Type ℓ) (m : ℕ) (cs : List Claim) (s : ℕ)
    → P m
    → All P (claim_ends cs)
    → P (highest m cs s)
unfolding highest claim_ends
highest-P P m [] s h = λ k. h
highest-P P m (c ∷ cs) s h = elim (Bool-cases c.used) [
  | inl used ↦ rw used (λ k. elim (Bool-cases (leb (claim_end c) s && ltb m (claim_end c))) [
    | inl e ↦ rw e (highest-P P (claim_end c) cs s k.0 k.1)
    | inr e ↦ rw e (highest-P P m cs s h k.1)
  ])
  | inr free ↦ rw free (λ k. highest-P P m cs s h k)
]

-- A placement at `s` gives one at a candidate start that is no higher.
pub slide_down :
    {w : Window} {cs : List Claim} {size s : ℕ}
    → All InRange cs
    → Fits w cs size s
    → Fits w cs size (highest w.alloc_min cs s)
slide_down {w} {cs} {size} {s} r f = record {
  above = highest-ge w.alloc_min cs s;
  below = ground (arith, f.below, highest-le w.alloc_min cs s f.above);
  free = slide cs r f.free (highest-All w.alloc_min cs s) (highest-le w.alloc_min cs s f.above);
}
  where
    slide :
        (ds : List Claim)
        → All InRange ds
        → All (Misses s size) ds
        → {h : ℕ} → All (λ c. c.used ≡ true → claim_end c ≤ s → claim_end c ≤ h) ds
        → h ≤ s
        → All (Misses h size) ds
    slide [] r m k le = tt
    slide (d ∷ ds) r m k le =
        ((λ used. ground (arith, m.0 used, k.0 used)), slide ds r.1 m.1 k.1 le)
