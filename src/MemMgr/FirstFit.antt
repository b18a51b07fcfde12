-- ===== src/MemMgr/FirstFit.antt =====
-- What the search of coreinit/mem_mgr.c's `alloc_locked` finds: the lowest placement in the window.
use otos_coreinit.Base.{
  ℕ, ◌+◌, ◌≤◌, ◌<◌, ◌≡◌, refl, inl, inr, Bool, true, false, List, [], ◌∷◌, ◌++◌, arith, add64, ltb,
  leb, ◌||◌, All, All-imp, length, u64, sym, ◌∙◌, false≢true, Bool-cases,
}
use native.Mathlib.Nat.{le_trans}
use otos_coreinit.MemMgr.{
  Claim, Window, max_claims, overlaps, new_claim, claim_locked, try_start, try_starts, alloc_locked,
  clamp, candidates, sort,
}
use otos_coreinit.MemMgr.Valid.{IsValid, InRange}
use otos_coreinit.MemMgr.Slide.{
  Fits, overlaps-Misses, Misses-overlaps, highest, highest-ge, highest-le, highest-P, slide_down,
}
use otos_coreinit.MemMgr.Sort.{IsSorted, sort-IsSorted, sort-All-inv}

-- The window's addresses are uint64_t constants in order.
pub record IsWindow (w : Window) : Type 0 where
  pub ordered : w.alloc_min ≤ w.alloc_max
  pub word_sized : w.alloc_max < u64

module _ (w : Window) (cs : List Claim) (size kind : ℕ) where
  -- What an accepted start is.
  pub record Taken (start : ℕ) (cs' : List Claim) : Type 0 where
    pub fits : Fits w cs size start
    pub table : cs' ≡ cs ++ new_claim start size kind ∷ []

  abbrev pub Later : ℕ → ℕ → Type 0
  Later a c = Fits w cs size (clamp w c) → a ≤ clamp w c

  -- What a search over `starts` has found.
  pub record Found (starts : List ℕ) (out : (Bool × ℕ) × List Claim) : Type 0 where
    pub taken : out.0.0 ≡ true → Taken out.0.1 out.1
    pub lowest : out.0.0 ≡ true → All (Later out.0.1) starts
    pub missed : out.0.0 ≡ false → All (λ c. ¬ Fits w cs size (clamp w c)) starts
    pub kept : out.0.0 ≡ false → out.1 ≡ cs

  -- What the whole call has found: the lowest placement, or nothing where nothing fits.
  pub record Allocated (out : (Bool × ℕ) × List Claim) : Type 0 where
    pub taken : out.0.0 ≡ true → Taken out.0.1 out.1
    pub lowest : out.0.0 ≡ true → (s : ℕ) → Fits w cs size s → out.0.1 ≤ s
    pub missed : out.0.0 ≡ false → (s : ℕ) → ¬ Fits w cs size s
    pub kept : out.0.0 ≡ false → out.1 ≡ cs

  module _ (iw : IsWindow w) (r : All InRange cs) (word_sized : size < u64) where
    in_window :
        (start : ℕ)
        → (ltb w.alloc_max (add64 start size) || ltb (add64 start size) start) ≡ false
        → (start + size ≤ w.alloc_max) × (add64 start size ≡ start + size)
    in_window start e = let b : w.alloc_max < u64 = iw.word_sized in ground arith

    try_start-Taken :
        (start : ℕ)
        → w.alloc_min ≤ start
        → (try_start w cs size kind start).0 ≡ true
        → Taken start (try_start w cs size kind start).1
    unfolding try_start claim_locked
    try_start-Taken start above =
        elim (Bool-cases (ltb w.alloc_max (add64 start size) || ltb (add64 start size) start)) [
          | inl out ↦ rw out (λ h. cc)
          | inr inside ↦ rw inside (elim (Bool-cases (overlaps cs start (add64 start size))) [
            | inl o ↦ rw o (λ h. cc)
            | inr o ↦ rw o (elim (Bool-cases (leb max_claims (length cs))) [
              | inl full ↦ rw full (λ h. cc)
              | inr room ↦ rw room (λ h. record {
                fits = record {
                  above = above;
                  below = (in_window start inside).0;
                  free = overlaps-Misses cs start size r (rw (in_window start inside).1 at o);
                };
                table = refl;
              })
            ])
          ])
        ]

    -- With room in the table a start that fits is taken.
    try_start-Fits :
        (start : ℕ)
        → length cs < max_claims
        → Fits w cs size start
        → (try_start w cs size kind start).0 ≡ true
    unfolding try_start claim_locked
    try_start-Fits start room f =
        let b : w.alloc_max < u64 = iw.word_sized in
        let e : add64 start size ≡ start + size = ground (arith, f.below) in
        let o : overlaps cs start (add64 start size) ≡ false =
          rw e (Misses-overlaps cs start size r f.free) in
        ground (arith, f.below)

    clamp_mono : (a b : ℕ) → a ≤ b → clamp w a ≤ clamp w b
    clamp_mono a b h = ground arith

    -- The search over sorted starts finds the lowest that fits.
    try_starts-Found :
        (starts : List ℕ)
        → length cs < max_claims
        → IsSorted starts
        → Found starts (try_starts w cs size kind starts)
    unfolding try_starts
    try_starts-Found [] room s = record {
      taken = λ h. cc;
      lowest = λ h. tt;
      missed = λ h. tt;
      kept = λ h. refl;
    }
    try_starts-Found (c ∷ rest) room s =
        elim (Bool-cases (try_start w cs size kind (clamp w c)).0) [
          | inl e ↦ rw e (record {
            taken = λ h. try_start-Taken (clamp w c) (ground arith) e;
            lowest = λ h. ((λ f. omega arith), All-imp rest (λ b le f. clamp_mono c b le) s.0);
            missed = λ h. cc;
            kept = λ h. cc;
          })
          | inr e ↦
              let later = try_starts-Found rest room s.1 in
              let no : ¬ Fits w cs size (clamp w c) =
                λ f. false≢true (sym e ∙ try_start-Fits (clamp w c) room f) in
              rw e (record {
                taken = later.taken;
                lowest = λ h. ((λ f. absurd (no f)), later.lowest h);
                missed = λ h. (no, later.missed h);
                kept = later.kept;
              })
        ]

    -- A property of every candidate, clamped, holds where a placement slides down to.
    at_slide {ℓ} :
        (P : ℕ → Type ℓ) (s : ℕ)
        → w.alloc_min ≤ s
        → All (λ c. P (clamp w c)) (candidates w cs)
        → P (highest w.alloc_min cs s)
    unfolding candidates
    at_slide P s le all =
        let e : clamp w (highest w.alloc_min cs s) ≡ highest w.alloc_min cs s =
          ground (arith, highest-ge w.alloc_min cs s) in
        rw e at (highest-P (λ c. P (clamp w c)) w.alloc_min cs s all.0 all.1)

    alloc_locked-Allocated : length cs < max_claims → Allocated (alloc_locked w cs size kind)
    unfolding alloc_locked
    alloc_locked-Allocated room =
        let n = length (candidates w cs) in
        let found =
          try_starts-Found (sort n (candidates w cs)) room
            (sort-IsSorted n (candidates w cs) refl) in
        record {
          taken = found.taken;
          lowest = λ h s f.
              let low =
                at_slide (λ c. Fits w cs size c → (alloc_locked w cs size kind).0.1 ≤ c) s f.above
                  (sort-All-inv _ n (candidates w cs) refl (found.lowest h)) in
              le_trans (low (slide_down r f)) (highest-le w.alloc_min cs s f.above);
          missed = λ h s f.
              at_slide (λ c. ¬ Fits w cs size c) s f.above
                (sort-All-inv _ n (candidates w cs) refl (found.missed h)) (slide_down r f);
          kept = found.kept;
        }

-- With room in the table, an allocation takes the lowest address of the window at which `size` bytes
-- share no address with a used claim and adds exactly that claim; it is refused, and leaves the
-- table alone, exactly where no such address is left.
pub alloc_locked_lem :
    (w : Window) (cs : List Claim) (size kind : ℕ)
    → IsWindow w
    → IsValid cs
    → size < u64
    → length cs < max_claims
    → Allocated w cs size kind (alloc_locked w cs size kind)
alloc_locked_lem w cs size kind iw v word_sized room =
    alloc_locked-Allocated w cs size kind iw v.in_range word_sized room
