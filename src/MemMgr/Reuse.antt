-- ===== src/MemMgr/Reuse.antt =====
-- Freed space of coreinit/mem_mgr.c is space again.
use otos_coreinit.Base.{
  ℕ, ◌≡◌, ◌≢◌, refl, ap, some, inl, inr, true, false, List, [], ◌∷◌, ◌++◌, arith, ◌==◌, ◌&&◌, leb,
  All, length, add64, Bool-cases, ==_refl,
}
use otos_coreinit.Wire.{flag}
use otos_coreinit.MemMgr.{
  Claim, Window, handler, max_claims, overlaps, claim_locked, free_locked, new_claim,
}

-- No used claim starts at `base`.
abbrev pub NoneAt : ℕ → List Claim → Type 0
NoneAt base cs = All (λ c. c.used ≡ true → c.base ≢ base) cs

free_locked-append :
    (cs : List Claim) (base size kind : ℕ)
    → NoneAt base cs
    → free_locked (cs ++ new_claim base size kind ∷ []) base
      ≡ (true, cs ++ record { base = base; size = size; kind = kind; used = false } ∷ [])
unfolding free_locked
free_locked-append [] base size kind h = rw (==_refl base)
free_locked-append (c ∷ cs) base size kind h =
    ground (arith, h.0, free_locked-append cs base size kind h.1)

overlaps-append_unused :
    (cs : List Claim) (c : Claim) (start end : ℕ)
    → c.used ≡ false
    → overlaps (cs ++ c ∷ []) start end ≡ overlaps cs start end
unfolding overlaps
overlaps-append_unused [] c start end h = ground arith
overlaps-append_unused (d ∷ cs) c start end h =
    ground (arith, overlaps-append_unused cs c start end h)

claim_locked-true :
    (cs : List Claim) (base size kind : ℕ)
    → (claim_locked cs base size kind).0 ≡ true
    → (claim_locked cs base size kind).1 ≡ cs ++ new_claim base size kind ∷ []
unfolding claim_locked
claim_locked-true cs base size kind = elim (Bool-cases (overlaps cs base (add64 base size))) [
  | inl e ↦ rw e (λ h. cc)
  | inr e ↦ rw e (elim (Bool-cases (leb max_claims (length cs))) [
    | inl f ↦ rw f (λ h. cc)
    | inr f ↦ rw f (λ h. refl)
  ])
]

-- A claim that was recorded and is then freed leaves no trace in the overlap test: every range is
-- free after the two exactly where it was free before, if no older claim starts at the same base.
pub overlaps-free-claim :
    (cs : List Claim) (base size kind start end : ℕ)
    → NoneAt base cs
    → (claim_locked cs base size kind).0 ≡ true
    → let (ok, freed) = free_locked (claim_locked cs base size kind).1 base in
      (ok ≡ true) × (overlaps freed start end ≡ overlaps cs start end)
overlaps-free-claim cs base size kind start end h e =
    rw (claim_locked-true cs base size kind e, free_locked-append cs base size kind h)
      (refl, overlaps-append_unused cs _ start end refl)

-- A free is refused, and changes nothing, exactly when no used claim starts at its base.
pub free_locked-refused :
    (cs : List Claim) (base : ℕ)
    → (NoneAt base cs → free_locked cs base ≡ (false, cs))
      × ((free_locked cs base).0 ≡ false → NoneAt base cs)
unfolding free_locked
free_locked-refused [] base = ((λ h. refl), (λ h. tt))
free_locked-refused (c ∷ cs) base =
    let (to, from) = free_locked-refused cs base in
    (
      (λ h. ground (arith, h.0, to h.1)),
      (elim (Bool-cases (c.used && c.base == base)) [
        | inl e ↦ rw e (λ h. cc)
        | inr e ↦ rw e (λ h. ((λ used. ground arith), from h))
      ]),
    )

-- FREE gives the answer of free_locked, and a refused one leaves the table as it was.
pub handler-free :
    (w : Window) (cs : List Claim) (base : ℕ)
    → handler w cs 2 (base ∷ []) 24
      ≡ (some (flag (free_locked cs base).0 ∷ []), (free_locked cs base).1)
unfolding handler
handler-free w cs base = refl

pub free_locked-kept :
    (cs : List Claim) (base : ℕ) → (free_locked cs base).0 ≡ false → (free_locked cs base).1 ≡ cs
unfolding free_locked
free_locked-kept [] base e = refl
free_locked-kept (c ∷ cs) base e = elim (Bool-cases (c.used && c.base == base)) [
  | inl here ↦ ground (arith, here, e)
  | inr past ↦
      let rest : (free_locked cs base).0 ≡ false = ground (arith, past, e) in
      rw (past, free_locked) (ap (◌∷◌ c) (free_locked-kept cs base rest))
]
