-- ===== src/MemMgr/Capacity.antt =====
-- The claim table of coreinit/mem_mgr.c is used up: `g_claim_count` never falls and no entry is used
-- again.
use otos_coreinit.Base.{
  ℕ, ◌≤◌, ◌≡◌, refl, inl, inr, false, List, [], ◌∷◌, arith, length, length-append, ◌==◌, Bool-cases,
}
use native.Mathlib.Nat.{le_trans}
use otos_coreinit.MemMgr.{
  Claim, Window, max_claims, claim_locked, try_start, try_starts, alloc_locked, clamp, handler,
  new_claim, method_alloc, method_free,
}
use otos_coreinit.MemMgr.Valid.{length-free_locked}
use otos_coreinit.MemMgr.Requests.{Request, run}
use otos_coreinit.Wire.{word}

claim_locked-full :
    (cs : List Claim) (base size kind : ℕ)
    → max_claims ≤ length cs
    → claim_locked cs base size kind ≡ (false, cs)
unfolding claim_locked
claim_locked-full cs base size kind h = ground arith

try_start-full :
    (w : Window) (cs : List Claim) (size kind start : ℕ)
    → max_claims ≤ length cs
    → try_start w cs size kind start ≡ (false, cs)
unfolding try_start
try_start-full w cs size kind start h = ground (arith, claim_locked-full cs start size kind)

try_starts-full :
    (w : Window) (cs : List Claim) (size kind : ℕ) (starts : List ℕ)
    → max_claims ≤ length cs
    → try_starts w cs size kind starts ≡ ((false, 0), cs)
unfolding try_starts
try_starts-full w cs size kind [] h = refl
try_starts-full w cs size kind (c ∷ rest) h =
    ground (arith, try_start-full w cs size kind (clamp w c), try_starts-full w cs size kind rest)

length-claim_locked :
    (cs : List Claim) (base size kind : ℕ) → length cs ≤ length (claim_locked cs base size kind).1
unfolding claim_locked
length-claim_locked cs base size kind =
    ground (arith, length-append cs (new_claim base size kind ∷ []))

length-try_start :
    (w : Window) (cs : List Claim) (size kind start : ℕ)
    → length cs ≤ length (try_start w cs size kind start).1
unfolding try_start
length-try_start w cs size kind start = ground (arith, length-claim_locked cs start size kind)

length-try_starts :
    (w : Window) (cs : List Claim) (size kind : ℕ) (starts : List ℕ)
    → length cs ≤ length (try_starts w cs size kind starts).1
unfolding try_starts
length-try_starts w cs size kind [] = omega arith
length-try_starts w cs size kind (c ∷ rest) =
    ground
      (arith, length-try_start w cs size kind (clamp w c), length-try_starts w cs size kind rest)

length-handler :
    (w : Window) (cs : List Claim) (method_id : ℕ) (words : List ℕ) (cap : ℕ)
    → length cs ≤ length (handler w cs method_id words cap).1
unfolding handler alloc_locked
length-handler w cs method_id words cap = elim (Bool-cases (method_id == method_alloc)) [
  | inl e ↦ rw e (length-try_starts w cs (word words 0) (word words 1) _)
  | inr e ↦ rw e (elim (Bool-cases (method_id == method_free)) [
    | inl f ↦ rw f (omega (arith, length-free_locked cs (word words 0)))
    | inr f ↦ rw f (length-claim_locked cs (word words 0) (word words 1) (word words 2))
  ])
]

length-run : (w : Window) (cs : List Claim) (rs : List Request) → length cs ≤ length (run w cs rs)
unfolding run
length-run w cs [] = omega arith
length-run w cs (r ∷ rs) =
    le_trans (length-handler w cs r.method_id r.words r.response_cap)
      (length-run w (handler w cs r.method_id r.words r.response_cap).1 rs)

-- Once 64 claims have been recorded, every later claim and allocation is refused, whatever has been
-- freed in between.
pub full_forever :
    (w : Window) (cs : List Claim) (rs : List Request) (base size kind : ℕ)
    → max_claims ≤ length cs
    → (claim_locked (run w cs rs) base size kind ≡ (false, run w cs rs))
      × (alloc_locked w (run w cs rs) size kind ≡ ((false, 0), run w cs rs))
unfolding alloc_locked
full_forever w cs rs base size kind h =
    let full = le_trans h (length-run w cs rs) in
    (claim_locked-full _ base size kind full, try_starts-full w _ size kind _ full)
