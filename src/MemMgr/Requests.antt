-- ===== src/MemMgr/Requests.antt =====
-- Sequences of requests to the memory manager of coreinit/mem_mgr.c.
use otos_coreinit.Base.{
  ℕ, ◌+◌, ◌<◌, ◌≡◌, ◌≢◌, inl, inr, List, [], ◌∷◌, arith, All, u64, ◌==◌, Bool-cases, ==→eq,
}
use otos_coreinit.Wire.{word}
use otos_coreinit.MemMgr.{Claim, Window, method_alloc, method_free, handler}
use otos_coreinit.MemMgr.Valid.{
  IsValid, claim_locked-IsValid, free_locked-IsValid, alloc_locked-IsValid,
}

-- The sums that a request of the interface makes do not wrap.
pub record InBounds (method_id : ℕ) (words : List ℕ) : Type 0 where
  pub alloc_size : method_id ≡ method_alloc → word words 0 < u64
  pub claim_range :
      method_id ≢ method_alloc → method_id ≢ method_free → word words 0 + word words 1 < u64

handler-IsValid :
    (w : Window) (cs : List Claim) (method_id : ℕ) (words : List ℕ) (cap : ℕ)
    → IsValid cs
    → InBounds method_id words
    → IsValid (handler w cs method_id words cap).1
unfolding handler
handler-IsValid w cs method_id words cap v b = elim (Bool-cases (method_id == method_alloc)) [
  | inl alloc ↦ rw alloc (
      alloc_locked-IsValid w cs (word words 0) (word words 1) v
        (b.alloc_size (==→eq method_id 1 alloc)))
  | inr other ↦ rw other (elim (Bool-cases (method_id == method_free)) [
    | inl free ↦ rw free (free_locked-IsValid cs (word words 0) v)
    | inr claim ↦ rw claim (
        claim_locked-IsValid cs (word words 0) (word words 1) (word words 2) v
          (b.claim_range (ground arith) (ground arith)))
  ])
]

pub record Request : Type 0 where
  pub method_id : ℕ
  pub words : List ℕ
  pub response_cap : ℕ

-- The table after a sequence of requests.
unfoldable pub run : Window → List Claim → List Request → List Claim
run w cs [] = cs
run w cs (r ∷ rs) = run w (handler w cs r.method_id r.words r.response_cap).1 rs

-- After any sequence of requests whose sums do not wrap, from a valid table, no two used claims
-- share an address, every claim ends below 2^64, and the table holds at most 64 claims.
pub run-IsValid :
    (w : Window) (cs : List Claim) (rs : List Request)
    → IsValid cs
    → All (λ r. InBounds r.method_id r.words) rs
    → IsValid (run w cs rs)
unfolding run
run-IsValid w cs [] v b = v
run-IsValid w cs (r ∷ rs) v b =
    run-IsValid w (handler w cs r.method_id r.words r.response_cap).1 rs
      (handler-IsValid w cs r.method_id r.words r.response_cap v b.0) b.1
