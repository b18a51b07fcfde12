-- ===== src/MemMgr.antt =====
-- coreinit/mem_mgr.c: the ledger of claimed physical regions and its first-fit allocator.
-- The claim table is the list of its `g_claim_count` entries in use order.
pub mod Valid
pub mod Sort
pub mod Slide
pub mod FirstFit
pub mod Requests
pub mod Init
pub mod Capacity
pub mod Reuse
mod Examples
use otos_coreinit.Base.{
  ℕ, zero, suc, Bool, true, false, List, [], ◌∷◌, ◌++◌, add64, ltb, leb, ◌==◌, if◌then◌else◌, ◌&&◌,
  ◌||◌, length, Option,
}
use otos_coreinit.Wire.{respond, word, flag}

-- Method numbers of the MemoryManager interface.
abbrev pub method_alloc : ℕ
method_alloc = 1

abbrev pub method_free : ℕ
method_free = 2

-- `claim_t`
pub record Claim : Type 0 where
  pub base : ℕ
  pub size : ℕ
  pub kind : ℕ
  pub used : Bool

abbrev pub max_claims : ℕ
max_claims = 64

-- The allocatable window of one port.
pub record Window : Type 0 where
  pub alloc_min : ℕ
  pub alloc_max : ℕ

abbrev pub claim_end : Claim → ℕ
claim_end c = add64 c.base c.size

-- The overlap test that `claim_locked` and `alloc_locked` share.
pub overlaps : List Claim → ℕ → ℕ → Bool
overlaps [] start end = false
overlaps (c ∷ cs) start end =
    if c.used && (ltb start (claim_end c) && ltb c.base end) then true else overlaps cs start end

abbrev new_claim : ℕ → ℕ → ℕ → Claim
new_claim base size kind = record { base = base; size = size; kind = kind; used = true }

pub claim_locked : List Claim → ℕ → ℕ → ℕ → Bool × List Claim
claim_locked cs base size kind =
    if overlaps cs base (add64 base size)
    then (false, cs)
    else if leb max_claims (length cs)
    then (false, cs)
    else (true, cs ++ new_claim base size kind ∷ [])

-- The ends of the used claims, the candidate starts beside `alloc_min`.
pub claim_ends : List Claim → List ℕ
claim_ends [] = []
claim_ends (c ∷ cs) = if c.used then claim_end c ∷ claim_ends cs else claim_ends cs

pub candidates : Window → List Claim → List ℕ
unfolding claim_ends
candidates w cs = w.alloc_min ∷ claim_ends cs

-- One round of the selection sort: the smallest of `x ∷ xs`, by the strict test.
pub min_of : ℕ → List ℕ → ℕ
min_of m [] = m
min_of m (y ∷ ys) = min_of (if ltb y m then y else m) ys

-- The other half of the swap: `x` goes where the smallest, `m`, stood first.
pub put_first : ℕ → ℕ → List ℕ → List ℕ
put_first m x [] = []
put_first m x (y ∷ ys) = if y == m then x ∷ ys else y ∷ put_first m x ys

pub swap_in : ℕ → ℕ → List ℕ → List ℕ
unfolding put_first
swap_in m x xs = if m == x then xs else put_first m x xs

-- The sort of `candidates[i..n)`, by the rounds that are left.
pub sort : ℕ → List ℕ → List ℕ
sort zero xs = xs
sort (suc n) [] = []
sort (suc n) (x ∷ xs) = min_of x xs ∷ sort n (swap_in (min_of x xs) x xs)

abbrev pub clamp : Window → ℕ → ℕ
clamp w c = if ltb c w.alloc_min then w.alloc_min else c

-- The body of the search loop: a start that is accepted, with the new table.
pub try_start : Window → List Claim → ℕ → ℕ → ℕ → Bool × List Claim
try_start w cs size kind start =
    let end = add64 start size in
    if ltb w.alloc_max end || ltb end start
    then (false, cs)
    else if overlaps cs start end
    then (false, cs)
    else claim_locked cs start size kind

pub try_starts : Window → List Claim → ℕ → ℕ → List ℕ → (Bool × ℕ) × List Claim
try_starts w cs size kind [] = ((false, 0), cs)
try_starts w cs size kind (c ∷ rest) =
    let later = try_starts w cs size kind rest in
    let (taken, cs') = try_start w cs size kind (clamp w c) in
    if taken then ((true, clamp w c), cs') else later

-- The result, with `*out_base` (0, the handler's initial value, where nothing is found).
pub alloc_locked : Window → List Claim → ℕ → ℕ → (Bool × ℕ) × List Claim
alloc_locked w cs size kind =
    let starts = candidates w cs in try_starts w cs size kind (sort (length starts) starts)

pub free_locked : List Claim → ℕ → Bool × List Claim
free_locked [] base = (false, [])
free_locked (c ∷ cs) base =
    if c.used && c.base == base
    then (true, record c { used = false } ∷ cs)
    else let (ok, cs') = free_locked cs base in (ok, c ∷ cs')

-- `memory_manager_handler`: a method id that is neither alloc nor free is a claim.
pub handler : Window → List Claim → ℕ → List ℕ → ℕ → Option (List ℕ) × List Claim
handler w cs method_id words cap =
    if method_id == method_alloc
    then (let ((ok, base), cs') = alloc_locked w cs (word words 0) (word words 1) in
        (respond cap (flag ok ∷ base ∷ []), cs'))
    else if method_id == method_free
    then (let (ok, cs') = free_locked cs (word words 0) in (respond cap (flag ok ∷ []), cs'))
    else (let (ok, cs') = claim_locked cs (word words 0) (word words 1) (word words 2) in
        (respond cap (flag ok ∷ []), cs'))
