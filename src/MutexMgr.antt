-- ===== src/MutexMgr.antt =====
-- coreinit/mutex_mgr.c: a table of lock words, each created once and tried, never waited for.
pub mod Exclusion
mod Examples
use otos_coreinit.Base.{
  ℕ, zero, suc, Bool, true, false, List, [], ◌∷◌, Option, none, some, ◌==◌, not, if◌then◌else◌, leb,
  get_elem?, set, replicate,
}
use otos_coreinit.Wire.{respond, word, flag}

abbrev pub max_mutexes : ℕ
max_mutexes = 16

abbrev pub method_create : ℕ
method_create = 0

abbrev pub method_lock : ℕ
method_lock = 1

abbrev pub method_unlock : ℕ
method_unlock = 2

-- One index of `g_mutex_used` and `g_mutexes`.
pub record Slot : Type 0 where
  pub used : Bool
  pub locked : Bool

abbrev pub init_schema : List Slot
init_schema = replicate max_mutexes (record { used = false; locked = false })

-- The index of the first slot that no mutex has.
pub free_mutex : List Slot → Option ℕ
free_mutex [] = none
free_mutex (s ∷ ss) =
    if s.used then (elim (free_mutex ss) [ none ↦ none | some i ↦ some (suc i) ]) else some 0

-- `trylock_try_acquire`
abbrev pub try_acquire : Slot → Bool × Slot
try_acquire s = (not s.locked, record s { locked = true })

pub create : List Slot → ℕ → Option (List ℕ) × List Slot
create ss cap = elim (free_mutex ss) [
  | none ↦ (none, ss)
  | some i ↦ elim (get_elem? ss i) [
    | none ↦ (none, ss)
    | some s ↦ (respond cap (i ∷ []), set ss i (record s { used = true }))
  ]
]

-- A call on the mutex `id` in its slot `s`.
pub on_mutex : List Slot → ℕ → Slot → ℕ → ℕ → Option (List ℕ) × List Slot
on_mutex ss id s method_id cap =
    if method_id == method_lock
    then (let (ok, s') = try_acquire s in (respond cap (flag ok ∷ []), set ss id s'))
    else if method_id == method_unlock
    then (none, set ss id (record s { locked = false }))
    else (none, ss)

pub handler : List Slot → ℕ → List ℕ → ℕ → Option (List ℕ) × List Slot
unfolding create on_mutex
handler ss method_id words cap =
    if method_id == method_create
    then create ss cap
    else if leb max_mutexes (word words 0)
    then (none, ss)
    else (elim (get_elem? ss (word words 0)) [
      | none ↦ (none, ss)
      | some s ↦ if not s.used then (none, ss) else on_mutex ss (word words 0) s method_id cap
    ])
