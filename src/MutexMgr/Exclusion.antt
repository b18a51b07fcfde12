-- ===== src/MutexMgr/Exclusion.antt =====
-- coreinit/mutex_mgr.c: a mutex that was created is one caller's until it is unlocked.
use otos_coreinit.Base.{
  ℕ, zero, suc, ◌<◌, ◌≡◌, ◌≢◌, refl, sym, subst, ◌∙◌, ap, inl, inr, true, false, List, [], ◌∷◌,
  Option, some, arith, ◌==◌, not, leb, get_elem?, set, get_elem?-set_self, get_elem?-set_ne,
  lt_of_get_elem?, All, Bool-cases, Option-cases, ==→eq,
}
use otos_coreinit.Wire.{respond, word, flag}
use otos_coreinit.MutexMgr.{Slot, max_mutexes, free_mutex, create, on_mutex, handler}

pub record Request : Type 0 where
  pub method_id : ℕ
  pub words : List ℕ
  pub cap : ℕ

-- The table after requests, one after the other.
pub serve : List Slot → List Request → List Slot
serve ss [] = ss
serve ss (q ∷ qs) = serve (handler ss q.method_id q.words q.cap).1 qs

abbrev pub Unlocks : ℕ → Request → Type 0
Unlocks id q = (q.method_id ≡ 2) × (word q.words 0 ≡ id)

abbrev pub Held : ℕ → List Slot → Type 0
Held id ss = get_elem? ss id ≡ some (record { used = true; locked = true })

free_mutex-unused :
    (ss : List Slot) (i : ℕ) (s : Slot)
    → free_mutex ss ≡ some i
    → get_elem? ss i ≡ some s
    → s.used ≡ false
unfolding free_mutex
free_mutex-unused [] i s e at = cc
free_mutex-unused (x ∷ ss) zero s e at = ground arith
free_mutex-unused (x ∷ ss) (suc i) s e at = ground (arith, free_mutex-unused ss i s)

create-Held : (ss : List Slot) (id cap : ℕ) → Held id ss → Held id (create ss cap).1
unfolding create
create-Held ss id cap held = elim (Option-cases (free_mutex ss)) [
  | inl e ↦ rw (e, create) held
  | inr (i, e) ↦
      rw (e, create)
        (elim (Option-cases (get_elem? ss i)) [
          | inl n ↦ rw n held
          | inr (s, at) ↦
              let fresh = free_mutex-unused ss i s e at in
              let other : i ≢ id = λ same. ground (arith, same, fresh, at, held) in
              rw at (get_elem?-set_ne ss i id (record s { used = true }) other ∙ held)
        ])
]

on_mutex-Held :
    (ss : List Slot) (id id' : ℕ) (s : Slot) (m cap : ℕ)
    → get_elem? ss id' ≡ some s
    → s.used ≡ true
    → ¬ ((m ≡ 2) × (id' ≡ id))
    → Held id ss
    → Held id (on_mutex ss id' s m cap).1
unfolding on_mutex
on_mutex-Held ss id id' s m cap at used quiet held = elim (Bool-cases (m == 1)) [
  | inl l ↦ rw l (elim (Bool-cases (id' == id)) [
    | inl e ↦
        let same = ==→eq id' id e in
        subst
          (λ (x : ℕ).
            get_elem? (set ss x (record s { locked = true })) id
            ≡ some (record { used = true; locked = true }))
          (sym same)
          (get_elem?-set_self ss id (record s { locked = true }) (lt_of_get_elem? ss id _ held)
            ∙ ground (arith, used))
    | inr e ↦ get_elem?-set_ne ss id' id _ (ground arith) ∙ held
  ])
  | inr l ↦ rw l (elim (Bool-cases (m == 2)) [
    | inr n ↦ rw n held
    | inl u ↦ rw u (get_elem?-set_ne ss id' id _ (λ same. quiet (==→eq m 2 u, same)) ∙ held)
  ])
]

handler-Held :
    (ss : List Slot) (id m : ℕ) (ws : List ℕ) (cap : ℕ)
    → ¬ ((m ≡ 2) × (word ws 0 ≡ id))
    → Held id ss
    → Held id (handler ss m ws cap).1
unfolding handler
handler-Held ss id m ws cap quiet held = elim (Bool-cases (m == 0)) [
  | inl z ↦ rw z (create-Held ss id cap held)
  | inr z ↦ rw z (elim (Bool-cases (leb max_mutexes (word ws 0))) [
    | inl big ↦ rw big held
    | inr small ↦ rw small (elim (Option-cases (get_elem? ss (word ws 0))) [
      | inl n ↦ rw n held
      | inr (s, at) ↦ rw at (elim (Bool-cases (not s.used)) [
        | inl unused ↦ rw unused held
        | inr used ↦ rw used (on_mutex-Held ss id (word ws 0) s m cap at (ground arith) quiet held)
      ])
    ])
  ])
]

serve-Held :
    (qs : List Request) (ss : List Slot) (id : ℕ)
    → Held id ss
    → All (λ q. ¬ Unlocks id q) qs
    → Held id (serve ss qs)
unfolding serve
serve-Held [] ss id held quiet = held
serve-Held (q ∷ qs) ss id held quiet =
    serve-Held qs (handler ss q.method_id q.words q.cap).1 id
      (handler-Held ss id q.method_id q.words q.cap quiet.0 held) quiet.1

locked_answer :
    (ss : List Slot) (id cap : ℕ) (s : Slot)
    → id < max_mutexes
    → get_elem? ss id ≡ some s
    → s.used ≡ true
    → handler ss 1 (id ∷ []) cap
      ≡ (respond cap (flag (not s.locked) ∷ []), set ss id (record s { locked = true }))
unfolding handler on_mutex
locked_answer ss id cap s small at used = ground (arith, small, at, used)

unlocked_table :
    (ss : List Slot) (id cap : ℕ) (s : Slot)
    → id < max_mutexes
    → get_elem? ss id ≡ some s
    → s.used ≡ true
    → (handler ss 2 (id ∷ []) cap).1 ≡ set ss id (record s { locked = false })
unfolding handler on_mutex
unlocked_table ss id cap s small at used = ground (arith, small, at, used)

-- A created mutex that is free is locked by the first attempt, which is told so. From then on,
-- whatever is asked of the table, no attempt gets it until somebody unlocks it; after an unlock the
-- next attempt gets it.
pub lock-Exclusive_mgr :
    (ss : List Slot) (id cap : ℕ) (qs : List Request)
    → id < max_mutexes
    → get_elem? ss id ≡ some (record { used = true; locked = false })
    → All (λ q. ¬ Unlocks id q) qs
    → let taken = (handler ss 1 (id ∷ []) cap).1 in
      ((handler ss 1 (id ∷ []) cap).0 ≡ respond cap (1 ∷ []))
      × ((handler (serve taken qs) 1 (id ∷ []) cap).0 ≡ respond cap (0 ∷ []))
      × ((handler (handler (serve taken qs) 2 (id ∷ []) cap).1 1 (id ∷ []) cap).0
          ≡ respond cap (1 ∷ []))
lock-Exclusive_mgr ss id cap qs small at quiet =
    let first = locked_answer ss id cap _ small at refl in
    let free : Slot = record { used = true; locked = false } in
    let held : Held id (set ss id (record free { locked = true })) =
      get_elem?-set_self ss id _ (lt_of_get_elem? ss id _ at) in
    let after : Held id (serve (handler ss 1 (id ∷ []) cap).1 qs) =
      rw first (serve-Held qs (set ss id (record free { locked = true })) id held quiet) in
    let open_again =
      unlocked_table (serve (handler ss 1 (id ∷ []) cap).1 qs) id cap _ small after refl in
    (
      ap (λ (r : Option (List ℕ) × List Slot). r.0) first,
      ap (λ (r : Option (List ℕ) × List Slot). r.0)
          (locked_answer (serve (handler ss 1 (id ∷ []) cap).1 qs) id cap _ small after refl),
      rw open_again (
          ap (λ (r : Option (List ℕ) × List Slot). r.0)
            (locked_answer _ id cap free small
              (get_elem?-set_self _ id free (lt_of_get_elem? _ id _ after)) refl)),
    )
