-- ===== src/JobExec/Stacks.antt =====
-- coreinit/job_exec.c: the stacks of a core.
use otos_coreinit.Base.{
  ℕ, ◌+◌, ◌*◌, ◌≤◌, ◌<◌, ◌≡◌, ◌≢◌, refl, sym, ap, ◌∙◌, Bool, true, false, not, List, [], ◌∷◌, zero,
  suc, Option, none, some, arith, get_elem?, set, length, ltb, inl, inr, ◌⊎◌, Bool-cases,
  Option-cases, get_elem?-set_self, get_elem?-set_ne, lt_of_get_elem?, lt→ltb,
}
use otos_coreinit.JobExec.{
  Core, first_at, stack_size, max_resident, job_exec_alloc_stack, job_exec_free_stack,
}
use otos_coreinit.JobExec.Table.{first_at-get_elem?}

-- The stack `i` is in use.
abbrev pub Taken : Core → ℕ → Type 0
Taken c i = get_elem? c.job_stack_used i ≡ some true

-- The lowest address of a stack; the one that follows is its top.
abbrev pub bottom : Core → ℕ → ℕ
bottom c i = c.job_stacks + i * stack_size

-- The stack `j` was given out by a call: it was free, it shares no address with any stack in use, the
-- use of no other stack changes, and giving it back restores the core.
pub record Gave (c : Core) (r : Option (ℕ × ℕ) × Core) : Type 0 where
  pub j : ℕ
  pub in_range : j < 16
  pub free : get_elem? c.job_stack_used j ≡ some false
  pub answer : r.0 ≡ some (j, bottom c j + stack_size)
  pub now : Taken r.1 j
  pub others : (i : ℕ) → i ≢ j → get_elem? r.1.job_stack_used i ≡ get_elem? c.job_stack_used i
  pub disjoint :
      (i : ℕ)
      → Taken c i
      → (bottom c i + 0x8000 ≤ bottom c j) ⊎ (bottom c j + stack_size ≤ bottom c i)
  pub given_back : job_exec_free_stack r.1 j ≡ c

set-back :
    {A : Type 0} (xs : List A) (j : ℕ) (a b : A)
    → get_elem? xs j ≡ some b
    → set (set xs j a) j b ≡ xs
set-back [] j a b e = refl
set-back (x ∷ xs) zero a b e = ground (arith, e)
set-back (x ∷ xs) (suc j) a b e = ap (◌∷◌ x) (set-back xs j a b e)

-- A stack in use is another than one that is free, and so lies below or above it.
apart :
    (c : Core) (i j : ℕ)
    → get_elem? c.job_stack_used j ≡ some false
    → Taken c i
    → (bottom c i + 0x8000 ≤ bottom c j) ⊎ (bottom c j + stack_size ≤ bottom c i)
apart c i j free taken =
    let other : j ≢ i = λ same.
      let flags : some false ≡ some true =
        sym free ∙ (ap (get_elem? c.job_stack_used) same ∙ taken) in
      absurd (cc flags) in
    elim (Bool-cases (ltb i j)) [
      | inl below ↦ inl (ground (arith, below))
      | inr above ↦ let far : j < i = ground (arith, other, above) in inr (omega (arith, far))
    ]

claimed-Gave :
    (c : Core) (j : ℕ)
    → length c.job_stack_used ≡ 16
    → get_elem? c.job_stack_used j ≡ some false
    → Gave c (
      some (j, c.job_stacks + j * stack_size + stack_size),
      record c { job_stack_used = set c.job_stack_used j true },
    )
unfolding job_exec_free_stack
claimed-Gave c j len free =
    let short = lt_of_get_elem? c.job_stack_used j false free in
    record {
      j = j;
      in_range = omega (arith, short, len);
      free = free;
      answer = refl;
      now = get_elem?-set_self c.job_stack_used j true short;
      others = λ i other. get_elem?-set_ne c.job_stack_used j i true (λ d. other (sym d));
      disjoint = λ i taken. apart c i j free taken;
      given_back =
          rw (lt→ltb j max_resident (omega (arith, short, len)), job_exec_free_stack)
            (ap (λ u. record c { job_stack_used = u })
              (set-back c.job_stack_used j true false free));
    }

none_free :
    (us : List Bool) (b i : ℕ)
    → first_at not b us ≡ none
    → i < length us
    → get_elem? us i ≡ some true
none_free [] b i e short = absurd (omega (arith, short))
none_free (true ∷ us) b zero e short = refl
none_free (true ∷ us) b (suc i) e short = none_free us (b + 1) i e (omega (arith, short))
none_free (false ∷ us) b i e short = cc

-- When all stacks of a core are in use, job_exec_alloc_stack refuses and changes nothing. Otherwise it
-- answers the number and the top of a stack that was free, which shares no address with any stack in
-- use, the use of no other stack changes, and job_exec_free_stack of it restores the core.
pub alloc_stack-Apart :
    (c : Core)
    → length c.job_stack_used ≡ 16
    → (((i : ℕ) → i < 16 → Taken c i) × (job_exec_alloc_stack c ≡ (none, c)))
      ⊎ Gave c (job_exec_alloc_stack c)
unfolding job_exec_alloc_stack
alloc_stack-Apart c len = elim (Option-cases (first_at not 0 c.job_stack_used)) [
  | inl n ↦ inl (
    (λ i short. none_free c.job_stack_used 0 i n (omega (arith, short, len))),
    rw (n, job_exec_alloc_stack) refl,
  )
  | inr (j, at) ↦
      let (u, here, is_free) = first_at-get_elem? not c.job_stack_used j at in
      inr (rw (at, job_exec_alloc_stack) (claimed-Gave c j len (ground (arith, here, is_free))))
]
