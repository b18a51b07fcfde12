-- ===== src/Kernel/Table.antt =====
-- A kernel that numbers its handles from 1 and keeps the live ones in a table.
use otos_coreinit.Base.{
  ℕ, suc, ◌≤◌, ◌≡◌, ◌≢◌, refl, List, [], ◌∷◌, Option, none, some, arith, ◌==◌, if◌then◌else◌,
}
use otos_coreinit.Kernel.{Kernel, KernelLaws, Object}

pub record Table : Type 0 where
  pub count : ℕ
  pub live : List (ℕ × Object)

unfoldable pub lookup : List (ℕ × Object) → ℕ → Option Object
lookup [] h = none
lookup ((g, o) ∷ live) h = if g == h then some o else lookup live h

pub remove : List (ℕ × Object) → ℕ → List (ℕ × Object)
remove [] h = []
remove ((g, o) ∷ live) h = if g == h then remove live h else (g, o) ∷ remove live h

abbrev pub table_kernel : Kernel
table_kernel = record {
  State = Table;
  resolve = λ s h. lookup s.live h;
  create = λ s o. (suc s.count, record { count = suc s.count; live = (suc s.count, o) ∷ s.live });
  destroy = λ s h. record s { live = remove s.live h };
  Issued = λ s h. h ≤ s.count;
}

remove-gone : (live : List (ℕ × Object)) (h : ℕ) → lookup (remove live h) h ≡ none
unfolding remove lookup
remove-gone [] h = refl
remove-gone ((g, o) ∷ live) h = ground (arith, remove-gone live h)

remove-others :
    (live : List (ℕ × Object)) (d h : ℕ) → h ≢ d → lookup (remove live d) h ≡ lookup live h
unfolding remove lookup
remove-others [] d h ne = refl
remove-others ((g, o) ∷ live) d h ne = ground (arith, remove-others live d h ne)

pub table-KernelLaws : KernelLaws table_kernel
unfolding lookup
table-KernelLaws = record {
  create_fresh = λ s o e le. omega arith;
  create_issues = λ s o e. omega arith;
  create_keeps = λ s o h le. omega arith;
  destroy_keeps = λ s d h le. le;
  create_resolves = λ s o e. ground arith;
  create_others = λ s o h ne. ground arith;
  destroy_resolves = λ s d. remove-gone s.live d;
  destroy_others = λ s d h ne. remove-others s.live d h ne;
}
