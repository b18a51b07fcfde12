-- ===== src/Fdt/Paths.antt =====
-- lib/fdt.c: the node that a path names.
use otos_coreinit.Base.{
  ℕ, zero, suc, ◌+◌, true, false, List, [], ◌∷◌, Option, none, some, ◌==◌, not, if◌then◌else◌, ◌||◌,
  length, get_or,
}
use otos_coreinit.Fdt.{
  Outcome, found, absent, stuck, ◌>>=◌, Ctx, rd_be32, ok, ctx_init, node_name, tried,
}
use otos_coreinit.Fdt.Nodes.{fdt_first_child, fdt_next_sibling}
use otos_coreinit.Fdt.Props.{bytes_are}

-- The child of `cur` with this name, from the child `ch` on.
unfoldable pub named_from : ℕ → List ℕ → Ctx → ℕ → List ℕ → Option ℕ → Outcome ℕ
named_from fuel b c cur name none = absent
named_from zero b c cur name (some ch) = stuck
named_from (suc fuel) b c cur name (some ch) = do
  namelen ← node_name b c (ch + 4)
  same ← if namelen == length name then bytes_are b (ch + 4) name else found false
  elim same [
    | true ↦ found ch
    | false ↦ do next ← tried (fdt_next_sibling b (some cur) ch); named_from fuel b c cur name next
  ]

abbrev slash : ℕ
slash = 47

abbrev skip_slashes : List ℕ → List ℕ
skip_slashes [] = []
skip_slashes (x ∷ xs) = let rest = skip_slashes xs in if x == slash then rest else x ∷ xs

-- What stands before the next slash, and what is left from there.
abbrev component : List ℕ → List ℕ × List ℕ
component [] = ([], [])
component (x ∷ xs) =
    let (name, rest) = component xs in if x == slash then ([], x ∷ xs) else (x ∷ name, rest)

unfoldable pub path_from : ℕ → List ℕ → Ctx → ℕ → List ℕ → Outcome ℕ
path_from fuel b c cur [] = found cur
path_from zero b c cur (x ∷ xs) = stuck
path_from (suc fuel) b c cur (x ∷ xs) = do
  first ← tried (fdt_first_child b cur)
  child ← named_from (length b + 1) b c cur (component (x ∷ xs)).0 first
  path_from fuel b c child (skip_slashes (component (x ∷ xs)).1)

unfoldable pub fdt_path_offset : List ℕ → List ℕ → Outcome ℕ
fdt_path_offset b path = do
  c ← ctx_init b
  if not (get_or path 0 0 == slash) || not (ok c c.s 4) then absent else do
    token ← rd_be32 b c.s
    if not (token == 1) then absent else path_from (length path) b c c.s (skip_slashes path)
