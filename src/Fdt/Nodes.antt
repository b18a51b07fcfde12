-- ===== src/Fdt/Nodes.antt =====
-- lib/fdt.c: from a node to its first child, its next sibling and its parent.
use otos_coreinit.Base.{
  ℕ, zero, suc, ◌+◌, ◌-◌, Bool, true, false, List, Option, none, some, ltb, leb, ◌==◌, not,
  if◌then◌else◌, ◌||◌, length, get_or, set, replicate,
}
use otos_coreinit.Fdt.{
  Outcome, found, absent, stuck, ◌>>=◌, Ctx, begin_node, end_node, prop, nop, end, other, token_of,
  rd_be32, ok, align4, ctx_init, node_name, skip_node, after_name, fdt_max_depth, tried,
}

unfoldable pub child_from : ℕ → List ℕ → Ctx → ℕ → Outcome ℕ
child_from zero b c p = stuck
child_from (suc fuel) b c p = if not (ok c p 4) then absent else do
  token ← rd_be32 b p
  elim (token_of token) [
    | begin_node ↦ found p
    | end_node ↦ absent
    | prop ↦ do
      len ← rd_be32 b (p + 4)
      elim (ok c (p + 12) len) [ false ↦ absent | true ↦ child_from fuel b c (p + 12 + align4 len) ]
    | nop ↦ child_from fuel b c (p + 4)
    | end ↦ absent
    | other ↦ absent
  ]

unfoldable pub fdt_first_child : List ℕ → ℕ → Outcome ℕ
fdt_first_child b parent_offset = do
  c ← ctx_init b
  p ← after_name b c parent_offset
  child_from (length b + 1) b c p

-- `depth` is the code's depth and 1, the number of nodes that are open.
unfoldable pub parent_from : ℕ → List ℕ → Ctx → ℕ → ℕ → ℕ → List ℕ → Outcome ℕ
parent_from zero b c node_offset p depth stack = stuck
parent_from (suc fuel) b c node_offset p depth stack = if not (ok c p 4) then absent else do
  token ← rd_be32 b p
  elim (token_of token) [
    | begin_node ↦ do
      namelen ← node_name b c (p + 4)
      let next = p + 4 + align4 (namelen + 1)
      let stack' = if ltb depth fdt_max_depth then set stack depth p else stack
      elim (p == node_offset) [
        | true ↦
            if depth == 0 || leb (fdt_max_depth + 1) depth
            then absent
            else found (get_or stack' (depth - 1) 0)
        | false ↦ parent_from fuel b c node_offset next (depth + 1) stack'
      ]
    | end_node ↦ elim (leb depth 1) [
      | true ↦ absent
      | false ↦ parent_from fuel b c node_offset (p + 4) (depth - 1) stack
    ]
    | prop ↦ do
      len ← rd_be32 b (p + 4)
      elim (ok c (p + 12) len) [
        | false ↦ absent
        | true ↦ parent_from fuel b c node_offset (p + 12 + align4 len) depth stack
      ]
    | nop ↦ parent_from fuel b c node_offset (p + 4) depth stack
    | end ↦ absent
    | other ↦ absent
  ]

unfoldable pub fdt_parent_offset : List ℕ → ℕ → Outcome ℕ
fdt_parent_offset b node_offset = do
  c ← ctx_init b
  parent_from (length b + 1) b c node_offset c.s 0 (replicate fdt_max_depth 0)

unfoldable pub sibling_from : ℕ → List ℕ → Ctx → ℕ → Outcome ℕ
sibling_from zero b c p = stuck
sibling_from (suc fuel) b c p = if not (ok c p 4) then absent else do
  token ← rd_be32 b p
  elim (token_of token) [
    | begin_node ↦ found p
    | end_node ↦ absent
    | prop ↦ absent
    | nop ↦ sibling_from fuel b c (p + 4)
    | end ↦ absent
    | other ↦ absent
  ]

abbrev pub same_int : Option ℕ → Option ℕ → Bool
same_int none none = true
same_int (some a) (some b) = a == b
same_int none (some b) = false
same_int (some a) none = false

unfoldable pub fdt_next_sibling : List ℕ → Option ℕ → ℕ → Outcome ℕ
fdt_next_sibling b parent_offset prev_sibling = do
  c ← ctx_init b
  parent ← tried (fdt_parent_offset b prev_sibling)
  if not (same_int parent parent_offset)
      then absent
      else do nxt ← skip_node b c prev_sibling; sibling_from (length b + 1) b c nxt

-- The child and `*cursor`; 0 for none in both.
unfoldable pub fdt_next_child : List ℕ → ℕ → ℕ → Outcome ℕ
fdt_next_child b parent_offset cursor = do
  c ← tried (
      if cursor == 0
      then fdt_first_child b parent_offset
      else fdt_next_sibling b (some parent_offset) cursor)
  elim c [ none ↦ found 0 | some child ↦ found child ]
