-- ===== src/Fdt/Props.antt =====
-- lib/fdt.c: the properties of a node and its cell counts.
use otos_coreinit.Base.{
  ℕ, zero, suc, ◌+◌, Bool, true, false, List, [], ◌∷◌, Option, none, some, ltb, leb, ◌==◌, not,
  if◌then◌else◌, ◌||◌, length,
}
use otos_coreinit.Fdt.{
  Outcome, found, absent, stuck, ◌>>=◌, Ctx, begin_node, end_node, prop, nop, end, other, token_of,
  rd_be32, ok, align4, ctx_init, after_name, tried, byte_at, str_at, str_eq,
}
use otos_coreinit.Fdt.Nodes.{fdt_parent_offset}

unfoldable pub prop_from : ℕ → List ℕ → Ctx → List ℕ → ℕ → Outcome (ℕ × ℕ)
prop_from zero b c name p = stuck
prop_from (suc fuel) b c name p = if not (ok c p 4) then absent else do
  token ← rd_be32 b p
  elim (token_of token) [
    | begin_node ↦ absent
    | end_node ↦ absent
    | prop ↦ elim (ok c p 8) [
      | false ↦ absent
      | true ↦ do
        len ← rd_be32 b (p + 4)
        nameoff ← rd_be32 b (p + 8)
        elim (ok c (p + 12) len) [
          | false ↦ absent
          | true ↦ do
            pn ← str_at c nameoff
            same ← str_eq b pn name
            elim same [
              | true ↦ found (p + 12, len)
              | false ↦ prop_from fuel b c name (p + 12 + align4 len)
            ]
        ]
    ]
    | nop ↦ prop_from fuel b c name (p + 4)
    | end ↦ absent
    | other ↦ absent
  ]

-- The pointer to the value and `*out_len`.
unfoldable pub fdt_getprop : List ℕ → ℕ → List ℕ → Outcome (ℕ × ℕ)
fdt_getprop b node_offset name = do
  c ← ctx_init b
  p ← after_name b c node_offset
  prop_from (length b + 1) b c name p

-- `n[i] == start[i]` for every byte of `xs`.
unfoldable pub bytes_are : List ℕ → ℕ → List ℕ → Outcome Bool
bytes_are b p [] = found true
bytes_are b p (x ∷ xs) = do
  v ← byte_at b p
  elim (v == x) [ true ↦ bytes_are b (p + 1) xs | false ↦ found false ]

-- The cell count that a node declares itself.
unfoldable pub own_cells : List ℕ → ℕ → List ℕ → Outcome ℕ
own_cells b node_off name = do
  (v, len) ← fdt_getprop b node_off name
  if ltb len 4 then absent else rd_be32 b v

abbrev pub address_cells : List ℕ
address_cells = 35 ∷ 97 ∷ 100 ∷ 100 ∷ 114 ∷ 101 ∷ 115 ∷ 115 ∷ 45 ∷ 99 ∷ 101 ∷ 108 ∷ 108 ∷ 115 ∷ []

abbrev pub size_cells : List ℕ
size_cells = 35 ∷ 115 ∷ 105 ∷ 122 ∷ 101 ∷ 45 ∷ 99 ∷ 101 ∷ 108 ∷ 108 ∷ 115 ∷ []

abbrev pub or_two : Option ℕ → ℕ
or_two none = 2
or_two (some n) = n

abbrev pub both : Option ℕ → Option ℕ → Bool
both (some n) (some m) = true
both (some n) none = false
both none sc = false

abbrev pub either : Option ℕ → Option ℕ → Bool
either none none = false
either none (some m) = true
either (some n) sc = true

-- `ac` and `sc` where they were found; `cur` is the node to look at.
unfoldable pub cells_from : ℕ → List ℕ → Option ℕ → Option ℕ → Option ℕ → Outcome (ℕ × ℕ)
cells_from fuel b ac sc none = found (or_two ac, or_two sc)
cells_from zero b ac sc (some cur) = stuck
cells_from (suc fuel) b ac sc (some cur) = do
  ac' ← elim ac [ some n ↦ found (some n) | none ↦ tried (own_cells b cur address_cells) ]
  sc' ← elim sc [ some n ↦ found (some n) | none ↦ tried (own_cells b cur size_cells) ]
  elim (both ac' sc') [
    | true ↦ found (or_two ac', or_two sc')
    | false ↦ do parent ← tried (fdt_parent_offset b cur); cells_from fuel b ac' sc' parent
  ]

-- `*addr_cells` and `*size_cells`.
unfoldable pub fdt_parent_cells : List ℕ → ℕ → Outcome (ℕ × ℕ)
fdt_parent_cells b node_offset = do
  c ← ctx_init b
  parent ← tried (fdt_parent_offset b node_offset)
  cells_from (length b + 1) b none none parent

abbrev pub fdt_cell_counts : List ℕ → ℕ → Outcome (ℕ × ℕ)
fdt_cell_counts b node_offset = fdt_parent_cells b node_offset

-- Each count where the node has it; `absent` if it has none.
unfoldable pub fdt_own_cell_counts : List ℕ → ℕ → Outcome (Option ℕ × Option ℕ)
fdt_own_cell_counts b node_offset = do
  c ← ctx_init b
  ac ← tried (own_cells b node_offset address_cells)
  sc ← tried (own_cells b node_offset size_cells)
  if either ac sc then found (ac, sc) else absent

unfoldable pub fdt_is_enabled : List ℕ → ℕ → Outcome Bool
fdt_is_enabled b node_offset = do
  status ← tried (fdt_getprop b node_offset (115 ∷ 116 ∷ 97 ∷ 116 ∷ 117 ∷ 115 ∷ []))
  elim status [
    | none ↦ found true
    | some (st, len) ↦ if len == 0 then found true else do
      okay ← if leb 5 len then bytes_are b st (111 ∷ 107 ∷ 97 ∷ 121 ∷ []) else found false
      ok_ ← if leb 3 len then bytes_are b st (111 ∷ 107 ∷ []) else found false
      if okay
          then found true
          else if not ok_
          then found false
          else do v ← byte_at b (st + 2); found (v == 0 || len == 3)
  ]
