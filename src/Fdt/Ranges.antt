-- ===== src/Fdt/Ranges.antt =====
-- lib/fdt.c: ranges of memory, and a node's reg as an address of the processor.
use otos_coreinit.Base.{
  ℕ, zero, suc, ◌+◌, ◌-◌, ◌*◌, ◌/◌, ◌%◌, ◌^◌, Bool, true, false, List, [], ◌∷◌, ◌++◌, Option, none,
  some, ltb, leb, ◌==◌, not, if◌then◌else◌, ◌&&◌, ◌||◌, length,
}
use otos_coreinit.Fdt.{
  Outcome, found, absent, stuck, ◌>>=◌, Ctx, rd_be32, rd_be64, rd_cells, ok, ctx_init, node_name,
  tried, byte_at,
}
use otos_coreinit.Fdt.Nodes.{fdt_first_child, fdt_next_sibling, fdt_parent_offset}
use otos_coreinit.Fdt.Props.{
  fdt_getprop, fdt_parent_cells, own_cells, bytes_are, address_cells, size_cells, or_two,
}

pub record Range : Type 0 where
  pub base : ℕ
  pub size : ℕ

unfoldable pub reserved_from : ℕ → List ℕ → ℕ → ℕ → Outcome (List Range)
reserved_from zero b totalsize off = found []
reserved_from (suc more) b totalsize off =
    if ltb totalsize off || ltb (totalsize - off) 16 then found [] else do
      addr ← rd_be64 b off
      size ← rd_be64 b (off + 8)
      elim (addr == 0 && size == 0) [
        | true ↦ found []
        | false ↦ do
          rest ← reserved_from more b totalsize ((off + 16) % 2 ^ 32)
          found (record { base = addr; size = size } ∷ rest)
      ]

-- At most `max` ranges; none also where the header is refused.
unfoldable pub fdt_reserved_ranges : List ℕ → ℕ → Outcome (List Range)
fdt_reserved_ranges b max = do
  c ← tried (ctx_init b)
  elim c [
    | none ↦ found []
    | some ctx ↦ do off ← rd_be32 b 16; totalsize ← rd_be32 b 4; reserved_from max b totalsize off
  ]

-- The bytes of an entry of these many cells, as a uint32_t.
abbrev pub cells_size : ℕ → ℕ
cells_size n = (n * 4) % 2 ^ 32

-- `sc ? rd_cells(p, sc) : 0`
abbrev pub size_at : List ℕ → ℕ → ℕ → Outcome ℕ
size_at b p sc = if sc == 0 then found 0 else rd_cells b p sc

-- `base` through the windows `i`, …, of a bus, `none` if it is in none of them.
unfoldable pub window_from : ℕ → List ℕ → ℕ → ℕ → ℕ → ℕ → ℕ → ℕ → Outcome (Option ℕ)
window_from zero b own_ac ra rs rentry e base = found none
window_from (suc more) b own_ac ra rs rentry e base = do
  cbase ← rd_cells b e own_ac
  pbase ← rd_cells b (e + cells_size own_ac) ra
  rsize ← rd_cells b (e + cells_size (own_ac + ra)) rs
  elim (leb cbase base && ltb base ((cbase + rsize) % 2 ^ 64)) [
    | true ↦ found (some ((pbase + (base - cbase)) % 2 ^ 64))
    | false ↦ window_from more b own_ac ra rs rentry (e + rentry) base
  ]

-- `n ? n : 2`
abbrev pub two_for_zero : ℕ → ℕ
two_for_zero n = if n == 0 then 2 else n

-- `base` through the ranges of `cur`, which lies under another node; and whether a window was used.
unfoldable pub through_bus : List ℕ → ℕ → ℕ → Outcome (ℕ × Bool)
through_bus b cur base = do
  ranges ← tried (fdt_getprop b cur (114 ∷ 97 ∷ 110 ∷ 103 ∷ 101 ∷ 115 ∷ []))
  elim ranges [
    | none ↦ found (base, false)
    | some (r, rlen) ↦ elim (rlen == 0) [
      | true ↦ found (base, false)
      | false ↦ do
        (bus_ac, bus_sc) ← fdt_parent_cells b cur
        ac ← tried (own_cells b cur address_cells)
        sc ← tried (own_cells b cur size_cells)
        let own_ac = two_for_zero (or_two ac)
        let ra = two_for_zero bus_ac
        let rs = two_for_zero (or_two sc)
        let rentry = cells_size (own_ac + ra + rs)
        if rentry == 0 then absent else do
          mapped ← window_from (rlen / rentry) b own_ac ra rs rentry r base
          elim mapped [ none ↦ absent | some base' ↦ found (base', true) ]
    ]
  ]

unfoldable pub to_cpu_from : ℕ → List ℕ → ℕ → ℕ → Outcome ℕ
to_cpu_from zero b cur base = stuck
to_cpu_from (suc fuel) b cur base = do
  parent ← tried (fdt_parent_offset b cur)
  elim parent [
    | none ↦ found base
    | some above ↦ do
      (base', mapped) ← through_bus b cur base
      elim (mapped && above == 0) [ true ↦ found base' | false ↦ to_cpu_from fuel b above base' ]
  ]

unfoldable pub fdt_reg_to_cpu_addr : List ℕ → ℕ → ℕ → Outcome Range
fdt_reg_to_cpu_addr b node_offset index = do
  c ← ctx_init b
  (ac, sc) ← fdt_parent_cells b node_offset
  (reg, len) ← fdt_getprop b node_offset (114 ∷ 101 ∷ 103 ∷ [])
  let entry = cells_size (ac + sc)
  if (ac == 0 || entry == 0) || ltb len (((index + 1) % 2 ^ 32) * entry) then absent else do
    base ← rd_cells b (reg + index * entry) ac
    size ← size_at b (reg + index * entry + cells_size ac) sc
    cpu ← to_cpu_from (length b + 1) b node_offset base
    found (record { base = cpu; size = size })

abbrev pub fdt_reg_to_addr : List ℕ → ℕ → Outcome Range
fdt_reg_to_addr b node_offset = fdt_reg_to_cpu_addr b node_offset 0

-- `n_entries` of a reg from the address `e` on, while there is room for more ranges.
unfoldable pub entries_from : ℕ → ℕ → List ℕ → ℕ → ℕ → ℕ → ℕ → Outcome (List Range)
entries_from zero room b ac sc entry e = found []
entries_from (suc more) zero b ac sc entry e = found []
entries_from (suc more) (suc room) b ac sc entry e = do
  base ← rd_cells b e ac
  size ← size_at b (e + cells_size ac) sc
  rest ← entries_from more room b ac sc entry (e + entry)
  found (record { base = base; size = size } ∷ rest)

-- Is this the name of a memory node? A name that does not end is none.
unfoldable pub is_memory : List ℕ → Ctx → ℕ → Outcome Bool
is_memory b c ch = do
  name ← tried (node_name b c (ch + 4))
  elim name [
    | none ↦ found false
    | some namelen ↦ if ltb namelen 6 then found false else do
      memory ← bytes_are b (ch + 4) (109 ∷ 101 ∷ 109 ∷ 111 ∷ 114 ∷ 121 ∷ [])
      if not memory
          then found false
          else if namelen == 6
          then found true
          else do v ← byte_at b (ch + 10); found (v == 64)
  ]

unfoldable pub bank_ranges : List ℕ → ℕ → ℕ → Outcome (List Range)
bank_ranges b ch room = do
  cells ← tried (fdt_parent_cells b ch)
  reg ← tried (fdt_getprop b ch (114 ∷ 101 ∷ 103 ∷ []))
  elim cells [
    | none ↦ found []
    | some (ac, sc) ↦ elim reg [
      | none ↦ found []
      | some (r, len) ↦ elim (ac == 0 || cells_size (ac + sc) == 0) [
        | true ↦ found []
        | false ↦ entries_from (len / cells_size (ac + sc)) room b ac sc (cells_size (ac + sc)) r
      ]
    ]
  ]

unfoldable pub memory_from : ℕ → List ℕ → Ctx → ℕ → ℕ → Option ℕ → Outcome (List Range)
memory_from fuel b c root room none = found []
memory_from zero b c root room (some ch) = stuck
memory_from (suc fuel) b c root room (some ch) = do
  memory ← is_memory b c ch
  bank ← if memory then bank_ranges b ch room else found []
  next ← tried (fdt_next_sibling b (some root) ch)
  rest ← memory_from fuel b c root (room - length bank) next
  found (bank ++ rest)

unfoldable pub fdt_memory_ranges : List ℕ → ℕ → Outcome (List Range)
fdt_memory_ranges b max = do
  c ← tried (ctx_init b)
  elim c [
    | none ↦ found []
    | some ctx ↦ if not (ok ctx ctx.s 4) then found [] else do
      token ← rd_be32 b ctx.s
      if not (token == 1) then found [] else do
        first ← tried (fdt_first_child b ctx.s)
        memory_from (length b + 1) b ctx ctx.s max first
  ]
