-- ===== src/Fdt/Compatible.antt =====
-- lib/fdt.c: the nodes that a compatible string names.
use otos_coreinit.Base.{
  ℕ, zero, suc, ◌+◌, ◌-◌, Bool, true, false, List, [], ◌∷◌, Option, none, some, ltb, leb, ◌==◌, not,
  if◌then◌else◌, length, get_or, set, replicate,
}
use otos_coreinit.Fdt.{
  Outcome, found, absent, stuck, ◌>>=◌, rd_be32, ok, ctx_init, fdt_max_depth, tried, byte_at,
  str_eq,
}
use otos_coreinit.Fdt.Nodes.{fdt_first_child, fdt_next_sibling}
use otos_coreinit.Fdt.Props.{fdt_getprop}

-- The length of the entry at `list + i`: up to its NUL or the end of the list.
unfoldable pub entry_len : ℕ → List ℕ → ℕ → ℕ → ℕ → Outcome ℕ
entry_len zero b list len i = stuck
entry_len (suc fuel) b list len i = elim (ltb i len) [
  | false ↦ found 0
  | true ↦ do
    v ← byte_at b (list + i)
    elim (v == 0) [
      | true ↦ found 0
      | false ↦ do n ← entry_len fuel b list len (i + 1); found (n + 1)
    ]
]

unfoldable pub compatible_from : ℕ → List ℕ → ℕ → ℕ → List ℕ → ℕ → Outcome Bool
compatible_from zero b list len want i = stuck
compatible_from (suc fuel) b list len want i = elim (ltb i len) [
  | false ↦ found false
  | true ↦ do
    j ← entry_len (len + 1) b list len i
    same ← if ltb (i + j) len then str_eq b (list + i) want else found false
    elim same [ true ↦ found true | false ↦ compatible_from fuel b list len want (i + j + 1) ]
]

unfoldable pub compatible_match : List ℕ → ℕ → ℕ → List ℕ → Outcome Bool
compatible_match b list len want = compatible_from (len + 1) b list len want 0

-- The next node in the walk that does not descend: the depth and the stack there.
unfoldable pub climb : List ℕ → ℕ → List ℕ → Outcome (ℕ × List ℕ)
climb b zero stack = absent
climb b (suc depth) stack = do
  next ← tried (fdt_next_sibling b (some (get_or stack depth 0)) (get_or stack (suc depth) 0))
  elim next [ some sib ↦ found (suc depth, set stack (suc depth) sib) | none ↦ climb b depth stack ]

-- The siblings of a child that is too deep, to the last.
unfoldable pub pass_siblings : ℕ → List ℕ → ℕ → Option ℕ → Outcome (Unit {0})
pass_siblings fuel b cur none = found tt
pass_siblings zero b cur (some sib) = stuck
pass_siblings (suc fuel) b cur (some sib) = do
  next ← tried (fdt_next_sibling b (some cur) sib)
  pass_siblings fuel b cur next

-- `cur > previous_offset`, which is -1 if there is none.
abbrev pub beyond : Option ℕ → ℕ → Bool
beyond none cur = true
beyond (some previous) cur = ltb previous cur

unfoldable pub is_compatible : List ℕ → List ℕ → Option ℕ → ℕ → Outcome Bool
is_compatible b want previous cur = do
  cp ← tried (fdt_getprop b cur (99 ∷ 111 ∷ 109 ∷ 112 ∷ 97 ∷ 116 ∷ 105 ∷ 98 ∷ 108 ∷ 101 ∷ []))
  elim cp [
    | none ↦ found false
    | some (list, len) ↦
        if beyond previous cur then compatible_match b list len want else found false
  ]

unfoldable pub compatible_walk : ℕ → List ℕ → List ℕ → Option ℕ → ℕ → List ℕ → Outcome ℕ
compatible_walk zero b want previous depth stack = stuck
compatible_walk (suc fuel) b want previous depth stack = do
  let cur = get_or stack depth 0
  same ← is_compatible b want previous cur
  elim same [
    | true ↦ found cur
    | false ↦ do
      child ← tried (fdt_first_child b cur)
      elim child [
        | none ↦ do
          (depth', stack') ← climb b depth stack
          compatible_walk fuel b want previous depth' stack'
        | some ch ↦ elim (leb fdt_max_depth (depth + 1)) [
          | true ↦ do
            passed ← pass_siblings (length b + 1) b cur (some ch)
            elim (depth == 0) [
              | true ↦ absent
              | false ↦ compatible_walk fuel b want previous (depth - 1) stack
            ]
          | false ↦ compatible_walk fuel b want previous (depth + 1) (set stack (depth + 1) ch)
        ]
      ]
  ]

-- With the model's fuel, since the walk of the code has no bound.
unfoldable pub fdt_next_node_by_compatible_offset : ℕ → List ℕ → List ℕ → Option ℕ → Outcome ℕ
fdt_next_node_by_compatible_offset fuel b compatible previous_offset = do
  c ← ctx_init b
  if not (ok c c.s 4) then absent else do
    token ← rd_be32 b c.s
    if not (token == 1)
        then absent
        else compatible_walk fuel b compatible previous_offset 0
            (set (replicate fdt_max_depth 0) 0 c.s)

abbrev pub fdt_node_by_compatible_offset : ℕ → List ℕ → List ℕ → Outcome ℕ
fdt_node_by_compatible_offset fuel b compatible =
    fdt_next_node_by_compatible_offset fuel b compatible none
