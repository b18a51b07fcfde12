-- ===== src/Fdt/Examples.antt =====
-- lib/fdt.c on the blob of a small board: runs of the operations and their theorems applied to it.
use otos_coreinit.Base.{
  ◌≤◌, ℕ, ◌+◌, ◌≡◌, ◌<◌, refl, false, List, [], ◌∷◌, ◌++◌, some, take, inl, length, arith,
}
use otos_coreinit.Fdt.{
  found, absent, Ctx, ctx_init, fdt_valid, skip_node, byte_at, rd_be32, rd_be64, rd_cells,
  name_from, skip_from, str_eq, str_at, after_name, node_name, ok,
}
use otos_coreinit.Fdt.Layout.{
  Prop, Node, node, nil, cons, be32, emit, emit_prop, emit_props, IsNamed, At-middle,
}
use otos_coreinit.Fdt.Nodes.{
  fdt_first_child, fdt_parent_offset, fdt_next_sibling, child_from, parent_from, sibling_from,
}
use otos_coreinit.Fdt.Props.{
  prop_from, fdt_getprop, bytes_are, own_cells, cells_from, fdt_parent_cells, fdt_own_cell_counts,
  fdt_is_enabled,
}
use otos_coreinit.Fdt.Paths.{named_from, path_from, fdt_path_offset}
use otos_coreinit.Fdt.Ranges.{
  reserved_from, fdt_reserved_ranges, window_from, through_bus, to_cpu_from, fdt_reg_to_cpu_addr,
  fdt_reg_to_addr, entries_from, is_memory, bank_ranges, memory_from, fdt_memory_ranges,
}
use otos_coreinit.Fdt.Compatible.{
  entry_len, compatible_from, compatible_match, climb, pass_siblings, is_compatible,
  compatible_walk, fdt_next_node_by_compatible_offset, fdt_node_by_compatible_offset,
}
use otos_coreinit.Fdt.Ends.{Ends, Ensures}
use otos_coreinit.Fdt.Ends.Walks.{walks-End}
use otos_coreinit.Fdt.Family.{Below}
use otos_coreinit.Fdt.Steps.{
  Says, fdt_parent_offset-emit, fdt_next_sibling-emit, fdt_first_child-Below,
}

-- "#address-cells" at 0, "#size-cells" at 15, "reg" at 27, "status" at 31.
abbrev strings : List ℕ
strings =
    35 ∷ 97 ∷ 100 ∷ 100 ∷ 114 ∷ 101 ∷ 115 ∷ 115 ∷ 45 ∷ 99 ∷ 101 ∷ 108 ∷ 108 ∷ 115 ∷ 0 ∷ 35 ∷ 115
    ∷ 105 ∷ 122 ∷ 101 ∷ 45 ∷ 99 ∷ 101 ∷ 108 ∷ 108 ∷ 115 ∷ 0 ∷ 114 ∷ 101 ∷ 103 ∷ 0 ∷ 115 ∷ 116 ∷ 97
    ∷ 116 ∷ 117 ∷ 115 ∷ 0 ∷ []

abbrev one_cell : ℕ → Prop
one_cell nameoff = record { nameoff = nameoff; value = be32 1 }

-- A device called "d", which is off.
abbrev device : Node
device = node (100 ∷ []) (record { nameoff = 31; value = 110 ∷ 111 ∷ 0 ∷ [] } ∷ []) nil

abbrev bus : Node
bus = node (98 ∷ 117 ∷ 115 ∷ []) [] (cons device nil)

abbrev memory : Node
memory =
    node (109 ∷ 101 ∷ 109 ∷ 111 ∷ 114 ∷ 121 ∷ [])
      (record { nameoff = 27; value = be32 0x40000000 ++ be32 0x1000 } ∷ []) nil

abbrev root : Node
root = node [] (one_cell 0 ∷ one_cell 15 ∷ []) (cons bus (cons memory nil))

abbrev struct_size : ℕ
struct_size = 124

abbrev blob : List ℕ
blob =
    be32 0xd00dfeed
    ++ be32 (56 + struct_size + 38)
    ++ be32 56
    ++ be32 (56 + struct_size)
    ++ be32 40
    ++ be32 17
    ++ be32 16
    ++ be32 0
    ++ be32 38
    ++ be32 struct_size
    ++ (be32 0 ++ be32 0 ++ be32 0 ++ be32 0)
    ++ emit root
    ++ be32 9
    ++ strings

abbrev context : Ctx
context = record {
  s = 56;
  send = 56 + struct_size;
  str = 56 + struct_size;
  strend = 56 + struct_size + 38;
}

size_test : length (emit root) + 4 ≡ struct_size
unfolding emit emit_props emit_prop
size_test = refl

header_test : ctx_init blob ≡ found context
unfolding ctx_init rd_be32 byte_at emit emit_props emit_prop
header_test = refl

says : Says blob context root
unfolding emit IsNamed emit_props emit_prop
says = record {
  header = header_test;
  fits = record { inside = omega arith; small = omega arith };
  at = At-middle (take 56 blob) (emit root) (be32 9 ++ strings) 56 refl;
  named = (
    tt,
    ((
      (
        (λ e. omega (arith, e), (λ e. omega (arith, e), (λ e. omega (arith, e), tt))),
        (((λ e. omega (arith, e), tt), tt), tt),
      ),
      (
        (
          (
            λ e. omega (arith, e),
            (
              λ e. omega (arith, e),
              (
                λ e. omega (arith, e),
                (λ e. omega (arith, e), (λ e. omega (arith, e), (λ e. omega (arith, e), tt))),
              ),
            ),
          ),
          tt,
        ),
        tt,
      ),
    )),
  );
  inside = omega arith;
}

first_child_test : fdt_first_child blob 56 ≡ found 96
unfolding fdt_first_child ctx_init rd_be32 byte_at emit emit_props emit_prop child_from after_name
    node_name name_from ok
first_child_test = refl

status_test : fdt_is_enabled blob 104 ≡ found false
unfolding fdt_is_enabled fdt_getprop prop_from str_at str_eq bytes_are ctx_init rd_be32 byte_at emit
    emit_props emit_prop after_name node_name name_from ok
status_test = refl

path_test : fdt_path_offset blob (47 ∷ 98 ∷ 117 ∷ 115 ∷ 47 ∷ 100 ∷ []) ≡ found 104
unfolding fdt_path_offset path_from named_from fdt_first_child fdt_next_sibling fdt_parent_offset
    parent_from sibling_from skip_node skip_from child_from bytes_are ctx_init rd_be32 byte_at emit
    emit_props emit_prop after_name node_name name_from ok
path_test = refl

memory_test : fdt_memory_ranges blob 4 ≡ found (record { base = 0x40000000; size = 0x1000 } ∷ [])
unfolding fdt_memory_ranges memory_from bank_ranges is_memory entries_from fdt_parent_cells
    cells_from own_cells fdt_getprop prop_from str_at str_eq rd_cells fdt_first_child
    fdt_next_sibling fdt_parent_offset parent_from sibling_from skip_node skip_from child_from
    bytes_are ctx_init rd_be32 byte_at emit emit_props emit_prop after_name node_name name_from ok
memory_test = refl

address_test : fdt_reg_to_addr blob 136 ≡ found (record { base = 0x40000000; size = 0x1000 })
unfolding fdt_reg_to_cpu_addr to_cpu_from through_bus window_from fdt_parent_cells cells_from
    own_cells fdt_getprop prop_from str_at str_eq rd_cells fdt_parent_offset parent_from ctx_init
    rd_be32 byte_at emit emit_props emit_prop after_name node_name name_from ok
address_test = refl

reserved_test : fdt_reserved_ranges blob 4 ≡ found []
unfolding fdt_reserved_ranges reserved_from rd_be64 ctx_init rd_be32 byte_at emit emit_props
    emit_prop
reserved_test = refl

own_cells_test : fdt_own_cell_counts blob 56 ≡ found (some 1, some 1)
unfolding fdt_own_cell_counts own_cells fdt_getprop prop_from str_at str_eq ctx_init rd_be32 byte_at
    emit emit_props emit_prop after_name node_name name_from ok
own_cells_test = refl

valid_test : fdt_valid blob 1000 ≡ found context
unfolding fdt_valid ctx_init rd_be32 byte_at emit emit_props emit_prop
valid_test = refl

-- No node says what it is compatible with: the walk passes them all.
compatible_test : fdt_node_by_compatible_offset 8 blob (120 ∷ []) ≡ absent
unfolding fdt_next_node_by_compatible_offset compatible_walk climb pass_siblings is_compatible
    compatible_match compatible_from entry_len fdt_getprop prop_from str_at str_eq fdt_first_child
    fdt_next_sibling fdt_parent_offset parent_from sibling_from skip_node skip_from child_from
    ctx_init rd_be32 byte_at emit emit_props emit_prop after_name node_name name_from ok
compatible_test = refl

walks-End_example :
    Ensures (λ r. r < length blob) (fdt_first_child blob 3)
    × Ensures (λ r. (3 + 1 ≤ r) × (r < length blob)) (fdt_next_sibling blob (some 56) 3)
    × Ends (fdt_parent_offset blob 3)
    × Ends (fdt_getprop blob 3 (120 ∷ []))
walks-End_example = walks-End blob 3 (some 56) (120 ∷ [])

-- The bus is the first child of the root, the device the only child of the bus.
bus-Below : Below 1 root 56 bus 96
unfolding emit emit_props emit_prop
bus-Below = (bus, 96, cons memory nil, inl (refl, refl, refl), (refl, refl))

fdt_parent_offset-emit_example : fdt_parent_offset blob 104 ≡ found 96
unfolding emit emit_props emit_prop
fdt_parent_offset-emit_example =
    fdt_parent_offset-emit blob context root says 1 (98 ∷ 117 ∷ 115 ∷ []) [] (cons device nil) 96
      device 104 nil (omega arith) bus-Below (inl (refl, refl, refl))

fdt_next_sibling-emit_example : fdt_next_sibling blob (some 56) 96 ≡ found 136
unfolding emit emit_props emit_prop
fdt_next_sibling-emit_example =
    fdt_next_sibling-emit blob context root says 0 [] (one_cell 0 ∷ one_cell 15 ∷ [])
      (cons bus (cons memory nil)) 56 bus 96 (cons memory nil) (omega arith) (refl, refl)
      (inl (refl, refl, refl))

fdt_first_child-Below_example : fdt_first_child blob 96 ≡ found 104
unfolding emit emit_props emit_prop
fdt_first_child-Below_example =
    fdt_first_child-Below blob context root says 1 (98 ∷ 117 ∷ 115 ∷ []) [] (cons device nil) 96
      bus-Below
