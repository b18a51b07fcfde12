-- ===== src/Topology/Examples.antt =====
-- coreinit/topology_aarch64.c on a machine whose ACPI tables name two cores and a GICv2.
use otos_coreinit.Base.{
  ◌≤◌, arith, Bool, ◌==◌, ◌&&◌, ℕ, ◌+◌, ◌-◌, ◌≡◌, refl, true, false, List, [], ◌∷◌, ◌++◌, none,
  some, length, replicate, get_or,
}
use otos_coreinit.Fdt.{
  found, byte_at, rd_be32, rd_be64, rd_cells, ctx_init, str_at, str_eq, name_from, node_name,
  skip_from, skip_node, after_name, fdt_valid, ok,
}
use otos_coreinit.Fdt.Nodes.{
  child_from, fdt_first_child, parent_from, fdt_parent_offset, sibling_from, fdt_next_sibling,
  fdt_next_child,
}
use otos_coreinit.Fdt.Props.{
  prop_from, fdt_getprop, bytes_are, own_cells, cells_from, fdt_parent_cells,
}
use otos_coreinit.Fdt.Paths.{named_from, path_from, fdt_path_offset}
use otos_coreinit.Fdt.Compatible.{
  fdt_next_node_by_compatible_offset, compatible_walk, climb, pass_siblings, is_compatible,
  compatible_match, compatible_from, entry_len,
}
use otos_coreinit.Fdt.Ranges.{fdt_reg_to_cpu_addr, to_cpu_from, through_bus, window_from}
use otos_coreinit.Topology.{
  topology_max_cores, byte, Memory, Topology, serial_set_base, irq_set_base, irq_set_cpu_base,
  signal_set_base, signal_set_gic_v2, topology_wire_backends,
}
use otos_coreinit.Topology.Acpi.{
  acpi_sum, acpi_sig, le_read, is_rsdp, table_from, acpi_find, topology_aarch64_psci_method,
}
use otos_coreinit.Topology.Madt.{
  nothing_found, add_core, on_entry, entries_from, spcr_uart, topology_discover_acpi,
}
use otos_coreinit.Fdt.Layout.{Prop, Node, node, nil, cons, be32, emit, emit_props, emit_prop}
use otos_coreinit.Topology.DeviceTree.{
  topology_discover, bytes_from, discover_tree, cores_from, core_at, node_enabled,
  read_reg_first_cell, find_uart, find_gic, find_timer, first_compatible,
}
use otos_coreinit.Fdt.Ends.{Ensures}
use otos_coreinit.Topology.X86
use otos_coreinit.Topology.Bounds.{IfFound, Discovered, discover-Discovered}
use otos_coreinit.Topology.Entries.{
  Stored, Entry, gicc, gicd, emit_entries, learn_all, entries_from-emit,
}

-- The tables as memory holds them: the RSDP at 16, the RSDT at 64 and the MADT at 128.
abbrev rsdp : List ℕ
rsdp = 82 ∷ 83 ∷ 68 ∷ 32 ∷ 80 ∷ 84 ∷ 82 ∷ 32 ∷ 161 ∷ replicate 7 0 ++ 64 ∷ replicate 3 0

abbrev rsdt : List ℕ
rsdt = 82 ∷ 83 ∷ 68 ∷ 84 ∷ 40 ∷ 0 ∷ 0 ∷ 0 ∷ 1 ∷ 26 ∷ replicate 26 0 ++ 128 ∷ replicate 3 0

-- A core of this number: its interface is at 0x8010000.
abbrev gicc_bytes : ℕ → ℕ → List ℕ
gicc_bytes enabled mpidr =
    11 ∷ 80 ∷ replicate 10 0
    ++ enabled ∷ replicate 19 0
    ++ 0 ∷ 0 ∷ 1 ∷ 8 ∷ replicate 32 0
    ++ mpidr ∷ replicate 11 0

abbrev gicd_bytes : List ℕ
gicd_bytes = 12 ∷ 24 ∷ replicate 6 0 ++ 0 ∷ 0 ∷ 0 ∷ 8 ∷ replicate 8 0 ++ 2 ∷ replicate 3 0

abbrev madt : List ℕ
madt =
    65 ∷ 80 ∷ 73 ∷ 67 ∷ 228 ∷ 0 ∷ 0 ∷ 0 ∷ 4 ∷ 3 ∷ replicate 34 0
    ++ gicc_bytes 1 0
    ++ gicc_bytes 0 1
    ++ gicd_bytes

abbrev image : List ℕ
image = replicate 16 0 ++ rsdp ++ replicate 28 0 ++ rsdt ++ replicate 24 0 ++ madt

abbrev memory : Memory
memory a = get_or image a 0

-- Two cores, the second one not enabled, and a controller of version 2.
abbrev machine : Topology
machine = record {
  cores = record { target = 0; enabled = true } ∷ record { target = 1; enabled = false } ∷ [];
  uart = 0;
  distributor = 0x8000000;
  timer_frequency = 0;
  tree = 0;
}

discover_test :
    topology_discover 0 memory 16
    ≡ found (
      true,
      machine,
      irq_set_cpu_base 0x8010000
          ∷ signal_set_gic_v2
          ∷ irq_set_base 0x8000000
          ∷ signal_set_base 0x8000000
          ∷ [],
    )
unfolding topology_discover is_rsdp acpi_sig acpi_sum topology_discover_acpi acpi_find table_from
    le_read entries_from on_entry add_core spcr_uart topology_wire_backends
discover_test = refl

-- The RSDP of ACPI 1.0 leads to no PSCI.
psci_test : topology_aarch64_psci_method memory 16 ≡ none
unfolding topology_aarch64_psci_method is_rsdp acpi_sig acpi_sum le_read
psci_test = refl

discover-Discovered_example :
    IfFound Discovered (topology_discover 0 memory 16)
    × Ensures (λ t. length t.cores ≤ topology_max_cores) (X86.topology_discover memory 16)
discover-Discovered_example = discover-Discovered 0 memory 16

stored : Memory → ℕ → List ℕ → Bool
stored m p [] = true
stored m p (x ∷ xs) = byte m p == x && stored m (p + 1) xs

stored-Stored : (m : Memory) (p : ℕ) (xs : List ℕ) → stored m p xs ≡ true → Stored m p xs
unfolding stored
stored-Stored m p [] h = tt
stored-Stored m p (x ∷ xs) h = (ground (arith, h), stored-Stored m (p + 1) xs (ground (arith, h)))

abbrev entries : List Entry
entries = gicc true 0 0x8010000 ∷ gicc false 1 0x8010000 ∷ gicd 0x8000000 2 ∷ []

entries_from-emit_example :
    entries_from 185 memory 172 356 nothing_found ≡ some (learn_all nothing_found entries)
unfolding stored
entries_from-emit_example =
    entries_from-emit entries 185 memory 172 356 nothing_found
      ((refl, refl), ((refl, refl), (refl, tt))) (omega arith)
      (stored-Stored memory 172 (emit_entries entries) refl) refl (omega arith)

-- A device tree at 0x1000: /cpus with one core of number 3, a PL011 called "u", and /timer.
abbrev strings : List ℕ
strings =
    35 ∷ 97 ∷ 100 ∷ 100 ∷ 114 ∷ 101 ∷ 115 ∷ 115 ∷ 45 ∷ 99 ∷ 101 ∷ 108 ∷ 108 ∷ 115 ∷ 0 ∷ 35 ∷ 115
    ∷ 105 ∷ 122 ∷ 101 ∷ 45 ∷ 99 ∷ 101 ∷ 108 ∷ 108 ∷ 115 ∷ 0 ∷ 114 ∷ 101 ∷ 103 ∷ 0 ∷ 99 ∷ 111 ∷ 109
    ∷ 112 ∷ 97 ∷ 116 ∷ 105 ∷ 98 ∷ 108 ∷ 101 ∷ 0 ∷ 99 ∷ 108 ∷ 111 ∷ 99 ∷ 107 ∷ 45 ∷ 102 ∷ 114 ∷ 101
    ∷ 113 ∷ 117 ∷ 101 ∷ 110 ∷ 99 ∷ 121 ∷ 0 ∷ []

abbrev cell : ℕ → ℕ → Prop
cell nameoff v = record { nameoff = nameoff; value = be32 v }

abbrev cpus : Node
cpus =
    node (99 ∷ 112 ∷ 117 ∷ 115 ∷ []) (cell 0 1 ∷ cell 15 0 ∷ [])
      (cons (node (99 ∷ []) (cell 27 3 ∷ []) nil) nil)

abbrev uart : Node
uart =
    node (117 ∷ [])
      (record { nameoff = 31; value = 97 ∷ 114 ∷ 109 ∷ 44 ∷ 112 ∷ 108 ∷ 48 ∷ 49 ∷ 49 ∷ 0 ∷ [] }
        ∷ record { nameoff = 27; value = be32 0x9000000 ++ be32 0x1000 }
        ∷ [])
      nil

abbrev timer : Node
timer = node (116 ∷ 105 ∷ 109 ∷ 101 ∷ 114 ∷ []) (cell 42 1000 ∷ []) nil

abbrev root : Node
root = node [] (cell 0 1 ∷ cell 15 1 ∷ []) (cons cpus (cons uart (cons timer nil)))

abbrev tree : List ℕ
tree =
    let struct = emit root ++ be32 9 in
    be32 0xd00dfeed
    ++ be32 (56 + length struct + 58)
    ++ be32 56
    ++ be32 (56 + length struct)
    ++ be32 40
    ++ be32 17
    ++ be32 16
    ++ be32 0
    ++ be32 58
    ++ be32 (length struct)
    ++ (be32 0 ++ be32 0 ++ be32 0 ++ be32 0)
    ++ struct
    ++ strings

abbrev tree_memory : Memory
tree_memory a = get_or tree (a - 0x1000) 0

tree_test :
    topology_discover 20 tree_memory 0x1000
    ≡ found (
      true,
      record {
        cores = record { target = 3; enabled = true } ∷ [];
        uart = 0x9000000;
        distributor = 0;
        timer_frequency = 1000;
        tree = 0x1000;
      },
      serial_set_base 0x9000000 ∷ [],
    )
unfolding topology_discover is_rsdp acpi_sig acpi_sum emit emit_props emit_prop bytes_from
    discover_tree cores_from core_at node_enabled read_reg_first_cell find_uart find_gic find_timer
    first_compatible topology_wire_backends byte_at rd_be32 rd_be64 rd_cells ctx_init str_at str_eq
    name_from node_name skip_from skip_node after_name fdt_valid ok child_from fdt_first_child
    parent_from fdt_parent_offset sibling_from fdt_next_sibling fdt_next_child prop_from fdt_getprop
    bytes_are own_cells cells_from fdt_parent_cells named_from path_from fdt_path_offset
    fdt_next_node_by_compatible_offset compatible_walk climb pass_siblings is_compatible
    compatible_match compatible_from entry_len fdt_reg_to_cpu_addr to_cpu_from through_bus
    window_from
tree_test = refl
