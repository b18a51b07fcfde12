-- ===== src/Topology/DeviceTree.antt =====
-- coreinit/topology_aarch64.c: the machine that a device tree describes, and the choice between the
-- two descriptions.
use otos_coreinit.Base.{
  ℕ, zero, suc, ◌+◌, ◌*◌, ◌^◌, Bool, true, false, List, [], ◌∷◌, ◌++◌, Option, none, some, ltb, leb,
  ◌==◌, not, if◌then◌else◌, ◌||◌, length,
}
use otos_coreinit.Fdt.{
  Outcome, found, absent, stuck, ◌>>=◌, tried, rd_be32, rd_be64, byte_at, fdt_valid,
}
use otos_coreinit.Fdt.Nodes.{fdt_next_child}
use otos_coreinit.Fdt.Props.{fdt_getprop, fdt_cell_counts, bytes_are}
use otos_coreinit.Fdt.Paths.{fdt_path_offset}
use otos_coreinit.Fdt.Compatible.{fdt_node_by_compatible_offset}
use otos_coreinit.Fdt.Ranges.{fdt_reg_to_cpu_addr}
use otos_coreinit.Topology.{
  Memory, byte, topology_max_cores, TopologyCore, Topology, Wiring, irq_set_cpu_base,
  irq_set_redistributor_region, signal_set_gic_v2, topology_wire_backends,
}
use otos_coreinit.Topology.Acpi.{is_rsdp}
use otos_coreinit.Topology.Madt.{topology_discover_acpi}

abbrev okay : List ℕ
okay = 111 ∷ 107 ∷ []

-- A status property that is not there means enabled, as "ok" and "okay" do.
unfoldable pub node_enabled : List ℕ → ℕ → Outcome Bool
node_enabled b node_offset = do
  status ← tried (fdt_getprop b node_offset (115 ∷ 116 ∷ 97 ∷ 116 ∷ 117 ∷ 115 ∷ []))
  elim status [
    | none ↦ found true
    | some (st, len) ↦ if ltb len 3 then found false else do
      starts ← bytes_are b st okay
      if not starts then found false else do
        v ← byte_at b (st + 2)
        if v == 0
            then found true
            else if ltb len 5
            then found false
            else bytes_are b (st + 2) (97 ∷ 121 ∷ 0 ∷ [])
  ]

unfoldable pub read_reg_first_cell : List ℕ → ℕ → Outcome ℕ
read_reg_first_cell b node_offset = do
  (reg, len) ← fdt_getprop b node_offset (114 ∷ 101 ∷ 103 ∷ [])
  if len == 0 then absent else do
    counts ← tried (fdt_cell_counts b node_offset)
    let addr_cells : ℕ = elim counts [ none ↦ 2 | some c ↦ c.0 ]
    if addr_cells == 1 then rd_be32 b reg else if addr_cells == 2 then rd_be64 b reg else absent

-- The core that a child of /cpus stands for; none for a node that is skipped.
unfoldable pub core_at : List ℕ → ℕ → Outcome (Option TopologyCore)
core_at b child = do
  enabled ← node_enabled b child
  if not enabled then found none else do
    mpidr ← tried (read_reg_first_cell b child)
    found (elim mpidr [ none ↦ none | some v ↦ some (record { target = v; enabled = true }) ])

-- The loop over the children of /cpus, with the cores that were found so far.
unfoldable pub cores_from : ℕ → List ℕ → ℕ → ℕ → List TopologyCore → Outcome (List TopologyCore)
cores_from zero b cpus cursor cores = stuck
cores_from (suc fuel) b cpus cursor cores = do
  child ← fdt_next_child b cpus cursor
  elim (child == 0 || leb topology_max_cores (length cores)) [
    | true ↦ found cores
    | false ↦ do
      core ← core_at b child
      elim core [
        | none ↦ cores_from fuel b cpus child cores
        | some c ↦ cores_from fuel b cpus child (cores ++ c ∷ [])
      ]
  ]

-- "cdns,uart-r1p12", "xlnx,zynqmp-uart", "arm,pl011"
abbrev cadence_uart : List ℕ
cadence_uart = 99 ∷ 100 ∷ 110 ∷ 115 ∷ 44 ∷ 117 ∷ 97 ∷ 114 ∷ 116 ∷ 45 ∷ 114 ∷ 49 ∷ 112 ∷ 49 ∷ 50 ∷ []

abbrev zynqmp_uart : List ℕ
zynqmp_uart =
    120 ∷ 108 ∷ 110 ∷ 120 ∷ 44 ∷ 122 ∷ 121 ∷ 110 ∷ 113 ∷ 109 ∷ 112 ∷ 45 ∷ 117 ∷ 97 ∷ 114 ∷ 116 ∷ []

abbrev arm_pl011 : List ℕ
arm_pl011 = 97 ∷ 114 ∷ 109 ∷ 44 ∷ 112 ∷ 108 ∷ 48 ∷ 49 ∷ 49 ∷ []

-- The first of these compatible strings that some node has, and that node.
unfoldable pub first_compatible : ℕ → List ℕ → List (List ℕ × Bool) → Outcome (Option (ℕ × Bool))
first_compatible fuel b [] = found none
first_compatible fuel b ((name, mark) ∷ names) = do
  node ← tried (fdt_node_by_compatible_offset fuel b name)
  elim node [ some offset ↦ found (some (offset, mark)) | none ↦ first_compatible fuel b names ]

-- The base of the console, and whether it is a Cadence.
unfoldable pub find_uart : ℕ → List ℕ → Outcome (ℕ × Bool)
find_uart fuel b = do
  uart ←
      first_compatible fuel b ((cadence_uart, true) ∷ (zynqmp_uart, true) ∷ (arm_pl011, false) ∷ [])
  elim uart [
    | none ↦ found (0, false)
    | some (offset, cadence) ↦ do
      enabled ← node_enabled b offset
      range ← if enabled then tried (fdt_reg_to_cpu_addr b offset 0) else found none
      found (elim range [ none ↦ (0, false) | some r ↦ (r.base, cadence) ])
  ]

-- "arm,gic-v3", "arm,cortex-a15-gic", "arm,gic-400", "arm,gic"
abbrev gic_names : List (List ℕ × Bool)
gic_names =
    (97 ∷ 114 ∷ 109 ∷ 44 ∷ 103 ∷ 105 ∷ 99 ∷ 45 ∷ 118 ∷ 51 ∷ [], true)
    ∷ (
      97 ∷ 114 ∷ 109 ∷ 44 ∷ 99 ∷ 111 ∷ 114 ∷ 116 ∷ 101 ∷ 120 ∷ 45 ∷ 97 ∷ 49 ∷ 53 ∷ 45 ∷ 103 ∷ 105
          ∷ 99 ∷ [],
      false,
    )
    ∷ (97 ∷ 114 ∷ 109 ∷ 44 ∷ 103 ∷ 105 ∷ 99 ∷ 45 ∷ 52 ∷ 48 ∷ 48 ∷ [], false)
    ∷ (97 ∷ 114 ∷ 109 ∷ 44 ∷ 103 ∷ 105 ∷ 99 ∷ [], false)
    ∷ []

-- The distributor's base (0 for none), and the wiring of the interface of the interrupt controller.
unfoldable pub find_gic : ℕ → List ℕ → Outcome (ℕ × List Wiring)
find_gic fuel b = do
  gic ← first_compatible fuel b gic_names
  elim gic [
    | none ↦ found (0, [])
    | some (offset, v3) ↦ do
      enabled ← node_enabled b offset
      if not enabled then found (0, []) else do
        cpu ← tried (fdt_reg_to_cpu_addr b offset 1)
        distributor ← tried (fdt_reg_to_cpu_addr b offset 0)
        found (
          elim distributor [ none ↦ 0 | some d ↦ d.base ],
          elim cpu [
            | none ↦ []
            | some r ↦
                if v3
                then irq_set_redistributor_region r.base r.size ∷ []
                else irq_set_cpu_base r.base ∷ signal_set_gic_v2 ∷ []
          ],
        )
  ]

-- clock-frequency of /timer; 0 without one.
unfoldable pub find_timer : List ℕ → Outcome ℕ
find_timer b = do
  timer ← tried (fdt_path_offset b (47 ∷ 116 ∷ 105 ∷ 109 ∷ 101 ∷ 114 ∷ []))
  elim timer [
    | none ↦ found 0
    | some offset ↦ do
      freq ← tried (
          fdt_getprop b offset (
            99 ∷ 108 ∷ 111 ∷ 99 ∷ 107 ∷ 45 ∷ 102 ∷ 114 ∷ 101 ∷ 113 ∷ 117 ∷ 101 ∷ 110 ∷ 99 ∷ 121
            ∷ []))
      elim freq [ none ↦ found 0 | some (f, len) ↦ if ltb len 4 then found 0 else rd_be32 b f ]
  ]

-- The bytes of memory from an address on.
unfoldable pub bytes_from : Memory → ℕ → ℕ → List ℕ
bytes_from m a zero = []
bytes_from m a (suc n) = byte m a ∷ bytes_from m (a + 1) n

abbrev pub tree_size : Memory → ℕ → ℕ
tree_size m a =
    byte m (a + 4) * 2 ^ 24 + byte m (a + 5) * 2 ^ 16 + byte m (a + 6) * 2 ^ 8 + byte m (a + 7)

-- What the code returns at its end, the topology and what is wired, in order.
abbrev pub discovered : Topology → List Wiring → Bool × Topology × List Wiring
discovered t wirings = (not (length t.cores == 0), t, wirings)

-- From a device tree; `absent` where the code returns 0 before its end.
unfoldable pub discover_tree : ℕ → List ℕ → ℕ → ℕ → Outcome (Bool × Topology × List Wiring)
discover_tree fuel b hint blob_size = do
  ctx ← fdt_valid b blob_size
  cpus ← fdt_path_offset b (47 ∷ 99 ∷ 112 ∷ 117 ∷ 115 ∷ [])
  cores ← cores_from (length b + 1) b cpus 0 []
  (uart, cadence) ← find_uart fuel b
  (distributor, wirings) ← find_gic fuel b
  timer ← find_timer b
  let t : Topology = record {
    cores = cores;
    uart = uart;
    distributor = distributor;
    timer_frequency = timer;
    tree = hint;
  }
  found (discovered t (wirings ++ topology_wire_backends cadence t))

-- The fuel is that of the search by compatible strings.
unfoldable pub topology_discover : ℕ → Memory → ℕ → Outcome (Bool × Topology × List Wiring)
topology_discover fuel m arch_hint =
    if arch_hint == 0
    then absent
    else if is_rsdp m arch_hint
    then (elim (topology_discover_acpi m arch_hint) [
      | none ↦ absent
      | some (t, wirings) ↦ found (discovered t (wirings ++ topology_wire_backends false t))
    ])
    else (let size = tree_size m arch_hint in
        if ltb size 40 || ltb (16 * 1024 * 1024) size
        then absent
        else discover_tree fuel (bytes_from m arch_hint size) arch_hint size)
