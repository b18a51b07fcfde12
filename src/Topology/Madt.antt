-- ===== src/Topology/Madt.antt =====
-- coreinit/topology_aarch64.c: the machine that the ACPI tables describe.
use otos_coreinit.Base.{
  ℕ, zero, suc, ◌+◌, ◌%◌, List, [], ◌∷◌, ◌++◌, Option, none, some, ltb, leb, ◌==◌, not,
  if◌then◌else◌, ◌&&◌, ◌||◌, length,
}
use otos_coreinit.Topology.{
  Memory, byte, topology_max_cores, TopologyCore, Topology, no_topology, Wiring, irq_set_cpu_base,
  irq_set_redistributor_region, signal_set_gic_v2, affinity,
}
use otos_coreinit.Topology.Acpi.{
  acpi_sum, le_read, acpi_find, sdt_length, sdt_size, rsdp_revision, rsdp_length,
}

-- The local variables of topology_discover_acpi, with arch_opaque[1].
pub record Found : Type 0 where
  pub cores : List TopologyCore
  pub gicc_base : ℕ
  pub gicr_base : ℕ
  pub gicr_size : ℕ
  pub gic_version : ℕ
  pub distributor : ℕ

abbrev pub nothing_found : Found
nothing_found = record {
  cores = [];
  gicc_base = 0;
  gicr_base = 0;
  gicr_size = 0;
  gic_version = 0;
  distributor = 0;
}

-- A GICC entry at `p`.
unfoldable pub add_core : Memory → ℕ → Found → Found
add_core m p f =
    let en = le_read m (p + 12) 4 % 2 == 1 in
    record f {
      cores = f.cores ++ record { target = affinity (le_read m (p + 68) 8); enabled = en } ∷ [];
      gicc_base = if en && f.gicc_base == 0 then le_read m (p + 32) 8 else f.gicc_base;
    }

-- An entry of `len` bytes; none where there is no room for another core.
unfoldable pub on_entry : Memory → ℕ → ℕ → Found → Option Found
on_entry m p len f =
    if byte m p == 11 && leb 76 len
    then if leb topology_max_cores (length f.cores) then none else some (add_core m p f)
    else if byte m p == 12 && leb 16 len
    then some (record f {
      distributor = le_read m (p + 8) 8;
      gic_version = if leb 21 len then byte m (p + 20) else f.gic_version;
    })
    else if byte m p == 14 && leb 16 len
    then some (record f { gicr_base = le_read m (p + 4) 8; gicr_size = le_read m (p + 12) 4 })
    else some f

-- The entries from `p` to `end`; none where the fuel ends.
unfoldable pub entries_from : ℕ → Memory → ℕ → ℕ → Found → Option Found
entries_from zero m p end f = none
entries_from (suc fuel) m p end f =
    let len = byte m (p + 1) in
    if ltb end (p + 2)
    then some f
    else if ltb len 2 || ltb end (p + len)
    then some f
    else (elim (on_entry m p len f) [
      | none ↦ some f
      | some f' ↦ entries_from fuel m (p + len) end f'
    ])

-- What is wired before the rest: the interface of the interrupt controller.
abbrev pub controller : Found → List Wiring
controller f =
    if f.gic_version == 2 && not (f.gicc_base == 0)
    then irq_set_cpu_base f.gicc_base ∷ signal_set_gic_v2 ∷ []
    else if f.gic_version == 3 && (not (f.gicr_base == 0) && not (f.gicr_size == 0))
    then irq_set_redistributor_region f.gicr_base f.gicr_size ∷ []
    else []

-- The base of the PL011 that the SPCR names; 0 without one.
unfoldable pub spcr_uart : Memory → ℕ → ℕ
spcr_uart m rsdp = elim (acpi_find m rsdp (83 ∷ 80 ∷ 67 ∷ 82 ∷ [])) [
  | none ↦ 0
  | some spcr ↦
      if (leb 52 (sdt_length m spcr) && byte m (spcr + 36) == 3) && byte m (spcr + 40) == 0
      then le_read m (spcr + 44) 8
      else 0
]

unfoldable pub topology_discover_acpi : Memory → ℕ → Option (Topology × List Wiring)
topology_discover_acpi m rsdp =
    if leb 2 (rsdp_revision m rsdp) && not (acpi_sum m rsdp (rsdp_length m rsdp) == 0)
    then none
    else (elim (acpi_find m rsdp (65 ∷ 80 ∷ 73 ∷ 67 ∷ [])) [
      | none ↦ none
      | some madt ↦
          let len = sdt_length m madt in
          elim (entries_from (len + 1) m (madt + sdt_size + 8) (madt + len) nothing_found) [
            | none ↦ none
            | some f ↦ some (
              record no_topology {
                cores = f.cores;
                distributor = f.distributor;
                uart = spcr_uart m rsdp;
              },
              controller f,
            )
          ]
    ])
