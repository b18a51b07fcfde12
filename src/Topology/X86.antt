-- ===== src/Topology/X86.antt =====
-- coreinit/acpi_x86_64.c: the cores of an x86-64 machine, from its ACPI tables. A field that is read
-- through a pointer is read by le_read, since both ports are little-endian.
mod Tests
use otos_coreinit.Base.{
  ℕ, zero, suc, ◌+◌, ◌-◌, ◌*◌, ◌/◌, ◌%◌, ◌^◌, Bool, true, false, List, [], ◌∷◌, ◌++◌, Option, none,
  some, ltb, leb, ◌==◌, not, if◌then◌else◌, ◌&&◌, ◌||◌, length,
}
use otos_coreinit.Fdt.{Outcome, found, absent, stuck, ◌>>=◌}
use otos_coreinit.Topology.{Memory, byte, TopologyCore, Topology, no_topology}
use otos_coreinit.Topology.Acpi.{
  acpi_sum, acpi_sig, le_read, is_rsdp, rsdp_revision, rsdp_length, sdt_length, sdt_size, is_wide,
}

abbrev pub acpi_max_cpus : ℕ
acpi_max_cpus = 64

pub validate_rsdp : Memory → ℕ → Bool
validate_rsdp m addr =
    is_rsdp m addr && (ltb (rsdp_revision m addr) 2 || acpi_sum m addr (rsdp_length m addr) == 0)

-- The addresses from `addr` on, 16 bytes apart, as many as are told.
pub scan_for_rsdp : ℕ → Memory → ℕ → Option ℕ
scan_for_rsdp zero m addr = none
scan_for_rsdp (suc more) m addr = elim (validate_rsdp m addr) [
  | true ↦ some addr
  | false ↦ scan_for_rsdp more m (addr + 16)
]

-- The first 1024 bytes of the EBDA, and then 0xE0000 up to 0x100000.
abbrev pub find_rsdp : Memory → Option ℕ
find_rsdp m =
    let ebda = le_read m 0x40e 2 * 16 in
    elim (if ebda == 0 then none else scan_for_rsdp 64 m ebda) [
      | some addr ↦ some addr
      | none ↦ scan_for_rsdp 8192 m 0xe0000
    ]

pub table_in : ℕ → Memory → ℕ → ℕ → List ℕ → Option ℕ
table_in zero m e esz signature = none
table_in (suc more) m e esz signature =
    let t = le_read m e esz in
    elim (acpi_sig m t signature && acpi_sum m t (sdt_length m t) == 0) [
      | true ↦ some t
      | false ↦ table_in more m (e + esz) esz signature
    ]

-- `(uint32_t)((length - sizeof(sdt_header_t)) / esz)`, which wraps below the header's size.
abbrev pub entry_count : ℕ → ℕ → ℕ
entry_count len esz = ((len + 2 ^ 64 - sdt_size) % 2 ^ 64 / esz) % 2 ^ 32

-- find_table_rsdt and find_table_xsdt: the same but for the signature and the size of an entry.
pub find_table : List ℕ → ℕ → Memory → ℕ → List ℕ → Option ℕ
find_table root_signature esz m root signature =
    let len = sdt_length m root in
    if not (acpi_sig m root root_signature) || not (acpi_sum m root len == 0)
    then none
    else table_in (entry_count len esz) m (root + sdt_size) esz signature

abbrev pub find_table_rsdt : Memory → ℕ → List ℕ → Option ℕ
find_table_rsdt = find_table (82 ∷ 83 ∷ 68 ∷ 84 ∷ []) 4

abbrev pub find_table_xsdt : Memory → ℕ → List ℕ → Option ℕ
find_table_xsdt = find_table (88 ∷ 83 ∷ 68 ∷ 84 ∷ []) 8

-- The cores with a local APIC entry at `p`.
abbrev pub lapic_entry : Memory → ℕ → List TopologyCore → List TopologyCore
lapic_entry m p cpus =
    if byte m p == 0 && leb 8 (byte m (p + 1))
    then cpus ++ record { target = byte m (p + 3); enabled = le_read m (p + 4) 4 % 2 == 1 } ∷ []
    else cpus

-- The entries from `p` to `end`, while there is room for another core.
unfoldable pub cpus_from : ℕ → Memory → ℕ → ℕ → List TopologyCore → Outcome (List TopologyCore)
cpus_from zero m p end cpus = stuck
cpus_from (suc fuel) m p end cpus = elim (leb end p || leb acpi_max_cpus (length cpus)) [
  | true ↦ found cpus
  | false ↦ elim (ltb (byte m (p + 1)) 2) [
    | true ↦ found cpus
    | false ↦ cpus_from fuel m (p + byte m (p + 1)) end (lapic_entry m p cpus)
  ]
]

abbrev apic : List ℕ
apic = 65 ∷ 80 ∷ 73 ∷ 67 ∷ []

pub find_madt : Memory → ℕ → Option ℕ
find_madt m rsdp =
    elim (if is_wide m rsdp then find_table_xsdt m (le_read m (rsdp + 24) 8) apic else none) [
      | some madt ↦ some madt
      | none ↦ find_table_rsdt m (le_read m (rsdp + 16) 4) apic
    ]

-- local_apic_address and the cores, and the topology that they make (arch_opaque[0] has the slot `uart`).
unfoldable pub acpi_topology : Memory → ℕ → Outcome Topology
acpi_topology m madt =
    let len = sdt_length m madt in
    cpus_from (len + 1) m (madt + sdt_size + 8) (madt + len) [] >>= λ cpus.
    found (record no_topology { cores = cpus; uart = le_read m (madt + sdt_size) 4 })

-- `absent` where the code returns 0; it returns 1 otherwise, even without a core.
unfoldable pub topology_discover : Memory → ℕ → Outcome Topology
topology_discover m arch_hint =
    let rsdp =
      if arch_hint == 0
      then find_rsdp m
      else if validate_rsdp m arch_hint
      then some arch_hint
      else none in
    elim rsdp [
      | none ↦ absent
      | some r ↦ elim (find_madt m r) [ none ↦ absent | some madt ↦ acpi_topology m madt ]
    ]
