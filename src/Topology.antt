-- ===== src/Topology.antt =====
-- coreinit/topology_aarch64.c: which cores and devices an arm64 machine has, from its ACPI tables or
-- its device tree. Memory is a function from physical addresses to bytes; addresses do not wrap.
mod Acpi
mod Madt
mod DeviceTree
mod X86
mod Entries
mod Bounds
mod Examples
use otos_coreinit.Base.{
  ℕ, zero, suc, ◌+◌, ◌*◌, ◌%◌, ◌^◌, Bool, true, false, List, [], ◌∷◌, ◌++◌, ◌-◌, ◌==◌, ◌&&◌, not,
  if◌then◌else◌,
}

abbrev pub Memory : Type 0
Memory = ℕ → ℕ

abbrev pub byte : Memory → ℕ → ℕ
byte m a = m a % 256

abbrev pub topology_max_cores : ℕ
topology_max_cores = 64

pub record TopologyCore : Type 0 where
  pub target : ℕ
  pub enabled : Bool

-- The cores that were found (their number is `count`), and arch_opaque[0 .. 3].
pub record Topology : Type 0 where
  pub cores : List TopologyCore
  pub uart : ℕ
  pub distributor : ℕ
  pub timer_frequency : ℕ
  pub tree : ℕ

abbrev pub no_topology : Topology
no_topology = record { cores = []; uart = 0; distributor = 0; timer_frequency = 0; tree = 0 }

-- The calls that hand an address to the driver that it belongs to.
pub data Wiring : Type 0 where
  serial_set_base serial_set_cadence_base irq_set_base irq_set_cpu_base signal_set_base : ℕ → Wiring
  irq_set_redistributor_region : ℕ → ℕ → Wiring
  signal_set_gic_v2 : Wiring

-- `mpidr & 0xFF00FFFFFF`: the affinity fields.
abbrev pub affinity : ℕ → ℕ
affinity v = v % 2 ^ 24 + (v % 2 ^ 40 - v % 2 ^ 32)

abbrev pub topology_self_id : ℕ → ℕ
topology_self_id mpidr = affinity mpidr

abbrev pub when {ℓ} : {A : Type ℓ} → Bool → List A → List A
when true xs = xs
when false xs = []

-- What is wired for what was found; a console is a PL011 unless it is said to be a Cadence.
pub topology_wire_backends : Bool → Topology → List Wiring
topology_wire_backends uart_is_cadence t =
    when (not (t.uart == 0))
      ((if uart_is_cadence then serial_set_cadence_base t.uart else serial_set_base t.uart) ∷ [])
    ++ when (not (t.distributor == 0))
        (irq_set_base t.distributor ∷ signal_set_base t.distributor ∷ [])
