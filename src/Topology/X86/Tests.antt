-- ===== src/Topology/X86/Tests.antt =====
-- coreinit/acpi_x86_64.c on a machine with two cores, the second one not enabled.
use otos_coreinit.Base.{
  ℕ, ◌≡◌, refl, true, false, List, [], ◌∷◌, ◌++◌, some, none, get_or, replicate,
}
use otos_coreinit.Fdt.{found}
use otos_coreinit.Topology.{Memory, no_topology}
use otos_coreinit.Topology.Acpi.{acpi_sum, acpi_sig, le_read, is_rsdp}
use otos_coreinit.Topology.X86.{
  validate_rsdp, scan_for_rsdp, table_in, find_table, cpus_from, find_madt, acpi_topology,
  topology_discover,
}

-- The RSDP at 16, the RSDT at 64 and the MADT at 128.
abbrev image : List ℕ
image =
    replicate 16 0
    ++ (82 ∷ 83 ∷ 68 ∷ 32 ∷ 80 ∷ 84 ∷ 82 ∷ 32 ∷ 161 ∷ replicate 7 0 ++ 64 ∷ replicate 3 0)
    ++ replicate 28 0
    ++ (82 ∷ 83 ∷ 68 ∷ 84 ∷ 40 ∷ 0 ∷ 0 ∷ 0 ∷ 1 ∷ 26 ∷ replicate 26 0 ++ 128 ∷ replicate 3 0)
    ++ replicate 24 0
    ++ (65 ∷ 80 ∷ 73 ∷ 67 ∷ 60 ∷ 0 ∷ 0 ∷ 0 ∷ 4 ∷ 178 ∷ replicate 26 0
        ++ 0 ∷ 0 ∷ 0xe0 ∷ 0xfe ∷ replicate 4 0)
    ++ (0 ∷ 8 ∷ 0 ∷ 0 ∷ 1 ∷ 0 ∷ 0 ∷ 0 ∷ 0 ∷ 8 ∷ 1 ∷ 1 ∷ 0 ∷ 0 ∷ 0 ∷ 0 ∷ [])

abbrev memory : Memory
memory a = get_or image a 0

discover_test :
    topology_discover memory 16
    ≡ found (record no_topology {
      cores = record { target = 0; enabled = true } ∷ record { target = 1; enabled = false } ∷ [];
      uart = 0xfee00000;
    })
unfolding topology_discover validate_rsdp is_rsdp acpi_sig acpi_sum find_madt find_table table_in
    le_read acpi_topology cpus_from
discover_test = refl

-- A scan from 0 on finds the RSDP in its second round.
scan_test : scan_for_rsdp 2 memory 0 ≡ some 16
unfolding scan_for_rsdp validate_rsdp is_rsdp acpi_sig acpi_sum
scan_test = refl

-- No RSDP in 16 bytes of the table of the RSDT.
scan_misses_test : scan_for_rsdp 1 memory 64 ≡ none
unfolding scan_for_rsdp validate_rsdp is_rsdp acpi_sig
scan_misses_test = refl
