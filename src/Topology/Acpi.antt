-- ===== src/Topology/Acpi.antt =====
-- coreinit/topology_aarch64.c: finding an ACPI table.
use otos_coreinit.Base.{
  ℕ, zero, suc, ◌+◌, ◌-◌, ◌*◌, ◌/◌, ◌%◌, Bool, true, false, List, [], ◌∷◌, Option, none, some, ltb,
  leb, ◌==◌, not, if◌then◌else◌, ◌&&◌, ◌||◌,
}
use otos_coreinit.Topology.{Memory, byte}

unfoldable pub acpi_sum : Memory → ℕ → ℕ → ℕ
acpi_sum m p zero = 0
acpi_sum m p (suc len) = (byte m p + acpi_sum m (p + 1) len) % 256

unfoldable pub acpi_sig : Memory → ℕ → List ℕ → Bool
acpi_sig m p [] = true
acpi_sig m p (x ∷ xs) = byte m p == x && acpi_sig m (p + 1) xs

unfoldable pub le_read : Memory → ℕ → ℕ → ℕ
le_read m p zero = 0
le_read m p (suc n) = byte m p + 256 * le_read m (p + 1) n

-- "RSD PTR "
unfoldable pub is_rsdp : Memory → ℕ → Bool
is_rsdp m addr =
    acpi_sig m addr (82 ∷ 83 ∷ 68 ∷ 32 ∷ 80 ∷ 84 ∷ 82 ∷ 32 ∷ []) && acpi_sum m addr 20 == 0

-- The fields of acpi_rsdp_t and acpi_sdt_t that are read.
abbrev pub rsdp_revision : Memory → ℕ → ℕ
rsdp_revision m rsdp = byte m (rsdp + 15)

abbrev pub rsdp_length : Memory → ℕ → ℕ
rsdp_length m rsdp = le_read m (rsdp + 20) 4

abbrev pub sdt_length : Memory → ℕ → ℕ
sdt_length m t = le_read m (t + 4) 4

abbrev pub sdt_size : ℕ
sdt_size = 36

-- The first of the tables that the entries from `e` on name, with this signature and a right checksum.
unfoldable pub table_from : ℕ → Memory → ℕ → ℕ → List ℕ → Option ℕ
table_from zero m e esz sig = none
table_from (suc more) m e esz sig =
    let t = le_read m e esz in
    elim ((not (t == 0) && acpi_sig m t sig) && acpi_sum m t (sdt_length m t) == 0) [
      | true ↦ some t
      | false ↦ table_from more m (e + esz) esz sig
    ]

-- The XSDT or the RSDT, whichever the RSDP leads to.
abbrev pub is_wide : Memory → ℕ → Bool
is_wide m rsdp = leb 2 (rsdp_revision m rsdp) && not (le_read m (rsdp + 24) 8 == 0)

unfoldable pub acpi_find : Memory → ℕ → List ℕ → Option ℕ
acpi_find m rsdp sig =
    let wide = is_wide m rsdp in
    let root = if wide then le_read m (rsdp + 24) 8 else le_read m (rsdp + 16) 4 in
    let esz = if wide then 8 else 4 in
    let len = sdt_length m root in
    if (not (acpi_sig m root (if wide then 88 ∷ 83 ∷ 68 ∷ 84 ∷ [] else 82 ∷ 83 ∷ 68 ∷ 84 ∷ []))
        || ltb len sdt_size)
      || not (acpi_sum m root len == 0)
    then none
    else table_from ((len - sdt_size) / esz) m (root + sdt_size) esz sig

-- Whether PSCI is called by HVC; none where it is not to be had.
unfoldable pub topology_aarch64_psci_method : Memory → ℕ → Option Bool
topology_aarch64_psci_method m rsdp =
    let len = rsdp_length m rsdp in
    if rsdp == 0 || not (is_rsdp m rsdp)
    then none
    else if (ltb (rsdp_revision m rsdp) 2 || ltb len 36)
        || (ltb 4096 len || not (acpi_sum m rsdp len == 0))
    then none
    else (elim (acpi_find m rsdp (70 ∷ 65 ∷ 67 ∷ 80 ∷ [])) [
      | none ↦ none
      | some fadt ↦
          let flags = le_read m (fadt + 129) 2 in
          if (ltb (byte m (fadt + 8)) 5 || ltb (sdt_length m fadt) 131) || flags % 2 == 0
          then none
          else some ((flags / 2) % 2 == 1)
    ])
