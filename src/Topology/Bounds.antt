-- ===== src/Topology/Bounds.antt =====
-- coreinit/topology_aarch64.c: the array of cores is never written past its end.
use otos_coreinit.Base.{
  ℕ, zero, suc, ◌+◌, ◌*◌, ◌≤◌, ◌<◌, ◌≡◌, refl, subst, Bool, true, false, List, [], ◌∷◌, ◌++◌,
  Option, none, some, ltb, leb, ◌==◌, not, if◌then◌else◌, ◌&&◌, ◌||◌, length, length-append, arith,
  inl, inr, Bool-cases, Option-cases,
}
use otos_coreinit.Fdt.{Outcome, found, absent, wild, stuck, ◌>>=◌, fdt_valid}
use otos_coreinit.Fdt.Nodes.{fdt_next_child}
use otos_coreinit.Fdt.Paths.{fdt_path_offset}
use otos_coreinit.Topology.{Memory, byte, topology_max_cores, TopologyCore, Topology, Wiring}
use otos_coreinit.Topology.Acpi.{
  is_rsdp, acpi_find, sdt_length, sdt_size, acpi_sum, rsdp_revision, rsdp_length,
}
use otos_coreinit.Topology.Madt.{
  Found, nothing_found, add_core, on_entry, entries_from, topology_discover_acpi,
}
use otos_coreinit.Fdt.Ends.{Ensures, bind-Ends, found-Ensures}
use otos_coreinit.Topology.X86
use otos_coreinit.Topology.X86.{
  cpus_from, acpi_max_cpus, lapic_entry, acpi_topology, find_madt, find_rsdp, validate_rsdp,
}
use otos_coreinit.Topology.DeviceTree.{
  core_at, cores_from, find_uart, find_gic, find_timer, discover_tree, topology_discover, tree_size,
  bytes_from,
}

abbrev Capped : Found → Type 0
Capped f = length f.cores ≤ topology_max_cores

-- Where there is a result it has no more than 64 cores; `Done` also says that there is one.
abbrev IfSome : Option Found → Type 0
IfSome none = Unit
IfSome (some f) = Capped f

abbrev Done : Option Found → Type 0
Done none = ⊥
Done (some f) = Capped f

if-lem {ℓ κ} :
    {A : Type ℓ} (P : A → Type κ) (t : Bool) (x y : A)
    → (t ≡ true → P x)
    → (t ≡ false → P y)
    → P (if t then x else y)
if-lem P true x y h k = h refl
if-lem P false x y h k = k refl

snoc-le :
    (cores : List TopologyCore) (c : TopologyCore)
    → length cores < topology_max_cores
    → length (cores ++ c ∷ []) ≤ topology_max_cores
snoc-le cores c below = omega (arith, length-append cores (c ∷ []), below)

-- An entry adds a core only where there is room.
on_entry-Capped : (m : Memory) (p len : ℕ) (f : Found) → Capped f → IfSome (on_entry m p len f)
unfolding on_entry add_core
on_entry-Capped m p len f room =
    if-lem IfSome (byte m p == 11 && leb 76 len) _ _
      (λ core.
        if-lem IfSome (leb topology_max_cores (length f.cores)) none _ (λ full. tt)
          (λ free. snoc-le f.cores _ (ground (arith, free))))
      (λ other.
        if-lem IfSome (byte m p == 12 && leb 16 len) _ _ (λ d. room)
          (λ other2. if-lem IfSome (byte m p == 14 && leb 16 len) _ _ (λ r. room) (λ other3. room)))

entries_from-Done :
    (fuel : ℕ) (m : Memory) (p end : ℕ) (f : Found)
    → 1 ≤ fuel
    → end < p + fuel
    → Capped f
    → Done (entries_from fuel m p end f)
unfolding entries_from
entries_from-Done zero m p end f some_fuel enough room = elim some_fuel [ ]
entries_from-Done (suc fuel) m p end f some_fuel enough room =
    if-lem Done (ltb end (p + 2)) (some f) _ (λ over. room)
      (λ inside.
        if-lem Done (ltb (byte m (p + 1)) 2 || ltb end (p + byte m (p + 1))) (some f) _
          (λ bad. room)
          (λ good. elim (Option-cases (on_entry m p (byte m (p + 1)) f)) [
            | inl full ↦ rw full room
            | inr (f', e) ↦ rw (e) (
                entries_from-Done fuel m (p + byte m (p + 1)) end f'
                  (ground (arith, inside, good, enough)) (ground (arith, inside, good, enough))
                  (subst IfSome e (on_entry-Capped m p (byte m (p + 1)) f room)))
          ]))

-- What holds of the value of a call, if it comes to one.
abbrev pub IfFound {ℓ κ} : {A : Type ℓ} → (A → Type κ) → Outcome A → Type κ
IfFound P (found a) = P a
IfFound P absent = Unit
IfFound P wild = Unit
IfFound P stuck = Unit

bind-IfFound {ℓ κ μ} :
    {A : Type ℓ} {B : Type κ} (P : B → Type μ) (r : Outcome A) (k : A → Outcome B)
    → ((a : A) → r ≡ found a → IfFound P (k a))
    → IfFound P (r >>= k)
bind-IfFound P (found a) k h = h a refl
bind-IfFound P absent k h = tt
bind-IfFound P wild k h = tt
bind-IfFound P stuck k h = tt

abbrev FewCores : List TopologyCore → Type 0
FewCores cores = length cores ≤ topology_max_cores

cores_from-Few :
    (fuel : ℕ) (b : List ℕ) (cpus cursor : ℕ) (cores : List TopologyCore)
    → FewCores cores
    → IfFound FewCores (cores_from fuel b cpus cursor cores)
unfolding cores_from
cores_from-Few zero b cpus cursor cores few = tt
cores_from-Few (suc fuel) b cpus cursor cores few =
    bind-IfFound FewCores (fdt_next_child b cpus cursor) _ (λ child e.
      elim (Bool-cases (child == 0 || leb topology_max_cores (length cores))) [
        | inl last ↦ rw last few
        | inr more ↦ rw more (
            bind-IfFound FewCores (core_at b child) _ (λ core e2. elim (Option-cases core) [
              | inl n ↦ rw n (cores_from-Few fuel b cpus child cores few)
              | inr (c, e3) ↦ rw e3 (
                  cores_from-Few fuel b cpus child (cores ++ c ∷ [])
                    (snoc-le cores c (ground (arith, more))))
            ]))
      ])

abbrev AcpiFew : Option (Topology × List Wiring) → Type 0
AcpiFew none = Unit
AcpiFew (some (t, w)) = FewCores t.cores

discover_acpi-Few : (m : Memory) (rsdp : ℕ) → AcpiFew (topology_discover_acpi m rsdp)
unfolding topology_discover_acpi
discover_acpi-Few m rsdp =
    if-lem AcpiFew (leb 2 (rsdp_revision m rsdp) && not (acpi_sum m rsdp (rsdp_length m rsdp) == 0))
      none _ (λ bad. tt)
      (λ good. elim (Option-cases (acpi_find m rsdp (65 ∷ 80 ∷ 73 ∷ 67 ∷ []))) [
        | inl n ↦ rw n tt
        | inr (madt, e) ↦
            let len = sdt_length m madt in
            let walk = entries_from (len + 1) m (madt + sdt_size + 8) (madt + len) nothing_found in
            rw (e) (elim (Option-cases walk) [
              | inl n ↦ rw n tt
              | inr (f, e2) ↦ rw e2 (
                  subst Done e2 (
                    entries_from-Done (len + 1) m (madt + sdt_size + 8) (madt + len) nothing_found
                      (omega arith) (omega arith) (omega arith)))
            ])
      ])

-- What is discovered: at most 64 cores, and the value 1 exactly if there is one.
abbrev pub Discovered : Bool × Topology × List Wiring → Type 0
Discovered (ok, t, w) = (length t.cores ≤ topology_max_cores) × (ok ≡ not (length t.cores == 0))

discover_tree-Few :
    (fuel : ℕ) (b : List ℕ) (hint size : ℕ) → IfFound Discovered (discover_tree fuel b hint size)
unfolding discover_tree
discover_tree-Few fuel b hint size = bind-IfFound Discovered (fdt_valid b size) _ λ ctx e1.
    bind-IfFound Discovered (fdt_path_offset b (47 ∷ 99 ∷ 112 ∷ 117 ∷ 115 ∷ [])) _ λ cpus e2.
      bind-IfFound Discovered (cores_from (length b + 1) b cpus 0 []) _ λ cores e3.
        bind-IfFound Discovered (find_uart fuel b) _ λ uart e4.
          bind-IfFound Discovered (find_gic fuel b) _ λ gic e5.
            bind-IfFound Discovered (find_timer b) _ λ timer e6. (
              subst (IfFound FewCores) e3 (cores_from-Few (length b + 1) b cpus 0 [] (omega arith)),
              refl,
            )

aarch64-Discovered :
    (fuel : ℕ) (m : Memory) (arch_hint : ℕ)
    → IfFound Discovered (topology_discover fuel m arch_hint)
unfolding topology_discover
aarch64-Discovered fuel m arch_hint =
    let size = tree_size m arch_hint in
    if-lem (IfFound Discovered) (arch_hint == 0) absent _ (λ zero_hint. tt)
      (λ some_hint.
        if-lem (IfFound Discovered) (is_rsdp m arch_hint) _ _
          (λ acpi. elim (Option-cases (topology_discover_acpi m arch_hint)) [
            | inl n ↦ rw n tt
            | inr ((t, w), e) ↦ rw (e) (subst AcpiFew e (discover_acpi-Few m arch_hint), refl)
          ])
          (λ tree.
            if-lem (IfFound Discovered) (ltb size 40 || ltb (16 * 1024 * 1024) size) absent _
              (λ refused. tt)
              (λ fits. discover_tree-Few fuel (bytes_from m arch_hint size) arch_hint size)))

cpus_from-Few :
    (fuel : ℕ) (m : Memory) (p end : ℕ) (cpus : List TopologyCore)
    → 1 ≤ fuel
    → end < p + fuel
    → FewCores cpus
    → Ensures FewCores (cpus_from fuel m p end cpus)
unfolding cpus_from
cpus_from-Few zero m p end cpus some_fuel enough few = elim some_fuel [ ]
cpus_from-Few (suc fuel) m p end cpus some_fuel enough few =
    elim (Bool-cases (leb end p || leb acpi_max_cpus (length cpus))) [
      | inl last ↦ rw (last, cpus_from) few
      | inr more ↦
          rw (more, cpus_from)
            (elim (Bool-cases (ltb (byte m (p + 1)) 2)) [
              | inl bad ↦ rw bad few
              | inr good ↦ rw good (
                  cpus_from-Few fuel m (p + byte m (p + 1)) end (lapic_entry m p cpus)
                    (ground (arith, more, enough)) (ground (arith, good, enough))
                    (if-lem FewCores (byte m p == 0 && leb 8 (byte m (p + 1))) (cpus ++ _ ∷ []) cpus
                      (λ entry. snoc-le cpus _ (ground (arith, more))) (λ none_here. few)))
            ])
    ]

x86-Few :
    (m : Memory) (arch_hint : ℕ)
    → Ensures (λ t. length t.cores ≤ topology_max_cores) (X86.topology_discover m arch_hint)
unfolding X86.topology_discover acpi_topology
x86-Few m arch_hint =
    let rsdp : Option ℕ =
      if arch_hint == 0
      then find_rsdp m
      else if validate_rsdp m arch_hint
      then some arch_hint
      else none in
    elim (Option-cases rsdp) [
      | inl n ↦ rw (n, X86.topology_discover) tt
      | inr (r, e) ↦
          rw (e, X86.topology_discover)
            (elim (Option-cases (find_madt m r)) [
              | inl n ↦ rw n tt
              | inr (madt, e2) ↦
                  let len = sdt_length m madt in
                  let few =
                    cpus_from-Few (len + 1) m (madt + sdt_size + 8) (madt + len) [] (omega arith)
                      (omega arith) (omega arith) in
                  rw e2 (
                    bind-Ends _ _ (cpus_from (len + 1) m (madt + sdt_size + 8) (madt + len) []) _
                      few
                      λ cpus e3.
                        found-Ensures FewCores
                          (cpus_from (len + 1) m (madt + sdt_size + 8) (madt + len) []) cpus few e3)
            ])
    ]

-- Whatever memory holds, malformed tables and hostile device trees included: the discovery on x86-64
-- always comes to its end, and one that comes to its end, on either port, has found at most 64 cores,
-- the size of the array. On aarch64 it then returns 1 exactly if it has found one.
pub discover-Discovered :
    (fuel : ℕ) (m : Memory) (arch_hint : ℕ)
    → IfFound Discovered (topology_discover fuel m arch_hint)
      × Ensures (λ t. length t.cores ≤ topology_max_cores) (X86.topology_discover m arch_hint)
discover-Discovered fuel m arch_hint = (aarch64-Discovered fuel m arch_hint, x86-Few m arch_hint)
