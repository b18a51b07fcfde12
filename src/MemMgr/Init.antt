-- ===== src/MemMgr/Init.antt =====
-- memory_manager_init_schema of coreinit/mem_mgr.c: the regions that are claimed before anyone asks,
-- on both ports, with the addresses of include/smp_layout.h (AARCH64_RAM_BASE at its default).
pub mod Leads
pub mod Start
use otos_coreinit.Base.{
  ℕ, ◌+◌, ◌<◌, List, [], Option, none, some, arith, ◌==◌, not, ◌&&◌, if◌then◌else◌, u64,
}
use otos_coreinit.MemMgr.{Claim, Window, claim_locked}
use otos_coreinit.MemMgr.Valid.{IsValid, claim_locked-IsValid}

pub data Port : Type 0 where
  x86_64 aarch64 : Port

abbrev pub ram_base : ℕ
ram_base = 0x40000000

abbrev pub window : Port → Window
window x86_64 = record { alloc_min = 0x1C00000; alloc_max = 0x4000000 }
window aarch64 = record { alloc_min = ram_base + 0x14000000; alloc_max = ram_base + 0x18000000 }

abbrev pub kernel_load_base : Port → ℕ
kernel_load_base x86_64 = 0x1000000
kernel_load_base aarch64 = ram_base + 0x01000000

abbrev pub bsp_init_load_base : Port → ℕ
bsp_init_load_base x86_64 = 0x1800000
bsp_init_load_base aarch64 = ram_base + 0x00200000

abbrev pub mailbox_base : ℕ
mailbox_base = ram_base + 0x01800000

abbrev pub kind_mmio : ℕ
kind_mmio = 0

abbrev pub kind_kernel_reserved : ℕ
kind_kernel_reserved = 1

-- `struct boot_allocator`, the fields that are read here.
pub record BootAllocator : Type 0 where
  pub magic : ℕ
  pub region_base : ℕ
  pub region_len : ℕ

-- `struct init_description_data`; `none` for a null allocator address.
pub record InitDescription : Type 0 where
  pub magic : ℕ
  pub coreinit_allocator : Option BootAllocator

abbrev pub init_description_magic : ℕ
init_description_magic = 0x494e495444455343

abbrev pub boot_allocator_magic : ℕ
boot_allocator_magic = 0x424f4f54414c4f43

-- A claim whose result is dropped.
abbrev pub claim : List Claim → ℕ → ℕ → ℕ → List Claim
claim cs base size kind = (claim_locked cs base size kind).1

-- The region of the boot allocator, where the description leads to a sound one.
pub claim_region : List Claim → ℕ → Option BootAllocator → List Claim
claim_region cs magic none = cs
claim_region cs magic (some a) =
    if magic == init_description_magic
      && (a.magic == boot_allocator_magic && (not (a.region_base == 0) && not (a.region_len == 0)))
    then claim cs a.region_base a.region_len kind_kernel_reserved
    else cs

pub claim_allocator : List Claim → Option InitDescription → List Claim
unfolding claim_region
claim_allocator cs none = cs
claim_allocator cs (some d) = claim_region cs d.magic d.coreinit_allocator

pub claim_kernel : Port → List Claim
claim_kernel x86_64 =
    claim
      (claim (claim (claim [] 0xFEE00000 0x1000 kind_mmio) 0xFEC00000 0x1000 kind_mmio)
        (kernel_load_base x86_64) 0x400000 kind_kernel_reserved)
      0x8000 0x1000 kind_kernel_reserved
claim_kernel aarch64 =
    claim (claim [] (kernel_load_base aarch64) 0x400000 kind_kernel_reserved) mailbox_base 0x080000
      kind_kernel_reserved

-- The table starts empty (`g_claim_count = 0`); `none` is a null description.
unfoldable pub init_schema : Port → Option InitDescription → List Claim
unfolding claim_kernel claim_allocator
init_schema port info =
    claim (claim_allocator (claim_kernel port) info) (bsp_init_load_base port) 0x400000
      kind_kernel_reserved

-- The boot allocator's region, if there is one, does not wrap.
abbrev pub IsSoundRegion : Option BootAllocator → Type 0
IsSoundRegion none = Unit
IsSoundRegion (some a) = a.region_base + a.region_len < u64

abbrev pub IsSound : Option InitDescription → Type 0
IsSound none = Unit
IsSound (some d) = IsSoundRegion d.coreinit_allocator

no_claims : IsValid []
no_claims = record { in_range = tt; disjoint = tt; small = omega arith }

claim-IsValid :
    {cs : List Claim} (base size kind : ℕ)
    → base + size < u64
    → IsValid cs
    → IsValid (claim cs base size kind)
claim-IsValid {cs} base size kind h v = claim_locked-IsValid cs base size kind v h

claim_kernel-IsValid : (port : Port) → IsValid (claim_kernel port)
unfolding claim_kernel
claim_kernel-IsValid x86_64 = claim-IsValid _ _ _ (omega arith) (
    claim-IsValid _ _ _ (omega arith)
      (claim-IsValid _ _ _ (omega arith) (claim-IsValid _ _ _ (omega arith) no_claims)))
claim_kernel-IsValid aarch64 =
    claim-IsValid _ _ _ (omega arith) (claim-IsValid _ _ _ (omega arith) no_claims)

claim_region-IsValid :
    {cs : List Claim} (magic : ℕ) (region : Option BootAllocator)
    → IsSoundRegion region
    → IsValid cs
    → IsValid (claim_region cs magic region)
unfolding claim_region
claim_region-IsValid magic none s v = v
claim_region-IsValid {cs} magic (some a) s v =
    ground (arith, claim_locked-IsValid cs a.region_base a.region_len 1 v s)

claim_allocator-IsValid :
    {cs : List Claim} (info : Option InitDescription)
    → IsSound info
    → IsValid cs
    → IsValid (claim_allocator cs info)
unfolding claim_allocator
claim_allocator-IsValid none s v = v
claim_allocator-IsValid (some d) s v = claim_region-IsValid d.magic d.coreinit_allocator s v

pub init_schema-IsValid :
    (port : Port) (info : Option InitDescription) → IsSound info → IsValid (init_schema port info)
unfolding init_schema
init_schema-IsValid x86_64 info s =
    claim-IsValid _ _ _ (omega arith) (claim_allocator-IsValid info s (claim_kernel-IsValid x86_64))
init_schema-IsValid aarch64 info s =
    claim-IsValid _ _ _ (omega arith)
      (claim_allocator-IsValid info s (claim_kernel-IsValid aarch64))
