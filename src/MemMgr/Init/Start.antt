-- ===== src/MemMgr/Init/Start.antt =====
-- memory_manager_init_schema of coreinit/mem_mgr.c: what the table holds when the memory manager starts.
use otos_coreinit.Base.{
  ℕ, ◌+◌, ◌≡◌, refl, ap, ◌∙◌, inl, inr, true, false, List, [], ◌∷◌, ◌++◌, Option, add64, leb,
  length, Bool-cases,
}
use otos_coreinit.MemMgr.{Claim, overlaps, claim_locked}
use otos_coreinit.MemMgr.Valid.{IsValid}
use otos_coreinit.MemMgr.Init.{
  Port, x86_64, aarch64, BootAllocator, InitDescription, claim, claim_allocator, claim_kernel,
  init_schema, IsSound, init_schema-IsValid,
}
use otos_coreinit.MemMgr.Init.Leads.{Leads, led}

-- Both interrupt controllers, the kernel and the trampoline; the kernel and the mailbox.
abbrev pub fixed : Port → List Claim
fixed x86_64 =
    record { base = 0xFEE00000; size = 0x1000; kind = 0; used = true }
    ∷ record { base = 0xFEC00000; size = 0x1000; kind = 0; used = true }
    ∷ record { base = 0x1000000; size = 0x400000; kind = 1; used = true }
    ∷ record { base = 0x8000; size = 0x1000; kind = 1; used = true }
    ∷ []
fixed aarch64 =
    record { base = 0x41000000; size = 0x400000; kind = 1; used = true }
    ∷ record { base = 0x41800000; size = 0x80000; kind = 1; used = true }
    ∷ []

-- The image of coreinit itself.
abbrev pub image : Port → Claim
image x86_64 = record { base = 0x1800000; size = 0x400000; kind = 1; used = true }
image aarch64 = record { base = 0x40200000; size = 0x400000; kind = 1; used = true }

-- The region of a boot allocator.
abbrev pub region : BootAllocator → Claim
region a = record { base = a.region_base; size = a.region_len; kind = 1; used = true }

-- The table, by where the boot allocator's region lies.
pub data Start (port : Port) (info : Option InitDescription) (t : List Claim) : Type 0 where
  no_region :
      ((a : BootAllocator) → Leads info a → ⊥)
      → t ≡ fixed port ++ image port ∷ []
      → Start port info t
  region_refused :
      (a : BootAllocator)
      → Leads info a
      → overlaps (fixed port) a.region_base (add64 a.region_base a.region_len) ≡ true
      → t ≡ fixed port ++ image port ∷ []
      → Start port info t
  reserved :
      (a : BootAllocator)
      → Leads info a
      → overlaps (region a ∷ []) (image port).base ((image port).base + (image port).size) ≡ false
      → t ≡ fixed port ++ region a ∷ image port ∷ []
      → Start port info t
  image_refused :
      (a : BootAllocator)
      → Leads info a
      → overlaps (region a ∷ []) (image port).base ((image port).base + (image port).size) ≡ true
      → t ≡ fixed port ++ region a ∷ []
      → Start port info t

claim_kernel-fixed : (port : Port) → claim_kernel port ≡ fixed port
unfolding claim_kernel claim_locked overlaps
claim_kernel-fixed x86_64 = refl
claim_kernel-fixed aarch64 = refl

-- The claim of coreinit's own image, after the table of the port alone, and after a region.
image_alone :
    (port : Port)
    → claim (fixed port) (image port).base (image port).size 1 ≡ fixed port ++ image port ∷ []
unfolding claim_locked overlaps
image_alone x86_64 = refl
image_alone aarch64 = refl

init_schema-claims :
    (port : Port) (info : Option InitDescription)
    → init_schema port info
      ≡ claim (claim_allocator (claim_kernel port) info) (image port).base (image port).size 1
unfolding init_schema
init_schema-claims x86_64 info = refl
init_schema-claims aarch64 info = refl

claim-free :
    (cs : List Claim) (base size : ℕ)
    → overlaps cs base (add64 base size) ≡ false
    → leb 64 (length cs) ≡ false
    → claim cs base size 1 ≡ cs ++ record { base = base; size = size; kind = 1; used = true } ∷ []
unfolding claim_locked
claim-free cs base size apart room = rw (apart, claim, claim_locked) (rw room refl)

claim-refused :
    (cs : List Claim) (base size : ℕ)
    → overlaps cs base (add64 base size) ≡ true
    → claim cs base size 1 ≡ cs
unfolding claim_locked
claim-refused cs base size meets = rw (meets, claim, claim_locked) refl

claimed_region :
    (port : Port) (a : BootAllocator)
    → overlaps (fixed port) a.region_base (add64 a.region_base a.region_len) ≡ false
    → claim (fixed port) a.region_base a.region_len 1 ≡ fixed port ++ region a ∷ []
claimed_region x86_64 a apart = claim-free (fixed x86_64) a.region_base a.region_len apart refl
claimed_region aarch64 a apart = claim-free (fixed aarch64) a.region_base a.region_len apart refl

-- The image against the table with a region: only the region can be in its way.
region_only :
    (port : Port) (a : BootAllocator)
    → overlaps
        (fixed port ++ region a ∷ [])
        (image port).base
        (add64 (image port).base (image port).size)
      ≡ overlaps (region a ∷ []) (image port).base ((image port).base + (image port).size)
unfolding overlaps
region_only x86_64 a = refl
region_only aarch64 a = refl

room_left :
    (port : Port) (a : BootAllocator) → leb 64 (length (fixed port ++ region a ∷ [])) ≡ false
room_left x86_64 a = refl
room_left aarch64 a = refl

append_two :
    (port : Port) (a : BootAllocator)
    → (fixed port ++ region a ∷ []) ++ image port ∷ [] ≡ fixed port ++ region a ∷ image port ∷ []
append_two x86_64 a = refl
append_two aarch64 a = refl

image_kind :
    (port : Port)
    → record { base = (image port).base; size = (image port).size; kind = 1; used = true }
      ≡ image port
image_kind x86_64 = refl
image_kind aarch64 = refl

image_after :
    (port : Port) (a : BootAllocator)
    → overlaps (region a ∷ []) (image port).base ((image port).base + (image port).size) ≡ false
    → claim (fixed port ++ region a ∷ []) (image port).base (image port).size 1
      ≡ fixed port ++ region a ∷ image port ∷ []
image_after port a apart =
    claim-free (fixed port ++ region a ∷ []) (image port).base (image port).size
      (region_only port a ∙ apart) (room_left port a)
    ∙ ap (λ c. (fixed port ++ region a ∷ []) ++ c ∷ []) (image_kind port)
    ∙ append_two port a

image_lost :
    (port : Port) (a : BootAllocator)
    → overlaps (region a ∷ []) (image port).base ((image port).base + (image port).size) ≡ true
    → claim (fixed port ++ region a ∷ []) (image port).base (image port).size 1
      ≡ fixed port ++ region a ∷ []
image_lost port a meets =
    claim-refused (fixed port ++ region a ∷ []) (image port).base (image port).size
      (region_only port a ∙ meets)

-- The claim of the image last, on a table that is known.
then_image :
    (port : Port) (info : Option InitDescription) (cs t : List Claim)
    → claim_allocator (fixed port) info ≡ cs
    → claim cs (image port).base (image port).size 1 ≡ t
    → init_schema port info ≡ t
then_image port info cs t first second =
    init_schema-claims port info
    ∙ ap (λ us. claim (claim_allocator us info) (image port).base (image port).size 1)
        (claim_kernel-fixed port)
    ∙ ap (λ us. claim us (image port).base (image port).size 1) first
    ∙ second

-- If the boot allocator's region does not wrap: on both ports memory_manager_init_schema claims, in
-- this order, the fixed regions of the port, the region of the boot allocator that the description
-- leads to, and coreinit's own image, and the table is exactly that and is valid. Only these claims
-- are left out: the boot allocator's where there is none or it overlaps a fixed region, and the
-- image's where the boot allocator's region overlaps it.
pub init_schema-Start :
    (port : Port) (info : Option InitDescription)
    → IsSound info
    → Start port info (init_schema port info) × IsValid (init_schema port info)
init_schema-Start port info sound = (
  elim (led (fixed port) info) [
    | inl (nothing, e) ↦
        no_region nothing (then_image port info (fixed port) _ e (image_alone port))
    | inr (a, l, e) ↦
        elim (Bool-cases (overlaps (fixed port) a.region_base (add64 a.region_base a.region_len))) [
          | inl meets ↦ region_refused a l meets (
              then_image port info (fixed port) _
                (e ∙ claim-refused (fixed port) a.region_base a.region_len meets)
                (image_alone port))
          | inr apart ↦
              let first = e ∙ claimed_region port a apart in
              elim (Bool-cases (
                overlaps (region a ∷ []) (image port).base
                  ((image port).base + (image port).size))) [
                    | inl lost ↦
                        image_refused a l lost
                          (then_image port info _ _ first (image_lost port a lost))
                    | inr kept ↦
                        reserved a l kept (then_image port info _ _ first (image_after port a kept))
                  ]
        ]
  ],
  init_schema-IsValid port info sound,
)
