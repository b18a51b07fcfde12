-- ===== src/MemMgr/Examples.antt =====
-- Tests of the memory manager, and its theorems at concrete tables.
use otos_coreinit.Base.{◌≡◌, refl, true, false, List, [], ◌∷◌, none, some, arith, length, replicate}
use otos_coreinit.MemMgr.{
  Claim, claim_locked, alloc_locked, free_locked, overlaps, sort, try_starts, try_start, candidates,
  min_of, swap_in,
}
use otos_coreinit.MemMgr.Valid.{IsValid}
use otos_coreinit.MemMgr.Requests.{Request, run, run-IsValid}
use otos_coreinit.MemMgr.Init.{x86_64, aarch64, window, init_schema, InitDescription}
use otos_coreinit.MemMgr.Init.Start.{Start, init_schema-Start}
use otos_coreinit.MemMgr.FirstFit.{IsWindow, Allocated, alloc_locked_lem}
use otos_coreinit.MemMgr.Capacity.{full_forever}
use otos_coreinit.MemMgr.Reuse.{NoneAt, overlaps-free-claim, free_locked-refused}

abbrev low : Claim
low = record { base = 0x1C00000; size = 0x1000; kind = 3; used = true }

abbrev hole : Claim
hole = record { base = 0x1C01000; size = 0x1000; kind = 3; used = false }

abbrev high : Claim
high = record { base = 0x1C02000; size = 0x1000; kind = 3; used = true }

abbrev table : List Claim
table = high ∷ hole ∷ low ∷ []

-- A freed slice is found again, before the space behind the last claim.
alloc_reuses_hole : (alloc_locked (window x86_64) table 0x800 3).0 ≡ (true, 0x1C01000)
unfolding alloc_locked try_starts try_start claim_locked overlaps candidates sort min_of swap_in
alloc_reuses_hole = refl

alloc_skips_hole : (alloc_locked (window x86_64) table 0x1001 3).0 ≡ (true, 0x1C03000)
unfolding alloc_locked try_starts try_start claim_locked overlaps candidates sort min_of swap_in
alloc_skips_hole = refl

init_claims_all : (length (init_schema x86_64 none) ≡ 5) × (length (init_schema aarch64 none) ≡ 3)
unfolding init_schema claim_locked overlaps
init_claims_all = (refl, refl)

table-IsValid : IsValid table
table-IsValid = omega arith

window-IsWindow : IsWindow (window x86_64)
window-IsWindow = omega arith

abbrev boot_region : InitDescription
boot_region = record {
  magic = 0x494e495444455343;
  coreinit_allocator =
      some (record { magic = 0x424f4f54414c4f43; region_base = 0x5000000; region_len = 0x10000 });
}

init_schema-Start_example :
    Start x86_64 (some boot_region) (init_schema x86_64 (some boot_region))
    × IsValid (init_schema x86_64 (some boot_region))
init_schema-Start_example = init_schema-Start x86_64 (some boot_region) (omega arith)

abbrev script : List Request
script =
    record { method_id = 1; words = 0x800 ∷ 3 ∷ []; response_cap = 40 }
    ∷ record { method_id = 2; words = 0x1C02000 ∷ []; response_cap = 24 }
    ∷ record { method_id = 0; words = 0x1C02000 ∷ 0x2000 ∷ 2 ∷ []; response_cap = 24 }
    ∷ []

run-IsValid_example : IsValid (run (window x86_64) table script)
run-IsValid_example = run-IsValid (window x86_64) table script table-IsValid (
  record { alloc_size = λ e. omega arith; claim_range = λ a b. omega arith },
  (
    record { alloc_size = λ e. omega arith; claim_range = λ a b. omega arith },
    (record { alloc_size = λ e. omega arith; claim_range = λ a b. omega arith }, tt),
  ),
)

alloc_locked_lem_example :
    Allocated (window x86_64) table 0x800 3 (alloc_locked (window x86_64) table 0x800 3)
alloc_locked_lem_example =
    alloc_locked_lem (window x86_64) table 0x800 3 window-IsWindow table-IsValid (omega arith)
      (omega arith)

abbrev spent : List Claim
spent = replicate 64 hole

full_forever_example :
    (claim_locked (run (window x86_64) spent script) 0x3000000 1 2
      ≡ (false, run (window x86_64) spent script))
    × (alloc_locked (window x86_64) (run (window x86_64) spent script) 1 2
        ≡ ((false, 0), run (window x86_64) spent script))
full_forever_example = full_forever (window x86_64) spent script 0x3000000 1 2 (omega arith)

overlaps-free-claim_example :
    let (ok, freed) = free_locked (claim_locked table 0x1C03000 0x800 3).1 0x1C03000 in
    (ok ≡ true) × (overlaps freed 0x1C03000 0x1C03800 ≡ overlaps table 0x1C03000 0x1C03800)
unfolding claim_locked overlaps
overlaps-free-claim_example =
    overlaps-free-claim table 0x1C03000 0x800 3 0x1C03000 0x1C03800 (omega arith) refl

free_locked-refused_example :
    (NoneAt 0x1C01000 table → free_locked table 0x1C01000 ≡ (false, table))
    × ((free_locked table 0x1C01000).0 ≡ false → NoneAt 0x1C01000 table)
free_locked-refused_example = free_locked-refused table 0x1C01000
