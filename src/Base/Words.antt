-- ===== src/Base/Words.antt =====
-- Machine words: uint64_t sums, and the int that a uint64_t word is cast to.
use Prim.Native.Nat.{ℕ, ◌+◌, ◌-◌, ◌%◌, ◌^◌}
use mathlib.Core.Bool.{Bool}
use otos_coreinit.Base.Compare.{ltb, if◌then◌else◌}

abbrev pub u64 : ℕ
u64 = 2 ^ 64

-- uint64_t addition.
abbrev pub add64 : ℕ → ℕ → ℕ
add64 a b = (a + b) % 2 ^ 64

-- `(int)word`, kept as the 32-bit pattern.
abbrev pub to_int : ℕ → ℕ
to_int w = w % 2 ^ 32

-- `a < b` of two ints given by their patterns.
abbrev pub lt_int : ℕ → ℕ → Bool
lt_int a b = ltb ((a + 2 ^ 31) % 2 ^ 32) ((b + 2 ^ 31) % 2 ^ 32)

-- `(uint64_t)(int64_t)i` of an int given by its pattern.
abbrev pub sign_extend : ℕ → ℕ
sign_extend i = if ltb i (2 ^ 31) then i else i + (2 ^ 64 - 2 ^ 32)
