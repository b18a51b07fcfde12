-- ===== src/Wire.antt =====
-- coreinit/capnp_build.h: the flat message that every object of coreinit sends and receives.
-- A buffer is its eight header bytes and the 64-bit words behind them, the root pointer first.
pub mod RoundTrip
use otos_coreinit.Base.{
  ℕ, ◌+◌, ◌*◌, ◌/◌, ◌%◌, ◌^◌, Bool, true, false, List, [], ◌∷◌, Option, none, some, ltb, ◌==◌,
  if◌then◌else◌, ◌||◌, not, length, get_or,
}

pub record Message : Type 0 where
  pub head : List ℕ
  pub words : List ℕ

-- `(uint8_t)((w >> k) & 0xFF)` at the four bytes of a uint32_t.
pub bytes32 : ℕ → List ℕ
bytes32 w = w % 256 ∷ (w / 2 ^ 8) % 256 ∷ (w / 2 ^ 16) % 256 ∷ (w / 2 ^ 24) % 256 ∷ []

-- Bytes of the whole message: header, root pointer and `n` words.
abbrev pub flat_size : ℕ → ℕ
flat_size n = 16 + 8 * n

-- `n_words` is a uint16_t, so the caller's count is its length modulo 2^16.
pub build_flat : ℕ → List ℕ → Option Message
unfolding bytes32
build_flat cap data_words =
    let n = length data_words in
    if ltb cap (flat_size n)
    then none
    else some (record { head = 0 ∷ 0 ∷ 0 ∷ 0 ∷ bytes32 (1 + n); words = n * 2 ^ 32 ∷ data_words })

-- The data section, the shape being the caller's business.
pub read_flat : List ℕ → List ℕ
read_flat [] = []
read_flat (root ∷ rest) = rest

abbrev byte : Message → ℕ → ℕ
byte m i = get_or m.head i 0

abbrev segment_words : Message → ℕ
segment_words m = byte m 4 + byte m 5 * 2 ^ 8 + byte m 6 * 2 ^ 16 + byte m 7 * 2 ^ 24

-- A buffer of 8 header bytes and `k` words is `8 + 8 * k` bytes long.
pub read_flat_exact : Message → ℕ → Option (List ℕ)
unfolding read_flat
read_flat_exact m n =
    if not (8 + 8 * length m.words == flat_size n)
    then none
    else if not (byte m 0 == 0)
        || (not (byte m 1 == 0) || (not (byte m 2 == 0) || not (byte m 3 == 0)))
    then none
    else if not (segment_words m == 1 + n)
    then none
    else if not (get_or m.words 0 0 == n * 2 ^ 32)
    then none
    else some (read_flat m.words)

-- What a handler sends back: the data words of the message that it builds, if they fit.
abbrev pub respond : ℕ → List ℕ → Option (List ℕ)
respond cap ws = if ltb cap (flat_size (length ws)) then none else some ws

-- `*out_response_len` of such a reply.
abbrev pub reply_len : Option (List ℕ) → ℕ
reply_len none = 0
reply_len (some ws) = flat_size (length ws)

-- `words[i]` of a request. The kernel has checked its shape.
abbrev pub word : List ℕ → ℕ → ℕ
word ws i = get_or ws i 0

-- `ok ? 1 : 0`
abbrev pub flag : Bool → ℕ
flag true = 1
flag false = 0
