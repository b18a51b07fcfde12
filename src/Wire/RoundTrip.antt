-- ===== src/Wire/RoundTrip.antt =====
-- coreinit/capnp_build.h: what a reader gets of a message that was built.
use otos_coreinit.Base.{
  ℕ, ◌+◌, ◌*◌, ◌/◌, ◌%◌, ◌^◌, ◌<◌, ◌≤◌, ◌≡◌, refl, List, ◌∷◌, none, some, arith, ltb, ◌==◌,
  if◌then◌else◌, length, inl, inr, Bool-cases,
}
use otos_coreinit.Wire.{Message, flat_size, bytes32, build_flat, read_flat, read_flat_exact}

-- The message that `build_flat` makes of these words, where it makes one.
abbrev pub message : List ℕ → Message
message ws = record {
  head = 0 ∷ 0 ∷ 0 ∷ 0 ∷ bytes32 (1 + length ws);
  words = length ws * 2 ^ 32 ∷ ws;
}

bytes32_joined :
    (w : ℕ)
    → w < 2 ^ 32
    → w % 256
        + ((w / 2 ^ 8) % 256) * 2 ^ 8
        + ((w / 2 ^ 16) % 256) * 2 ^ 16
        + ((w / 2 ^ 24) % 256) * 2 ^ 24
      ≡ w
bytes32_joined w small = omega arith

pub length-bytes32 : (w : ℕ) → length (bytes32 w) ≡ 4
unfolding bytes32
length-bytes32 w = refl

-- Where there is room, this message is the one that is built.
pub built :
    (cap : ℕ) (ws : List ℕ) → flat_size (length ws) ≤ cap → build_flat cap ws ≡ some (message ws)
unfolding build_flat
built cap ws room = ground arith

pub exact :
    (ws : List ℕ) (n : ℕ)
    → length ws < 2 ^ 16
    → read_flat_exact (message ws) n ≡ (if length ws == n then some ws else none)
unfolding read_flat_exact read_flat bytes32
exact ws n small = elim (Bool-cases (length ws == n)) [
  | inl e ↦ ground (arith, bytes32_joined (1 + length ws) (omega arith))
  | inr e ↦ ground arith
]

-- A message is built exactly if the buffer has room for the header, the root pointer and the words.
-- The exact reader gets those words back from it if it asks for as many words as there are, and is
-- refused if it asks for another number; the plain reader gets them too. (The count of words is a
-- uint16_t.)
pub read_flat_exact-build_flat :
    (cap : ℕ) (ws : List ℕ) (n : ℕ)
    → length ws < 2 ^ 16
    → (m : Message) × (build_flat cap ws
        ≡ (if ltb cap (flat_size (length ws)) then none else some m))
      × (read_flat_exact m n ≡ (if length ws == n then some ws else none))
      × (read_flat m.words ≡ ws)
unfolding build_flat read_flat
read_flat_exact-build_flat cap ws n small = (message ws, ground arith, exact ws n small, refl)
