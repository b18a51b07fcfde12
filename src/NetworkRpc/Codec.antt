-- ===== src/NetworkRpc/Codec.antt =====
-- Envelopes of coreinit/network_rpc.c, written and read back.
use otos_coreinit.Base.{
  ℕ, ◌+◌, ◌*◌, ◌^◌, ◌≤◌, ◌<◌, ◌≡◌, refl, true, false, some, arith, length, ltb,
}
use otos_coreinit.Wire.{Message}
use otos_coreinit.Wire.RoundTrip.{message, built, exact, length-bytes32}
use otos_coreinit.NetworkRpc.{
  Packet, packet_len, Envelope, envelope, envelope_words, read_envelope, header_size,
  envelope_record, has_type, low32, high32,
}

pub ltb_ge : (a b : ℕ) → b ≤ a → ltb a b ≡ false
ltb_ge a b h = ground arith

pub low32-joined : (a b : ℕ) → a < 2 ^ 32 → low32 (a + b * 2 ^ 32) ≡ a
low32-joined a b h = omega arith

pub high32-joined : (a b : ℕ) → a < 2 ^ 32 → b < 2 ^ 32 → high32 (a + b * 2 ^ 32) ≡ b
high32-joined a b h k = omega arith

abbrev pub packed : Envelope → Message
packed e = message (envelope_words e)

pub envelope-packed :
    (cap : ℕ) (e : Envelope) → header_size ≤ cap → envelope cap e ≡ some (packed e)
unfolding envelope
envelope-packed cap e room = built cap (envelope_words e) room

pub packet_len-packed :
    (e : Envelope) (p : Packet) → p.header ≡ packed e → packet_len p ≡ header_size + length p.body
packet_len-packed e p h = rw h (omega (arith, length-bytes32 9))

pub read_envelope-packed :
    (e : Envelope) (p : Packet) → p.header ≡ packed e → read_envelope p ≡ some e
unfolding read_envelope
read_envelope-packed e p h =
    let fields = exact (envelope_words e) 8 (omega arith) in
    let long = packet_len-packed e p h in
    let room = ltb_ge (packet_len p) header_size (omega (arith, long)) in
    rw room (rw h (rw fields refl))

pub has_type-record :
    (type id source destination target method payload_len cap status : ℕ)
    → type < 2 ^ 32
    → has_type type
        (envelope_record type id source destination target method payload_len cap status)
      ≡ true
has_type-record type id source destination target method payload_len cap status small = ground arith
