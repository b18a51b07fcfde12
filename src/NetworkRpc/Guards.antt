-- ===== src/NetworkRpc/Guards.antt =====
-- Which packets coreinit/network_rpc.c takes for a request or for the reply to one.
use otos_coreinit.Base.{
  ℕ, ◌+◌, ◌≤◌, ◌≡◌, ◌⊎◌, refl, true, false, List, none, some, arith, length, inl, inr, Bool-cases,
  Option-cases, ◌||◌, length-take_le, ltb, take,
}
use otos_coreinit.NetworkRpc.{
  Packet, packet_len, Envelope, read_envelope, header_size, max_payload, envelope_record, has_type,
  low32, high32, rpc_request, rpc_response, network_rpc_is_response, network_rpc_response_matches,
  LocalInvoke, Session, accept, accept_envelope, refuses, network_rpc_serve,
}
use otos_coreinit.NetworkRpc.Codec.{packed, read_envelope-packed}

module _ (S : Type 0) where
  -- The packet that network_rpc_invoke sends.
  abbrev pub sent : Session S → ℕ → ℕ → List ℕ → ℕ → Packet
  sent s target method msg cap = record {
    header = packed (
        envelope_record rpc_request s.next_request_id s.local_node s.remote_node target method
          (length msg) cap 0);
    body = msg;
  }

  record Answers (s : Session S) (cap : ℕ) (h : Envelope) (reply : Packet) (payload : List ℕ)
      : Type 0 where
    typed : has_type rpc_response h ≡ true
    request : h.request_id ≡ s.next_request_id
    source : h.source_node ≡ s.remote_node
    destination : h.destination_node ≡ s.local_node
    short : high32 h.method_and_payload_length ≤ cap
    bytes : payload ≡ take (high32 h.method_and_payload_length) reply.body

  accept-Answers :
      (s : Session S) (cap : ℕ) (h : Envelope) (reply : Packet) (payload : List ℕ)
      → accept_envelope S s s.next_request_id cap reply h ≡ some payload
      → Answers s cap h reply payload
  unfolding accept_envelope
  accept-Answers s cap h reply payload got = record {
    typed = ground (arith, got);
    request = ground (arith, got);
    source = ground (arith, got);
    destination = ground (arith, got);
    short = ground (arith, got);
    bytes = ground (arith, got);
  }

  -- Whatever reply comes back, what network_rpc_invoke takes for the response to its request is a
  -- response, and the carriers' test matches it to that request; no more bytes than there is room for are taken.
  pub accept-response_matches :
      (s : Session S) (target method cap : ℕ) (msg : List ℕ) (reply : Packet) (payload : List ℕ)
      → accept S s s.next_request_id cap reply ≡ some payload
      → (network_rpc_response_matches (sent s target method msg cap) reply ≡ true)
        × (network_rpc_is_response reply ≡ true)
        × (length payload ≤ cap)
  unfolding accept network_rpc_response_matches network_rpc_is_response
  accept-response_matches s target method cap msg reply payload got =
      elim (Option-cases (read_envelope reply)) [
        | inl n ↦ absurd (cc (rw (n, accept) at got))
        | inr (h, e) ↦
            let q = sent s target method msg cap in
            let qe =
              envelope_record rpc_request s.next_request_id s.local_node s.remote_node target method
                (length msg) cap 0 in
            let read = read_envelope-packed qe q refl in
            let v = accept-Answers s cap h reply payload (rw (e, accept) at got) in
            (
              rw (read, network_rpc_response_matches)
                  (rw (e) (ground (arith, v.typed, v.request, v.source, v.destination))),
              rw (e, network_rpc_is_response) v.typed,
              rw (v.bytes) (
                  omega (
                    arith,
                    length-take_le (high32 h.method_and_payload_length) reply.body,
                    v.short,
                  )),
            )
      ]

  not_refused :
      (local_node : ℕ) (request : Packet) (cap : ℕ) (h : Envelope)
      → refuses S local_node request cap h ≡ false
      → (has_type rpc_request h ≡ true)
        × (h.destination_node ≡ local_node)
        × (packet_len request ≡ header_size + high32 h.method_and_payload_length)
        × (low32 h.response_capacity_and_status ≤ max_payload)
  unfolding refuses
  not_refused local_node request cap h ok =
      (ground (arith, ok), ground (arith, ok), ground (arith, ok), ground (arith, ok))

  -- A packet reaches the kernel only as a request to this node that says how long it is; then the
  -- kernel gets one call, with the target and the method of the envelope, the bytes behind it, and
  -- room for no more than 4096 bytes.
  pub serve-Addressed :
      (local_node : ℕ) (local_invoke : LocalInvoke S) (request : Packet) (cap : ℕ) (st : S)
      → (network_rpc_serve S local_node local_invoke request cap st ≡ (none, st))
        ⊎ ((h : Envelope) × (read_envelope request ≡ some h)
            × (has_type rpc_request h ≡ true)
            × (h.destination_node ≡ local_node)
            × (packet_len request ≡ header_size + high32 h.method_and_payload_length)
            × (low32 h.response_capacity_and_status ≤ max_payload)
            × ((network_rpc_serve S local_node local_invoke request cap st).1
                ≡ (local_invoke h.target_handle
                    (low32 h.method_and_payload_length)
                    (take (high32 h.method_and_payload_length) request.body)
                    (low32 h.response_capacity_and_status)
                    st).1))
  unfolding network_rpc_serve
  serve-Addressed local_node local_invoke request cap st =
      elim (Bool-cases (ltb (packet_len request) header_size || ltb cap header_size)) [
        | inl short ↦ inl (rw (short, network_rpc_serve) refl)
        | inr long ↦ elim (Option-cases (read_envelope request)) [
          | inl n ↦ inl (rw (long, network_rpc_serve) (rw n refl))
          | inr (h, e) ↦ elim (Bool-cases (refuses S local_node request cap h)) [
            | inl bad ↦ inl (rw (long, network_rpc_serve) (rw (e) (rw bad refl)))
            | inr ok ↦
                let (a, b, c, d) = not_refused local_node request cap h ok in
                inr (h, e, a, b, c, d, rw (long, network_rpc_serve) (rw (e) (rw ok refl)))
          ]
        ]
      ]
