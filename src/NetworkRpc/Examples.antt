-- ===== src/NetworkRpc/Examples.antt =====
-- A call of the capability 0x123456789abcdef0 over the network (tools/test-network-rpc.c).
use otos_coreinit.Base.{
  ℕ, ◌+◌, ◌≡◌, ◌⊎◌, true, false, List, [], ◌∷◌, none, some, arith, ◌==◌, ◌&&◌, if◌then◌else◌, ltb,
  not, length, take, ◌≤◌,
}
use otos_coreinit.NetworkRpc.{
  Packet, Envelope, LocalInvoke, Session, network_rpc_session_init, network_rpc_invoke,
  network_rpc_serve, network_rpc_response_matches, network_rpc_is_response, read_envelope,
  envelope_record, rpc_response, packet_len, has_type, rpc_request, low32, high32, header_size,
  max_payload,
}
use otos_coreinit.NetworkRpc.Codec.{packed}
use otos_coreinit.NetworkRpc.Remote.{accepted, invoke-serve}
use otos_coreinit.NetworkRpc.Guards.{sent, accept-response_matches, serve-Addressed}

abbrev capability : ℕ
capability = 0x123456789abcdef0

-- Answers "world" to method 7 of the capability, and counts its calls.
abbrev fake_kernel : LocalInvoke ℕ
fake_kernel target method msg cap calls = (
  (if (target == capability && method == 7) && not (ltb cap 5)
      then (true, 119 ∷ 111 ∷ 114 ∷ 108 ∷ 100 ∷ [])
      else (false, [])),
  calls + 1,
)

abbrev hello : List ℕ
hello = 104 ∷ 101 ∷ 108 ∷ 108 ∷ 111 ∷ []

abbrev session : Session ℕ
session = network_rpc_session_init ℕ 11 22 (network_rpc_serve ℕ 22 fake_kernel)

invoke-serve_example :
    network_rpc_invoke ℕ session capability 7 hello 8 0
    ≡ (some (119 ∷ 111 ∷ 114 ∷ 108 ∷ 100 ∷ []), record session { next_request_id = 2 }, 1)
invoke-serve_example =
    invoke-serve ℕ fake_kernel 11 22 1 capability 7 8 hello 0 (omega arith) (omega arith)
      (omega arith)

abbrev reply : Packet
reply = record {
  header = packed (envelope_record rpc_response 1 22 11 capability 7 5 0 1);
  body = 119 ∷ 111 ∷ 114 ∷ 108 ∷ 100 ∷ [];
}

accept-response_matches_example :
    (network_rpc_response_matches (sent ℕ session capability 7 hello 8) reply ≡ true)
    × (network_rpc_is_response reply ≡ true)
    × (length reply.body ≤ 8)
accept-response_matches_example =
    accept-response_matches ℕ session capability 7 8 hello reply reply.body
      (accepted ℕ session capability 7 8 true reply.body (omega arith) (omega arith) (omega arith))

-- A request to the node 22 at the node 23.
serve-Addressed_example :
    (network_rpc_serve ℕ 23 fake_kernel (sent ℕ session capability 7 hello 8) 4176 0 ≡ (none, 0))
    ⊎ ((h : Envelope) × (read_envelope (sent ℕ session capability 7 hello 8) ≡ some h)
        × (has_type rpc_request h ≡ true)
        × (h.destination_node ≡ 23)
        × (packet_len (sent ℕ session capability 7 hello 8)
            ≡ header_size + high32 h.method_and_payload_length)
        × (low32 h.response_capacity_and_status ≤ max_payload)
        × ((network_rpc_serve ℕ 23 fake_kernel (sent ℕ session capability 7 hello 8) 4176 0).1
            ≡ (fake_kernel h.target_handle
                (low32 h.method_and_payload_length)
                (take (high32 h.method_and_payload_length) hello)
                (low32 h.response_capacity_and_status)
                0).1))
serve-Addressed_example =
    serve-Addressed ℕ 23 fake_kernel (sent ℕ session capability 7 hello 8) 4176 0
