-- ===== src/NetworkRpc/Remote.antt =====
-- A call through network_rpc_invoke that network_rpc_serve answers (coreinit/network_rpc.c).
use otos_coreinit.Base.{
  ℕ, ◌+◌, ◌^◌, ◌≤◌, ◌<◌, ◌≡◌, refl, ◌∙◌, ap, Bool, true, false, List, Option, none, some, arith,
  length, inl, inr, Bool-cases, ◌&&◌, leb, if◌then◌else◌, take-length, add64, ltb, not,
}
use otos_coreinit.Wire.{flag}
use otos_coreinit.NetworkRpc.{
  Packet, packet_len, Envelope, header_size, max_payload, envelope_record, rpc_request,
  rpc_response, LocalInvoke, Session, accept, accept_envelope, network_rpc_invoke, refuses,
  network_rpc_serve,
}
use otos_coreinit.NetworkRpc.Codec.{
  ltb_ge, low32-joined, high32-joined, packed, envelope-packed, packet_len-packed,
  read_envelope-packed,
}

leb-ltb : (a b : ℕ) → leb b a ≡ not (ltb a b)
leb-ltb a b = ground arith

module _ (S : Type 0) where
  abbrev request_envelope : Session S → ℕ → ℕ → ℕ → ℕ → Envelope
  request_envelope s target method len cap =
      envelope_record rpc_request s.next_request_id s.local_node s.remote_node target method len cap
        0

  not_refused :
      (s : Session S) (target method cap room : ℕ) (msg : List ℕ)
      → method < 2 ^ 32
      → length msg ≤ max_payload
      → cap ≤ max_payload
      → header_size + cap ≤ room
      → refuses S s.remote_node
          (record {
            header = packed (request_envelope s target method (length msg) cap);
            body = msg;
          })
          room
          (request_envelope s target method (length msg) cap)
        ≡ false
  unfolding refuses
  not_refused s target method cap room msg m l c r =
      let q : Packet = record {
        header = packed (request_envelope s target method (length msg) cap);
        body = msg;
      } in
      let long = packet_len-packed (request_envelope s target method (length msg) cap) q refl in
      rw (low32-joined cap 0 (omega arith), high32-joined method (length msg) m (omega arith))
        ground (arith, long, packet_len q)

  served_request :
      (local_invoke : LocalInvoke S) (s : Session S) (target method cap room : ℕ) (msg : List ℕ)
      (st : S)
      → method < 2 ^ 32
      → length msg ≤ max_payload
      → cap ≤ max_payload
      → header_size + cap ≤ room
      → network_rpc_serve S s.remote_node local_invoke
          (record {
            header = packed (request_envelope s target method (length msg) cap);
            body = msg;
          })
          room
          st
        ≡ (
          (if ltb cap (length (local_invoke target method msg cap st).0.1)
              then none
              else some (record {
                header = packed (
                    envelope_record rpc_response s.next_request_id s.remote_node s.local_node target
                      method
                      (length (local_invoke target method msg cap st).0.1)
                      0
                      (flag (local_invoke target method msg cap st).0.0));
                body = (local_invoke target method msg cap st).0.1;
              })),
          (local_invoke target method msg cap st).1,
        )
  unfolding network_rpc_serve
  served_request local_invoke s target method cap room msg st m l c r =
      let q : Packet = record {
        header = packed (request_envelope s target method (length msg) cap);
        body = msg;
      } in
      let e = request_envelope s target method (length msg) cap in
      let read = read_envelope-packed e q refl in
      let long = packet_len-packed e q refl in
      let method_back = low32-joined method (length msg) m in
      let length_back = high32-joined method (length msg) m (omega arith) in
      let cap_back = low32-joined cap 0 (omega arith) in
      let result = (local_invoke target method msg cap st).0.1 in
      let answer =
        envelope_record rpc_response s.next_request_id s.remote_node s.local_node target method
          (length result) 0 (flag (local_invoke target method msg cap st).0.0) in
      rw (read, network_rpc_serve)
        (rw (ltb_ge (packet_len q) header_size (omega (arith, long))) (
          rw (ltb_ge room header_size (omega arith)) (
            rw (not_refused s target method cap room msg m l c r) (
              rw
                (
                  method_back,
                  length_back,
                  cap_back,
                  take-length msg,
                  envelope-packed room answer (omega arith),
                )
                (rw (method_back, length_back, cap_back, take-length msg) refl)))))

  pub accepted :
      (s : Session S) (target method cap : ℕ) (ok : Bool) (result : List ℕ)
      → method < 2 ^ 32
      → length result ≤ cap
      → cap ≤ max_payload
      → accept S s s.next_request_id cap (record {
        header = packed (
            envelope_record rpc_response s.next_request_id s.remote_node s.local_node target method
              (length result)
              0
              (flag ok));
        body = result;
      })
        ≡ (if ok then some result else none)
  unfolding accept accept_envelope
  accepted s target method cap ok result m l c =
      let e =
        envelope_record rpc_response s.next_request_id s.remote_node s.local_node target method
          (length result) 0 (flag ok) in
      let p : Packet = record { header = packed e; body = result } in
      let long = packet_len-packed e p refl in
      rw (read_envelope-packed e p refl, accept)
        (rw (high32-joined method (length result) m (omega arith), take-length result)
          (elim ok [ true ↦ ground (arith, long) | false ↦ ground (arith, long) ]))

  abbrev response_packet : Session S → ℕ → ℕ → Bool → List ℕ → Packet
  response_packet s target method ok result = record {
    header = packed (
        envelope_record rpc_response s.next_request_id s.remote_node s.local_node target method
          (length result) 0 (flag ok));
    body = result;
  }

  answered :
      (s : Session S) (target method cap : ℕ) (ok : Bool) (result : List ℕ)
      → method < 2 ^ 32
      → cap ≤ max_payload
      → (elim (if ltb cap (length result)
            then none
            else some (response_packet s target method ok result))
          as (λ (o : Option Packet). Option (List ℕ)) [
            | none ↦ none
            | some r ↦ accept S s s.next_request_id cap r
          ])
        ≡ (if ok && leb (length result) cap then some result else none)
  answered s target method cap ok result m c = elim (Bool-cases (ltb cap (length result))) [
    | inl big ↦ rw big (rw (leb-ltb cap (length result)) (rw big (ground arith)))
    | inr fits ↦ rw fits (
        rw (leb-ltb cap (length result)) (
          rw fits
            (accepted s target method cap ok result m (ground (arith, fits)) c ∙ ground arith)))
  ]

  -- A call that travels to a server of the remote node, with a method of 32 bits and at most 4096
  -- bytes each way, does to that machine exactly what the local call does there, once; it succeeds
  -- with the same bytes if that call succeeds within the room for the response, and fails otherwise.
  pub invoke-serve :
      (local_invoke : LocalInvoke S) (local remote id target method cap : ℕ) (msg : List ℕ) (st : S)
      → method < 2 ^ 32
      → length msg ≤ max_payload
      → cap ≤ max_payload
      → network_rpc_invoke S
          (record {
            local_node = local;
            remote_node = remote;
            next_request_id = id;
            exchange = some (network_rpc_serve S remote local_invoke);
          })
          target
          method
          msg
          cap
          st
        ≡ (
          (if (local_invoke target method msg cap st).0.0
                && leb (length (local_invoke target method msg cap st).0.1) cap
              then some (local_invoke target method msg cap st).0.1
              else none),
          record {
            local_node = local;
            remote_node = remote;
            next_request_id = add64 id 1;
            exchange = some (network_rpc_serve S remote local_invoke);
          },
          (local_invoke target method msg cap st).1,
        )
  unfolding network_rpc_invoke
  invoke-serve local_invoke local remote id target method cap msg st m l c =
      let s : Session S = record {
        local_node = local;
        remote_node = remote;
        next_request_id = id;
        exchange = some (network_rpc_serve S remote local_invoke);
      } in
      let room = header_size + max_payload in
      let e = request_envelope s target method (length msg) cap in
      rw (ltb_ge max_payload (length msg) l) (
        rw (ltb_ge max_payload cap c) (
          rw (envelope-packed (header_size + max_payload) e (omega arith)) (
            rw
              (served_request local_invoke s target method cap (header_size + max_payload) msg st m
                l c (omega arith))
              (ap
                (λ (o : Option (List ℕ)). (
                  o,
                  record s { next_request_id = add64 id 1 },
                  (local_invoke target method msg cap st).1,
                ))
                (answered s target method cap (local_invoke target method msg cap st).0.0
                  (local_invoke target method msg cap st).0.1 m c)))))
