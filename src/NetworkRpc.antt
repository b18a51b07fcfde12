-- ===== src/NetworkRpc.antt =====
-- coreinit/network_rpc.c: a call of a capability on another machine, as one request packet and one
-- response packet. A packet is the message in its first 80 bytes (less, if it is shorter) and the
-- bytes behind it.
mod Codec
mod Guards
mod Remote
mod Examples
use otos_coreinit.Base.{
  ℕ, ◌+◌, ◌*◌, ◌/◌, ◌%◌, ◌^◌, Bool, true, false, List, [], ◌∷◌, Option, none, some, ltb, ◌==◌, not,
  if◌then◌else◌, ◌&&◌, ◌||◌, length, take, add64,
}
use otos_coreinit.Wire.{Message, build_flat, read_flat_exact, word, flag}

abbrev pub rpc_magic : ℕ
rpc_magic = 0x4f544f5352504331

abbrev pub rpc_version : ℕ
rpc_version = 2

abbrev pub rpc_request : ℕ
rpc_request = 1

abbrev pub rpc_response : ℕ
rpc_response = 2

abbrev pub header_size : ℕ
header_size = 80

abbrev pub max_payload : ℕ
max_payload = 4096

pub record Packet : Type 0 where
  pub header : Message
  pub body : List ℕ

abbrev pub packet_len : Packet → ℕ
packet_len p = length p.header.head + 8 * length p.header.words + length p.body

-- The eight words of the routing envelope.
pub record Envelope : Type 0 where
  pub magic : ℕ
  pub version_and_type : ℕ
  pub request_id : ℕ
  pub source_node : ℕ
  pub destination_node : ℕ
  pub target_handle : ℕ
  pub method_and_payload_length : ℕ
  pub response_capacity_and_status : ℕ

abbrev pub envelope_words : Envelope → List ℕ
envelope_words e =
    e.magic ∷ e.version_and_type ∷ e.request_id ∷ e.source_node ∷ e.destination_node
    ∷ e.target_handle ∷ e.method_and_payload_length ∷ e.response_capacity_and_status ∷ []

abbrev pub envelope_of : List ℕ → Envelope
envelope_of ws = record {
  magic = word ws 0;
  version_and_type = word ws 1;
  request_id = word ws 2;
  source_node = word ws 3;
  destination_node = word ws 4;
  target_handle = word ws 5;
  method_and_payload_length = word ws 6;
  response_capacity_and_status = word ws 7;
}

-- `(uint32_t)w` and `(uint32_t)(w >> 32)`.
abbrev pub low32 : ℕ → ℕ
low32 w = w % 2 ^ 32

abbrev pub high32 : ℕ → ℕ
high32 w = (w / 2 ^ 32) % 2 ^ 32

abbrev pub envelope_record : ℕ → ℕ → ℕ → ℕ → ℕ → ℕ → ℕ → ℕ → ℕ → Envelope
envelope_record type request_id source destination target method payload_len response_cap status =
    record {
      magic = rpc_magic;
      version_and_type = rpc_version + type * 2 ^ 32;
      request_id = request_id;
      source_node = source;
      destination_node = destination;
      target_handle = target;
      method_and_payload_length = method + payload_len * 2 ^ 32;
      response_capacity_and_status = response_cap + status * 2 ^ 32;
    }

pub envelope : ℕ → Envelope → Option Message
envelope cap e = build_flat cap (envelope_words e)

pub read_envelope : Packet → Option Envelope
read_envelope p =
    if ltb (packet_len p) header_size
    then none
    else (elim (read_flat_exact p.header 8) [ none ↦ none | some ws ↦ some (envelope_of ws) ])

-- The magic, the version and the type that each check asks for.
abbrev pub has_type : ℕ → Envelope → Bool
has_type type h =
    (h.magic == rpc_magic && low32 h.version_and_type == rpc_version)
    && high32 h.version_and_type == type

pub network_rpc_is_response : Packet → Bool
network_rpc_is_response p = elim (read_envelope p) [
  | none ↦ false
  | some h ↦ has_type rpc_response h
]

pub network_rpc_response_matches : Packet → Packet → Bool
network_rpc_response_matches request response = elim (read_envelope request) [
  | none ↦ false
  | some q ↦ elim (read_envelope response) [
    | none ↦ false
    | some r ↦
        (has_type rpc_request q && has_type rpc_response r)
        && ((r.request_id == q.request_id && r.source_node == q.destination_node)
            && r.destination_node == q.source_node)
  ]
]

-- How packets travel: the request, the room for the reply, and the state of what is out there.
abbrev pub Exchange : Type 0 → Type 0
Exchange S = Packet → ℕ → S → Option Packet × S

-- A call of the kernel of this machine: target, method, message, room for the response; the answer
-- is its success and the `result_len` bytes of the response.
abbrev pub LocalInvoke : Type 0 → Type 0
LocalInvoke S = ℕ → ℕ → List ℕ → ℕ → S → (Bool × List ℕ) × S

module _ (S : Type 0) where
  pub record Session : Type 0 where
    pub local_node : ℕ
    pub remote_node : ℕ
    pub next_request_id : ℕ
    pub exchange : Option (Exchange S)

  abbrev pub network_rpc_session_init : ℕ → ℕ → Exchange S → Session
  network_rpc_session_init local_node remote_node exchange = record {
    local_node = local_node;
    remote_node = remote_node;
    next_request_id = 1;
    exchange = some exchange;
  }

  -- What network_rpc_invoke checks of the envelope of a reply.
  pub accept_envelope : Session → ℕ → ℕ → Packet → Envelope → Option (List ℕ)
  accept_envelope s id response_cap reply h =
      let payload_len = high32 h.method_and_payload_length in
      if not (has_type rpc_response h)
        || (not (h.request_id == id)
            || (not (h.source_node == s.remote_node) || not (h.destination_node == s.local_node)))
      then none
      else if ltb response_cap payload_len
          || (not (packet_len reply == header_size + payload_len)
              || high32 h.response_capacity_and_status == 0)
      then none
      else some (take payload_len reply.body)

  -- The response's payload, if the reply answers the request `id`.
  pub accept : Session → ℕ → ℕ → Packet → Option (List ℕ)
  accept s id response_cap reply = elim (read_envelope reply) [
    | none ↦ none
    | some h ↦ accept_envelope s id response_cap reply h
  ]

  -- The response (`none` for a failure), the session and the rest of the world. (No null pointers.)
  pub network_rpc_invoke : Session → ℕ → ℕ → List ℕ → ℕ → S → Option (List ℕ) × Session × S
  network_rpc_invoke s target method_id msg response_cap st = elim s.exchange [
    | none ↦ (none, s, st)
    | some exchange ↦
        let id = s.next_request_id in
        let s' : Session = record s { next_request_id = add64 id 1 } in
        let e =
          envelope_record rpc_request id s.local_node s.remote_node target method_id (length msg)
            response_cap 0 in
        if ltb max_payload (length msg) || ltb max_payload response_cap
        then (none, s, st)
        else (elim (envelope (header_size + max_payload) e) [
          | none ↦ (none, s', st)
          | some header ↦
              let (reply, st') =
                exchange (record { header = header; body = msg }) (header_size + max_payload) st in
              (elim reply [ none ↦ none | some r ↦ accept s id response_cap r ], s', st')
        ])
  ]

  -- What keeps a request from the local kernel.
  pub refuses : ℕ → Packet → ℕ → Envelope → Bool
  refuses local_node request response_cap h =
      let payload_len = high32 h.method_and_payload_length in
      let wanted = low32 h.response_capacity_and_status in
      not (has_type rpc_request h)
      || (not (h.destination_node == local_node)
          || (ltb max_payload payload_len
              || (ltb max_payload wanted
                  || (not (packet_len request == header_size + payload_len)
                      || ltb response_cap (header_size + wanted)))))

  pub network_rpc_serve : ℕ → LocalInvoke S → Packet → ℕ → S → Option Packet × S
  unfolding refuses
  network_rpc_serve local_node local_invoke request response_cap st =
      if ltb (packet_len request) header_size || ltb response_cap header_size
      then (none, st)
      else (elim (read_envelope request) [
        | none ↦ (none, st)
        | some h ↦
            let payload_len = high32 h.method_and_payload_length in
            let wanted = low32 h.response_capacity_and_status in
            let method = low32 h.method_and_payload_length in
            if refuses local_node request response_cap h
            then (none, st)
            else (let ((ok, result), st') =
                  local_invoke h.target_handle method (take payload_len request.body) wanted st in
                let e =
                  envelope_record rpc_response h.request_id local_node h.source_node h.target_handle
                    method (length result) 0 (flag ok) in
                (
                  if ltb wanted (length result) then none else (elim (envelope response_cap e) [
                    | none ↦ none
                    | some header ↦ some (record { header = header; body = result })
                  ]),
                  st',
                ))
      ])
