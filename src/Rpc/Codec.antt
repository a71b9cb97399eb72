-- ===== src/Rpc/Codec.antt =====
-- `Message::encode` and `Message::decode` of src/rpc.rs, with the parts for requests and responses.
use discv.Rpc.Rlp.{
  Rlp, distance_invalid, port_number_invalid, unknown_message_type, append_enrs, invalid_id_length,
}
use discv.Prelude.{
  none, List, ℕ, ◌⊎◌, if◌then◌else◌, Bool, ◌∷◌, inl, ltb, not, ◌==◌, some, false, inr, length, [],
  true, ◌+◌,
}
use discv.Packet.Outcome.{Outcome, err, ok, ◌>>=◌, ◌>>◌, fail_if}
use discv.Packet.Bytes.{slice_from, index}
use discv.Rpc.Message.{
  Message, Request, Response, RequestBody, ResponseBody, IpAddr, v4, v6, ping, find_node, pong,
  nodes, request, response, is_loopback, to_ipv4, request_type, response_type,
}

abbrev pub octets : IpAddr → List ℕ
octets (v4 o) = o
octets (v6 o) = o

-- The address of 16 octets: an IPv4 address inside an IPv6 one is taken out, except in `::1`.
unfoldable pub address_of_octets : List ℕ → IpAddr
unfolding is_loopback to_ipv4
address_of_octets o =
    if is_loopback o then v6 o else elim (to_ipv4 o) [ some a ↦ v4 a | none ↦ v6 o ]

-- Some distance is above 256.
unfoldable pub any_too_far : List ℕ → Bool
any_too_far [] = false
any_too_far (d ∷ ds) = if ltb 256 d then true else any_too_far ds

module _ ⦃rlp : Rlp⦄ where
  -- `Request::encode`
  unfoldable pub encode_request : Request → List ℕ
  unfolding request_type
  encode_request r = elim r.body [
    | ping enr_seq ↦
        request_type r.body
        ∷ rlp.out (rlp.append_number enr_seq (rlp.append_bytes r.id (rlp.begin_list 2 rlp.new)))
    | find_node distances ↦
        request_type r.body
        ∷ rlp.out (rlp.append_numbers distances (rlp.append_bytes r.id (rlp.begin_list 2 rlp.new)))
    | RequestBody.talk protocol req ↦
        request_type r.body
        ∷ rlp.out (
            rlp.append_bytes req
              (rlp.append_bytes protocol (rlp.append_bytes r.id (rlp.begin_list 3 rlp.new))))
  ]

  -- `Response::encode`
  unfoldable pub encode_response : Response rlp.Enr → List ℕ
  unfolding response_type
  encode_response r = elim r.body [
    | pong enr_seq ip port ↦
        response_type r.body
        ∷ rlp.out (
            rlp.append_number port (
              rlp.append_bytes (octets ip)
                (rlp.append_number enr_seq (rlp.append_bytes r.id (rlp.begin_list 4 rlp.new)))))
    | nodes total enrs ↦
        let s = rlp.append_number total (rlp.append_bytes r.id (rlp.begin_list 3 rlp.new)) in
        response_type r.body
        ∷ rlp.out (elim enrs [
          | [] ↦ rlp.begin_list 0 s
          | x ∷ xs ↦ append_enrs (x ∷ xs) (rlp.begin_list (length (x ∷ xs)) s)
        ])
    | ResponseBody.talk resp ↦
        response_type r.body
        ∷ rlp.out (rlp.append_bytes resp (rlp.append_bytes r.id (rlp.begin_list 2 rlp.new)))
  ]

  -- `Message::encode`
  unfoldable pub encode : Message rlp.Enr → List ℕ
  unfolding encode_request encode_response
  encode (request r) = encode_request r
  encode (response r) = encode_response r

  -- A `Result` of the crate, with the operator `?`.
  abbrev pub of_result {ℓ} : {A : Type ℓ} → rlp.DecoderError ⊎ A → Outcome rlp.DecoderError A
  of_result (inl e) = err e
  of_result (inr a) = ok a

  -- `RequestId::decode`
  unfoldable pub decode_id : List ℕ → Outcome rlp.DecoderError (List ℕ)
  decode_id bytes = do fail_if (ltb 8 (length bytes)) (rlp.custom invalid_id_length); ok bytes

  abbrev pub expect_length : ℕ → ℕ → Outcome rlp.DecoderError (Unit {0})
  expect_length n list_len = fail_if (not (list_len == n)) rlp.rlp_incorrect_list_len

  unfoldable pub decode_ping : List ℕ → rlp.View → ℕ → Outcome rlp.DecoderError (Message rlp.Enr)
  decode_ping id v list_len = do
    expect_length 2 list_len
    enr_seq ← of_result (rlp.u64_at v 1)
    ok (request (record { id = id; body = ping enr_seq }))

  unfoldable pub decode_address : List ℕ → Outcome rlp.DecoderError IpAddr
  unfolding address_of_octets
  decode_address ip_bytes =
      if length ip_bytes == 4
      then ok (v4 ip_bytes)
      else if length ip_bytes == 16
      then ok (address_of_octets ip_bytes)
      else err rlp.rlp_incorrect_list_len

  unfoldable pub decode_pong : List ℕ → rlp.View → ℕ → Outcome rlp.DecoderError (Message rlp.Enr)
  decode_pong id v list_len = do
    expect_length 4 list_len
    ip_bytes ← of_result (rlp.bytes_at v 2)
    ip ← decode_address ip_bytes
    raw_port ← of_result (rlp.u16_at v 3)
    fail_if (raw_port == 0) (rlp.custom port_number_invalid)
    enr_seq ← of_result (rlp.u64_at v 1)
    ok (response (record { id = id; body = pong enr_seq ip raw_port }))

  unfoldable pub decode_find_node :
      List ℕ → rlp.View → ℕ → Outcome rlp.DecoderError (Message rlp.Enr)
  decode_find_node id v list_len = do
    expect_length 2 list_len
    distances ← of_result (rlp.u64s_at v 1)
    fail_if (any_too_far distances) (rlp.custom distance_invalid)
    ok (request (record { id = id; body = find_node distances }))

  unfoldable pub decode_nodes : List ℕ → rlp.View → ℕ → Outcome rlp.DecoderError (Message rlp.Enr)
  decode_nodes id v list_len = do
    expect_length 3 list_len
    enr_list_rlp ← of_result (rlp.at v 2)
    enrs ← if rlp.is_empty enr_list_rlp then ok [] else of_result (rlp.as_enrs enr_list_rlp)
    total ← of_result (rlp.u64_at v 1)
    ok (response (record { id = id; body = nodes total enrs }))

  unfoldable pub decode_talk_request :
      List ℕ → rlp.View → ℕ → Outcome rlp.DecoderError (Message rlp.Enr)
  decode_talk_request id v list_len = do
    expect_length 3 list_len
    protocol ← of_result (rlp.bytes_at v 1)
    req ← of_result (rlp.bytes_at v 2)
    ok (request (record { id = id; body = RequestBody.talk protocol req }))

  unfoldable pub decode_talk_response :
      List ℕ → rlp.View → ℕ → Outcome rlp.DecoderError (Message rlp.Enr)
  decode_talk_response id v list_len = do
    expect_length 2 list_len
    resp ← of_result (rlp.bytes_at v 1)
    ok (response (record { id = id; body = ResponseBody.talk resp }))

  -- The `match` on the message type.
  unfoldable pub decode_body :
      ℕ → List ℕ → rlp.View → ℕ → Outcome rlp.DecoderError (Message rlp.Enr)
  decode_body msg_type id v list_len =
      if msg_type == 1
      then decode_ping id v list_len
      else if msg_type == 2
      then decode_pong id v list_len
      else if msg_type == 3
      then decode_find_node id v list_len
      else if msg_type == 4
      then decode_nodes id v list_len
      else if msg_type == 5
      then decode_talk_request id v list_len
      else if msg_type == 6
      then decode_talk_response id v list_len
      else err (rlp.custom unknown_message_type)

  -- `Message::decode`
  unfoldable pub decode : List ℕ → Outcome rlp.DecoderError (Message rlp.Enr)
  decode bytes = do
    fail_if (ltb (length bytes) 3) rlp.rlp_is_too_short
    msg_type ← index 0 bytes
    payload ← slice_from 1 bytes
    let v = rlp.view payload
    list_len ← of_result (rlp.item_count v)
    fail_if (ltb list_len 2) rlp.rlp_incorrect_list_len
    (header_len, value_len) ← of_result (rlp.payload_info v)
    fail_if (not (length payload == header_len + value_len)) rlp.rlp_inconsistent_length_and_data
    id ← of_result (rlp.bytes_at v 0) >>= decode_id
    decode_body msg_type id v list_len
