-- ===== src/Rpc/Roundtrip.antt =====
-- A message of src/rpc.rs, encoded and decoded again.
use discv.Prelude.{
  refl, length, ◌<◌, ℕ, ◌≡◌, ◌^◌, ◌≤◌, List, false, ◌∷◌, ◌==◌, All, ltb, true, [], arith, suc, ◌∙◌,
  ◌+◌, if◌then◌else◌, Bool-cases, inl, inr, ◌⊎◌, get_elem?, some, ltb→lt,
}
use discv.Packet.Outcome.{ok, err}
use discv.Packet.Bytes.{slice_from, index}
use discv.Rpc.Message.{
  Message, RequestBody, ResponseBody, IpAddr, v4, v6, ping, find_node, pong, nodes, request,
  response, request_type,
}
use discv.Rpc.Rlp.{Rlp, RlpLaws, Item, bytes, written, distance_invalid, numbers}
use discv.Rpc.Codec.{
  decode, encode, decode_id, address_of_octets, any_too_far, encode_request, decode_body,
  decode_find_node,
}

abbrev pub IsAddress : IpAddr → Type 0
IsAddress (v4 o) = length o ≡ 4
IsAddress (v6 o) = length o ≡ 16

-- What the types of the source allow, and an id of 8 bytes at most.
abbrev pub IsRequest : RequestBody → Type 0
IsRequest (ping enr_seq) = enr_seq < 2 ^ 64
IsRequest (find_node distances) = All (λ (d : ℕ). d ≤ 256) distances
IsRequest (RequestBody.talk protocol req) = Unit {0}

abbrev pub IsResponse : {Enr : Type 0} → ResponseBody Enr → Type 0
IsResponse (pong enr_seq ip port) = (enr_seq < 2 ^ 64) × IsAddress ip × (0 < port) × (port < 2 ^ 16)
IsResponse (nodes total rs) = total < 2 ^ 64
IsResponse (ResponseBody.talk resp) = Unit {0}

abbrev pub IsMessage : {Enr : Type 0} → Message Enr → Type 0
IsMessage (request r) = (length r.id ≤ 8) × IsRequest r.body
IsMessage (response r) = (length r.id ≤ 8) × IsResponse r.body

-- The address as it is read.
abbrev pub normal_address : IpAddr → IpAddr
normal_address (v4 o) = v4 o
normal_address (v6 o) = address_of_octets o

abbrev pub normal_body : {Enr : Type 0} → ResponseBody Enr → ResponseBody Enr
normal_body (pong enr_seq ip port) = pong enr_seq (normal_address ip) port
normal_body (nodes total rs) = nodes total rs
normal_body (ResponseBody.talk resp) = ResponseBody.talk resp

abbrev pub normal : {Enr : Type 0} → Message Enr → Message Enr
normal (request r) = request r
normal (response r) = response (record r { body = normal_body r.body })

near_of : (ds : List ℕ) → any_too_far ds ≡ false → All (λ (d : ℕ). d ≤ 256) ds
unfolding any_too_far
near_of [] h = tt
near_of (d ∷ ds) h = elim (Bool-cases (ltb 256 d)) [
  | inl far ↦ let g : true ≡ false = rw far at h in absurd cc
  | inr near ↦ let g : any_too_far ds ≡ false = rw near at h in (ground arith, near_of ds g)
]

far_of :
    (ds : List ℕ)
    → any_too_far ds ≡ true
    → (i : ℕ) × (d : ℕ) × (get_elem? ds i ≡ some d) × (256 < d)
unfolding any_too_far
far_of [] h = cc
far_of (d ∷ ds) h = elim (Bool-cases (ltb 256 d)) [
  | inl far ↦ (0, d, refl, ltb→lt 256 d far)
  | inr near ↦
      let g : any_too_far ds ≡ true = rw near at h in
      let (i, x, at_i, above) = far_of ds g in (suc i, x, at_i, above)
]

module _ ⦃rlp : Rlp⦄ ⦃laws : RlpLaws⦄ where
  decode-written :
      (t : ℕ) (id : List ℕ) (x : Item rlp.Enr) (xs : List (Item rlp.Enr))
      → length id ≤ 8
      → let items = bytes id ∷ x ∷ xs in
        decode (t ∷ written items) ≡ decode_body t id (rlp.view (written items)) (length items)
  unfolding decode decode_id index slice_from
  decode-written t id x xs h =
      let items = bytes id ∷ x ∷ xs in
      let (hl, vl, p, sum) = laws.payload_info-written items in
      let long : ltb (suc (length (written items))) 3 ≡ false =
        ground (arith, laws.length-written items) in
      let first : ltb (suc (length (written items))) 1 ≡ false = ground arith in
      let short : ltb 8 (length id) ≡ false = ground arith in
      let enough : ltb (length items) 2 ≡ false = ground arith in
      let same : (length (written items) == hl + vl) ≡ true = ground (arith, sum) in
      rw
        (
          long,
          first,
          laws.item_count-written items,
          enough,
          p,
          same,
          laws.bytes_at-written items 0 id refl,
          short,
        )
        refl

  decode-find_node :
      (id ds : List ℕ)
      → length id ≤ 8
      → All (λ (d : ℕ). d < 2 ^ 64) ds
      → decode (encode (request (record { id = id; body = find_node ds }))) ≡ (
          if any_too_far ds
          then err (rlp.custom distance_invalid)
          else ok (request (record { id = id; body = find_node ds })))
  unfolding encode encode_request request_type decode_body decode_find_node
  decode-find_node id ds h b =
      let items = bytes id ∷ numbers ds ∷ [] in
      let run = decode-written 3 id (numbers ds) [] h in
      elim (Bool-cases (any_too_far ds)) [
        | inl far ↦ run ∙ rw (laws.u64s_at-written items 1 ds refl b, far) refl
        | inr near ↦ run ∙ rw (laws.u64s_at-written items 1 ds refl b, near) refl
      ]

  -- A FINDNODE request with an id of 8 bytes at most, encoded and decoded: if every distance is 256
  -- at most it is read back, and otherwise, with some distance above 256, it is refused.
  pub decode-encode_find_node :
      (id ds : List ℕ)
      → length id ≤ 8
      → All (λ (d : ℕ). d < 2 ^ 64) ds
      → let read = decode (encode (request (record { id = id; body = find_node ds }))) in
        (All (λ (d : ℕ). d ≤ 256) ds
          × (read ≡ ok (request (record { id = id; body = find_node ds }))))
        ⊎ ((i : ℕ) × (d : ℕ) × (get_elem? ds i ≡ some d)
            × (256 < d)
            × (read ≡ err (rlp.custom distance_invalid)))
  decode-encode_find_node id ds h b = elim (Bool-cases (any_too_far ds)) [
    | inr near ↦ inl (near_of ds near, decode-find_node id ds h b ∙ rw near refl)
    | inl far ↦
        let (i, d, at_i, above) = far_of ds far in
        inr (i, d, at_i, above, decode-find_node id ds h b ∙ rw far refl)
  ]
