-- ===== src/Packet/Kind.antt =====
-- The kinds of packet of src/packet/mod.rs, `PacketKind`, with the codec of their auth data, and the
-- `PacketError` of src/error.rs.
use discv.Prelude.{
  ℕ, List, Bool, Option, false, [], ◌++◌, not, if◌then◌else◌, ltb, true, some, length, ◌==◌, inl,
  ◌+◌, none, inr, ◌⊎◌,
}
use discv.Packet.Outcome.{Outcome, err, ok, ◌>>=◌, ◌>>◌, fail_if}
use discv.Packet.Crates.{NodeIds, Records}
use discv.Packet.Bytes.{slice, slice_from, index, into_array, from_be_bytes, to_be_bytes}

pub data PacketError (DecoderError : Type 0) : Type 0 where
  unknown_packet too_large too_small invalid_node_id : PacketError DecoderError
  header_length_invalid : ℕ → PacketError DecoderError
  header_decryption_failed invalid_auth_data_size : PacketError DecoderError
  invalid_version : ℕ → PacketError DecoderError
  invalid_enr : DecoderError → PacketError DecoderError

pub data PacketKind (N R : Type 0) : Type 0 where
  message : N → PacketKind N R
  who_are_you : List ℕ → ℕ → PacketKind N R
  handshake : N → List ℕ → List ℕ → Option R → PacketKind N R

module _ {N R : Type 0} where
  -- `From<&PacketKind> for u8`
  unfoldable pub kind_byte : PacketKind N R → ℕ
  kind_byte (message src_id) = 0
  kind_byte (who_are_you id_nonce enr_seq) = 1
  kind_byte (handshake src_id sig key record') = 2

  unfoldable pub is_whoareyou : PacketKind N R → Bool
  is_whoareyou (message src_id) = false
  is_whoareyou (who_are_you id_nonce enr_seq) = true
  is_whoareyou (handshake src_id sig key record') = false

module _ {R : Type 0} ⦃enrs : Records R⦄ where
  -- The bytes of the record of a handshake, none without one.
  abbrev pub encode_record : Option R → List ℕ
  encode_record none = []
  encode_record (some r) = enrs.rlp_encode r

  -- `map_err(PacketError::InvalidEnr)`
  abbrev pub map_enr_error :
      enrs.DecoderError ⊎ R → Outcome (PacketError enrs.DecoderError) (Option R)
  map_enr_error (inl e) = err (invalid_enr e)
  map_enr_error (inr r) = ok (some r)

  unfoldable pub decode_record : List ℕ → ℕ → Outcome (PacketError enrs.DecoderError) (Option R)
  decode_record remaining_data total_size =
      if ltb total_size (length remaining_data)
      then (do bytes ← slice_from total_size remaining_data; map_enr_error (enrs.rlp_decode bytes))
      else ok none

module _ {N : Type 0} where
  -- `map_err(|_| PacketError::InvalidNodeId)`
  abbrev pub id_of : {D : Type 0} → Option N → Outcome (PacketError D) N
  id_of none = err invalid_node_id
  id_of (some n) = ok n

module _ {N : Type 0} ⦃ids : NodeIds N⦄ where
  -- `NodeId::parse`, with its error
  unfoldable pub parse_id : {D : Type 0} → List ℕ → Outcome (PacketError D) N
  parse_id bytes = id_of (ids.parse bytes)

module _ {N R : Type 0} ⦃ids : NodeIds N⦄ ⦃enrs : Records R⦄ where
  -- `PacketKind::encode`
  unfoldable pub encode_kind : PacketKind N R → List ℕ
  encode_kind (message src_id) = ids.raw src_id
  encode_kind (who_are_you id_nonce enr_seq) = id_nonce ++ to_be_bytes 8 enr_seq
  encode_kind (handshake src_id sig key r) =
      ids.raw src_id
      ++ to_be_bytes 1 (length sig)
      ++ to_be_bytes 1 (length key)
      ++ sig
      ++ key
      ++ encode_record r

  unfoldable pub decode_message : List ℕ → Outcome (PacketError enrs.DecoderError) (PacketKind N R)
  decode_message auth_data = do
    fail_if (not (length auth_data == 32)) invalid_auth_data_size
    src_id ← parse_id auth_data
    ok (message src_id)

  unfoldable pub decode_whoareyou :
      List ℕ → Outcome (PacketError enrs.DecoderError) (PacketKind N R)
  decode_whoareyou auth_data = do
    fail_if (not (length auth_data == 24)) invalid_auth_data_size
    id_nonce ← slice 0 16 auth_data >>= into_array 16
    enr_seq ← slice_from 16 auth_data >>= into_array 8
    ok (who_are_you id_nonce (from_be_bytes enr_seq))

  unfoldable pub decode_handshake :
      List ℕ → Outcome (PacketError enrs.DecoderError) (PacketKind N R)
  decode_handshake auth_data = do
    fail_if (ltb (length auth_data) 34) invalid_auth_data_size
    src_id ← slice 0 32 auth_data >>= parse_id
    sig_size ← index 32 auth_data
    eph_key_size ← index (32 + 1) auth_data
    let total_size = sig_size + eph_key_size
    fail_if (ltb (length auth_data) (34 + total_size)) invalid_auth_data_size
    remaining_data ← slice_from (32 + 2) auth_data
    id_nonce_sig ← slice 0 sig_size remaining_data
    ephem_pubkey ← slice sig_size total_size remaining_data
    enr_record ← decode_record remaining_data total_size
    ok (handshake src_id id_nonce_sig ephem_pubkey enr_record)

  -- `PacketKind::decode`
  unfoldable pub decode_kind : ℕ → List ℕ → Outcome (PacketError enrs.DecoderError) (PacketKind N R)
  decode_kind kind auth_data =
      if kind == 0
      then decode_message auth_data
      else if kind == 1
      then decode_whoareyou auth_data
      else if kind == 2
      then decode_handshake auth_data
      else err unknown_packet
