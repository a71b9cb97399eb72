-- ===== src/Packet/Codec.antt =====
-- The header and the packet of src/packet/mod.rs, `PacketHeader` and `Packet`, with `encode`,
-- `authenticated_data` and `decode`.
use discv.Prelude.{
  List, ℕ, Option, length, ◌+◌, [], some, ◌++◌, take, not, ltb, ◌≡◌, none, ◌-◌, ◌==◌, ◌&&◌,
}
use discv.Packet.Outcome.{Outcome, ok, ◌>>=◌, ◌>>◌, fail_if}
use discv.Packet.Crates.{NodeIds, Records, StreamCipher}
use discv.Packet.Bytes.{slice, slice_from, index, into_array, from_be_bytes, to_be_bytes, bytes_eq}
use discv.Packet.Kind.{
  PacketKind, PacketError, message, who_are_you, handshake, encode_kind, kind_byte,
  header_decryption_failed, too_large, invalid_version, too_small, invalid_auth_data_size,
  header_length_invalid, decode_kind, is_whoareyou, unknown_packet,
}

-- `ProtocolIdentity`, two constant arrays
pub record ProtocolIdentity : Type 0 where
  pub protocol_id_bytes : List ℕ
  pub protocol_version_bytes : List ℕ
  pub length_id : length protocol_id_bytes ≡ 6
  pub length_version : length protocol_version_bytes ≡ 2

-- `IV_LENGTH`, `STATIC_HEADER_LENGTH`, `MESSAGE_NONCE_LENGTH`, `MAX_PACKET_SIZE`, `MIN_PACKET_SIZE`
abbrev pub iv_length : ℕ
iv_length = 16

abbrev pub static_header_length : ℕ
static_header_length = 23

abbrev pub message_nonce_length : ℕ
message_nonce_length = 12

abbrev pub max_packet_size : ℕ
max_packet_size = 1280

abbrev pub min_packet_size : ℕ
min_packet_size = iv_length + static_header_length + 24

pub record PacketHeader (N R : Type 0) : Type 0 where
  pub message_nonce : List ℕ
  pub kind : PacketKind N R

pub record Packet (N R : Type 0) : Type 0 where
  pub iv : ℕ
  pub header : PacketHeader N R
  pub message : List ℕ

module _ {N R : Type 0} where
  -- `new_message`, `new_whoareyou` and `new_authheader`; the random `iv` is the first argument
  unfoldable pub new_message : ℕ → N → List ℕ → List ℕ → Packet N R
  new_message iv src_id message_nonce ciphertext = record {
    iv = iv;
    header = record { message_nonce = message_nonce; kind = message src_id };
    message = ciphertext;
  }

  unfoldable pub new_whoareyou : ℕ → List ℕ → List ℕ → ℕ → Packet N R
  new_whoareyou iv request_nonce id_nonce enr_seq = record {
    iv = iv;
    header = record { message_nonce = request_nonce; kind = who_are_you id_nonce enr_seq };
    message = [];
  }

  unfoldable pub new_authheader : ℕ → N → List ℕ → List ℕ → List ℕ → Option R → Packet N R
  new_authheader iv src_id message_nonce id_nonce_sig ephem_pubkey enr_record = record {
    iv = iv;
    header = record {
      message_nonce = message_nonce;
      kind = handshake src_id id_nonce_sig ephem_pubkey enr_record;
    };
    message = [];
  }

  -- `Packet::src_id`
  unfoldable pub src_id : Packet N R → Option N
  src_id p = elim p.header.kind [
    | message n ↦ some n
    | who_are_you id_nonce enr_seq ↦ none
    | handshake n sig key r ↦ some n
  ]

module _ {N R : Type 0} ⦃ids : NodeIds N⦄ ⦃enrs : Records R⦄ ⦃protocol : ProtocolIdentity⦄ where
  -- The first 23 bytes of an encoded header.
  unfoldable pub encode_static : PacketHeader N R → List ℕ
  unfolding encode_kind
  encode_static h =
      protocol.protocol_id_bytes
      ++ protocol.protocol_version_bytes
      ++ to_be_bytes 1 (kind_byte h.kind)
      ++ h.message_nonce
      ++ to_be_bytes 2 (length (encode_kind h.kind))

  -- `PacketHeader::encode`
  unfoldable pub encode_header : PacketHeader N R → List ℕ
  encode_header h = encode_static h ++ encode_kind h.kind

  -- `Packet::authenticated_data`
  unfoldable pub authenticated_data : Packet N R → List ℕ
  authenticated_data p = to_be_bytes 16 p.iv ++ encode_header p.header

module _ {N : Type 0} ⦃ids : NodeIds N⦄ ⦃aes : StreamCipher⦄ where
  -- The cipher of a packet to a node, in which `raw()` has 32 bytes.
  abbrev pub header_cipher : N → List ℕ → aes.Cipher
  header_cipher dst_id nonce = aes.new (take 16 (ids.raw dst_id)) nonce

module _ {N R : Type 0} ⦃ids : NodeIds N⦄ ⦃enrs : Records R⦄ ⦃aes : StreamCipher⦄
    ⦃protocol : ProtocolIdentity⦄ where
  -- `Packet::encrypt_header`
  unfoldable pub encrypt_header : Packet N R → N → List ℕ
  encrypt_header p dst_id =
      (aes.apply_keystream (header_cipher dst_id (to_be_bytes 16 p.iv)) (encode_header p.header)).0

  -- `Packet::encode`
  unfoldable pub encode_packet : Packet N R → N → List ℕ
  encode_packet p dst_id = to_be_bytes 16 p.iv ++ encrypt_header p dst_id ++ p.message

  -- The part of `decode` that reads the auth data and the message.
  unfoldable pub decode_rest :
      List ℕ
      → aes.Cipher
      → List ℕ
      → List ℕ
      → ℕ
      → ℕ
      → List ℕ
      → Outcome (PacketError enrs.DecoderError) (Packet N R × List ℕ)
  decode_rest iv cipher static_header message_nonce flag auth_data_size bytes = do
    remaining_data ← slice_from (iv_length + static_header_length) bytes
    fail_if (ltb (length remaining_data) auth_data_size) invalid_auth_data_size
    masked ←
        slice (iv_length + static_header_length) (iv_length + static_header_length + auth_data_size)
          bytes
    let auth_data = (aes.apply_keystream cipher masked).0
    kind ← decode_kind flag auth_data
    rest ← slice_from (iv_length + static_header_length + auth_data_size) bytes
    fail_if (not (bytes_eq rest []) && is_whoareyou kind) unknown_packet
    iv_bytes ← into_array 16 iv
    ok (
      record {
        iv = from_be_bytes iv_bytes;
        header = record { message_nonce = message_nonce; kind = kind };
        message = rest;
      },
      iv ++ static_header ++ auth_data,
    )

  -- The part of `decode` that reads the static header, from the check of the protocol id on.
  unfoldable pub decode_static :
      List ℕ
      → aes.Cipher
      → List ℕ
      → List ℕ
      → Outcome (PacketError enrs.DecoderError) (Packet N R × List ℕ)
  decode_static iv cipher static_header bytes = do
    id_bytes ← slice 0 6 static_header
    fail_if (not (bytes_eq id_bytes protocol.protocol_id_bytes)) header_decryption_failed
    version_bytes ← slice 6 8 static_header
    fail_if (not (bytes_eq version_bytes protocol.protocol_version_bytes))
        (invalid_version (from_be_bytes version_bytes))
    flag ← index 8 static_header
    message_nonce ← slice 9 (9 + message_nonce_length) static_header >>= into_array 12
    size_bytes ← slice_from (static_header_length - 2) static_header >>= into_array 2
    decode_rest iv cipher static_header message_nonce flag (from_be_bytes size_bytes) bytes

  -- `Packet::decode`
  unfoldable pub decode_packet :
      N → List ℕ → Outcome (PacketError enrs.DecoderError) (Packet N R × List ℕ)
  decode_packet src_id bytes = do
    fail_if (ltb max_packet_size (length bytes)) too_large
    fail_if (ltb (length bytes) min_packet_size) too_small
    iv ← slice 0 iv_length bytes
    nonce ← into_array 16 iv
    let cipher = header_cipher src_id nonce
    masked ← slice iv_length (iv_length + static_header_length) bytes
    let (static_header, cipher') = aes.apply_keystream cipher masked
    fail_if (not (length static_header == static_header_length))
        (header_length_invalid (length static_header))
    decode_static iv cipher' static_header bytes
