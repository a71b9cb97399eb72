-- ===== src/Packet/Roundtrip.antt =====
-- A packet of src/packet/mod.rs, encoded for a node and decoded by it.
use discv.Packet.KindRoundtrip.{IsKind, decode_kind-encode_kind}
use discv.Prelude.{
  refl, ◌<◌, ◌^◌, length, List, ◌≡◌, ℕ, length-append, true, [], arith, ◌++◌, ◌%◌, not, ◌&&◌, false,
  ◌∙◌, ◌+◌, ltb, Bool-cases, ◌≤◌, inl, inr,
}
use mathlib.Core.List.{append_assoc}
use discv.Packet.Outcome.{ok}
use discv.Packet.Crates.{NodeIds, Records, StreamCipher}
use discv.Packet.Bytes.{
  slice, slice_from, index, to_be_bytes, length-to_be_bytes, slice-append_first, slice-append,
  index-append, slice_from-append, bytes_eq, bytes_eq_self, into_array-length,
  from_be_bytes-to_be_bytes,
}
use discv.Packet.Kind.{
  PacketKind, PacketError, message, who_are_you, handshake, kind_byte, is_whoareyou, encode_kind,
}
use discv.Packet.Codec.{
  Packet, PacketHeader, encode_static, ProtocolIdentity, decode_static, authenticated_data,
  encode_header, encode_packet, decode_packet, encrypt_header, header_cipher, decode_rest,
}

module _ {N R : Type 0} where
  kind_byte-mod : (k : PacketKind N R) → kind_byte k % 256 ≡ kind_byte k
  unfolding kind_byte
  kind_byte-mod (message n) = refl
  kind_byte-mod (who_are_you nonce seq) = refl
  kind_byte-mod (handshake n sig key r) = refl

  -- A packet that the types of the source allow and that `decode` is to accept: a WHOAREYOU packet
  -- has no message.
  pub record IsPacket (p : Packet N R) : Type 0 where
    pub iv_range : p.iv < 256 ^ 16
    pub nonce_length : length p.header.message_nonce ≡ 12
    pub kind_valid : IsKind p.header.kind
    pub no_message : is_whoareyou p.header.kind ≡ true → p.message ≡ []

module _ {N R : Type 0} ⦃ids : NodeIds N⦄ ⦃enrs : Records R⦄ ⦃protocol : ProtocolIdentity⦄ where
  length-encode_static :
      (h : PacketHeader N R) → length h.message_nonce ≡ 12 → length (encode_static h) ≡ 23
  unfolding encode_static
  length-encode_static h n =
      rw
        (
          length-append, length-append, length-append, length-append, length-to_be_bytes,
          length-to_be_bytes, protocol.length_id, protocol.length_version, n,
        )
        (omega arith)

module _ {N R : Type 0} ⦃ids : NodeIds N⦄ ⦃enrs : Records R⦄ ⦃protocol : ProtocolIdentity⦄ where
  -- The slices of a static header.
  record IsStatic (h : PacketHeader N R) (st : List ℕ) : Type 0 where
    first : slice {E = PacketError enrs.DecoderError} 0 6 st ≡ ok protocol.protocol_id_bytes
    second : slice {E = PacketError enrs.DecoderError} 6 8 st ≡ ok protocol.protocol_version_bytes
    third : index {E = PacketError enrs.DecoderError} 8 st ≡ ok (kind_byte h.kind)
    fourth : slice {E = PacketError enrs.DecoderError} 9 21 st ≡ ok h.message_nonce
    fifth :
        slice_from {E = PacketError enrs.DecoderError} 21 st
        ≡ ok (to_be_bytes 2 (length (encode_kind h.kind)))

  encode_static-IsStatic :
      (h : PacketHeader N R) → length h.message_nonce ≡ 12 → IsStatic h (encode_static h)
  unfolding encode_static to_be_bytes
  encode_static-IsStatic h n =
      let i = protocol.protocol_id_bytes in
      let v = protocol.protocol_version_bytes in
      let k = to_be_bytes 1 (kind_byte h.kind) in
      let m = h.message_nonce in
      let size = to_be_bytes 2 (length (encode_kind h.kind)) in
      let two : length (i ++ v) ≡ 8 =
        omega (arith, length-append i v, protocol.length_id, protocol.length_version) in
      let three : length (i ++ v ++ k) ≡ 9 =
        omega (arith, length-append (i ++ v) k, length-to_be_bytes 1 (kind_byte h.kind)) in
      let four : length (i ++ v ++ k ++ m) ≡ 21 = omega (arith, length-append (i ++ v ++ k) m) in
      record {
        first =
            slice-append_first i (v ++ (k ++ (m ++ size))) (simp append_assoc) protocol.length_id;
        second =
            slice-append i v (k ++ (m ++ size)) (simp append_assoc) protocol.length_id
              (rw (protocol.length_id, protocol.length_version) (omega arith));
        third =
            index-append (i ++ v) (kind_byte h.kind) (m ++ size)
              (rw (kind_byte-mod h.kind) (simp append_assoc)) two;
        fourth = slice-append (i ++ v ++ k) m size (simp append_assoc) three (omega arith);
        fifth = slice_from-append (i ++ v ++ k ++ m) size refl four;
      }

module _ {N R : Type 0} ⦃ids : NodeIds N⦄ ⦃enrs : Records R⦄ ⦃aes : StreamCipher⦄
    ⦃protocol : ProtocolIdentity⦄ where
  bytes_eq-nil :
      (p : Packet N R)
      → IsPacket p
      → not (bytes_eq p.message []) && is_whoareyou p.header.kind ≡ false
  unfolding bytes_eq
  bytes_eq-nil p w = elim (Bool-cases (is_whoareyou p.header.kind)) [
    | inl y ↦ rw (w.no_message y) refl
    | inr n ↦ rw n (ground arith)
  ]

  decode_static-encode_static :
      (p : Packet N R) (c : aes.Cipher) (m1 bytes : List ℕ)
      → IsPacket p
      → length m1 ≡ 23
      → length (encode_kind p.header.kind) < 256 ^ 2
      → bytes
        ≡ to_be_bytes 16 p.iv
          ++ m1
          ++ (aes.apply_keystream c (encode_kind p.header.kind)).0
          ++ p.message
      → decode_static (to_be_bytes 16 p.iv) c (encode_static p.header) bytes
        ≡ ok (p, authenticated_data p)
  unfolding decode_static decode_rest authenticated_data encode_header
  decode_static-encode_static p c m1 bytes w l b e =
      let D = PacketError enrs.DecoderError in
      let h = p.header in
      let iv = to_be_bytes 16 p.iv in
      let ad = encode_kind h.kind in
      let m2 = (aes.apply_keystream c ad).0 in
      let s = encode_static-IsStatic h w.nonce_length in
      let len2 : length m2 ≡ length ad = aes.length-apply_keystream c ad in
      let head : length (iv ++ m1) ≡ 39 =
        omega (arith, length-append iv m1, length-to_be_bytes 16 p.iv, l) in
      let r1 : slice_from {E = D} 39 bytes ≡ ok (m2 ++ p.message) =
        slice_from-append (iv ++ m1) (m2 ++ p.message) (e ∙ simp append_assoc) head in
      let r2 : slice {E = D} 39 (39 + length ad) bytes ≡ ok m2 =
        slice-append (iv ++ m1) m2 p.message (e ∙ simp append_assoc) head
          (omega (arith, head, len2)) in
      let r3 : slice_from {E = D} (39 + length ad) bytes ≡ ok p.message =
        slice_from-append (iv ++ m1 ++ m2) p.message e
          (omega (arith, length-append (iv ++ m1) m2, head, len2)) in
      let fits : ltb (length (m2 ++ p.message)) (length ad) ≡ false =
        ground (arith, length-append m2 p.message, len2) in
      let k : aes.apply_keystream c m2 ≡ (ad, (aes.apply_keystream c ad).1) =
        aes.apply_keystream_twice c ad in
      rw
        (
          s.first,
          bytes_eq_self,
          s.second,
          bytes_eq_self,
          s.third,
          s.fourth,
          into_array-length {E = D} h.message_nonce w.nonce_length,
          s.fifth,
          into_array-length {E = D} (to_be_bytes 2 (length ad)) (length-to_be_bytes 2 (length ad)),
          from_be_bytes-to_be_bytes 2 (length ad) b,
          r1,
          fits,
          r2,
          k,
          decode_kind-encode_kind h.kind w.kind_valid,
          r3,
          bytes_eq-nil p w,
          into_array-length {E = D} iv (length-to_be_bytes 16 p.iv),
          from_be_bytes-to_be_bytes 16 p.iv w.iv_range,
        )
        (simp append_assoc)

  pub length-encode_kind : (k : PacketKind N R) → IsKind k → 24 ≤ length (encode_kind k)
  unfolding encode_kind
  length-encode_kind (message n) h = omega (arith, ids.length-raw n)
  length-encode_kind (who_are_you nonce seq) h =
      omega (arith, h.0, length-append nonce (to_be_bytes 8 seq), length-to_be_bytes 8 seq)
  length-encode_kind (handshake n sig key r) h =
      rw (length-append, length-append, length-append, length-append, length-append, ids.length-raw)
        (omega arith)

  length-encode_packet :
      (p : Packet N R) (dst : N)
      → IsPacket p
      → length (encode_packet p dst) ≡ 39 + (length (encode_kind p.header.kind) + length p.message)
  unfolding encode_packet encrypt_header encode_header
  length-encode_packet p dst w =
      rw
        (
          length-append,
          length-append,
          length-to_be_bytes,
          aes.length-apply_keystream,
          length-append,
          length-encode_static p.header w.nonce_length,
        )
        (omega arith)

  -- A packet of valid lengths whose encoding has at most 1280 bytes, when encoded for a node, is
  -- decoded by that node to the same packet, with the authenticated data of that packet.
  pub decode_packet-encode_packet :
      (p : Packet N R) (dst : N)
      → IsPacket p
      → length (encode_packet p dst) ≤ 1280
      → decode_packet dst (encode_packet p dst) ≡ ok (p, authenticated_data p)
  unfolding decode_packet encode_packet encrypt_header encode_header
  decode_packet-encode_packet p dst w short =
      let D = PacketError enrs.DecoderError in
      let iv = to_be_bytes 16 p.iv in
      let c = header_cipher dst iv in
      let st = encode_static p.header in
      let ad = encode_kind p.header.kind in
      let m1 = (aes.apply_keystream c st).0 in
      let c' = (aes.apply_keystream c st).1 in
      let m2 = (aes.apply_keystream c' ad).0 in
      let bytes = encode_packet p dst in
      let len = length-encode_packet p dst w in
      let e : bytes ≡ iv ++ m1 ++ m2 ++ p.message =
        rw (aes.apply_keystream-append c st ad) (simp append_assoc) in
      let small : ltb 1280 (length bytes) ≡ false = ground (arith, short) in
      let large : ltb (length bytes) 63 ≡ false =
        ground (arith, len, length-encode_kind p.header.kind w.kind_valid) in
      let n1 : length m1 ≡ 23 =
        aes.length-apply_keystream c st ∙ length-encode_static p.header w.nonce_length in
      let r1 : slice {E = D} 0 16 bytes ≡ ok iv =
        slice-append_first iv (m1 ++ (m2 ++ p.message)) (e ∙ simp append_assoc)
          (length-to_be_bytes 16 p.iv) in
      let r2 : slice {E = D} 16 39 bytes ≡ ok m1 =
        slice-append iv m1 (m2 ++ p.message) (e ∙ simp append_assoc) (length-to_be_bytes 16 p.iv)
          (omega (arith, length-to_be_bytes 16 p.iv, n1)) in
      let k : aes.apply_keystream c m1 ≡ (st, c') = aes.apply_keystream_twice c st in
      rw
        (
          small,
          large,
          r1,
          into_array-length {E = D} iv (length-to_be_bytes 16 p.iv),
          r2,
          k,
          length-encode_static p.header w.nonce_length,
        )
        (decode_static-encode_static p c' m1 bytes w n1 (omega (arith, len, short)) e)
