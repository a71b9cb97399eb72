-- ===== src/Packet/Decode.antt =====
-- What `decode` of src/packet/mod.rs does with any bytes.
use discv.Packet.Ensures.{Ensures, slice-returns, index-returns, slice_from-returns}
use discv.Prelude.{
  refl, List, ℕ, ◌≤◌, ◌<◌, length, Bool, ◌+◌, not, ◌≡◌, [], ◌^◌, ◌&&◌, false, arith, true, ◌∷◌,
  Bool-cases, inr, inl, ltb, ◌++◌, ◌∙◌, length-append,
}
use discv.Packet.Crates.{NodeIds, Records, StreamCipher}
use discv.Packet.Bytes.{from_be_bytes, IsBytes, bytes_eq, into_array-length}
use discv.Packet.Kind.{
  PacketError, header_length_invalid, invalid_version, invalid_enr, too_large, too_small,
  header_decryption_failed, unknown_packet, invalid_node_id, invalid_auth_data_size, is_whoareyou,
}
use discv.Packet.Codec.{
  Packet, decode_static, decode_packet, ProtocolIdentity, decode_rest, header_cipher,
}
use discv.Packet.Roundtrip.{IsPacket}
use discv.Packet.AuthData.{KindErrors, decode_kind-Ensures, from_be_bytes-lt}

abbrev pub InRange : List ℕ → Type 0
InRange bytes = (63 ≤ length bytes) × (length bytes ≤ 1280)

-- What an error says of the bytes.
abbrev pub Refuses : {D : Type 0} → List ℕ → PacketError D → Type 0
Refuses bytes too_large = 1280 < length bytes
Refuses bytes too_small = length bytes < 63
Refuses bytes (header_length_invalid n) = ⊥
Refuses bytes (invalid_version v) = InRange bytes × (v < 256 ^ 2)
Refuses bytes header_decryption_failed = InRange bytes
Refuses bytes unknown_packet = InRange bytes
Refuses bytes invalid_node_id = InRange bytes
Refuses bytes invalid_auth_data_size = InRange bytes
Refuses bytes (invalid_enr d) = InRange bytes

-- What a result says of the bytes.
pub record Accepts {N R : Type 0} (bytes : List ℕ) (r : Packet N R × List ℕ) : Type 0 where
  pub in_range : InRange bytes
  pub packet_valid : IsPacket r.0
  pub all_bytes : length r.1 + length r.0.message ≡ length bytes

errors : {D : Type 0} (bytes : List ℕ) → InRange bytes → KindErrors (Refuses {D = D} bytes)
errors bytes h = record { unknown = h; size = h; id = h; enr = λ _. h }

nothing_left : (xs : List ℕ) (b : Bool) → not (bytes_eq xs []) && b ≡ false → b ≡ true → xs ≡ []
unfolding bytes_eq
nothing_left [] b e h = refl
nothing_left (x ∷ xs) b e h = cc

module _ {N R : Type 0} ⦃ids : NodeIds N⦄ ⦃enrs : Records R⦄ ⦃aes : StreamCipher⦄
    ⦃protocol : ProtocolIdentity⦄ where
  decode_rest-Ensures :
      (iv : List ℕ) (c : aes.Cipher) (st nonce : List ℕ) (flag n : ℕ) (bytes : List ℕ)
      → length iv ≡ 16
      → IsBytes iv
      → length st ≡ 23
      → length nonce ≡ 12
      → InRange bytes
      → IsBytes bytes
      → Ensures
          (Refuses bytes)
          (Accepts bytes)
          (decode_rest {N = N} {R = R} iv c st nonce flag n bytes)
  unfolding decode_rest
  decode_rest-Ensures iv c st nonce flag n bytes l b m l4 h g =
      let D = PacketError enrs.DecoderError in
      let (remaining, s1, l1, b1) = slice_from-returns {E = D} 39 bytes (omega (arith, h.0)) g in
      elim (Bool-cases (ltb (length remaining) n)) [
        | inl y ↦ inl (invalid_auth_data_size, rw (s1, y) refl, h)
        | inr fits ↦
            let enough : 39 + n ≤ length bytes = ground (arith, l1, h.0) in
            let (masked, s2, l2, b2) =
              slice-returns {E = D} 39 (39 + n) bytes (omega arith) enough g in
            let (auth, c') = aes.apply_keystream c masked in
            let auth_bytes : IsBytes auth = aes.apply_keystream-IsBytes c masked b2 in
            let (rest, s3, l3, b3) = slice_from-returns {E = D} (39 + n) bytes enough g in
            elim (decode_kind-Ensures {N = N} {R = R} ⦃ids = ids⦄ ⦃enrs = enrs⦄ (errors bytes h)
              flag auth auth_bytes) [
                | inl (e, s4, f) ↦ inl (e, rw (s1, fits, s2, s4) refl, f)
                | inr (k, s4, v) ↦ elim (Bool-cases (not (bytes_eq rest []) && is_whoareyou k)) [
                  | inl y ↦ inl (unknown_packet, rw (s1, fits, s2, s4, s3, y) refl, h)
                  | inr differs ↦ inr (
                    (
                      record {
                        iv = from_be_bytes iv;
                        header = record { message_nonce = nonce; kind = k };
                        message = rest;
                      },
                      iv ++ st ++ auth,
                    ),
                    rw (s1, fits, s2, s4, s3, differs, into_array-length {E = D} iv l) refl,
                    record {
                      in_range = h;
                      packet_valid = record {
                        iv_range = from_be_bytes-lt 16 iv l b;
                        nonce_length = l4;
                        kind_valid = v;
                        no_message = nothing_left rest (is_whoareyou k) differs;
                      };
                      all_bytes = omega (
                        arith,
                        length-append (iv ++ st) auth,
                        length-append iv st,
                        l2,
                        l3,
                        l,
                        m,
                        enough,
                        aes.length-apply_keystream c masked,
                      );
                    },
                  )
                ]
              ]
      ]

  decode_static-Ensures :
      (iv : List ℕ) (c : aes.Cipher) (st bytes : List ℕ)
      → length iv ≡ 16
      → IsBytes iv
      → length st ≡ 23
      → IsBytes st
      → InRange bytes
      → IsBytes bytes
      → Ensures (Refuses bytes) (Accepts bytes) (decode_static {N = N} {R = R} iv c st bytes)
  unfolding decode_static
  decode_static-Ensures iv c st bytes l b m d h g =
      let D = PacketError enrs.DecoderError in
      let (id, s1, l1, b1) = slice-returns {E = D} 0 6 st (omega arith) (omega (arith, m)) d in
      let (version, s2, l2, b2) = slice-returns {E = D} 6 8 st (omega arith) (omega (arith, m)) d in
      let (flag, s3, b3) = index-returns {E = D} 8 st (omega (arith, m)) d in
      let (nonce, s4, l4, b4) = slice-returns {E = D} 9 21 st (omega arith) (omega (arith, m)) d in
      let s4' = into_array-length {E = D} nonce l4 in
      let (size, s5, l5, b5) = slice_from-returns {E = D} 21 st (omega (arith, m)) d in
      let s5' = into_array-length {E = D} {n = 2} size (omega (arith, l5, m)) in
      elim (Bool-cases (bytes_eq id protocol.protocol_id_bytes)) [
        | inr differs ↦ inl (header_decryption_failed, rw (s1, differs) refl, h)
        | inl same ↦ elim (Bool-cases (bytes_eq version protocol.protocol_version_bytes)) [
          | inr differs ↦ inl (
            invalid_version (from_be_bytes version),
            rw (s1, same, s2, differs) refl,
            (h, from_be_bytes-lt 2 version l2 b2),
          )
          | inl same' ↦
              rw (s1, same, s2, same', s3, s4, s4', s5, s5')
                (decode_rest-Ensures iv c st nonce flag (from_be_bytes size) bytes l b m l4 h g)
        ]
      ]

  -- Any bytes at all: `decode` does not panic. If it refuses them, they are more than 1280 for
  -- `too_large`, fewer than 63 for `too_small`, and from 63 to 1280 for any other error, never
  -- `header_length_invalid`. If it returns a packet, they are from 63 to 1280, the lengths and the
  -- numbers of the packet are those of its types, a WHOAREYOU packet has no message, and the
  -- authenticated data and the message are as long as the bytes together.
  pub decode_packet-Ensures :
      (src : N) (bytes : List ℕ)
      → IsBytes bytes
      → Ensures (Refuses bytes) (Accepts bytes) (decode_packet {N = N} {R = R} src bytes)
  unfolding decode_packet
  decode_packet-Ensures src bytes g = elim (Bool-cases (ltb 1280 (length bytes))) [
    | inl y ↦ inl (too_large, rw y refl, ground arith)
    | inr small ↦ elim (Bool-cases (ltb (length bytes) 63)) [
      | inl y ↦ inl (too_small, rw (small, y) refl, ground arith)
      | inr large ↦
          let h : InRange bytes = (ground arith, ground arith) in
          let D = PacketError enrs.DecoderError in
          let (iv, s1, l1, b1) =
            slice-returns {E = D} 0 16 bytes (omega arith) (omega (arith, h.0)) g in
          let (masked, s2, l2, b2) =
            slice-returns {E = D} 16 39 bytes (omega arith) (omega (arith, h.0)) g in
          let c = header_cipher src iv in
          let m = aes.length-apply_keystream c masked ∙ l2 in
          rw (small, large, s1, into_array-length {E = D} iv l1, s2, m)
            (decode_static-Ensures iv (aes.apply_keystream c masked).1
              (aes.apply_keystream c masked).0 bytes l1 b1 m
              (aes.apply_keystream-IsBytes c masked b2) h g)
    ]
  ]
