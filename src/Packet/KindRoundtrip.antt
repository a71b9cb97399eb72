-- ===== src/Packet/KindRoundtrip.antt =====
-- The auth data of a packet of src/packet/mod.rs, encoded and decoded again.
use discv.Prelude.{
  refl, length, ◌≡◌, List, ◌<◌, ℕ, ◌^◌, Option, ◌++◌, length-append, some, none, [], ltb, false,
  ◌%◌, arith, true, ◌∷◌, ◌+◌, sym, subst,
}
use mathlib.Core.List.{append_assoc, append-nil}
use discv.Packet.Outcome.{ok}
use discv.Packet.Crates.{NodeIds, Records}
use discv.Packet.Bytes.{
  slice, slice_from, index, to_be_bytes, length-to_be_bytes, slice-append, slice_from-append,
  into_array-length, from_be_bytes-to_be_bytes, index-append, slice-append_first,
}
use discv.Packet.Kind.{
  PacketKind, PacketError, message, who_are_you, handshake, decode_message, decode_whoareyou,
  decode_record, parse_id, encode_record, decode_handshake, encode_kind, decode_kind, kind_byte,
}

-- The lengths that the arrays and the `u64` of the source have, and those of a signature and a key
-- whose length is one byte.
abbrev pub IsKind : {N R : Type 0} → PacketKind N R → Type 0
IsKind (message src_id) = Unit {0}
IsKind (who_are_you id_nonce enr_seq) = (length id_nonce ≡ 16) × (enr_seq < 256 ^ 8)
IsKind (handshake src_id sig key r) = (length sig < 256) × (length key < 256)

module _ {R : Type 0} ⦃enrs : Records R⦄ where
  decode_record-encode_packet :
      (xs : List ℕ) (r : Option R) → decode_record (xs ++ encode_record r) (length xs) ≡ ok r
  unfolding decode_record
  decode_record-encode_packet xs none =
      let l : length (xs ++ []) ≡ length xs = rw (append-nil xs) refl in
      let b : ltb (length xs) (length (xs ++ [])) ≡ false = ground (arith, l) in rw b refl
  decode_record-encode_packet xs (some r) =
      let b : ltb (length xs) (length (xs ++ enrs.rlp_encode r)) ≡ true =
        ground (arith, length-append xs (enrs.rlp_encode r), enrs.rlp_encode-nonempty r) in
      let s : slice_from {E = PacketError enrs.DecoderError} (length xs) (xs ++ enrs.rlp_encode r)
          ≡ ok (enrs.rlp_encode r) =
        slice_from-append xs (enrs.rlp_encode r) refl refl in
      rw (b, s, enrs.rlp_decode-rlp_encode r) refl

module _ {N R : Type 0} ⦃ids : NodeIds N⦄ ⦃enrs : Records R⦄ where
  decode_message-encode_packet : (n : N) → decode_message {R = R} (ids.raw n) ≡ ok (message n)
  unfolding decode_message parse_id
  decode_message-encode_packet n = rw (ids.length-raw n, parse_id, ids.parse-raw n) refl

  decode_whoareyou-encode_packet :
      (nonce : List ℕ) (seq : ℕ)
      → length nonce ≡ 16
      → seq < 256 ^ 8
      → decode_whoareyou {N = N} {R = R} (nonce ++ to_be_bytes 8 seq) ≡ ok (who_are_you nonce seq)
  unfolding decode_whoareyou
  decode_whoareyou-encode_packet nonce seq n b =
      let l : length (nonce ++ to_be_bytes 8 seq) ≡ 24 =
        rw (length-append nonce (to_be_bytes 8 seq), length-to_be_bytes 8 seq, n) refl in
      let D = PacketError enrs.DecoderError in
      let s : slice {E = D} 0 16 (nonce ++ to_be_bytes 8 seq) ≡ ok nonce =
        slice-append_first nonce (to_be_bytes 8 seq) refl n in
      let t : slice_from {E = D} 16 (nonce ++ to_be_bytes 8 seq) ≡ ok (to_be_bytes 8 seq) =
        slice_from-append nonce (to_be_bytes 8 seq) refl n in
      rw
        (
          l,
          s,
          into_array-length {E = D} nonce n,
          t,
          into_array-length {E = D} (to_be_bytes 8 seq) (length-to_be_bytes 8 seq),
          from_be_bytes-to_be_bytes 8 seq b,
        )
        refl

  decode_handshake-encode_packet :
      (n : N) (sig key : List ℕ) (r : Option R)
      → length sig < 256
      → length key < 256
      → decode_handshake (encode_kind (handshake n sig key r)) ≡ ok (handshake n sig key r)
  unfolding decode_handshake encode_kind to_be_bytes parse_id
  decode_handshake-encode_packet n sig key r hs hk =
      let a : length sig % 256 ≡ length sig = omega arith in
      let b : length key % 256 ≡ length key = omega arith in
      let D = PacketError enrs.DecoderError in
      let id = ids.raw n in
      let kr = key ++ encode_record r in
      let rest = sig ++ kr in
      let ws = id ++ (length sig ∷ length key ∷ rest) in
      let total = length sig + length key in
      let len : length ws ≡ 34 + (total + length (encode_record r)) = omega (
        arith,
        length-append id (length sig ∷ length key ∷ rest),
        ids.length-raw n,
        length-append sig kr,
        length-append key (encode_record r),
      ) in
      let long : ltb (length ws) 34 ≡ false = ground (arith, len) in
      let longer : ltb (length ws) (34 + total) ≡ false = ground (arith, len) in
      let s1 : slice {E = D} 0 32 ws ≡ ok id =
        slice-append_first id (length sig ∷ length key ∷ rest) refl (ids.length-raw n) in
      let s2 : index {E = D} 32 ws ≡ ok (length sig) =
        index-append id (length sig) (length key ∷ rest) refl (ids.length-raw n) in
      let s3 : index {E = D} 33 ws ≡ ok (length key) =
        index-append (id ++ length sig ∷ []) (length key) rest
          (sym (append_assoc id (length sig ∷ []) (length key ∷ rest)))
          (omega (arith, length-append id (length sig ∷ []), ids.length-raw n)) in
      let s4 : slice_from {E = D} 34 ws ≡ ok rest =
        slice_from-append (id ++ length sig ∷ length key ∷ []) rest
          (sym (append_assoc id (length sig ∷ length key ∷ []) rest))
          (omega (arith, length-append id (length sig ∷ length key ∷ []), ids.length-raw n)) in
      let s5 : slice {E = D} 0 (length sig) rest ≡ ok sig = slice-append_first sig kr refl refl in
      let s6 : slice {E = D} (length sig) total rest ≡ ok key =
        slice-append sig key (encode_record r) refl refl refl in
      let s7 : decode_record rest total ≡ ok r =
        rw (sym (append_assoc sig key (encode_record r)), sym (length-append sig key))
          (decode_record-encode_packet (sig ++ key) r) in
      let e : encode_kind (handshake n sig key r) ≡ ws = rw (a, b) (simp append_assoc) in
      let p : parse_id {D = enrs.DecoderError} id ≡ ok n = rw (parse_id, ids.parse-raw n) refl in
      subst (λ (w : List ℕ). decode_handshake w ≡ ok (handshake n sig key r)) (sym e)
        (rw (long, s1, p, s2, s3, longer, s4, s5, s6, s7) refl)

  pub decode_kind-encode_kind :
      (k : PacketKind N R) → IsKind k → decode_kind (kind_byte k) (encode_kind k) ≡ ok k
  unfolding decode_kind kind_byte encode_kind
  decode_kind-encode_kind (message n) h = decode_message-encode_packet n
  decode_kind-encode_kind (who_are_you nonce seq) h =
      decode_whoareyou-encode_packet nonce seq h.0 h.1
  decode_kind-encode_kind (handshake n sig key r) h =
      decode_handshake-encode_packet n sig key r h.0 h.1
