-- ===== src/Packet/AuthData.antt =====
-- What the functions of src/packet/mod.rs on auth data return, on any bytes.
use discv.Packet.KindRoundtrip.{IsKind}
use discv.Packet.Ensures.{Ensures, slice-returns, slice_from-returns, index-returns}
use discv.Prelude.{
  refl, List, ℕ, inl, inr, length, ◌==◌, ◌<◌, ◌≡◌, Option, ◌^◌, ◌+◌, arith, subst, ◌∷◌, ◌⊎◌, suc,
  some, ◌*◌, Bool-cases, none, ltb, [], ◌≤◌,
}
use native.Mathlib.Nat.{pow-suc}
use discv.Packet.Outcome.{err, ok}
use discv.Packet.Crates.{NodeIds, Records}
use discv.Packet.Bytes.{from_be_bytes, IsBytes, from_be, into_array-length}
use discv.Packet.Kind.{
  PacketError, message, who_are_you, handshake, unknown_packet, parse_id, decode_message,
  invalid_auth_data_size, invalid_node_id, invalid_enr, decode_record, id_of, decode_whoareyou,
  map_enr_error, decode_handshake, decode_kind,
}

-- The errors of the auth data.
pub record KindErrors {D : Type 0} (F : PacketError D → Type 0) : Type 0 where
  pub unknown : F unknown_packet
  pub size : F invalid_auth_data_size
  pub id : F invalid_node_id
  pub enr : (e : D) → F (invalid_enr e)

from_be-lt :
    (k n : ℕ) (xs : List ℕ) → n < 256 ^ k → IsBytes xs → from_be n xs < 256 ^ (k + length xs)
unfolding from_be
from_be-lt k n [] h b = let e : k + 0 ≡ k = omega arith in rw e h
from_be-lt k n (x ∷ xs) h b =
    let e : k + suc (length xs) ≡ suc k + length xs = omega arith in
    rw e (from_be-lt (suc k) (n * 256 + x) xs (omega (arith, b.0, pow-suc 256 k)) b.1)

pub from_be_bytes-lt :
    (w : ℕ) (xs : List ℕ) → length xs ≡ w → IsBytes xs → from_be_bytes xs < 256 ^ w
unfolding from_be_bytes
from_be_bytes-lt w xs e b =
    let l : from_be 0 xs < 256 ^ (0 + length xs) = from_be-lt 0 0 xs (omega arith) b in
    subst (λ (n : ℕ). from_be 0 xs < 256 ^ n) (omega (arith, e)) l

module _ {N : Type 0} ⦃ids : NodeIds N⦄ where
  parse_id-returns :
      (D : Type 0) (xs : List ℕ)
      → (parse_id ⦃ids = ids⦄ {D = D} xs ≡ err invalid_node_id)
        ⊎ ((n : N) × (parse_id {D = D} xs ≡ ok n))
  unfolding parse_id
  parse_id-returns D xs = named (ids.parse xs)
    where
      named :
          (o : Option N)
          → (id_of {D = D} o ≡ err invalid_node_id) ⊎ ((n : N) × (id_of {D = D} o ≡ ok n))
      named none = inl refl
      named (some n) = inr (n, refl)

module _ {R : Type 0} ⦃enrs : Records R⦄ where
  decode_record-returns :
      (xs : List ℕ) (n : ℕ)
      → IsBytes xs
      → ((e : enrs.DecoderError) × (decode_record ⦃enrs = enrs⦄ xs n ≡ err (invalid_enr e)))
        ⊎ ((r : Option R) × (decode_record xs n ≡ ok r))
  unfolding decode_record
  decode_record-returns xs n b = elim (Bool-cases (ltb n (length xs))) [
    | inl more ↦
        let (ys, s, l, c) =
          slice_from-returns {E = PacketError enrs.DecoderError} n xs (ground arith) b in
        rw (more, s) (converted (enrs.rlp_decode ys))
    | inr all ↦ inr (none, rw all refl)
  ]
    where
      converted :
          (o : enrs.DecoderError ⊎ R)
          → ((e : enrs.DecoderError) × (map_enr_error o ≡ err (invalid_enr e)))
            ⊎ ((r : Option R) × (map_enr_error o ≡ ok r))
      converted (inl e) = inl (e, refl)
      converted (inr r) = inr (some r, refl)

module _ {N R : Type 0} ⦃ids : NodeIds N⦄ ⦃enrs : Records R⦄
    {F : PacketError enrs.DecoderError → Type 0} (k : KindErrors F) where
  decode_message-Ensures : (xs : List ℕ) → Ensures F IsKind (decode_message {N = N} {R = R} xs)
  unfolding decode_message
  decode_message-Ensures xs = elim (Bool-cases (length xs == 32)) [
    | inl y ↦ elim (parse_id-returns ⦃ids = ids⦄ enrs.DecoderError xs) [
      | inl e ↦ inl (invalid_node_id, rw (y, e) refl, k.id)
      | inr (n, e) ↦ inr (message n, rw (y, e) refl, tt)
    ]
    | inr n ↦ inl (invalid_auth_data_size, rw n refl, k.size)
  ]

  decode_whoareyou-Ensures :
      (xs : List ℕ) → IsBytes xs → Ensures F IsKind (decode_whoareyou {N = N} {R = R} xs)
  unfolding decode_whoareyou
  decode_whoareyou-Ensures xs b = elim (Bool-cases (length xs == 24)) [
    | inl y ↦
        let D = PacketError enrs.DecoderError in
        let len : length xs ≡ 24 = ground arith in
        let (ys, s, l, c) = slice-returns {E = D} 0 16 xs (omega arith) (omega (arith, len)) b in
        let (zs, t, m, d) = slice_from-returns {E = D} 16 xs (omega (arith, len)) b in
        let m' : length zs ≡ 8 = omega (arith, m, len) in
        inr (
          who_are_you ys (from_be_bytes zs),
          rw (y, s, into_array-length {E = D} ys l, t, into_array-length {E = D} zs m') refl,
          (l, from_be_bytes-lt 8 zs m' d),
        )
    | inr n ↦ inl (invalid_auth_data_size, rw n refl, k.size)
  ]

  decode_handshake-Ensures :
      (xs : List ℕ) → IsBytes xs → Ensures F IsKind (decode_handshake {N = N} {R = R} xs)
  unfolding decode_handshake
  decode_handshake-Ensures xs b = elim (Bool-cases (ltb (length xs) 34)) [
    | inl y ↦ inl (invalid_auth_data_size, rw y refl, k.size)
    | inr long ↦
        let D = PacketError enrs.DecoderError in
        let (id, s1, l1, b1) = slice-returns {E = D} 0 32 xs (omega arith) (ground arith) b in
        let (sig, s2, b2) = index-returns {E = D} 32 xs (ground arith) b in
        let (key, s3, b3) = index-returns {E = D} 33 xs (ground arith) b in
        elim (parse_id-returns ⦃ids = ids⦄ enrs.DecoderError id) [
          | inl e ↦ inl (invalid_node_id, rw (long, s1, e) refl, k.id)
          | inr (n, e) ↦ elim (Bool-cases (ltb (length xs) (34 + (sig + key)))) [
            | inl y ↦ inl (invalid_auth_data_size, rw (long, s1, e, s2, s3, y) refl, k.size)
            | inr longer ↦
                let (rest, s4, l4, b4) = slice_from-returns {E = D} 34 xs (ground arith) b in
                let enough : sig + key ≤ length rest = ground arith in
                let (zs, s5, l5, b5) =
                  slice-returns {E = D} 0 sig rest (omega arith) (omega (arith, enough)) b4 in
                let (ws, s6, l6, b6) =
                  slice-returns {E = D} sig (sig + key) rest (omega arith) enough b4 in
                let short : length zs < 256 = omega (arith, l5, b2) in
                let short' : length ws < 256 = omega (arith, l6, b3) in
                elim (decode_record-returns ⦃enrs = enrs⦄ rest (sig + key) b4) [
                  | inl (d, s7) ↦ inl (
                    invalid_enr d,
                    rw (long, s1, e, s2, s3, longer, s4, s5, s6, s7) refl,
                    k.enr d,
                  )
                  | inr (r, s7) ↦ inr (
                    handshake n zs ws r,
                    rw (long, s1, e, s2, s3, longer, s4, s5, s6, s7) refl,
                    (short, short'),
                  )
                ]
          ]
        ]
  ]

  pub decode_kind-Ensures :
      (flag : ℕ) (xs : List ℕ) → IsBytes xs → Ensures F IsKind (decode_kind {N = N} {R = R} flag xs)
  unfolding decode_kind
  decode_kind-Ensures flag xs b = elim (Bool-cases (flag == 0)) [
    | inl e ↦ rw e (decode_message-Ensures xs)
    | inr n ↦ elim (Bool-cases (flag == 1)) [
      | inl e ↦ rw (n, e) (decode_whoareyou-Ensures xs b)
      | inr n' ↦ elim (Bool-cases (flag == 2)) [
        | inl e ↦ rw (n, n', e) (decode_handshake-Ensures xs b)
        | inr n'' ↦ inl (unknown_packet, rw (n, n', n'') refl, k.unknown)
      ]
    ]
  ]
