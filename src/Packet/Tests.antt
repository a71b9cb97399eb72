-- ===== src/Packet/Tests.antt =====
-- Packets of src/packet/mod.rs run on a toy cipher, and the theorems on the codec applied to them.
use discv.Packet.Decode.{Refuses, Accepts, decode_packet-Ensures}
use discv.Packet.Ensures.{Ensures}
use discv.Prelude.{
  refl, List, ℕ, [], Bool, Option, ◌⊎◌, ◌∷◌, if◌then◌else◌, ◌≡◌, ◌<◌, false, suc, none, length,
  some, inl, arith, ◌%◌, true, ◌++◌, zero, ◌==◌, inr, ap, ◌-◌, ◌≤◌, ltb, ◌&&◌,
}
use discv.Packet.Outcome.{ok}
use discv.Packet.Crates.{NodeIds, Records, StreamCipher}
use discv.Packet.Bytes.{IsBytes, to_be_bytes}
use discv.Packet.Kind.{is_whoareyou, encode_kind, kind_byte}
use discv.Packet.Codec.{
  Packet, decode_packet, ProtocolIdentity, new_authheader, encode_packet, encrypt_header,
  authenticated_data, encode_header, encode_static,
}
use discv.Packet.Roundtrip.{IsPacket, decode_packet-encode_packet}

abbrev zeros : ℕ → List ℕ
zeros zero = []
zeros (suc n) = 0 ∷ zeros n

-- Two nodes, told apart by their first byte.
abbrev raw : Bool → List ℕ
raw true = 1 ∷ zeros 31
raw false = 2 ∷ zeros 31

abbrev parse : List ℕ → Option Bool
parse [] = none
parse (x ∷ xs) = if length xs == 31 then some (x == 1) else none

raw-length : (n : Bool) → length (raw n) ≡ 32
raw-length true = refl
raw-length false = refl

parse_raw : (n : Bool) → parse (raw n) ≡ some n
parse_raw true = refl
parse_raw false = refl

instance abbrev nodes : NodeIds Bool
nodes = record { raw = raw; parse = parse; length-raw = raw-length; parse-raw = parse_raw }

-- Records of one byte.
abbrev rlp_decode : List ℕ → Unit {0} ⊎ ℕ
rlp_decode [] = inl tt
rlp_decode (x ∷ xs) = inr x

instance abbrev records : Records ℕ
records = record {
  DecoderError = Unit {0};
  rlp_encode = λ r. r ∷ [];
  rlp_decode = rlp_decode;
  rlp_encode-nonempty = λ r. omega arith;
  rlp_decode-rlp_encode = λ r. refl;
}

abbrev flip : ℕ → ℕ
flip x = if x % 2 == 0 then suc x else x - 1

flip_twice : (x : ℕ) → flip (flip x) ≡ x
flip_twice x = ground arith

flip-lt : (x : ℕ) → x < 256 → flip x < 256
flip-lt x h = ground arith

-- A key stream of ones and zeros in turn.
abbrev keystream : Bool → List ℕ → List ℕ × Bool
keystream b [] = ([], b)
keystream true (x ∷ xs) = (flip x ∷ (keystream false xs).0, (keystream false xs).1)
keystream false (x ∷ xs) = (x ∷ (keystream true xs).0, (keystream true xs).1)

keystream-length : (c : Bool) (xs : List ℕ) → length (keystream c xs).0 ≡ length xs
keystream-length c [] = refl
keystream-length true (x ∷ xs) = ap suc (keystream-length false xs)
keystream-length false (x ∷ xs) = ap suc (keystream-length true xs)

keystream_twice :
    (c : Bool) (xs : List ℕ) → keystream c (keystream c xs).0 ≡ (xs, (keystream c xs).1)
keystream_twice c [] = refl
keystream_twice true (x ∷ xs) = rw (flip_twice x, keystream_twice false xs) refl
keystream_twice false (x ∷ xs) = rw (keystream_twice true xs) refl

keystream-append :
    (c : Bool) (xs ys : List ℕ)
    → (keystream c (xs ++ ys)).0 ≡ (keystream c xs).0 ++ (keystream (keystream c xs).1 ys).0
keystream-append c [] ys = refl
keystream-append true (x ∷ xs) ys = ap (◌∷◌ (flip x)) (keystream-append false xs ys)
keystream-append false (x ∷ xs) ys = ap (◌∷◌ x) (keystream-append true xs ys)

keystream-IsBytes : (c : Bool) (xs : List ℕ) → IsBytes xs → IsBytes (keystream c xs).0
keystream-IsBytes c [] h = tt
keystream-IsBytes true (x ∷ xs) h = (flip-lt x h.0, keystream-IsBytes false xs h.1)
keystream-IsBytes false (x ∷ xs) h = (h.0, keystream-IsBytes true xs h.1)

instance abbrev aes : StreamCipher
aes = record {
  Cipher = Bool;
  new = λ key nonce. true;
  apply_keystream = keystream;
  length-apply_keystream = keystream-length;
  apply_keystream_twice = keystream_twice;
  apply_keystream-append = keystream-append;
  apply_keystream-IsBytes = keystream-IsBytes;
}

instance abbrev discv5 : ProtocolIdentity
discv5 = record {
  protocol_id_bytes = 100 ∷ 105 ∷ 115 ∷ 99 ∷ 118 ∷ 53 ∷ [];
  protocol_version_bytes = 0 ∷ 1 ∷ [];
  length_id = refl;
  length_version = refl;
}

abbrev sent : Packet Bool ℕ
sent = new_authheader 7 true (zeros 12) (3 ∷ 4 ∷ []) (5 ∷ []) (some 9)

sent-IsPacket : IsPacket sent
unfolding new_authheader is_whoareyou
sent-IsPacket = record {
  iv_range = omega arith;
  nonce_length = refl;
  kind_valid = (omega arith, omega arith);
  no_message = λ h. cc;
}

sent-short : length (encode_packet sent false) ≤ 1280
unfolding encode_packet encrypt_header encode_header encode_static encode_kind new_authheader
    to_be_bytes kind_byte
sent-short = omega arith

decode_packet-encode_example :
    decode_packet false (encode_packet sent false) ≡ ok (sent, authenticated_data sent)
decode_packet-encode_example = decode_packet-encode_packet sent false sent-IsPacket sent-short

abbrev all_small : List ℕ → Bool
all_small [] = true
all_small (x ∷ xs) = ltb x 256 && all_small xs

IsBytes-of_check : (xs : List ℕ) → all_small xs ≡ true → IsBytes xs
IsBytes-of_check [] h = tt
IsBytes-of_check (x ∷ xs) h = (ground arith, IsBytes-of_check xs (ground arith))

sent-IsBytes : IsBytes (encode_packet sent false)
unfolding encode_packet encrypt_header encode_header encode_static encode_kind new_authheader
    to_be_bytes kind_byte
sent-IsBytes = IsBytes-of_check (encode_packet sent false) refl

decode_packet-Ensures_example :
    Ensures
      (Refuses (encode_packet sent false))
      (Accepts (encode_packet sent false))
      (decode_packet {N = Bool} {R = ℕ} true (encode_packet sent false))
decode_packet-Ensures_example = decode_packet-Ensures true (encode_packet sent false) sent-IsBytes
