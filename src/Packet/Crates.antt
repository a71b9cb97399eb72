-- ===== src/Packet/Crates.antt =====
-- The crates that src/packet/mod.rs calls: node ids and records of `enr`, their `rlp` encoding, and
-- the stream cipher of `aes`, with the behaviour that their documentation gives.
use discv.Packet.Bytes.{IsBytes}
use discv.Prelude.{ℕ, List, ◌++◌, length, ◌≡◌, Option, some, ◌⊎◌, inr, ◌<◌}

-- `enr::NodeId`: 32 raw bytes.
pub record NodeIds (N : Type 0) : Type 0 where
  pub raw : N → List ℕ
  pub parse : List ℕ → Option N
  pub length-raw : (n : N) → length (raw n) ≡ 32
  pub parse-raw : (n : N) → parse (raw n) ≡ some n

-- The records `Enr`, with `rlp::encode` and `rlp::decode`.
pub record Records (R : Type 0) : Type 1 where
  pub DecoderError : Type 0
  pub rlp_encode : R → List ℕ
  pub rlp_decode : List ℕ → DecoderError ⊎ R
  pub rlp_encode-nonempty : (r : R) → 0 < length (rlp_encode r)
  pub rlp_decode-rlp_encode : (r : R) → rlp_decode (rlp_encode r) ≡ inr r

-- `Aes128Ctr`, a stream cipher: `apply_keystream` adds the next bytes of the key stream to the data,
-- so that the same bytes added again give the data back.
pub record StreamCipher : Type 1 where
  pub Cipher : Type 0
  pub new : List ℕ → List ℕ → Cipher
  pub apply_keystream : Cipher → List ℕ → List ℕ × Cipher
  pub length-apply_keystream :
      (c : Cipher) (xs : List ℕ) → length (apply_keystream c xs).0 ≡ length xs
  pub apply_keystream_twice :
      (c : Cipher) (xs : List ℕ)
      → apply_keystream c (apply_keystream c xs).0 ≡ (xs, (apply_keystream c xs).1)
  pub apply_keystream-append :
      (c : Cipher) (xs ys : List ℕ)
      → (apply_keystream c (xs ++ ys)).0
        ≡ (apply_keystream c xs).0 ++ (apply_keystream (apply_keystream c xs).1 ys).0
  pub apply_keystream-IsBytes :
      (c : Cipher) (xs : List ℕ) → IsBytes xs → IsBytes (apply_keystream c xs).0
