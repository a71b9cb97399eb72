-- ===== src/KBucket/Key.antt =====
-- src/kbucket/key.rs: keys of the Kademlia key space and their XOR distance. A hash of 32 bytes is
-- the number below 2 ^ 256 that the bytes spell, first byte highest (`U256::from`).
pub mod Metric
mod Tests
use discv.Prelude.{ℕ, Bool, ◌==◌, ◌<◌, Option, ◌^◌, ◌-◌, if◌then◌else◌, none, some}
use discv.Uint.{Uint}

pub record Key {ℓ} (T : Type ℓ) : Type ℓ where
  pub preimage : T
  pub hash : ℕ

-- A hash has 256 bits.
abbrev pub IsHash : ℕ → Type 0
IsHash h = h < 2 ^ 256

module _ {ℓ} {T : Type ℓ} where
  -- `PartialEq for Key`: the preimages are not compared.
  abbrev pub key_eq : Key T → Key T → Bool
  key_eq a b = a.hash == b.hash

module _ {ℓ κ} {T : Type ℓ} {U : Type κ} ⦃u : Uint⦄ where
  unfoldable pub distance : Key T → Key U → ℕ
  distance a b = u.xor a.hash b.hash

  unfoldable pub log2_distance : Key T → Key U → Option ℕ
  log2_distance a b =
      let log_dist = 256 - u.leading_zeros (distance a b) in
      if log_dist == 0 then none else some log_dist
