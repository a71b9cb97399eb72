-- ===== src/KBucket/Key/Metric.antt =====
-- src/kbucket/key.rs: the distance is a metric on hashes, and its logarithm names a bucket.
use discv.Prelude.Xor.{bit_xor-lt-pow, bit_xor_cancel, bit_xor_self, bit_xor_comm, bit_xor_triangle}
use discv.Prelude.{
  ℕ, ◌≡◌, ◌↔◌, none, ◌<◌, ◌≤◌, ◌⊎◌, ◌^◌, ◌+◌, some, ◌-◌, Bool-cases, ◌∙◌, ◌==◌, sym, inl, arith,
  inr, ap, bit_xor,
}
use discv.Uint.{Uint}
use discv.KBucket.Key.{Key, IsHash, distance, log2_distance}

module _ {ℓ} {T : Type ℓ} ⦃u : Uint⦄ (a b c : Key T) (ha : IsHash a.hash) (hb : IsHash b.hash)
    (hc : IsHash c.hash) where
  -- On 256-bit hashes the distance is a metric with one point at each distance: it is zero exactly
  -- between keys of one hash, it is symmetric, it obeys the triangle inequality, and two keys are
  -- at the same distance from a third exactly if they have the same hash.
  pub distance_metric :
      ((distance a b ≡ 0) ↔ (a.hash ≡ b.hash))
      × (distance a b ≡ distance b a)
      × (distance a c ≤ distance a b + distance b c)
      × ((distance a b ≡ distance a c) ↔ (b.hash ≡ c.hash))
  unfolding distance
  distance_metric =
      rw
        (
          u.xor_lem a.hash b.hash ha hb,
          u.xor_lem b.hash a.hash hb ha,
          u.xor_lem a.hash c.hash ha hc,
          u.xor_lem b.hash c.hash hb hc,
        )
        (
          (
            (λ e. bit_xor_cancel a.hash a.hash b.hash (bit_xor_self a.hash ∙ sym e)),
            (λ e. rw (← e) (bit_xor_self a.hash)),
          ),
          bit_xor_comm a.hash b.hash,
          bit_xor_triangle a.hash b.hash c.hash,
          (bit_xor_cancel a.hash b.hash c.hash, (λ e. ap (λ (h : ℕ). bit_xor a.hash h) e)),
        )

module _ {ℓ} {T : Type ℓ} ⦃u : Uint⦄ (a b : Key T) (ha : IsHash a.hash) (hb : IsHash b.hash) where
  pub distance-lt : distance a b < 2 ^ 256
  unfolding distance
  distance-lt = rw (u.xor_lem a.hash b.hash ha hb) (bit_xor-lt-pow 256 a.hash b.hash ha hb)

  -- The logarithm of the distance of 256-bit hashes is `none` exactly for keys of one hash, and
  -- otherwise the number l from 1 to 256 for which the distance is at least 2 ^ (l - 1) and less
  -- than 2 ^ l.
  pub log2_distance_bounds :
      ((log2_distance a b ≡ none) × (a.hash ≡ b.hash))
      ⊎ ((l : ℕ) × (log2_distance a b ≡ some l)
          × (1 ≤ l)
          × (l ≤ 256)
          × (2 ^ (l - 1) ≤ distance a b)
          × (distance a b < 2 ^ l))
  unfolding log2_distance
  log2_distance_bounds = elim (Bool-cases (distance a b == 0)) [
    | inl zero_dist ↦
        let e : distance a b ≡ 0 = ground arith in
        inl (rw (e, u.leading_zeros-zero), (distance_metric a b b ha hb hb).0.0 e)
    | inr apart ↦
        let lz = u.leading_zeros (distance a b) in
        let (few, low, high) = u.leading_zeros_lem (distance a b) (ground arith) distance-lt in
        inr (
          256 - lz,
          ground arith,
          omega arith,
          omega arith,
          (let e : 256 - lz - 1 ≡ 255 - lz = omega arith in rw e low),
          high,
        )
  ]

pub distance_comm {ℓ κ} :
    {T : Type ℓ} {U : Type κ} ⦃u : Uint⦄ (a : Key T) (b : Key U)
    → IsHash a.hash
    → IsHash b.hash
    → distance a b ≡ distance b a
unfolding distance
distance_comm ⦃u⦄ a b ha hb =
    rw (u.xor_lem a.hash b.hash ha hb, u.xor_lem b.hash a.hash hb ha) (bit_xor_comm a.hash b.hash)
