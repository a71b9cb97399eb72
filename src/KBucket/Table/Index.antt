-- ===== src/KBucket/Table/Index.antt =====
-- `BucketIndex::new` (src/kbucket.rs): which distances a bucket holds.
use discv.Prelude.{
  ℕ, ◌<◌, ◌^◌, ◌≡◌, none, ◌⊎◌, some, ◌≤◌, ◌+◌, Bool-cases, ◌==◌, inl, arith, inr, ◌-◌, suc,
}
use discv.KBucket.Table.{bucket_index}
use discv.Uint.{Uint}

-- A distance of 256 bits has no bucket exactly if it is zero; otherwise its bucket is the i below 256
-- for which the distance is at least 2 ^ i and less than 2 ^ (i + 1).
pub bucket_index_bounds :
    ⦃u : Uint⦄ (d : ℕ)
    → d < 2 ^ 256
    → ((bucket_index d ≡ none) × (d ≡ 0))
      ⊎ ((i : ℕ) × (bucket_index d ≡ some i) × (i < 256) × (2 ^ i ≤ d) × (d < 2 ^ (i + 1)))
unfolding bucket_index
bucket_index_bounds ⦃u⦄ d small = elim (Bool-cases (d == 0)) [
  | inl zero_dist ↦ let e : d ≡ 0 = ground arith in inl (rw (e, u.leading_zeros-zero), e)
  | inr apart ↦
      let lz = u.leading_zeros d in
      let (few, low, high) = u.leading_zeros_lem d (ground arith) small in
      let e : 256 - lz ≡ suc (255 - lz) = omega arith in
      let e' : 255 - lz + 1 ≡ 256 - lz = omega arith in
      inr (255 - lz, rw e, omega arith, low, rw e' high)
]
