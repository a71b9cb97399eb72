-- ===== src/KBucket/ClosestBuckets/Covers.antt =====
-- `ClosestBucketsIter` of src/kbucket.rs misses no bucket.
use discv.KBucket.Table.Index.{bucket_index_bounds}
use discv.KBucket.ClosestBuckets.{drain, new_buckets_iter}
use discv.KBucket.ClosestBuckets.Order.{bit_above}
use discv.Uint.{Uint, nth_bit}
use discv.KBucket.ClosestBuckets.Drain.{ones_below, zeros_from, drain-visits, first_bucket}
use native.Mathlib.Nat.{pow-le-pow_right}
use discv.Prelude.{
  refl, ℕ, List, ◌<◌, Bool, ◌≡◌, ◌^◌, false, true, ◌+◌, ◌≤◌, ◌∷◌, ◌++◌, arith, ◌==◌, suc, [], ◌||◌,
  Bool-cases, inl, inr, sym, ltb, zero,
}

abbrev pub mem : ℕ → List ℕ → Bool
mem i [] = false
mem i (x ∷ xs) = (x == i) || mem i xs

mem-append_left : (i : ℕ) (xs ys : List ℕ) → mem i xs ≡ true → mem i (xs ++ ys) ≡ true
mem-append_left i [] ys h = cc
mem-append_left i (x ∷ xs) ys h = ground (arith, mem-append_left i xs ys)

mem-append_right : (i : ℕ) (xs ys : List ℕ) → mem i ys ≡ true → mem i (xs ++ ys) ≡ true
mem-append_right i [] ys h = h
mem-append_right i (x ∷ xs) ys h = ground (arith, mem-append_right i xs ys h)

mem-ones : (d i k : ℕ) → nth_bit i d ≡ true → i < k → mem i (ones_below d k) ≡ true
unfolding ones_below
mem-ones d i zero b l = absurd (omega arith)
mem-ones d i (suc k) b l = elim (Bool-cases (i == k)) [
  | inl e ↦ let same : i ≡ k = ground arith in rw (sym same, b) (ground arith)
  | inr n ↦ elim (Bool-cases (nth_bit k d)) [
    | inl one ↦ rw one (ground (arith, mem-ones d i k b (ground arith)))
    | inr nil ↦ rw nil (mem-ones d i k b (ground arith))
  ]
]

mem-zeros :
    (d i n k : ℕ) → nth_bit i d ≡ false → k ≤ i → i < k + n → mem i (zeros_from d n k) ≡ true
unfolding zeros_from
mem-zeros d i zero k b l h = absurd (omega arith)
mem-zeros d i (suc n) k b l h = elim (Bool-cases (i == k)) [
  | inl e ↦ let same : i ≡ k = ground arith in rw (sym same, b) (ground arith)
  | inr m ↦ elim (Bool-cases (nth_bit k d)) [
    | inl one ↦ rw one (mem-zeros d i n (suc k) b (ground arith) (omega arith))
    | inr nil ↦ rw nil (ground (arith, mem-zeros d i n (suc k) b (ground arith) (omega arith)))
  ]
]

-- A first bucket with no bit 1 above it: the list from it has every bucket.
mem-from :
    (d first i : ℕ)
    → ((j : ℕ) → first < j → nth_bit j d ≡ false)
    → i < 256
    → mem i (first ∷ (ones_below d first ++ 0 ∷ zeros_from d 255 1)) ≡ true
mem-from d first zero above h =
    ground (arith, mem-append_right 0 (ones_below d first) (0 ∷ zeros_from d 255 1) (ground arith))
mem-from d first (suc i) above h = elim (Bool-cases (nth_bit (suc i) d)) [
  | inr nil ↦ ground (
    arith,
    mem-append_right (suc i) (ones_below d first) (0 ∷ zeros_from d 255 1)
        (ground (arith, mem-zeros d (suc i) 255 1 nil (omega arith) (omega arith))),
  )
  | inl one ↦ elim (Bool-cases (ltb (suc i) first)) [
    | inl l ↦ ground (
      arith,
      mem-append_left (suc i) (ones_below d first) (0 ∷ zeros_from d 255 1)
          (mem-ones d (suc i) first one (ground arith)),
    )
    | inr n ↦ ground (arith, above (suc i))
  ]
]

above_highest : (d i j : ℕ) → d < 2 ^ (i + 1) → i < j → nth_bit j d ≡ false
above_highest d i j h l =
    bit_above j d
      (omega (arith, pow-le-pow_right {n = 2} (omega arith) {i = i + 1} {j = j} (omega arith)))

module _ ⦃u : Uint⦄ where
  -- 513 calls or more of the iterator, for a target at a distance of 256 bits, give every one of the
  -- 256 buckets.
  pub drain-mem :
      (n d i : ℕ) → d < 2 ^ 256 → 513 ≤ n → i < 256 → mem i (drain n (new_buckets_iter d)) ≡ true
  drain-mem n d i small h l = rw (drain-visits n d small h) (elim (bucket_index_bounds d small) [
    | inl (e, z) ↦
        let f : first_bucket d ≡ 0 = rw (first_bucket, e) refl in
        rw f (mem-from d 0 i (λ j k. above_highest d 0 j (omega (arith, z)) k) l)
    | inr (k, e, m, b, c) ↦
        let f : first_bucket d ≡ k = rw (first_bucket, e) refl in
        rw f (mem-from d k i (λ j o. above_highest d k j c o) l)
  ])
