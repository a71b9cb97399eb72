-- ===== src/KBucket/ClosestBuckets/Sorted.antt =====
-- The buckets that `ClosestBucketsIter` (src/kbucket.rs) gives stand in order of distance from the
-- target.
use discv.KBucket.ClosestBuckets.{drain, new_buckets_iter}
use discv.Prelude.{refl}
use discv.KBucket.Table.Index.{bucket_index_bounds}
use discv.KBucket.ClosestBuckets.Drain.{ones_below, zeros_from, visits, first_bucket, drain-visits}
use discv.Uint.{Uint, nth_bit}
use discv.Prelude.{
  ℕ, bit_xor, ◌≡◌, inl, List, All, ◌∷◌, ◌<◌, ◌≤◌, ◌⊎◌, arith, ◌++◌, true, suc, inr, ◌^◌, [], false,
  Bool-cases, zero,
}
use discv.KBucket.ClosestBuckets.Order.{
  InBucket, ones_ordered, nearer_of_one, farther_of_zero, zeros_ordered, bit_of_InBucket,
}

-- No node of the bucket `i` is farther from the target than one of the bucket `j`.
abbrev pub NoFarther : ℕ → ℕ → ℕ → Type 0
NoFarther d i j = (e f : ℕ) → InBucket i e → InBucket j f → bit_xor d e ≤ bit_xor d f

-- The ways of that, by the bits of the distance of the target.
abbrev Before : ℕ → ℕ → ℕ → Type 0
Before d i j =
    ((i ≡ 0) × (j ≡ 0))
    ⊎ ((nth_bit i d ≡ true) × (nth_bit j d ≡ true) × (j < i))
    ⊎ ((nth_bit i d ≡ true) × (nth_bit j d ≡ false))
    ⊎ ((nth_bit i d ≡ false) × (nth_bit j d ≡ false) × (i < j))

Before-NoFarther : (d i j : ℕ) → Before d i j → NoFarther d i j
Before-NoFarther d i j (inl (p, q)) e f h k =
    let a : InBucket 0 e = rw p at h in
    let b : InBucket 0 f = rw q at k in
    let same : e ≡ f = omega (arith, a.0, a.1, b.0, b.1) in rw same (omega arith)
Before-NoFarther d i j (inr (inl (a, b, l))) e f h k =
    omega (arith, ones_ordered i j d e f l a b h k)
Before-NoFarther d i j (inr (inr (inl (a, b)))) e f h k =
    omega (arith, nearer_of_one i d e a h, farther_of_zero j d f b k)
Before-NoFarther d i j (inr (inr (inr (a, b, l)))) e f h k =
    omega (arith, zeros_ordered i j d e f l a b h k)

module _ (R : ℕ → ℕ → Type 0) where
  -- Each element stands in the relation with all that come later.
  abbrev pub Sorted : List ℕ → Type 0
  Sorted [] = Unit {0}
  Sorted (x ∷ xs) = All (R x) xs × Sorted xs

  All-append : (x : ℕ) (xs ys : List ℕ) → All (R x) xs → All (R x) ys → All (R x) (xs ++ ys)
  All-append x [] ys h k = k
  All-append x (y ∷ xs) ys h k = (h.0, All-append x xs ys h.1 k)

  Sorted-append :
      (xs ys : List ℕ)
      → Sorted xs
      → Sorted ys
      → All (λ (x : ℕ). All (R x) ys) xs
      → Sorted (xs ++ ys)
  Sorted-append [] ys h k m = k
  Sorted-append (x ∷ xs) ys h k m = (All-append x xs ys h.0 m.0, Sorted-append xs ys h.1 k m.1)

Sorted-mono :
    (R S : ℕ → ℕ → Type 0) → ((x y : ℕ) → R x y → S x y) → (xs : List ℕ) → Sorted R xs → Sorted S xs
Sorted-mono R S f [] h = tt
Sorted-mono R S f (x ∷ xs) h = (each xs h.0, Sorted-mono R S f xs h.1)
  where
    each : (ys : List ℕ) → All (R x) ys → All (S x) ys
    each [] k = tt
    each (y ∷ ys) k = (f x y k.0, each ys k.1)

module _ (d : ℕ) where
  ones-All : (i k : ℕ) → nth_bit i d ≡ true → k ≤ i → All (Before d i) (ones_below d k)
  unfolding ones_below
  ones-All i zero b l = tt
  ones-All i (suc k) b l = elim (Bool-cases (nth_bit k d)) [
    | inl one ↦ rw one (inr (inl (b, one, l)), ones-All i k b (omega arith))
    | inr nil ↦ rw nil (ones-All i k b (omega arith))
  ]

  ones-Sorted : (k : ℕ) → Sorted (Before d) (ones_below d k)
  unfolding ones_below
  ones-Sorted zero = tt
  ones-Sorted (suc k) = elim (Bool-cases (nth_bit k d)) [
    | inl one ↦ rw one (ones-All k k one (omega arith), ones-Sorted k)
    | inr nil ↦ rw nil (ones-Sorted k)
  ]

  -- A bucket that may stand before the bits 0 from the place `k` on.
  abbrev Early : ℕ → ℕ → Type 0
  Early k i = (nth_bit i d ≡ true) ⊎ (i < k)

  zeros-All : (i n k : ℕ) → Early k i → All (Before d i) (zeros_from d n k)
  unfolding zeros_from
  zeros-All i zero k h = tt
  zeros-All i (suc n) k h = elim (Bool-cases (nth_bit k d)) [
    | inl one ↦ rw one (zeros-All i n (suc k) (later h))
    | inr nil ↦ rw nil (first nil (Bool-cases (nth_bit i d)) h, zeros-All i n (suc k) (later h))
  ]
    where
      later : Early k i → Early (suc k) i
      later (inl one) = inl one
      later (inr l) = inr (omega arith)

      first :
          nth_bit k d ≡ false
          → (nth_bit i d ≡ true) ⊎ (nth_bit i d ≡ false)
          → Early k i
          → Before d i k
      first nil (inl one) h = inr (inr (inl (one, nil)))
      first nil (inr no_bit) (inl one) = inr (inr (inl (one, nil)))
      first nil (inr no_bit) (inr l) = inr (inr (inr (no_bit, nil, l)))

  zeros-Sorted : (n k : ℕ) → Sorted (Before d) (zeros_from d n k)
  unfolding zeros_from
  zeros-Sorted zero k = tt
  zeros-Sorted (suc n) k = elim (Bool-cases (nth_bit k d)) [
    | inl one ↦ rw one (zeros-Sorted n (suc k))
    | inr nil ↦ rw nil (zeros-All k n (suc k) (inr (omega arith)), zeros-Sorted n (suc k))
  ]

  Before-bucket_zero : (i : ℕ) → Early 1 i → Before d i 0
  Before-bucket_zero zero h = inl (refl, refl)
  Before-bucket_zero (suc i) (inl one) = elim (Bool-cases (nth_bit 0 d)) [
    | inl b ↦ inr (inl (one, b, omega arith))
    | inr b ↦ inr (inr (inl (one, b)))
  ]
  Before-bucket_zero (suc i) (inr l) = absurd (omega arith)

  tail-All : (i : ℕ) → Early 1 i → All (Before d i) (0 ∷ zeros_from d 255 1)
  tail-All i h = (Before-bucket_zero i h, zeros-All i 255 1 h)

  tail-Sorted : Sorted (Before d) (0 ∷ zeros_from d 255 1)
  tail-Sorted = (zeros-All 0 255 1 (inr (omega arith)), zeros-Sorted 255 1)

  ones-tail : (k : ℕ) → All (λ (x : ℕ). All (Before d x) (0 ∷ zeros_from d 255 1)) (ones_below d k)
  unfolding ones_below
  ones-tail zero = tt
  ones-tail (suc k) = elim (Bool-cases (nth_bit k d)) [
    | inl one ↦ rw one (tail-All k (inl one), ones-tail k)
    | inr nil ↦ rw nil (ones-tail k)
  ]

  from_first :
      (i : ℕ)
      → (nth_bit i d ≡ true) ⊎ (i ≡ 0)
      → Sorted (Before d) (i ∷ (ones_below d i ++ 0 ∷ zeros_from d 255 1))
  unfolding ones_below
  from_first i (inl one) = (
    All-append (Before d) i (ones_below d i) tail (ones-All i i one (omega arith))
        (tail-All i (inl one)),
    Sorted-append (Before d) (ones_below d i) tail (ones-Sorted i) tail-Sorted (ones-tail i),
  )
    where
      tail : List ℕ
      tail = 0 ∷ zeros_from d 255 1
  from_first zero (inr z) = (tail-All 0 (inr (omega arith)), tail-Sorted)
  from_first (suc i) (inr z) = absurd (omega arith)

module _ ⦃u : Uint⦄ where
  visits-Sorted : (d : ℕ) → d < 2 ^ 256 → Sorted (NoFarther d) (visits d)
  visits-Sorted d small =
      Sorted-mono (Before d) (NoFarther d) (Before-NoFarther d) (visits d)
        (elim (bucket_index_bounds d small) [
          | inl (e, z) ↦
              let f : first_bucket d ≡ 0 = rw (first_bucket, e) refl in
              rw f (from_first d 0 (inr refl))
          | inr (i, e, l, b, c) ↦
              let f : first_bucket d ≡ i = rw (first_bucket, e) refl in
              rw f (from_first d i (inl (bit_of_InBucket i d (b, c))))
        ])

  -- In the order in which 513 calls or more of the iterator give the buckets, for a target at a
  -- distance of 256 bits, no node of a bucket is farther from the target than a node of a bucket
  -- that comes later.
  pub drain-Sorted :
      (n d : ℕ) → d < 2 ^ 256 → 513 ≤ n → Sorted (NoFarther d) (drain n (new_buckets_iter d))
  drain-Sorted n d small h = rw (drain-visits n d small h) (visits-Sorted d small)
