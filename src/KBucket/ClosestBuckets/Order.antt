-- ===== src/KBucket/ClosestBuckets/Order.antt =====
-- The distance to a target of the nodes in the buckets that `ClosestBucketsIter` (src/kbucket.rs)
-- visits. `d` is the distance of the target from the local key, and a node at distance `e` from the
-- local key has the distance `bit_xor d e` from the target.
use discv.Uint.{nth_bit}
use discv.Prelude.{
  ℕ, ◌^◌, suc, bit_xor, ◌≡◌, ◌<◌, ◌≤◌, ◌/◌, true, false, ◌+◌, ◌*◌, arith, ◌%◌, zero, ap, ◌∙◌,
}
use native.Mathlib.Nat.{pow-suc}
use discv.Prelude.Xor.{bit_xor_lowest, bit_xor_zero}

-- A distance of the bucket `i`.
abbrev pub InBucket : ℕ → ℕ → Type 0
InBucket i e = (2 ^ i ≤ e) × (e < 2 ^ (i + 1))

half-InBucket : (i e : ℕ) → InBucket (suc i) e → InBucket i (e / 2)
half-InBucket i e h =
    let p = pow-suc 2 i in
    let r : suc i + 1 ≡ suc (i + 1) = omega arith in
    let q : 2 ^ (suc i + 1) ≡ 2 ^ (i + 1) * 2 = ap (λ (n : ℕ). 2 ^ n) r ∙ pow-suc 2 (i + 1) in
    (omega (arith, h.0, p), omega (arith, h.1, q))

-- The only distance of the first bucket is 1.
flip_lowest : (d e : ℕ) → InBucket 0 e → bit_xor d e ≡ (d / 2) * 2 + (d % 2 + 1) % 2
flip_lowest d e h =
    let one : e ≡ 1 = omega (arith, h.0, h.1) in
    let half : e / 2 ≡ 0 = omega (arith, one) in
    let rest : bit_xor (d / 2) (e / 2) ≡ d / 2 = rw half (bit_xor_zero (d / 2)) in
    omega (arith, bit_xor_lowest d e, rest, one)

-- A bit 1 at the bucket's place: nearer to the target than the local key is.
pub nearer_of_one : (i d e : ℕ) → nth_bit i d ≡ true → InBucket i e → bit_xor d e < d
unfolding nth_bit
nearer_of_one zero d e b h = ground (arith, flip_lowest d e h)
nearer_of_one (suc i) d e b h =
    omega (arith, bit_xor_lowest d e, nearer_of_one i (d / 2) (e / 2) b (half-InBucket i e h))

pub farther_of_zero : (i d e : ℕ) → nth_bit i d ≡ false → InBucket i e → d < bit_xor d e
unfolding nth_bit
farther_of_zero zero d e b h = ground (arith, flip_lowest d e h)
farther_of_zero (suc i) d e b h =
    omega (arith, bit_xor_lowest d e, farther_of_zero i (d / 2) (e / 2) b (half-InBucket i e h))

-- Of two bits 1 the higher has the nearer nodes.
pub ones_ordered :
    (i j d e f : ℕ)
    → j < i
    → nth_bit i d ≡ true
    → nth_bit j d ≡ true
    → InBucket i e
    → InBucket j f
    → bit_xor d e < bit_xor d f
unfolding nth_bit
ones_ordered zero j d e f l b c h k = absurd (omega arith)
ones_ordered (suc i) zero d e f l b c h k = ground (
  arith,
  flip_lowest d f k,
  bit_xor_lowest d e,
  nearer_of_one i (d / 2) (e / 2) b (half-InBucket i e h),
)
ones_ordered (suc i) (suc j) d e f l b c h k = omega (
  arith,
  bit_xor_lowest d e,
  bit_xor_lowest d f,
  ones_ordered i j (d / 2) (e / 2) (f / 2) (omega arith) b c (half-InBucket i e h)
      (half-InBucket j f k),
)

-- Of two bits 0 the lower has the nearer nodes.
pub zeros_ordered :
    (i j d e f : ℕ)
    → i < j
    → nth_bit i d ≡ false
    → nth_bit j d ≡ false
    → InBucket i e
    → InBucket j f
    → bit_xor d e < bit_xor d f
unfolding nth_bit
zeros_ordered i zero d e f l b c h k = absurd (omega arith)
zeros_ordered zero (suc j) d e f l b c h k = ground (
  arith,
  flip_lowest d e h,
  bit_xor_lowest d f,
  farther_of_zero j (d / 2) (f / 2) c (half-InBucket j f k),
)
zeros_ordered (suc i) (suc j) d e f l b c h k = omega (
  arith,
  bit_xor_lowest d e,
  bit_xor_lowest d f,
  zeros_ordered i j (d / 2) (e / 2) (f / 2) (omega arith) b c (half-InBucket i e h)
      (half-InBucket j f k),
)

-- The bit of a number's highest place, and the bits above.
pub bit_of_InBucket : (i d : ℕ) → InBucket i d → nth_bit i d ≡ true
unfolding nth_bit
bit_of_InBucket zero d h = ground (arith, h.0, h.1)
bit_of_InBucket (suc i) d h = bit_of_InBucket i (d / 2) (half-InBucket i d h)

pub bit_above : (i d : ℕ) → d < 2 ^ i → nth_bit i d ≡ false
unfolding nth_bit
bit_above zero d h = ground arith
bit_above (suc i) d h = bit_above i (d / 2) (omega (arith, pow-suc 2 i))
