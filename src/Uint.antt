-- ===== src/Uint.antt =====
-- The crate `uint`, as src/kbucket/key.rs and src/kbucket.rs use its 256-bit integers: `^`,
-- `leading_zeros` and `bit`, operations that the repository does not implement, with their
-- documented meaning.
use native.Mathlib.Nat.{pow-suc}
use native.Mathlib.Numerals.{sub-one}
use discv.Prelude.{
  Bool, ◌%◌, ℕ, ◌-◌, ◌/◌, ◌^◌, ◌≤◌, ◌<◌, ◌≡◌, refl, bit_xor, arith, zero, suc, if◌then◌else◌,
  Bool-cases, ◌==◌, inl, inr,
}

-- The bit of a place, counted from the lowest.
unfoldable pub nth_bit : ℕ → ℕ → Bool
nth_bit zero d = d % 2 == 1
nth_bit (suc i) d = nth_bit i (d / 2)

pub record Uint : Type 0 where
  pub xor : ℕ → ℕ → ℕ
  pub leading_zeros : ℕ → ℕ
  pub bit : ℕ → ℕ → Bool
  pub bit_lem : (d i : ℕ) → bit d i ≡ nth_bit i d
  pub xor_lem : (a b : ℕ) → a < 2 ^ 256 → b < 2 ^ 256 → xor a b ≡ bit_xor a b
  pub leading_zeros-zero : leading_zeros 0 ≡ 256
  -- The highest one bit stands right below the leading zeros.
  pub leading_zeros_lem :
      (d : ℕ)
      → 0 < d
      → d < 2 ^ 256
      → (leading_zeros d < 256)
        × (2 ^ (255 - leading_zeros d) ≤ d)
        × (d < 2 ^ (256 - leading_zeros d))

-- The position of the highest one bit, counted from 1.
unfoldable pub bit_length : ℕ → ℕ → ℕ
bit_length zero d = 0
bit_length (suc k) d = if d == 0 then 0 else suc (bit_length k (d / 2))

pub bit_length-zero : (k : ℕ) → bit_length k 0 ≡ 0
unfolding bit_length
bit_length-zero zero = refl
bit_length-zero (suc k) = refl

bit_length_of_pos : (k d : ℕ) → 0 < d → bit_length (suc k) d ≡ suc (bit_length k (d / 2))
unfolding bit_length
bit_length_of_pos k d h = ground arith

bit_length-le : (k d : ℕ) → bit_length k d ≤ k
unfolding bit_length
bit_length-le zero d = omega arith
bit_length-le (suc k) d = ground (arith, bit_length-le k (d / 2))

grow : (m d : ℕ) → 0 < d / 2 → 2 ^ (m - 1) ≤ d / 2 → d / 2 < 2 ^ m → (2 ^ m ≤ d) × (d < 2 ^ suc m)
grow zero d h l u = absurd (omega arith)
grow (suc m) d h l u =
    let l' : 2 ^ m ≤ d / 2 = rw sub-one at l in
    (omega (arith, pow-suc 2 m, l'), omega (arith, pow-suc 2 m, pow-suc 2 (suc m)))

bit_length_bounds :
    (k d : ℕ) → 0 < d → d < 2 ^ k → (2 ^ (bit_length k d - 1) ≤ d) × (d < 2 ^ bit_length k d)
bit_length_bounds zero d h l = absurd (omega arith)
bit_length_bounds (suc k) d h l = rw (bit_length_of_pos k d h) (elim (Bool-cases (d / 2 == 0)) [
  | inl one ↦ let e : d / 2 ≡ 0 = ground arith in rw (e, bit_length-zero) (omega arith)
  | inr more ↦
      let p : 0 < d / 2 = ground arith in
      let (a, b) = bit_length_bounds k (d / 2) p (omega (arith, pow-suc 2 k)) in
      let e : suc (bit_length k (d / 2)) - 1 ≡ bit_length k (d / 2) = omega arith in
      rw e (grow (bit_length k (d / 2)) d p a b)
])

pub bit_length_zeros :
    (d : ℕ)
    → 0 < d
    → d < 2 ^ 256
    → (256 - bit_length 256 d < 256)
      × (2 ^ (255 - (256 - bit_length 256 d)) ≤ d)
      × (d < 2 ^ (256 - (256 - bit_length 256 d)))
bit_length_zeros d h l =
    let (a, b) = bit_length_bounds 256 d h l in
    let pos : 0 < bit_length 256 d = rw (bit_length_of_pos 255 d h) (omega arith) in
    let e : 255 - (256 - bit_length 256 d) ≡ bit_length 256 d - 1 =
      omega (arith, bit_length-le 256 d) in
    let f : 256 - (256 - bit_length 256 d) ≡ bit_length 256 d =
      omega (arith, bit_length-le 256 d) in
    (omega arith, rw e a, rw f b)

-- The crate's behaviour as functions: the laws can be met.
abbrev pub word_uint : Uint
word_uint = record {
  xor = bit_xor;
  bit = λ d i. nth_bit i d;
  bit_lem = λ d i. refl;
  leading_zeros = λ d. 256 - bit_length 256 d;
  xor_lem = λ a b _ _. refl;
  leading_zeros-zero = omega (arith, bit_length-zero 256);
  leading_zeros_lem = bit_length_zeros;
}
