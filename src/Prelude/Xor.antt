-- ===== src/Prelude/Xor.antt =====
-- `^` on unsigned integers, at variables: its lowest digit, and the laws of a metric.
use Prim.Native.Nat.{digits, bitwise, differ, bit_xor-bitwise}
use native.Mathlib.Nat.{pow-suc}
use discv.Prelude.{
  ℕ, zero, suc, ◌+◌, ◌*◌, ◌/◌, ◌%◌, ◌≤◌, ◌≡◌, refl, arith, bit_xor, ◌⊎◌, inl, inr, if◌then◌else◌,
  ◌<◌, ◌==◌, ◌^◌, ◌-◌, subst,
}

-- `bit_xor` is this recursion on the digits of the first number, whose fuel is the number itself.
abbrev xor_digits : (fuel a b : ℕ) → ℕ
xor_digits fuel a b = digits (λ d. d) differ fuel a b

xor_digits-zero : (fuel b : ℕ) → xor_digits fuel 0 b ≡ b
xor_digits-zero zero b = refl
xor_digits-zero (suc fuel) b = refl

-- Fuel beyond the first number is not used.
xor_digits-spare :
    (fuel spare b a : ℕ) → a ≤ fuel → xor_digits (fuel + spare) a b ≡ xor_digits fuel a b
xor_digits-spare fuel spare b zero h = rw (xor_digits-zero, xor_digits-zero)
xor_digits-spare zero spare b (suc a) h = absurd (omega arith)
xor_digits-spare (suc fuel) spare b (suc a) h =
    let e : suc fuel + spare ≡ suc (fuel + spare) = omega arith in
    rw (e, xor_digits-spare fuel spare (b / 2) (suc a / 2) (omega arith))

bitwise-suc :
    (a b : ℕ)
    → let half = suc a / 2 in
      bitwise (λ d. d) differ (suc a) b
      ≡ xor_digits half half (b / 2) * 2 + differ (suc a % 2) (b % 2)
bitwise-suc a b =
    let half = suc a / 2 in
    let spare : half + (a - half) ≡ a = omega arith in
    let more = xor_digits-spare half (a - half) (b / 2) half (omega arith) in
    omega (arith, subst (λ n. xor_digits n half (b / 2) ≡ xor_digits half half (b / 2)) spare more)

digit-cases : (a : ℕ) → (a % 2 ≡ 0) ⊎ (a % 2 ≡ 1)
digit-cases a = omega arith

zero-differ : (b : ℕ) → differ 0 (b % 2) ≡ b % 2
zero-differ b = elim (digit-cases b) [ inl e ↦ rw e | inr e ↦ rw e ]

bit_xor_step : (a b : ℕ) → bit_xor a b ≡ bit_xor (a / 2) (b / 2) * 2 + differ (a % 2) (b % 2)
bit_xor_step zero b = simp bit_xor-bitwise (omega (arith, zero-differ b))
bit_xor_step (suc a) b = simp bit_xor-bitwise (bitwise-suc a b)

-- What the lowest digit of `a ^ b` is.
differ_lem :
    (a b : ℕ)
    → (differ (a % 2) (b % 2) + 2 * (if (a % 2) == 1 then (if (b % 2) == 1 then 1 else 0) else 0)
        ≡ a % 2 + b % 2)
differ_lem a b = elim (digit-cases a) [
  | inl p ↦ elim (digit-cases b) [ inl q ↦ rw (p, q) | inr q ↦ rw (p, q) ]
  | inr p ↦ elim (digit-cases b) [ inl q ↦ rw (p, q) | inr q ↦ rw (p, q) ]
]

pub bit_xor_lowest : (a b : ℕ) → (bit_xor a b ≡ bit_xor (a / 2) (b / 2) * 2 + (a % 2 + b % 2) % 2)
bit_xor_lowest a b = ground (arith, bit_xor_step a b, differ_lem a b)

-- Induction on a bound of both numbers.
bit_xor_comm_below : (n a b : ℕ) → a ≤ n → b ≤ n → bit_xor a b ≡ bit_xor b a
bit_xor_comm_below zero a b p q = let e : a ≡ b = omega arith in rw e
bit_xor_comm_below (suc n) a b p q = omega (
  arith,
  bit_xor_lowest a b,
  bit_xor_lowest b a,
  bit_xor_comm_below n (a / 2) (b / 2) (omega arith) (omega arith),
)

pub bit_xor_comm : (a b : ℕ) → bit_xor a b ≡ bit_xor b a
bit_xor_comm a b = bit_xor_comm_below (a + b) a b (omega arith) (omega arith)

bit_xor_zero_below : (n a : ℕ) → a ≤ n → bit_xor a 0 ≡ a
bit_xor_zero_below zero a p = let e : a ≡ 0 = omega arith in rw e refl
bit_xor_zero_below (suc n) a p =
    let h : 0 / 2 ≡ 0 = omega arith in
    let ih : bit_xor (a / 2) (0 / 2) ≡ a / 2 = rw h (bit_xor_zero_below n (a / 2) (omega arith)) in
    omega (arith, bit_xor_lowest a 0, ih)

pub bit_xor_zero : (a : ℕ) → bit_xor a 0 ≡ a
bit_xor_zero a = bit_xor_zero_below a a (omega arith)

bit_xor_self_below : (n a : ℕ) → a ≤ n → bit_xor a a ≡ 0
bit_xor_self_below zero a p = let e : a ≡ 0 = omega arith in rw e
bit_xor_self_below (suc n) a p =
    omega (arith, bit_xor_lowest a a, bit_xor_self_below n (a / 2) (omega arith))

pub bit_xor_self : (a : ℕ) → bit_xor a a ≡ 0
bit_xor_self a = bit_xor_self_below a a (omega arith)

cancel_below : (n a b c : ℕ) → a ≤ n → b ≤ n → c ≤ n → bit_xor a b ≡ bit_xor a c → b ≡ c
cancel_below zero a b c p q r e = omega arith
cancel_below (suc n) a b c p q r e = omega (
  arith,
  bit_xor_lowest a b,
  bit_xor_lowest a c,
  cancel_below n (a / 2) (b / 2) (c / 2) (omega arith) (omega arith) (omega arith)
      (omega (arith, bit_xor_lowest a b, bit_xor_lowest a c)),
)

-- From one number, each distance belongs to one other.
pub bit_xor_cancel : (a b c : ℕ) → bit_xor a b ≡ bit_xor a c → b ≡ c
bit_xor_cancel a b c e = cancel_below (a + b + c) a b c (omega arith) (omega arith) (omega arith) e

triangle_below : (n a b c : ℕ) → a ≤ n → b ≤ n → c ≤ n → bit_xor a c ≤ bit_xor a b + bit_xor b c
triangle_below zero a b c p q r = let x : a ≡ c = omega arith in rw (x, bit_xor_self) (omega arith)
triangle_below (suc n) a b c p q r = omega (
  arith,
  bit_xor_lowest a b,
  bit_xor_lowest b c,
  bit_xor_lowest a c,
  triangle_below n (a / 2) (b / 2) (c / 2) (omega arith) (omega arith) (omega arith),
)

pub bit_xor_triangle : (a b c : ℕ) → bit_xor a c ≤ bit_xor a b + bit_xor b c
bit_xor_triangle a b c = triangle_below (a + b + c) a b c (omega arith) (omega arith) (omega arith)

below_pow : (k a b : ℕ) → a < 2 ^ k → b < 2 ^ k → bit_xor a b < 2 ^ k
below_pow zero a b p q =
    let x : a ≡ 0 = omega arith in let y : b ≡ 0 = omega arith in rw (x, y) (omega arith)
below_pow (suc k) a b p q = omega (
  arith,
  bit_xor_lowest a b,
  pow-suc 2 k,
  below_pow k (a / 2) (b / 2) (omega (arith, pow-suc 2 k)) (omega (arith, pow-suc 2 k)),
)

-- `^` of two words of `k` bits is a word of `k` bits.
pub bit_xor-lt-pow : (k a b : ℕ) → a < 2 ^ k → b < 2 ^ k → bit_xor a b < 2 ^ k
bit_xor-lt-pow k a b p q = below_pow k a b p q
