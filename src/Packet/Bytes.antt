-- ===== src/Packet/Bytes.antt =====
-- Byte strings, as src/packet/mod.rs uses them: slices, which panic out of range, and numbers in
-- big-endian order.
use discv.Prelude.{
  ℕ, ◌≡◌, refl, List, [], ◌∷◌, ◌++◌, length, take, zero, suc, if◌then◌else◌, ltb, ◌==◌, arith,
  get_elem?, none, some, All, ◌<◌, ◌+◌, ◌-◌, ◌*◌, ◌^◌, ◌/◌, ◌%◌, length-append, ap, false, sym,
  true, Bool, ◌&&◌,
}
use native.Mathlib.Nat.{pow-suc}
use discv.Packet.Outcome.{Outcome, panicked, ok}

module _ {ℓ} {A : Type ℓ} where
  abbrev pub drop : ℕ → List A → List A
  drop zero xs = xs
  drop (suc n) [] = []
  drop (suc n) (x ∷ xs) = drop n xs

module _ {ℓ} {E : Type 0} {A : Type ℓ} where
  -- `xs[lo..hi]`
  unfoldable pub slice : ℕ → ℕ → List A → Outcome E (List A)
  slice lo hi xs =
      if ltb hi lo
      then panicked
      else if ltb (length xs) hi
      then panicked
      else ok (take (hi - lo) (drop lo xs))

  -- `xs[lo..]`
  unfoldable pub slice_from : ℕ → List A → Outcome E (List A)
  slice_from lo xs = if ltb (length xs) lo then panicked else ok (drop lo xs)

  -- `xs[i]`
  unfoldable pub index : ℕ → List A → Outcome E A
  index i xs = elim (get_elem? xs i) [ none ↦ panicked | some x ↦ ok x ]

  -- `xs.try_into().expect(..)`, into an array of `n` elements
  unfoldable pub into_array : ℕ → List A → Outcome E (List A)
  into_array n xs = if length xs == n then ok xs else panicked

abbrev pub IsBytes : List ℕ → Type 0
IsBytes xs = All (λ (b : ℕ). b < 256) xs

-- `from_be_bytes`
unfoldable pub from_be : ℕ → List ℕ → ℕ
from_be n [] = n
from_be n (b ∷ bs) = from_be (n * 256 + b) bs

unfoldable pub from_be_bytes : List ℕ → ℕ
unfolding from_be
from_be_bytes bs = from_be 0 bs

-- `to_be_bytes` of a number of `w` bytes; a larger one is cut, as by `as`.
unfoldable pub to_be_bytes : ℕ → ℕ → List ℕ
to_be_bytes zero n = []
to_be_bytes (suc w) n = to_be_bytes w (n / 256) ++ (n % 256) ∷ []

pub length-to_be_bytes : (w n : ℕ) → length (to_be_bytes w n) ≡ w
unfolding to_be_bytes
length-to_be_bytes zero n = refl
length-to_be_bytes (suc w) n = omega (
  arith,
  length-append (to_be_bytes w (n / 256)) ((n % 256) ∷ []),
  length-to_be_bytes w (n / 256),
)

from_be-append : (n : ℕ) (xs : List ℕ) (b : ℕ) → from_be n (xs ++ b ∷ []) ≡ from_be n xs * 256 + b
unfolding from_be
from_be-append n [] b = refl
from_be-append n (x ∷ xs) b = from_be-append (n * 256 + x) xs b

pub from_be_bytes-to_be_bytes : (w n : ℕ) → n < 256 ^ w → from_be_bytes (to_be_bytes w n) ≡ n
unfolding from_be_bytes from_be to_be_bytes
from_be_bytes-to_be_bytes zero n h = omega arith
from_be_bytes-to_be_bytes (suc w) n h =
    rw
      (
        from_be-append 0 (to_be_bytes w (n / 256)) (n % 256),
        from_be_bytes-to_be_bytes w (n / 256) (omega (arith, pow-suc 256 w)),
      )
      (omega arith)

module _ {ℓ} {A : Type ℓ} where
  pub drop-append : (xs ys : List A) → drop (length xs) (xs ++ ys) ≡ ys
  drop-append [] ys = refl
  drop-append (x ∷ xs) ys = drop-append xs ys

  pub take-append : (xs ys : List A) → take (length xs) (xs ++ ys) ≡ xs
  take-append [] ys = refl
  take-append (x ∷ xs) ys = ap (◌∷◌ x) (take-append xs ys)

  index-eq : (xs : List A) (y : A) (zs : List A) → get_elem? (xs ++ (y ∷ zs)) (length xs) ≡ some y
  index-eq [] y zs = refl
  index-eq (x ∷ xs) y zs = index-eq xs y zs

module _ {ℓ} {E : Type 0} {A : Type ℓ} where
  -- The slice of three parts put together that is the middle one.
  pub slice-append :
      {lo hi : ℕ} {ws : List A} (xs ys zs : List A)
      → ws ≡ xs ++ (ys ++ zs)
      → length xs ≡ lo
      → length xs + length ys ≡ hi
      → slice {E = E} lo hi ws ≡ ok ys
  unfolding slice
  slice-append {lo} {hi} {ws} xs ys zs e l h =
      let a : ltb hi lo ≡ false = ground arith in
      let n : length ws ≡ length xs + (length ys + length zs) =
        rw (e, length-append xs (ys ++ zs), length-append ys zs) refl in
      let b : ltb (length ws) hi ≡ false = ground (arith, n) in
      let c : hi - lo ≡ length ys = omega arith in
      rw (a, b, c, e, sym l, drop-append xs (ys ++ zs), take-append ys zs) refl

  pub slice-append_first :
      {hi : ℕ} {ws : List A} (ys zs : List A)
      → ws ≡ ys ++ zs
      → length ys ≡ hi
      → slice {E = E} 0 hi ws ≡ ok ys
  slice-append_first ys zs e l = slice-append [] ys zs e refl (omega (arith, l))

  pub slice_from-append :
      {lo : ℕ} {ws : List A} (xs ys : List A)
      → ws ≡ xs ++ ys
      → length xs ≡ lo
      → slice_from {E = E} lo ws ≡ ok ys
  unfolding slice_from
  slice_from-append {lo} {ws} xs ys e l =
      let n : length ws ≡ length xs + length ys = rw (e, length-append xs ys) refl in
      let b : ltb (length ws) lo ≡ false = ground (arith, n) in
      rw (b, e, sym l, drop-append xs ys) refl

  pub index-append :
      {i : ℕ} {ws : List A} (xs : List A) (y : A) (zs : List A)
      → ws ≡ xs ++ (y ∷ zs)
      → length xs ≡ i
      → index {E = E} i ws ≡ ok y
  unfolding index
  index-append {i} {ws} xs y zs e l =
      let g : get_elem? ws i ≡ some y = rw (e, sym l) (index-eq xs y zs) in rw (index, g) refl

  pub into_array-length : {n : ℕ} (xs : List A) → length xs ≡ n → into_array {E = E} n xs ≡ ok xs
  unfolding into_array
  into_array-length {n} xs e = let b : (length xs == n) ≡ true = ground arith in rw b refl

-- `==` on byte strings
unfoldable pub bytes_eq : List ℕ → List ℕ → Bool
bytes_eq [] [] = true
bytes_eq [] (y ∷ ys) = false
bytes_eq (x ∷ xs) [] = false
bytes_eq (x ∷ xs) (y ∷ ys) = (x == y) && bytes_eq xs ys

pub bytes_eq_self : (xs : List ℕ) → bytes_eq xs xs ≡ true
unfolding bytes_eq
bytes_eq_self [] = refl
bytes_eq_self (x ∷ xs) = ground (arith, bytes_eq_self xs)
