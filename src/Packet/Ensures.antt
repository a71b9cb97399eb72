-- ===== src/Packet/Ensures.antt =====
-- What a run of a function of src/packet/mod.rs ensures: it does not panic, and its error or its
-- result has a property. A slice within its bounds returns.
use discv.Prelude.{
  refl, ◌≡◌, ℕ, ◌<◌, List, All, length, ◌≤◌, suc, take, ◌-◌, get_elem?_of_lt, ◌∷◌, arith, ltb,
  All-get_elem?, false, zero, [], ◌⊎◌,
}
use discv.Packet.Outcome.{Outcome, err, ok}
use discv.Packet.Bytes.{slice, slice_from, index, drop, IsBytes}

abbrev pub Ensures {ℓ} :
    {E : Type 0} {A : Type ℓ} → (E → Type 0) → (A → Type 0) → Outcome E A → Type ℓ
Ensures {E} {A} F P m = ((e : E) × (m ≡ err e) × F e) ⊎ ((a : A) × (m ≡ ok a) × P a)

abbrev ByteSize : ℕ → Type 0
ByteSize b = b < 256

module _ {ℓ κ} {A : Type ℓ} (P : A → Type κ) where
  All-drop : (n : ℕ) (xs : List A) → All P xs → All P (drop n xs)
  All-drop zero xs h = h
  All-drop (suc n) [] h = h
  All-drop (suc n) (x ∷ xs) h = All-drop n xs h.1

  All-take : (n : ℕ) (xs : List A) → All P xs → All P (take n xs)
  All-take zero xs h = tt
  All-take (suc n) [] h = tt
  All-take (suc n) (x ∷ xs) h = (h.0, All-take n xs h.1)

module _ {ℓ} {A : Type ℓ} where
  length-drop : (n : ℕ) (xs : List A) → length (drop n xs) ≡ length xs - n
  length-drop zero xs = omega arith
  length-drop (suc n) [] = omega arith
  length-drop (suc n) (x ∷ xs) = omega (arith, length-drop n xs)

  length-take : (n : ℕ) (xs : List A) → n ≤ length xs → length (take n xs) ≡ n
  length-take zero xs h = refl
  length-take (suc n) [] h = omega arith
  length-take (suc n) (x ∷ xs) h = omega (arith, length-take n xs (omega arith))

module _ {E : Type 0} where
  pub slice-returns :
      (lo hi : ℕ) (xs : List ℕ)
      → lo ≤ hi
      → hi ≤ length xs
      → IsBytes xs
      → (ys : List ℕ) × (slice {E = E} lo hi xs ≡ ok ys) × (length ys ≡ hi - lo) × IsBytes ys
  unfolding slice
  slice-returns lo hi xs h l b =
      let first : ltb hi lo ≡ false = ground arith in
      let second : ltb (length xs) hi ≡ false = ground arith in
      let ys = take (hi - lo) (drop lo xs) in
      (
        ys,
        rw (first, second) refl,
        length-take (hi - lo) (drop lo xs) (omega (arith, length-drop lo xs)),
        All-take ByteSize (hi - lo) (drop lo xs) (All-drop ByteSize lo xs b),
      )

  pub slice_from-returns :
      (lo : ℕ) (xs : List ℕ)
      → lo ≤ length xs
      → IsBytes xs
      → (ys : List ℕ) × (slice_from {E = E} lo xs ≡ ok ys)
        × (length ys ≡ length xs - lo)
        × IsBytes ys
  unfolding slice_from
  slice_from-returns lo xs l b =
      let first : ltb (length xs) lo ≡ false = ground arith in
      (drop lo xs, rw first refl, length-drop lo xs, All-drop ByteSize lo xs b)

  pub index-returns :
      (i : ℕ) (xs : List ℕ)
      → i < length xs
      → IsBytes xs
      → (x : ℕ) × (index {E = E} i xs ≡ ok x) × (x < 256)
  unfolding index
  index-returns i xs l b =
      let (x, e) = get_elem?_of_lt xs i l in
      (x, rw (index, e) refl, All-get_elem? ByteSize xs i e b)
