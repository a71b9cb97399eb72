-- ===== src/ArrayVec.antt =====
-- The crate `arrayvec`, as src/kbucket/bucket.rs uses it: an `ArrayVec<A, CAP>` is the list of its
-- elements, and `push`, `insert`, `remove` are operations that the repository does not implement.
-- The laws are the documented behaviour: what each call leaves, and `none` where it panics.
use discv.Prelude.{
  ℕ, ◌≡◌, refl, List, [], ◌∷◌, ◌++◌, Option, none, some, ltb, leb, ◌&&◌, if◌then◌else◌, length,
  get_elem?, insert_at, remove_at, ◌>>=◌,
}

pub record ArrayVec {ℓ} (cap : ℕ) (A : Type ℓ) : Type ℓ where
  pub push : List A → A → Option (List A)
  pub insert : List A → ℕ → A → Option (List A)
  pub remove : List A → ℕ → Option (A × List A)
  pub push_lem :
      (xs : List A) (x : A)
      → push xs x ≡ (if ltb (length xs) cap then some (xs ++ x ∷ []) else none)
  pub insert_lem :
      (xs : List A) (i : ℕ) (x : A)
      → insert xs i x
        ≡ (if ltb (length xs) cap && leb i (length xs) then some (insert_at xs i x) else none)
  pub remove_lem :
      (xs : List A) (i : ℕ) → remove xs i ≡ (get_elem? xs i >>= λ x. some (x, remove_at xs i))

-- The crate's behaviour as functions: the laws can be met.
abbrev pub list_vec {ℓ} : (cap : ℕ) (A : Type ℓ) → ArrayVec cap A
list_vec cap A = record {
  push = λ xs x. if ltb (length xs) cap then some (xs ++ x ∷ []) else none;
  insert =
      λ xs i x. if ltb (length xs) cap && leb i (length xs) then some (insert_at xs i x) else none;
  remove = λ xs i. get_elem? xs i >>= λ x. some (x, remove_at xs i);
  push_lem = λ xs x. refl;
  insert_lem = λ xs i x. refl;
  remove_lem = λ xs i. refl;
}
