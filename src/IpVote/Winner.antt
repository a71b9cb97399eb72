-- ===== src/IpVote/Winner.antt =====
-- The function `majority` of src/service/ip_vote.rs on a map of counts, and how the map is counted.
use discv.Prelude.{
  refl, ℕ, Option, some, none, List, [], ◌∷◌, ◌+◌, ◌≡◌, ◌≤◌, ◌<◌, if◌then◌else◌, leb, Bool-cases,
  inl, inr, arith, All, true, false, ◌∙◌, sym, subst, zero, suc,
}
use discv.Prelude.Eq.{Eq}
use discv.LruTimeCache.Entries.{Apart, Distinct, eq_refl, eq_comm}
use discv.IpVote.{max_count, reached, majority_of, count_up}

-- Who wins by a number of votes for each: one with the most, if these reach the threshold.
abbrev pub Wins : {K : Type 0} → (threshold : ℕ) → (K → ℕ) → Option K → Type 0
Wins {K} threshold votes none = (k : K) → votes k < threshold
Wins {K} threshold votes (some w) = (threshold ≤ votes w) × ((k : K) → votes k ≤ votes w)

module _ {K : Type 0} where
  All-max_count :
      (P : K × ℕ → Type 0) (x : K × ℕ) (xs : List (K × ℕ)) → P x → All P xs → P (max_count x xs)
  unfolding max_count
  All-max_count P x [] h hs = h
  All-max_count P x (y ∷ ys) h hs = elim (Bool-cases (leb x.1 y.1)) [
    | inl g ↦ rw g (All-max_count P y ys hs.0 hs.1)
    | inr g ↦ rw g (All-max_count P x ys h hs.1)
  ]

  max_count-greatest :
      (x : K × ℕ) (xs : List (K × ℕ))
      → (x.1 ≤ (max_count x xs).1) × All (λ y. y.1 ≤ (max_count x xs).1) xs
  unfolding max_count
  max_count-greatest x [] = (omega arith, tt)
  max_count-greatest x (y ∷ ys) = elim (Bool-cases (leb x.1 y.1)) [
    | inl g ↦
        let h = max_count-greatest y ys in
        let le : x.1 ≤ y.1 = ground arith in
        let q : max_count x (y ∷ ys) ≡ max_count y ys = rw g refl in
        subst (λ r. (x.1 ≤ r.1) × All (λ z. z.1 ≤ r.1) (y ∷ ys)) (sym q) (omega (arith, le, h.0), h)
    | inr g ↦
        let h = max_count-greatest x ys in
        let le : y.1 ≤ x.1 = ground arith in
        let q : max_count x (y ∷ ys) ≡ max_count x ys = rw g refl in
        subst (λ r. (x.1 ≤ r.1) × All (λ z. z.1 ≤ r.1) (y ∷ ys)) (sym q)
          (h.0, (omega (arith, le, h.0), h.1))
  ]

  All-reached : (P : K × ℕ → Type 0) (t : ℕ) (m : List (K × ℕ)) → All P m → All P (reached t m)
  unfolding reached
  All-reached P t [] h = tt
  All-reached P t (x ∷ xs) h = elim (Bool-cases (leb t x.1)) [
    | inl g ↦ rw g (h.0, All-reached P t xs h.1)
    | inr g ↦ rw g (All-reached P t xs h.1)
  ]

  reached-enough : (t : ℕ) (m : List (K × ℕ)) → All (λ x. t ≤ x.1) (reached t m)
  unfolding reached
  reached-enough t [] = tt
  reached-enough t (x ∷ xs) = elim (Bool-cases (leb t x.1)) [
    | inl g ↦ rw g (ground arith, reached-enough t xs)
    | inr g ↦ rw g (reached-enough t xs)
  ]

  -- What bounds those that reach the threshold bounds all.
  reached-bound :
      (t n : ℕ) (m : List (K × ℕ))
      → t ≤ suc n
      → All (λ x. x.1 ≤ n) (reached t m)
      → All (λ x. x.1 ≤ n) m
  unfolding reached
  reached-bound t n [] le h = tt
  reached-bound t n (x ∷ xs) le h = elim (Bool-cases (leb t x.1)) [
    | inl g ↦
        let k : All (λ y. y.1 ≤ n) (x ∷ reached t xs) = rw g at h in
        (k.0, reached-bound t n xs le k.1)
    | inr g ↦
        let k : All (λ y. y.1 ≤ n) (reached t xs) = rw g at h in
        (ground arith, reached-bound t n xs le k)
  ]

module _ {K : Type 0} ⦃e : Eq K⦄ where
  -- The count of a key.
  unfoldable pub count_of : K → List (K × ℕ) → ℕ
  count_of k [] = 0
  count_of k ((x, n) ∷ m) = if e.eq k x then n else count_of k m

  count_of-bound : (k : K) (n : ℕ) (m : List (K × ℕ)) → All (λ x. x.1 ≤ n) m → count_of k m ≤ n
  unfolding count_of
  count_of-bound k n [] h = omega arith
  count_of-bound k n ((x, c) ∷ m) h = elim (Bool-cases (e.eq k x)) [
    | inl g ↦ rw g (h.0)
    | inr g ↦ rw g (count_of-bound k n m h.1)
  ]

  pub count_of-count_up :
      (j k : K) (m : List (K × ℕ))
      → count_of j (count_up k m) ≡ (if e.eq j k then 1 else 0) + count_of j m
  unfolding count_of count_up
  count_of-count_up j k [] = elim (Bool-cases (e.eq j k)) [ inl g ↦ rw g refl | inr g ↦ rw g refl ]
  count_of-count_up j k ((x, n) ∷ m) = elim (Bool-cases (e.eq k x)) [
    | inl g ↦
        let p : k ≡ x = (e.eq_iff k x).0 g in
        elim (Bool-cases (e.eq j x)) [
          | inl h ↦
              let q : e.eq j k ≡ true = subst (λ z. e.eq j z ≡ true) (sym p) h in
              rw (g, h, q) (omega arith)
          | inr h ↦
              let q : e.eq j k ≡ false = subst (λ z. e.eq j z ≡ false) (sym p) h in
              rw (g, h, q) (omega arith)
        ]
    | inr g ↦ elim (Bool-cases (e.eq j x)) [
      | inl h ↦
          let q : e.eq j k ≡ false =
            subst (λ z. e.eq z k ≡ false) (sym ((e.eq_iff j x).0 h)) (eq_comm x k ∙ g) in
          rw (g, h, q) (omega arith)
      | inr h ↦ rw (g, h) (count_of-count_up j k m)
    ]
  ]

  Apart-count_up :
      (j k : K) (m : List (K × ℕ))
      → e.eq j k ≡ false
      → All (Apart j) m
      → All (Apart j) (count_up k m)
  unfolding count_up
  Apart-count_up j k [] h hs = (h, tt)
  Apart-count_up j k ((x, n) ∷ m) h hs = elim (Bool-cases (e.eq k x)) [
    | inl g ↦ rw g hs
    | inr g ↦ rw g (hs.0, Apart-count_up j k m h hs.1)
  ]

  pub count_up-Distinct : (k : K) (m : List (K × ℕ)) → Distinct m → Distinct (count_up k m)
  unfolding count_up
  count_up-Distinct k [] h = (tt, tt)
  count_up-Distinct k ((x, n) ∷ m) h = elim (Bool-cases (e.eq k x)) [
    | inl g ↦ rw g h
    | inr g ↦ rw g (Apart-count_up x k m (eq_comm x k ∙ g) h.0, count_up-Distinct k m h.1)
  ]

  -- In a list of distinct keys the counts behind a first entry are the same in the whole.
  own_behind :
      (y : K) (c : ℕ) (m xs : List (K × ℕ))
      → All (Apart y) xs
      → All (λ x. count_of x.0 m ≡ x.1) xs
      → All (λ x. count_of x.0 ((y, c) ∷ m) ≡ x.1) xs
  unfolding count_of
  own_behind y c m [] h g = tt
  own_behind y c m ((x, n) ∷ xs) h g =
      ((let q : e.eq x y ≡ false = eq_comm x y ∙ h.0 in rw q (g.0)), own_behind y c m xs h.1 g.1)

  own_counts : (m : List (K × ℕ)) → Distinct m → All (λ x. count_of x.0 m ≡ x.1) m
  unfolding count_of
  own_counts [] h = tt
  own_counts ((y, c) ∷ m) h = (rw (eq_refl y) refl, own_behind y c m m h.0 (own_counts m h.1))

  -- The winner among those that reach the threshold.
  reached-Wins :
      (t : ℕ) (m r : List (K × ℕ))
      → 1 ≤ t
      → Distinct m
      → reached t m ≡ r
      → Wins t (λ k. count_of k m) (elim r [ [] ↦ none | x ∷ xs ↦ some (max_count x xs).0 ])
  reached-Wins zero m [] le d h = λ k. omega (arith, le)
  reached-Wins (suc t) m [] le d h =
      let b = subst (All (λ x. x.1 ≤ t)) (sym h) tt in
      λ k. omega (arith, count_of-bound k t m (reached-bound (suc t) t m (omega arith) b))
  reached-Wins t m (x ∷ xs) le d h =
      let own =
        subst (All (λ z. count_of z.0 m ≡ z.1)) h
          (All-reached (λ z. count_of z.0 m ≡ z.1) t m (own_counts m d)) in
      let enough = subst (All (λ z. t ≤ z.1)) h (reached-enough t m) in
      let best = max_count x xs in
      let c : count_of best.0 m ≡ best.1 =
        All-max_count (λ z. count_of z.0 m ≡ z.1) x xs own.0 own.1 in
      let at_least : t ≤ best.1 = All-max_count (λ z. t ≤ z.1) x xs enough.0 enough.1 in
      let all =
        reached-bound t best.1 m (omega arith)
          (subst (All (λ z. z.1 ≤ best.1)) (sym h) (max_count-greatest x xs)) in
      (
        subst (λ n. t ≤ n) (sym c) at_least,
        λ k. subst (λ n. count_of k m ≤ n) (sym c) (count_of-bound k best.1 m all),
      )

  pub of_none :
      (k : K) (n : ℕ) (m : List (K × ℕ)) → count_of k m ≡ n + count_of k [] → count_of k m ≡ n
  unfolding count_of
  of_none k n m h = omega (arith, h)

  pub majority_of-Wins :
      (t : ℕ) (m : List (K × ℕ)) → 1 ≤ t → Distinct m → Wins t (λ k. count_of k m) (majority_of t m)
  unfolding majority_of
  majority_of-Wins t m h d = reached-Wins t m (reached t m) h d refl

  pub Wins-same :
      (t : ℕ) (f g : K → ℕ) (r : Option K) → ((k : K) → f k ≡ g k) → Wins t f r → Wins t g r
  Wins-same t f g none p h = λ k. subst (λ n. n < t) (p k) (h k)
  Wins-same t f g (some w) p h = (subst (λ n. t ≤ n) (p w) h.0, λ k. omega (arith, h.1 k, p k, p w))
