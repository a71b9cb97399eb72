-- ===== src/LruTimeCache/Entries.antt =====
-- The lists of pairs that stand for a `LinkedHashMap` (src/lru_time_cache.rs): what is found after a
-- pair is taken out, written or moved.
use discv.Prelude.{
  refl, some, none, List, [], ◌∷◌, ◌++◌, ◌≡◌, ◌≤◌, if◌then◌else◌, length, true, false, Bool-cases,
  inl, inr, arith, ap, sym, ◌∙◌, suc, All, subst,
}
use discv.Prelude.Eq.{Eq}
use discv.LruTimeCache.{find, without, write}

module _ {K : Type 0} ⦃e : Eq K⦄ where
  pub eq_refl : (k : K) → e.eq k k ≡ true
  eq_refl k = (e.eq_iff k k).1 refl

  pub eq_comm : (k j : K) → e.eq k j ≡ e.eq j k
  eq_comm k j = elim (Bool-cases (e.eq k j)) [
    | inl h ↦ let p = (e.eq_iff k j).0 h in h ∙ sym ((e.eq_iff j k).1 (sym p))
    | inr h ↦ elim (Bool-cases (e.eq j k)) [
      | inl g ↦ let q : e.eq k j ≡ true = (e.eq_iff k j).1 (sym ((e.eq_iff j k).0 g)) in cc
      | inr g ↦ h ∙ sym g
    ]
  ]

module _ {K W : Type 0} ⦃e : Eq K⦄ where
  abbrev pub Apart : K → K × W → Type 0
  Apart k x = e.eq k x.0 ≡ false

  abbrev pub Distinct : List (K × W) → Type 0
  Distinct [] = Unit {0}
  Distinct (x ∷ es) = All (Apart x.0) es × Distinct es

  pub find-none : (k : K) (es : List (K × W)) → All (Apart k) es → find k es ≡ none
  unfolding find
  find-none k [] h = refl
  find-none k ((x, w) ∷ es) h = rw (h.0) (find-none k es h.1)

  pub without_same : (k : K) (es : List (K × W)) → All (Apart k) es → without k es ≡ es
  unfolding without
  without_same k [] h = refl
  without_same k ((x, w) ∷ es) h = rw (h.0) (ap (◌∷◌ (x, w)) (without_same k es h.1))

  pub without-Apart : (k : K) (es : List (K × W)) → All (Apart k) (without k es)
  unfolding without
  without-Apart k [] = tt
  without-Apart k ((x, w) ∷ es) = elim (Bool-cases (e.eq k x)) [
    | inl h ↦ rw h (without-Apart k es)
    | inr h ↦ rw h (h, without-Apart k es)
  ]

  pub All-without :
      (P : K × W → Type 0) (k : K) (es : List (K × W)) → All P es → All P (without k es)
  unfolding without
  All-without P k [] hs = tt
  All-without P k ((x, w) ∷ es) hs = elim (Bool-cases (e.eq k x)) [
    | inl h ↦ rw h (All-without P k es hs.1)
    | inr h ↦ rw h (hs.0, All-without P k es hs.1)
  ]

  pub without-Distinct : (k : K) (es : List (K × W)) → Distinct es → Distinct (without k es)
  unfolding without
  without-Distinct k [] hs = tt
  without-Distinct k ((x, w) ∷ es) hs = elim (Bool-cases (e.eq k x)) [
    | inl h ↦ rw h (without-Distinct k es hs.1)
    | inr h ↦ rw h (All-without (Apart x) k es hs.0, without-Distinct k es hs.1)
  ]

  pub All-last :
      (P : K × W → Type 0) (es : List (K × W)) (x : K × W) → All P es → P x → All P (es ++ x ∷ [])
  All-last P [] x h k = (k, tt)
  All-last P (y ∷ es) x h k = (h.0, All-last P es x h.1 k)

  pub Distinct-last :
      (es : List (K × W)) (k : K) (w : W)
      → All (Apart k) es
      → Distinct es
      → Distinct (es ++ (k, w) ∷ [])
  Distinct-last [] k w h hs = (tt, tt)
  Distinct-last ((x, v) ∷ es) k w h hs =
      (All-last (Apart x) es (k, w) hs.0 (eq_comm x k ∙ h.0), Distinct-last es k w h.1 hs.1)

  pub find-without :
      (k x : K) (es : List (K × W)) → e.eq x k ≡ false → find x (without k es) ≡ find x es
  unfolding find without
  find-without k x [] h = refl
  find-without k x ((y, w) ∷ es) h = elim (Bool-cases (e.eq k y)) [
    | inl g ↦
        let q : e.eq x y ≡ false = subst (λ z. e.eq x z ≡ false) ((e.eq_iff k y).0 g) h in
        rw (g, q) (find-without k x es h)
    | inr g ↦ rw g (ap (λ r. if e.eq x y then some w else r) (find-without k x es h))
  ]

  pub find-last :
      (x : K) (es : List (K × W)) (k : K) (w : W)
      → All (Apart k) es
      → find x (es ++ (k, w) ∷ []) ≡ (if e.eq x k then some w else find x es)
  unfolding find
  find-last x [] k w h = refl
  find-last x ((y, v) ∷ es) k w h = elim (Bool-cases (e.eq x y)) [
    | inl g ↦
        let q : e.eq x k ≡ false =
          eq_comm x k ∙ subst (λ z. e.eq k z ≡ false) (sym ((e.eq_iff x y).0 g)) h.0 in
        rw (g, q) refl
    | inr g ↦ rw g (find-last x es k w h.1)
  ]

  -- The pair of a key taken out and put last, with another value.
  pub find-put_last :
      (x k : K) (w : W) (es : List (K × W))
      → find x (without k es ++ (k, w) ∷ []) ≡ (if e.eq x k then some w else find x es)
  find-put_last x k w es = elim (Bool-cases (e.eq x k)) [
    | inl h ↦ find-last x (without k es) k w (without-Apart k es) ∙ (rw h refl)
    | inr h ↦ find-last x (without k es) k w (without-Apart k es) ∙ (rw h (find-without k x es h))
  ]

  pub without-write :
      (k : K) (w : W) (es : List (K × W)) → Distinct es → without k (write k w es) ≡ without k es
  unfolding without write
  without-write k w [] hs = refl
  without-write k w ((x, v) ∷ es) hs = elim (Bool-cases (e.eq k x)) [
    | inl h ↦ rw (h, h) refl
    | inr h ↦ rw (h, h) (ap (◌∷◌ (x, v)) (without-write k w es hs.1))
  ]

  pub find-write :
      (k : K) (w : W) (es : List (K × W)) {v : W}
      → find k es ≡ some v
      → find k (write k w es) ≡ some w
  unfolding find write
  find-write k w [] h = cc
  find-write k w ((x, u) ∷ es) {v} h = elim (Bool-cases (e.eq k x)) [
    | inl g ↦ rw (g, g) refl
    | inr g ↦ let q : find k es ≡ some v = rw g at h in rw (g, g) (find-write k w es q)
  ]

  pub length-without : (k : K) (es : List (K × W)) → length (without k es) ≤ length es
  unfolding without
  length-without k [] = omega arith
  length-without k ((x, w) ∷ es) = elim (Bool-cases (e.eq k x)) [
    | inl h ↦ rw h (omega (arith, length-without k es))
    | inr h ↦ rw h (omega (arith, length-without k es))
  ]

  pub length-without_found :
      (k : K) (es : List (K × W)) {v : W}
      → find k es ≡ some v
      → suc (length (without k es)) ≤ length es
  unfolding find without
  length-without_found k [] h = cc
  length-without_found k ((x, w) ∷ es) {v} h = elim (Bool-cases (e.eq k x)) [
    | inl g ↦ rw g (omega (arith, length-without k es))
    | inr g ↦
        let q : find k es ≡ some v = rw g at h in rw g (omega (arith, length-without_found k es q))
  ]

  pub without_head :
      (k : K) (w : W) (es : List (K × W)) → All (Apart k) es → without k ((k, w) ∷ es) ≡ es
  unfolding without
  without_head k w es h = rw (eq_refl k) (without_same k es h)

  pub write-last :
      (k : K) (v w : W) (es : List (K × W))
      → All (Apart k) es
      → write k w (es ++ (k, v) ∷ []) ≡ es ++ (k, w) ∷ []
  unfolding write
  write-last k v w [] h = rw (eq_refl k) refl
  write-last k v w ((x, u) ∷ es) h = rw (h.0) (ap (◌∷◌ (x, u)) (write-last k v w es h.1))

  pub length-last : (es : List (K × W)) (x : K × W) → length (es ++ x ∷ []) ≡ suc (length es)
  length-last [] x = refl
  length-last (y ∷ es) x = ap suc (length-last es x)
