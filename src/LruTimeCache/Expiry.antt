-- ===== src/LruTimeCache/Expiry.antt =====
-- `remove_expired_values` of src/lru_time_cache.rs: on entries in the order of their last use it
-- takes out those that have expired, and no other.
use discv.Prelude.Eq.{Eq}
use discv.LruTimeCache.{Timed, without, find, LinkedHashMap, remove_all, expired_keys}
use discv.Prelude.{
  refl, ℕ, List, Option, [], ◌∷◌, ◌++◌, ◌+◌, ◌≡◌, ◌≤◌, if◌then◌else◌, leb, leb→le, some, none, All,
  length, true, false, Bool-cases, inl, inr, arith, ap, sym, ◌∙◌, subst,
}
use discv.LruTimeCache.Entries.{Distinct, without_head, find-none}

module _ {V : Type 0} where
  -- The value that has not expired.
  abbrev pub live : (ttl now : ℕ) → Option (Timed V) → Option (Timed V)
  live ttl now none = none
  live ttl now (some (v, time)) = if leb now (time + ttl) then some (v, time) else none

  pub live-live :
      (ttl now later : ℕ) (o : Option (Timed V))
      → now ≤ later
      → live ttl later (live ttl now o) ≡ live ttl later o
  live-live ttl now later none h = refl
  live-live ttl now later (some (v, time)) h = elim (Bool-cases (leb now (time + ttl))) [
    | inl g ↦ rw g refl
    | inr g ↦ let q : leb later (time + ttl) ≡ false = ground (arith, h) in rw (g, q) refl
  ]

module _ {K V : Type 0} where
  -- The instants of the entries lie between two instants, in ascending order.
  abbrev pub Ascending : ℕ → List (K × Timed V) → ℕ → Type 0
  Ascending from [] to = from ≤ to
  Ascending from ((k, (v, time)) ∷ es) to = (from ≤ time) × Ascending time es to

  -- The list from the first entry that has not expired.
  unfoldable pub drop_expired : (ttl now : ℕ) → List (K × Timed V) → List (K × Timed V)
  drop_expired ttl now [] = []
  drop_expired ttl now ((k, (v, time)) ∷ es) =
      if leb now (time + ttl) then (k, (v, time)) ∷ es else drop_expired ttl now es

  pub Ascending-weaken :
      (a b c d : ℕ) (es : List (K × Timed V)) → a ≤ b → c ≤ d → Ascending b es c → Ascending a es d
  Ascending-weaken a b c d [] h k hs = omega arith
  Ascending-weaken a b c d ((x, (v, time)) ∷ es) h k hs =
      (omega (arith, hs.0), Ascending-weaken time time c d es (omega arith) k hs.1)

  pub le_of_Ascending : (a b : ℕ) (es : List (K × Timed V)) → Ascending a es b → a ≤ b
  le_of_Ascending a b [] h = h
  le_of_Ascending a b ((x, (v, time)) ∷ es) h = omega (arith, h.0, le_of_Ascending time b es h.1)

  pub Ascending-last :
      (a b c : ℕ) (es : List (K × Timed V)) (x : K) (v : V)
      → Ascending a es b
      → b ≤ c
      → Ascending a (es ++ (x, (v, c)) ∷ []) c
  Ascending-last a b c [] x v h k = (omega arith, omega arith)
  Ascending-last a b c ((y, (w, time)) ∷ es) x v h k = (h.0, Ascending-last time b c es x v h.1 k)

  pub Ascending-drop_expired :
      (ttl now a b : ℕ) (es : List (K × Timed V))
      → Ascending a es b
      → Ascending a (drop_expired ttl now es) b
  unfolding drop_expired
  Ascending-drop_expired ttl now a b [] h = h
  Ascending-drop_expired ttl now a b ((x, (v, time)) ∷ es) h =
      elim (Bool-cases (leb now (time + ttl))) [
        | inl g ↦ rw g h
        | inr g ↦ rw g (
            Ascending-drop_expired ttl now a b es
              (Ascending-weaken a time b b es h.0 (omega arith) h.1))
      ]

  pub All-drop_expired :
      (P : K × Timed V → Type 0) (ttl now : ℕ) (es : List (K × Timed V))
      → All P es
      → All P (drop_expired ttl now es)
  unfolding drop_expired
  All-drop_expired P ttl now [] h = tt
  All-drop_expired P ttl now ((x, (v, time)) ∷ es) h = elim (Bool-cases (leb now (time + ttl))) [
    | inl g ↦ rw g h
    | inr g ↦ rw g (All-drop_expired P ttl now es h.1)
  ]

  pub length-drop_expired :
      (ttl now : ℕ) (es : List (K × Timed V)) → length (drop_expired ttl now es) ≤ length es
  unfolding drop_expired
  length-drop_expired ttl now [] = omega arith
  length-drop_expired ttl now ((x, (v, time)) ∷ es) = elim (Bool-cases (leb now (time + ttl))) [
    | inl g ↦ rw g (omega arith)
    | inr g ↦ rw g (omega (arith, length-drop_expired ttl now es))
  ]

module _ {K V : Type 0} ⦃e : Eq K⦄ where
  pub Distinct-drop_expired :
      (ttl now : ℕ) (es : List (K × Timed V)) → Distinct es → Distinct (drop_expired ttl now es)
  unfolding drop_expired
  Distinct-drop_expired ttl now [] h = tt
  Distinct-drop_expired ttl now ((x, (v, time)) ∷ es) h = elim (Bool-cases (leb now (time + ttl))) [
    | inl g ↦ rw g h
    | inr g ↦ rw g (Distinct-drop_expired ttl now es h.1)
  ]

  pub Ascending-without :
      (a b : ℕ) (k : K) (es : List (K × Timed V)) → Ascending a es b → Ascending a (without k es) b
  unfolding without
  Ascending-without a b k [] h = h
  Ascending-without a b k ((x, (v, time)) ∷ es) h = elim (Bool-cases (e.eq k x)) [
    | inl g ↦
        rw g (Ascending-without a b k es (Ascending-weaken a time b b es h.0 (omega arith) h.1))
    | inr g ↦ rw g (h.0, Ascending-without time b k es h.1)
  ]

  -- Behind an entry that has not expired none has.
  live_behind :
      (ttl now a b : ℕ) (k : K) (es : List (K × Timed V))
      → Ascending a es b
      → now ≤ a + ttl
      → live ttl now (find k es) ≡ find k es
  unfolding find
  live_behind ttl now a b k [] h g = refl
  live_behind ttl now a b k ((x, (v, time)) ∷ es) h g = elim (Bool-cases (e.eq k x)) [
    | inl i ↦ let j : leb now (time + ttl) ≡ true = ground (arith, h.0) in rw (i, j) refl
    | inr i ↦ rw i (live_behind ttl now time b k es h.1 (omega (arith, h.0)))
  ]

  pub find-drop_expired :
      (ttl now a b : ℕ) (k : K) (es : List (K × Timed V))
      → Distinct es
      → Ascending a es b
      → find k (drop_expired ttl now es) ≡ live ttl now (find k es)
  unfolding find drop_expired
  find-drop_expired ttl now a b k [] h g = refl
  find-drop_expired ttl now a b k ((x, (v, time)) ∷ es) h g =
      elim (Bool-cases (leb now (time + ttl))) [
        | inl i ↦ elim (Bool-cases (e.eq k x)) [
          | inl j ↦ rw (i, j, i) refl
          | inr j ↦
              rw (i, j) (sym (live_behind ttl now time b k es g.1 (leb→le now (time + ttl) i)))
        ]
        | inr i ↦ elim (Bool-cases (e.eq k x)) [
          | inl j ↦
              let n : find k es ≡ none =
                subst (λ z. find z es ≡ none) (sym ((e.eq_iff k x).0 j)) (find-none x es h.0) in
              rw (i, j, i) (find-drop_expired ttl now time b k es h.1 g.1 ∙ ap (live ttl now) n)
          | inr j ↦ rw (i, j) (find-drop_expired ttl now time b k es h.1 g.1)
        ]
      ]

  module _ (lhm : LinkedHashMap K (Timed V)) where
    pub entries-remove_all :
        (ttl now : ℕ) (es : List (K × Timed V)) (m : lhm.Map)
        → lhm.entries m ≡ es
        → Distinct es
        → lhm.entries (remove_all lhm (expired_keys ttl now es) m) ≡ drop_expired ttl now es
    unfolding remove_all expired_keys drop_expired
    entries-remove_all ttl now [] m h d = h
    entries-remove_all ttl now ((x, (v, time)) ∷ es) m h d =
        elim (Bool-cases (leb now (time + ttl))) [
          | inl g ↦ rw g h
          | inr g ↦
              let q : lhm.entries (lhm.remove x m) ≡ es =
                lhm.entries-remove x m ∙ ap (without x) h ∙ without_head x (v, time) es d.0 in
              rw g (entries-remove_all ttl now es (lhm.remove x m) q d.1)
        ]
