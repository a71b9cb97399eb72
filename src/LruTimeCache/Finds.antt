-- ===== src/LruTimeCache/Finds.antt =====
-- What `LruTimeCache` (src/lru_time_cache.rs) finds: `peek` is the abstract view of a cache, and the
-- other operations are told by what they change in it.
use discv.Prelude.{
  refl, ℕ, Option, List, ◌≤◌, some, Option-cases, ◌≡◌, none, ◌+◌, ap, ◌∙◌, inl, inr, sym,
  Bool-cases, if◌then◌else◌, leb, subst,
}
use discv.Prelude.Eq.{Eq}
use discv.LruTimeCache.{
  LinkedHashMap, Timed, find, LruTimeCache, remove_expired_values, get_timed, peek,
}
use discv.LruTimeCache.Entries.{find-put_last}
use discv.LruTimeCache.Expiry.{live, live-live, find-drop_expired}
use discv.LruTimeCache.Valid.{IsCache, touched, entries-remove_expired}
use discv.LruTimeCache.Steps.{entries, entries-get, get-SameLimits, remove_expired-IsCache}

module _ {V : Type 0} where
  abbrev pub value : Option (Timed V) → Option V
  value none = none
  value (some (v, time)) = some v

  -- What is left of a value used at `now` at the instant `later`.
  abbrev pub lasts : (ttl now later : ℕ) → Option V → Option V
  lasts ttl now later none = none
  lasts ttl now later (some v) = if leb later (now + ttl) then some v else none

  live-some :
      (ttl now later : ℕ) (v : V)
      → value (live ttl later (some (v, now))) ≡ lasts ttl now later (some v)
  live-some ttl now later v = elim (Bool-cases (leb later (now + ttl))) [
    | inl h ↦ rw h refl
    | inr h ↦ rw h refl
  ]

module _ {K V : Type 0} ⦃e : Eq K⦄ ⦃lhm : LinkedHashMap K (Timed V)⦄ where
  -- The view of the entries.
  abbrev pub view : (ttl later : ℕ) → K → List (K × Timed V) → Option V
  view ttl later x es = value (live ttl later (find x es))

  pub peek_lem :
      (later : ℕ) (x : K) (c : LruTimeCache K V) → peek later x c ≡ view c.ttl later x (entries c)
  unfolding peek
  peek_lem later x c =
      let g = lhm.get-entries x c.entry_map in
      elim (Option-cases (find x (entries c))) [
        | inl q ↦ rw (peek, g ∙ q, q) refl
        | inr ((v, time), q) ↦ elim (Bool-cases (leb later (time + c.ttl))) [
          | inl h ↦ rw (peek, g ∙ q, q, h) refl
          | inr h ↦ rw (peek, g ∙ q, q, h) refl
        ]
      ]

  -- The entries of a key looked at, viewed later.
  view_touched :
      (ttl now later : ℕ) (k x : K) (es : List (K × Timed V))
      → view ttl later x (touched k (find k es) (λ v. v) now es)
        ≡ (if e.eq x k then lasts ttl now later (value (find k es)) else view ttl later x es)
  view_touched ttl now later k x es = elim (Option-cases (find k es)) [
    | inl q ↦ elim (Bool-cases (e.eq x k)) [
      | inl h ↦
          let p : find x es ≡ none = subst (λ z. find z es ≡ none) (sym ((e.eq_iff x k).0 h)) q in
          rw (q, h, p) refl
      | inr h ↦ rw (q, h) refl
    ]
    | inr ((v, time), q) ↦
        let p = find-put_last x k (v, now) es in
        elim (Bool-cases (e.eq x k)) [
          | inl h ↦ rw (q, p, h) (live-some ttl now later v)
          | inr h ↦ rw (q, p, h) refl
        ]
  ]

  -- What `get_mut` finds, and what it leaves.
  pub record Gets (now : ℕ) (k : K) (c : LruTimeCache K V) : Type 0 where
    pub found : (elim (get_timed now k c).1 [ none ↦ none | some (v, set) ↦ some v ]) ≡ peek now k c
    pub leaves :
        (x : K) (later : ℕ)
        → now ≤ later
        → peek later x (get_timed now k c).0
          ≡ (if e.eq x k then lasts c.ttl now later (peek now k c) else peek later x c)

  -- The entries that are left when the expired ones are taken out.
  find_left :
      (last now : ℕ) (x : K) (c : LruTimeCache K V)
      → IsCache last c
      → find x (entries (remove_expired_values now c)) ≡ live c.ttl now (find x (entries c))
  find_left last now x c h =
      ap (find x) (entries-remove_expired now c h.distinct)
      ∙ find-drop_expired c.ttl now 0 last x (entries c) h.distinct h.ascending

  get_timed-found :
      (last now : ℕ) (k : K) (c : LruTimeCache K V)
      → IsCache last c
      → (elim (get_timed now k c).1 [ none ↦ none | some (v, set) ↦ some v ]) ≡ peek now k c
  unfolding get_timed
  get_timed-found last now k c h =
      let p = find_left last now k c h in
      let g = lhm.get-entries k (remove_expired_values now c).entry_map in
      let s = peek_lem now k c ∙ ap value (sym p) in
      elim (Option-cases (find k (entries (remove_expired_values now c)))) [
        | inl q ↦ (rw (get_timed, g ∙ q) refl) ∙ sym (s ∙ ap value q)
        | inr ((v, time), q) ↦ (rw (get_timed, g ∙ q) refl) ∙ sym (s ∙ ap value q)
      ]

  get_timed-leaves :
      (last now later : ℕ) (k x : K) (c : LruTimeCache K V)
      → last ≤ now
      → now ≤ later
      → IsCache last c
      → peek later x (get_timed now k c).0
        ≡ (if e.eq x k then lasts c.ttl now later (peek now k c) else peek later x c)
  get_timed-leaves last now later k x c le h' h =
      let d = (get_timed now k c).0 in
      let es = entries (remove_expired_values now c) in
      let p : peek later x d ≡ view c.ttl later x (touched k (find k es) (λ v. v) now es) =
        peek_lem later x d
        ∙ ap (λ t. view t later x (entries d)) (get-SameLimits now k c).1
        ∙ ap (view c.ttl later x)
            (entries-get now k c (remove_expired-IsCache last now c le h).distinct) in
      let a : value (find k es) ≡ peek now k c =
        ap value (find_left last now k c h) ∙ sym (peek_lem now k c) in
      let b : view c.ttl later x es ≡ peek later x c =
        ap (λ o. value (live c.ttl later o)) (find_left last now x c h)
        ∙ ap value (live-live c.ttl now later (find x (entries c)) h')
        ∙ sym (peek_lem later x c) in
      p
      ∙ view_touched c.ttl now later k x es
      ∙ ap (λ o. if e.eq x k then lasts c.ttl now later o else view c.ttl later x es) a
      ∙ ap (λ o. if e.eq x k then lasts c.ttl now later (peek now k c) else o) b

  -- On a cache in order whose last use was not later, `get_mut` finds what `peek` does. After it,
  -- `peek` sees the key, if it was found, until its time from now has passed, and any other key as
  -- before.
  pub get_timed-Gets :
      (last now : ℕ) (k : K) (c : LruTimeCache K V) → last ≤ now → IsCache last c → Gets now k c
  get_timed-Gets last now k c le h = record {
    found = get_timed-found last now k c h;
    leaves = λ x later g. get_timed-leaves last now later k x c le g h;
  }
