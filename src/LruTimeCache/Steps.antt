-- ===== src/LruTimeCache/Steps.antt =====
-- Runs of the operations of `LruTimeCache` (src/lru_time_cache.rs), at instants that do not decrease.
use discv.Prelude.{
  refl, ℕ, Option, List, ◌≤◌, suc, some, Option-cases, ◌≡◌, none, [], ◌∷◌, ◌+◌, length, arith, ap,
  ◌∙◌, inl, inr, subst, sym, Bool-cases, ltb,
}
use discv.Prelude.Eq.{Eq}
use discv.LruTimeCache.{
  LinkedHashMap, Timed, find, write, LruTimeCache, remove_expired_values, without, insert_timed,
  get_timed, len, remove_timed, new_lru,
}
use discv.LruTimeCache.Entries.{Distinct, without-Apart, length-without, length-last, write-last}
use discv.LruTimeCache.Valid.{
  IsCache, IsKept, put_last-IsKept, behind_first-IsKept, without-IsKept, drop_expired-IsKept,
  touched, touched-IsKept, entries-remove_expired, entries-to_back_set,
}

-- `update` is `get_mut` with a write to the value that it gives.
pub data CacheOp (K V : Type 0) : Type 0 where
  insert_op : K → V → CacheOp K V
  get_op remove_op : K → CacheOp K V
  len_op : CacheOp K V
  update_op : K → (V → V) → CacheOp K V

module _ {K V : Type 0} ⦃e : Eq K⦄ ⦃lhm : LinkedHashMap K (Timed V)⦄ where
  -- The cache after `get_mut`, when the value that it gives is changed by `f`.
  abbrev pub changed :
      (V → V) → LruTimeCache K V × Option (V × (V → LruTimeCache K V)) → LruTimeCache K V
  changed f (c, none) = c
  changed f (c, some (v, set)) = set (f v)

  unfoldable pub step : (now : ℕ) → CacheOp K V → LruTimeCache K V → LruTimeCache K V
  unfolding insert_timed get_timed len remove_timed
  step now (insert_op k v) c = insert_timed now k v c
  step now (get_op k) c = (get_timed now k c).0
  step now (remove_op k) c = (remove_timed k c).0
  step now len_op c = (len now c).0
  step now (update_op k f) c = changed f (get_timed now k c)

  -- A run, with the time that passes before each operation.
  unfoldable pub run : ℕ → List (ℕ × CacheOp K V) → LruTimeCache K V → ℕ × LruTimeCache K V
  unfolding step
  run now [] c = (now, c)
  run now ((d, op) ∷ ops) c = run (now + d) ops (step (now + d) op c)

  abbrev pub entries : LruTimeCache K V → List (K × Timed V)
  entries c = lhm.entries c.entry_map

  insert_timed-IsCache :
      (last now : ℕ) (k : K) (v : V) (c : LruTimeCache K V)
      → last ≤ now
      → IsCache last c
      → IsCache now (insert_timed now k v c)
  unfolding insert_timed
  insert_timed-IsCache last now k v c le h =
      let m = lhm.insert k (v, now) c.entry_map in
      let p = lhm.entries-insert k (v, now) c.entry_map in
      let room : (cap : ℕ)
          → suc (length (without k (entries c))) ≤ cap
          → IsKept cap now (lhm.entries m) =
        λ cap r.
          subst (IsKept cap now) (sym p)
            (put_last-IsKept cap last now k v (entries c) le h.distinct h.ascending r) in
      let n : length (lhm.entries m) ≡ suc (length (without k (entries c))) =
        ap length p ∙ length-last (without k (entries c)) (k, (v, now)) in
      elim (Bool-cases (ltb c.capacity (length (lhm.entries m)))) [
        | inl g ↦ rw g (
            subst (IsKept c.capacity now) (sym (lhm.entries-pop_front m)) (
              behind_first-IsKept c.capacity now (lhm.entries m)
                (room (suc c.capacity) (omega (arith, length-without k (entries c), h.bounded)))))
        | inr g ↦ rw g (room c.capacity (ground (arith, n)))
      ]

  pub remove_expired-IsCache :
      (last now : ℕ) (c : LruTimeCache K V)
      → last ≤ now
      → IsCache last c
      → IsCache now (remove_expired_values now c)
  unfolding remove_expired_values
  remove_expired-IsCache last now c le h =
      subst (IsKept c.capacity now) (sym (entries-remove_expired now c h.distinct))
        (drop_expired-IsKept c.capacity last c.ttl now (entries c) le h)

  -- The entries after `get_mut` and the change of the value.
  pub entries-changed :
      (now : ℕ) (k : K) (f : V → V) (c : LruTimeCache K V)
      → Distinct (entries (remove_expired_values now c))
      → entries (changed f (get_timed now k c))
        ≡ touched k
            (find k (entries (remove_expired_values now c)))
            f
            now
            (entries (remove_expired_values now c))
  unfolding get_timed
  entries-changed now k f c d =
      let m = (remove_expired_values now c).entry_map in
      let g = lhm.get-entries k m in
      elim (Option-cases (find k (lhm.entries m))) [
        | inl q ↦ rw (get_timed, g ∙ q, q) refl
        | inr ((v, time), q) ↦
            let b = entries-to_back_set k (v, now) m d q in
            rw (get_timed, g ∙ q, q)
              (lhm.entries-set k (f v, now) (lhm.to_back k (lhm.set k (v, now) m))
                ∙ ap (write k (f v, now)) b
                ∙ write-last k (v, now) (f v, now) (without k (lhm.entries m))
                    (without-Apart k (lhm.entries m)))
      ]

  pub entries-get :
      (now : ℕ) (k : K) (c : LruTimeCache K V)
      → Distinct (entries (remove_expired_values now c))
      → entries (get_timed now k c).0
        ≡ touched k
            (find k (entries (remove_expired_values now c)))
            (λ v. v)
            now
            (entries (remove_expired_values now c))
  unfolding get_timed
  entries-get now k c d =
      let m = (remove_expired_values now c).entry_map in
      let g = lhm.get-entries k m in
      elim (Option-cases (find k (lhm.entries m))) [
        | inl q ↦ rw (get_timed, g ∙ q, q) refl
        | inr ((v, time), q) ↦ rw (get_timed, g ∙ q, q) (entries-to_back_set k (v, now) m d q)
      ]

  -- The limits of a cache do not change.
  abbrev pub SameLimits : LruTimeCache K V → LruTimeCache K V → Type 0
  SameLimits c d = (d.capacity ≡ c.capacity) × (d.ttl ≡ c.ttl)

  pub changed-SameLimits :
      (now : ℕ) (k : K) (f : V → V) (c : LruTimeCache K V)
      → SameLimits c (changed f (get_timed now k c))
  unfolding get_timed remove_expired_values
  changed-SameLimits now k f c =
      elim (Option-cases (lhm.get k (remove_expired_values now c).entry_map)) [
        | inl q ↦ rw (get_timed, q) (refl, refl)
        | inr ((v, time), q) ↦ rw (get_timed, q) (refl, refl)
      ]

  pub get-SameLimits : (now : ℕ) (k : K) (c : LruTimeCache K V) → SameLimits c (get_timed now k c).0
  unfolding get_timed remove_expired_values
  get-SameLimits now k c = elim (Option-cases (lhm.get k (remove_expired_values now c).entry_map)) [
    | inl q ↦ rw (get_timed, q) (refl, refl)
    | inr ((v, time), q) ↦ rw (get_timed, q) (refl, refl)
  ]

  touched-IsCache :
      (last now : ℕ) (k : K) (f : V → V) (c d : LruTimeCache K V)
      → last ≤ now
      → IsCache last c
      → SameLimits c d
      → entries d
        ≡ touched k
            (find k (entries (remove_expired_values now c)))
            f
            now
            (entries (remove_expired_values now c))
      → IsCache now d
  unfolding remove_expired_values
  touched-IsCache last now k f c d le h s p =
      subst (λ cap. IsKept cap now (entries d)) (sym s.0)
        (subst (IsKept c.capacity now) (sym p) (
          touched-IsKept c.capacity now k f (entries (remove_expired_values now c))
            (remove_expired-IsCache last now c le h)))

  pub step-IsCache :
      (last now : ℕ) (op : CacheOp K V) (c : LruTimeCache K V)
      → last ≤ now
      → IsCache last c
      → IsCache now (step now op c)
  unfolding step len remove_timed
  step-IsCache last now (insert_op k v) c le h = insert_timed-IsCache last now k v c le h
  step-IsCache last now (get_op k) c le h =
      let g = remove_expired-IsCache last now c le h in
      touched-IsCache last now k (λ v. v) c (get_timed now k c).0 le h (get-SameLimits now k c)
        (entries-get now k c g.distinct)
  step-IsCache last now (remove_op k) c le h =
      subst (IsKept c.capacity now) (sym (lhm.entries-remove k c.entry_map))
        (without-IsKept c.capacity last now k (entries c) le h)
  step-IsCache last now len_op c le h = remove_expired-IsCache last now c le h
  step-IsCache last now (update_op k f) c le h =
      let g = remove_expired-IsCache last now c le h in
      touched-IsCache last now k f c (changed f (get_timed now k c)) le h
        (changed-SameLimits now k f c) (entries-changed now k f c g.distinct)

  pub new_lru-IsCache :
      (ttl now : ℕ) (capacity : Option ℕ) → IsCache {K = K} {V = V} now (new_lru ttl capacity)
  unfolding new_lru
  new_lru-IsCache ttl now capacity =
      subst (IsKept (new_lru {K = K} {V = V} ttl capacity).capacity now) (sym lhm.entries-new)
        (record { distinct = tt; ascending = omega arith; bounded = omega arith })

  -- Any run of operations, at instants that do not decrease, leaves a cache in order that was so:
  -- each key once, the entries in the order of their last use, and no more of them than the
  -- capacity.
  pub run-IsCache :
      (now : ℕ) (ops : List (ℕ × CacheOp K V)) (c : LruTimeCache K V)
      → IsCache now c
      → IsCache (run now ops c).0 (run now ops c).1
  unfolding run
  run-IsCache now [] c h = h
  run-IsCache now ((d, op) ∷ ops) c h =
      run-IsCache (now + d) ops (step (now + d) op c)
        (step-IsCache now (now + d) op c (omega arith) h)
