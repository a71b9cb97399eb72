-- ===== src/LruTimeCache/Valid.antt =====
-- `LruTimeCache` of src/lru_time_cache.rs: what its operations leave in the map, and what they find.
use discv.Prelude.{
  refl, ℕ, Option, List, ◌≤◌, suc, some, Option-cases, ◌≡◌, none, [], ◌∷◌, ◌++◌, length, arith, ap,
  ◌∙◌, inl, inr,
}
use discv.Prelude.Eq.{Eq}
use discv.LruTimeCache.{
  LinkedHashMap, Timed, find, LruTimeCache, remove_expired_values, move_last, without, behind_first,
}
use discv.LruTimeCache.Entries.{
  Distinct, without-Distinct, length-without, length-without_found, Distinct-last, without-Apart,
  length-last, find-write, without-write,
}
use discv.LruTimeCache.Expiry.{
  Ascending, drop_expired, Distinct-drop_expired, Ascending-weaken, Ascending-drop_expired,
  length-drop_expired, Ascending-without, Ascending-last, entries-remove_all,
}

module _ {K V : Type 0} ⦃e : Eq K⦄ where
  -- Entries of a cache that was used last at the instant `last`.
  pub record IsKept (capacity last : ℕ) (es : List (K × Timed V)) : Type 0 where
    pub distinct : Distinct es
    pub ascending : Ascending 0 es last
    pub bounded : length es ≤ capacity

  pub drop_expired-IsKept :
      (cap last ttl now : ℕ) (es : List (K × Timed V))
      → last ≤ now
      → IsKept cap last es
      → IsKept cap now (drop_expired ttl now es)
  drop_expired-IsKept cap last ttl now es le h = record {
    distinct = Distinct-drop_expired ttl now es h.distinct;
    ascending =
        Ascending-weaken 0 0 last now (drop_expired ttl now es) (omega arith) le
          (Ascending-drop_expired ttl now 0 last es h.ascending);
    bounded = omega (arith, length-drop_expired ttl now es, h.bounded);
  }

  pub without-IsKept :
      (cap last now : ℕ) (k : K) (es : List (K × Timed V))
      → last ≤ now
      → IsKept cap last es
      → IsKept cap now (without k es)
  without-IsKept cap last now k es le h = record {
    distinct = without-Distinct k es h.distinct;
    ascending =
        Ascending-weaken 0 0 last now (without k es) (omega arith) le
          (Ascending-without 0 last k es h.ascending);
    bounded = omega (arith, length-without k es, h.bounded);
  }

  -- A pair put last, where there is room for it.
  pub put_last-IsKept :
      (cap last now : ℕ) (k : K) (v : V) (es : List (K × Timed V))
      → last ≤ now
      → Distinct es
      → Ascending 0 es last
      → suc (length (without k es)) ≤ cap
      → IsKept cap now (without k es ++ (k, (v, now)) ∷ [])
  put_last-IsKept cap last now k v es le d a b = record {
    distinct =
        Distinct-last (without k es) k (v, now) (without-Apart k es) (without-Distinct k es d);
    ascending = Ascending-last 0 last now (without k es) k v (Ascending-without 0 last k es a) le;
    bounded = omega (arith, b, length-last (without k es) (k, (v, now)));
  }

  pub behind_first-IsKept :
      (cap last : ℕ) (es : List (K × Timed V))
      → IsKept (suc cap) last es
      → IsKept cap last (behind_first es)
  behind_first-IsKept cap last [] h = record {
    distinct = tt;
    ascending = h.ascending;
    bounded = omega arith;
  }
  behind_first-IsKept cap last ((k, (v, time)) ∷ es) h = record {
    distinct = h.distinct.1;
    ascending = Ascending-weaken 0 time last last es (omega arith) (omega arith) h.ascending.1;
    bounded = omega (arith, h.bounded);
  }

  -- The entries after a look at a key: its pair is written and moved to the end.
  abbrev pub touched : K → Option (Timed V) → (V → V) → ℕ → List (K × Timed V) → List (K × Timed V)
  touched k none f now es = es
  touched k (some (v, time)) f now es = without k es ++ (k, (f v, now)) ∷ []

  pub touched-IsKept :
      (cap last : ℕ) (k : K) (f : V → V) (es : List (K × Timed V))
      → IsKept cap last es
      → IsKept cap last (touched k (find k es) f last es)
  touched-IsKept cap last k f es h = elim (Option-cases (find k es)) [
    | inl g ↦ rw g h
    | inr ((v, time), g) ↦ rw g (
        put_last-IsKept cap last last k (f v) es (omega arith) h.distinct h.ascending
          (omega (arith, length-without_found k es g, h.bounded)))
  ]

module _ {K V : Type 0} ⦃e : Eq K⦄ ⦃lhm : LinkedHashMap K (Timed V)⦄ where
  abbrev pub IsCache : ℕ → LruTimeCache K V → Type 0
  IsCache last c = IsKept c.capacity last (lhm.entries c.entry_map)

  pub entries-remove_expired :
      (now : ℕ) (c : LruTimeCache K V)
      → Distinct (lhm.entries c.entry_map)
      → lhm.entries (remove_expired_values now c).entry_map
        ≡ drop_expired c.ttl now (lhm.entries c.entry_map)
  unfolding remove_expired_values
  entries-remove_expired now c h =
      entries-remove_all lhm c.ttl now (lhm.entries c.entry_map) c.entry_map refl h

  -- `get_mut().1 = now` and `to_back`
  pub entries-to_back_set :
      (k : K) (w : Timed V) (m : lhm.Map) {u : Timed V}
      → Distinct (lhm.entries m)
      → find k (lhm.entries m) ≡ some u
      → lhm.entries (lhm.to_back k (lhm.set k w m)) ≡ without k (lhm.entries m) ++ (k, w) ∷ []
  unfolding move_last
  entries-to_back_set k w m d h =
      lhm.entries-to_back k (lhm.set k w m)
      ∙ ap (move_last k) (lhm.entries-set k w m)
      ∙ (rw (move_last, find-write k w (lhm.entries m) h, without-write k w (lhm.entries m) d) refl)
