-- ===== src/LruTimeCache/Tests.antt =====
-- The theorems on `LruTimeCache` of src/lru_time_cache.rs, applied to a cache of two entries.
use discv.Prelude.{refl, ℕ, List, [], ◌∷◌, ◌++◌, ◌≡◌, some, none, arith}
use discv.Prelude.Eq.{Eq, nat_Eq}
use discv.LruTimeCache.{
  LinkedHashMap, Timed, LruTimeCache, find, without, write, move_last, behind_first, new_lru, peek,
}
use discv.LruTimeCache.Valid.{IsCache}
use discv.LruTimeCache.Steps.{
  CacheOp, insert_op, get_op, len_op, remove_op, update_op, run, run-IsCache, new_lru-IsCache,
}
use discv.LruTimeCache.Finds.{Gets, get_timed-Gets}

instance abbrev nat : Eq ℕ
nat = nat_Eq

instance abbrev pairs : LinkedHashMap ℕ (Timed ℕ)
pairs = record {
  Map = List (ℕ × Timed ℕ);
  new = [];
  entries = λ m. m;
  get = find;
  insert = λ k w m. without k m ++ (k, w) ∷ [];
  pop_front = behind_first;
  remove = without;
  set = write;
  to_back = move_last;
  entries-new = refl;
  get-entries = λ k m. refl;
  entries-insert = λ k w m. refl;
  entries-pop_front = λ m. refl;
  entries-remove = λ k m. refl;
  entries-set = λ k w m. refl;
  entries-to_back = λ k m. refl;
}

abbrev empty : LruTimeCache ℕ ℕ
empty = new_lru 10 (some 2)

-- Three insertions, of which the second is looked up in between, in a cache for two.
abbrev uses : List (ℕ × CacheOp ℕ ℕ)
uses =
    (0, insert_op 1 10)
    ∷ (1, insert_op 2 20)
    ∷ (1, get_op 1)
    ∷ (1, insert_op 3 30)
    ∷ (0, len_op)
    ∷ (0, update_op 3 (λ v. 31))
    ∷ (0, remove_op 7)
    ∷ []

run_result :
    (run 0 uses empty).1
    ≡ record { entry_map = (1, (10, 2)) ∷ (3, (31, 3)) ∷ []; ttl = 10; capacity = 2 }
unfolding run new_lru without find move_last write
run_result = refl

run-IsCache_example : IsCache (run 0 uses empty).0 (run 0 uses empty).1
run-IsCache_example = run-IsCache 0 uses empty (new_lru-IsCache 10 0 (some 2))

abbrev two : LruTimeCache ℕ ℕ
two = (run 0 uses empty).1

get_timed-Gets_example : Gets (run 0 uses empty).0 1 two
get_timed-Gets_example =
    get_timed-Gets (run 0 uses empty).0 (run 0 uses empty).0 1 two (omega arith)
      (run-IsCache 0 uses empty (new_lru-IsCache 10 0 (some 2)))

-- At the instant 13 the first entry has expired.
peeks : (peek 12 1 two ≡ some 10) × (peek 13 1 two ≡ none) × (peek 13 3 two ≡ some 31)
unfolding run new_lru peek without find move_last write
peeks = (refl, refl, refl)
