-- ===== src/LruTimeCache.antt =====
-- src/lru_time_cache.rs: the cache that keeps the sessions, each for a time since its last use. The
-- `LinkedHashMap` of the crate `hashlink` is an interface.
pub mod Entries
pub mod Expiry
pub mod Valid
pub mod Steps
pub mod Finds
mod Tests
use discv.Prelude.{
  ℕ, Option, some, none, List, [], ◌∷◌, ◌++◌, ◌+◌, ◌≡◌, if◌then◌else◌, length, leb, ltb,
}
use discv.Prelude.Eq.{Eq}

-- Lists of pairs in which a key has its first pair.
module _ {K W : Type 0} ⦃e : Eq K⦄ where
  unfoldable pub find : K → List (K × W) → Option W
  find k [] = none
  find k ((x, w) ∷ es) = if e.eq k x then some w else find k es

  unfoldable pub without : K → List (K × W) → List (K × W)
  without k [] = []
  without k ((x, w) ∷ es) = if e.eq k x then without k es else (x, w) ∷ without k es

  unfoldable pub write : K → W → List (K × W) → List (K × W)
  write k v [] = []
  write k v ((x, w) ∷ es) = if e.eq k x then (x, v) ∷ es else (x, w) ∷ write k v es

  -- The list with the pair of a key moved to the end.
  unfoldable pub move_last : K → List (K × W) → List (K × W)
  unfolding find without
  move_last k es = elim (find k es) [ none ↦ es | some w ↦ without k es ++ (k, w) ∷ [] ]

abbrev pub behind_first : {A : Type 0} → List A → List A
behind_first [] = []
behind_first (x ∷ xs) = xs

-- `hashlink::LinkedHashMap`; `entries` is what `iter_mut` visits, from the front to the back. The
-- operations on a `RawEntryMut::Occupied` are `set` (`get_mut`) and `to_back`.
pub record LinkedHashMap (K W : Type 0) ⦃e : Eq K⦄ : Type 1 where
  pub Map : Type 0
  pub new : Map
  pub entries : Map → List (K × W)
  pub get : K → Map → Option W
  pub insert : K → W → Map → Map
  pub pop_front : Map → Map
  pub remove : K → Map → Map
  pub set : K → W → Map → Map
  pub to_back : K → Map → Map
  pub entries-new : entries new ≡ []
  pub get-entries : (k : K) (m : Map) → get k m ≡ find k (entries m)
  pub entries-insert :
      (k : K) (w : W) (m : Map) → entries (insert k w m) ≡ without k (entries m) ++ (k, w) ∷ []
  pub entries-pop_front : (m : Map) → entries (pop_front m) ≡ behind_first (entries m)
  pub entries-remove : (k : K) (m : Map) → entries (remove k m) ≡ without k (entries m)
  pub entries-set : (k : K) (w : W) (m : Map) → entries (set k w m) ≡ write k w (entries m)
  pub entries-to_back : (k : K) (m : Map) → entries (to_back k m) ≡ move_last k (entries m)

-- A value with the instant of its last use.
abbrev pub Timed : Type 0 → Type 0
Timed V = V × ℕ

pub record LruTimeCache (K V : Type 0) ⦃e : Eq K⦄ ⦃lhm : LinkedHashMap K (Timed V)⦄ : Type 0 where
  pub entry_map : lhm.Map
  pub ttl : ℕ
  pub capacity : ℕ

-- `usize::MAX`
abbrev pub usize_max : ℕ
usize_max = 18446744073709551615

module _ {K V : Type 0} where
  -- The keys up to the first entry that has not expired.
  unfoldable pub expired_keys : (ttl now : ℕ) → List (K × Timed V) → List K
  expired_keys ttl now [] = []
  expired_keys ttl now ((k, (v, time)) ∷ es) =
      if leb now (time + ttl) then [] else k ∷ expired_keys ttl now es

module _ {K W : Type 0} ⦃e : Eq K⦄ (lhm : LinkedHashMap K W) where
  unfoldable pub remove_all : List K → lhm.Map → lhm.Map
  remove_all [] m = m
  remove_all (k ∷ ks) m = remove_all ks (lhm.remove k m)

module _ {K V : Type 0} ⦃e : Eq K⦄ ⦃lhm : LinkedHashMap K (Timed V)⦄ where
  -- `LruTimeCache::new`
  unfoldable pub new_lru : ℕ → Option ℕ → LruTimeCache K V
  new_lru ttl capacity = record {
    entry_map = lhm.new;
    ttl = ttl;
    capacity = elim capacity [ some cap ↦ cap | none ↦ usize_max ];
  }

  -- `LruTimeCache::insert`
  unfoldable pub insert_timed : (now : ℕ) → K → V → LruTimeCache K V → LruTimeCache K V
  insert_timed now k v c =
      let m = lhm.insert k (v, now) c.entry_map in
      record c {
        entry_map = if ltb c.capacity (length (lhm.entries m)) then lhm.pop_front m else m;
      }

  unfoldable pub remove_expired_values : (now : ℕ) → LruTimeCache K V → LruTimeCache K V
  unfolding expired_keys remove_all
  remove_expired_values now c = record c {
    entry_map = remove_all lhm (expired_keys c.ttl now (lhm.entries c.entry_map)) c.entry_map;
  }

  -- `LruTimeCache::get_mut`: the cache, and the value with the writing of another in its place.
  unfoldable pub get_timed :
      (now : ℕ) → K → LruTimeCache K V → LruTimeCache K V × Option (V × (V → LruTimeCache K V))
  unfolding remove_expired_values
  get_timed now k c =
      let c1 = remove_expired_values now c in
      elim (lhm.get k c1.entry_map) [
        | none ↦ (c1, none)
        | some (v, time) ↦
            let m = lhm.to_back k (lhm.set k (v, now) c1.entry_map) in
            (
              record c1 { entry_map = m },
              some (v, λ v'. record c1 { entry_map = lhm.set k (v', now) m }),
            )
      ]

  -- `LruTimeCache::peek`
  unfoldable pub peek : (now : ℕ) → K → LruTimeCache K V → Option V
  peek now k c = elim (lhm.get k c.entry_map) [
    | none ↦ none
    | some (v, time) ↦ if leb now (time + c.ttl) then some v else none
  ]

  -- `LruTimeCache::len`
  unfoldable pub len : (now : ℕ) → LruTimeCache K V → LruTimeCache K V × ℕ
  unfolding remove_expired_values
  len now c = let c1 = remove_expired_values now c in (c1, length (lhm.entries c1.entry_map))

  -- `LruTimeCache::remove`
  unfoldable pub remove_timed : K → LruTimeCache K V → LruTimeCache K V × Option V
  remove_timed k c = (
    record c { entry_map = lhm.remove k c.entry_map },
    elim (lhm.get k c.entry_map) [ none ↦ none | some (v, time) ↦ some v ],
  )
