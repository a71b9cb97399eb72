-- ===== src/KBucket/ClosestBuckets.antt =====
-- `ClosestBucketsIter` of src/kbucket.rs: the order in which a search for the nodes closest to a
-- target visits the buckets. `bit(i)` of the `U256` is the crate's.
pub mod Order
pub mod Drain
pub mod Sorted
pub mod Covers
mod Tests
use discv.Uint.{Uint}
use discv.Prelude.{ℕ, some, Option, List, none, ◌-◌, [], suc, ◌+◌, if◌then◌else◌, ◌∷◌, not, zero}
use discv.KBucket.Table.{bucket_index}

pub data ClosestBucketsIterState : Type 0 where
  start zoom_in zoom_out : ℕ → ClosestBucketsIterState
  done : ClosestBucketsIterState

pub record ClosestBucketsIter : Type 0 where
  pub distance : ℕ
  pub state : ClosestBucketsIterState

module _ ⦃u : Uint⦄ where
  -- `ClosestBucketsIter::new`
  unfoldable pub new_buckets_iter : ℕ → ClosestBucketsIter
  unfolding bucket_index
  new_buckets_iter d = record {
    distance = d;
    state = elim (bucket_index d) [ some i ↦ start i | none ↦ start 0 ];
  }

  -- `next_in`: the first of the places below `i`, downwards, with a bit 1.
  unfoldable pub next_in : ℕ → ℕ → Option ℕ
  next_in d zero = none
  next_in d (suc i) = if u.bit d i then some i else next_in d i

  -- The first of the `n` places from `i`, upwards, with a bit 0.
  unfoldable pub find_zero : ℕ → ℕ → ℕ → Option ℕ
  find_zero d zero i = none
  find_zero d (suc n) i = if not (u.bit d i) then some i else find_zero d n (suc i)

  -- `next_out`: the places `i + 1..NUM_BUCKETS`
  unfoldable pub next_out : ℕ → ℕ → Option ℕ
  unfolding find_zero
  next_out d i = find_zero d (256 - (i + 1)) (i + 1)

  abbrev to_state : ClosestBucketsIter → ClosestBucketsIterState → ClosestBucketsIter
  to_state it s = record it { state = s }

  -- `next`
  unfoldable pub next_bucket : ClosestBucketsIter → ClosestBucketsIter × Option ℕ
  unfolding next_in next_out
  next_bucket it = elim it.state [
    | start i ↦ (to_state it (zoom_in i), some i)
    | zoom_in i ↦ elim (next_in it.distance i) [
      | some j ↦ (to_state it (zoom_in j), some j)
      | none ↦ (to_state it (zoom_out 0), some 0)
    ]
    | zoom_out i ↦ elim (next_out it.distance i) [
      | some j ↦ (to_state it (zoom_out j), some j)
      | none ↦ (to_state it done, none)
    ]
    | done ↦ (it, none)
  ]

  -- All that at most `n` calls of `next` give.
  unfoldable pub drain : ℕ → ClosestBucketsIter → List ℕ
  unfolding next_bucket
  drain zero it = []
  drain (suc n) it =
      let (it', r) = next_bucket it in
      let rest = drain n it' in elim r [ none ↦ [] | some i ↦ i ∷ rest ]
