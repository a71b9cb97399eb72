-- ===== src/KBucket/Table.antt =====
-- src/kbucket.rs, `KBucketsTable`: the routing table and the operations that change it. An operation
-- reads the clock once when it applies the pending node of the bucket, `now`, and again in what it
-- then does to the bucket, `later`. It returns the new table, and `none` where it panics: an index
-- past the buckets, an `unreachable!`, a bucket's panic.
pub mod Index
pub mod Valid
pub mod Operations
pub mod Reports
pub mod Entering
pub mod Updates
pub mod Placement
pub mod Reachable
mod Tests
use discv.Prelude.{
  ℕ, List, Bool, Option, ◌-◌, [], ◌∷◌, some, none, suc, ◌++◌, false, true, zero, ◌>>=◌, get_elem?,
  set, ◌||◌, if◌then◌else◌,
}
use discv.Prelude.Eq.{Eq}
use discv.Uint.{Uint}
use discv.ArrayVec.{ArrayVec}
use discv.KBucket.Key.{Key, distance}
use discv.KBucket.Node.{
  Node, NodeStatus, AppliedPending, UpdateResult, FailureReason, Filter, has_failed, InsertResult,
  ConnectionState, ConnectionDirection,
}
use discv.KBucket.Bucket.{
  KBucket, checked_pred, max_nodes_per_bucket, get, position, find_in, new, insert, values,
  position_in,
}
use discv.KBucket.Bucket.Update.{apply_pending, update_status, update_value, remove}

abbrev pub num_buckets : ℕ
num_buckets = 256

pub record KBucketsTable {ℓ} (T V : Type ℓ) : Type ℓ where
  pub local_key : Key T
  pub buckets : List (KBucket T V)
  pub applied_pending : List (AppliedPending T V)
  pub table_filter : Option (Filter V)

-- `kbucket::InsertResult`
pub data TableInsertResult {ℓ} (T : Type ℓ) : Type ℓ where
  inserted : TableInsertResult T
  pending : Key T → TableInsertResult T
  status_updated : Bool → TableInsertResult T
  value_updated : TableInsertResult T
  updated : Bool → TableInsertResult T
  updated_pending : TableInsertResult T
  failed : FailureReason → TableInsertResult T

-- `BucketIndex::new`
unfoldable pub bucket_index : ⦃u : Uint⦄ → ℕ → Option ℕ
bucket_index ⦃u⦄ d = checked_pred (num_buckets - u.leading_zeros d)

abbrev pub repeat {ℓ} : {A : Type ℓ} → ℕ → A → List A
repeat zero x = []
repeat (suc n) x = x ∷ repeat n x

-- The two results of `update_node` as one.
abbrev pub join_updates : UpdateResult → UpdateResult → UpdateResult
join_updates value (UpdateResult.failed r) = UpdateResult.failed r
join_updates (UpdateResult.failed r) status = UpdateResult.failed r
join_updates value UpdateResult.updated_and_promoted = UpdateResult.updated_and_promoted
join_updates UpdateResult.updated_pending status = UpdateResult.updated_pending
join_updates value UpdateResult.updated_pending = UpdateResult.updated_pending
join_updates UpdateResult.not_modified UpdateResult.not_modified = UpdateResult.not_modified
join_updates value status = UpdateResult.updated

module _ {ℓ} {T : Type ℓ} where
  -- The `match` of `insert_or_update` on what the bucket's `insert` says; `NodeExists` is
  -- `unreachable!`.
  abbrev pub of_insert : InsertResult T → Option (TableInsertResult T)
  of_insert InsertResult.node_exists = none
  of_insert InsertResult.full = some (TableInsertResult.failed FailureReason.bucket_full)
  of_insert InsertResult.too_many_incoming =
      some (TableInsertResult.failed FailureReason.too_many_incoming)
  of_insert InsertResult.failed_filter = some (TableInsertResult.failed FailureReason.bucket_filter)
  of_insert (InsertResult.pending k) = some (TableInsertResult.pending k)
  of_insert InsertResult.inserted = some TableInsertResult.inserted

  -- The `match` of `insert_or_update` on the update of the value and on that of the status.
  abbrev pub of_updates : UpdateResult → UpdateResult → Option (TableInsertResult T)
  of_updates UpdateResult.updated UpdateResult.updated = some (TableInsertResult.updated false)
  of_updates UpdateResult.updated UpdateResult.updated_and_promoted =
      some (TableInsertResult.updated true)
  of_updates UpdateResult.updated UpdateResult.not_modified = some TableInsertResult.value_updated
  of_updates UpdateResult.updated UpdateResult.updated_pending =
      some TableInsertResult.value_updated
  of_updates UpdateResult.not_modified UpdateResult.updated =
      some (TableInsertResult.status_updated false)
  of_updates UpdateResult.not_modified UpdateResult.updated_and_promoted =
      some (TableInsertResult.status_updated true)
  of_updates UpdateResult.not_modified UpdateResult.not_modified =
      some (TableInsertResult.updated false)
  of_updates UpdateResult.updated_pending status = some TableInsertResult.updated_pending
  of_updates value UpdateResult.updated_pending = some TableInsertResult.updated_pending
  of_updates (UpdateResult.failed r) status = some (TableInsertResult.failed r)
  of_updates value (UpdateResult.failed r) = none
  of_updates UpdateResult.updated_and_promoted status = none

module _ {ℓ} {T V : Type ℓ} where
  unfoldable pub new_table :
      Key T → ℕ → ℕ → Option (Filter V) → Option (Filter V) → KBucketsTable T V
  new_table local_key pending_timeout max_incoming_per_bucket table_filter bucket_filter = record {
    local_key = local_key;
    buckets = repeat num_buckets (new pending_timeout max_incoming_per_bucket bucket_filter);
    applied_pending = [];
    table_filter = table_filter;
  }

  -- `table_iter`: the values of all nodes.
  unfoldable pub table_iter : List (KBucket T V) → List V
  table_iter [] = []
  table_iter (b ∷ bs) = values b.nodes ++ table_iter bs

  -- `push_back` of what `apply_pending` reports.
  abbrev pub record_applied :
      Option (AppliedPending T V) → List (AppliedPending T V) → List (AppliedPending T V)
  record_applied none past = past
  record_applied (some a) past = past ++ a ∷ []

  -- `take_applied_pending`
  unfoldable pub take_applied_pending :
      KBucketsTable T V → KBucketsTable T V × Option (AppliedPending T V)
  take_applied_pending t = elim t.applied_pending [
    | [] ↦ (t, none)
    | a ∷ rest ↦ (record t { applied_pending = rest }, some a)
  ]

  -- An operation on the bucket of an index.
  unfoldable pub at_bucket {κ} :
      {R : Type κ}
      → ℕ
      → (KBucket T V → Option (KBucket T V × R))
      → KBucketsTable T V
      → Option (KBucketsTable T V × R)
  at_bucket i f t = do
    b ← get_elem? t.buckets i
    (b', r) ← f b
    some (record t { buckets = set t.buckets i b' }, r)

module _ {ℓ} {T V : Type ℓ} ⦃vec : ArrayVec max_nodes_per_bucket (Node T V)⦄ ⦃u : Uint⦄ where
  abbrev pub index_of : KBucketsTable T V → Key T → Option ℕ
  index_of t key = bucket_index (distance t.local_key key)

  -- `apply_pending` of a bucket, and what it reports is recorded.
  unfoldable pub apply_at : ℕ → ℕ → KBucketsTable T V → Option (KBucketsTable T V)
  unfolding at_bucket apply_pending
  apply_at now i t = do
    (t', a) ← at_bucket i (apply_pending now) t
    some (record t' { applied_pending = record_applied a t'.applied_pending })

  -- What every operation on a key does: the bucket of the key applies its pending node, and then `f`
  -- changes it. The local key has no bucket, and the result is `self`.
  unfoldable pub in_bucket {κ} :
      {R : Type κ}
      → ℕ
      → Key T
      → R
      → (KBucket T V → Option (KBucket T V × R))
      → KBucketsTable T V
      → Option (KBucketsTable T V × R)
  unfolding bucket_index distance apply_at at_bucket
  in_bucket now key self f t = elim (index_of t key) [
    | none ↦ some (t, self)
    | some i ↦ do t' ← apply_at now i t; at_bucket i f t'
  ]

  unfoldable pub update_node_status :
      (now later : ℕ)
      → Key T
      → ConnectionState
      → Option ConnectionDirection
      → KBucketsTable T V
      → Option (KBucketsTable T V × UpdateResult)
  unfolding in_bucket update_status
  update_node_status now later key state direction t =
      in_bucket now key UpdateResult.not_modified (update_status later key state direction) t

  unfoldable pub remove_node :
      (now later : ℕ) → Key T → KBucketsTable T V → Option (KBucketsTable T V × Bool)
  unfolding in_bucket remove
  remove_node now later key t = in_bucket now key false (remove later key) t

  module _ ⦃e : Eq V⦄ where
    -- The node is there with this value.
    unfoldable pub is_duplicate : Key T → V → KBucketsTable T V → Option Bool
    unfolding bucket_index distance find_in
    is_duplicate key value t = elim (index_of t key) [
      | none ↦ some false
      | some i ↦ do
        b ← get_elem? t.buckets i
        some (elim (get b key) [ none ↦ false | some node ↦ e.eq node.value value ])
    ]

    -- The first part of `update_node` and of `insert_or_update`.
    unfoldable pub passes_table_filter : Key T → V → KBucketsTable T V → Option Bool
    unfolding is_duplicate table_iter
    passes_table_filter key value t = elim t.table_filter [
      | none ↦ some true
      | some f ↦ do
        duplicate ← is_duplicate key value t
        some (duplicate || f value (table_iter t.buckets))
    ]

    -- What `update_node` does to the bucket.
    unfoldable pub update_in_bucket :
        Bool
        → ℕ
        → Key T
        → V
        → Option ConnectionState
        → KBucket T V
        → Option (KBucket T V × UpdateResult)
    unfolding remove update_value update_status
    update_in_bucket false later key value state b = do
      (b', _) ← remove later key b
      some (b', UpdateResult.failed FailureReason.table_filter)
    update_in_bucket true later key value state b = do
      (b', update_result) ← update_value key value b
      if has_failed update_result then some (b', update_result) else elim state [
        | none ↦ some (b', join_updates update_result UpdateResult.not_modified)
        | some s ↦ do
          (b'', status_result) ← update_status later key s none b'
          some (b'', join_updates update_result status_result)
      ]

    unfoldable pub update_node :
        (now later : ℕ)
        → Key T
        → V
        → Option ConnectionState
        → KBucketsTable T V
        → Option (KBucketsTable T V × UpdateResult)
    unfolding passes_table_filter in_bucket update_in_bucket
    update_node now later key value state t = do
      passed ← passes_table_filter key value t
      in_bucket now key UpdateResult.not_modified (update_in_bucket passed later key value state) t

    -- What `insert_or_update` does to the bucket.
    unfoldable pub insert_in_bucket :
        Bool → ℕ → Key T → V → NodeStatus → KBucket T V → Option (KBucket T V × TableInsertResult T)
    unfolding remove insert position_in update_value update_status
    insert_in_bucket false later key value status b = do
      (b', _) ← remove later key b
      some (b', TableInsertResult.failed FailureReason.table_filter)
    insert_in_bucket true later key value status b = elim (position b key) [
      | none ↦ do
        (b', r) ← insert later (record { key = key; value = value; status = status }) b
        result ← of_insert r
        some (b', result)
      | some _ ↦ do
        (b', status_result) ← update_status later key status.state (some status.direction) b
        if has_failed status_result
            then some (b', TableInsertResult.failed FailureReason.too_many_incoming)
            else do
              (b'', value_result) ← update_value key value b'
              result ← of_updates value_result status_result
              some (b'', result)
    ]

    unfoldable pub insert_or_update :
        (now later : ℕ)
        → Key T
        → V
        → NodeStatus
        → KBucketsTable T V
        → Option (KBucketsTable T V × TableInsertResult T)
    unfolding passes_table_filter in_bucket insert_in_bucket
    insert_or_update now later key value status t = do
      passed ← passes_table_filter key value t
      in_bucket now key (TableInsertResult.failed FailureReason.invalid_self_update)
          (insert_in_bucket passed later key value status) t
