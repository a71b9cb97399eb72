-- ===== src/KBucket/Table/Reachable.antt =====
-- src/kbucket.rs: the tables that the operations of `KBucketsTable` lead to.
use discv.KBucket.Table.Valid.{IsTable, Runs, new_table-IsTable}
use discv.KBucket.Table.Operations.{Removes, update_node_status-Runs, remove_node-Runs}
use discv.KBucket.Table.Entering.{Enters}
use discv.KBucket.Table.Updates.{Refreshes, insert_or_update-Runs, update_node-Runs}
use discv.KBucket.Table.Placement.{
  IsPlaced, Runs-IsPlaced, Removes-Holds, Enters-Holds, Refreshes-Holds, PlacedFrom-repeat,
}
use discv.KBucket.Table.{
  KBucketsTable, TableInsertResult, new_table, update_node_status, remove_node, update_node,
  insert_or_update, take_applied_pending,
}
use discv.KBucket.Bucket.Holding.{UpdatesStatus-Holds}
use discv.KBucket.Bucket.{KBucket, new, max_nodes_per_bucket}
use discv.KBucket.Bucket.Valid
use discv.Prelude.{[], ◌∷◌, List, ap, length, ◌∙◌, All, sym}
use discv.KBucket.Bucket.Statuses.{UpdatesStatus}
use discv.KBucket.Key.{Key, IsHash}
use discv.KBucket.Node.{
  Node, UpdateResult, NodeStatus, Filter, FailureReason, ConnectionState, ConnectionDirection,
  AppliedPending,
}
use discv.ArrayVec.{ArrayVec}
use discv.Prelude.Eq.{Eq}
use discv.Uint.{Uint}
use discv.Prelude.{refl, ℕ, ◌≡◌, Option, subst, false, Bool, some}

-- The tables that a new table becomes by operations on keys of 256 bits, at any times.
pub data Reachable {ℓ} {T V : Type ℓ} ⦃vec : ArrayVec max_nodes_per_bucket (Node T V)⦄ ⦃u : Uint⦄
    ⦃e : Eq V⦄ : KBucketsTable T V → Type ℓ where
  created :
      (local_key : Key T) (pending_timeout max_incoming : ℕ)
      (table_filter bucket_filter : Option (Filter V))
      → IsHash local_key.hash
      → Reachable (new_table local_key pending_timeout max_incoming table_filter bucket_filter)
  status_updated :
      (now later : ℕ) (key : Key T) (state : ConnectionState)
      (direction : Option ConnectionDirection) (t t' : KBucketsTable T V) (r : UpdateResult)
      → Reachable t
      → IsHash key.hash
      → update_node_status now later key state direction t ≡ some (t', r)
      → Reachable t'
  node_updated :
      (now later : ℕ) (key : Key T) (value : V) (state : Option ConnectionState)
      (t t' : KBucketsTable T V) (r : UpdateResult)
      → Reachable t
      → IsHash key.hash
      → update_node now later key value state t ≡ some (t', r)
      → Reachable t'
  node_entered :
      (now later : ℕ) (key : Key T) (value : V) (status : NodeStatus) (t t' : KBucketsTable T V)
      (r : TableInsertResult T)
      → Reachable t
      → IsHash key.hash
      → insert_or_update now later key value status t ≡ some (t', r)
      → Reachable t'
  removed :
      (now later : ℕ) (key : Key T) (t t' : KBucketsTable T V) (r : Bool)
      → Reachable t
      → IsHash key.hash
      → remove_node now later key t ≡ some (t', r)
      → Reachable t'
  taken : (t : KBucketsTable T V) → Reachable t → Reachable (take_applied_pending t).0

module _ {ℓ} {T V : Type ℓ} ⦃vec : ArrayVec max_nodes_per_bucket (Node T V)⦄ ⦃u : Uint⦄
    ⦃eq : Eq V⦄ where
  take_keeps :
      (t : KBucketsTable T V) (applied : List (AppliedPending T V))
      → t.applied_pending ≡ applied
      → ((take_applied_pending t).0.buckets ≡ t.buckets)
        × ((take_applied_pending t).0.local_key ≡ t.local_key)
  unfolding take_applied_pending
  take_keeps t [] e = rw e (refl, refl)
  take_keeps t (a ∷ rest) e = rw e (refl, refl)

  -- Every table that the operations lead to, from a new table and with keys of 256 bits, is
  -- well-formed, and each of its nodes, pending or not, is in the bucket of its distance from the
  -- local key.
  pub Reachable-IsPlaced : (t : KBucketsTable T V) → Reachable t → IsTable t × IsPlaced t
  unfolding new_table new
  Reachable-IsPlaced _ (created local_key timeout max_incoming table_filter bucket_filter hash) = (
    (new_table-IsTable local_key timeout max_incoming table_filter bucket_filter hash).0,
    PlacedFrom-repeat local_key 0 256 (new timeout max_incoming bucket_filter) refl refl,
  )
  Reachable-IsPlaced _ (status_updated now later key state direction t t' r before hash step) =
      let (v, placed) = Reachable-IsPlaced t before in
      let (w, step', v', runs) = update_node_status-Runs now later key state direction t hash v in
      let same : w ≡ (t', r) = cc (step, step') in
      let runs' =
        subst (Runs now key UpdateResult.not_modified (UpdatesStatus key state direction) t) same
          runs in
      (
        subst (λ (w : KBucketsTable T V × UpdateResult). IsTable w.0) same v',
        Runs-IsPlaced now key UpdateResult.not_modified (UpdatesStatus key state direction) t t' r
            runs' (λ i b c belongs what. UpdatesStatus-Holds _ key state direction b c r what)
            placed,
      )
  Reachable-IsPlaced _ (node_updated now later key value state t t' r before hash step) =
      let (v, placed) = Reachable-IsPlaced t before in
      let (w, passed, _, step', v', runs) = update_node-Runs now later key value state t hash v in
      let same : w ≡ (t', r) = cc (step, step') in
      let runs' =
        subst (Runs now key UpdateResult.not_modified (Refreshes passed later key value state) t)
          same runs in
      (
        subst (λ (w : KBucketsTable T V × UpdateResult). IsTable w.0) same v',
        Runs-IsPlaced now key UpdateResult.not_modified (Refreshes passed later key value state) t
            t' r runs'
            (λ i b c belongs what. Refreshes-Holds _ passed later key value state b c r what)
            placed,
      )
  Reachable-IsPlaced _ (node_entered now later key value status t t' r before hash step) =
      let (v, placed) = Reachable-IsPlaced t before in
      let self : TableInsertResult T = TableInsertResult.failed FailureReason.invalid_self_update in
      let (w, passed, _, step', v', runs) =
        insert_or_update-Runs now later key value status t hash v in
      let same : w ≡ (t', r) = cc (step, step') in
      let runs' = subst (Runs now key self (Enters passed later key value status) t) same runs in
      (
        subst (λ (w : KBucketsTable T V × TableInsertResult T). IsTable w.0) same v',
        Runs-IsPlaced now key self (Enters passed later key value status) t t' r runs'
            (λ i b c belongs what. Enters-Holds _ passed later key value status b c r belongs what)
            placed,
      )
  Reachable-IsPlaced _ (removed now later key t t' r before hash step) =
      let (v, placed) = Reachable-IsPlaced t before in
      let (w, step', v', runs) = remove_node-Runs now later key t hash v in
      let same : w ≡ (t', r) = cc (step, step') in
      let runs' = subst (Runs now key false (Removes later key) t) same runs in
      (
        subst (λ (w : KBucketsTable T V × Bool). IsTable w.0) same v',
        Runs-IsPlaced now key false (Removes later key) t t' r runs'
            (λ i b c belongs what. Removes-Holds _ later key b c r what) placed,
      )
  Reachable-IsPlaced _ (taken t before) =
      let (v, placed) = Reachable-IsPlaced t before in
      let (bs, k) = take_keeps t t.applied_pending refl in
      (
        record {
          count = ap length bs ∙ v.count;
          each = subst (All (λ (b : KBucket T V). Valid.IsValid b)) (sym bs) v.each;
          hash = rw k v.hash;
        },
        rw (k, bs) placed,
      )
