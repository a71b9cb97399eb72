-- ===== src/KBucket/Table/Operations.antt =====
-- src/kbucket.rs: `update_node_status`, `remove`, `update_node` and `insert_or_update` do not panic
-- and keep the table well-formed, and what each does to the bucket of its key.
use discv.KBucket.Key.{Key, IsHash}
use discv.Prelude.{ℕ, Bool, get_elem?, Option, ◌≡◌, some, true, false, ◌⊎◌, none}
use discv.Uint.{Uint}
use discv.ArrayVec.{ArrayVec}
use discv.KBucket.Table.Valid.{IsTable, Runs, in_bucket-Runs}
use discv.KBucket.Table.{KBucketsTable, update_node_status, remove_node, ArrayVec, Uint, Key}
use discv.KBucket.Bucket.Valid.{without}
use discv.KBucket.Bucket.Statuses.{UpdatesStatus, update_status-UpdatesStatus}
use discv.KBucket.Bucket.Values.{remove-Applies}
use discv.KBucket.Bucket.Apply.{Applies}
use discv.KBucket.Bucket.{KBucket, max_nodes_per_bucket, position}
use discv.KBucket.Node.{Node, UpdateResult, ConnectionState, ConnectionDirection, AppliedPending}

module _ {ℓ} {T V : Type ℓ} ⦃vec : ArrayVec max_nodes_per_bucket (Node T V)⦄ ⦃u : Uint⦄ where
  -- What `KBucket::remove` does to the bucket.
  abbrev pub Removes : ℕ → Key T → KBucket T V → KBucket T V × Bool → Type ℓ
  Removes now key b w =
      ((pos : ℕ) × (x : Node T V) × (get_elem? b.nodes pos ≡ some x)
        × (x.key.hash ≡ key.hash)
        × (w.1 ≡ true)
        × ((a : Option (AppliedPending T V)) × Applies now (without pos b) (w.0, a)))
      ⊎ ((position b key ≡ none) × (w ≡ (b, false)))

  -- On a well-formed table, for a key of 256 bits, `update_node_status` returns, it does not panic,
  -- and the table stays well-formed. For the local key nothing changes. Otherwise only the bucket of
  -- the key changes: it applies its pending node, which is recorded, and then updates the status as
  -- the bucket's `update_status` does.
  pub update_node_status-Runs :
      (now later : ℕ) (key : Key T) (state : ConnectionState)
      (direction : Option ConnectionDirection) (t : KBucketsTable T V)
      → IsHash key.hash
      → IsTable t
      → (r : KBucketsTable T V × UpdateResult) × (update_node_status now later key state direction t
          ≡ some r)
        × IsTable r.0
        × Runs now key UpdateResult.not_modified (UpdatesStatus key state direction) t r
  unfolding update_node_status
  update_node_status-Runs now later key state direction t hash v =
      in_bucket-Runs now key _ _ (UpdatesStatus key state direction) t hash v
        (update_status-UpdatesStatus later key state direction)

  -- On a well-formed table, for a key of 256 bits, `remove` returns, it does not panic, and the
  -- table stays well-formed. For the local key nothing changes. Otherwise only the bucket of the key
  -- changes: it applies its pending node, which is recorded, and then removes the key as the
  -- bucket's `remove` does.
  pub remove_node-Runs :
      (now later : ℕ) (key : Key T) (t : KBucketsTable T V)
      → IsHash key.hash
      → IsTable t
      → (r : KBucketsTable T V × Bool) × (remove_node now later key t ≡ some r)
        × IsTable r.0
        × Runs now key false (Removes later key) t r
  unfolding remove_node
  remove_node-Runs now later key t hash v =
      in_bucket-Runs now key _ _ (Removes later key) t hash v (remove-Applies later key)
