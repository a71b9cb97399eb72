-- ===== src/KBucket/Table/Updates.antt =====
-- src/kbucket.rs: `update_node` and `insert_or_update` do not panic and keep the table well-formed,
-- and what each does to the bucket of its key.
use discv.KBucket.Key.Metric.{distance-lt}
use discv.KBucket.Table.Index.{bucket_index_bounds}
use discv.KBucket.Table.Valid.{IsTable, Runs, in_bucket-Runs}
use discv.KBucket.Key.{Key, IsHash, distance}
use discv.Prelude.Eq.{Eq}
use discv.Uint.{Uint}
use discv.ArrayVec.{ArrayVec}
use discv.Prelude.{
  ◌≡◌, false, some, Bool, ℕ, ◌⊎◌, arith, none, true, inl, Option-cases, inr, Bool-cases, Option,
  ◌||◌, get_elem?_of_lt,
}
use discv.KBucket.Table.Operations.{Removes}
use discv.KBucket.Table.{
  TableInsertResult, insert_in_bucket, ArrayVec, Uint, Eq, Key, update_in_bucket, is_duplicate,
  passes_table_filter, insert_or_update, update_node, KBucketsTable, join_updates, table_iter,
}
use discv.KBucket.Table.Reports.{Joins, join_updates-Joins}
use discv.KBucket.Bucket.Valid
use discv.KBucket.Bucket.Statuses.{UpdatesStatus, update_status-UpdatesStatus}
use discv.KBucket.Bucket.Values.{remove-Applies, update_value-SetsValue}
use discv.KBucket.Bucket.{KBucket, max_nodes_per_bucket, get}
use discv.KBucket.Node.{Node, NodeStatus, UpdateResult, FailureReason, has_failed, ConnectionState}
use discv.Prelude.{refl}
use discv.KBucket.Table.Entering.{
  UpdatesValue, Enters, value_never_promotes, insert_in_bucket-Enters,
}

module _ {ℓ} {T V : Type ℓ} ⦃vec : ArrayVec max_nodes_per_bucket (Node T V)⦄ ⦃u : Uint⦄
    ⦃eq : Eq V⦄ where
  -- What `update_node` does to the bucket.
  abbrev pub Refreshes :
      Bool
      → ℕ
      → Key T
      → V
      → Option ConnectionState
      → KBucket T V
      → KBucket T V × UpdateResult
      → Type ℓ
  Refreshes passed later key value state b (c, r) =
      ((passed ≡ false)
        × (r ≡ UpdateResult.failed FailureReason.table_filter)
        × ((ok : Bool) × Removes later key b (c, ok)))
      ⊎ ((passed ≡ true) × (has_failed r ≡ true) × UpdatesValue key value b (c, r))
      ⊎ ((passed ≡ true)
          × (state ≡ none)
          × ((v : UpdateResult) × UpdatesValue key value b (c, v)
              × (has_failed v ≡ false)
              × Joins v UpdateResult.not_modified r))
      ⊎ ((passed ≡ true)
          × ((s : ConnectionState) × (d : KBucket T V) × (v : UpdateResult) × (w : UpdateResult)
              × (state ≡ some s)
              × UpdatesValue key value b (d, v)
              × (has_failed v ≡ false)
              × UpdatesStatus key s none d (c, w)
              × Joins v w r))

  update_in_bucket-Refreshes :
      (passed : Bool) (later : ℕ) (key : Key T) (value : V) (state : Option ConnectionState)
      (b : KBucket T V)
      → Valid.IsValid b
      → (w : KBucket T V × UpdateResult) × (update_in_bucket passed later key value state b
          ≡ some w)
        × Valid.IsValid w.0
        × Refreshes passed later key value state b w
  unfolding update_in_bucket
  update_in_bucket-Refreshes false later key value state b v =
      let ((c, ok), done, w, what) = remove-Applies later key b v in
      (
        (c, UpdateResult.failed FailureReason.table_filter),
        ground arith,
        w,
        inl (refl, refl, (ok, what)),
      )
  update_in_bucket-Refreshes true later key value none b v =
      let ((c, r), done, w, what) = update_value-SetsValue key value b v in
      elim (Bool-cases (has_failed r)) [
        | inl bad ↦ ((c, r), ground arith, w, inr (inl (refl, bad, what)))
        | inr good ↦ (
          (c, join_updates r UpdateResult.not_modified),
          ground arith,
          w,
          inr (
              inr (
                inl (
                  refl,
                  refl,
                  (
                    r,
                    what,
                    good,
                    join_updates-Joins r _ good (value_never_promotes key value b (c, r) what),
                  ),
                ))),
        )
      ]
  update_in_bucket-Refreshes true later key value (some s) b v =
      let ((d, r), done, w, what) = update_value-SetsValue key value b v in
      elim (Bool-cases (has_failed r)) [
        | inl bad ↦ ((d, r), ground arith, w, inr (inl (refl, bad, what)))
        | inr good ↦
            let ((c, q), eq', w', what') = update_status-UpdatesStatus later key s none d w in
            (
              (c, join_updates r q),
              ground arith,
              w',
              inr (
                  inr (
                    inr (
                      refl,
                      (
                        s,
                        d,
                        r,
                        q,
                        refl,
                        what,
                        good,
                        what',
                        join_updates-Joins r q good (value_never_promotes key value b (d, r) what),
                      ),
                    ))),
            )
      ]

  is_duplicate-total :
      (key : Key T) (value : V) (t : KBucketsTable T V)
      → IsHash key.hash
      → IsTable t
      → (d : Bool) × (is_duplicate key value t ≡ some d)
  unfolding is_duplicate
  is_duplicate-total key value t hash v =
      elim (bucket_index_bounds (distance t.local_key key)
        (distance-lt t.local_key key v.hash hash)) [
          | inl (e, same) ↦ (false, ground arith)
          | inr (i, e, small, low, high) ↦
              let (b, at_i) = get_elem?_of_lt t.buckets i (omega (arith, v.count)) in
              (
                elim (get b key) [ none ↦ false | some node ↦ eq.eq node.value value ],
                ground (arith, e, at_i),
              )
        ]

  passes_table_filter-total :
      (key : Key T) (value : V) (t : KBucketsTable T V)
      → IsHash key.hash
      → IsTable t
      → (d : Bool) × (passes_table_filter key value t ≡ some d)
  unfolding passes_table_filter
  passes_table_filter-total key value t hash v =
      let (d, found) = is_duplicate-total key value t hash v in
      elim (Option-cases t.table_filter) [
        | inl e ↦ (true, ground arith)
        | inr (f, e) ↦ (d || f value (table_iter t.buckets), ground arith)
      ]

  pub insert_or_update-Runs :
      (now later : ℕ) (key : Key T) (value : V) (status : NodeStatus) (t : KBucketsTable T V)
      → IsHash key.hash
      → IsTable t
      → (r : KBucketsTable T V × TableInsertResult T) × (passed : Bool) × (passes_table_filter key
            value t
          ≡ some passed)
        × (insert_or_update now later key value status t ≡ some r)
        × IsTable r.0
        × Runs now key
            (TableInsertResult.failed FailureReason.invalid_self_update)
            (Enters passed later key value status)
            t
            r
  unfolding insert_or_update
  insert_or_update-Runs now later key value status t hash v =
      let (passed, filtered) = passes_table_filter-total key value t hash v in
      let (r, runs_to, w, runs) =
        in_bucket-Runs now key (TableInsertResult.failed FailureReason.invalid_self_update)
          (insert_in_bucket passed later key value status) (Enters passed later key value status) t
          hash v (insert_in_bucket-Enters passed later key value status) in
      (r, passed, filtered, rw (filtered, runs_to), w, runs)

  pub update_node-Runs :
      (now later : ℕ) (key : Key T) (value : V) (state : Option ConnectionState)
      (t : KBucketsTable T V)
      → IsHash key.hash
      → IsTable t
      → (r : KBucketsTable T V × UpdateResult) × (passed : Bool) × (passes_table_filter key value t
          ≡ some passed)
        × (update_node now later key value state t ≡ some r)
        × IsTable r.0
        × Runs now key UpdateResult.not_modified (Refreshes passed later key value state) t r
  unfolding update_node
  update_node-Runs now later key value state t hash v =
      let (passed, filtered) = passes_table_filter-total key value t hash v in
      let (r, runs_to, w, runs) =
        in_bucket-Runs now key UpdateResult.not_modified
          (update_in_bucket passed later key value state) (Refreshes passed later key value state) t
          hash v (update_in_bucket-Refreshes passed later key value state) in
      (r, passed, filtered, rw (filtered, runs_to), w, runs)
