-- ===== src/KBucket/Table/Entering.antt =====
-- src/kbucket.rs, `insert_or_update`: what it does to the bucket of its key, whose well-formedness it
-- keeps, and that none of its `unreachable!` is reached.
use discv.KBucket.Key.{Key}
use discv.Prelude.Eq.{Eq}
use discv.Uint.{Uint}
use discv.ArrayVec.{ArrayVec}
use discv.Prelude.{
  ◌≡◌, false, ◌≢◌, some, Bool, ℕ, get_elem?, ◌⊎◌, arith, none, true, inl, Option-cases, inr,
  Bool-cases, subst, is_some,
}
use discv.KBucket.Table.Operations.{Removes}
use discv.KBucket.Table.{TableInsertResult, of_insert, insert_in_bucket, ArrayVec, Uint, Eq, Key}
use discv.KBucket.Table.Reports.{ReportsInsert, ReportsUpdates, of_updates-total}
use discv.KBucket.Bucket.Valid
use discv.KBucket.Bucket.Contract.{insert-IsValid, insert-Inserts}
use discv.KBucket.Bucket.Inserts.{Inserts}
use discv.KBucket.Bucket.Statuses.{UpdatesStatus, update_status-UpdatesStatus}
use discv.KBucket.Bucket.Values.{SetsValue, SetsPending, remove-Applies, update_value-SetsValue}
use discv.KBucket.Bucket.{KBucket, max_nodes_per_bucket, position}
use discv.KBucket.Node.{Node, NodeStatus, UpdateResult, FailureReason, InsertResult, has_failed}
use discv.Prelude.{refl}

module _ {ℓ} {T V : Type ℓ} ⦃vec : ArrayVec max_nodes_per_bucket (Node T V)⦄ ⦃u : Uint⦄
    ⦃e : Eq V⦄ where
  -- What `KBucket::update_value` does to the bucket.
  abbrev pub UpdatesValue : Key T → V → KBucket T V → KBucket T V × UpdateResult → Type ℓ
  UpdatesValue key value b w =
      ((pos : ℕ) × (x : Node T V) × (get_elem? b.nodes pos ≡ some x)
        × (x.key.hash ≡ key.hash)
        × SetsValue pos x value b w)
      ⊎ ((position b key ≡ none) × SetsPending key value b w)

  pub value_never_promotes :
      (key : Key T) (value : V) (b : KBucket T V) (w : KBucket T V × UpdateResult)
      → UpdatesValue key value b w
      → w.1 ≢ UpdateResult.updated_and_promoted
  value_never_promotes key value b w (inl (pos, x, at, same, inl (_, eq))) = λ q. cc (eq, q)
  value_never_promotes key value b w (inl (pos, x, at, same, inr (inl (_, _, eq)))) =
      λ q. cc (eq, q)
  value_never_promotes key value b w (inl (pos, x, at, same, inr (inr (_, _, eq)))) =
      λ q. cc (eq, q)
  value_never_promotes key value b w (inr (gone, inl (p, there, same, eq))) = λ q. cc (eq, q)
  value_never_promotes key value b w (inr (gone, inr (other, eq))) = λ q. cc (eq, q)

  -- What `insert_or_update` does to the bucket.
  abbrev pub Enters :
      Bool → ℕ → Key T → V → NodeStatus → KBucket T V → KBucket T V × TableInsertResult T → Type ℓ
  Enters passed later key value status b (c, r) =
      ((passed ≡ false)
        × (r ≡ TableInsertResult.failed FailureReason.table_filter)
        × ((ok : Bool) × Removes later key b (c, ok)))
      ⊎ ((passed ≡ true)
          × (position b key ≡ none)
          × ((i : InsertResult T) × Inserts later
                (record { key = key; value = value; status = status }) b (c, i)
              × ReportsInsert i r))
      ⊎ ((passed ≡ true)
          × (is_some (position b key) ≡ true)
          × ((s : UpdateResult) × UpdatesStatus key status.state (some status.direction) b (c, s)
              × (has_failed s ≡ true)
              × (r ≡ TableInsertResult.failed FailureReason.too_many_incoming)))
      ⊎ ((passed ≡ true)
          × (is_some (position b key) ≡ true)
          × ((d : KBucket T V) × (s : UpdateResult) × (v : UpdateResult) × UpdatesStatus key
                status.state (some status.direction) b (d, s)
              × (has_failed s ≡ false)
              × UpdatesValue key value d (c, v)
              × ReportsUpdates v s r))

  of_insert-total :
      (later : ℕ) (node : Node T V) (b c : KBucket T V) (i : InsertResult T)
      → position b node.key ≡ none
      → Inserts later node b (c, i)
      → (r : TableInsertResult T) × (of_insert i ≡ some r) × ReportsInsert i r
  of_insert-total later node b c InsertResult.inserted new h =
      (_, refl, ReportsInsert.when_inserted)
  of_insert-total later node b c (InsertResult.pending k) new h =
      (_, refl, ReportsInsert.when_pending k)
  of_insert-total later node b c InsertResult.failed_filter new h =
      (_, refl, ReportsInsert.when_filtered)
  of_insert-total later node b c InsertResult.too_many_incoming new h =
      (_, refl, ReportsInsert.when_too_many)
  of_insert-total later node b c InsertResult.full new h = (_, refl, ReportsInsert.when_full)
  of_insert-total later node b c InsertResult.node_exists new h = absurd (ground (arith, h.0, new))

  new-Enters :
      (later : ℕ) (key : Key T) (value : V) (status : NodeStatus) (b : KBucket T V)
      → Valid.IsValid b
      → position b key ≡ none
      → (w : KBucket T V × TableInsertResult T) × (insert_in_bucket true later key value status b
          ≡ some w)
        × Valid.IsValid w.0
        × Enters true later key value status b w
  unfolding insert_in_bucket
  new-Enters later key value status b v new =
      let node : Node T V = record { key = key; value = value; status = status } in
      let ((c, i), eq, what) = insert-Inserts later node b v in
      let (r, eq', w) = insert-IsValid later node b v in
      let same : r ≡ (c, i) = cc (eq, eq') in
      let (res, done, out) = of_insert-total later node b c i new what in
      (
        (c, res),
        ground arith,
        subst (λ (x : KBucket T V × InsertResult T). Valid.IsValid x.0) same w,
        inr (inl (refl, new, (i, what, out))),
      )

  pub insert_in_bucket-Enters :
      (passed : Bool) (later : ℕ) (key : Key T) (value : V) (status : NodeStatus) (b : KBucket T V)
      → Valid.IsValid b
      → (w : KBucket T V × TableInsertResult T) × (insert_in_bucket passed later key value status b
          ≡ some w)
        × Valid.IsValid w.0
        × Enters passed later key value status b w
  unfolding insert_in_bucket
  insert_in_bucket-Enters false later key value status b v =
      let ((c, ok), eq, w, what) = remove-Applies later key b v in
      (
        (c, TableInsertResult.failed FailureReason.table_filter),
        ground arith,
        w,
        inl (refl, refl, (ok, what)),
      )
  insert_in_bucket-Enters true later key value status b v = elim (Option-cases (position b key)) [
    | inl new ↦ new-Enters later key value status b v new
    | inr (pos, here) ↦
        let ((d, s), eq, w, what) =
          update_status-UpdatesStatus later key status.state (some status.direction) b v in
        elim (Bool-cases (has_failed s)) [
          | inl bad ↦ (
            (d, TableInsertResult.failed FailureReason.too_many_incoming),
            ground arith,
            w,
            inr (inr (inl (refl, ground arith, (s, what, bad, refl)))),
          )
          | inr good ↦
              let ((c, r), eq', w', what') = update_value-SetsValue key value d w in
              let (res, done, out) =
                of_updates-total r s good (value_never_promotes key value d (c, r) what') in
              (
                (c, res),
                ground arith,
                w',
                inr (inr (inr (refl, ground arith, (d, s, r, what, good, what', out)))),
              )
        ]
  ]
