-- ===== src/KBucket/Bucket/Values.antt =====
-- `KBucket::update_value` and `KBucket::remove` (src/kbucket/bucket.rs): total on valid buckets, and
-- what becomes of the node.
use discv.KBucket.Bucket.Writes.{with_value-IsValid, without-IsValid}
use discv.KBucket.Bucket.Applies.{apply_pending-Applies}
use discv.KBucket.Bucket.Apply.{Applies}
use discv.KBucket.Key.{Key, key_eq}
use discv.KBucket.Bucket.Update.{update_value_at, update_pending_value, update_value, remove}
use discv.Prelude.Eq.{Eq}
use discv.ArrayVec.{ArrayVec}
use discv.KBucket.Bucket.Keys.{IsApart, get_elem?-position_in}
use discv.KBucket.Bucket.Valid.{IsValid, without, removal-without, pending-IsSettled}
use discv.Prelude.{
  ℕ, ◌≡◌, refl, Option, get_elem?, ◌<◌, some, length, set, none, arith, sym, subst, inl,
  lt_of_get_elem?, ◌⊎◌, inr, remove_at, ◌≢◌, length-remove_at, insert_at-remove_at, true,
  Bool-cases, ap, false, set_same, Option-cases, Bool,
}
use discv.KBucket.Node.{
  Node, PendingNode, UpdateResult, not_modified, updated, failed, FailureReason, updated_pending,
  AppliedPending,
}
use discv.KBucket.Bucket.{
  KBucket, PendingNode, ArrayVec, max_nodes_per_bucket, passes_filter, Key, position, holds_key,
  key_eq,
}

module _ {ℓ} {T V : Type ℓ} ⦃vec : ArrayVec max_nodes_per_bucket (Node T V)⦄ ⦃e : Eq V⦄ where
  -- The node at `pos` keeps its place with the new value, or the filter removes it.
  abbrev pub SetsValue : ℕ → Node T V → V → KBucket T V → KBucket T V × UpdateResult → Type ℓ
  SetsValue pos x value b u =
      ((x.value ≡ value) × (u ≡ (b, not_modified)))
      ⊎ ((x.value ≢ value)
          × (passes_filter b.filter value (remove_at b.nodes pos) ≡ true)
          × (u ≡ (record b { nodes = set b.nodes pos (record x { value = value }) }, updated)))
      ⊎ ((x.value ≢ value)
          × (passes_filter b.filter value (remove_at b.nodes pos) ≡ false)
          × (u ≡ (without pos b, failed FailureReason.bucket_filter)))

  SetsValue-IsValid :
      (pos : ℕ) (x : Node T V) (value : V) (b : KBucket T V) (u : KBucket T V × UpdateResult)
      → IsValid b
      → get_elem? b.nodes pos ≡ some x
      → SetsValue pos x value b u
      → IsValid u.0
  SetsValue-IsValid pos x value b u v at_pos (inl h) =
      subst (λ (w : KBucket T V × UpdateResult). IsValid w.0) (sym h.1) v
  SetsValue-IsValid pos x value b u v at_pos (inr (inl h)) =
      subst (λ (w : KBucket T V × UpdateResult). IsValid w.0) (sym h.2)
        (with_value-IsValid b pos x value v at_pos)
  SetsValue-IsValid pos x value b u v at_pos (inr (inr h)) =
      subst (λ (w : KBucket T V × UpdateResult). IsValid w.0) (sym h.2)
        (without-IsValid pos b v (lt_of_get_elem? b.nodes pos at_pos))

  update_value_at-SetsValue :
      (pos : ℕ) (x : Node T V) (value : V) (b : KBucket T V)
      → IsValid b
      → get_elem? b.nodes pos ≡ some x
      → (u : KBucket T V × UpdateResult) × (update_value_at pos value b ≡ some u)
        × SetsValue pos x value b u
  unfolding update_value_at
  update_value_at-SetsValue pos x value b v at_pos = elim (Bool-cases (e.eq x.value value)) [
    | inl same ↦ (
      (b, not_modified),
      rw (vec.remove_lem b.nodes pos, at_pos, same, put_back x)
          (ap (λ ns. some (record b { nodes = ns }, not_modified)) (set_same b.nodes pos at_pos)),
      inl ((e.eq_iff x.value value).0 same, refl),
    )
    | inr new ↦
        let differs : x.value ≢ value = λ q. (cc (new, (e.eq_iff x.value value).1 q)) in
        elim (Bool-cases (passes_filter b.filter value (remove_at b.nodes pos))) [
          | inl in_ ↦ (
            (record b { nodes = set b.nodes pos (record x { value = value }) }, updated),
            rw (vec.remove_lem b.nodes pos, at_pos, new, in_, put_back (record x { value = value }))
                refl,
            inr (inl (differs, in_, refl)),
          )
          | inr out ↦ (
            (without pos b, failed FailureReason.bucket_filter),
            rw
                (
                  vec.remove_lem b.nodes pos,
                  at_pos,
                  new,
                  out,
                  removal-without pos b v.settled in_range,
                )
                refl,
            inr (inr (differs, out, refl)),
          )
        ]
  ]
    where
      in_range : pos < length b.nodes
      in_range = lt_of_get_elem? b.nodes pos at_pos

      put_back :
          (y : Node T V) → vec.insert (remove_at b.nodes pos) pos y ≡ some (set b.nodes pos y)
      put_back y = ground (
        arith,
        vec.insert_lem (remove_at b.nodes pos) pos y,
        length-remove_at b.nodes pos in_range,
        in_range,
        insert_at-remove_at b.nodes pos y in_range,
        v.bounded,
      )

  -- The pending node of the key gets the value; otherwise nothing happens.
  abbrev pub SetsPending : Key T → V → KBucket T V → KBucket T V × UpdateResult → Type ℓ
  SetsPending key value b u =
      ((p : PendingNode T V) × (b.pending ≡ some p)
        × (p.node.key.hash ≡ key.hash)
        × (u ≡ (
          record b { pending = some (record p { node = record p.node { value = value } }) },
          updated_pending,
        )))
      ⊎ ((holds_key b.pending key ≡ false) × (u ≡ (b, failed FailureReason.key_non_existent)))

  SetsPending-IsValid :
      (key : Key T) (value : V) (b : KBucket T V) (u : KBucket T V × UpdateResult)
      → IsValid b
      → SetsPending key value b u
      → IsValid u.0
  SetsPending-IsValid key value b u v (inl (p, eq, same, r)) =
      subst (λ (w : KBucket T V × UpdateResult). IsValid w.0) (sym r)
        (record {
          settled = pending-IsSettled b _ v.settled;
          apart = subst (λ q. IsApart q b.nodes) eq v.apart;
        })
  SetsPending-IsValid key value b u v (inr (_, r)) =
      subst (λ (w : KBucket T V × UpdateResult). IsValid w.0) (sym r) v

  update_pending_value-SetsPending :
      (key : Key T) (value : V) (b : KBucket T V)
      → SetsPending key value b (update_pending_value key value b)
  unfolding update_pending_value
  update_pending_value-SetsPending key value b = elim (Option-cases b.pending) [
    | inl none_there ↦ inr (ground arith, ground arith)
    | inr (p, there) ↦ elim (Bool-cases (key_eq p.node.key key)) [
      | inl here ↦ inl (p, there, ground arith, ground arith)
      | inr other ↦ inr (ground arith, ground arith)
    ]
  ]

  -- On a valid bucket `update_value` returns, it does not panic, and the bucket that it leaves is
  -- valid. If the key is in the bucket, the node keeps its place and its status: it is unchanged
  -- (`not_modified`) where it has the value already, it gets the value (`updated`) where the filter
  -- lets the value in beside the other nodes, and is removed (`failed bucket_filter`) where it does
  -- not. If the key is not in the bucket, the pending node of that key gets the value, and without
  -- one nothing changes and the update fails.
  pub update_value-SetsValue :
      (key : Key T) (value : V) (b : KBucket T V)
      → IsValid b
      → (u : KBucket T V × UpdateResult) × (update_value key value b ≡ some u)
        × IsValid u.0
        × (((pos : ℕ) × (x : Node T V) × (get_elem? b.nodes pos ≡ some x)
              × (x.key.hash ≡ key.hash)
              × SetsValue pos x value b u)
            ⊎ ((position b key ≡ none) × SetsPending key value b u))
  unfolding update_value
  update_value-SetsValue key value b v = elim (Option-cases (position b key)) [
    | inl gone ↦
        let h = update_pending_value-SetsPending key value b in
        (
          update_pending_value key value b,
          rw (gone, update_value),
          SetsPending-IsValid key value b _ v h,
          inr (gone, h),
        )
    | inr (pos, here) ↦
        let (x, at_pos, same) = get_elem?-position_in key b.nodes pos here in
        let (u, eq, s) = update_value_at-SetsValue pos x value b v at_pos in
        (
          u,
          rw (here, update_value) eq,
          SetsValue-IsValid pos x value b u v at_pos s,
          inl (pos, x, at_pos, same, s),
        )
  ]

module _ {ℓ} {T V : Type ℓ} ⦃vec : ArrayVec max_nodes_per_bucket (Node T V)⦄ where
  -- On a valid bucket `remove` returns, it does not panic, and the bucket that it leaves is valid. If
  -- the key is in the bucket it reports `true`: the node is taken out, the others keep their order,
  -- and then the pending node is applied as `apply_pending` does. Otherwise it reports `false` and
  -- changes nothing.
  pub remove-Applies :
      (now : ℕ) (key : Key T) (b : KBucket T V)
      → IsValid b
      → (u : KBucket T V × Bool) × (remove now key b ≡ some u)
        × IsValid u.0
        × (((pos : ℕ) × (x : Node T V) × (get_elem? b.nodes pos ≡ some x)
              × (x.key.hash ≡ key.hash)
              × (u.1 ≡ true)
              × ((a : Option (AppliedPending T V)) × Applies now (without pos b) (u.0, a)))
            ⊎ ((position b key ≡ none) × (u ≡ (b, false))))
  unfolding remove
  remove-Applies now key b v = elim (Option-cases (position b key)) [
    | inl gone ↦ ((b, false), rw (gone, remove), v, inr (gone, refl))
    | inr (pos, here) ↦
        let (x, at_pos, same) = get_elem?-position_in key b.nodes pos here in
        let in_range = lt_of_get_elem? b.nodes pos at_pos in
        let (r, eq, w, a) =
          apply_pending-Applies now (without pos b) (without-IsValid pos b v in_range) in
        (
          (r.0, true),
          rw
              (
                here,
                remove,
                vec.remove_lem b.nodes pos,
                at_pos,
                removal-without pos b v.settled in_range,
              )
              (rw eq refl),
          w,
          inl (pos, x, at_pos, same, refl, (r.1, a)),
        )
  ]
