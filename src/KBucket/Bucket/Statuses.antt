-- ===== src/KBucket/Bucket/Statuses.antt =====
-- `KBucket::update_status` (src/kbucket/bucket.rs): total on valid buckets, and where the node goes.
use discv.KBucket.Key.{Key, key_eq}
use discv.KBucket.Bucket.Contract.{after_insert-Inserts}
use discv.KBucket.Bucket.Insert.{after_insert, insert-after_insert}
use discv.ArrayVec.{ArrayVec}
use discv.KBucket.Bucket.Update.{
  updated_by_insert, update_status_at, set_status, detach, update_status, update_pending_status,
}
use discv.KBucket.Bucket.Order.{is_up}
use discv.KBucket.Bucket.Keys.{
  Absent, Absent-remove_at, IsApart, IsApart-remove_at, position_in_of_Absent,
  get_elem?-position_in,
}
use discv.KBucket.Bucket.Inserts.{Joins, Inserts, after_insert-IsValid}
use discv.KBucket.Bucket.Valid.{
  without, IsValid, IsSettled, without-IsSettled, detach-without, pending-IsSettled,
}
use discv.Prelude.{
  ℕ, ◌≡◌, refl, true, false, get_elem?, if◌then◌else◌, some, ◌==◌, suc, Bool, ◌&&◌, none, length,
  remove_at, ◌⊎◌, length-remove_at, lt_of_get_elem?, Bool-cases, inl, inr, not, arith, subst,
  Option, Option-cases, sym, All-get_elem?, ◌≢◌,
}
use discv.KBucket.Node.{
  Node, InsertResult, NodeStatus, UpdateResult, status_eq, is_connected, not_modified,
  updated_and_promoted, updated, failed, FailureReason, updated_pending, ConnectionState,
  ConnectionDirection, PendingNode,
}
use discv.KBucket.Bucket.{
  KBucket, NodeStatus, is_connected, counts_incoming, incoming_count, passes_filter, ArrayVec,
  max_nodes_per_bucket, ConnectionState, ConnectionDirection, Key, PendingNode, position, holds_key,
  key_eq,
}

-- What `update_status` says when `x` stands at `pos` and gets the status `s`.
module _ {ℓ} {T V : Type ℓ} (b : KBucket T V) (pos : ℕ) (x : Node T V) (s : NodeStatus) where
  abbrev pub moved_node : Node T V
  moved_node = record x { status = s }

  abbrev pub detached : KBucket T V
  detached = record (without pos b) {
    pending = if pos == 0 && is_connected s then none else b.pending;
  }

  -- The node is the most recent of its half, or the limit or the filter keeps it out.
  abbrev pub Moves : KBucket T V × UpdateResult → Type ℓ
  Moves (c, not_modified) =
      (status_eq x.status s ≡ true)
      × Joins (is_connected s) moved_node (without pos b) c
      × (c.pending ≡ detached.pending)
  Moves (c, updated_and_promoted) =
      (is_up x ≡ false)
      × (is_connected s ≡ true)
      × Joins true moved_node (without pos b) c
      × (c.pending ≡ detached.pending)
  Moves (c, updated) =
      (status_eq x.status s ≡ false)
      × ((is_up x ≡ true) ⊎ (is_connected s ≡ false))
      × Joins (is_connected s) moved_node (without pos b) c
      × (c.pending ≡ detached.pending)
  Moves (c, updated_pending) = ⊥ × Joins true moved_node b c
  Moves (c, failed FailureReason.too_many_incoming) =
      (counts_incoming moved_node ≡ true)
      × (incoming_count (remove_at b.nodes pos) ≡ b.max_incoming)
      × (c ≡ detached)
  Moves (c, failed FailureReason.bucket_filter) =
      (passes_filter b.filter x.value (remove_at b.nodes pos) ≡ false) × (c ≡ detached)
  Moves (c, failed _) = ⊥ × (c ≡ b)

  module _ (v : IsValid b) (at_pos : get_elem? b.nodes pos ≡ some x) where
    room : suc (length (remove_at b.nodes pos)) ≡ length b.nodes
    room = length-remove_at b.nodes pos (lt_of_get_elem? b.nodes pos at_pos)

    absent : Absent x.key.hash (remove_at b.nodes pos)
    absent = Absent-remove_at b.nodes pos at_pos v.unique

    detached-IsValid : IsValid detached
    detached-IsValid = record {
      settled = pending-IsSettled (without pos b) _ shorter;
      apart = apart';
    }
      where
        shorter : IsSettled (without pos b)
        shorter = without-IsSettled pos b v.settled (lt_of_get_elem? b.nodes pos at_pos)

        apart' : IsApart detached.pending (remove_at b.nodes pos)
        apart' = elim (Bool-cases (pos == 0 && is_connected s)) [
          | inl dropped ↦ rw dropped tt
          | inr kept ↦ rw kept (IsApart-remove_at b.pending b.nodes pos v.apart)
        ]

    not_held : holds_key detached.pending x.key ≡ false
    not_held = elim (Option-cases b.pending) [
      | inl e ↦ ground (arith, e)
      | inr (p, e) ↦
          let apart : Absent p.node.key.hash b.nodes = subst (λ q. IsApart q b.nodes) e v.apart in
          let other = All-get_elem? (λ m. m.key.hash ≢ p.node.key.hash) b.nodes pos at_pos apart in
          ground (arith, e, other)
    ]

    joins :
        (up : Bool) (c : KBucket T V)
        → Joins up moved_node detached c
        → Joins up moved_node (without pos b) c
    joins true c j = j
    joins false c j = j

    updated_by_insert-Moves :
        (now : ℕ) (r : KBucket T V × InsertResult T)
        → IsValid r.0
        → Inserts now moved_node detached r
        → (u : KBucket T V × UpdateResult) × (updated_by_insert x.status s r ≡ some u)
          × IsValid u.0
          × Moves u
    updated_by_insert-Moves now (c, InsertResult.inserted) valid i =
        let j = joins (is_connected s) c i.1 in
        let q : c.pending ≡ detached.pending = ground (arith, i.2, not_held) in
        elim (Bool-cases (status_eq x.status s)) [
          | inl same ↦ ((c, not_modified), rw same, valid, (same, j, q))
          | inr changed ↦ elim (Bool-cases (not (is_up x) && is_connected s)) [
            | inl rises ↦ (
              (c, updated_and_promoted),
              rw (changed, rises),
              valid,
              (
                ground arith,
                ground arith,
                subst (λ u. Joins u moved_node (without pos b) c) {y = true} (ground arith) j,
                q,
              ),
            )
            | inr stays ↦ ((c, updated), rw (changed, stays), valid, (changed, ground arith, j, q))
          ]
        ]
    updated_by_insert-Moves now (c, InsertResult.pending k) valid i =
        absurd (omega (arith, i.0, room, v.bounded))
    updated_by_insert-Moves now (c, InsertResult.full) valid i =
        absurd (omega (arith, i.0, room, v.bounded))
    updated_by_insert-Moves now (c, InsertResult.too_many_incoming) valid i =
        ((c, failed FailureReason.too_many_incoming), refl, valid, (i.0, i.1, i.2))
    updated_by_insert-Moves now (c, InsertResult.failed_filter) valid i =
        ((c, failed FailureReason.bucket_filter), refl, valid, (i.0, i.1))
    updated_by_insert-Moves now (c, InsertResult.node_exists) valid i =
        absurd (ground (arith, i.0, position_in_of_Absent x.key (remove_at b.nodes pos) absent))

detach-detached {ℓ} :
    {T V : Type ℓ} (pos : ℕ) (state : ConnectionState) (direction : Option ConnectionDirection)
    (b : KBucket T V) (x : Node T V)
    → IsSettled b
    → get_elem? b.nodes pos ≡ some x
    → detach pos x.status.state state (remove_at b.nodes pos) b
      ≡ detached b pos x (set_status state direction x.status)
detach-detached pos state none b x s e = detach-without pos state b s e
detach-detached pos state (some d) b x s e = detach-without pos state b s e

module _ {ℓ} {T V : Type ℓ} (key : Key T) (state : ConnectionState)
    (direction : Option ConnectionDirection) (b : KBucket T V) where
  -- The pending node of the key gets the status; otherwise nothing happens.
  abbrev pub UpdatesPending : KBucket T V × UpdateResult → Type ℓ
  UpdatesPending u =
      ((p : PendingNode T V) × (b.pending ≡ some p)
        × (p.node.key.hash ≡ key.hash)
        × (u ≡ (
          record b {
            pending = some (record p {
              node = record p.node { status = set_status state direction p.node.status };
            });
          },
          updated_pending,
        )))
      ⊎ ((holds_key b.pending key ≡ false) × (u ≡ (b, failed FailureReason.key_non_existent)))

  UpdatesPending-IsValid :
      (u : KBucket T V × UpdateResult) → IsValid b → UpdatesPending u → IsValid u.0
  UpdatesPending-IsValid u v (inl (p, e, same, eq)) =
      subst (λ (w : KBucket T V × UpdateResult). IsValid w.0) (sym eq)
        (record {
          settled = pending-IsSettled b _ v.settled;
          apart = subst (λ q. IsApart q b.nodes) e v.apart;
        })
  UpdatesPending-IsValid u v (inr (_, eq)) =
      subst (λ (w : KBucket T V × UpdateResult). IsValid w.0) (sym eq) v

  update_pending_status-UpdatesPending :
      UpdatesPending (update_pending_status key state direction b)
  unfolding update_pending_status
  update_pending_status-UpdatesPending = elim (Option-cases b.pending) [
    | inl e ↦ inr (ground arith, ground arith)
    | inr (p, e) ↦ elim (Bool-cases (key_eq p.node.key key)) [
      | inl here ↦ inl (p, e, ground arith, ground arith)
      | inr other ↦ inr (ground arith, ground arith)
    ]
  ]

module _ {ℓ} {T V : Type ℓ} ⦃vec : ArrayVec max_nodes_per_bucket (Node T V)⦄ where
  update_status_at-Moves :
      (now pos : ℕ) (state : ConnectionState) (direction : Option ConnectionDirection)
      (b : KBucket T V) (x : Node T V)
      → IsValid b
      → get_elem? b.nodes pos ≡ some x
      → (u : KBucket T V × UpdateResult) × (update_status_at now pos state direction b ≡ some u)
        × IsValid u.0
        × Moves b pos x (set_status state direction x.status) u
  unfolding update_status_at
  update_status_at-Moves now pos state direction b x v at_pos =
      let s : NodeStatus = set_status state direction x.status in
      let d : KBucket T V = detached b pos x s in
      let node : Node T V = moved_node b pos x s in
      let valid : IsValid d = detached-IsValid b pos x s v at_pos in
      let (u, e, w, m) =
        updated_by_insert-Moves b pos x s v at_pos now (after_insert now node d)
          (after_insert-IsValid now node d valid) (after_insert-Inserts now node d valid) in
      (
        u,
        rw
            (
              vec.remove_lem b.nodes pos,
              at_pos,
              detach-detached pos state direction b x v.settled at_pos,
            )
            (rw (insert-after_insert now node d valid.settled) e),
        w,
        m,
      )

  -- What `update_status` says when the key is in the bucket, and when it is not.
  abbrev pub UpdatesStatus :
      Key T
      → ConnectionState
      → Option ConnectionDirection
      → KBucket T V
      → KBucket T V × UpdateResult
      → Type ℓ
  UpdatesStatus key state direction b u =
      ((pos : ℕ) × (x : Node T V) × (position b key ≡ some pos)
        × (get_elem? b.nodes pos ≡ some x)
        × (x.key.hash ≡ key.hash)
        × Moves b pos x (set_status state direction x.status) u)
      ⊎ ((position b key ≡ none) × UpdatesPending key state direction b u)

  -- On a valid bucket `update_status` returns, it does not panic, and the bucket that it leaves is
  -- valid. If the key is in the bucket, its node gets the state, and the direction if one is given,
  -- and is the most recent of its half among the others, which keep their order; the pending node is
  -- dropped exactly if the node was the first and gets connected. It reports `not_modified` if the
  -- status is the old one, `updated_and_promoted` if the node was disconnected and is connected, and
  -- `updated` otherwise; or it is removed because it would be one connected incoming node too many or
  -- the filter refuses it. If the key is not in the bucket, the pending node of that key gets the
  -- status, and without one nothing changes and the update fails.
  pub update_status-UpdatesStatus :
      (now : ℕ) (key : Key T) (state : ConnectionState) (direction : Option ConnectionDirection)
      (b : KBucket T V)
      → IsValid b
      → (u : KBucket T V × UpdateResult) × (update_status now key state direction b ≡ some u)
        × IsValid u.0
        × UpdatesStatus key state direction b u
  unfolding update_status
  update_status-UpdatesStatus now key state direction b v = elim (Option-cases (position b key)) [
    | inl e ↦ (
      update_pending_status key state direction b,
      rw (e, update_status),
      UpdatesPending-IsValid key state direction b _ v
          (update_pending_status-UpdatesPending key state direction b),
      inr (e, update_pending_status-UpdatesPending key state direction b),
    )
    | inr (pos, e) ↦
        let (x, at_pos, same) = get_elem?-position_in key b.nodes pos e in
        let (u, eq, w, m) = update_status_at-Moves now pos state direction b x v at_pos in
        (u, rw (e, update_status) eq, w, inl (pos, x, e, at_pos, same, m))
  ]
