-- ===== src/KBucket/Bucket/Update.antt =====
-- src/kbucket/bucket.rs, `KBucket`: the operations on nodes that are there, and the pending node.
use discv.Prelude.{
  ℕ, Bool, true, false, not, ◌&&◌, Option, none, some, List, leb, ◌==◌, if◌then◌else◌, length,
  get_elem?, ◌>>=◌,
}
use discv.Prelude.Eq.{Eq}
use discv.ArrayVec.{ArrayVec}
use discv.KBucket.Key.{Key, key_eq}
use discv.KBucket.Node.{
  ConnectionDirection, ConnectionState, connected, disconnected, NodeStatus, is_connected,
  state_is_connected, status_eq, Node, AppliedPending, InsertResult, FailureReason, UpdateResult,
  updated, updated_and_promoted, updated_pending, failed, not_modified,
}
use discv.KBucket.Bucket.{
  max_nodes_per_bucket, KBucket, checked_pred, position, counts_incoming, is_max_incoming, is_full,
  passes_filter, insert, update_first_connected_pos_for_removal,
}

-- The status that `update_status` gives: a direction that is left out stays.
abbrev pub set_status : ConnectionState → Option ConnectionDirection → NodeStatus → NodeStatus
set_status state none s = record s { state = state }
set_status state (some d) s = record { direction = d; state = state }

-- `first_connected_pos` once the node at `pos` is taken out of `ns`, which are those that stay.
abbrev pub pos_after_removal : ConnectionState → ℕ → ℕ → Option ℕ → Option ℕ
pos_after_removal connected pos len none = none
pos_after_removal connected pos len (some p) = if p == pos && pos == len then none else some p
pos_after_removal disconnected pos len none = none
pos_after_removal disconnected pos len (some p) = checked_pred p

module _ {ℓ} {T V : Type ℓ} where
  -- The `match` on what `insert` says of the pending node; `Full` is `unreachable!`.
  abbrev pub applied_by_insert :
      Key T → KBucket T V × InsertResult T → Option (KBucket T V × Option (AppliedPending T V))
  applied_by_insert key (b, InsertResult.inserted) =
      some (b, some (record { inserted = key; evicted = none }))
  applied_by_insert key (b, InsertResult.full) = none
  applied_by_insert key (b, InsertResult.pending _) = some (b, none)
  applied_by_insert key (b, InsertResult.node_exists) = some (b, none)
  applied_by_insert key (b, InsertResult.failed_filter) = some (b, none)
  applied_by_insert key (b, InsertResult.too_many_incoming) = some (b, none)

  -- The `match` on what `insert` says of the node put back; three results are `unreachable!`.
  abbrev pub updated_by_insert :
      NodeStatus → NodeStatus → KBucket T V × InsertResult T → Option (KBucket T V × UpdateResult)
  updated_by_insert old new (b, InsertResult.inserted) = some (
    b,
    if status_eq old new
        then not_modified
        else if not (is_connected old) && is_connected new
        then updated_and_promoted
        else updated,
  )
  updated_by_insert old new (b, InsertResult.too_many_incoming) =
      some (b, failed FailureReason.too_many_incoming)
  updated_by_insert old new (b, InsertResult.failed_filter) =
      some (b, failed FailureReason.bucket_filter)
  updated_by_insert old new (b, InsertResult.node_exists) = none
  updated_by_insert old new (b, InsertResult.full) = none
  updated_by_insert old new (b, InsertResult.pending _) = none

  -- The bucket of `update_status` before the node is put back.
  unfoldable pub detach :
      ℕ → ConnectionState → ConnectionState → List (Node T V) → KBucket T V → KBucket T V
  detach pos old state ns b = record b {
    nodes = ns;
    first_connected_pos = pos_after_removal old pos (length ns) b.first_connected_pos;
    pending = if pos == 0 && state_is_connected state then none else b.pending;
  }

  unfoldable pub update_pending_status :
      Key T
      → ConnectionState
      → Option ConnectionDirection
      → KBucket T V
      → KBucket T V × UpdateResult
  update_pending_status key state direction b = elim b.pending [
    | none ↦ (b, failed FailureReason.key_non_existent)
    | some p ↦
        if key_eq p.node.key key
        then (
          record b {
            pending = some (record p {
              node = record p.node { status = set_status state direction p.node.status };
            });
          },
          updated_pending,
        )
        else (b, failed FailureReason.key_non_existent)
  ]

module _ {ℓ} {T V : Type ℓ} ⦃vec : ArrayVec max_nodes_per_bucket (Node T V)⦄ where
  -- The three ways in which `apply_pending` replaces the first node of a full bucket.
  unfoldable pub replace_first :
      Node T V → KBucket T V → Option (KBucket T V × Option (AppliedPending T V))
  replace_first node b =
      if is_connected node.status
      then (do
        (evicted, ns) ← vec.remove b.nodes 0
        ns' ← vec.push ns node
        some (
          record b {
            nodes = ns';
            first_connected_pos = elim b.first_connected_pos [
              | none ↦ some (length ns)
              | some p ↦ checked_pred p
            ];
          },
          some (record { inserted = node.key; evicted = some evicted }),
        ))
      else elim b.first_connected_pos [
        | some p ↦ elim (checked_pred p) [
          | some insert_pos ↦ do
            (evicted, ns) ← vec.remove b.nodes 0
            ns' ← vec.insert ns insert_pos node
            some (
              record b { nodes = ns' },
              some (record { inserted = node.key; evicted = some evicted }),
            )
          | none ↦ some (b, none)
        ]
        | none ↦ do
          (evicted, ns) ← vec.remove b.nodes 0
          ns' ← vec.push ns node
          some (
            record b { nodes = ns' },
            some (record { inserted = node.key; evicted = some evicted }),
          )
      ]

  -- `apply_pending` on a full bucket, the pending node already taken out.
  unfoldable pub apply_full :
      Node T V → KBucket T V → Option (KBucket T V × Option (AppliedPending T V))
  unfolding replace_first passes_filter
  apply_full node b = do
    first ← get_elem? b.nodes 0
    if is_connected first.status
        then some (b, none)
        else if not (passes_filter b.filter node.value b.nodes)
        then some (b, none)
        else if counts_incoming node && is_max_incoming b
        then some (b, none)
        else replace_first node b

  unfoldable pub apply_ready :
      ℕ → Node T V → KBucket T V → Option (KBucket T V × Option (AppliedPending T V))
  unfolding apply_full insert
  apply_ready now node b =
      if is_full b.nodes
      then apply_full node b
      else do r ← insert now node b; applied_by_insert node.key r

  unfoldable pub apply_pending :
      ℕ → KBucket T V → Option (KBucket T V × Option (AppliedPending T V))
  unfolding apply_ready
  apply_pending now b = elim b.pending [
    | none ↦ some (b, none)
    | some p ↦
        if leb p.replace now
        then apply_ready now p.node (record b { pending = none })
        else some (b, none)
  ]

  unfoldable pub update_status_at :
      ℕ
      → ℕ
      → ConnectionState
      → Option ConnectionDirection
      → KBucket T V
      → Option (KBucket T V × UpdateResult)
  update_status_at now pos state direction b = do
    (node, ns) ← vec.remove b.nodes pos
    let status = set_status state direction node.status
    r ← insert now (record node { status = status }) (detach pos node.status.state state ns b)
    updated_by_insert node.status status r

  unfoldable pub update_status :
      ℕ
      → Key T
      → ConnectionState
      → Option ConnectionDirection
      → KBucket T V
      → Option (KBucket T V × UpdateResult)
  unfolding update_status_at update_pending_status
  update_status now key state direction b = elim (position b key) [
    | some pos ↦ update_status_at now pos state direction b
    | none ↦ some (update_pending_status key state direction b)
  ]

  module _ ⦃e : Eq V⦄ where
    unfoldable pub update_value_at : ℕ → V → KBucket T V → Option (KBucket T V × UpdateResult)
    unfolding passes_filter update_first_connected_pos_for_removal
    update_value_at pos value b = do
      (node, ns) ← vec.remove b.nodes pos
      if e.eq node.value value
          then (do ns' ← vec.insert ns pos node; some (record b { nodes = ns' }, not_modified))
          else if not (passes_filter b.filter value ns)
          then some (
            update_first_connected_pos_for_removal pos (record b { nodes = ns }),
            failed FailureReason.bucket_filter,
          )
          else do
            ns' ← vec.insert ns pos (record node { value = value })
            some (record b { nodes = ns' }, updated)

    unfoldable pub update_pending_value : Key T → V → KBucket T V → KBucket T V × UpdateResult
    update_pending_value key value b = elim b.pending [
      | none ↦ (b, failed FailureReason.key_non_existent)
      | some p ↦
          if key_eq p.node.key key
          then (
            record b { pending = some (record p { node = record p.node { value = value } }) },
            updated_pending,
          )
          else (b, failed FailureReason.key_non_existent)
    ]

    unfoldable pub update_value : Key T → V → KBucket T V → Option (KBucket T V × UpdateResult)
    unfolding update_value_at update_pending_value
    update_value key value b = elim (position b key) [
      | some pos ↦ update_value_at pos value b
      | none ↦ some (update_pending_value key value b)
    ]

  unfoldable pub remove : ℕ → Key T → KBucket T V → Option (KBucket T V × Bool)
  remove now key b = elim (position b key) [
    | none ↦ some (b, false)
    | some pos ↦ do
      (_, ns) ← vec.remove b.nodes pos
      (b', _) ←
          apply_pending now (update_first_connected_pos_for_removal pos (record b { nodes = ns }))
      some (b', true)
  ]
