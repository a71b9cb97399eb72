-- ===== src/KBucket/Bucket/Apply.antt =====
-- `KBucket::apply_pending` (src/kbucket/bucket.rs): total on valid buckets, and what it replaces.
use discv.KBucket.Bucket.Contract.{Joins-with_up, Joins-with_down}
use discv.KBucket.Bucket.Keys.{Absent, incoming_count-remove_at, IsApart}
use discv.KBucket.Bucket.Update.{replace_first, apply_full}
use discv.KBucket.Bucket.Inserts.{Joins, is_over, SameSettings}
use discv.ArrayVec.{ArrayVec}
use discv.KBucket.Bucket.Order.{is_up, first_connected}
use discv.KBucket.Bucket.Valid.{
  IsValid, IsSettled, with_up, without, with_down, without-IsSettled, with_up-IsSettled,
  with_down-IsSettled, pending-IsSettled,
}
use discv.KBucket.Bucket.{
  KBucket, max_nodes_per_bucket, PendingNode, ArrayVec, checked_pred, counts_incoming,
  is_max_incoming, passes_filter,
}
use discv.Prelude.{
  ℕ, ◌≡◌, false, Option, length, none, if◌then◌else◌, ◌<◌, some, get_elem?, ◌≢◌, suc, ◌≤◌,
  remove_at, arith, length-remove_at, Option-cases, ◌>>=◌, lt_of_get_elem?, inl, inr, ◌-◌, sym, ◌∙◌,
  Bool-cases, ◌&&◌, get_elem?_of_lt, All-remove_at, subst, Bool, ◌⊎◌, leb, true,
}
use discv.KBucket.Node.{Node, AppliedPending, PendingNode}
use discv.KBucket.Bucket.Order

module _ {ℓ} {T V : Type ℓ} where
  -- The node takes a free place, or that of the first node, which is disconnected.
  abbrev pub Replaces : Option (Node T V) → Node T V → KBucket T V → KBucket T V → Type ℓ
  Replaces none node b c = (length b.nodes < max_nodes_per_bucket) × Joins (is_up node) node b c
  Replaces (some first) node b c =
      (length b.nodes ≡ max_nodes_per_bucket)
      × (get_elem? b.nodes 0 ≡ some first)
      × (is_up first ≡ false)
      × Joins (is_up node) node (without 0 b) c

  -- The deadline of the pending node, if there is one, has passed.
  abbrev pub is_ready : ℕ → Option (PendingNode T V) → Bool
  is_ready now none = false
  is_ready now (some p) = leb p.replace now

  -- Why the pending node cannot enter: the bucket is full and its first node is connected, the filter
  -- refuses the value, or it would be a connected incoming node too many.
  abbrev pub Refused : Node T V → KBucket T V → Type ℓ
  Refused node b =
      ((length b.nodes ≡ max_nodes_per_bucket)
        × ((first : Node T V) × (get_elem? b.nodes 0 ≡ some first) × (is_up first ≡ true)))
      ⊎ (passes_filter b.filter node.value b.nodes ≡ false)
      ⊎ (is_over node b ≡ true)

  -- What `apply_pending` says of the bucket before and after it.
  abbrev pub Applies : ℕ → KBucket T V → KBucket T V × Option (AppliedPending T V) → Type ℓ
  Applies now b (c, none) =
      ((is_ready now b.pending ≡ false) × (c ≡ b))
      ⊎ ((p : PendingNode T V) × (b.pending ≡ some p)
          × (p.replace ≤ now)
          × Refused p.node b
          × (c ≡ record b { pending = none }))
  Applies now b (c, some a) =
      (p : PendingNode T V) × (b.pending ≡ some p)
      × (p.replace ≤ now)
      × (a.inserted ≡ p.node.key)
      × (c.pending ≡ none)
      × Replaces a.evicted p.node b c
      × (passes_filter b.filter p.node.value b.nodes ≡ true)
      × (is_over p.node b ≡ false)
      × SameSettings b c

  abbrev pub without_pending : KBucket T V → KBucket T V
  without_pending b = record b { pending = none }

  pub without_pending-IsValid : (b : KBucket T V) → IsValid b → IsValid (without_pending b)
  without_pending-IsValid b v = record { settled = pending-IsSettled b _ v.settled; apart = tt }

  -- The bucket with its first node replaced.
  abbrev pub replaced : Node T V → KBucket T V → KBucket T V
  replaced node b = if is_up node then with_up node (without 0 b) else with_down node (without 0 b)

module _ {ℓ} {T V : Type ℓ} (b : KBucket T V) (v : IsSettled b) (node first : Node T V)
    (at_0 : get_elem? b.nodes 0 ≡ some first) (down : is_up first ≡ false) where
  first_connected-without :
      first_connected (remove_at b.nodes 0) ≡ (b.first_connected_pos >>= checked_pred)
  first_connected-without = ground (
    arith,
    Order.first_connected-detach b.nodes 0 at_0 v.ordered,
    Order.is_up_at b.nodes 0 at_0 v.ordered,
    v.first,
  )

  first_pos_ne_zero : b.first_connected_pos ≢ some 0
  first_pos_ne_zero = ground (arith, Order.is_up_at b.nodes 0 at_0 v.ordered, v.first)

  room : suc (length (remove_at b.nodes 0)) ≡ length b.nodes
  room = length-remove_at b.nodes 0 (lt_of_get_elem? b.nodes 0 at_0)

  module _ ⦃vec : ArrayVec max_nodes_per_bucket (Node T V)⦄
      (full : length b.nodes ≡ max_nodes_per_bucket) where
    replace_first-replaced :
        replace_first node b
        ≡ some (replaced node b, some (record { inserted = node.key; evicted = some first }))
    unfolding replace_first
    replace_first-replaced = elim (Option-cases b.first_connected_pos) [
      | inl e ↦ ground (
        arith,
        e,
        first_connected-without,
        vec.remove_lem b.nodes 0,
        at_0,
        room,
        vec.push_lem (remove_at b.nodes 0) node,
      )
      | inr (p, e) ↦ ground (
        arith,
        e,
        first_connected-without,
        vec.remove_lem b.nodes 0,
        at_0,
        room,
        first_pos_ne_zero,
        vec.push_lem (remove_at b.nodes 0) node,
        vec.insert_lem (remove_at b.nodes 0) (p - 1) node,
        Order.first_connected-lt b.nodes (sym v.first ∙ e),
      )
    ]

module _ {ℓ} {T V : Type ℓ} (node : Node T V) (b : KBucket T V) (v : IsValid b)
    (absent : Absent node.key.hash b.nodes) where
  pub replaced-IsValid :
      length b.nodes ≡ max_nodes_per_bucket
      → b.pending ≡ none
      → (counts_incoming node && is_max_incoming b) ≡ false
      → IsValid (replaced node b)
  replaced-IsValid full free low = elim (Bool-cases (is_up node)) [
    | inl up ↦ rw up (record {
      settled =
          with_up-IsSettled node (without 0 b) shorter up smaller gone
            (ground (arith, incoming_count-remove_at b.nodes 0, v.incoming));
      apart = rw free tt;
    })
    | inr down ↦ rw down (record {
      settled = with_down-IsSettled node (without 0 b) shorter down smaller gone;
      apart = subst (λ p. IsApart p (with_down node (without 0 b)).nodes) (sym free') tt;
    })
  ]
    where
      shorter : IsSettled (without 0 b)
      shorter = without-IsSettled 0 b v.settled (omega arith)

      smaller : length (remove_at b.nodes 0) < max_nodes_per_bucket
      smaller = omega (arith, length-remove_at b.nodes 0 (omega arith))

      gone : Absent node.key.hash (remove_at b.nodes 0)
      gone = All-remove_at (λ m. m.key.hash ≢ node.key.hash) b.nodes 0 absent

      free' : (with_down node (without 0 b)).pending ≡ none
      free' = ground arith

  pub Joins-replaced :
      length b.nodes ≡ max_nodes_per_bucket
      → Joins (is_up node) node (without 0 b) (replaced node b)
  Joins-replaced full = elim (Bool-cases (is_up node)) [
    | inl up ↦ rw up (Joins-with_up node (without 0 b) up)
    | inr down ↦
        rw down
          (Joins-with_down node (without 0 b) (without-IsSettled 0 b v.settled (omega arith)) down)
  ]

  pub replaced-SameSettings : SameSettings b (replaced node b)
  replaced-SameSettings = (ground arith, ground arith, ground arith)

  pub replaced-pending : (replaced node b).pending ≡ b.pending
  replaced-pending = ground arith

  module _ ⦃vec : ArrayVec max_nodes_per_bucket (Node T V)⦄ where
    pub apply_full_cases {κ} :
        (P : KBucket T V × Option (AppliedPending T V) → Type κ)
        → length b.nodes ≡ max_nodes_per_bucket
        → (Refused node b → P (b, none))
        → ((first : Node T V)
            → get_elem? b.nodes 0 ≡ some first
            → is_up first ≡ false
            → passes_filter b.filter node.value b.nodes ≡ true
            → (counts_incoming node && is_max_incoming b) ≡ false
            → P (replaced node b, some (record { inserted = node.key; evicted = some first })))
        → (r : KBucket T V × Option (AppliedPending T V)) × (apply_full node b ≡ some r) × P r
    unfolding apply_full
    apply_full_cases P full kept swapped =
        let (first, at_0) = get_elem?_of_lt b.nodes 0 (omega arith) in
        elim (Bool-cases (is_up first)) [
          | inl up ↦ ((b, none), rw (at_0, up), kept (inl (full, (first, at_0, up))))
          | inr down ↦ elim (Bool-cases (passes_filter b.filter node.value b.nodes)) [
            | inr out ↦ ((b, none), rw (at_0, down, out), kept (inr (inl out)))
            | inl in_ ↦ elim (Bool-cases (counts_incoming node && is_max_incoming b)) [
              | inl over ↦ ((b, none), rw (at_0, down, in_, over), kept (inr (inr over)))
              | inr low ↦ (
                (replaced node b, some (record { inserted = node.key; evicted = some first })),
                rw (at_0, down, in_, low)
                    (replace_first-replaced b v.settled node first at_0 down full),
                swapped first at_0 down in_ low,
              )
            ]
          ]
        ]
