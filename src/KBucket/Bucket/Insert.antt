-- ===== src/KBucket/Bucket/Insert.antt =====
-- `KBucket::insert` (src/kbucket/bucket.rs): it never panics on a valid bucket, keeps it valid, and
-- does on every branch what its documentation says.
use discv.KBucket.Bucket.Keys.{IsApart, Absent, IsApart-insert_at}
use discv.Prelude.{
  ℕ, ◌+◌, ◌≡◌, inl, inr, sym, false, not, none, some, arith, if◌then◌else◌, ◌&&◌, ◌||◌, ◌==◌,
  is_some, length, get_elem?, get_elem?_of_lt, Option-cases, ◌∙◌, refl, insert_at, Bool-cases,
  insert_at-length, Option, Bool, true, List,
}
use discv.ArrayVec.{ArrayVec}
use discv.KBucket.Node.{Node, InsertResult, is_incoming, ConnectionState, connected, disconnected}
use discv.KBucket.Bucket.{
  max_nodes_per_bucket, KBucket, position, is_max_incoming, is_full, passes_filter, holds_key,
  insert, insert_full, insert_connected, insert_disconnected, insert_by_state,
  drop_inserted_pending, PendingNode,
}
use discv.KBucket.Bucket.Order.{first_connected-lt, is_up}
use discv.KBucket.Bucket.Valid.{
  IsSettled, with_up, with_down, IsValid, with_up-IsSettled, with_down-IsSettled, pending-IsSettled,
}

module _ {ℓ} {T V : Type ℓ} where
  abbrev pub as_waiting : ℕ → Node T V → KBucket T V → KBucket T V
  as_waiting now node b = record b {
    pending = some (record { node = node; replace = now + b.pending_timeout });
  }

  -- What `insert` computes on a valid bucket, the panics gone.
  unfoldable pub placed_full : ℕ → Node T V → KBucket T V → KBucket T V × InsertResult T
  placed_full now node b =
      if (elim b.first_connected_pos [ none ↦ false | some p ↦ p == 0 ]) || is_some b.pending
      then (b, InsertResult.full)
      else elim (get_elem? b.nodes 0) [
        | none ↦ (b, InsertResult.full)
        | some first ↦ (as_waiting now node b, InsertResult.pending first.key)
      ]

  unfoldable pub placed :
      ConnectionState → ℕ → Node T V → KBucket T V → KBucket T V × InsertResult T
  unfolding placed_full
  placed connected now node b =
      if is_incoming node.status && is_max_incoming b
      then (b, InsertResult.too_many_incoming)
      else if is_full b.nodes
      then placed_full now node b
      else (with_up node b, InsertResult.inserted)
  placed disconnected now node b =
      if is_full b.nodes then (b, InsertResult.full) else (with_down node b, InsertResult.inserted)

  unfoldable pub after_insert : ℕ → Node T V → KBucket T V → KBucket T V × InsertResult T
  unfolding placed drop_inserted_pending
  after_insert now node b =
      if is_some (position b node.key)
      then (b, InsertResult.node_exists)
      else if not (passes_filter b.filter node.value b.nodes)
      then (b, InsertResult.failed_filter)
      else drop_inserted_pending (holds_key b.pending node.key)
          (placed node.status.state now node b)

module _ {ℓ} {T V : Type ℓ} ⦃vec : ArrayVec max_nodes_per_bucket (Node T V)⦄ where
  insert_full-placed :
      (now : ℕ) (node : Node T V) (b : KBucket T V)
      → length b.nodes ≡ max_nodes_per_bucket
      → insert_full now node b ≡ some (placed_full now node b)
  unfolding insert_full placed_full
  insert_full-placed now node b h =
      let (x, e) = get_elem?_of_lt b.nodes 0 (omega arith) in ground (arith, e)

  insert_by_state-placed :
      (s : ConnectionState) (now : ℕ) (node : Node T V) (b : KBucket T V)
      → IsSettled b
      → insert_by_state s now node b ≡ some (placed s now node b)
  unfolding insert_by_state insert_connected insert_disconnected placed
  insert_by_state-placed connected now node b s =
      ground (arith, insert_full-placed now node b, vec.push_lem b.nodes node)
  insert_by_state-placed disconnected now node b s = elim (Option-cases b.first_connected_pos) [
    | inl none_up ↦ ground (arith, vec.push_lem b.nodes node, none_up)
    | inr (p, at_p) ↦ ground (
      arith,
      vec.insert_lem b.nodes p node,
      at_p,
      first_connected-lt b.nodes (sym s.first ∙ at_p),
    )
  ]

  -- On a valid bucket `insert` does not panic.
  pub insert-after_insert :
      (now : ℕ) (node : Node T V) (b : KBucket T V)
      → IsSettled b
      → insert now node b ≡ some (after_insert now node b)
  unfolding insert after_insert
  insert-after_insert now node b s =
      ground (arith, insert_by_state-placed node.status.state now node b s)

abbrev pub is_inserted {ℓ} : {T : Type ℓ} → InsertResult T → Bool
is_inserted InsertResult.inserted = true
is_inserted _ = false

module _ {ℓ} {T V : Type ℓ} where
  IsApart-after :
      (p : Option (PendingNode T V)) (v : Node T V) (ns : List (Node T V)) (i : ℕ)
      → IsApart p ns
      → IsApart (if holds_key p v.key then none else p) (insert_at ns i v)
  IsApart-after none v ns i a = tt
  IsApart-after (some p) v ns i a = elim (Bool-cases (holds_key (some p) v.key)) [
    | inl held ↦ rw held tt
    | inr free ↦ rw free (IsApart-insert_at (some p) ns i v ((λ e. ground arith), tt) a)
  ]

  drop-IsValid :
      (held : Bool) (b : KBucket T V)
      → IsSettled b
      → IsApart (if held then none else b.pending) b.nodes
      → IsValid (drop_inserted_pending held (b, InsertResult.inserted)).0
  unfolding drop_inserted_pending
  drop-IsValid true b s a = record { settled = pending-IsSettled b none s; apart = a }
  drop-IsValid false b s a = record { settled = s; apart = a }

  -- Only an insertion drops the pending node.
  pub drop-same :
      (held : Bool) (b : KBucket T V) (r : InsertResult T)
      → is_inserted r ≡ false
      → drop_inserted_pending held (b, r) ≡ (b, r)
  unfolding drop_inserted_pending
  drop-same true b InsertResult.inserted h = cc
  drop-same true b _ h = refl
  drop-same false b _ h = refl

  module _ (now : ℕ) (node : Node T V) (b : KBucket T V) (v : IsValid b)
      (absent : Absent node.key.hash b.nodes) where
    pub up-IsValid :
        is_up node ≡ true
        → is_full b.nodes ≡ false
        → (is_incoming node.status && is_max_incoming b) ≡ false
        → IsValid
            (drop_inserted_pending
              (holds_key b.pending node.key)
              (with_up node b, InsertResult.inserted)).0
    up-IsValid up room low =
        drop-IsValid (holds_key b.pending node.key) (with_up node b)
          (with_up-IsSettled node b v.settled up (ground (arith, v.bounded)) absent
            (ground (arith, v.incoming)))
          (rw (← insert_at-length) (IsApart-after b.pending node b.nodes (length b.nodes) v.apart))

    pub down-IsValid :
        is_up node ≡ false
        → is_full b.nodes ≡ false
        → IsValid
            (drop_inserted_pending
              (holds_key b.pending node.key)
              (with_down node b, InsertResult.inserted)).0
    down-IsValid down room = elim (Option-cases b.first_connected_pos) [
      | inl none_up ↦ drop-IsValid (holds_key b.pending node.key) (with_down node b) settled' (
          rw (none_up, with_down)
            (rw (← insert_at-length)
              (IsApart-after b.pending node b.nodes (length b.nodes) v.apart)))
      | inr (p, at_p) ↦
          drop-IsValid (holds_key b.pending node.key) (with_down node b) settled'
            (rw (at_p, with_down) (IsApart-after b.pending node b.nodes p v.apart))
    ]
      where
        settled' : IsSettled (with_down node b)
        settled' = with_down-IsSettled node b v.settled down (ground (arith, v.bounded)) absent

    pub waiting-IsValid : IsValid (as_waiting now node b)
    waiting-IsValid = record { settled = pending-IsSettled b _ v.settled; apart = absent }
