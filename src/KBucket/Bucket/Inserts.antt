-- ===== src/KBucket/Bucket/Inserts.antt =====
-- The contract of `KBucket::insert` (src/kbucket/bucket.rs): every branch, against the two halves.
use discv.KBucket.Bucket.Keys.{Absent, position_in-none}
use discv.KBucket.Bucket.Order.{is_up}
use discv.KBucket.Bucket.Insert.{
  after_insert, placed, placed_full, as_waiting, drop-same, waiting-IsValid, up-IsValid,
  down-IsValid,
}
use discv.KBucket.Bucket.Valid.{downs, ups, with_up, with_down, IsValid}
use discv.KBucket.Bucket.{
  KBucket, InsertResult, ConnectionState, position, counts_incoming, max_nodes_per_bucket,
  passes_filter, is_max_incoming, is_full, holds_key, drop_inserted_pending, is_incoming,
  incoming_count,
}
use discv.Prelude.{
  ℕ, ◌≡◌, refl, true, false, some, none, [], ◌∷◌, ◌++◌, arith, if◌then◌else◌, Bool-cases, Bool,
  length, is_some, ◌<◌, inl, inr, ◌&&◌, get_elem?, ◌⊎◌, ◌≢◌, get_elem?_of_lt, ◌==◌, ◌||◌,
}
use discv.KBucket.Node.{connected, disconnected, Node, InsertResult, ConnectionState, is_incoming}

-- The node joins its half as the most recent one; the other half stays.
abbrev pub Joins {ℓ} : {T V : Type ℓ} → Bool → Node T V → KBucket T V → KBucket T V → Type ℓ
Joins true node b c = (downs c.nodes ≡ downs b.nodes) × (ups c.nodes ≡ ups b.nodes ++ node ∷ [])
Joins false node b c = (downs c.nodes ≡ downs b.nodes ++ node ∷ []) × (ups c.nodes ≡ ups b.nodes)

-- The key is new, and the filter lets the value in.
abbrev pub Admits {ℓ} : {T V : Type ℓ} → Node T V → KBucket T V → Type 0
Admits node b =
    (is_some (position b node.key) ≡ false) × (passes_filter b.filter node.value b.nodes ≡ true)

-- The node would be a connected incoming one too many.
abbrev pub is_over {ℓ} : {T V : Type ℓ} → Node T V → KBucket T V → Bool
is_over node b = counts_incoming node && is_max_incoming b

-- The settings of a bucket, which no operation changes.
abbrev pub SameSettings {ℓ} : {T V : Type ℓ} → KBucket T V → KBucket T V → Type ℓ
SameSettings b c =
    (c.filter ≡ b.filter)
    × (c.max_incoming ≡ b.max_incoming)
    × (c.pending_timeout ≡ b.pending_timeout)

-- What each result of `insert` says of the bucket before and after it.
abbrev pub Inserts {ℓ} :
    {T V : Type ℓ} → ℕ → Node T V → KBucket T V → KBucket T V × InsertResult T → Type ℓ
Inserts now node b (c, InsertResult.inserted) =
    (length b.nodes < max_nodes_per_bucket)
    × Joins (is_up node) node b c
    × (c.pending ≡ (if holds_key b.pending node.key then none else b.pending))
    × Admits node b
    × (is_over node b ≡ false)
    × SameSettings b c
Inserts {T = T} {V = V} now node b (c, InsertResult.pending k) =
    (length b.nodes ≡ max_nodes_per_bucket)
    × (is_up node ≡ true)
    × (b.pending ≡ none)
    × ((first : Node T V) × (get_elem? b.nodes 0 ≡ some first)
        × (is_up first ≡ false)
        × (first.key ≡ k))
    × (c ≡ as_waiting now node b)
    × Admits node b
    × (is_over node b ≡ false)
Inserts now node b (c, InsertResult.full) =
    (length b.nodes ≡ max_nodes_per_bucket)
    × ((is_up node ≡ false) ⊎ (is_some b.pending ≡ true) ⊎ (downs b.nodes ≡ []))
    × (c ≡ b)
    × Admits node b
    × (is_over node b ≡ false)
Inserts now node b (c, InsertResult.too_many_incoming) =
    (counts_incoming node ≡ true)
    × (incoming_count b.nodes ≡ b.max_incoming)
    × (c ≡ b)
    × Admits node b
Inserts now node b (c, InsertResult.failed_filter) =
    (passes_filter b.filter node.value b.nodes ≡ false)
    × (c ≡ b)
    × (is_some (position b node.key) ≡ false)
Inserts now node b (c, InsertResult.node_exists) = (is_some (position b node.key) ≡ true) × (c ≡ b)

module _ {ℓ} {T V : Type ℓ} (now : ℕ) (node : Node T V) (b : KBucket T V) where
  -- By the tests of `insert`: a property of the outcome is shown for each.
  pub after_insert_cases {κ} :
      (P : KBucket T V × InsertResult T → Type κ)
      → (is_some (position b node.key) ≡ true → P (b, InsertResult.node_exists))
      → (is_some (position b node.key) ≡ false
          → passes_filter b.filter node.value b.nodes ≡ false
          → P (b, InsertResult.failed_filter))
      → (Absent node.key.hash b.nodes
          → Admits node b
          → (s : ConnectionState) → node.status.state ≡ s
          → P (drop_inserted_pending (holds_key b.pending node.key) (placed s now node b)))
      → P (after_insert now node b)
  unfolding after_insert
  after_insert_cases P exists filtered passes = elim (Bool-cases (is_some (position b node.key))) [
    | inl here ↦ rw here (exists here)
    | inr new ↦ elim (Bool-cases (passes_filter b.filter node.value b.nodes)) [
      | inl in_ ↦
          rw (new, in_)
            (passes (position_in-none node.key b.nodes new) (new, in_) node.status.state refl)
      | inr out ↦ rw (new, out) (filtered new out)
    ]
  ]

  -- By the tests of the connected and the disconnected branch.
  pub placed_cases {κ} :
      (P : KBucket T V × InsertResult T → Type κ) (s : ConnectionState)
      → node.status.state ≡ s
      → (counts_incoming node ≡ true
          → is_max_incoming b ≡ true
          → P (b, InsertResult.too_many_incoming))
      → (is_full b.nodes ≡ true → is_up node ≡ false → P (b, InsertResult.full))
      → (is_full b.nodes ≡ true
          → is_up node ≡ true
          → (is_incoming node.status && is_max_incoming b) ≡ false
          → P (placed_full now node b))
      → (is_full b.nodes ≡ false
          → is_up node ≡ true
          → (is_incoming node.status && is_max_incoming b) ≡ false
          → P (with_up node b, InsertResult.inserted))
      → (is_full b.nodes ≡ false → is_up node ≡ false → P (with_down node b, InsertResult.inserted))
      → P (placed s now node b)
  unfolding placed
  placed_cases P connected e many full_down full_up up down =
      elim (Bool-cases (is_incoming node.status && is_max_incoming b)) [
        | inl over ↦ rw over (many (ground arith) (ground arith))
        | inr low ↦ elim (Bool-cases (is_full b.nodes)) [
          | inl full ↦ rw (low, full) (full_up full (ground arith) low)
          | inr room ↦ rw (low, room) (up room (ground arith) low)
        ]
      ]
  placed_cases P disconnected e many full_down full_up up down =
      elim (Bool-cases (is_full b.nodes)) [
        | inl full ↦ rw full (full_down full (ground arith))
        | inr room ↦ rw room (down room (ground arith))
      ]

  pub placed_full_cases {κ} :
      (P : KBucket T V × InsertResult T → Type κ)
      → ((b.first_connected_pos ≡ some 0) ⊎ (is_some b.pending ≡ true) → P (b, InsertResult.full))
      → ((first : Node T V)
          → get_elem? b.nodes 0 ≡ some first
          → b.first_connected_pos ≢ some 0
          → b.pending ≡ none
          → P (as_waiting now node b, InsertResult.pending first.key))
      → length b.nodes ≡ max_nodes_per_bucket
      → P (placed_full now node b)
  unfolding placed_full
  placed_full_cases P full waits h =
      let (first, e) = get_elem?_of_lt b.nodes 0 (omega arith) in
      elim (Bool-cases
        ((elim b.first_connected_pos [ none ↦ false | some p ↦ p == 0 ]) || is_some b.pending)) [
          | inl no_room ↦ rw no_room (full (ground arith))
          | inr room ↦ rw (room, e) (waits first e (ground arith) (ground arith))
        ]

module _ {ℓ} {T V : Type ℓ} (now : ℕ) (node : Node T V) (b : KBucket T V) (v : IsValid b) where
  placed_full-IsValid :
      Absent node.key.hash b.nodes
      → (held : Bool) → length b.nodes ≡ max_nodes_per_bucket
      → IsValid (drop_inserted_pending held (placed_full now node b)).0
  placed_full-IsValid absent held h =
      placed_full_cases now node b (λ r. IsValid (drop_inserted_pending held r).0)
        (λ _. rw (drop-same held b InsertResult.full refl) v)
        (λ first _ _ _.
          rw (drop-same held (as_waiting now node b) (InsertResult.pending first.key) refl)
            (waiting-IsValid now node b v absent))
        h

  pub after_insert-IsValid : IsValid (after_insert now node b).0
  after_insert-IsValid =
      after_insert_cases now node b (λ r. IsValid r.0) (λ _. v) (λ _ _. v)
        λ absent _ s e.
          placed_cases now node b
            (λ r. IsValid (drop_inserted_pending (holds_key b.pending node.key) r).0) s e
            (λ _ _.
              rw (drop-same (holds_key b.pending node.key) b InsertResult.too_many_incoming refl) v)
            (λ _ _. rw (drop-same (holds_key b.pending node.key) b InsertResult.full refl) v)
            (λ f _ _. placed_full-IsValid absent (holds_key b.pending node.key) (ground arith))
            (λ room up low. up-IsValid now node b v absent up room low)
            (λ room down. down-IsValid now node b v absent down room)
