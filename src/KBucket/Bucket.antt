-- ===== src/KBucket/Bucket.antt =====
-- src/kbucket/bucket.rs, `KBucket`. `Instant::now()` is the argument `now`; a duration and an instant
-- are numbers of one unit. A method returns the new bucket, and `none` where it panics: a call of
-- `ArrayVec` out of range, `self.nodes[0]` of no node, an `unreachable!`.
pub mod Update
pub mod Order
pub mod Keys
pub mod Valid
pub mod Insert
pub mod Halves
pub mod Inserts
pub mod Contract
pub mod Apply
pub mod Applies
pub mod Statuses
pub mod Writes
pub mod Values
pub mod Holding
mod Tests
use discv.Prelude.{
  ℕ, zero, suc, ◌+◌, ◌-◌, Bool, true, false, not, ◌&&◌, ◌||◌, Option, none, some, List, [], ◌∷◌,
  map, ltb, leb, ◌==◌, if◌then◌else◌, is_some, or_else, length, get_elem?, ◌>>=◌,
}
use discv.ArrayVec.{ArrayVec}
use discv.KBucket.Key.{Key, key_eq}
use discv.KBucket.Node.{
  ConnectionDirection, ConnectionState, connected, disconnected, NodeStatus, is_connected,
  is_incoming, Node, PendingNode, InsertResult, Filter,
}
use mathlib.Core.Option

abbrev pub max_nodes_per_bucket : ℕ
max_nodes_per_bucket = 16

pub record KBucket {ℓ} (T V : Type ℓ) : Type ℓ where
  pub nodes : List (Node T V)
  pub first_connected_pos : Option ℕ
  pub pending : Option (PendingNode T V)
  pub pending_timeout : ℕ
  pub filter : Option (Filter V)
  pub max_incoming : ℕ

-- `checked_sub(1)`
abbrev pub checked_pred : ℕ → Option ℕ
checked_pred zero = none
checked_pred (suc p) = some p

module _ {ℓ} {T V : Type ℓ} where
  unfoldable pub new : ℕ → ℕ → Option (Filter V) → KBucket T V
  new pending_timeout max_incoming filter = record {
    nodes = [];
    first_connected_pos = none;
    pending = none;
    pending_timeout = pending_timeout;
    filter = filter;
    max_incoming = max_incoming;
  }

  -- `iter().position(|p| &p.key == key)`
  unfoldable pub position_in : Key T → List (Node T V) → Option ℕ
  position_in key [] = none
  position_in key (n ∷ ns) =
      if key_eq n.key key then some 0 else Option.map suc (position_in key ns)

  abbrev pub position : KBucket T V → Key T → Option ℕ
  position b key = position_in key b.nodes

  -- `iter().find(|p| &p.key == key)`
  unfoldable pub find_in : Key T → List (Node T V) → Option (Node T V)
  find_in key [] = none
  find_in key (n ∷ ns) = if key_eq n.key key then some n else find_in key ns

  abbrev pub get : KBucket T V → Key T → Option (Node T V)
  get b key = find_in key b.nodes

  abbrev pub counts_incoming : Node T V → Bool
  counts_incoming n = is_connected n.status && is_incoming n.status

  -- `iter().filter(…).count()` of `is_max_incoming`
  unfoldable pub incoming_count : List (Node T V) → ℕ
  incoming_count [] = 0
  incoming_count (n ∷ ns) = if counts_incoming n then suc (incoming_count ns) else incoming_count ns

  abbrev pub is_max_incoming : KBucket T V → Bool
  is_max_incoming b = leb b.max_incoming (incoming_count b.nodes)

  -- `ArrayVec::is_full`
  abbrev pub is_full : List (Node T V) → Bool
  is_full ns = length ns == max_nodes_per_bucket

  abbrev pub values : List (Node T V) → List V
  values = map (λ n. n.value)

  -- The bucket filter, if there is one, lets the value in beside those that are there.
  unfoldable pub passes_filter : Option (Filter V) → V → List (Node T V) → Bool
  passes_filter none v ns = true
  passes_filter (some f) v ns = f v (values ns)

  unfoldable pub num_entries : KBucket T V → ℕ
  num_entries b = length b.nodes

  -- `map_or(0, |i| self.nodes.len() - i)`; the subtraction would panic below 0
  unfoldable pub num_connected : KBucket T V → Option ℕ
  num_connected b = elim b.first_connected_pos [
    | none ↦ some 0
    | some i ↦ if leb i (length b.nodes) then some (length b.nodes - i) else none
  ]

  unfoldable pub num_disconnected : KBucket T V → Option ℕ
  unfolding num_connected
  num_disconnected b =
      num_connected b >>= λ c. if leb c (length b.nodes) then some (length b.nodes - c) else none

  unfoldable pub status : KBucket T V → ℕ → NodeStatus
  status b pos = elim (get_elem? b.nodes pos) [
    | some n ↦ n.status
    | none ↦ record { direction = ConnectionDirection.incoming; state = disconnected }
  ]

  abbrev pub holds_key : Option (PendingNode T V) → Key T → Bool
  holds_key none key = false
  holds_key (some p) key = key_eq p.node.key key

  unfoldable pub as_pending : KBucket T V → Key T → Option (PendingNode T V)
  as_pending b key = if holds_key b.pending key then b.pending else none

  unfoldable pub update_pending : NodeStatus → KBucket T V → KBucket T V
  update_pending s b = record b {
    pending =
        Option.map {A = PendingNode T V} (λ p. record p { node = record p.node { status = s } })
          b.pending;
  }

  -- Called after the removal at `removed_pos`.
  unfoldable pub update_first_connected_pos_for_removal : ℕ → KBucket T V → KBucket T V
  update_first_connected_pos_for_removal removed_pos b = record b {
    first_connected_pos = b.first_connected_pos >>= λ fcp.
        if ltb removed_pos fcp
        then some (fcp - 1)
        else if ltb fcp (length b.nodes)
        then some fcp
        else none;
  }

abbrev pub Outcome {ℓ} : Type ℓ → Type ℓ → Type ℓ
Outcome T V = Option (KBucket T V × InsertResult T)

module _ {ℓ} {T V : Type ℓ} where
  -- The end of `insert`: the pending node is dropped if it is the node just inserted.
  unfoldable pub drop_inserted_pending :
      Bool → KBucket T V × InsertResult T → KBucket T V × InsertResult T
  drop_inserted_pending true (b, InsertResult.inserted) =
      (record b { pending = none }, InsertResult.inserted)
  drop_inserted_pending _ r = r

module _ {ℓ} {T V : Type ℓ} ⦃vec : ArrayVec max_nodes_per_bucket (Node T V)⦄ where
  -- The full bucket of `insert`, for a connected node.
  unfoldable pub insert_full : ℕ → Node T V → KBucket T V → Outcome T V
  insert_full now node b =
      if (elim b.first_connected_pos [ none ↦ false | some p ↦ p == 0 ]) || is_some b.pending
      then some (b, InsertResult.full)
      else do
        first ← get_elem? b.nodes 0
        some (
          record b { pending = some (record { node = node; replace = now + b.pending_timeout }) },
          InsertResult.pending first.key,
        )

  unfoldable pub insert_connected : ℕ → Node T V → KBucket T V → Outcome T V
  unfolding insert_full
  insert_connected now node b =
      if is_incoming node.status && is_max_incoming b
      then some (b, InsertResult.too_many_incoming)
      else if is_full b.nodes
      then insert_full now node b
      else do
        ns ← vec.push b.nodes node
        some (
          record b {
            first_connected_pos = or_else b.first_connected_pos (some (length b.nodes));
            nodes = ns;
          },
          InsertResult.inserted,
        )

  unfoldable pub insert_disconnected : Node T V → KBucket T V → Outcome T V
  insert_disconnected node b =
      if is_full b.nodes then some (b, InsertResult.full) else elim b.first_connected_pos [
        | some p ↦ do
          ns ← vec.insert b.nodes p node
          some (record b { nodes = ns; first_connected_pos = some (p + 1) }, InsertResult.inserted)
        | none ↦ do
          ns ← vec.push b.nodes node
          some (record b { nodes = ns }, InsertResult.inserted)
      ]

  unfoldable pub insert_by_state : ConnectionState → ℕ → Node T V → KBucket T V → Outcome T V
  unfolding insert_connected insert_disconnected
  insert_by_state connected now node b = insert_connected now node b
  insert_by_state disconnected now node b = insert_disconnected node b

  unfoldable pub insert : ℕ → Node T V → KBucket T V → Outcome T V
  unfolding position_in incoming_count passes_filter insert_by_state drop_inserted_pending
  insert now node b =
      if is_some (position b node.key)
      then some (b, InsertResult.node_exists)
      else if not (passes_filter b.filter node.value b.nodes)
      then some (b, InsertResult.failed_filter)
      else do
        r ← insert_by_state node.status.state now node b
        some (drop_inserted_pending (holds_key b.pending node.key) r)
