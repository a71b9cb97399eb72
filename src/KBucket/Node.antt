-- ===== src/KBucket/Node.antt =====
-- src/kbucket/bucket.rs, the data: nodes with their status, and the results of the operations.
use discv.Prelude.{ℕ, Bool, true, false, Option, List, ◌&&◌}
use discv.KBucket.Key.{Key}

-- handler/mod.rs
pub data ConnectionDirection : Type 0 where
  incoming outgoing : ConnectionDirection

pub data ConnectionState : Type 0 where
  connected disconnected : ConnectionState

pub record NodeStatus : Type 0 where
  pub direction : ConnectionDirection
  pub state : ConnectionState

abbrev pub state_is_connected : ConnectionState → Bool
state_is_connected connected = true
state_is_connected disconnected = false

abbrev pub direction_is_incoming : ConnectionDirection → Bool
direction_is_incoming outgoing = false
direction_is_incoming incoming = true

abbrev pub is_connected : NodeStatus → Bool
is_connected s = state_is_connected s.state

abbrev pub is_incoming : NodeStatus → Bool
is_incoming s = direction_is_incoming s.direction

-- The derived `PartialEq`.
abbrev pub state_eq : ConnectionState → ConnectionState → Bool
state_eq connected connected = true
state_eq connected disconnected = false
state_eq disconnected connected = false
state_eq disconnected disconnected = true

abbrev pub direction_eq : ConnectionDirection → ConnectionDirection → Bool
direction_eq incoming incoming = true
direction_eq incoming outgoing = false
direction_eq outgoing incoming = false
direction_eq outgoing outgoing = true

abbrev pub status_eq : NodeStatus → NodeStatus → Bool
status_eq s t = direction_eq s.direction t.direction && state_eq s.state t.state

pub record Node {ℓ} (T V : Type ℓ) : Type ℓ where
  pub key : Key T
  pub value : V
  pub status : NodeStatus

pub record PendingNode {ℓ} (T V : Type ℓ) : Type ℓ where
  pub node : Node T V
  pub replace : ℕ

pub record AppliedPending {ℓ} (T V : Type ℓ) : Type ℓ where
  pub inserted : Key T
  pub evicted : Option (Node T V)

-- `bucket::InsertResult`
pub data InsertResult {ℓ} (T : Type ℓ) : Type ℓ where
  inserted : InsertResult T
  pending : Key T → InsertResult T
  failed_filter : InsertResult T
  too_many_incoming : InsertResult T
  full : InsertResult T
  node_exists : InsertResult T

pub data FailureReason : Type 0 where
  too_many_incoming bucket_filter table_filter key_non_existent bucket_full invalid_self_update :
      FailureReason

pub data UpdateResult : Type 0 where
  updated updated_and_promoted updated_pending : UpdateResult
  failed : FailureReason → UpdateResult
  not_modified : UpdateResult

-- `UpdateResult::failed`
abbrev pub has_failed : UpdateResult → Bool
has_failed (failed _) = true
has_failed updated = false
has_failed updated_and_promoted = false
has_failed updated_pending = false
has_failed not_modified = false

-- `Box<dyn Filter<V>>`: the value to be inserted, and the values that are there.
abbrev pub Filter {ℓ} : Type ℓ → Type ℓ
Filter V = V → List V → Bool
