-- ===== src/Query/Predicate.antt =====
-- src/query_pool/peers/predicate.rs, `PredicateQuery`: the lookup that counts only peers whose
-- records satisfy a predicate. Its `QueryProgress`, `QueryPeerState` and configuration are those of
-- `FindNodeQuery`, which src/query_pool/peers/predicate.rs declares again. `PredicateKey` is of
-- src/kbucket.rs.
pub mod Next
pub mod Forget
mod Tests
use discv.Prelude.{
  ℕ, ◌+◌, Bool, false, ◌||◌, Option, none, some, List, [], ◌∷◌, leb, ltb, if◌then◌else◌, length,
  take, ◌>>=◌, true,
}
use discv.Uint.{Uint}
use discv.KBucket.Key.{Key, distance}
use discv.Query.Closest.{
  FindNodeQueryConfig, QueryProgress, QueryPeerState, not_contacted, unresponsive, failed,
  succeeded, stalled, iterating, one_less, find_entry, insert_entry, or_insert, update_entry,
  is_first, next_progress,
}

pub record PredicatePeer {ℓ} (N : Type ℓ) : Type ℓ where
  pub key : Key N
  pub peers_returned : ℕ
  pub predicate_match : Bool
  pub state : QueryPeerState

pub record PredicateKey {ℓ} (N : Type ℓ) : Type ℓ where
  pub key : Key N
  pub predicate_match : Bool

pub record PredicateQuery {ℓ} (N : Type ℓ) (R : Type 0) : Type ℓ where
  pub target_key : Key N
  pub progress : QueryProgress
  pub closest_peers : List (ℕ × PredicatePeer N)
  pub num_waiting : ℕ
  pub predicate : R → Bool
  pub config : FindNodeQueryConfig

-- `QueryPeer::new`, in the state in which every peer starts
abbrev pub new_predicate_peer {ℓ} : {N : Type ℓ} → Key N → Bool → PredicatePeer N
new_predicate_peer key predicate_match = record {
  key = key;
  peers_returned = 0;
  predicate_match = predicate_match;
  state = not_contacted;
}

abbrev pub to_peer_state {ℓ} : {N : Type ℓ} → QueryPeerState → PredicatePeer N → PredicatePeer N
to_peer_state s p = record p { state = s }

module _ {ℓ} {N : Type ℓ} ⦃u : Uint⦄ where
  unfoldable pub collect_matches :
      Key N → List (PredicateKey N) → List (ℕ × PredicatePeer N) → List (ℕ × PredicatePeer N)
  unfolding distance insert_entry
  collect_matches target [] es = es
  collect_matches target (k ∷ ks) es =
      collect_matches target ks
        (insert_entry (distance k.key target) (new_predicate_peer k.key k.predicate_match) es)

module _ {ℓ} {N : Type ℓ} {R : Type 0} ⦃u : Uint⦄ where
  -- `PredicateQuery::with_config`
  unfoldable pub predicate_with_config :
      FindNodeQueryConfig → Key N → List (PredicateKey N) → (R → Bool) → PredicateQuery N R
  unfolding collect_matches
  predicate_with_config config target_key known_closest_peers predicate = record {
    target_key = target_key;
    progress = iterating 0;
    closest_peers = collect_matches target_key (take config.num_results known_closest_peers) [];
    num_waiting = 0;
    predicate = predicate;
    config = config;
  }

-- `PredicateQuery::at_capacity`
unfoldable pub predicate_at_capacity {ℓ} : {N : Type ℓ} {R : Type 0} → PredicateQuery N R → Bool
predicate_at_capacity q = elim q.progress [
  | stalled ↦ leb q.config.num_results q.num_waiting
  | iterating _ ↦ leb q.config.parallelism q.num_waiting
  | QueryProgress.finished ↦ true
]

abbrev pub peer_answered {ℓ} : {N : Type ℓ} → ℕ → PredicatePeer N → PredicatePeer N
peer_answered returned p = record p {
  peers_returned = p.peers_returned + returned;
  state = succeeded;
}

module _ {ℓ} {N : Type ℓ} where
  -- The first part of `on_success`: the peer is marked, unless the query does not wait for it.
  unfoldable pub mark_answered :
      ℕ → ℕ → List (ℕ × PredicatePeer N) → ℕ → Option (Option (List (ℕ × PredicatePeer N) × ℕ))
  unfolding find_entry update_entry
  mark_answered d returned es w = elim (find_entry d es) [
    | none ↦ some none
    | some p ↦ elim p.state [
      | QueryPeerState.waiting _ ↦ do
        w' ← one_less w
        some (some (update_entry d (peer_answered returned) es, w'))
      | unresponsive ↦ some (some (update_entry d (peer_answered returned) es, w))
      | not_contacted ↦ some none
      | failed ↦ some none
      | succeeded ↦ some none
    ]
  ]

-- The callbacks. `TNodeId: Into<Key<TNodeId>>` and `TResult: Into<TNodeId>` are the arguments
-- `into_key` and `into_id`.
module _ {ℓ} {N : Type ℓ} {R : Type 0} ⦃u : Uint⦄ (into_key : N → Key N) (into_id : R → N) where
  -- The loop over `closer_peers`
  unfoldable pub incorporate_matches :
      Key N
      → (R → Bool)
      → Bool
      → List R
      → List (ℕ × PredicatePeer N)
      → Bool
      → List (ℕ × PredicatePeer N) × Bool
  unfolding distance or_insert
  incorporate_matches target predicate few [] es progress = (es, progress)
  incorporate_matches target predicate few (r ∷ rs) es progress =
      let key = into_key (into_id r) in
      let d = distance target key in
      let es' = or_insert d (new_predicate_peer key (predicate r)) es in
      incorporate_matches target predicate few rs es' (is_first d es' || few)

  -- `PredicateQuery::on_success`
  unfoldable pub predicate_on_success :
      N → List R → PredicateQuery N R → Option (PredicateQuery N R)
  unfolding mark_answered incorporate_matches next_progress
  predicate_on_success node_id closer_peers q = elim q.progress [
    | QueryProgress.finished ↦ some q
    | _ ↦ do
      marked ←
          mark_answered (distance (into_key node_id) q.target_key) (length closer_peers)
            q.closest_peers q.num_waiting
      elim marked [
        | none ↦ some q
        | some (es, w) ↦
            let (es', progress) =
              incorporate_matches q.target_key q.predicate (ltb (length es) q.config.num_results)
                closer_peers es false in
            some (record q {
              closest_peers = es';
              num_waiting = w;
              progress = next_progress q.config progress q.progress;
            })
      ]
  ]

module _ {ℓ} {N : Type ℓ} {R : Type 0} ⦃u : Uint⦄ (into_key : N → Key N) where
  -- `PredicateQuery::on_failure`
  unfoldable pub predicate_on_failure : N → PredicateQuery N R → Option (PredicateQuery N R)
  unfolding find_entry update_entry distance
  predicate_on_failure peer q =
      let d = distance (into_key peer) q.target_key in
      let failed_peers = update_entry d (to_peer_state failed) q.closest_peers in
      elim q.progress [
        | QueryProgress.finished ↦ some q
        | _ ↦ elim (find_entry d q.closest_peers) [
          | none ↦ some q
          | some p ↦ elim p.state [
            | QueryPeerState.waiting _ ↦ do
              w ← one_less q.num_waiting
              some (record q { closest_peers = failed_peers; num_waiting = w })
            | _ ↦ some q
          ]
        ]
      ]
