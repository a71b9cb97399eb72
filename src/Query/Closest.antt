-- ===== src/Query/Closest.antt =====
-- src/query_pool/peers/closest.rs, `FindNodeQuery`, and `QueryState` of src/query_pool/peers.rs. The
-- `BTreeMap` from distances to peers is the list of its entries, nearest first. Instants are numbers,
-- and `now` is an argument as in the source. A method returns `none` where it panics: `num_waiting`
-- falls below 0 (`debug_assert!`).
pub mod Next
pub mod Peers
pub mod Scan
pub mod Valid
pub mod Entries
pub mod Callbacks
pub mod Progress
pub mod Start
pub mod Results
pub mod Nearest
mod Tests
use discv.Prelude.{
  ℕ, zero, suc, ◌+◌, Bool, true, false, ◌||◌, Option, none, some, List, [], ◌∷◌, leb, ltb, ◌==◌,
  if◌then◌else◌, length, take, ◌>>=◌,
}
use discv.Uint.{Uint}
use discv.KBucket.Key.{Key, distance}

pub data QueryState {ℓ} (N : Type ℓ) : Type ℓ where
  waiting : Option N → QueryState N
  waiting_at_capacity : QueryState N
  finished : QueryState N

pub record FindNodeQueryConfig : Type 0 where
  pub parallelism : ℕ
  pub num_results : ℕ
  pub peer_timeout : ℕ

pub data QueryProgress : Type 0 where
  iterating : ℕ → QueryProgress
  stalled : QueryProgress
  finished : QueryProgress

pub data QueryPeerState : Type 0 where
  not_contacted : QueryPeerState
  waiting : ℕ → QueryPeerState
  unresponsive failed succeeded : QueryPeerState

pub record QueryPeer {ℓ} (N : Type ℓ) : Type ℓ where
  pub key : Key N
  pub peers_returned : ℕ
  pub state : QueryPeerState

-- An entry of the map: the distance to the target, and the peer.
abbrev pub Entry {ℓ} : Type ℓ → Type ℓ
Entry N = ℕ × QueryPeer N

pub record FindNodeQuery {ℓ} (N : Type ℓ) : Type ℓ where
  pub target_key : Key N
  pub progress : QueryProgress
  pub closest_peers : List (Entry N)
  pub num_waiting : ℕ
  pub config : FindNodeQueryConfig

-- `num_waiting -= 1`
abbrev pub one_less : ℕ → Option ℕ
one_less zero = none
one_less (suc w) = some w

abbrev pub set_state {ℓ} : {N : Type ℓ} → QueryPeerState → QueryPeer N → QueryPeer N
set_state s p = record p { state = s }

-- `BTreeMap`
module _ {ℓ} {P : Type ℓ} where
  unfoldable pub find_entry : ℕ → List (ℕ × P) → Option (P)
  find_entry d [] = none
  find_entry d ((c, p) ∷ es) = if c == d then some p else find_entry d es

  -- `insert`: a peer that is there is overwritten.
  unfoldable pub insert_entry : ℕ → P → List (ℕ × P) → List (ℕ × P)
  insert_entry d p [] = (d, p) ∷ []
  insert_entry d p ((c, q) ∷ es) =
      if ltb d c
      then (d, p) ∷ (c, q) ∷ es
      else if c == d
      then (d, p) ∷ es
      else (c, q) ∷ insert_entry d p es

  -- `entry(d).or_insert(p)`: a peer that is there stays.
  unfoldable pub or_insert : ℕ → P → List (ℕ × P) → List (ℕ × P)
  unfolding find_entry insert_entry
  or_insert d p es = elim (find_entry d es) [ some _ ↦ es | none ↦ insert_entry d p es ]

  -- `get_mut` of an entry that is there
  unfoldable pub update_entry : ℕ → (P → P) → List (ℕ × P) → List (ℕ × P)
  update_entry d f [] = []
  update_entry d f ((c, p) ∷ es) = if c == d then (c, f p) ∷ es else (c, p) ∷ update_entry d f es

  -- `keys().next() == Some(&d)`
  abbrev pub is_first : ℕ → List (ℕ × P) → Bool
  is_first d [] = false
  is_first d ((c, p) ∷ es) = c == d

abbrev pub new_peer {ℓ} : {N : Type ℓ} → Key N → QueryPeer N
new_peer key = record { key = key; peers_returned = 0; state = not_contacted }

module _ {ℓ} {N : Type ℓ} ⦃u : Uint⦄ where
  -- `collect()` of the known peers: a later peer of the same distance overwrites.
  unfoldable pub collect_peers : Key N → List (Key N) → List (Entry N) → List (Entry N)
  unfolding distance insert_entry
  collect_peers target [] es = es
  collect_peers target (k ∷ ks) es =
      collect_peers target ks (insert_entry (distance k target) (new_peer k) es)

  unfoldable pub with_config : FindNodeQueryConfig → Key N → List (Key N) → FindNodeQuery N
  unfolding collect_peers
  with_config config target_key known_closest_peers = record {
    target_key = target_key;
    progress = QueryProgress.iterating 0;
    closest_peers = collect_peers target_key (take config.num_results known_closest_peers) [];
    num_waiting = 0;
    config = config;
  }

-- `at_capacity`
unfoldable pub at_capacity {ℓ} : {N : Type ℓ} → FindNodeQuery N → Bool
at_capacity q = elim q.progress [
  | stalled ↦ leb q.config.num_results q.num_waiting
  | iterating _ ↦ leb q.config.parallelism q.num_waiting
  | QueryProgress.finished ↦ true
]

-- The peer that has answered.
abbrev pub answered {ℓ} : {N : Type ℓ} → ℕ → QueryPeer N → QueryPeer N
answered returned p = record p { peers_returned = p.peers_returned + returned; state = succeeded }

module _ {ℓ} {N : Type ℓ} where
  -- The first part of `on_success`: the peer is marked, unless the query does not wait for it.
  unfoldable pub mark_succeeded : ℕ → ℕ → List (Entry N) → ℕ → Option (Option (List (Entry N) × ℕ))
  unfolding find_entry update_entry
  mark_succeeded d returned es w = elim (find_entry d es) [
    | none ↦ some none
    | some p ↦ elim p.state [
      | QueryPeerState.waiting _ ↦ do
        w' ← one_less w
        some (some (update_entry d (answered returned) es, w'))
      | unresponsive ↦ some (some (update_entry d (answered returned) es, w))
      | not_contacted ↦ some none
      | failed ↦ some none
      | succeeded ↦ some none
    ]
  ]

-- The last `match` of `on_success`.
unfoldable pub next_progress : FindNodeQueryConfig → Bool → QueryProgress → QueryProgress
next_progress config progress (iterating n) =
    let no_progress = if progress then 0 else n + 1 in
    if leb config.parallelism no_progress then stalled else iterating no_progress
next_progress config progress stalled = if progress then iterating 0 else stalled
next_progress config progress QueryProgress.finished = QueryProgress.finished

-- The two callbacks. `TNodeId: Into<Key<TNodeId>>` is the argument `into_key`.
module _ {ℓ} {N : Type ℓ} ⦃u : Uint⦄ (into_key : N → Key N) where
  -- The loop over `closer_peers`: the flag `progress` is set anew in each round.
  unfoldable pub incorporate : Key N → Bool → List N → List (Entry N) → Bool → List (Entry N) × Bool
  unfolding distance or_insert
  incorporate target few [] es progress = (es, progress)
  incorporate target few (n ∷ ns) es progress =
      let d = distance target (into_key n) in
      let es' = or_insert d (new_peer (into_key n)) es in
      incorporate target few ns es' (is_first d es' || few)

  unfoldable pub on_success : N → List N → FindNodeQuery N → Option (FindNodeQuery N)
  unfolding mark_succeeded incorporate next_progress
  on_success node_id closer_peers q = elim q.progress [
    | QueryProgress.finished ↦ some q
    | _ ↦ do
      marked ←
          mark_succeeded (distance (into_key node_id) q.target_key) (length closer_peers)
            q.closest_peers q.num_waiting
      elim marked [
        | none ↦ some q
        | some (es, w) ↦
            let (es', progress) =
              incorporate q.target_key (ltb (length es) q.config.num_results) closer_peers es
                false in
            some (record q {
              closest_peers = es';
              num_waiting = w;
              progress = next_progress q.config progress q.progress;
            })
      ]
  ]

  unfoldable pub on_failure : N → FindNodeQuery N → Option (FindNodeQuery N)
  unfolding find_entry update_entry distance
  on_failure peer q =
      let d = distance (into_key peer) q.target_key in
      let failed_peers = update_entry d (set_state failed) q.closest_peers in
      elim q.progress [
        | QueryProgress.finished ↦ some q
        | _ ↦ elim (find_entry d q.closest_peers) [
          | none ↦ some q
          | some p ↦ elim p.state [
            | QueryPeerState.waiting _ ↦ do
              w ← one_less q.num_waiting
              some (record q { closest_peers = failed_peers; num_waiting = w })
            | unresponsive ↦ some (record q { closest_peers = failed_peers })
            | _ ↦ some q
          ]
        ]
      ]
