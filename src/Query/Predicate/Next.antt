-- ===== src/Query/Predicate/Next.antt =====
-- src/query_pool/peers/predicate.rs, `PredicateQuery::next` and `into_result`.
use discv.Prelude.{ℕ, ◌+◌, Bool, Option, none, some, List, [], ◌∷◌, leb, if◌then◌else◌, take, ◌>>=◌}
use discv.Query.Closest.{
  QueryPeerState, not_contacted, unresponsive, failed, succeeded, waiting_at_capacity, QueryState,
  FindNodeQueryConfig, QueryProgress, one_less,
}
use discv.Query.Closest.Next.{verdict, progress_after}
use discv.Query.Predicate.{PredicatePeer, PredicateQuery, predicate_at_capacity, to_peer_state}

-- What the loop of `next` leaves: the peers, `num_waiting`, and what it returns if it does return.
abbrev pub PredicatePass {ℓ} : Type ℓ → Type ℓ
PredicatePass N = List (ℕ × PredicatePeer N) × ℕ × Option (QueryState N)

abbrev pub behind_peer {ℓ} :
    {N : Type ℓ} → ℕ × PredicatePeer N → Option (PredicatePass N) → Option (PredicatePass N)
behind_peer e none = none
behind_peer e (some (es, w, r)) = some (e ∷ es, w, r)

module _ {ℓ} {N : Type ℓ} (config : FindNodeQueryConfig) (now : ℕ) (full : Bool) where
  -- One round of the loop, at the entry of distance `d` and the peer `p`. `rest` is the loop over the
  -- entries `es` behind it, as a function of the counter of results and of `num_waiting`.
  unfoldable pub visit_peer :
      ℕ
      → PredicatePeer N
      → QueryPeerState
      → List (ℕ × PredicatePeer N)
      → (Option ℕ → ℕ → Option (PredicatePass N))
      → Option ℕ
      → ℕ
      → Option (PredicatePass N)
  visit_peer d p not_contacted es rest cnt w =
      if full
      then some ((d, p) ∷ es, w, some waiting_at_capacity)
      else some (
        (d, to_peer_state (QueryPeerState.waiting (now + config.peer_timeout)) p) ∷ es,
        w + 1,
        some (QueryState.waiting (some p.key.preimage)),
      )
  visit_peer d p (QueryPeerState.waiting timeout) es rest cnt w =
      if leb timeout now
      then (do w' ← one_less w; behind_peer (d, to_peer_state unresponsive p) (rest cnt w'))
      else if full
      then some ((d, p) ∷ es, w, some waiting_at_capacity)
      else behind_peer (d, p) (rest (if p.predicate_match then none else cnt) w)
  visit_peer d p succeeded es rest none w = behind_peer (d, p) (rest none w)
  visit_peer d p succeeded es rest (some c) w =
      if p.predicate_match
      then (if leb config.num_results (c + 1)
          then some ((d, p) ∷ es, w, some QueryState.finished)
          else behind_peer (d, p) (rest (some (c + 1)) w))
      else behind_peer (d, p) (rest (some c) w)
  visit_peer d p failed es rest cnt w = behind_peer (d, p) (rest cnt w)
  visit_peer d p unresponsive es rest cnt w = behind_peer (d, p) (rest cnt w)

  -- The loop over `closest_peers.values_mut()`.
  unfoldable pub scan_peers : List (ℕ × PredicatePeer N) → Option ℕ → ℕ → Option (PredicatePass N)
  unfolding visit_peer
  scan_peers [] cnt w = some ([], w, none)
  scan_peers ((d, p) ∷ es) cnt w = visit_peer d p p.state es (scan_peers es) cnt w

module _ {ℓ} {N : Type ℓ} {R : Type 0} where
  -- `PredicateQuery::next`
  unfoldable pub predicate_next :
      ℕ → PredicateQuery N R → Option (PredicateQuery N R × QueryState N)
  unfolding scan_peers predicate_at_capacity
  predicate_next now q = elim q.progress [
    | QueryProgress.finished ↦ some (q, QueryState.finished)
    | _ ↦ do
      (es, w, r) ←
          scan_peers q.config now (predicate_at_capacity q) q.closest_peers (some 0) q.num_waiting
      some (
        record q {
          closest_peers = es;
          num_waiting = w;
          progress = progress_after (verdict w r) q.progress;
        },
        verdict w r,
      )
  ]

module _ {ℓ} {N : Type ℓ} where
  unfoldable pub matching_nodes : List (ℕ × PredicatePeer N) → List N
  matching_nodes [] = []
  matching_nodes ((d, p) ∷ es) = elim p.state [
    | succeeded ↦
        if p.predicate_match then p.key.preimage ∷ matching_nodes es else matching_nodes es
    | _ ↦ matching_nodes es
  ]

-- `PredicateQuery::into_result`
unfoldable pub predicate_result {ℓ} : {N : Type ℓ} {R : Type 0} → PredicateQuery N R → List N
unfolding matching_nodes
predicate_result q = take q.config.num_results (matching_nodes q.closest_peers)
