-- ===== src/Query/Closest/Next.antt =====
-- src/query_pool/peers/closest.rs, `FindNodeQuery::next` and `into_result`.
use discv.Prelude.{
  ℕ, zero, suc, ◌+◌, Bool, Option, none, some, List, [], ◌∷◌, leb, if◌then◌else◌, take, ◌>>=◌,
}
use discv.Query.Closest.{
  QueryPeerState, not_contacted, unresponsive, failed, succeeded, waiting_at_capacity, Entry,
  QueryState, FindNodeQueryConfig, at_capacity, FindNodeQuery, QueryPeer, QueryProgress, set_state,
  one_less,
}

-- What the loop of `next` leaves: the peers, `num_waiting`, and what it returns if it does return.
abbrev pub Pass {ℓ} : Type ℓ → Type ℓ
Pass N = List (Entry N) × ℕ × Option (QueryState N)

abbrev pub behind {ℓ} : {N : Type ℓ} → Entry N → Option (Pass N) → Option (Pass N)
behind e none = none
behind e (some (es, w, r)) = some (e ∷ es, w, r)

module _ {ℓ} {N : Type ℓ} (config : FindNodeQueryConfig) (now : ℕ) (full : Bool) where
  -- One round of the loop, at the entry of distance `d` and the peer `p`. `rest` is the loop over the
  -- entries `es` behind it, as a function of the counter of results and of `num_waiting`.
  unfoldable pub visit :
      ℕ
      → QueryPeer N
      → QueryPeerState
      → List (Entry N)
      → (Option ℕ → ℕ → Option (Pass N))
      → Option ℕ
      → ℕ
      → Option (Pass N)
  visit d p not_contacted es rest cnt w =
      if full
      then some ((d, p) ∷ es, w, some waiting_at_capacity)
      else some (
        (d, set_state (QueryPeerState.waiting (now + config.peer_timeout)) p) ∷ es,
        w + 1,
        some (QueryState.waiting (some p.key.preimage)),
      )
  visit d p (QueryPeerState.waiting timeout) es rest cnt w =
      if leb timeout now
      then (do w' ← one_less w; behind (d, set_state unresponsive p) (rest cnt w'))
      else if full
      then some ((d, p) ∷ es, w, some waiting_at_capacity)
      else behind (d, p) (rest none w)
  visit d p succeeded es rest none w = behind (d, p) (rest none w)
  visit d p succeeded es rest (some c) w =
      if leb config.num_results (c + 1)
      then some ((d, p) ∷ es, w, some QueryState.finished)
      else behind (d, p) (rest (some (c + 1)) w)
  visit d p failed es rest cnt w = behind (d, p) (rest cnt w)
  visit d p unresponsive es rest cnt w = behind (d, p) (rest cnt w)

  -- The loop over `closest_peers.values_mut()`.
  unfoldable pub scan : List (Entry N) → Option ℕ → ℕ → Option (Pass N)
  unfolding visit
  scan [] cnt w = some ([], w, none)
  scan ((d, p) ∷ es) cnt w = visit d p p.state es (scan es) cnt w

module _ {ℓ} {N : Type ℓ} where
  -- What `next` returns when the loop has not returned.
  abbrev pub verdict : ℕ → Option (QueryState N) → QueryState N
  verdict w (some r) = r
  verdict zero none = QueryState.finished
  verdict (suc w) none = QueryState.waiting none

  -- `progress` is set to `Finished` where `Finished` is returned.
  abbrev pub progress_after : QueryState N → QueryProgress → QueryProgress
  progress_after QueryState.finished p = QueryProgress.finished
  progress_after _ p = p

  unfoldable pub next : ℕ → FindNodeQuery N → Option (FindNodeQuery N × QueryState N)
  unfolding scan at_capacity
  next now q = elim q.progress [
    | QueryProgress.finished ↦ some (q, QueryState.finished)
    | _ ↦ do
      (es, w, r) ← scan q.config now (at_capacity q) q.closest_peers (some 0) q.num_waiting
      some (
        record q {
          closest_peers = es;
          num_waiting = w;
          progress = progress_after (verdict w r) q.progress;
        },
        verdict w r,
      )
  ]

  unfoldable pub succeeded_nodes : List (Entry N) → List N
  succeeded_nodes [] = []
  succeeded_nodes ((d, p) ∷ es) = elim p.state [
    | succeeded ↦ p.key.preimage ∷ succeeded_nodes es
    | _ ↦ succeeded_nodes es
  ]

  unfoldable pub into_result : FindNodeQuery N → List N
  unfolding succeeded_nodes
  into_result q = take q.config.num_results (succeeded_nodes q.closest_peers)
