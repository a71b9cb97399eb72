-- ===== src/Query/Closest/Results.antt =====
-- `FindNodeQuery::into_result` (src/query_pool/peers/closest.rs): what a query that has ended
-- returns.
use discv.Prelude.{refl, []}
use discv.Prelude.{
  ℕ, length, List, ◌≤◌, ◌≡◌, take, true, suc, false, arith, ◌⊎◌, ◌∷◌, Bool-cases, ap, inl, inr,
  zero,
}
use discv.Query.Closest.Peers.{done_within}
use discv.Query.Closest.Next.{succeeded_nodes, into_result}
use discv.Query.Closest.{Entry, FindNodeQuery, QueryPeerState}

length-take_of_le {ℓ} : {A : Type ℓ} (n : ℕ) (xs : List A) → n ≤ length xs → length (take n xs) ≡ n
length-take_of_le zero xs h = refl
length-take_of_le (suc n) [] h = absurd (omega arith)
length-take_of_le (suc n) (x ∷ xs) h = ap suc (length-take_of_le n xs (omega arith))

module _ {ℓ} {N : Type ℓ} where
  succeeded_nodes-done :
      (k : ℕ) (es : List (Entry N)) → done_within k es ≡ true → k ≤ length (succeeded_nodes es)
  unfolding done_within succeeded_nodes
  succeeded_nodes-done zero es h = omega arith
  succeeded_nodes-done (suc k) [] h = cc
  succeeded_nodes-done (suc k) ((d, p) ∷ es) h =
      by_state p.state refl (succeeded_nodes-done k es) (succeeded_nodes-done (suc k) es)
    where
      by_state :
          (s : QueryPeerState)
          → p.state ≡ s
          → (done_within k es ≡ true → k ≤ length (succeeded_nodes es))
          → (done_within (suc k) es ≡ true → suc k ≤ length (succeeded_nodes es))
          → suc k ≤ length (succeeded_nodes ((d, p) ∷ es))
      by_state QueryPeerState.succeeded e fewer same = ground (arith, fewer, e, h)
      by_state QueryPeerState.failed e fewer same = ground (arith, same, e, h)
      by_state QueryPeerState.unresponsive e fewer same = ground (arith, same, e, h)
      by_state QueryPeerState.not_contacted e fewer same = ground (arith, e, h)
      by_state (QueryPeerState.waiting t) e fewer same = ground (arith, e, h)

  pub length-done :
      (q : FindNodeQuery N)
      → (done_within q.config.num_results q.closest_peers ≡ false)
        ⊎ (length (into_result q) ≡ q.config.num_results)
  unfolding into_result
  length-done q = elim (Bool-cases (done_within q.config.num_results q.closest_peers)) [
    | inl done ↦ inr (
        length-take_of_le q.config.num_results (succeeded_nodes q.closest_peers)
          (succeeded_nodes-done q.config.num_results q.closest_peers done))
    | inr open_ ↦ inl open_
  ]
