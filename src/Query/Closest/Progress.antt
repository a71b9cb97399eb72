-- ===== src/Query/Closest/Progress.antt =====
-- `FindNodeQuery::on_success` and `on_failure` (src/query_pool/peers/closest.rs): whether an answer
-- counts as progress, and what a failure changes.
use discv.Query.Closest.Peers.{waiting_count}
use discv.Query.Closest.Valid.{IsValid, finished_cases, skeleton-IsValid}
use discv.Query.Closest.Entries.{waiting_count-update, skeleton-update, find_entry-update}
use discv.Query.Closest.Scan.{one_less_of_pos}
use discv.Query.Closest.Callbacks.{ignores, place}
use discv.KBucket.Key.{Key, IsHash}
use discv.Prelude.{ℕ, ◌≡◌, refl, true, false, some, ◌⊎◌, ◌≢◌, inl, arith, inr, Option-cases}
use discv.Query.Closest.{
  QueryPeerState, not_contacted, unresponsive, succeeded, Key, FindNodeQuery, on_failure, QueryPeer,
  find_entry, QueryProgress, update_entry, set_state,
}
use discv.Uint.{Uint}

module _ {ℓ} {N : Type ℓ} ⦃u : Uint⦄ (into_key : N → Key N) where
  -- What `on_failure` changes.
  module _ (hashes : (n : N) → IsHash (into_key n).hash) where
    abbrev pub Fails : N → FindNodeQuery N → FindNodeQuery N → Type ℓ
    Fails peer q q' =
        ((ignores into_key hashes q peer ≡ true) × (q' ≡ q))
        ⊎ ((ignores into_key hashes q peer ≡ false)
            × (q'.progress ≡ q.progress)
            × ((p : QueryPeer N) × (find_entry (place into_key hashes q peer) q'.closest_peers
                  ≡ some p)
                × (p.state ≡ QueryPeerState.failed)))

    failing :
        (peer : N) (q : FindNodeQuery N) (p : QueryPeer N) (w : ℕ)
        → IsValid q
        → find_entry (place into_key hashes q peer) q.closest_peers ≡ some p
        → ignores into_key hashes q peer ≡ false
        → (let es =
              update_entry
                (place into_key hashes q peer)
                (set_state QueryPeerState.failed)
                q.closest_peers in
            w ≡ waiting_count es
            → on_failure into_key peer q ≡ some (record q { closest_peers = es; num_waiting = w })
            → (q' : FindNodeQuery N) × (on_failure into_key peer q ≡ some q')
              × IsValid q'
              × Fails peer q q')
    failing peer q p w v found takes count e =
        let d = place into_key hashes q peer in
        let f = set_state {N = N} QueryPeerState.failed in
        let es = update_entry d f q.closest_peers in
        (
          record q { closest_peers = es; num_waiting = w },
          e,
          skeleton-IsValid q _ v refl (skeleton-update d f q.closest_peers (λ p. refl)) count,
          inr (
            takes,
            refl,
            (f p, ground (arith, find_entry-update d d f q.closest_peers, found), refl),
          ),
        )

    on_failure_of_state :
        (peer : N) (q : FindNodeQuery N) (p : QueryPeer N) (s : QueryPeerState)
        → IsValid q
        → q.progress ≢ QueryProgress.finished
        → find_entry (place into_key hashes q peer) q.closest_peers ≡ some p
        → p.state ≡ s
        → (q' : FindNodeQuery N) × (on_failure into_key peer q ≡ some q')
          × IsValid q'
          × Fails peer q q'
    unfolding on_failure
    on_failure_of_state peer q p (QueryPeerState.waiting t) v running found st =
        let count =
          waiting_count-update (place into_key hashes q peer) (set_state QueryPeerState.failed)
            q.closest_peers found in
        let (w, less) = one_less_of_pos q.num_waiting (ground (arith, count, v.counted, st)) in
        failing peer q p w v found (ground arith) (ground (arith, count, v.counted, less.1, st))
          (ground (arith, less.0))
    on_failure_of_state peer q p unresponsive v running found st =
        let count =
          waiting_count-update (place into_key hashes q peer) (set_state QueryPeerState.failed)
            q.closest_peers found in
        failing peer q p q.num_waiting v found (ground arith) (ground (arith, count, v.counted, st))
          (ground arith)
    on_failure_of_state peer q p not_contacted v running found st =
        (q, ground arith, v, inl (ground arith, refl))
    on_failure_of_state peer q p QueryPeerState.failed v running found st =
        (q, ground arith, v, inl (ground arith, refl))
    on_failure_of_state peer q p succeeded v running found st =
        (q, ground arith, v, inl (ground arith, refl))

    -- On a valid query whose keys have 256 bits `on_failure` returns, `num_waiting` does not fall
    -- below 0, and the query stays valid. If the query is finished, or it neither waits for the peer
    -- nor has given it up as unresponsive, nothing changes. Otherwise the peer has failed.
    pub on_failure-Fails :
        (peer : N) (q : FindNodeQuery N)
        → IsValid q
        → (q' : FindNodeQuery N) × (on_failure into_key peer q ≡ some q')
          × IsValid q'
          × Fails peer q q'
    unfolding on_failure
    on_failure-Fails peer q v = elim (finished_cases q.progress) [
      | inl done ↦ (q, ground arith, v, inl (ground arith, refl))
      | inr running ↦
          elim (Option-cases (find_entry (place into_key hashes q peer) q.closest_peers)) [
            | inl absent ↦ (q, ground arith, v, inl (ground arith, refl))
            | inr (p, found) ↦ on_failure_of_state peer q p p.state v running found refl
          ]
    ]
