-- ===== src/Query/Closest/Valid.antt =====
-- The well-formedness of a `FindNodeQuery` (src/query_pool/peers/closest.rs), and `next`.
use discv.KBucket.Key.{Key, distance}
use discv.Query.Closest.Scan.{Says, scan-Scans}
use discv.Query.Closest.Peers.{waiting_count, skeleton, IsAscending, nearest_new, done_within}
use discv.Query.Closest.Next.{next, progress_after, scan, verdict}
use discv.Prelude.{
  ℕ, zero, suc, ◌+◌, ◌≡◌, true, false, Option, none, some, List, All, ◌⊎◌, arith, ◌≢◌, inl, ◌≤◌,
  inr, ◌<◌, refl,
}
use discv.Query.Closest.{
  Entry, stalled, iterating, waiting_at_capacity, FindNodeQuery, QueryProgress, QueryState,
  at_capacity, Key, QueryPeer,
}
use discv.Uint.{Uint}

pub record IsValid {ℓ} {N : Type ℓ} ⦃u : Uint⦄ (q : FindNodeQuery N) : Type 0 where
  pub counted : q.num_waiting ≡ waiting_count q.closest_peers
  pub ascending : IsAscending (skeleton q.closest_peers)
  pub keyed : All (λ (e : ℕ × Key N). e.0 ≡ distance e.1 q.target_key) (skeleton q.closest_peers)

pub finished_cases :
    (p : QueryProgress) → (p ≡ QueryProgress.finished) ⊎ (p ≢ QueryProgress.finished)
finished_cases (iterating n) = inr (λ e. cc)
finished_cases stalled = inr (λ e. cc)
finished_cases QueryProgress.finished = inl refl

module _ {ℓ} {N : Type ℓ} where
  -- What `next` returns, of the query before and after it.
  abbrev pub Answers : FindNodeQuery N → FindNodeQuery N × QueryState N → Type ℓ
  Answers q (q', QueryState.waiting (some n)) =
      (at_capacity q ≡ false)
      × (q'.num_waiting ≤ q.num_waiting + 1)
      × ((p : QueryPeer N) × (nearest_new q.closest_peers ≡ some p) × (p.key.preimage ≡ n))
  Answers q (q', QueryState.waiting none) =
      (nearest_new q.closest_peers ≡ none) × (0 < q'.num_waiting) × (q'.num_waiting ≤ q.num_waiting)
  Answers q (q', waiting_at_capacity) =
      (at_capacity q ≡ true)
      × (q'.num_waiting ≤ q.num_waiting)
      × (skeleton q'.closest_peers ≡ skeleton q.closest_peers)
  Answers q (q', QueryState.finished) =
      (q'.progress ≡ QueryProgress.finished)
      × ((q' ≡ q)
          ⊎ (done_within q.config.num_results q'.closest_peers ≡ true)
          ⊎ ((nearest_new q.closest_peers ≡ none) × (q'.num_waiting ≡ 0)))

  Answers-of_Says :
      (now : ℕ) (q : FindNodeQuery N) (es : List (Entry N)) (w : ℕ) (r : Option (QueryState N))
      → Says q.config now (at_capacity q) q.closest_peers (some 0) q.num_waiting es w r
      → Answers q (
        record q {
          closest_peers = es;
          num_waiting = w;
          progress = progress_after (verdict w r) q.progress;
        },
        verdict w r,
      )
  Answers-of_Says now q es zero none s = (refl, inr (inr (s.0, refl)))
  Answers-of_Says now q es (suc w) none s = (s.0, omega arith, s.1)
  Answers-of_Says now q es w (some (QueryState.waiting none)) s = absurd s.0
  Answers-of_Says now q es w (some (QueryState.waiting (some n))) s = s
  Answers-of_Says now q es w (some waiting_at_capacity) s = s
  Answers-of_Says now q es w (some QueryState.finished) (le, (c, e, h), sk) =
      (refl, inr (inl (h q.config.num_results (ground arith))))

  next_finished :
      (now : ℕ) (q : FindNodeQuery N)
      → q.progress ≡ QueryProgress.finished
      → next now q ≡ some (q, QueryState.finished)
  unfolding next
  next_finished now q e = ground arith

  next_running :
      (now : ℕ) (q : FindNodeQuery N) (es : List (Entry N)) (w : ℕ) (r : Option (QueryState N))
      → q.progress ≢ QueryProgress.finished
      → scan q.config now (at_capacity q) q.closest_peers (some 0) q.num_waiting ≡ some (es, w, r)
      → next now q
        ≡ some (
          record q {
            closest_peers = es;
            num_waiting = w;
            progress = progress_after (verdict w r) q.progress;
          },
          verdict w r,
        )
  unfolding next
  next_running now q es w r running e = ground arith

module _ {ℓ} {N : Type ℓ} ⦃u : Uint⦄ where
  pub skeleton-IsValid :
      (q q' : FindNodeQuery N)
      → IsValid q
      → q'.target_key ≡ q.target_key
      → skeleton q'.closest_peers ≡ skeleton q.closest_peers
      → q'.num_waiting ≡ waiting_count q'.closest_peers
      → IsValid q'
  skeleton-IsValid q q' v t e c = record {
    counted = c;
    ascending = rw e v.ascending;
    keyed = rw (t, e) v.keyed;
  }

  -- On a valid query `next` returns, `num_waiting` does not fall below 0, and the query stays valid:
  -- `num_waiting` counts the peers that are waited for, the peers stand in order of distance, and
  -- each at the distance of its key. No peer is added or removed. If it returns `waiting` with a
  -- peer, the query was not at capacity, the peer is the nearest that had not been contacted, and at
  -- most one more request is in flight. If it returns `waiting` with none, all peers have been
  -- contacted and one is still waited for. If it returns `waiting_at_capacity`, the query was at
  -- capacity. If it returns `finished`, the query is finished from then on, and it was already, or
  -- `num_results` peers have answered and every nearer one has answered, failed or become
  -- unresponsive, or every peer has been contacted and none is waited for.
  pub next-Answers :
      (now : ℕ) (q : FindNodeQuery N)
      → IsValid q
      → (r : FindNodeQuery N × QueryState N) × (next now q ≡ some r)
        × IsValid r.0
        × (skeleton r.0.closest_peers ≡ skeleton q.closest_peers)
        × Answers q r
  next-Answers now q v = elim (finished_cases q.progress) [
    | inl done ↦ ((q, QueryState.finished), next_finished now q done, v, refl, (done, inl refl))
    | inr running ↦
        let (es, w, r, e, sum, skel, says) =
          scan-Scans q.config now (at_capacity q) q.closest_peers (some 0) q.num_waiting
            (omega (arith, v.counted)) in
        (
          (
            record q {
              closest_peers = es;
              num_waiting = w;
              progress = progress_after (verdict w r) q.progress;
            },
            verdict w r,
          ),
          next_running now q es w r running e,
          skeleton-IsValid q _ v refl skel (omega (arith, sum, v.counted)),
          skel,
          Answers-of_Says now q es w r says,
        )
  ]
