-- ===== src/Query/Closest/Callbacks.antt =====
-- `FindNodeQuery::on_success` and `on_failure` (src/query_pool/peers/closest.rs): total on valid
-- queries, and what they change.
use discv.Query.Closest.Valid.{IsValid, finished_cases}
use discv.Query.Closest.Scan.{one_less_of_pos}
use discv.KBucket.Key.Metric.{distance_comm}
use discv.Query.Closest.Entries.{
  Keyed, find_entry-or_insert, IsAscending-insert, Keyed-insert, waiting_count-insert,
  waiting_count-update, skeleton-update, find_entry-update,
}
use discv.Query.Closest.Peers.{IsAscending, skeleton, waiting_count}
use discv.KBucket.Key.{Key, IsHash, distance}
use discv.Prelude.{
  ℕ, ◌≡◌, refl, Bool, true, false, Option, none, some, List, [], ◌∷◌, All, is_some, arith,
  Option-cases, inl, inr, ◌∙◌, ◌⊎◌, ltb, ◌≢◌, length, not, sym,
}
use discv.Query.Closest.{
  QueryPeerState, unresponsive, Entry, QueryPeer, Key, FindNodeQuery, or_insert, incorporate,
  find_entry, new_peer, mark_succeeded, update_entry, answered, succeeded, on_success,
  not_contacted, QueryProgress, next_progress,
}
use discv.Uint.{Uint}

-- The query waits for an answer of the peer, or would still take one.
abbrev pub expects {ℓ} : {N : Type ℓ} → Option (QueryPeer N) → Bool
expects none = false
expects (some p) = elim p.state [
  | QueryPeerState.waiting _ ↦ true
  | unresponsive ↦ true
  | _ ↦ false
]

module _ {ℓ} {N : Type ℓ} ⦃u : Uint⦄ (into_key : N → Key N)
    (hashes : (n : N) → IsHash (into_key n).hash) where
  abbrev pub place : FindNodeQuery N → N → ℕ
  place q n = distance (into_key n) q.target_key

  abbrev pub Known : Key N → List (Entry N) → N → Type 0
  Known target es n = is_some (find_entry (distance target (into_key n)) es) ≡ true

  module _ (target : Key N) (hash : IsHash target.hash) where
    or_insert-facts :
        (n : N) (es : List (Entry N))
        → IsAscending (skeleton es)
        → Keyed target (skeleton es)
        → let es' = or_insert (distance target (into_key n)) (new_peer (into_key n)) es in
          IsAscending (skeleton es')
          × Keyed target (skeleton es')
          × (waiting_count es' ≡ waiting_count es)
    unfolding or_insert
    or_insert-facts n es a k = elim (Option-cases (find_entry d es)) [
      | inl new ↦
          rw (new, or_insert)
            (
              IsAscending-insert d (new_peer (into_key n)) es a,
              Keyed-insert target d (new_peer (into_key n)) es
                  (distance_comm target (into_key n) hash (hashes n)) k,
              waiting_count-insert d (new_peer (into_key n)) es refl new,
            )
      | inr (p, old) ↦ rw (old, or_insert) (a, k, refl)
    ]
      where
        d : ℕ
        d = distance target (into_key n)

    incorporate-facts :
        (few : Bool) (ns : List N) (es : List (Entry N)) (progress : Bool)
        → IsAscending (skeleton es)
        → Keyed target (skeleton es)
        → let r = incorporate into_key target few ns es progress in
          IsAscending (skeleton r.0)
          × Keyed target (skeleton r.0)
          × (waiting_count r.0 ≡ waiting_count es)
    unfolding incorporate
    incorporate-facts few [] es progress a k = (a, k, refl)
    incorporate-facts few (n ∷ ns) es progress a k =
        let es' = or_insert (distance target (into_key n)) (new_peer (into_key n)) es in
        let (a', k', c') = or_insert-facts n es a k in
        let (a'', k'', c'') = incorporate-facts few ns es' _ a' k' in (a'', k'', c'' ∙ c')

    -- A peer that is known stays as it is.
    pub incorporate-keeps :
        (few : Bool) (ns : List N) (es : List (Entry N)) (progress : Bool) (c : ℕ) {p : QueryPeer N}
        → find_entry c es ≡ some p
        → find_entry c (incorporate into_key target few ns es progress).0 ≡ some p
    unfolding incorporate
    incorporate-keeps few [] es progress c e = e
    incorporate-keeps few (n ∷ ns) es progress c e = incorporate-keeps few ns _ _ c (
        ground (
          arith,
          find_entry-or_insert c (distance target (into_key n)) (new_peer (into_key n)) es,
          e,
        ))

    -- Every reported peer is known afterwards.
    incorporate-Known :
        (few : Bool) (ns : List N) (es : List (Entry N)) (progress : Bool)
        → All (Known target (incorporate into_key target few ns es progress).0) ns
    unfolding incorporate
    incorporate-Known few [] es progress = tt
    incorporate-Known few (n ∷ ns) es progress =
        let d = distance target (into_key n) in
        let es' = or_insert d (new_peer (into_key n)) es in
        let (p, e) = known d (new_peer (into_key n)) es in
        (rw (incorporate-keeps few ns es' _ d e), incorporate-Known few ns es' _)
      where
        known :
            (d : ℕ) (q : QueryPeer N) (es : List (Entry N))
            → (p : QueryPeer N) × (find_entry d (or_insert d q es) ≡ some p)
        known d q es = elim (Option-cases (find_entry d es)) [
          | inl new ↦ (q, ground (arith, find_entry-or_insert d d q es))
          | inr (p, old) ↦ (p, ground (arith, find_entry-or_insert d d q es))
        ]

module _ {ℓ} {N : Type ℓ} where
  pub mark-Marks :
      (d returned : ℕ) (es : List (Entry N)) (w : ℕ)
      → w ≡ waiting_count es
      → ((expects (find_entry d es) ≡ false) × (mark_succeeded d returned es w ≡ some none))
        ⊎ ((p : QueryPeer N) × (w' : ℕ) × (find_entry d es ≡ some p)
            × (expects (find_entry d es) ≡ true)
            × (mark_succeeded d returned es w
                ≡ some (some (update_entry d (answered returned) es, w')))
            × (w' ≡ waiting_count (update_entry d (answered returned) es)))
  unfolding mark_succeeded
  mark-Marks d returned es w c = elim (Option-cases (find_entry d es)) [
    | inl e ↦ inl (rw (e, expects), rw (e, mark_succeeded))
    | inr (p, e) ↦ by_state p e p.state refl
  ]
    where
      by_state :
          (p : QueryPeer N)
          → find_entry d es ≡ some p
          → (s : QueryPeerState) → p.state ≡ s
          → ((expects (find_entry d es) ≡ false) × (mark_succeeded d returned es w ≡ some none))
            ⊎ ((p : QueryPeer N) × (w' : ℕ) × (find_entry d es ≡ some p)
                × (expects (find_entry d es) ≡ true)
                × (mark_succeeded d returned es w
                    ≡ some (some (update_entry d (answered returned) es, w')))
                × (w' ≡ waiting_count (update_entry d (answered returned) es)))
      by_state p e (QueryPeerState.waiting t) st =
          let count = waiting_count-update d (answered returned) es e in
          let (w', less) = one_less_of_pos w (ground (arith, count, c)) in
          inr (p, w', e, ground arith, ground (arith, less.0), ground (arith, count, c, less.1))
      by_state p e unresponsive st = inr (
        p,
        w,
        e,
        ground arith,
        ground arith,
        ground (arith, waiting_count-update d (answered returned) es e, c),
      )
      by_state p e not_contacted st = inl (ground arith, ground arith)
      by_state p e QueryPeerState.failed st = inl (ground arith, ground arith)
      by_state p e succeeded st = inl (ground arith, ground arith)

module _ {ℓ} {N : Type ℓ} ⦃u : Uint⦄ (into_key : N → Key N)
    (hashes : (n : N) → IsHash (into_key n).hash) where
  -- The query does not wait for the peer, or is finished.
  abbrev pub ignores : FindNodeQuery N → N → Bool
  ignores q n = elim q.progress [
    | QueryProgress.finished ↦ true
    | _ ↦ not (expects (find_entry (place into_key hashes q n) q.closest_peers))
  ]

  -- What `on_success` changes.
  abbrev pub Learns : N → List N → FindNodeQuery N → FindNodeQuery N → Type ℓ
  Learns node_id closer_peers q q' =
      ((ignores q node_id ≡ true) × (q' ≡ q))
      ⊎ ((ignores q node_id ≡ false)
          × ((p : QueryPeer N) × (find_entry (place into_key hashes q node_id) q'.closest_peers
                ≡ some p)
              × (p.state ≡ succeeded))
          × All (Known into_key hashes q.target_key q'.closest_peers) closer_peers)

  pub on_success_ignored :
      (n : N) (ns : List N) (q : FindNodeQuery N)
      → mark_succeeded (place into_key hashes q n) (length ns) q.closest_peers q.num_waiting
        ≡ some none
      → on_success into_key n ns q ≡ some q
  unfolding on_success
  on_success_ignored n ns q e = ground arith

  pub on_success_finished :
      (n : N) (ns : List N) (q : FindNodeQuery N)
      → q.progress ≡ QueryProgress.finished
      → on_success into_key n ns q ≡ some q
  unfolding on_success
  on_success_finished n ns q e = ground arith

  -- The query after an answer that it takes.
  abbrev pub after_success : List N → FindNodeQuery N → List (Entry N) → ℕ → FindNodeQuery N
  after_success ns q es w =
      let r =
        incorporate into_key q.target_key (ltb (length es) q.config.num_results) ns es false in
      record q {
        closest_peers = r.0;
        num_waiting = w;
        progress = next_progress q.config r.1 q.progress;
      }

  pub on_success_taken :
      (n : N) (ns : List N) (q : FindNodeQuery N) (es : List (Entry N)) (w : ℕ)
      → q.progress ≢ QueryProgress.finished
      → mark_succeeded (place into_key hashes q n) (length ns) q.closest_peers q.num_waiting
        ≡ some (some (es, w))
      → on_success into_key n ns q ≡ some (after_success ns q es w)
  unfolding on_success
  on_success_taken n ns q es w running e = ground arith

  -- On a valid query whose keys and target have 256-bit hashes `on_success` returns, `num_waiting`
  -- does not fall below 0, and the query stays valid. If the query is finished, or it neither waits
  -- for the peer nor has given it up as unresponsive, nothing changes. Otherwise the peer has
  -- succeeded and every reported peer is known to the query.
  pub on_success-Learns :
      (node_id : N) (closer_peers : List N) (q : FindNodeQuery N)
      → IsHash q.target_key.hash
      → IsValid q
      → (q' : FindNodeQuery N) × (on_success into_key node_id closer_peers q ≡ some q')
        × IsValid q'
        × Learns node_id closer_peers q q'
  on_success-Learns n ns q hash v = elim (finished_cases q.progress) [
    | inl done ↦ (q, on_success_finished n ns q done, v, inl (ground arith, refl))
    | inr running ↦
        elim (mark-Marks (place into_key hashes q n) (length ns) q.closest_peers q.num_waiting
          v.counted) [
            | inl (unexpected, e) ↦ (q, on_success_ignored n ns q e, v, inl (ground arith, refl))
            | inr (p, w, found, expected, e, count) ↦
                let d = place into_key hashes q n in
                let f = answered {N = N} (length ns) in
                let es = update_entry d f q.closest_peers in
                let skel = skeleton-update d f q.closest_peers (λ p. refl) in
                let few = ltb (length es) q.config.num_results in
                let (a, k, c) =
                  incorporate-facts into_key hashes q.target_key hash few ns es false
                    (rw skel v.ascending) (rw skel v.keyed) in
                let keeps = λ (b : ℕ) (x : QueryPeer N) (h : find_entry b es ≡ some x).
                  incorporate-keeps into_key hashes q.target_key hash few ns es false b h in
                (
                  after_success ns q es w,
                  on_success_taken n ns q es w running e,
                  record { counted = count ∙ sym c; ascending = a; keyed = k },
                  inr (
                    ground arith,
                    (
                      f p,
                      keeps d (f p)
                          (ground (arith, find_entry-update d d f q.closest_peers, found)),
                      refl,
                    ),
                    incorporate-Known into_key hashes q.target_key hash few ns es false,
                  ),
                )
          ]
  ]
