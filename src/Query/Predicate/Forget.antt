-- ===== src/Query/Predicate/Forget.antt =====
-- `PredicateQuery::next` of src/query_pool/peers/predicate.rs against `FindNodeQuery::next` of
-- src/query_pool/peers/closest.rs, where every peer satisfies the predicate.
use discv.Prelude.{
  refl, ℕ, ◌+◌, ◌≡◌, Bool, true, Option, none, some, List, [], ◌∷◌, All, Bool-cases, inl, inr, leb,
  zero, suc, ap, ◌∙◌, sym, Option-cases,
}
use discv.KBucket.Key.{Key}
use discv.Query.Closest.{
  QueryPeerState, not_contacted, unresponsive, failed, succeeded, FindNodeQueryConfig, Entry,
  QueryState, FindNodeQuery, QueryPeer, QueryProgress, at_capacity, stalled, iterating,
}
use discv.Query.Closest.Next.{Pass, behind, visit, scan, next}
use discv.Query.Predicate.{PredicatePeer, PredicateQuery, predicate_at_capacity, to_peer_state}
use discv.Query.Predicate.Next.{PredicatePass, behind_peer, visit_peer, scan_peers, predicate_next}

module _ {ℓ} {N : Type ℓ} where
  abbrev pub forget : PredicatePeer N → QueryPeer N
  forget p = record { key = p.key; peers_returned = p.peers_returned; state = p.state }

  abbrev pub forget_all : List (ℕ × PredicatePeer N) → List (Entry N)
  forget_all [] = []
  forget_all ((d, p) ∷ es) = (d, forget p) ∷ forget_all es

  abbrev pub forget_pass : Option (PredicatePass N) → Option (Pass N)
  forget_pass none = none
  forget_pass (some (es, w, r)) = some (forget_all es, w, r)

  abbrev pub IsMatch : ℕ × PredicatePeer N → Type 0
  IsMatch e = e.1.predicate_match ≡ true

  abbrev matching : PredicatePeer N → PredicatePeer N
  matching p = record p { predicate_match = true }

  forget-behind :
      (d : ℕ) (p : PredicatePeer N) (o : Option (PredicatePass N))
      → forget_pass (behind_peer (d, p) o) ≡ behind (d, forget p) (forget_pass o)
  forget-behind d p none = refl
  forget-behind d p (some (es, w, r)) = refl

  behind-same :
      (d : ℕ) (p : PredicatePeer N) (o : Option (Pass N)) (o' : Option (PredicatePass N))
      → o ≡ forget_pass o'
      → behind (d, forget p) o ≡ forget_pass (behind_peer (d, p) o')
  behind-same d p o o' h = ap (behind (d, forget p)) h ∙ sym (forget-behind d p o')

module _ {ℓ} {N : Type ℓ} (config : FindNodeQueryConfig) (now : ℕ) (full : Bool) where
  visit-forget :
      (d : ℕ) (p : PredicatePeer N) (s : QueryPeerState) (es : List (ℕ × PredicatePeer N))
      → (rest : Option ℕ → ℕ → Option (Pass N)) → (rest' : Option ℕ → ℕ → Option (PredicatePass N))
      → (cnt : Option ℕ) (w : ℕ) → p.predicate_match ≡ true
      → ((c : Option ℕ) (v : ℕ) → rest c v ≡ forget_pass (rest' c v))
      → visit config now full d (forget p) s (forget_all es) rest cnt w
        ≡ forget_pass (visit_peer config now full d p s es rest' cnt w)
  unfolding visit visit_peer
  visit-forget d p not_contacted es rest rest' cnt w m h = elim (Bool-cases full) [
    | inl g ↦ rw g refl
    | inr g ↦ rw g refl
  ]
  visit-forget d p (QueryPeerState.waiting timeout) es rest rest' cnt zero m h =
      elim (Bool-cases (leb timeout now)) [
        | inl g ↦ rw g refl
        | inr g ↦ elim (Bool-cases full) [
          | inl k ↦ rw (g, k) refl
          | inr k ↦
              rw (g, k, m) (behind-same d (matching p) (rest none 0) (rest' none 0) (h none 0))
        ]
      ]
  visit-forget d p (QueryPeerState.waiting timeout) es rest rest' cnt (suc w) m h =
      elim (Bool-cases (leb timeout now)) [
        | inl g ↦
            rw g (behind-same d (to_peer_state unresponsive p) (rest cnt w) (rest' cnt w) (h cnt w))
        | inr g ↦ elim (Bool-cases full) [
          | inl k ↦ rw (g, k) refl
          | inr k ↦
              rw (g, k, m)
                (behind-same d (matching p) (rest none (suc w)) (rest' none (suc w))
                  (h none (suc w)))
        ]
      ]
  visit-forget d p succeeded es rest rest' none w m h =
      behind-same d p (rest none w) (rest' none w) (h none w)
  visit-forget d p succeeded es rest rest' (some c) w m h =
      elim (Bool-cases (leb config.num_results (c + 1))) [
        | inl g ↦ rw (m, g) refl
        | inr g ↦
            rw (m, g)
              (behind-same d (matching p) (rest (some (c + 1)) w) (rest' (some (c + 1)) w)
                (h (some (c + 1)) w))
      ]
  visit-forget d p failed es rest rest' cnt w m h =
      behind-same d p (rest cnt w) (rest' cnt w) (h cnt w)
  visit-forget d p unresponsive es rest rest' cnt w m h =
      behind-same d p (rest cnt w) (rest' cnt w) (h cnt w)

  scan-forget :
      (es : List (ℕ × PredicatePeer N))
      → All IsMatch es
      → (cnt : Option ℕ) (w : ℕ)
      → scan config now full (forget_all es) cnt w
        ≡ forget_pass (scan_peers config now full es cnt w)
  unfolding scan scan_peers
  scan-forget [] h cnt w = refl
  scan-forget ((d, p) ∷ es) h cnt w =
      visit-forget d p p.state es (scan config now full (forget_all es))
        (scan_peers config now full es) cnt w h.0 (scan-forget es h.1)

module _ {ℓ} {N : Type ℓ} {R : Type 0} where
  abbrev pub forget_query : PredicateQuery N R → FindNodeQuery N
  forget_query q = record {
    target_key = q.target_key;
    progress = q.progress;
    closest_peers = forget_all q.closest_peers;
    num_waiting = q.num_waiting;
    config = q.config;
  }

  abbrev pub forget_result :
      Option (PredicateQuery N R × QueryState N) → Option (FindNodeQuery N × QueryState N)
  forget_result none = none
  forget_result (some (q, r)) = some (forget_query q, r)

  -- The same, with the parts of the query apart.
  next-forget_by :
      (now : ℕ) (progress : QueryProgress) (target : Key N) (es : List (ℕ × PredicatePeer N))
      (w : ℕ)
      → (predicate : R → Bool) (config : FindNodeQueryConfig) → All IsMatch es
      → let q : PredicateQuery N R = record {
        target_key = target;
        progress = progress;
        closest_peers = es;
        num_waiting = w;
        predicate = predicate;
        config = config;
      } in
        next now (forget_query q) ≡ forget_result (predicate_next now q)
  unfolding next predicate_next at_capacity predicate_at_capacity
  next-forget_by now QueryProgress.finished target es w predicate config h = refl
  next-forget_by now (iterating n) target es w predicate config h =
      let s = scan-forget config now (leb config.parallelism w) es h (some 0) w in
      elim (Option-cases (scan_peers config now (leb config.parallelism w) es (some 0) w)) [
        | inl g ↦ rw (s, g) refl
        | inr ((es', w', v), g) ↦ rw (s, g) refl
      ]
  next-forget_by now stalled target es w predicate config h =
      let s = scan-forget config now (leb config.num_results w) es h (some 0) w in
      elim (Option-cases (scan_peers config now (leb config.num_results w) es (some 0) w)) [
        | inl g ↦ rw (s, g) refl
        | inr ((es', w', v), g) ↦ rw (s, g) refl
      ]

  -- Where every peer of a predicate query satisfies the predicate, its `next` does what that of the
  -- find-node query with the same peers does, a panic included.
  pub next-forget :
      (now : ℕ) (q : PredicateQuery N R)
      → All IsMatch q.closest_peers
      → next now (forget_query q) ≡ forget_result (predicate_next now q)
  unfolding next predicate_next
  next-forget now q h =
      next-forget_by now q.progress q.target_key q.closest_peers q.num_waiting q.predicate q.config
        h
