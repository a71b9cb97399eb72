-- ===== src/Query/Closest/Nearest.antt =====
-- `FindNodeQuery::into_result` (src/query_pool/peers/closest.rs): the nodes that it returns are the
-- nearest of those that have answered.
use discv.Prelude.{
  refl, ℕ, length, List, All, map, ◌<◌, ◌≢◌, ◌≤◌, ◌≡◌, take, suc, false, arith, ◌⊎◌, [], ◌∷◌, ap,
  inl, inr, zero, subst, sym, ◌∙◌,
}
use discv.KBucket.Key.{Key}
use discv.Query.Closest.Peers.{done_within, skeleton, IsAscending}
use discv.Query.Closest.Next.{succeeded_nodes, into_result}
use discv.Query.Closest.Results.{length-done}
use discv.Query.Closest.{
  Entry, FindNodeQuery, QueryPeer, QueryPeerState, succeeded, failed, unresponsive, not_contacted,
}

answered_cases : (s : QueryPeerState) → (s ≡ succeeded) ⊎ (s ≢ succeeded)
answered_cases succeeded = inl refl
answered_cases failed = inr (λ e. cc)
answered_cases unresponsive = inr (λ e. cc)
answered_cases not_contacted = inr (λ e. cc)
answered_cases (QueryPeerState.waiting t) = inr (λ e. cc)

module _ {ℓ} {N : Type ℓ} where
  -- The entry is one of the list.
  abbrev pub Among : Entry N → List (Entry N) → Type ℓ
  Among e [] = ⊥ × (e ≡ e)
  Among e (f ∷ fs) = (e ≡ f) ⊎ Among e fs

  -- The nodes are those of entries of peers that have answered, at most `n`, nearest first; and every
  -- other entry of such a peer is farther than all of these, of which there are `n`.
  pub record Nearest (n : ℕ) (es : List (Entry N)) (r : List N) : Type ℓ where
    pub chosen : List (Entry N)
    pub named : r ≡ map (λ (e : Entry N). e.1.key.preimage) chosen
    pub answered : All (λ (e : Entry N). e.1.state ≡ succeeded) chosen
    pub known : All (λ (e : Entry N). Among e es) chosen
    pub sorted : IsAscending (skeleton chosen)
    pub few : length chosen ≤ n
    pub nearest :
        All
          (λ (e : Entry N).
            (e.1.state ≢ succeeded)
            ⊎ Among e chosen
            ⊎ ((length chosen ≡ n) × All (λ (c : Entry N). c.0 < e.0) chosen))
          es

  module _ (d : ℕ) (p : QueryPeer N) (es : List (Entry N)) where
    names_answered :
        p.state ≡ succeeded → succeeded_nodes ((d, p) ∷ es) ≡ p.key.preimage ∷ succeeded_nodes es
    unfolding succeeded_nodes
    names_answered e = ground (arith, e)

    names_other : p.state ≢ succeeded → succeeded_nodes ((d, p) ∷ es) ≡ succeeded_nodes es
    unfolding succeeded_nodes
    names_other h = by_state p.state refl
      where
        by_state :
            (s : QueryPeerState) → p.state ≡ s → succeeded_nodes ((d, p) ∷ es) ≡ succeeded_nodes es
        by_state succeeded e = absurd (h e)
        by_state failed e = ground (arith, e)
        by_state unresponsive e = ground (arith, e)
        by_state not_contacted e = ground (arith, e)
        by_state (QueryPeerState.waiting t) e = ground (arith, e)

  All-mono :
      (P Q : Entry N → Type ℓ) (es : List (Entry N))
      → ((e : Entry N) → P e → Q e)
      → All P es
      → All Q es
  All-mono P Q [] f h = tt
  All-mono P Q (e ∷ es) f h = (f e h.0, All-mono P Q es f h.1)

  -- The entries behind one are farther.
  farther :
      (d : ℕ) (es : List (Entry N))
      → All (λ (f : ℕ × Key N). d < f.0) (skeleton es)
      → All (λ (e : Entry N). d < e.0) es
  farther d [] h = tt
  farther d (e ∷ es) h = (h.0, farther d es h.1)

  skeleton_farther :
      (d : ℕ) (es : List (Entry N))
      → All (λ (e : Entry N). d < e.0) es
      → All (λ (f : ℕ × Key N). d < f.0) (skeleton es)
  skeleton_farther d [] h = tt
  skeleton_farther d (e ∷ es) h = (h.0, skeleton_farther d es h.1)

  farther_than_chosen :
      (n d : ℕ) (p : QueryPeer N) (chosen es : List (Entry N))
      → All (λ (e : Entry N). d < e.0) es
      → All
          (λ (e : Entry N).
            (e.1.state ≢ succeeded)
            ⊎ Among e chosen
            ⊎ ((length chosen ≡ n) × All (λ (c : Entry N). c.0 < e.0) chosen))
          es
      → All
          (λ (e : Entry N).
            (e.1.state ≢ succeeded)
            ⊎ Among e ((d, p) ∷ chosen)
            ⊎ ((suc (length chosen) ≡ suc n) × All (λ (c : Entry N). c.0 < e.0) ((d, p) ∷ chosen)))
          es
  farther_than_chosen n d p chosen [] far h = tt
  farther_than_chosen n d p chosen (e ∷ es) far h = (
    elim h.0 [
      | inl other ↦ inl other
      | inr (inl there) ↦ inr (inl (inr there))
      | inr (inr (all, near)) ↦ inr (inr (ap suc all, (far.0, near)))
    ],
    farther_than_chosen n d p chosen es far.1 h.1,
  )

  none_of_zero :
      (es : List (Entry N))
      → All
          (λ (e : Entry N).
            (e.1.state ≢ succeeded)
            ⊎ Among e []
            ⊎ ((◌≡◌ {A = ℕ} 0 0) × All (λ (c : Entry N). c.0 < e.0) []))
          es
  none_of_zero [] = tt
  none_of_zero (e ∷ es) = (inr (inr (refl, tt)), none_of_zero es)

  among_all :
      (P : Entry N → Type 0) (e : Entry N) (es : List (Entry N)) → All P es → Among e es → P e
  among_all P e [] h m = absurd m.0
  among_all P e (f ∷ fs) h (inl eq) = subst P (sym eq) h.0
  among_all P e (f ∷ fs) h (inr m) = among_all P e fs h.1 m

  all_among :
      (P : Entry N → Type 0) (chosen es : List (Entry N))
      → All P es
      → All (λ (e : Entry N). Among e es) chosen
      → All P chosen
  all_among P [] es h k = tt
  all_among P (c ∷ cs) es h k = (among_all P c es h k.0, all_among P cs es h k.1)

  known_behind :
      (f : Entry N) (chosen es : List (Entry N))
      → All (λ (e : Entry N). Among e es) chosen
      → All (λ (e : Entry N). Among e (f ∷ es)) chosen
  known_behind f [] es h = tt
  known_behind f (c ∷ cs) es h = (inr h.0, known_behind f cs es h.1)

  no_nodes : succeeded_nodes {N = N} [] ≡ []
  unfolding succeeded_nodes
  no_nodes = refl

  take-Nearest :
      (n : ℕ) (es : List (Entry N))
      → IsAscending (skeleton es)
      → Nearest n es (take n (succeeded_nodes es))
  take-Nearest zero es asc = record {
    chosen = [];
    named = refl;
    answered = tt;
    known = tt;
    sorted = tt;
    few = omega arith;
    nearest = none_of_zero es;
  }
  take-Nearest (suc n) [] asc = record {
    chosen = [];
    named = ap (take (suc n)) no_nodes;
    answered = tt;
    known = tt;
    sorted = tt;
    few = omega arith;
    nearest = tt;
  }
  take-Nearest (suc n) ((d, p) ∷ es) asc = elim (answered_cases p.state) [
    | inl e ↦
        let r = take-Nearest n es asc.1 in
        let far = farther d es asc.0 in
        record {
          chosen = (d, p) ∷ r.chosen;
          named = ap (take (suc n)) (names_answered d p es e) ∙ ap (◌∷◌ p.key.preimage) r.named;
          answered = (e, r.answered);
          known = (inl refl, known_behind (d, p) r.chosen es r.known);
          sorted = (
            skeleton_farther d r.chosen (all_among (λ c. d < c.0) r.chosen es far r.known),
            r.sorted,
          );
          few = omega (arith, r.few);
          nearest = (inr (inl (inl refl)), farther_than_chosen n d p r.chosen es far r.nearest);
        }
    | inr h ↦
        let r = take-Nearest (suc n) es asc.1 in
        record {
          chosen = r.chosen;
          named = ap (take (suc n)) (names_other d p es h) ∙ r.named;
          answered = r.answered;
          known = known_behind (d, p) r.chosen es r.known;
          sorted = r.sorted;
          few = r.few;
          nearest = (inl h, r.nearest);
        }
  ]

  -- With the peers in order of distance, a query returns the nodes of peers that have answered, the
  -- nearest first: of all of them if there are no more than `num_results`, and otherwise of the
  -- `num_results` nearest. If it has ended because `num_results` peers have answered and every nearer
  -- one has answered, failed or become unresponsive, it returns exactly so many.
  pub into_result-Nearest :
      (q : FindNodeQuery N)
      → IsAscending (skeleton q.closest_peers)
      → Nearest q.config.num_results q.closest_peers (into_result q)
        × ((done_within q.config.num_results q.closest_peers ≡ false)
            ⊎ (length (into_result q) ≡ q.config.num_results))
  unfolding into_result
  into_result-Nearest q asc = (take-Nearest q.config.num_results q.closest_peers asc, length-done q)
