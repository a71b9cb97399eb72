-- ===== src/Query/Predicate/Tests.antt =====
-- `PredicateQuery` (src/query_pool/peers/predicate.rs) at concrete inputs: even nodes match.
use discv.Prelude.{refl, ℕ, Bool, true, false, some, none, [], ◌∷◌, ◌≡◌, ◌%◌, ◌==◌, List}
use discv.Uint.{Uint, word_uint}
use discv.KBucket.Key.{Key}
use discv.Query.Closest.{QueryPeerState, QueryProgress, QueryState}
use discv.Query.Closest.Next.{next}
use discv.Query.Predicate.{PredicatePeer, PredicateQuery, predicate_on_success}
use discv.Query.Predicate.Next.{predicate_next, predicate_result}
use discv.Query.Predicate.Forget.{forget_query, forget_result, next-forget}

instance abbrev uint : Uint
uint = word_uint

abbrev key_of : ℕ → Key ℕ
key_of n = record { preimage = n; hash = n }

abbrev peer_of : ℕ → Bool → QueryPeerState → ℕ × PredicatePeer ℕ
peer_of n m s = (n, record { key = key_of n; peers_returned = 0; predicate_match = m; state = s })

abbrev query_of : List (ℕ × PredicatePeer ℕ) → ℕ → PredicateQuery ℕ ℕ
query_of es w = record {
  target_key = key_of 0;
  progress = QueryProgress.iterating 0;
  closest_peers = es;
  num_waiting = w;
  predicate = λ n. n % 2 == 0;
  config = record { parallelism = 3; num_results = 1; peer_timeout = 10 };
}

abbrev matching_query : PredicateQuery ℕ ℕ
matching_query =
    query_of
      (peer_of 2 true (QueryPeerState.waiting 70)
        ∷ peer_of 4 true QueryPeerState.succeeded
        ∷ peer_of 6 true QueryPeerState.not_contacted
        ∷ [])
      1

next-forget_example :
    next 5 (forget_query matching_query) ≡ forget_result (predicate_next 5 matching_query)
next-forget_example = next-forget 5 matching_query (refl, (refl, (refl, tt)))

-- A peer that does not match is waited for, and does not keep the query from its end.
abbrev mixed_query : PredicateQuery ℕ ℕ
mixed_query =
    query_of
      (peer_of 1 false (QueryPeerState.waiting 70)
        ∷ peer_of 2 true (QueryPeerState.waiting 70)
        ∷ [])
      2

ends :
    (elim (predicate_on_success key_of (λ n. n) 2 (5 ∷ 8 ∷ []) mixed_query) [
      | none ↦ none
      | some q ↦ predicate_next 5 q
    ])
    ≡ some (
      record (query_of
          (peer_of 1 false (QueryPeerState.waiting 70)
            ∷ (
              2,
              record {
                key = key_of 2;
                peers_returned = 2;
                predicate_match = true;
                state = QueryPeerState.succeeded;
              },
            )
            ∷ peer_of 5 false QueryPeerState.not_contacted
            ∷ peer_of 8 true QueryPeerState.not_contacted
            ∷ [])
          1) { progress = QueryProgress.finished },
      QueryState.finished,
    )
unfolding predicate_on_success predicate_next
ends = refl

results : predicate_result matching_query ≡ 4 ∷ []
unfolding predicate_result
results = refl
