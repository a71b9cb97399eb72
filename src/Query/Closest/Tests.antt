-- ===== src/Query/Closest/Tests.antt =====
-- `FindNodeQuery` (src/query_pool/peers/closest.rs) at concrete inputs.
use discv.Query.Closest.Nearest.{Nearest, into_result-Nearest}
use discv.Query.Closest.Start.{with_config-IsValid}
use discv.KBucket.Key.{Key, IsHash, distance}
use discv.Query.Closest.Peers.{waiting_count, skeleton, done_within}
use discv.Uint.{Uint, word_uint}
use discv.Prelude.{ℕ, ◌≡◌, ◌∷◌, ◌%◌, [], some, ◌^◌, arith, false, length, ◌≤◌, ◌⊎◌}
use discv.Query.Closest.Valid.{IsValid, Answers, next-Answers}
use discv.Query.Closest.Callbacks.{Learns, on_success-Learns}
use discv.Query.Closest.Progress.{Fails, on_failure-Fails}
use discv.Query.Closest.{
  FindNodeQuery, Entry, QueryProgress, QueryPeerState, QueryState, on_success, on_failure, Uint,
  Key, distance, with_config,
}
use discv.Query.Closest.Next.{next, into_result}
use mathlib.Core.Option
use discv.Prelude.{refl}

instance abbrev uint : Uint
uint = word_uint

abbrev key_of : ℕ → Key ℕ
key_of n = record { preimage = n; hash = n % 2 ^ 256 }

key_of-IsHash : (n : ℕ) → IsHash (key_of n).hash
key_of-IsHash n = omega arith

abbrev entry_of : ℕ → QueryPeerState → Entry ℕ
entry_of n s = (n, record { key = key_of n; peers_returned = 0; state = s })

-- The target is 0, so that a peer's distance is its number.
abbrev asking : FindNodeQuery ℕ
asking = record {
  target_key = key_of 0;
  progress = QueryProgress.iterating 0;
  closest_peers =
      entry_of 1 (QueryPeerState.waiting 70)
      ∷ entry_of 4 QueryPeerState.not_contacted
      ∷ entry_of 6 QueryPeerState.unresponsive
      ∷ [];
  num_waiting = 1;
  config = record { parallelism = 3; num_results = 2; peer_timeout = 10 };
}

asking-IsValid : IsValid asking
unfolding waiting_count distance
asking-IsValid = record { counted = refl; ascending = omega arith; keyed = omega arith }

next_runs :
    Option.map (λ (r : FindNodeQuery ℕ × QueryState ℕ). r.1) (next 65 asking)
    ≡ some (QueryState.waiting (some 4))
unfolding next
next_runs = refl

next-Answers_example :
    (r : FindNodeQuery ℕ × QueryState ℕ) × (next 65 asking ≡ some r)
    × IsValid r.0
    × (skeleton r.0.closest_peers ≡ skeleton asking.closest_peers)
    × Answers asking r
next-Answers_example = next-Answers 65 asking asking-IsValid

on_success-Learns_example :
    (q' : FindNodeQuery ℕ) × (on_success key_of 1 (2 ∷ 8 ∷ []) asking ≡ some q')
    × IsValid q'
    × Learns key_of key_of-IsHash 1 (2 ∷ 8 ∷ []) asking q'
on_success-Learns_example =
    on_success-Learns key_of key_of-IsHash 1 (2 ∷ 8 ∷ []) asking (key_of-IsHash 0) asking-IsValid

on_failure-Fails_example :
    (q' : FindNodeQuery ℕ) × (on_failure key_of 6 asking ≡ some q')
    × IsValid q'
    × Fails key_of key_of-IsHash 6 asking q'
on_failure-Fails_example = on_failure-Fails key_of key_of-IsHash 6 asking asking-IsValid

-- `asking` when peer 1 has reported peers 2 and 8.
abbrev told : FindNodeQuery ℕ
told = record asking {
  progress = QueryProgress.iterating 1;
  closest_peers =
      (1, record { key = key_of 1; peers_returned = 2; state = QueryPeerState.succeeded })
      ∷ entry_of 2 QueryPeerState.not_contacted
      ∷ entry_of 4 QueryPeerState.not_contacted
      ∷ entry_of 6 QueryPeerState.unresponsive
      ∷ entry_of 8 QueryPeerState.not_contacted
      ∷ [];
  num_waiting = 0;
}

with_config-IsValid_example :
    let q = with_config asking.config (key_of 0) (key_of 4 ∷ key_of 1 ∷ key_of 6 ∷ []) in
    IsValid q × (length q.closest_peers ≤ 2) × (waiting_count q.closest_peers ≡ 0)
with_config-IsValid_example =
    with_config-IsValid asking.config (key_of 0) (key_of 4 ∷ key_of 1 ∷ key_of 6 ∷ [])

-- Peers 1 and 6 have answered, and peer 4 has failed.
abbrev done : FindNodeQuery ℕ
done = record asking {
  closest_peers =
      entry_of 1 QueryPeerState.succeeded
      ∷ entry_of 4 QueryPeerState.failed
      ∷ entry_of 6 QueryPeerState.succeeded
      ∷ [];
  num_waiting = 0;
}

into_result_runs : into_result done ≡ 1 ∷ 6 ∷ []
unfolding into_result
into_result_runs = refl

into_result-Nearest_example :
    Nearest 2 done.closest_peers (into_result done)
    × ((done_within 2 done.closest_peers ≡ false) ⊎ (length (into_result done) ≡ 2))
into_result-Nearest_example =
    into_result-Nearest done ((omega arith, (omega arith, tt)), ((omega arith, tt), (tt, tt)))
