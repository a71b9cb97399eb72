-- ===== src/Query/Closest/Peers.antt =====
-- The peers of a `FindNodeQuery` (src/query_pool/peers/closest.rs): their order by distance, how many
-- are waited for, which is the nearest new one, and when enough near ones have answered.
use discv.KBucket.Key.{Key}
use discv.Prelude.{
  ℕ, zero, suc, Bool, true, false, Option, none, some, List, [], ◌∷◌, if◌then◌else◌, All, map, ◌<◌,
}
use discv.Query.Closest.{
  QueryPeerState, not_contacted, unresponsive, failed, succeeded, Entry, Key, QueryPeer,
}

abbrev pub is_waiting : QueryPeerState → Bool
is_waiting (QueryPeerState.waiting _) = true
is_waiting not_contacted = false
is_waiting unresponsive = false
is_waiting failed = false
is_waiting succeeded = false

module _ {ℓ} {N : Type ℓ} where
  -- How many requests are in flight.
  unfoldable pub waiting_count : List (Entry N) → ℕ
  waiting_count [] = 0
  waiting_count ((d, p) ∷ es) =
      if is_waiting p.state then suc (waiting_count es) else waiting_count es

  -- The distances and the keys, which no answer changes.
  abbrev pub skeleton : List (Entry N) → List (ℕ × Key N)
  skeleton = map (λ (e : Entry N). (e.0, e.1.key))

  abbrev pub IsAscending : List (ℕ × Key N) → Type 0
  IsAscending [] = Unit
  IsAscending (e ∷ es) = All (λ (f : ℕ × Key N). e.0 < f.0) es × IsAscending es

  -- The nearest peer that has not been contacted.
  unfoldable pub nearest_new : List (Entry N) → Option (QueryPeer N)
  nearest_new [] = none
  nearest_new ((d, p) ∷ es) = elim p.state [ not_contacted ↦ some p | _ ↦ nearest_new es ]

  -- `k` peers have answered, and all nearer ones have answered, failed or are unresponsive.
  unfoldable pub done_within : ℕ → List (Entry N) → Bool
  done_within zero es = true
  done_within (suc k) [] = false
  done_within (suc k) ((d, p) ∷ es) = elim p.state [
    | succeeded ↦ done_within k es
    | failed ↦ done_within (suc k) es
    | unresponsive ↦ done_within (suc k) es
    | not_contacted ↦ false
    | QueryPeerState.waiting _ ↦ false
  ]
