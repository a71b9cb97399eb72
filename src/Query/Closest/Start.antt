-- ===== src/Query/Closest/Start.antt =====
-- `FindNodeQuery::with_config` (src/query_pool/peers/closest.rs): the query that a lookup starts
-- with.
use discv.Prelude.{ℕ, List, ◌≡◌, length, false, ◌≤◌, take, arith, suc, [], ◌+◌, ◌∷◌, sym, zero}
use discv.Prelude.{refl}
use discv.Query.Closest.Valid.{IsValid}
use discv.Query.Closest.Entries.{Keyed, IsAscending-insert, Keyed-insert}
use discv.Query.Closest.Peers.{IsAscending, skeleton, waiting_count, is_waiting}
use discv.Query.Closest.{
  Entry, QueryPeer, FindNodeQueryConfig, insert_entry, new_peer, collect_peers, with_config,
}
use discv.KBucket.Key.{Key, distance}
use discv.Uint.{Uint}

module _ {ℓ} {N : Type ℓ} where
  none_waiting-insert :
      (d : ℕ) (p : QueryPeer N) (es : List (Entry N))
      → is_waiting p.state ≡ false
      → waiting_count es ≡ 0
      → waiting_count (insert_entry d p es) ≡ 0
  unfolding waiting_count insert_entry
  none_waiting-insert d p [] h e = ground arith
  none_waiting-insert d p ((c, q) ∷ es) h e = ground (arith, none_waiting-insert d p es h)

  length-insert_entry :
      (d : ℕ) (p : QueryPeer N) (es : List (Entry N))
      → length (insert_entry d p es) ≤ suc (length es)
  unfolding insert_entry
  length-insert_entry d p [] = omega arith
  length-insert_entry d p ((c, q) ∷ es) = ground (arith, length-insert_entry d p es)

none_waiting {ℓ} : (N : Type ℓ) → waiting_count {N = N} [] ≡ 0
unfolding waiting_count
none_waiting N = refl

pub length-take {ℓ} : {A : Type ℓ} (n : ℕ) (xs : List A) → length (take n xs) ≤ n
length-take zero xs = omega arith
length-take (suc n) [] = omega arith
length-take (suc n) (x ∷ xs) = omega (arith, length-take n xs)

module _ {ℓ} {N : Type ℓ} ⦃u : Uint⦄ (target : Key N) where
  collect_peers-facts :
      (ks : List (Key N)) (es : List (Entry N))
      → IsAscending (skeleton es)
      → Keyed target (skeleton es)
      → waiting_count es ≡ 0
      → let r = collect_peers target ks es in
        IsAscending (skeleton r)
        × Keyed target (skeleton r)
        × (waiting_count r ≡ 0)
        × (length r ≤ length ks + length es)
  unfolding collect_peers
  collect_peers-facts [] es a k w = (a, k, w, omega arith)
  collect_peers-facts (x ∷ ks) es a k w =
      let d = distance x target in
      let p = new_peer x in
      let (a', k', w', l') =
        collect_peers-facts ks (insert_entry d p es) (IsAscending-insert d p es a)
          (Keyed-insert target d p es refl k) (none_waiting-insert d p es refl w) in
      (a', k', w', omega (arith, l', length-insert_entry d p es))

module _ {ℓ} {N : Type ℓ} ⦃u : Uint⦄ where
  -- A new query is valid, whatever peers it starts from: it knows at most `num_results` of them,
  -- each at the distance of its key and in order, and waits for none.
  pub with_config-IsValid :
      (config : FindNodeQueryConfig) (target : Key N) (known : List (Key N))
      → let q = with_config config target known in
        IsValid q
        × (length q.closest_peers ≤ config.num_results)
        × (waiting_count q.closest_peers ≡ 0)
  unfolding with_config
  with_config-IsValid config target known =
      let (a, k, w, l) =
        collect_peers-facts target (take config.num_results known) [] tt tt (none_waiting N) in
      (
        record { counted = sym w; ascending = a; keyed = k },
        omega (arith, l, length-take config.num_results known),
        w,
      )
