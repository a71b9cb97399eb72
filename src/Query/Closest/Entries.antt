-- ===== src/Query/Closest/Entries.antt =====
-- The map of a `FindNodeQuery` (src/query_pool/peers/closest.rs): what the `BTreeMap` operations do
-- to the order, to the keys, to the count of requests in flight, and to a search.
use discv.Uint.{Uint}
use discv.KBucket.Key.{Key, distance}
use discv.Query.Closest.Peers.{waiting_count, is_waiting, skeleton, IsAscending}
use discv.Prelude.{
  refl, ℕ, ◌+◌, ◌≡◌, false, none, some, List, [], ◌∷◌, All, if◌then◌else◌, ◌<◌, or_else, arith,
  ◌==◌, ◌>>=◌,
}
use discv.Query.Closest.{
  Entry, update_entry, find_entry, or_insert, Key, insert_entry, Uint, QueryPeer,
}

module _ {ℓ} {N : Type ℓ} where
  pub waiting_count-update :
      (d : ℕ) (f : QueryPeer N → QueryPeer N) (es : List (Entry N)) {p : QueryPeer N}
      → find_entry d es ≡ some p
      → waiting_count (update_entry d f es) + (if is_waiting p.state then 1 else 0)
        ≡ waiting_count es + (if is_waiting (f p).state then 1 else 0)
  unfolding waiting_count update_entry find_entry
  waiting_count-update d f [] e = cc
  waiting_count-update d f ((c, q) ∷ es) {p} e = ground (arith, waiting_count-update d f es {p = p})

  pub skeleton-update :
      (d : ℕ) (f : QueryPeer N → QueryPeer N) (es : List (Entry N))
      → ((p : QueryPeer N) → (f p).key ≡ p.key)
      → skeleton (update_entry d f es) ≡ skeleton es
  unfolding update_entry
  skeleton-update d f [] k = refl
  skeleton-update d f ((c, q) ∷ es) k = ground (arith, skeleton-update d f es k, k q)

  -- A search after an insertion.
  pub find_entry-insert :
      (c d : ℕ) (p : QueryPeer N) (es : List (Entry N))
      → find_entry c (insert_entry d p es) ≡ (if d == c then some p else find_entry c es)
  unfolding find_entry insert_entry
  find_entry-insert c d p [] = refl
  find_entry-insert c d p ((b, q) ∷ es) = ground (arith, find_entry-insert c d p es)

  -- A peer that is there stays; a new one is found.
  pub find_entry-or_insert :
      (c d : ℕ) (p : QueryPeer N) (es : List (Entry N))
      → find_entry c (or_insert d p es)
        ≡ or_else (find_entry c es) (if d == c then some p else none)
  unfolding or_insert
  find_entry-or_insert c d p es = ground (arith, find_entry-insert c d p es)

  abbrev pub Above : ℕ → List (ℕ × Key N) → Type 0
  Above a = All (λ (f : ℕ × Key N). a < f.0)

  Above-mono : (a b : ℕ) (ks : List (ℕ × Key N)) → a < b → Above b ks → Above a ks
  Above-mono a b [] h k = tt
  Above-mono a b (f ∷ ks) h k = (omega arith, Above-mono a b ks h k.1)

  Above-insert :
      (a d : ℕ) (p : QueryPeer N) (es : List (Entry N))
      → a < d
      → Above a (skeleton es)
      → Above a (skeleton (insert_entry d p es))
  unfolding insert_entry
  Above-insert a d p [] h k = (h, tt)
  Above-insert a d p ((c, q) ∷ es) h k = ground (arith, Above-insert a d p es h k.1)

  pub IsAscending-insert :
      (d : ℕ) (p : QueryPeer N) (es : List (Entry N))
      → IsAscending (skeleton es)
      → IsAscending (skeleton (insert_entry d p es))
  unfolding insert_entry
  IsAscending-insert d p [] k = (tt, tt)
  IsAscending-insert d p ((c, q) ∷ es) k =
      ground
        (arith, IsAscending-insert d p es k.1, Above-mono d c (skeleton es), Above-insert c d p es)

  pub waiting_count-insert :
      (d : ℕ) (p : QueryPeer N) (es : List (Entry N))
      → is_waiting p.state ≡ false
      → find_entry d es ≡ none
      → waiting_count (insert_entry d p es) ≡ waiting_count es
  unfolding waiting_count insert_entry find_entry
  waiting_count-insert d p [] h e = ground arith
  waiting_count-insert d p ((c, q) ∷ es) h e = ground (arith, waiting_count-insert d p es)

module _ {ℓ} {N : Type ℓ} ⦃u : Uint⦄ (target : Key N) where
  abbrev pub Keyed : List (ℕ × Key N) → Type 0
  Keyed = All (λ (e : ℕ × Key N). e.0 ≡ distance e.1 target)

  pub Keyed-insert :
      (d : ℕ) (p : QueryPeer N) (es : List (Entry N))
      → d ≡ distance p.key target
      → Keyed (skeleton es)
      → Keyed (skeleton (insert_entry d p es))
  unfolding insert_entry
  Keyed-insert d p [] h k = (h, tt)
  Keyed-insert d p ((c, q) ∷ es) h k = ground (arith, Keyed-insert d p es h k.1)

module _ {ℓ} {N : Type ℓ} where
  pub find_entry-update :
      (c d : ℕ) (f : QueryPeer N → QueryPeer N) (es : List (Entry N))
      → find_entry c (update_entry d f es)
        ≡ (if d == c then (find_entry c es >>= λ p. some (f p)) else find_entry c es)
  unfolding find_entry update_entry
  find_entry-update c d f [] = ground arith
  find_entry-update c d f ((b, q) ∷ es) = ground (arith, find_entry-update c d f es)
