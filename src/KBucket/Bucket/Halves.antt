-- ===== src/KBucket/Bucket/Halves.antt =====
-- A bucket's two halves (src/kbucket/bucket.rs): the disconnected and the connected nodes, each from
-- least to most recent, and what adding and removing a node does to them.
use discv.Prelude.{ℕ, suc, zero, ◌≡◌, true, false, some, List, [], ◌∷◌, ◌++◌, arith, insert_at}
use discv.KBucket.Node.{Node}
use discv.KBucket.Bucket.Order.{is_up, first_connected, is_ordered}
use discv.KBucket.Bucket.Valid.{downs, ups, halves_of_all_connected}

module _ {ℓ} {T V : Type ℓ} where
  pub halves-push_up :
      (ns : List (Node T V)) (v : Node T V)
      → is_up v ≡ true
      → (downs (ns ++ v ∷ []) ≡ downs ns) × (ups (ns ++ v ∷ []) ≡ ups ns ++ v ∷ [])
  unfolding downs ups
  halves-push_up [] v h = ground arith
  halves-push_up (n ∷ ns) v h = ground (arith, halves-push_up ns v h)

  pub halves-push_down :
      (ns : List (Node T V)) (v : Node T V)
      → is_up v ≡ false
      → (downs (ns ++ v ∷ []) ≡ downs ns ++ v ∷ []) × (ups (ns ++ v ∷ []) ≡ ups ns)
  unfolding downs ups
  halves-push_down [] v h = ground arith
  halves-push_down (n ∷ ns) v h = ground (arith, halves-push_down ns v h)

  pub halves-insert_down :
      (ns : List (Node T V)) (p : ℕ) (v : Node T V)
      → is_up v ≡ false
      → is_ordered ns ≡ true
      → first_connected ns ≡ some p
      → (downs (insert_at ns p v) ≡ downs ns ++ v ∷ []) × (ups (insert_at ns p v) ≡ ups ns)
  unfolding downs ups is_ordered first_connected
  halves-insert_down [] p v h o e = cc
  halves-insert_down (n ∷ ns) zero v h o e = ground (arith, halves_of_all_connected ns)
  halves-insert_down (n ∷ ns) (suc p) v h o e = ground (arith, halves-insert_down ns p v)
