-- ===== src/KBucket/Bucket/Order.antt =====
-- The order of a bucket's nodes (src/kbucket/bucket.rs): the disconnected ones, then the connected
-- ones, and what a removal or an insertion does to the position of the first connected node.
use discv.Prelude.{
  ℕ, zero, suc, ◌-◌, ◌<◌, ◌≡◌, refl, Bool, true, false, ◌&&◌, Option, none, some, List, [], ◌∷◌,
  ◌++◌, arith, ltb, if◌then◌else◌, or_else, length, get_elem?, insert_at, remove_at,
  lt_of_get_elem?, length-remove_at, ◌>>=◌,
}
use discv.KBucket.Node.{is_connected, Node}
use discv.KBucket.Bucket.Update.{pos_after_removal}

module _ {ℓ} {T V : Type ℓ} where
  abbrev pub is_up : Node T V → Bool
  is_up n = is_connected n.status

  -- The position of the first connected node, by a search.
  unfoldable pub first_connected : List (Node T V) → Option ℕ
  first_connected [] = none
  first_connected (n ∷ ns) = if is_up n then some 0 else (first_connected ns >>= λ p. some (suc p))

  unfoldable pub all_connected : List (Node T V) → Bool
  all_connected [] = true
  all_connected (n ∷ ns) = is_up n && all_connected ns

  -- No disconnected node stands behind a connected one.
  unfoldable pub is_ordered : List (Node T V) → Bool
  unfolding all_connected
  is_ordered [] = true
  is_ordered (n ∷ ns) = if is_up n then all_connected ns else is_ordered ns

  pub first_connected-lt :
      (ns : List (Node T V)) {p : ℕ} → first_connected ns ≡ some p → p < length ns
  unfolding first_connected
  first_connected-lt [] e = cc
  first_connected-lt (n ∷ ns) {p} e = ground (arith, first_connected-lt ns {p = p - 1})

  all_connected-push :
      (ns : List (Node T V)) (v : Node T V)
      → is_up v ≡ true
      → all_connected ns ≡ true
      → all_connected (ns ++ v ∷ []) ≡ true
  unfolding all_connected
  all_connected-push [] v h o = ground arith
  all_connected-push (n ∷ ns) v h o = ground (arith, all_connected-push ns v)

  all_connected-remove_at :
      (ns : List (Node T V)) (i : ℕ)
      → all_connected ns ≡ true
      → all_connected (remove_at ns i) ≡ true
  unfolding all_connected
  all_connected-remove_at [] i o = o
  all_connected-remove_at (n ∷ ns) zero o = ground arith
  all_connected-remove_at (n ∷ ns) (suc i) o = ground (arith, all_connected-remove_at ns i)

  first_of_all_connected :
      (ns : List (Node T V))
      → all_connected ns ≡ true
      → first_connected ns ≡ (if ltb 0 (length ns) then some 0 else none)
  unfolding all_connected first_connected
  first_of_all_connected [] o = refl
  first_of_all_connected (n ∷ ns) o = ground arith

  all_connected_at :
      (ns : List (Node T V)) (i : ℕ) {x : Node T V}
      → all_connected ns ≡ true
      → get_elem? ns i ≡ some x
      → is_up x ≡ true
  unfolding all_connected
  all_connected_at [] i o e = cc
  all_connected_at (n ∷ ns) zero o e = ground arith
  all_connected_at (n ∷ ns) (suc i) o e = all_connected_at ns i (ground arith) e

  -- A connected node at the end.
  pub first_connected-push_up :
      (ns : List (Node T V)) (v : Node T V)
      → is_up v ≡ true
      → first_connected (ns ++ v ∷ []) ≡ or_else (first_connected ns) (some (length ns))
  unfolding first_connected
  first_connected-push_up [] v h = ground arith
  first_connected-push_up (n ∷ ns) v h = ground (arith, first_connected-push_up ns v)

  pub is_ordered-push_up :
      (ns : List (Node T V)) (v : Node T V)
      → is_up v ≡ true
      → is_ordered ns ≡ true
      → is_ordered (ns ++ v ∷ []) ≡ true
  unfolding is_ordered
  is_ordered-push_up [] v h o = ground arith
  is_ordered-push_up (n ∷ ns) v h o =
      ground (arith, all_connected-push ns v, is_ordered-push_up ns v)

  -- A disconnected node where none is connected.
  pub first_connected-push_down :
      (ns : List (Node T V)) (v : Node T V)
      → is_up v ≡ false
      → first_connected ns ≡ none
      → first_connected (ns ++ v ∷ []) ≡ none
  unfolding first_connected
  first_connected-push_down [] v h e = ground arith
  first_connected-push_down (n ∷ ns) v h e = ground (arith, first_connected-push_down ns v)

  pub is_ordered-push_down :
      (ns : List (Node T V)) (v : Node T V)
      → is_up v ≡ false
      → first_connected ns ≡ none
      → is_ordered (ns ++ v ∷ []) ≡ true
  unfolding first_connected is_ordered
  is_ordered-push_down [] v h e = ground arith
  is_ordered-push_down (n ∷ ns) v h e = ground (arith, is_ordered-push_down ns v)

  -- A disconnected node before the first connected one.
  pub first_connected-insert_down :
      (ns : List (Node T V)) (p : ℕ) (v : Node T V)
      → is_up v ≡ false
      → first_connected ns ≡ some p
      → first_connected (insert_at ns p v) ≡ some (suc p)
  unfolding first_connected
  first_connected-insert_down [] p v h e = cc
  first_connected-insert_down (n ∷ ns) zero v h e = ground arith
  first_connected-insert_down (n ∷ ns) (suc p) v h e =
      ground (arith, first_connected-insert_down ns p v)

  pub is_ordered-insert_down :
      (ns : List (Node T V)) (p : ℕ) (v : Node T V)
      → is_up v ≡ false
      → first_connected ns ≡ some p
      → is_ordered ns ≡ true
      → is_ordered (insert_at ns p v) ≡ true
  unfolding first_connected is_ordered
  is_ordered-insert_down [] p v h e o = cc
  is_ordered-insert_down (n ∷ ns) zero v h e o = ground arith
  is_ordered-insert_down (n ∷ ns) (suc p) v h e o = ground (arith, is_ordered-insert_down ns p v)

  pub is_ordered-remove_at :
      (ns : List (Node T V)) (i : ℕ) → is_ordered ns ≡ true → is_ordered (remove_at ns i) ≡ true
  unfolding is_ordered
  is_ordered-remove_at [] i o = o
  is_ordered-remove_at (n ∷ []) zero o = refl
  is_ordered-remove_at (n ∷ m ∷ ns) zero o = ground arith
  is_ordered-remove_at (n ∷ ns) (suc i) o =
      ground (arith, all_connected-remove_at ns i, is_ordered-remove_at ns i)

  -- The removal of any node, as `update_first_connected_pos_for_removal` computes it.
  pub first_connected-remove_at :
      (ns : List (Node T V)) (i : ℕ)
      → i < length ns
      → is_ordered ns ≡ true
      → first_connected (remove_at ns i) ≡ (
          first_connected ns >>= λ p.
          if ltb i p
          then some (p - 1)
          else if ltb p (length (remove_at ns i))
          then some p
          else none)
  unfolding is_ordered first_connected
  first_connected-remove_at [] i h o = elim h [ ]
  first_connected-remove_at (n ∷ ns) zero h o =
      ground (arith, first_of_all_connected ns, first_connected-lt ns)
  first_connected-remove_at (n ∷ ns) (suc i) h o =
      ground (arith, first_connected-remove_at ns i, first_of_all_connected ns)

  -- In an ordered bucket a node is connected exactly from the first connected position on.
  pub is_up_at :
      (ns : List (Node T V)) (i : ℕ) {x : Node T V}
      → get_elem? ns i ≡ some x
      → is_ordered ns ≡ true
      → is_up x
        ≡ (elim (first_connected ns) [ none ↦ false | some p ↦ if ltb i p then false else true ])
  unfolding is_ordered first_connected
  is_up_at [] i e o = cc
  is_up_at (n ∷ ns) zero e o = ground arith
  is_up_at (n ∷ ns) (suc i) {x} e o =
      ground (arith, is_up_at ns i {x = x}, all_connected_at ns i {x = x})

  -- The removal of a node of known state, as `update_status` computes it.
  pub first_connected-detach :
      (ns : List (Node T V)) (i : ℕ) {x : Node T V}
      → get_elem? ns i ≡ some x
      → is_ordered ns ≡ true
      → first_connected (remove_at ns i)
        ≡ pos_after_removal x.status.state i (length (remove_at ns i)) (first_connected ns)
  first_connected-detach ns i {x} e o = ground (
    arith,
    is_up_at ns i e o,
    first_connected-remove_at ns i (lt_of_get_elem? ns i e) o,
    lt_of_get_elem? ns i e,
    length-remove_at ns i (lt_of_get_elem? ns i e),
  )
