-- ===== src/KBucket/Bucket/Keys.antt =====
-- The keys of a bucket's nodes (src/kbucket/bucket.rs): which hash is where, and that none is twice;
-- and how many connected incoming nodes there are.
use discv.Prelude.{
  ℕ, zero, suc, ◌≤◌, ◌≡◌, ◌≢◌, refl, false, Option, none, some, List, [], ◌∷◌, arith, if◌then◌else◌,
  is_some, get_elem?, insert_at, remove_at, All, All-insert_at, All-remove_at, All-get_elem?, subst,
}
use discv.KBucket.Key.{Key}
use discv.KBucket.Node.{Node, PendingNode}
use discv.KBucket.Bucket.{position_in, find_in, incoming_count, counts_incoming}

module _ {ℓ} {T V : Type ℓ} where
  abbrev pub Absent : ℕ → List (Node T V) → Type 0
  Absent h = All (λ n. n.key.hash ≢ h)

  -- No two nodes have one hash.
  abbrev pub Unique : List (Node T V) → Type 0
  Unique [] = Unit
  Unique (n ∷ ns) = Absent n.key.hash ns × Unique ns

  -- The pending node is not in the bucket too.
  abbrev pub IsApart : Option (PendingNode T V) → List (Node T V) → Type 0
  IsApart none ns = Unit
  IsApart (some p) ns = Absent p.node.key.hash ns

  pub position_in-none :
      (key : Key T) (ns : List (Node T V))
      → is_some (position_in key ns) ≡ false
      → Absent key.hash ns
  unfolding position_in
  position_in-none key [] h = tt
  position_in-none key (n ∷ ns) h = ground (arith, position_in-none key ns)

  pub position_in_of_Absent :
      (key : Key T) (ns : List (Node T V)) → Absent key.hash ns → position_in key ns ≡ none
  unfolding position_in
  position_in_of_Absent key [] h = refl
  position_in_of_Absent key (n ∷ ns) h = ground (arith, position_in_of_Absent key ns h.1)

  -- A position that is found holds a node with the hash.
  pub get_elem?-position_in :
      (key : Key T) (ns : List (Node T V)) (i : ℕ)
      → position_in key ns ≡ some i
      → (x : Node T V) × (get_elem? ns i ≡ some x) × (x.key.hash ≡ key.hash)
  unfolding position_in
  get_elem?-position_in key [] i e = cc
  get_elem?-position_in key (n ∷ ns) zero e = (n, refl, ground arith)
  get_elem?-position_in key (n ∷ ns) (suc i) e = get_elem?-position_in key ns i (ground arith)

  -- `get` finds the node at `position`.
  pub find_in-position_in :
      (key : Key T) (ns : List (Node T V)) (i : ℕ)
      → position_in key ns ≡ some i
      → find_in key ns ≡ get_elem? ns i
  unfolding position_in find_in
  find_in-position_in key [] i e = cc
  find_in-position_in key (n ∷ ns) zero e = ground arith
  find_in-position_in key (n ∷ ns) (suc i) e = ground (arith, find_in-position_in key ns i)

  pub Unique-insert_at :
      (ns : List (Node T V)) (i : ℕ) (v : Node T V)
      → Absent v.key.hash ns
      → Unique ns
      → Unique (insert_at ns i v)
  Unique-insert_at [] i v a u = (tt, tt)
  Unique-insert_at (n ∷ ns) zero v a u = (a, u)
  Unique-insert_at (n ∷ ns) (suc i) v a u = (
    All-insert_at (λ m. m.key.hash ≢ n.key.hash) ns i v (λ e. a.0 (ground arith)) u.0,
    Unique-insert_at ns i v a.1 u.1,
  )

  pub Unique-remove_at : (ns : List (Node T V)) (i : ℕ) → Unique ns → Unique (remove_at ns i)
  Unique-remove_at [] i u = tt
  Unique-remove_at (n ∷ ns) zero u = u.1
  Unique-remove_at (n ∷ ns) (suc i) u =
      (All-remove_at (λ m. m.key.hash ≢ n.key.hash) ns i u.0, Unique-remove_at ns i u.1)

  -- What is taken out of a bucket without duplicates is gone.
  pub Absent-remove_at :
      (ns : List (Node T V)) (i : ℕ) {x : Node T V}
      → get_elem? ns i ≡ some x
      → Unique ns
      → Absent x.key.hash (remove_at ns i)
  Absent-remove_at [] i e u = tt
  Absent-remove_at (n ∷ ns) zero {x} e u =
      let e' : n ≡ x = cc in subst (λ (y : Node T V). Absent y.key.hash ns) e' u.0
  Absent-remove_at (n ∷ ns) (suc i) {x} e u = (
    (λ q. All-get_elem? (λ m. m.key.hash ≢ n.key.hash) ns i e u.0 (ground arith)),
    Absent-remove_at ns i e u.1,
  )

  pub IsApart-insert_at :
      (p : Option (PendingNode T V)) (ns : List (Node T V)) (i : ℕ) (v : Node T V)
      → IsApart p (v ∷ [])
      → IsApart p ns
      → IsApart p (insert_at ns i v)
  IsApart-insert_at none ns i v h a = tt
  IsApart-insert_at (some p) ns i v h a =
      All-insert_at (λ m. m.key.hash ≢ p.node.key.hash) ns i v h.0 a

  pub IsApart-remove_at :
      (p : Option (PendingNode T V)) (ns : List (Node T V)) (i : ℕ)
      → IsApart p ns
      → IsApart p (remove_at ns i)
  IsApart-remove_at none ns i a = tt
  IsApart-remove_at (some p) ns i a = All-remove_at (λ m. m.key.hash ≢ p.node.key.hash) ns i a

  pub IsApart-get_elem? :
      (p : Option (PendingNode T V)) (ns : List (Node T V)) (i : ℕ) {x : Node T V}
      → get_elem? ns i ≡ some x
      → IsApart p ns
      → IsApart p (x ∷ [])
  IsApart-get_elem? none ns i e a = tt
  IsApart-get_elem? (some p) ns i e a =
      (All-get_elem? (λ m. m.key.hash ≢ p.node.key.hash) ns i e a, tt)

  pub incoming_count-insert_at :
      (ns : List (Node T V)) (i : ℕ) (v : Node T V)
      → incoming_count (insert_at ns i v)
        ≡ (if counts_incoming v then suc (incoming_count ns) else incoming_count ns)
  unfolding incoming_count
  incoming_count-insert_at [] i v = refl
  incoming_count-insert_at (n ∷ ns) zero v = refl
  incoming_count-insert_at (n ∷ ns) (suc i) v = ground (arith, incoming_count-insert_at ns i v)

  pub incoming_count-remove_at :
      (ns : List (Node T V)) (i : ℕ) → incoming_count (remove_at ns i) ≤ incoming_count ns
  unfolding incoming_count
  incoming_count-remove_at [] i = omega arith
  incoming_count-remove_at (n ∷ ns) zero = ground arith
  incoming_count-remove_at (n ∷ ns) (suc i) = ground (arith, incoming_count-remove_at ns i)
