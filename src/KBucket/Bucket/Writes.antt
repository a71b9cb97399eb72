-- ===== src/KBucket/Bucket/Writes.antt =====
-- src/kbucket/bucket.rs: a bucket stays well-formed when a node gets another value, and when one is
-- taken out.
use discv.KBucket.Bucket.Keys.{Absent, Unique, IsApart, IsApart-remove_at}
use discv.KBucket.Bucket.Valid.{IsValid, without, without-IsSettled}
use discv.KBucket.Bucket.Order.{first_connected, all_connected, is_ordered}
use discv.Prelude.{
  ℕ, ◌≡◌, refl, List, Option, get_elem?, ◌<◌, some, length, set, ◌∷◌, ◌∙◌, none, arith, sym, suc,
  subst, length-set, [], zero,
}
use discv.KBucket.Node.{Node, PendingNode}
use discv.KBucket.Bucket.{KBucket, incoming_count, PendingNode}

module _ {ℓ} {T V : Type ℓ} where
  Absent-set :
      (h : ℕ) (ns : List (Node T V)) (i : ℕ) (x y : Node T V)
      → get_elem? ns i ≡ some x
      → y.key ≡ x.key
      → Absent h ns
      → Absent h (set ns i y)
  Absent-set h [] i x y e k a = tt
  Absent-set h (n ∷ ns) zero x y e k a = ((λ q. a.0 (ground arith)), a.1)
  Absent-set h (n ∷ ns) (suc i) x y e k a = (a.0, Absent-set h ns i x y e k a.1)

  Unique-set :
      (ns : List (Node T V)) (i : ℕ) (x y : Node T V)
      → get_elem? ns i ≡ some x
      → y.key ≡ x.key
      → Unique ns
      → Unique (set ns i y)
  Unique-set [] i x y e k u = tt
  Unique-set (n ∷ ns) zero x y e k u =
      let same : n.key.hash ≡ y.key.hash = ground arith in (subst (λ h. Absent h ns) same u.0, u.1)
  Unique-set (n ∷ ns) (suc i) x y e k u =
      (Absent-set n.key.hash ns i x y e k u.0, Unique-set ns i x y e k u.1)

  IsApart-set :
      (p : Option (PendingNode T V)) (ns : List (Node T V)) (i : ℕ) (x y : Node T V)
      → get_elem? ns i ≡ some x
      → y.key ≡ x.key
      → IsApart p ns
      → IsApart p (set ns i y)
  IsApart-set none ns i x y e k a = tt
  IsApart-set (some p) ns i x y e k a = Absent-set p.node.key.hash ns i x y e k a

  module _ (x y : Node T V) (k : y.status ≡ x.status) where
    first_connected-set :
        (ns : List (Node T V)) (i : ℕ)
        → get_elem? ns i ≡ some x
        → first_connected (set ns i y) ≡ first_connected ns
    unfolding first_connected
    first_connected-set [] i e = refl
    first_connected-set (n ∷ ns) zero e = ground arith
    first_connected-set (n ∷ ns) (suc i) e = ground (arith, first_connected-set ns i e)

    all_connected-set :
        (ns : List (Node T V)) (i : ℕ)
        → get_elem? ns i ≡ some x
        → all_connected (set ns i y) ≡ all_connected ns
    unfolding all_connected
    all_connected-set [] i e = refl
    all_connected-set (n ∷ ns) zero e = ground arith
    all_connected-set (n ∷ ns) (suc i) e = ground (arith, all_connected-set ns i e)

    is_ordered-set :
        (ns : List (Node T V)) (i : ℕ)
        → get_elem? ns i ≡ some x
        → is_ordered (set ns i y) ≡ is_ordered ns
    unfolding is_ordered
    is_ordered-set [] i e = refl
    is_ordered-set (n ∷ ns) zero e = ground arith
    is_ordered-set (n ∷ ns) (suc i) e =
        ground (arith, is_ordered-set ns i e, all_connected-set ns i e)

    incoming_count-set :
        (ns : List (Node T V)) (i : ℕ)
        → get_elem? ns i ≡ some x
        → incoming_count (set ns i y) ≡ incoming_count ns
    unfolding incoming_count
    incoming_count-set [] i e = refl
    incoming_count-set (n ∷ ns) zero e = ground arith
    incoming_count-set (n ∷ ns) (suc i) e = ground (arith, incoming_count-set ns i e)

  pub with_value-IsValid :
      (b : KBucket T V) (i : ℕ) (x : Node T V) (value : V)
      → IsValid b
      → get_elem? b.nodes i ≡ some x
      → IsValid (record b { nodes = set b.nodes i (record x { value = value }) })
  with_value-IsValid b i x value v e = record {
    settled = record {
      first = v.first ∙ sym (first_connected-set x y refl b.nodes i e);
      ordered = is_ordered-set x y refl b.nodes i e ∙ v.ordered;
      incoming = omega (arith, incoming_count-set x y refl b.nodes i e, v.incoming);
      bounded = omega (arith, length-set b.nodes i y, v.bounded);
      unique = Unique-set b.nodes i x y e refl v.unique;
    };
    apart = IsApart-set b.pending b.nodes i x y e refl v.apart;
  }
    where
      y : Node T V
      y = record x { value = value }

  pub without-IsValid :
      (i : ℕ) (b : KBucket T V) → IsValid b → i < length b.nodes → IsValid (without i b)
  without-IsValid i b v h = record {
    settled = without-IsSettled i b v.settled h;
    apart = IsApart-remove_at b.pending b.nodes i v.apart;
  }
