-- ===== src/KBucket/Bucket/Valid.antt =====
-- The well-formedness of a bucket (src/kbucket/bucket.rs), its two halves, and the moves of nodes
-- that every operation is made of.
use discv.Prelude.{
  ℕ, suc, ◌+◌, ◌≤◌, ◌<◌, ◌≡◌, refl, sym, true, false, Option, none, some, List, [], ◌∷◌, ◌++◌,
  arith, if◌then◌else◌, or_else, length, insert_at, insert_at-length, length-insert_at, subst,
  Option-cases, inl, ◌∙◌, inr, remove_at, length-remove_at, ◌==◌, ◌&&◌, get_elem?,
}
use discv.KBucket.Node.{Node, Filter, state_is_connected, PendingNode}
use discv.KBucket.Bucket.{
  max_nodes_per_bucket, KBucket, new, incoming_count, counts_incoming,
  update_first_connected_pos_for_removal, ConnectionState, PendingNode,
}
use discv.KBucket.Bucket.Update.{detach}
use discv.KBucket.Bucket.Order
use discv.KBucket.Bucket.Order.{is_up, first_connected, is_ordered, all_connected}
use discv.KBucket.Bucket.Keys.{
  Absent, Unique, IsApart, Unique-insert_at, incoming_count-insert_at, incoming_count-remove_at,
  Unique-remove_at,
}

-- What the nodes and the position say, the pending node aside.
pub record IsSettled {ℓ} {T V : Type ℓ} (b : KBucket T V) : Type 0 where
  pub first : b.first_connected_pos ≡ first_connected b.nodes
  pub ordered : is_ordered b.nodes ≡ true
  pub incoming : incoming_count b.nodes ≤ b.max_incoming
  pub bounded : length b.nodes ≤ max_nodes_per_bucket
  pub unique : Unique b.nodes

-- Whatever is pending.
pub pending-IsSettled {ℓ} :
    {T V : Type ℓ} (b : KBucket T V) (p : Option (PendingNode T V))
    → IsSettled b
    → IsSettled (record b { pending = p })
pending-IsSettled b p s = record {
  first = s.first;
  ordered = s.ordered;
  incoming = s.incoming;
  bounded = s.bounded;
  unique = s.unique;
}

pub record IsValid {ℓ} {T V : Type ℓ} (b : KBucket T V) : Type 0 where
  pub settled : IsSettled b
  pub open settled use *
  pub apart : IsApart b.pending b.nodes

module _ {ℓ} {T V : Type ℓ} where
  -- The disconnected nodes and the connected nodes, each from least to most recent.
  unfoldable pub downs : List (Node T V) → List (Node T V)
  downs [] = []
  downs (n ∷ ns) = if is_up n then downs ns else n ∷ downs ns

  unfoldable pub ups : List (Node T V) → List (Node T V)
  ups [] = []
  ups (n ∷ ns) = if is_up n then n ∷ ups ns else ups ns

  pub halves_of_all_connected :
      (ns : List (Node T V)) → all_connected ns ≡ true → (downs ns ≡ []) × (ups ns ≡ ns)
  unfolding all_connected downs ups
  halves_of_all_connected [] o = (refl, refl)
  halves_of_all_connected (n ∷ ns) o = ground (arith, halves_of_all_connected ns)

  pub halves_of_is_ordered : (ns : List (Node T V)) → is_ordered ns ≡ true → downs ns ++ ups ns ≡ ns
  unfolding is_ordered downs ups
  halves_of_is_ordered [] o = refl
  halves_of_is_ordered (n ∷ ns) o =
      ground (arith, halves_of_is_ordered ns, halves_of_all_connected ns)

  pub new-IsValid :
      (pending_timeout max_incoming : ℕ) (f : Option (Filter V))
      → IsValid {T = T} (new pending_timeout max_incoming f)
  unfolding new first_connected is_ordered incoming_count
  new-IsValid pending_timeout max_incoming f = record {
    settled = record {
      first = refl;
      ordered = refl;
      incoming = omega arith;
      bounded = omega arith;
      unique = tt;
    };
    apart = tt;
  }

  -- A connected node put last, and a disconnected one put before the connected ones.
  abbrev pub with_up : Node T V → KBucket T V → KBucket T V
  with_up v b = record b {
    nodes = b.nodes ++ v ∷ [];
    first_connected_pos = or_else b.first_connected_pos (some (length b.nodes));
  }

  abbrev pub with_down : Node T V → KBucket T V → KBucket T V
  with_down v b = elim b.first_connected_pos [
    | some p ↦ record b { nodes = insert_at b.nodes p v; first_connected_pos = some (p + 1) }
    | none ↦ record b { nodes = b.nodes ++ v ∷ [] }
  ]

  pub Unique-push :
      (ns : List (Node T V)) (v : Node T V)
      → Absent v.key.hash ns
      → Unique ns
      → Unique (ns ++ v ∷ [])
  Unique-push ns v a u =
      subst Unique (insert_at-length ns v) (Unique-insert_at ns (length ns) v a u)

  pub length-push : (ns : List (Node T V)) (v : Node T V) → length (ns ++ v ∷ []) ≡ suc (length ns)
  length-push ns v = rw (← insert_at-length) (length-insert_at ns (length ns) v)

  pub incoming_count-push :
      (ns : List (Node T V)) (v : Node T V)
      → incoming_count (ns ++ v ∷ [])
        ≡ (if counts_incoming v then suc (incoming_count ns) else incoming_count ns)
  incoming_count-push ns v = rw (← insert_at-length) (incoming_count-insert_at ns (length ns) v)

  pub with_up-IsSettled :
      (v : Node T V) (b : KBucket T V)
      → IsSettled b
      → is_up v ≡ true
      → length b.nodes < max_nodes_per_bucket
      → Absent v.key.hash b.nodes
      → (if counts_incoming v then suc (incoming_count b.nodes) else incoming_count b.nodes)
        ≤ b.max_incoming
      → IsSettled (with_up v b)
  with_up-IsSettled v b s up room absent count = record {
    first = rw (s.first) (sym (Order.first_connected-push_up b.nodes v up));
    ordered = Order.is_ordered-push_up b.nodes v up s.ordered;
    incoming = rw (incoming_count-push b.nodes v) count;
    bounded = omega (arith, length-push b.nodes v);
    unique = Unique-push b.nodes v absent s.unique;
  }

  pub with_down-IsSettled :
      (v : Node T V) (b : KBucket T V)
      → IsSettled b
      → is_up v ≡ false
      → length b.nodes < max_nodes_per_bucket
      → Absent v.key.hash b.nodes
      → IsSettled (with_down v b)
  with_down-IsSettled v b s down room absent = elim (Option-cases b.first_connected_pos) [
    | inl none_up ↦
        let none_up' : first_connected b.nodes ≡ none = sym s.first ∙ none_up in
        rw (none_up, with_down)
          (record {
            first = rw none_up (sym (Order.first_connected-push_down b.nodes v down none_up'));
            ordered = Order.is_ordered-push_down b.nodes v down none_up';
            incoming = ground (arith, incoming_count-push b.nodes v);
            bounded = omega (arith, length-push b.nodes v);
            unique = Unique-push b.nodes v absent s.unique;
          })
    | inr (p, at_p) ↦
        let at_p' : first_connected b.nodes ≡ some p = sym s.first ∙ at_p in
        rw (at_p, with_down)
          (record {
            first = ground (arith, Order.first_connected-insert_down b.nodes p v down at_p');
            ordered = Order.is_ordered-insert_down b.nodes p v down at_p' s.ordered;
            incoming = ground (arith, incoming_count-insert_at b.nodes p v);
            bounded = omega (arith, length-insert_at b.nodes p v);
            unique = Unique-insert_at b.nodes p v absent s.unique;
          })
  ]

  -- A node taken out, the position found anew.
  abbrev pub without : ℕ → KBucket T V → KBucket T V
  without i b = record b {
    nodes = remove_at b.nodes i;
    first_connected_pos = first_connected (remove_at b.nodes i);
  }

  pub without-IsSettled :
      (i : ℕ) (b : KBucket T V) → IsSettled b → i < length b.nodes → IsSettled (without i b)
  without-IsSettled i b s h = record {
    first = refl;
    ordered = Order.is_ordered-remove_at b.nodes i s.ordered;
    incoming = omega (arith, incoming_count-remove_at b.nodes i, s.incoming);
    bounded = omega (arith, length-remove_at b.nodes i h, s.bounded);
    unique = Unique-remove_at b.nodes i s.unique;
  }

  -- The two ways in which the code finds the position after a removal.
  pub removal-without :
      (i : ℕ) (b : KBucket T V)
      → IsSettled b
      → i < length b.nodes
      → update_first_connected_pos_for_removal i (record b { nodes = remove_at b.nodes i })
        ≡ without i b
  unfolding update_first_connected_pos_for_removal
  removal-without i b s h = rw (s.first, Order.first_connected-remove_at b.nodes i h s.ordered) refl

  pub detach-without :
      (i : ℕ) (state : ConnectionState) (b : KBucket T V) {x : Node T V}
      → IsSettled b
      → get_elem? b.nodes i ≡ some x
      → detach i x.status.state state (remove_at b.nodes i) b ≡ record (without i b) {
        pending = if i == 0 && state_is_connected state then none else b.pending;
      }
  unfolding detach
  detach-without i state b s e =
      rw (s.first, Order.first_connected-detach b.nodes i e s.ordered) refl
