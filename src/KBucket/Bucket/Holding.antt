-- ===== src/KBucket/Bucket/Holding.antt =====
-- The keys in a bucket (src/kbucket/bucket.rs): no operation brings in another key than the one that
-- it is given.
use discv.KBucket.Node.{FailureReason}
use discv.KBucket.Bucket.Update.{set_status}
use discv.Prelude.{
  false, List, Option, Bool, ℕ, All, some, ◌∷◌, ◌++◌, subst, inl, get_elem?, if◌then◌else◌,
  Bool-cases, [], sym, none, inr, ◌≡◌, All-remove_at, true, set, All-get_elem?, suc, remove_at,
  zero, ◌==◌, ◌&&◌,
}
use discv.KBucket.Key.{Key}
use discv.KBucket.Bucket.Valid.{downs, ups, without}
use discv.KBucket.Bucket.Order.{is_up}
use discv.KBucket.Bucket.Inserts.{Joins, Inserts}
use discv.KBucket.Bucket.Apply.{Applies, Replaces}
use discv.KBucket.Bucket.Statuses.{UpdatesStatus, Moves, moved_node, detached}
use discv.KBucket.Bucket.Values.{SetsValue, SetsPending}
use discv.ArrayVec.{ArrayVec}
use discv.Prelude.Eq.{Eq}
use discv.KBucket.Bucket.{
  max_nodes_per_bucket, KBucket, holds_key, Key, ConnectionState, ConnectionDirection, NodeStatus,
  is_connected,
}
use discv.KBucket.Node.{
  Node, InsertResult, UpdateResult, AppliedPending, PendingNode, ConnectionState,
  ConnectionDirection, NodeStatus, is_connected,
}

module _ {ℓ} {T V : Type ℓ} (P : Key T → Type 0) where
  abbrev pub HoldsNodes : List (Node T V) → Type 0
  HoldsNodes = All (λ n. P n.key)

  abbrev pub HoldsPending : Option (PendingNode T V) → Type 0
  HoldsPending none = Unit
  HoldsPending (some p) = P p.node.key

  -- All keys of the bucket satisfy `P`, the pending node's too.
  abbrev pub Holds : KBucket T V → Type 0
  Holds b = HoldsNodes b.nodes × HoldsPending b.pending

  halves : (ns : List (Node T V)) → HoldsNodes ns → HoldsNodes (downs ns) × HoldsNodes (ups ns)
  unfolding downs ups
  halves [] h = (tt, tt)
  halves (n ∷ ns) h = elim (Bool-cases (is_up n)) [
    | inl up ↦ let (d, u) = halves ns h.1 in rw up (d, (h.0, u))
    | inr down ↦ let (d, u) = halves ns h.1 in rw down ((h.0, d), u)
  ]

  of_halves : (ns : List (Node T V)) → HoldsNodes (downs ns) → HoldsNodes (ups ns) → HoldsNodes ns
  unfolding downs ups
  of_halves [] d u = tt
  of_halves (n ∷ ns) d u = elim (Bool-cases (is_up n)) [
    | inl up ↦ let d' = rw up at d in let u' = rw up at u in (u'.0, of_halves ns d' u'.1)
    | inr down ↦ let d' = rw down at d in let u' = rw down at u in (d'.0, of_halves ns d'.1 u')
  ]

  pushed :
      (ns : List (Node T V)) (n : Node T V) → HoldsNodes ns → P n.key → HoldsNodes (ns ++ n ∷ [])
  pushed [] n h p = (p, tt)
  pushed (m ∷ ns) n h p = (h.0, pushed ns n h.1 p)

  Joins-Holds :
      (up : Bool) (n : Node T V) (b c : KBucket T V)
      → Joins up n b c
      → HoldsNodes b.nodes
      → P n.key
      → HoldsNodes c.nodes
  Joins-Holds true n b c j h p =
      let (d, u) = halves b.nodes h in
      of_halves c.nodes (subst HoldsNodes (sym j.0) d)
        (subst HoldsNodes (sym j.1) (pushed (ups b.nodes) n u p))
  Joins-Holds false n b c j h p =
      let (d, u) = halves b.nodes h in
      of_halves c.nodes (subst HoldsNodes (sym j.0) (pushed (downs b.nodes) n d p))
        (subst HoldsNodes (sym j.1) u)

  dropped :
      (c : Bool) (q : Option (PendingNode T V))
      → HoldsPending q
      → HoldsPending (if c then none else q)
  dropped true q h = tt
  dropped false q h = h

  pub Inserts-Holds :
      (now : ℕ) (n : Node T V) (b c : KBucket T V) (r : InsertResult T)
      → Inserts now n b (c, r)
      → Holds b
      → P n.key
      → Holds c
  Inserts-Holds now n b c InsertResult.inserted i h p = (
    Joins-Holds (is_up n) n b c i.1 h.0 p,
    subst HoldsPending (sym i.2) (dropped (holds_key b.pending n.key) b.pending h.1),
  )
  Inserts-Holds now n b c (InsertResult.pending k) i h p = subst Holds (sym i.4) (h.0, p)
  Inserts-Holds now n b c InsertResult.full i h p = subst Holds (sym i.2) h
  Inserts-Holds now n b c InsertResult.too_many_incoming i h p = subst Holds (sym i.2) h
  Inserts-Holds now n b c InsertResult.failed_filter i h p = subst Holds (sym i.1) h
  Inserts-Holds now n b c InsertResult.node_exists i h p = subst Holds (sym i.1) h

  pub Applies-Holds :
      (now : ℕ) (b c : KBucket T V) (a : Option (AppliedPending T V))
      → Applies now b (c, a)
      → Holds b
      → Holds c
  Applies-Holds now b c none (inl (_, e)) h = subst Holds (sym e) h
  Applies-Holds now b c none (inr (_, _, _, _, e)) h = subst Holds (sym e) (h.0, tt)
  Applies-Holds now b c (some a) (p, e, _, _, free, r, _, _, _) h =
      (replaces a.evicted r, subst HoldsPending (sym free) tt)
    where
      here : P p.node.key
      here = subst HoldsPending e h.1

      replaces : (o : Option (Node T V)) → Replaces o p.node b c → HoldsNodes c.nodes
      replaces none r = Joins-Holds (is_up p.node) p.node b c r.1 h.0 here
      replaces (some first) r =
          Joins-Holds (is_up p.node) p.node (without 0 b) c r.3
            (All-remove_at (λ n. P n.key) b.nodes 0 h.0) here

  written :
      (ns : List (Node T V)) (i : ℕ) (n : Node T V)
      → P n.key
      → HoldsNodes ns
      → HoldsNodes (set ns i n)
  written [] i n p h = tt
  written (m ∷ ns) zero n p h = (p, h.1)
  written (m ∷ ns) (suc i) n p h = (h.0, written ns i n p h.1)

  Moves-Holds :
      (b c : KBucket T V) (pos : ℕ) (x : Node T V) (s : NodeStatus) (r : UpdateResult)
      → Moves b pos x s (c, r)
      → Holds b
      → P x.key
      → Holds c
  Moves-Holds b c pos x s r m h px = by_result r m
    where
      rest : HoldsNodes (remove_at b.nodes pos)
      rest = All-remove_at (λ n. P n.key) b.nodes pos h.0

      waiting : HoldsPending (detached b pos x s).pending
      waiting = dropped (pos == 0 && is_connected s) b.pending h.1

      joined :
          (up : Bool)
          → Joins up (moved_node b pos x s) (without pos b) c
          → c.pending ≡ (detached b pos x s).pending
          → Holds c
      joined up j q = (
        Joins-Holds up (moved_node b pos x s) (without pos b) c j rest px,
        subst HoldsPending (sym q) waiting,
      )

      by_result : (r : UpdateResult) → Moves b pos x s (c, r) → Holds c
      by_result UpdateResult.not_modified m = joined (is_connected s) m.1 m.2
      by_result UpdateResult.updated_and_promoted m = joined true m.2 m.3
      by_result UpdateResult.updated m = joined (is_connected s) m.2 m.3
      by_result UpdateResult.updated_pending m = absurd m.0
      by_result (UpdateResult.failed FailureReason.too_many_incoming) m =
          subst Holds (sym m.2) (rest, waiting)
      by_result (UpdateResult.failed FailureReason.bucket_filter) m =
          subst Holds (sym m.1) (rest, waiting)
      by_result (UpdateResult.failed FailureReason.table_filter) m = absurd m.0
      by_result (UpdateResult.failed FailureReason.key_non_existent) m = absurd m.0
      by_result (UpdateResult.failed FailureReason.bucket_full) m = absurd m.0
      by_result (UpdateResult.failed FailureReason.invalid_self_update) m = absurd m.0

  module _ ⦃vec : ArrayVec max_nodes_per_bucket (Node T V)⦄ where
    pub UpdatesStatus-Holds :
        (key : Key T) (state : ConnectionState) (direction : Option ConnectionDirection)
        (b c : KBucket T V) (r : UpdateResult)
        → UpdatesStatus key state direction b (c, r)
        → Holds b
        → Holds c
    UpdatesStatus-Holds key state direction b c r (inr (_, inl (p, e, _, q))) h =
        let here : P p.node.key = subst HoldsPending e h.1 in
        subst (λ (w : KBucket T V × UpdateResult). Holds w.0) (sym q) (h.0, here)
    UpdatesStatus-Holds key state direction b c r (inr (_, inr (_, q))) h =
        subst (λ (w : KBucket T V × UpdateResult). Holds w.0) (sym q) h
    UpdatesStatus-Holds key state direction b c r (inl (pos, x, _, at_pos, _, m)) h =
        Moves-Holds b c pos x (set_status state direction x.status) r m h
          (All-get_elem? (λ n. P n.key) b.nodes pos at_pos h.0)

    module _ ⦃eq : Eq V⦄ where
      pub SetsValue-Holds :
          (pos : ℕ) (x : Node T V) (value : V) (b c : KBucket T V) (r : UpdateResult)
          → get_elem? b.nodes pos ≡ some x
          → SetsValue pos x value b (c, r)
          → Holds b
          → Holds c
      SetsValue-Holds pos x value b c r at_pos (inl (_, q)) h =
          subst (λ (w : KBucket T V × UpdateResult). Holds w.0) (sym q) h
      SetsValue-Holds pos x value b c r at_pos (inr (inl (_, _, q))) h =
          let px = All-get_elem? (λ n. P n.key) b.nodes pos at_pos h.0 in
          subst (λ (w : KBucket T V × UpdateResult). Holds w.0) (sym q)
            (written b.nodes pos (record x { value = value }) px h.0, h.1)
      SetsValue-Holds pos x value b c r at_pos (inr (inr (_, _, q))) h =
          subst (λ (w : KBucket T V × UpdateResult). Holds w.0) (sym q)
            (All-remove_at (λ n. P n.key) b.nodes pos h.0, h.1)

      pub SetsPending-Holds :
          (key : Key T) (value : V) (b c : KBucket T V) (r : UpdateResult)
          → SetsPending key value b (c, r)
          → Holds b
          → Holds c
      SetsPending-Holds key value b c r (inl (p, e, _, q)) h =
          let here : P p.node.key = subst HoldsPending e h.1 in
          subst (λ (w : KBucket T V × UpdateResult). Holds w.0) (sym q) (h.0, here)
      SetsPending-Holds key value b c r (inr (_, q)) h =
          subst (λ (w : KBucket T V × UpdateResult). Holds w.0) (sym q) h
