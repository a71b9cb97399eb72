-- ===== src/KBucket/Bucket/Applies.antt =====
-- `KBucket::apply_pending` (src/kbucket/bucket.rs) meets its contract.
use discv.KBucket.Bucket.Order.{is_up}
use discv.KBucket.Bucket.Contract.{after_insert-Inserts}
use discv.KBucket.Bucket.Insert.{insert-after_insert, after_insert}
use discv.KBucket.Bucket.Keys.{Absent, IsApart, position_in_of_Absent}
use discv.KBucket.Bucket.Inserts.{Inserts, after_insert-IsValid, Joins, is_over, SameSettings}
use discv.KBucket.Bucket.Apply.{
  Refused, Replaces, Applies, without_pending, apply_full_cases, replaced-IsValid, replaced-pending,
  replaced-SameSettings, Joins-replaced, without_pending-IsValid,
}
use discv.KBucket.Bucket.Valid.{IsValid, without}
use discv.KBucket.Bucket.Update.{apply_ready, apply_pending, applied_by_insert}
use discv.Prelude.{
  false, ℕ, ◌≡◌, refl, none, Option, length, some, ◌≢◌, ◌≤◌, Bool-cases, Option-cases, arith, inl,
  inr, leb, subst, ◌∙◌, leb→le, Bool, true,
}
use discv.KBucket.Node.{Node, InsertResult, AppliedPending, PendingNode}
use discv.ArrayVec.{ArrayVec}
use discv.KBucket.Bucket.{KBucket, max_nodes_per_bucket, PendingNode, is_full, passes_filter}

module _ {ℓ} {T V : Type ℓ} (now : ℕ) (node : Node T V) (b : KBucket T V)
    (free : b.pending ≡ none) where
  -- `Applies`, of a pending node that is ready.
  abbrev Takes : KBucket T V × Option (AppliedPending T V) → Type ℓ
  Takes (c, none) = (c ≡ b) × Refused node b
  Takes (c, some a) =
      (a.inserted ≡ node.key)
      × (c.pending ≡ none)
      × Replaces a.evicted node b c
      × (passes_filter b.filter node.value b.nodes ≡ true)
      × (is_over node b ≡ false)
      × SameSettings b c

  applied_by_insert-Takes :
      (r : KBucket T V × InsertResult T)
      → length b.nodes ≢ max_nodes_per_bucket
      → Absent node.key.hash b.nodes
      → IsValid r.0
      → Inserts now node b r
      → (u : KBucket T V × Option (AppliedPending T V)) × (applied_by_insert node.key r ≡ some u)
        × IsValid u.0
        × Takes u
  applied_by_insert-Takes (c, InsertResult.inserted) room absent v i = (
    (c, some (record { inserted = node.key; evicted = none })),
    refl,
    v,
    (refl, ground arith, (i.0, i.1), i.3.1, i.4, i.5),
  )
  applied_by_insert-Takes (c, InsertResult.pending k) room absent v i = absurd (room i.0)
  applied_by_insert-Takes (c, InsertResult.full) room absent v i = absurd (room i.0)
  applied_by_insert-Takes (c, InsertResult.too_many_incoming) room absent v i =
      ((c, none), refl, v, (i.2, inr (inr (ground (arith, i.0, i.1)))))
  applied_by_insert-Takes (c, InsertResult.failed_filter) room absent v i =
      ((c, none), refl, v, (i.1, inr (inl i.0)))
  applied_by_insert-Takes (c, InsertResult.node_exists) room absent v i =
      absurd (ground (arith, i.0, position_in_of_Absent node.key b.nodes absent))

  apply_ready-Takes :
      ⦃vec : ArrayVec max_nodes_per_bucket (Node T V)⦄
      → IsValid b
      → Absent node.key.hash b.nodes
      → (u : KBucket T V × Option (AppliedPending T V)) × (apply_ready now node b ≡ some u)
        × IsValid u.0
        × Takes u
  unfolding apply_ready
  apply_ready-Takes v absent = elim (Bool-cases (is_full b.nodes)) [
    | inl full ↦
        let h : length b.nodes ≡ max_nodes_per_bucket = ground arith in
        let (u, e, (valid, t)) =
          apply_full_cases node b v absent (λ u. IsValid u.0 × Takes u) h (λ why. (v, (refl, why)))
            λ first at_0 down in_ low. (
              replaced-IsValid node b v absent h free low,
              (
                refl,
                replaced-pending node b v absent ∙ free,
                (h, at_0, down, Joins-replaced node b v absent h),
                in_,
                low,
                replaced-SameSettings node b v absent,
              ),
            ) in
        (u, rw full e, valid, t)
    | inr room ↦
        let h : length b.nodes ≢ max_nodes_per_bucket = ground arith in
        rw (room, insert-after_insert now node b v.settled)
          (applied_by_insert-Takes (after_insert now node b) h absent
            (after_insert-IsValid now node b v) (after_insert-Inserts now node b v))
  ]

module _ {ℓ} {T V : Type ℓ} ⦃vec : ArrayVec max_nodes_per_bucket (Node T V)⦄ where
  Takes-Applies :
      (now : ℕ) (b : KBucket T V) (p : PendingNode T V)
      (u : KBucket T V × Option (AppliedPending T V))
      → b.pending ≡ some p
      → p.replace ≤ now
      → Takes now p.node (without_pending b) refl u
      → Applies now b u
  Takes-Applies now b p (c, none) e h t = inr (p, e, h, t.1, t.0)
  Takes-Applies now b p (c, some a) e h t =
      (p, e, h, t.0, t.1, replaces a.evicted t.2, t.3, t.4, t.5)
    where
      joins : (up : Bool) → Joins up p.node (without_pending b) c → Joins up p.node b c
      joins true j = j
      joins false j = j

      without_same :
          (up : Bool)
          → Joins up p.node (without 0 (without_pending b)) c
          → Joins up p.node (without 0 b) c
      without_same true j = j
      without_same false j = j

      replaces :
          (o : Option (Node T V)) → Replaces o p.node (without_pending b) c → Replaces o p.node b c
      replaces none r = (r.0, joins (is_up p.node) r.1)
      replaces (some first) r = (r.0, r.1, r.2, without_same (is_up p.node) r.3)

  -- On a valid bucket `apply_pending` returns, it does not panic, and the bucket that it leaves is
  -- valid. It reports nothing in two cases. Either no pending node is there whose deadline has
  -- passed, and nothing changes; or there is one, and it is dropped because it cannot enter: the
  -- bucket is full and its first node connected, the filter refuses the value, or the node would be
  -- a connected incoming one too many. If it reports a node, that is the pending node, its deadline
  -- has passed, neither the filter nor the limit keeps it out, none is pending any more, and the
  -- node is now the most recent of its half: in a free place if nothing was evicted, and otherwise
  -- the bucket was full and what was evicted is the first node, which was disconnected. The
  -- settings of the bucket stay.
  pub apply_pending-Applies :
      (now : ℕ) (b : KBucket T V)
      → IsValid b
      → (u : KBucket T V × Option (AppliedPending T V)) × (apply_pending now b ≡ some u)
        × IsValid u.0
        × Applies now b u
  unfolding apply_pending
  apply_pending-Applies now b v = elim (Option-cases b.pending) [
    | inl e ↦ ((b, none), rw e, v, inl (ground (arith, e), refl))
    | inr (p, e) ↦ elim (Bool-cases (leb p.replace now)) [
      | inr early ↦ ((b, none), rw (e, early), v, inl (ground (arith, e, early), refl))
      | inl ready ↦
          let absent : Absent p.node.key.hash b.nodes = subst (λ q. IsApart q b.nodes) e v.apart in
          let (u, eq, valid, t) =
            apply_ready-Takes now p.node (without_pending b) refl (without_pending-IsValid b v)
              absent in
          (u, rw (e, ready) eq, valid, Takes-Applies now b p u e (leb→le p.replace now ready) t)
    ]
  ]
