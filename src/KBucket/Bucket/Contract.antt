-- ===== src/KBucket/Bucket/Contract.antt =====
-- `KBucket::insert` (src/kbucket/bucket.rs) meets its contract.
use discv.KBucket.Bucket.Halves.{halves-push_down, halves-push_up, halves-insert_down}
use discv.KBucket.Bucket.Insert.{
  after_insert, placed_full, insert-after_insert, drop-same, as_waiting,
}
use discv.KBucket.Bucket.Inserts.{
  Inserts, Admits, is_over, SameSettings, Joins, after_insert_cases, placed_full_cases,
  placed_cases, after_insert-IsValid,
}
use discv.KBucket.Bucket.Valid.{
  IsValid, downs, with_down, halves_of_all_connected, IsSettled, with_up,
}
use discv.ArrayVec.{ArrayVec}
use discv.KBucket.Bucket.{
  insert, drop_inserted_pending, KBucket, max_nodes_per_bucket, InsertResult, holds_key,
}
use discv.KBucket.Bucket.Order.{is_ordered, first_connected, is_up}
use discv.Prelude.{
  ℕ, ◌≡◌, refl, true, false, Bool, arith, List, if◌then◌else◌, length, Option-cases, some, none,
  inl, [], inr, sym, ◌∙◌, ◌∷◌,
}
use discv.KBucket.Node.{Node, InsertResult}
use discv.KBucket.Bucket.Order

module _ {ℓ} {T V : Type ℓ} where
  downs_of_zero :
      (ns : List (Node T V)) → is_ordered ns ≡ true → first_connected ns ≡ some 0 → downs ns ≡ []
  unfolding is_ordered first_connected downs
  downs_of_zero [] o e = cc
  downs_of_zero (n ∷ ns) o e = ground (arith, halves_of_all_connected ns)

  drop-inserted :
      (held : Bool) (b : KBucket T V)
      → drop_inserted_pending held (b, InsertResult.inserted)
        ≡ (record b { pending = if held then none else b.pending }, InsertResult.inserted)
  unfolding drop_inserted_pending
  drop-inserted true b = refl
  drop-inserted false b = refl

  pub Joins-with_down :
      (node : Node T V) (b : KBucket T V)
      → IsSettled b
      → is_up node ≡ false
      → Joins false node b (with_down node b)
  Joins-with_down node b s down = elim (Option-cases b.first_connected_pos) [
    | inl none_up ↦ rw (none_up, with_down) (halves-push_down b.nodes node down)
    | inr (p, at_p) ↦
        rw (at_p, with_down) (halves-insert_down b.nodes p node down s.ordered (sym s.first ∙ at_p))
  ]

  pub Joins-with_up :
      (node : Node T V) (b : KBucket T V) → is_up node ≡ true → Joins true node b (with_up node b)
  Joins-with_up node b up = halves-push_up b.nodes node up

module _ {ℓ} {T V : Type ℓ} (now : ℕ) (node : Node T V) (b : KBucket T V) (v : IsValid b) where
  with_down-SameSettings : SameSettings b (with_down node b)
  with_down-SameSettings = (ground arith, ground arith, ground arith)

  with_down-pending : (with_down node b).pending ≡ b.pending
  with_down-pending = ground arith

  full-Inserts :
      Admits node b
      → is_over node b ≡ false
      → is_up node ≡ true
      → length b.nodes ≡ max_nodes_per_bucket
      → (held : Bool) → Inserts now node b (drop_inserted_pending held (placed_full now node b))
  full-Inserts admitted under up h held =
      placed_full_cases now node b (λ r. Inserts now node b (drop_inserted_pending held r))
        (λ why. rw (drop-same held b InsertResult.full refl) (
          h,
          inr (elim why [
            | inl zero_up ↦ inr (downs_of_zero b.nodes v.ordered (sym v.first ∙ zero_up))
            | inr waits ↦ inl waits
          ]),
          refl,
          admitted,
          under,
        ))
        (λ first e not_zero free.
          rw (drop-same held (as_waiting now node b) (InsertResult.pending first.key) refl) (
            h,
            up,
            free,
            (first, e, ground (arith, Order.is_up_at b.nodes 0 e v.ordered, v.first), refl),
            refl,
            admitted,
            under,
          ))
        h

  pub after_insert-Inserts : Inserts now node b (after_insert now node b)
  after_insert-Inserts =
      after_insert_cases now node b (Inserts now node b) (λ h. (h, refl))
        (λ new out. (out, refl, new))
        λ absent admitted s e.
          placed_cases now node b
            (λ r. Inserts now node b (drop_inserted_pending (holds_key b.pending node.key) r)) s e
            (λ counts over.
              rw (drop-same (holds_key b.pending node.key) b InsertResult.too_many_incoming refl)
                (counts, ground (arith, v.incoming), refl, admitted))
            (λ full down.
              rw (drop-same (holds_key b.pending node.key) b InsertResult.full refl)
                (ground arith, inl down, refl, admitted, ground arith))
            (λ full up low.
              full-Inserts admitted (ground arith) up (ground arith) (holds_key b.pending node.key))
            (λ room up low.
              rw (drop-inserted, up)
                (
                  ground (arith, v.bounded),
                  halves-push_up b.nodes node up,
                  refl,
                  admitted,
                  ground arith,
                  (refl, refl, refl),
                ))
            (λ room down.
              rw (drop-inserted, down)
                (
                  ground (arith, v.bounded),
                  Joins-with_down node b v.settled down,
                  rw with_down-pending refl,
                  admitted,
                  ground arith,
                  with_down-SameSettings,
                ))

module _ {ℓ} {T V : Type ℓ} ⦃vec : ArrayVec max_nodes_per_bucket (Node T V)⦄ where
  -- On a valid bucket `insert` returns, it does not panic, and the bucket that it leaves is valid:
  -- the recorded position is that of the first connected node, disconnected nodes stand before
  -- connected ones, no more connected incoming nodes than `max_incoming`, at most 16 nodes, no hash
  -- twice, and the pending node is not in the bucket.
  pub insert-IsValid :
      (now : ℕ) (node : Node T V) (b : KBucket T V)
      → IsValid b
      → (r : KBucket T V × InsertResult T) × (insert now node b ≡ some r) × IsValid r.0
  insert-IsValid now node b v = (
    after_insert now node b,
    insert-after_insert now node b v.settled,
    after_insert-IsValid now node b v,
  )

  -- What each result of `insert` on a valid bucket means. `node_exists`, the key is there;
  -- `failed_filter`, it is not, and the filter refuses the value; `too_many_incoming`, neither is
  -- so, and the node is connected and incoming and the limit is reached. In the other results none
  -- of the three is so: `inserted`, the bucket had room, the node is now the most recent of its
  -- half (disconnected or connected), the other half is as it was, and a pending node of the same
  -- key is dropped; `pending`, the bucket is full, the node is connected and is recorded as pending
  -- with its deadline, and the first node, whose key is reported, is disconnected; `full`, the
  -- bucket has 16 nodes and the node is disconnected, or a pending node is there, or no node is
  -- disconnected. The bucket changes only where the result is `inserted` or `pending`. The settings
  -- of the bucket stay.
  pub insert-Inserts :
      (now : ℕ) (node : Node T V) (b : KBucket T V)
      → IsValid b
      → (r : KBucket T V × InsertResult T) × (insert now node b ≡ some r) × Inserts now node b r
  insert-Inserts now node b v = (
    after_insert now node b,
    insert-after_insert now node b v.settled,
    after_insert-Inserts now node b v,
  )
