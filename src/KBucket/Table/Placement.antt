-- ===== src/KBucket/Table/Placement.antt =====
-- src/kbucket.rs: each node of the table, pending or not, is in the bucket of its distance.
use discv.Prelude.{
  ℕ, Bool, ◌≡◌, List, inl, Option, some, ◌∷◌, get_elem?, ◌+◌, [], All-remove_at, subst, inr, suc,
  arith, set, none, sym, zero,
}
use discv.KBucket.Table.Valid.{Runs}
use discv.KBucket.Table.Operations.{Removes}
use discv.KBucket.Table.Entering.{UpdatesValue, Enters}
use discv.KBucket.Table.Updates.{Refreshes}
use discv.KBucket.Table.{KBucketsTable, TableInsertResult, bucket_index, repeat}
use discv.KBucket.Bucket.Holding.{
  Holds, Applies-Holds, Inserts-Holds, UpdatesStatus-Holds, SetsValue-Holds, SetsPending-Holds,
}
use discv.KBucket.Bucket.{KBucket, max_nodes_per_bucket}
use discv.KBucket.Bucket.Valid.{without}
use discv.KBucket.Key.{Key, distance}
use discv.KBucket.Node.{Node, UpdateResult, NodeStatus, ConnectionState}
use discv.ArrayVec.{ArrayVec}
use discv.Prelude.Eq.{Eq}
use discv.Uint.{Uint}

module _ {ℓ} {T : Type ℓ} ⦃u : Uint⦄ where
  -- The key belongs in the bucket of the index.
  abbrev pub BelongsIn : Key T → ℕ → Key T → Type 0
  BelongsIn local_key i key = bucket_index (distance local_key key) ≡ some i

module _ {ℓ} {T V : Type ℓ} ⦃u : Uint⦄ where
  abbrev pub PlacedFrom : Key T → ℕ → List (KBucket T V) → Type 0
  PlacedFrom local_key i [] = Unit
  PlacedFrom local_key i (b ∷ bs) =
      Holds (BelongsIn local_key i) b × PlacedFrom local_key (suc i) bs

  abbrev pub IsPlaced : KBucketsTable T V → Type 0
  IsPlaced t = PlacedFrom t.local_key 0 t.buckets

  PlacedFrom-get_elem? :
      (k : Key T) (j i : ℕ) (bs : List (KBucket T V)) {b : KBucket T V}
      → get_elem? bs i ≡ some b
      → PlacedFrom k j bs
      → Holds (BelongsIn k (j + i)) b
  PlacedFrom-get_elem? k j i [] e h = cc
  PlacedFrom-get_elem? k j zero (c ∷ bs) {b} e h =
      let e' : c ≡ b = cc in
      let s : j + 0 ≡ j = omega arith in rw s (subst (Holds (BelongsIn k j)) e' h.0)
  PlacedFrom-get_elem? k j (suc i) (c ∷ bs) {b} e h =
      let s : j + suc i ≡ suc j + i = omega arith in
      rw s (PlacedFrom-get_elem? k (suc j) i bs e h.1)

  PlacedFrom-set :
      (k : Key T) (j i : ℕ) (bs : List (KBucket T V)) (b : KBucket T V)
      → Holds (BelongsIn k (j + i)) b
      → PlacedFrom k j bs
      → PlacedFrom k j (set bs i b)
  PlacedFrom-set k j i [] b p h = tt
  PlacedFrom-set k j zero (c ∷ bs) b p h = let s : j + 0 ≡ j = omega arith in (rw s at p, h.1)
  PlacedFrom-set k j (suc i) (c ∷ bs) b p h =
      let s : j + suc i ≡ suc j + i = omega arith in
      (h.0, PlacedFrom-set k (suc j) i bs b (rw s at p) h.1)

  pub PlacedFrom-repeat :
      (k : Key T) (j n : ℕ) (b : KBucket T V)
      → b.nodes ≡ []
      → b.pending ≡ none
      → PlacedFrom k j (repeat n b)
  PlacedFrom-repeat k j zero b e f = tt
  PlacedFrom-repeat k j (suc n) b e f = (rw (e, f) (tt, tt), PlacedFrom-repeat k (suc j) n b e f)

  module _ ⦃vec : ArrayVec max_nodes_per_bucket (Node T V)⦄ where
    pub Removes-Holds :
        (P : Key T → Type 0) (now : ℕ) (key : Key T) (b c : KBucket T V) (ok : Bool)
        → Removes now key b (c, ok)
        → Holds P b
        → Holds P c
    Removes-Holds P now key b c ok (inl (pos, x, at_pos, _, _, (a, applies))) h =
        Applies-Holds P now (without pos b) c a applies
          (All-remove_at (λ n. P n.key) b.nodes pos h.0, h.1)
    Removes-Holds P now key b c ok (inr (_, e)) h =
        subst (λ (w : KBucket T V × Bool). Holds P w.0) (sym e) h

    -- An operation on a key keeps the nodes in their places if it brings no other key into a bucket.
    pub Runs-IsPlaced {κ} :
        {R : Type κ} (now : ℕ) (key : Key T) (self : R) (Q : KBucket T V → KBucket T V × R → Type ℓ)
        (t t' : KBucketsTable T V) (r : R)
        → Runs now key self Q t (t', r)
        → ((i : ℕ) (b c : KBucket T V)
            → BelongsIn t.local_key i key
            → Q b (c, r)
            → Holds (BelongsIn t.local_key i) b
            → Holds (BelongsIn t.local_key i) c)
        → IsPlaced t
        → IsPlaced t'
    Runs-IsPlaced now key self Q t t' r (inl (_, e, _)) keeps h = subst IsPlaced (sym e) h
    Runs-IsPlaced now key self Q t t' r (inr (i, b, b1, b2, a, e, at_i, applies, q, e')) keeps h =
        let there = PlacedFrom-get_elem? t.local_key 0 i t.buckets at_i h in
        let s : 0 + i ≡ i = omega arith in
        let there' : Holds (BelongsIn t.local_key i) b = rw s at there in
        let h1 = Applies-Holds (BelongsIn t.local_key i) now b b1 a applies there' in
        let h2 = keeps i b1 b2 e q h1 in
        subst IsPlaced (sym e') (PlacedFrom-set t.local_key 0 i t.buckets b2 (rw s h2) h)

    module _ ⦃eq : Eq V⦄ where
      UpdatesValue-Holds :
          (P : Key T → Type 0) (key : Key T) (value : V) (b c : KBucket T V) (r : UpdateResult)
          → UpdatesValue key value b (c, r)
          → Holds P b
          → Holds P c
      UpdatesValue-Holds P key value b c r (inl (pos, x, at_pos, _, s)) h =
          SetsValue-Holds P pos x value b c r at_pos s h
      UpdatesValue-Holds P key value b c r (inr (_, s)) h = SetsPending-Holds P key value b c r s h

      pub Enters-Holds :
          (P : Key T → Type 0) (passed : Bool) (later : ℕ) (key : Key T) (value : V)
          (status : NodeStatus) (b c : KBucket T V) (r : TableInsertResult T)
          → P key
          → Enters passed later key value status b (c, r)
          → Holds P b
          → Holds P c
      Enters-Holds P passed later key value status b c r p (inl (_, _, (ok, what))) h =
          Removes-Holds P later key b c ok what h
      Enters-Holds P passed later key value status b c r p (inr (inl (_, _, (i, what, _)))) h =
          Inserts-Holds P later (record { key = key; value = value; status = status }) b c i what h
            p
      Enters-Holds P passed later key value status b c r p (inr (inr (inl (_, _, (s, what, _, _)))))
            h =
          UpdatesStatus-Holds P key status.state (some status.direction) b c s what h
      Enters-Holds P passed later key value status b c r p
            (inr (inr (inr (_, _, (d, s, v, what, _, what', _))))) h =
          UpdatesValue-Holds P key value d c v what'
            (UpdatesStatus-Holds P key status.state (some status.direction) b d s what h)

      pub Refreshes-Holds :
          (P : Key T → Type 0) (passed : Bool) (later : ℕ) (key : Key T) (value : V)
          (state : Option ConnectionState) (b c : KBucket T V) (r : UpdateResult)
          → Refreshes passed later key value state b (c, r)
          → Holds P b
          → Holds P c
      Refreshes-Holds P passed later key value state b c r (inl (_, _, (ok, what))) h =
          Removes-Holds P later key b c ok what h
      Refreshes-Holds P passed later key value state b c r (inr (inl (_, _, what))) h =
          UpdatesValue-Holds P key value b c r what h
      Refreshes-Holds P passed later key value state b c r (inr (inr (inl (_, _, (v, what, _, _)))))
            h =
          UpdatesValue-Holds P key value b c v what h
      Refreshes-Holds P passed later key value state b c r
            (inr (inr (inr (_, (s, d, v, w, _, what, _, what', _))))) h =
          UpdatesStatus-Holds P key s none d c w what' (UpdatesValue-Holds P key value b d v what h)
