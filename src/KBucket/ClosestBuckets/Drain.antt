-- ===== src/KBucket/ClosestBuckets/Drain.antt =====
-- `ClosestBucketsIter` of src/kbucket.rs ends, and what it gives until then.
use discv.KBucket.Table.Index.{bucket_index_bounds}
use discv.KBucket.Table.{bucket_index}
use discv.Uint.{nth_bit, Uint}
use discv.Prelude.{
  refl, ℕ, [], ◌∷◌, some, none, List, ◌≡◌, suc, ◌⊎◌, ◌++◌, ◌<◌, inl, ◌≤◌, ◌^◌, if◌then◌else◌, ◌-◌,
  ◌+◌, Bool-cases, arith, zero, inr, ap, ◌∙◌, sym, Option,
}
use discv.KBucket.ClosestBuckets.{
  start, zoom_in, zoom_out, next_in, next_out, find_zero, Uint, drain, bucket_index,
  new_buckets_iter, next_bucket, ClosestBucketsIterState, ClosestBucketsIter, done,
}

-- The places below `i` with a bit 1, downwards.
unfoldable pub ones_below : ℕ → ℕ → List ℕ
unfolding nth_bit
ones_below d zero = []
ones_below d (suc i) = if nth_bit i d then i ∷ ones_below d i else ones_below d i

-- The `n` places from `i`, upwards, with a bit 0.
unfoldable pub zeros_from : ℕ → ℕ → ℕ → List ℕ
unfolding nth_bit
zeros_from d zero i = []
zeros_from d (suc n) i = if nth_bit i d then zeros_from d n (suc i) else i ∷ zeros_from d n (suc i)

module _ ⦃u : Uint⦄ where
  next_in-cases :
      (d i : ℕ)
      → ((next_in d i ≡ none) × (ones_below d i ≡ []))
        ⊎ ((j : ℕ) × (next_in d i ≡ some j) × (j < i) × (ones_below d i ≡ j ∷ ones_below d j))
  unfolding next_in ones_below
  next_in-cases d zero = inl (refl, refl)
  next_in-cases d (suc i) = elim (Bool-cases (nth_bit i d)) [
    | inl one ↦ inr (i, rw (u.bit_lem d i, one) refl, omega arith, rw one refl)
    | inr nil ↦ elim (next_in-cases d i) [
      | inl (a, b) ↦ inl (rw (u.bit_lem d i, nil) a, rw nil b)
      | inr (j, a, l, b) ↦ inr (j, rw (u.bit_lem d i, nil) a, omega arith, rw nil b)
    ]
  ]

  find_zero-cases :
      (d n i : ℕ)
      → ((find_zero d n i ≡ none) × (zeros_from d n i ≡ []))
        ⊎ ((j : ℕ) × (find_zero d n i ≡ some j)
            × (i ≤ j)
            × (j < i + n)
            × (zeros_from d n i ≡ j ∷ zeros_from d (i + n - (j + 1)) (j + 1)))
  unfolding find_zero zeros_from
  find_zero-cases d zero i = inl (refl, refl)
  find_zero-cases d (suc n) i = elim (Bool-cases (nth_bit i d)) [
    | inr nil ↦
        let m : i + suc n - (i + 1) ≡ n = omega arith in
        let k : i + 1 ≡ suc i = omega arith in
        inr (i, rw (u.bit_lem d i, nil) refl, omega arith, omega arith, rw (nil, m, k) refl)
    | inl one ↦ elim (find_zero-cases d n (suc i)) [
      | inl (a, b) ↦ inl (rw (u.bit_lem d i, one) a, rw one b)
      | inr (j, a, l, h, b) ↦
          let m : i + suc n - (j + 1) ≡ suc i + n - (j + 1) = omega arith in
          inr (j, rw (u.bit_lem d i, one) a, omega arith, omega arith, rw (one, m) b)
    ]
  ]

  abbrev iter : ℕ → ClosestBucketsIterState → ClosestBucketsIter
  iter d s = record { distance = d; state = s }

  drain_more :
      (n : ℕ) (it it' : ClosestBucketsIter) (i : ℕ)
      → next_bucket it ≡ (it', some i)
      → drain (suc n) it ≡ i ∷ drain n it'
  unfolding drain
  drain_more n it it' i e =
      let e0 : (next_bucket it).0 ≡ it' = ap (λ (p : ClosestBucketsIter × Option ℕ). p.0) e in
      let e1 : (next_bucket it).1 ≡ some i = ap (λ (p : ClosestBucketsIter × Option ℕ). p.1) e in
      rw (drain, e1, e0) refl

  drain_end :
      (n : ℕ) (it it' : ClosestBucketsIter) → next_bucket it ≡ (it', none) → drain (suc n) it ≡ []
  unfolding drain
  drain_end n it it' e =
      let e1 : (next_bucket it).1 ≡ none = ap (λ (p : ClosestBucketsIter × Option ℕ). p.1) e in
      rw (drain, e1) refl

  drain-zoom_out :
      (n d i : ℕ)
      → 256 - (i + 1) < n
      → drain n (record { distance = d; state = zoom_out i }) ≡ zeros_from d (256 - (i + 1)) (i + 1)
  unfolding next_bucket next_out
  drain-zoom_out zero d i h = absurd (omega arith)
  drain-zoom_out (suc n) d i h = elim (find_zero-cases d (256 - (i + 1)) (i + 1)) [
    | inl (a, b) ↦
        drain_end n (iter d (zoom_out i)) (iter d done) (rw (next_bucket, next_out, a) refl) ∙ sym b
    | inr (j, a, l, m, b) ↦
        let e : i + 1 + (256 - (i + 1)) - (j + 1) ≡ 256 - (j + 1) = omega arith in
        drain_more n (iter d (zoom_out i)) (iter d (zoom_out j)) j
          (rw (next_bucket, next_out, a) refl)
        ∙ ap (◌∷◌ j) (drain-zoom_out n d j (omega arith))
        ∙ sym (rw e at b)
  ]

  drain-zoom_in :
      (n d i : ℕ)
      → i + 257 ≤ n
      → drain n (record { distance = d; state = zoom_in i })
        ≡ ones_below d i ++ 0 ∷ zeros_from d 255 1
  unfolding next_bucket
  drain-zoom_in zero d i h = absurd (omega arith)
  drain-zoom_in (suc n) d i h = elim (next_in-cases d i) [
    | inl (a, b) ↦
        drain_more n (iter d (zoom_in i)) (iter d (zoom_out 0)) 0 (rw (next_bucket, a) refl)
        ∙ ap (◌∷◌ 0) (drain-zoom_out n d 0 (omega arith))
        ∙ rw b refl
    | inr (j, a, l, b) ↦
        drain_more n (iter d (zoom_in i)) (iter d (zoom_in j)) j (rw (next_bucket, a) refl)
        ∙ ap (◌∷◌ j) (drain-zoom_in n d j (omega arith))
        ∙ rw b refl
  ]

  -- The first bucket, that of the target's distance, or the bucket 0.
  abbrev pub first_bucket : ℕ → ℕ
  first_bucket d = elim (bucket_index d) [ some i ↦ i | none ↦ 0 ]

  abbrev pub visits : ℕ → List ℕ
  visits d = first_bucket d ∷ (ones_below d (first_bucket d) ++ 0 ∷ zeros_from d 255 1)

  drain-start :
      (n d i : ℕ)
      → i < 256
      → 513 ≤ n
      → drain n (record { distance = d; state = start i })
        ≡ i ∷ (ones_below d i ++ 0 ∷ zeros_from d 255 1)
  unfolding next_bucket
  drain-start zero d i l h = absurd (omega arith)
  drain-start (suc n) d i l h =
      drain_more n (iter d (start i)) (iter d (zoom_in i)) i refl
      ∙ ap (◌∷◌ i) (drain-zoom_in n d i (omega arith))

  -- The iterator over the buckets ends: 513 calls or more for a distance of 256 bits give the bucket
  -- of the distance (bucket 0 if it is zero), then below it the places of its bits 1, downwards,
  -- then the bucket 0, and then the places from 1 to 255 of its bits 0, upwards.
  pub drain-visits : (n d : ℕ) → d < 2 ^ 256 → 513 ≤ n → drain n (new_buckets_iter d) ≡ visits d
  unfolding new_buckets_iter
  drain-visits n d small h = elim (bucket_index_bounds d small) [
    | inl (e, z) ↦
        let f : first_bucket d ≡ 0 = rw (first_bucket, e) refl in
        let g : new_buckets_iter d ≡ iter d (start 0) = rw (new_buckets_iter, e) refl in
        ap (drain n) g ∙ drain-start n d 0 (omega arith) h ∙ rw f refl
    | inr (i, e, l, b, c) ↦
        let f : first_bucket d ≡ i = rw (first_bucket, e) refl in
        let g : new_buckets_iter d ≡ iter d (start i) = rw (new_buckets_iter, e) refl in
        ap (drain n) g ∙ drain-start n d i l h ∙ rw f refl
  ]
