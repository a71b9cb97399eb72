-- ===== src/KBucket/Table/Valid.antt =====
-- src/kbucket.rs, `KBucketsTable`: the well-formed tables, and what an operation on a key does to
-- them.
use discv.KBucket.Bucket.Update.{apply_pending}
use discv.KBucket.Key.Metric.{distance-lt, distance_metric}
use discv.KBucket.Key.{Key, IsHash, distance}
use discv.KBucket.Node.{Node, AppliedPending, Filter}
use discv.KBucket.Bucket.{max_nodes_per_bucket, KBucket, new}
use discv.ArrayVec.{ArrayVec}
use discv.Prelude.{
  List, length, ◌≡◌, ℕ, All, set, ◌<◌, ◌∷◌, get_elem?, suc, some, ◌⊎◌, Option, ap, arith, [], zero,
  inl, inr, get_elem?_of_lt, All-get_elem?, length-set, ◌∙◌, refl, none, sym, lt_of_get_elem?,
}
use discv.KBucket.Table.{
  KBucketsTable, num_buckets, index_of, apply_at, at_bucket, in_bucket, record_applied, ArrayVec,
  max_nodes_per_bucket, Node, Key, apply_pending, repeat, table_iter, new_table,
}
use discv.KBucket.Table.Index.{bucket_index_bounds}
use discv.KBucket.Bucket.Valid
use discv.KBucket.Bucket.Apply.{Applies}
use discv.KBucket.Bucket.Applies.{apply_pending-Applies}
use discv.Uint.{Uint}

pub record IsTable {ℓ} {T V : Type ℓ} (t : KBucketsTable T V) : Type ℓ where
  pub count : length t.buckets ≡ num_buckets
  pub each : All (λ (b : KBucket T V). Valid.IsValid b) t.buckets
  pub hash : IsHash t.local_key.hash

module _ {ℓ} {A : Type ℓ} where
  pub set-set : (xs : List A) (i : ℕ) (a b : A) → set (set xs i a) i b ≡ set xs i b
  set-set [] i a b = refl
  set-set (x ∷ xs) zero a b = refl
  set-set (x ∷ xs) (suc i) a b = ap (◌∷◌ x) (set-set xs i a b)

  pub get_elem?-set :
      (xs : List A) (i : ℕ) (a : A) → i < length xs → get_elem? (set xs i a) i ≡ some a
  get_elem?-set [] i a h = absurd (omega arith)
  get_elem?-set (x ∷ xs) zero a h = refl
  get_elem?-set (x ∷ xs) (suc i) a h = get_elem?-set xs i a (omega arith)

  pub All-set {κ} :
      (P : A → Type κ) (xs : List A) (i : ℕ) (a : A) → P a → All P xs → All P (set xs i a)
  All-set P [] i a h hs = tt
  All-set P (x ∷ xs) zero a h hs = (h, hs.1)
  All-set P (x ∷ xs) (suc i) a h hs = (hs.0, All-set P xs i a h hs.1)

module _ {ℓ κ} {T V : Type ℓ} {R : Type κ} ⦃vec : ArrayVec max_nodes_per_bucket (Node T V)⦄
    ⦃u : Uint⦄ where
  -- The key is the local one and nothing changes, or its bucket has applied its pending node, which
  -- is recorded, then changed as `Q` says, and all other buckets stay.
  abbrev pub Runs :
      ℕ
      → Key T
      → R
      → (KBucket T V → KBucket T V × R → Type ℓ)
      → KBucketsTable T V
      → KBucketsTable T V × R
      → Type (ℓ ⊔ κ)
  Runs now key self Q t (t', r) =
      ((key.hash ≡ t.local_key.hash) × (t' ≡ t) × (r ≡ self))
      ⊎ ((i : ℕ) × (b : KBucket T V) × (b1 : KBucket T V) × (b2 : KBucket T V) × (a : Option
            (AppliedPending T V))
          × (index_of t key ≡ some i)
          × (get_elem? t.buckets i ≡ some b)
          × Applies now b (b1, a)
          × Q b1 (b2, r)
          × (t' ≡ record t {
            buckets = set t.buckets i b2;
            applied_pending = record_applied a t.applied_pending;
          }))

  in_bucket_self :
      (now : ℕ) (key : Key T) (self : R) (f : KBucket T V → Option (KBucket T V × R))
      (t : KBucketsTable T V)
      → index_of t key ≡ none
      → in_bucket now key self f t ≡ some (t, self)
  unfolding in_bucket
  in_bucket_self now key self f t e = ground arith

  in_bucket_other :
      (now : ℕ) (key : Key T) (self : R) (f : KBucket T V → Option (KBucket T V × R))
      (t : KBucketsTable T V) (i : ℕ) (b b1 b2 : KBucket T V) (a : Option (AppliedPending T V))
      (r : R)
      → index_of t key ≡ some i
      → get_elem? t.buckets i ≡ some b
      → apply_pending now b ≡ some (b1, a)
      → f b1 ≡ some (b2, r)
      → in_bucket now key self f t
        ≡ some (
          record t {
            buckets = set t.buckets i b2;
            applied_pending = record_applied a t.applied_pending;
          },
          r,
        )
  unfolding in_bucket apply_at at_bucket
  in_bucket_other now key self f t i b b1 b2 a r e at_i applies eq =
      let again = get_elem?-set t.buckets i b1 (lt_of_get_elem? t.buckets i at_i) in
      ground (arith, again, set-set t.buckets i b1 b2)

  pub in_bucket-Runs :
      (now : ℕ) (key : Key T) (self : R) (f : KBucket T V → Option (KBucket T V × R))
      (Q : KBucket T V → KBucket T V × R → Type ℓ) (t : KBucketsTable T V)
      → IsHash key.hash
      → IsTable t
      → ((b : KBucket T V)
          → Valid.IsValid b
          → (w : KBucket T V × R) × (f b ≡ some w) × Valid.IsValid w.0 × Q b w)
      → (r : KBucketsTable T V × R) × (in_bucket now key self f t ≡ some r)
        × IsTable r.0
        × Runs now key self Q t r
  in_bucket-Runs now key self f Q t hash v runs =
      elim (bucket_index_bounds (distance t.local_key key)
        (distance-lt t.local_key key v.hash hash)) [
          | inl (e, same) ↦ (
            (t, self),
            in_bucket_self now key self f t e,
            v,
            inl (sym ((distance_metric t.local_key key key v.hash hash hash).0.0 same), refl, refl),
          )
          | inr (i, e, small, low, high) ↦
              let (b, at_i) = get_elem?_of_lt t.buckets i (omega (arith, v.count)) in
              let ((b1, a), applies, w1, what1) =
                apply_pending-Applies now b
                  (All-get_elem? (λ b. Valid.IsValid b) t.buckets i at_i v.each) in
              let ((b2, r), eq, w2, what2) = runs b1 w1 in
              (
                (
                  record t {
                    buckets = set t.buckets i b2;
                    applied_pending = record_applied a t.applied_pending;
                  },
                  r,
                ),
                in_bucket_other now key self f t i b b1 b2 a r e at_i applies eq,
                record {
                  count = length-set t.buckets i b2 ∙ v.count;
                  each = All-set (λ b. Valid.IsValid b) t.buckets i b2 w2 v.each;
                  hash = v.hash;
                },
                inr (i, b, b1, b2, a, e, at_i, what1, what2, refl),
              )
        ]

length-repeat {ℓ} : {A : Type ℓ} (n : ℕ) (x : A) → length (repeat n x) ≡ n
length-repeat zero x = refl
length-repeat (suc n) x = ap suc (length-repeat n x)

All-repeat {ℓ κ} : {A : Type ℓ} (P : A → Type κ) (n : ℕ) (x : A) → P x → All P (repeat n x)
All-repeat P zero x h = tt
All-repeat P (suc n) x h = (h, All-repeat P n x h)

table_iter-repeat {ℓ} :
    (T : Type ℓ) {V : Type ℓ} (n pending_timeout max_incoming : ℕ) (f : Option (Filter V))
    → table_iter (repeat n (new {T = T} pending_timeout max_incoming f)) ≡ []
unfolding table_iter new
table_iter-repeat T zero p m f = refl
table_iter-repeat T (suc n) p m f = table_iter-repeat T n p m f

-- A new table whose local key has 256 bits is well-formed, whatever its limits and filters, and holds
-- no node.
pub new_table-IsTable {ℓ} :
    {T V : Type ℓ} (local_key : Key T) (pending_timeout max_incoming : ℕ)
    (table_filter bucket_filter : Option (Filter V))
    → IsHash local_key.hash
    → IsTable (new_table local_key pending_timeout max_incoming table_filter bucket_filter)
      × (table_iter
            (new_table local_key pending_timeout max_incoming table_filter bucket_filter).buckets
          ≡ [])
unfolding new_table
new_table-IsTable {T = T} local_key pending_timeout max_incoming table_filter bucket_filter hash = (
  record {
    count = length-repeat 256 (new {T = T} pending_timeout max_incoming bucket_filter);
    each =
        All-repeat Valid.IsValid 256 (new {T = T} pending_timeout max_incoming bucket_filter)
          (Valid.new-IsValid pending_timeout max_incoming bucket_filter);
    hash = hash;
  },
  table_iter-repeat T 256 pending_timeout max_incoming bucket_filter,
)
