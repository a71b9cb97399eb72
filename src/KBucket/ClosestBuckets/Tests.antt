-- ===== src/KBucket/ClosestBuckets/Tests.antt =====
-- `ClosestBucketsIter` of src/kbucket.rs on a target at distance 9, and the theorems applied to it.
use discv.KBucket.Table.{bucket_index}
use discv.KBucket.ClosestBuckets.Drain.{visits, drain-visits}
use discv.KBucket.ClosestBuckets.Covers.{mem, drain-mem}
use discv.KBucket.ClosestBuckets.Sorted.{Sorted, NoFarther, drain-Sorted}
use discv.KBucket.ClosestBuckets.{
  drain, new_buckets_iter, next_bucket, next_in, next_out, find_zero, bucket_index,
}
use discv.Prelude.{refl, ◌<◌, ◌^◌, arith, ◌≡◌, true, ◌∷◌, []}
use discv.Uint.{Uint, word_uint, nth_bit, bit_length}

instance abbrev words : Uint
words = word_uint

small : 9 < 2 ^ 256
small = omega arith

drain-visits_example : drain 513 (new_buckets_iter 9) ≡ visits 9
drain-visits_example = drain-visits 513 9 small (omega arith)

drain-Sorted_example : Sorted (NoFarther 9) (drain 513 (new_buckets_iter 9))
drain-Sorted_example = drain-Sorted 513 9 small (omega arith)

drain-mem_example : mem 255 (drain 513 (new_buckets_iter 9)) ≡ true
drain-mem_example = drain-mem 513 9 255 small (omega arith) (omega arith)

-- The first calls: bucket 3, that of 9, and, as the lowest bit of 9 is 1, bucket 0 twice.
first_calls : drain 4 (new_buckets_iter 9) ≡ 3 ∷ 0 ∷ 0 ∷ 1 ∷ []
unfolding drain next_bucket next_in next_out find_zero new_buckets_iter bucket_index nth_bit
    bit_length
first_calls = refl
