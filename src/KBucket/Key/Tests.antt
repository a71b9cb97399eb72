-- ===== src/KBucket/Key/Tests.antt =====
-- src/kbucket/key.rs at concrete keys.
use discv.KBucket.Key.Metric.{distance_metric}
use discv.Prelude.{ℕ, ◌≡◌, refl, ◌↔◌, some, ◌≤◌, ◌+◌, arith}
use discv.Uint.{Uint, word_uint, bit_length}
use discv.KBucket.Key.{Key, distance, log2_distance}

instance abbrev uint : Uint
uint = word_uint

abbrev key_of : ℕ → Key ℕ
key_of n = record { preimage = n; hash = n }

log2_distance_runs : log2_distance (key_of 5) (key_of 1) ≡ some 3
unfolding log2_distance distance bit_length
log2_distance_runs = refl

distance_metric_example :
    ((distance (key_of 5) (key_of 1) ≡ 0) ↔ (◌≡◌ {A = ℕ} 5 1))
    × (distance (key_of 5) (key_of 1) ≡ distance (key_of 1) (key_of 5))
    × (distance (key_of 5) (key_of 9)
        ≤ distance (key_of 5) (key_of 1) + distance (key_of 1) (key_of 9))
    × ((distance (key_of 5) (key_of 1) ≡ distance (key_of 5) (key_of 9)) ↔ (◌≡◌ {A = ℕ} 1 9))
distance_metric_example =
    distance_metric (key_of 5) (key_of 1) (key_of 9) (omega arith) (omega arith) (omega arith)
