-- ===== src/KBucket/IpFilter/Tests.antt =====
-- The address filters (src/kbucket/filter.rs) at concrete inputs.
use discv.Prelude.{refl}
use discv.Prelude.{ℕ, ◌∷◌, [], ◌==◌, ◌≡◌, if◌then◌else◌, ltb, false, some, none}
use discv.KBucket.IpFilter.{EnrApi, ip_bucket_filter}

-- A record is the number of its host; those below 100 are in one subnet, and the others have no
-- address.
instance abbrev numbered : EnrApi ℕ
numbered = record {
  eq = λ m n. m == n;
  ip4 = λ n. if ltb n 100 then some (record { a = 10; b = 0; c = 7; d = n }) else none;
}

ip_bucket_filter_runs : ip_bucket_filter {E = ℕ} 1 (1 ∷ 200 ∷ 2 ∷ 3 ∷ []) ≡ false
unfolding ip_bucket_filter
ip_bucket_filter_runs = refl
