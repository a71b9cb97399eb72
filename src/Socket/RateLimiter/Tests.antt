-- ===== src/Socket/RateLimiter/Tests.antt =====
-- The rate limiter (src/socket/filter/rate_limiter.rs) at concrete inputs.
use discv.Socket.RateLimiter.{Limiter, RateLimitedErr, allows, from_quota}
use discv.Socket.RateLimiter.Quotas.{Builds, from_quota-Builds}
use discv.Socket.RateLimiter.Retry.{Judges, allows-Judges}
use discv.Socket.RateLimiter.Bound.{Event, asks, prunes, run, run-bound}
use discv.Prelude.Eq.{Eq, nat_Eq}
use discv.Prelude.{
  refl, ℕ, ◌≡◌, List, arith, ◌+◌, some, ◌∷◌, if◌then◌else◌, ◌*◌, [], ◌≤◌, ◌==◌, none,
}

instance abbrev key_Eq : Eq ℕ
key_Eq = nat_Eq

-- Four tokens in 2000; key 10 has a full bucket at 600.
abbrev limiter : Limiter ℕ
limiter = record { tau = 2000; t = 500; tat_per_key = λ k. if k == 10 then some 600 else none }

allows_runs : (allows 100 10 4 limiter).1 ≡ some (RateLimitedErr.too_soon 500)
unfolding allows
allows_runs = refl

-- Four tokens, one too many, the map pruned, and one that fits.
abbrev events : List (Event ℕ)
events = asks 600 10 4 ∷ asks 700 10 1 ∷ prunes 800 ∷ asks 1100 10 1 ∷ []

run_runs : (run 10 events limiter).1 ≡ 5
unfolding run
run_runs = refl

from_quota-Builds_example :
    Builds ℕ
      (record { replenish_all_every = 2000; max_tokens = 4 })
      (from_quota (record { replenish_all_every = 2000; max_tokens = 4 }))
from_quota-Builds_example =
    from_quota-Builds ℕ (record { replenish_all_every = 2000; max_tokens = 4 })

allows-Judges_example : Judges 10 100 4 limiter (allows 100 10 4 limiter)
allows-Judges_example = allows-Judges 10 100 4 limiter (omega arith) (omega arith) (omega arith)

run-bound_example : 600 + 500 * (run 10 events limiter).1 ≤ 1200 + 2000
run-bound_example =
    run-bound 10 events limiter 600 1200 (omega arith) (omega arith) (omega arith) (omega arith)
