-- ===== src/Socket/RateLimiter.antt =====
-- src/socket/filter/rate_limiter.rs: the rate limiter. A `Duration` is its number of nanoseconds,
-- and a `u64` a number whose operations wrap at 2 ^ 64, as they do where overflow checks are off.
-- The hash map of the arrival times is a function.
pub mod Admit
pub mod Retry
pub mod Quotas
pub mod Bound
mod Tests
use discv.Prelude.{
  ℕ, ◌⊎◌, Option, if◌then◌else◌, Bool, some, ◌^◌, ◌%◌, ltb, ◌==◌, true, leb, none, ◌*◌, inl, false,
  ◌+◌, ◌/◌, ◌-◌, inr,
}
use Prim.Native.Nat.{max}
use discv.Prelude.Eq.{Eq}
use mathlib.Core.Option
use discv.Prelude.{refl}

abbrev pub u64_size : ℕ
u64_size = 2 ^ 64

pub record Quota : Type 0 where
  pub replenish_all_every : ℕ
  pub max_tokens : ℕ

pub data RateLimitedErr : Type 0 where
  too_large : RateLimitedErr
  too_soon : ℕ → RateLimitedErr

-- The messages of `from_quota`.
pub data QuotaErr : Type 0 where
  no_tokens no_time time_too_long : QuotaErr

pub data LimitKind {ℓ} (I A : Type ℓ) : Type ℓ where
  total : LimitKind I A
  node_id : I → LimitKind I A
  ip : A → LimitKind I A

pub record Limiter {ℓ} (K : Type ℓ) : Type ℓ where
  pub tau : ℕ
  pub t : ℕ
  pub tat_per_key : K → Option ℕ

-- `u128::try_into` for `u64`
abbrev pub to_u64 : ℕ → Option ℕ
to_u64 n = if ltb n u64_size then some n else none

abbrev pub is_ok : Option RateLimitedErr → Bool
is_ok none = true
is_ok (some _) = false

-- `tat_per_key.entry(key).or_insert(time)`
abbrev pub tat_or : ℕ → Option ℕ → ℕ
tat_or time none = time
tat_or time (some tat) = tat

-- `retain(|_k, tat| tat >= lim)`
abbrev pub retain_from : ℕ → Option ℕ → Option ℕ
retain_from lim none = none
retain_from lim (some tat) = if leb lim tat then some tat else none

module _ {ℓ} {K : Type ℓ} where
  unfoldable pub from_quota : Quota → QuotaErr ⊎ Limiter K
  from_quota quota =
      if quota.max_tokens == 0
      then inl no_tokens
      else if quota.replenish_all_every == 0
      then inl no_time
      else elim (to_u64 (quota.replenish_all_every / quota.max_tokens)) [
        | none ↦ inl time_too_long
        | some t ↦ elim (to_u64 quota.replenish_all_every) [
          | none ↦ inl time_too_long
          | some tau ↦ inr (record { tau = tau; t = t; tat_per_key = λ _. none })
        ]
      ]

  unfoldable pub prune : ℕ → Limiter K → Limiter K
  prune time_limit l = record l {
    tat_per_key = λ k. retain_from (time_limit % u64_size) (l.tat_per_key k);
  }

  module _ ⦃e : Eq K⦄ where
    abbrev pub with_tat : K → ℕ → Limiter K → Limiter K
    with_tat key tat l = record l {
      tat_per_key = λ k. if e.eq key k then some tat else l.tat_per_key k;
    }

    -- `allows` once the times are `u64`s and the arrival time is looked up.
    unfoldable pub admit :
        (time additional_time tat : ℕ) → K → Limiter K → Limiter K × Option RateLimitedErr
    admit time additional_time tat key l =
        let earliest_time = (tat + additional_time) % u64_size - l.tau in
        if ltb l.tau additional_time
        then (l, some too_large)
        else if ltb time earliest_time
        then (with_tat key tat l, some (too_soon (earliest_time - time)))
        else (with_tat key ((max time tat + additional_time) % u64_size) l, none)

    unfoldable pub allows : ℕ → K → ℕ → Limiter K → Limiter K × Option RateLimitedErr
    unfolding admit
    allows time_since_start key tokens l =
        let time = time_since_start % u64_size in
        admit time ((l.t * tokens) % u64_size) (tat_or time (l.tat_per_key key)) key l

-- The limiter of all requests has the one key `()`.
abbrev pub unit_Eq : Eq (Unit {0})
unit_Eq = record { eq = λ _ _. true; eq_iff = λ a b. ((λ _. refl), (λ _. refl)) }

pub record RateLimiter (I A : Type 0) : Type 0 where
  pub total_rl : Limiter (Unit {0})
  pub node_rl : Option (Limiter I)
  pub ip_rl : Option (Limiter A)

pub record RateLimiterBuilder : Type 0 where
  pub total_quota : Option Quota
  pub node_quota : Option Quota
  pub ip_quota : Option Quota

-- `match quota { Some(q) => Some(Limiter::from_quota(q)?), None => None }`
unfoldable pub optional_limiter : (K : Type 0) → Option Quota → QuotaErr ⊎ Option (Limiter K)
unfolding from_quota
optional_limiter K none = inr none
optional_limiter K (some q) = elim (from_quota {K = K} q) [
  | inl err ↦ inl err
  | inr l ↦ inr (some l)
]

module _ {I A : Type 0} where
  -- `build`; an error `none` is that the total quota is missing.
  unfoldable pub build : RateLimiterBuilder → Option QuotaErr ⊎ RateLimiter I A
  unfolding from_quota optional_limiter
  build b = elim b.total_quota [
    | none ↦ inl none
    | some q ↦ elim (from_quota {K = Unit {0}} q) [
      | inl err ↦ inl (some err)
      | inr total_rl ↦ elim (optional_limiter I b.node_quota) [
        | inl err ↦ inl (some err)
        | inr node_rl ↦ elim (optional_limiter A b.ip_quota) [
          | inl err ↦ inl (some err)
          | inr ip_rl ↦ inr (record { total_rl = total_rl; node_rl = node_rl; ip_rl = ip_rl })
        ]
      ]
    ]
  ]

  unfoldable pub prune_all : ℕ → RateLimiter I A → RateLimiter I A
  unfolding prune
  prune_all time r = record {
    total_rl = prune time r.total_rl;
    node_rl = Option.map (prune time) r.node_rl;
    ip_rl = Option.map (prune time) r.ip_rl;
  }

  module _ ⦃i : Eq I⦄ ⦃a : Eq A⦄ where
    -- `RateLimiter::allows` at the elapsed time; each request is one token.
    unfoldable pub allows_request :
        ℕ → LimitKind I A → RateLimiter I A → RateLimiter I A × Option RateLimitedErr
    unfolding allows
    allows_request time total r =
        let (l, err) = allows ⦃e = unit_Eq⦄ time tt 1 r.total_rl in (record r { total_rl = l }, err)
    allows_request time (ip ip_addr) r = elim r.ip_rl [
      | none ↦ (r, none)
      | some limiter ↦
          let (l, err) = allows time ip_addr 1 limiter in (record r { ip_rl = some l }, err)
    ]
    allows_request time (node_id node) r = elim r.node_rl [
      | none ↦ (r, none)
      | some limiter ↦
          let (l, err) = allows time node 1 limiter in (record r { node_rl = some l }, err)
    ]
