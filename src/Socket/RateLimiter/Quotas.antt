-- ===== src/Socket/RateLimiter/Quotas.antt =====
-- `Limiter::from_quota` (src/socket/filter/rate_limiter.rs): the limiter that a quota gives.
use native.Mathlib.Nat.{div-mul-le_self, lt-div-mul-add, div-le_self}
use discv.Prelude.{refl}
use discv.Prelude.{
  ◌⊎◌, Bool-cases, inl, ◌==◌, ◌≡◌, arith, ◌<◌, inr, ◌≤◌, ltb, ◌*◌, ◌/◌, true, ◌+◌, none,
}
use discv.Socket.RateLimiter.{
  Quota, QuotaErr, no_tokens, no_time, time_too_long, Limiter, u64_size, from_quota,
}

module _ (K : Type 0) where
  -- What `from_quota` says of a quota.
  abbrev pub Builds : Quota → QuotaErr ⊎ Limiter K → Type 0
  Builds q (inl no_tokens) = q.max_tokens ≡ 0
  Builds q (inl no_time) = (0 < q.max_tokens) × (q.replenish_all_every ≡ 0)
  Builds q (inl time_too_long) = (0 < q.max_tokens) × (u64_size ≤ q.replenish_all_every)
  Builds q (inr l) =
      (l.tau ≡ q.replenish_all_every)
      × (0 < l.tau)
      × (l.tau < u64_size)
      × (l.t * q.max_tokens ≤ l.tau)
      × (l.tau < l.t * q.max_tokens + q.max_tokens)
      × ((k : K) → l.tat_per_key k ≡ none)

  -- `from_quota` refuses a quota of no tokens, one of no time, and one whose time in nanoseconds is
  -- no `u64`. From any other it makes a limiter for which no key has asked yet, whose `tau` is the
  -- quota's time and whose `t` is the longest whole time of a token for which `max_tokens` tokens
  -- fit in `tau`.
  pub from_quota-Builds : (q : Quota) → Builds q (from_quota {K = K} q)
  unfolding from_quota
  from_quota-Builds q = elim (Bool-cases (q.max_tokens == 0)) [
    | inl nothing ↦ rw nothing (ground arith)
    | inr tokens ↦
        let pos : 0 < q.max_tokens = ground arith in
        elim (Bool-cases (q.replenish_all_every == 0)) [
          | inl never ↦ rw (tokens, never) (pos, ground arith)
          | inr time ↦
              let low = div-mul-le_self q.replenish_all_every q.max_tokens in
              let high = lt-div-mul-add {a = q.replenish_all_every} pos in
              elim (Bool-cases (ltb q.replenish_all_every u64_size)) [
                | inl short ↦
                    let s : q.replenish_all_every < u64_size = ground arith in
                    let s' : ltb (q.replenish_all_every / q.max_tokens) u64_size ≡ true =
                      ground (arith, div-le_self q.replenish_all_every q.max_tokens) in
                    rw (tokens, time, s', short) (refl, ground arith, s, low, high, (λ k. refl))
                | inr long ↦
                    elim (Bool-cases (ltb (q.replenish_all_every / q.max_tokens) u64_size)) [
                      | inl some_t ↦ rw (tokens, time, some_t, long) (pos, ground arith)
                      | inr none_t ↦ rw (tokens, time, none_t) (pos, ground arith)
                    ]
              ]
        ]
  ]
