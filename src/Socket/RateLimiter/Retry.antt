-- ===== src/Socket/RateLimiter/Retry.antt =====
-- `Limiter::allows` (src/socket/filter/rate_limiter.rs): which requests it refuses, and when a
-- refused one is accepted.
use discv.Prelude.{
  ℕ, Option, ◌≡◌, ◌≤◌, ◌*◌, ◌+◌, some, ◌<◌, true, arith, none, Bool-cases, ltb, inl, inr, ◌%◌, ◌-◌,
  ap, sym, refl, ◌∙◌, false,
}
use Prim.Native.Nat.{max}
use discv.Socket.RateLimiter.{
  Limiter, RateLimitedErr, u64_size, tat_or, allows, admit, with_tat, too_large, too_soon,
}
use discv.Socket.RateLimiter.Admit.{allows-admit}
use discv.Prelude.Eq.{Eq}

module _ {K : Type 0} ⦃e : Eq K⦄ (key : K) where
  -- The limits, and what the other keys have.
  abbrev pub SameOthers : Limiter K → Limiter K → Type 0
  SameOthers l l' =
      (l'.tau ≡ l.tau)
      × (l'.t ≡ l.t)
      × ((k : K) → e.eq key k ≡ false → l'.tat_per_key k ≡ l.tat_per_key k)

  -- What `allows` answers to a request of the key for a number of tokens.
  abbrev pub Judges : (time tokens : ℕ) → Limiter K → Limiter K × Option RateLimitedErr → Type 0
  Judges time tokens l (l', none) =
      (l.t * tokens ≤ l.tau)
      × (tat_or time (l.tat_per_key key) + l.t * tokens ≤ time + l.tau)
      × (l'.tat_per_key key ≡ some (max time (tat_or time (l.tat_per_key key)) + l.t * tokens))
      × SameOthers l l'
  Judges time tokens l (l', some too_large) = (l.tau < l.t * tokens) × (l' ≡ l)
  Judges time tokens l (l', some (too_soon wait)) =
      (l.t * tokens ≤ l.tau)
      × (0 < wait)
      × (tat_or time (l.tat_per_key key) + l.t * tokens ≡ time + wait + l.tau)
      × (l'.tat_per_key key ≡ some (tat_or time (l.tat_per_key key)))
      × SameOthers l l'

  admit-Judges :
      (time tokens tat : ℕ) (l : Limiter K)
      → tat_or time (l.tat_per_key key) ≡ tat
      → tat ≤ time + l.tau
      → time + l.tau + l.tau < u64_size
      → Judges time tokens l (admit time (l.t * tokens) tat key l)
  unfolding admit
  admit-Judges time tokens tat l e_tat bounded small =
      let same : e.eq key key ≡ true = (e.eq_iff key key).1 refl in
      elim (Bool-cases (ltb l.tau (l.t * tokens))) [
        | inl large ↦ rw large (ground arith, refl)
        | inr fits ↦
            let f : l.t * tokens ≤ l.tau = ground arith in
            elim (Bool-cases (ltb time ((tat + l.t * tokens) % u64_size - l.tau))) [
              | inl soon ↦
                  let g : time + l.tau < tat + l.t * tokens = ground arith in
                  rw (fits, soon, same)
                    (
                      f,
                      omega (arith, e_tat),
                      omega (arith, e_tat, g),
                      ap some (sym e_tat),
                      others tat,
                    )
              | inr ok ↦
                  let g : tat + l.t * tokens ≤ time + l.tau = ground arith in
                  rw (fits, ok, same)
                    (
                      f,
                      omega (arith, e_tat),
                      (let z : (max time tat + l.t * tokens) % u64_size
                              ≡ max time tat + l.t * tokens =
                            omega arith in
                          ap some (z ∙ ap (λ (x : ℕ). max time x + l.t * tokens) (sym e_tat))),
                      others ((max time tat + l.t * tokens) % u64_size),
                    )
            ]
      ]
    where
      others : (t : ℕ) → SameOthers l (with_tat key t l)
      others t = (refl, refl, (λ k h. rw h refl))

  -- A request of `tokens` tokens, at a time for which nothing wraps and with the bucket of the key
  -- to be full by `time + tau`, is `too_large` exactly if it takes longer than `tau` to replenish
  -- them, and then nothing changes. It is `too_soon` exactly if they do not fit by now, and the
  -- wait that is reported is positive and is the shortest after which they do. Otherwise it is
  -- accepted, and the bucket will be full later by the time that replenishes them. The limits and
  -- what other keys have stay.
  pub allows-Judges :
      (time tokens : ℕ) (l : Limiter K)
      → tat_or time (l.tat_per_key key) ≤ time + l.tau
      → time + l.tau + l.tau < u64_size
      → l.t * tokens < u64_size
      → Judges time tokens l (allows time key tokens l)
  allows-Judges time tokens l bounded small fits =
      rw (allows-admit key time key tokens l (omega arith) fits)
        (admit-Judges time tokens (tat_or time (l.tat_per_key key)) l refl bounded small)
