-- ===== src/Socket/RateLimiter/Bound.antt =====
-- src/socket/filter/rate_limiter.rs: how many tokens a key gets, whatever it asks for.
use discv.Prelude.{
  ℕ, List, ◌≤◌, ◌*◌, if◌then◌else◌, ◌∷◌, ◌&&◌, ◌<◌, ◌+◌, ◌≡◌, [], arith, refl, inl, inr,
  Option-cases, All, ◌∙◌, ap,
}
use discv.Socket.RateLimiter.{Limiter, u64_size, is_ok, tat_or, prune, allows, admit}
use discv.Prelude.Eq.{Eq}
use native.Mathlib.Nat.{mul-zero, mul-add}
use discv.Socket.RateLimiter.Admit.{level, allows-admit, prune-level, times_if, admit-Step}

-- What happens to a limiter.
pub data Event (K : Type 0) : Type 0 where
  asks : (time : ℕ) (key : K) (tokens : ℕ) → Event K
  prunes : (time : ℕ) → Event K

module _ {K : Type 0} where
  abbrev pub time_of : Event K → ℕ
  time_of (asks time key tokens) = time
  time_of (prunes time) = time

  -- The events are in order of time, from `start` to `end`.
  abbrev pub InOrder : ℕ → List (Event K) → ℕ → Type 0
  InOrder start [] end = start ≤ end
  InOrder start (ev ∷ evs) end = (start ≤ time_of ev) × InOrder (time_of ev) evs end

  -- No request is so large that its time wraps.
  abbrev pub Fits : ℕ → Event K → Type 0
  Fits t (asks time key tokens) = t * tokens < u64_size
  Fits t (prunes time) = Unit

  module _ ⦃e : Eq K⦄ (key : K) where
    -- The limiter after the events, and the tokens that `key` got.
    unfoldable pub run : List (Event K) → Limiter K → Limiter K × ℕ
    unfolding allows prune
    run [] l = (l, 0)
    run (asks time k tokens ∷ evs) l =
        let (l', err) = allows time k tokens l in
        let (l'', granted) = run evs l' in
        (l'', (if is_ok err && e.eq k key then tokens else 0) + granted)
    run (prunes time ∷ evs) l = run evs (prune time l)

    InOrder-le : (time : ℕ) (evs : List (Event K)) (end : ℕ) → InOrder time evs end → time ≤ end
    InOrder-le time [] end h = h
    InOrder-le time (ev ∷ evs) end (le, h) = omega (arith, InOrder-le (time_of ev) evs end h)

    prune-t : (time : ℕ) (l : Limiter K) → (prune time l).t ≡ l.t
    unfolding prune
    prune-t time l = refl

    prune-tau : (time : ℕ) (l : Limiter K) → (prune time l).tau ≡ l.tau
    unfolding prune
    prune-tau time l = refl

    run-level :
        (evs : List (Event K)) (l : Limiter K) (t tau start end : ℕ)
        → l.t ≡ t
        → l.tau ≡ tau
        → InOrder start evs end
        → All (Fits t) evs
        → end + tau + tau < u64_size
        → tat_or start (l.tat_per_key key) ≤ start + tau
        → level key start l + t * (run evs l).1 ≤ end + tau
    unfolding run
    run-level [] l t tau start end et etau order fits small bounded =
        elim (Option-cases (l.tat_per_key key)) [
          | inl absent ↦ rw absent (omega (arith, mul-zero t))
          | inr (tat, there) ↦
              let b : tat ≤ start + tau = ground (arith, there) in
              rw there (omega (arith, mul-zero t))
        ]
    run-level (asks time k tokens ∷ evs) l t tau start end et etau (le, order) (fit, fits) small
          bounded =
        let last = InOrder-le time evs end order in
        let bounded' : tat_or start (l.tat_per_key key) ≤ start + l.tau = rw etau bounded in
        let (et', etau', b', up) =
          admit-Step key start time tokens k l le (rw etau (omega arith)) bounded' in
        let l' = (admit time (l.t * tokens) (tat_or time (l.tat_per_key k)) k l).0 in
        let ih =
          run-level evs l' t tau time end (et' ∙ et) (etau' ∙ etau) order fits small
            (rw (← etau) b') in
        rw (allows-admit key time k tokens l (omega arith) (rw et fit), mul-add, times_if)
          (let c =
              is_ok (admit time (l.t * tokens) (tat_or time (l.tat_per_key k)) k l).1
              && e.eq k key in
            let p : (if c then l.t * tokens else 0) ≡ (if c then t * tokens else 0) =
              ap (λ (x : ℕ). if c then x * tokens else 0) et in
            omega (arith, p, up, ih))
    run-level (prunes time ∷ evs) l t tau start end et etau (le, order) (fit, fits) small bounded =
        let last = InOrder-le time evs end order in
        let bounded' : tat_or start (l.tat_per_key key) ≤ start + l.tau = rw etau bounded in
        let (b', up) = prune-level key start time l le (omega arith) bounded' in
        let ih =
          run-level evs (prune time l) t tau time end (prune-t time l ∙ et)
            (prune-tau time l ∙ etau) order fits small (rw (← etau) b') in
        omega (arith, up, ih)

    -- Whatever events come in order of time from `start` to `end`, the time that it takes to
    -- replenish the tokens that a key gets is at most the time that passes and `tau`, if the bucket
    -- of the key is to be full by `start + tau`, no request's time wraps, and `end + 2 tau` is a
    -- `u64`.
    pub run-bound :
        (evs : List (Event K)) (l : Limiter K) (start end : ℕ)
        → InOrder start evs end
        → All (Fits l.t) evs
        → end + l.tau + l.tau < u64_size
        → tat_or start (l.tat_per_key key) ≤ start + l.tau
        → start + l.t * (run evs l).1 ≤ end + l.tau
    run-bound evs l start end order fits small bounded =
        omega (arith, run-level evs l l.t l.tau start end refl refl order fits small bounded)
