-- ===== src/Socket/RateLimiter/Admit.antt =====
-- src/socket/filter/rate_limiter.rs, `Limiter`: what a request and a removal do to the time at which
-- the bucket of a key will be full.
use discv.Prelude.{
  ℕ, ◌≤◌, ◌*◌, if◌then◌else◌, ◌&&◌, ◌<◌, ◌+◌, ◌≡◌, false, ◌%◌, arith, true, refl, Bool-cases, ltb,
  inl, inr, ◌-◌, Option-cases, leb, Bool, Option, subst, sym,
}
use Prim.Native.Nat.{max}
use discv.Socket.RateLimiter.{
  Limiter, RateLimitedErr, u64_size, is_ok, tat_or, prune, allows, admit,
}
use discv.Prelude.Eq.{Eq}
use native.Mathlib.Nat.{mul-zero}

pub times_if : (t n : ℕ) (c : Bool) → t * (if c then n else 0) ≡ (if c then t * n else 0)
times_if t n true = refl
times_if t n false = mul-zero t

and_right : (b : Bool) {c : Bool} → c ≡ true → (b && c) ≡ b
and_right b e = ground arith

and_other : (b : Bool) {c : Bool} → c ≡ false → (b && c) ≡ false
and_other b e = ground arith

module _ {K : Type 0} ⦃e : Eq K⦄ (key : K) where
  -- When the bucket of the key will be full, seen from `now`.
  abbrev pub level : ℕ → Limiter K → ℕ
  level now l = max now (tat_or now (l.tat_per_key key))

  -- A request of another key.
  admit_other :
      (time add tat : ℕ) (k : K) (l : Limiter K)
      → e.eq k key ≡ false
      → let l' = (admit time add tat k l).0 in
        (l'.t ≡ l.t) × (l'.tau ≡ l.tau) × (l'.tat_per_key key ≡ l.tat_per_key key)
  unfolding admit
  admit_other time add tat k l other = elim (Bool-cases (ltb l.tau add)) [
    | inl large ↦ rw large (refl, refl, refl)
    | inr fits ↦ elim (Bool-cases (ltb time ((tat + add) % u64_size - l.tau))) [
      | inl soon ↦ rw (fits, soon, other) (refl, refl, refl)
      | inr ok ↦ rw (fits, ok, other) (refl, refl, refl)
    ]
  ]

  -- A request of the key.
  admit_same :
      (time add tat : ℕ) (l : Limiter K)
      → tat_or time (l.tat_per_key key) ≡ tat
      → tat ≤ time + l.tau
      → time + l.tau + l.tau < u64_size
      → let (l', err) = admit time add tat key l in
        (l'.t ≡ l.t)
        × (l'.tau ≡ l.tau)
        × (tat_or time (l'.tat_per_key key) ≤ time + l.tau)
        × (max time tat + (if is_ok err then add else 0)
            ≤ max time (tat_or time (l'.tat_per_key key)))
  unfolding admit
  admit_same time add tat l e_tat bounded small =
      let same : e.eq key key ≡ true = (e.eq_iff key key).1 refl in
      elim (Bool-cases (ltb l.tau add)) [
        | inl large ↦ rw (large, e_tat) (refl, refl, bounded, omega arith)
        | inr fits ↦
            let f : add ≤ l.tau = ground arith in
            elim (Bool-cases (ltb time ((tat + add) % u64_size - l.tau))) [
              | inl soon ↦ rw (fits, soon, same) (refl, refl, bounded, omega arith)
              | inr ok ↦
                  let g : tat + add ≤ time + l.tau = ground arith in
                  rw (fits, ok, same) (refl, refl, omega arith, omega arith)
            ]
      ]

  -- A request at a time that does not wrap.
  pub allows-admit :
      (time : ℕ) (k : K) (tokens : ℕ) (l : Limiter K)
      → time < u64_size
      → l.t * tokens < u64_size
      → allows time k tokens l ≡ admit time (l.t * tokens) (tat_or time (l.tat_per_key k)) k l
  unfolding allows
  allows-admit time k tokens l small fits =
      let e1 : time % u64_size ≡ time = omega arith in
      let e2 : (l.t * tokens) % u64_size ≡ l.t * tokens = omega arith in rw (e1, e2)

  pub prune-level :
      (now time : ℕ) (l : Limiter K)
      → now ≤ time
      → time < u64_size
      → tat_or now (l.tat_per_key key) ≤ now + l.tau
      → (tat_or time ((prune time l).tat_per_key key) ≤ time + l.tau)
        × (level now l ≤ level time (prune time l))
  unfolding prune
  prune-level now time l order small bounded =
      let e : time % u64_size ≡ time = omega arith in
      elim (Option-cases (l.tat_per_key key)) [
        | inl absent ↦ rw (e, absent) (omega arith, omega arith)
        | inr (tat, there) ↦
            let b : tat ≤ now + l.tau = ground (arith, there) in
            elim (Bool-cases (leb time tat)) [
              | inl keep ↦ rw (e, there, keep) (omega arith, omega arith)
              | inr drop ↦
                  let d : tat ≤ time = ground arith in
                  rw (e, there, drop) (omega arith, omega arith)
            ]
      ]

  later-level :
      (now time : ℕ) (l : Limiter K)
      → now ≤ time
      → tat_or now (l.tat_per_key key) ≤ now + l.tau
      → (tat_or time (l.tat_per_key key) ≤ time + l.tau) × (level now l ≤ level time l)
  later-level now time l order bounded = elim (Option-cases (l.tat_per_key key)) [
    | inl absent ↦ rw absent (omega arith, omega arith)
    | inr (tat, there) ↦
        let b : tat ≤ now + l.tau = ground (arith, there) in rw there (omega arith, omega arith)
  ]

  -- What a request does to the level of the key.
  abbrev pub Step :
      (start time tokens : ℕ) → K → Limiter K → Limiter K × Option RateLimitedErr → Type 0
  Step start time tokens k l (l', err) =
      (l'.t ≡ l.t)
      × (l'.tau ≡ l.tau)
      × (tat_or time (l'.tat_per_key key) ≤ time + l.tau)
      × (level start l + (if is_ok err && e.eq k key then l.t * tokens else 0) ≤ level time l')

  pub admit-Step :
      (start time tokens : ℕ) (k : K) (l : Limiter K)
      → start ≤ time
      → time + l.tau + l.tau < u64_size
      → tat_or start (l.tat_per_key key) ≤ start + l.tau
      → Step start time tokens k l (admit time (l.t * tokens) (tat_or time (l.tat_per_key k)) k l)
  admit-Step start time tokens k l order small bounded =
      let (b, up) = later-level start time l order bounded in
      elim (Bool-cases (e.eq k key)) [
        | inl same ↦
            let r = admit time (l.t * tokens) (tat_or time (l.tat_per_key key)) key l in
            let (et, etau, b', up') =
              admit_same time (l.t * tokens) (tat_or time (l.tat_per_key key)) l refl b small in
            subst
              (λ x.
                Step start time tokens x l
                  (admit time (l.t * tokens) (tat_or time (l.tat_per_key x)) x l))
              (sym ((e.eq_iff k key).0 same))
              (
                et,
                etau,
                b',
                rw (and_right (is_ok r.1) ((e.eq_iff key key).1 refl)) (omega (arith, up, up')),
              )
        | inr other ↦
            let r = admit time (l.t * tokens) (tat_or time (l.tat_per_key k)) k l in
            let (et, etau, stays) =
              admit_other time (l.t * tokens) (tat_or time (l.tat_per_key k)) k l other in
            (et, etau, rw stays b, rw (and_other (is_ok r.1) other, stays) (omega (arith, up)))
      ]
