-- ===== src/Query/Closest/Scan.antt =====
-- The loop of `FindNodeQuery::next` (src/query_pool/peers/closest.rs): it never panics while
-- `num_waiting` counts the requests in flight, and what it leaves and returns.
use discv.KBucket.Key.{Key}
use discv.Query.Closest.Peers.{waiting_count, nearest_new, skeleton, done_within}
use discv.Query.Closest.Next.{Pass, behind, visit, scan}
use discv.Prelude.{
  ℕ, zero, suc, ◌+◌, ◌≡◌, Bool, true, false, Option, none, some, List, [], ◌∷◌, leb, ◌≤◌, arith,
  ap₂, ◌∙◌, refl, ◌<◌, ◌⊎◌, ◌-◌, Bool-cases, inl, inr, subst, sym,
}
use discv.Query.Closest.{
  QueryPeerState, not_contacted, unresponsive, failed, succeeded, Entry, FindNodeQueryConfig,
  QueryState, QueryPeer, waiting_at_capacity, Key, set_state, one_less,
}

pub one_less_of_pos : (w : ℕ) → 0 < w → (w' : ℕ) × ((one_less w ≡ some w') × (w ≡ suc w'))
one_less_of_pos zero h = absurd (omega arith)
one_less_of_pos (suc w) h = (w, (refl, refl))

module _ {ℓ} {N : Type ℓ} where
  nearest_new-nil : nearest_new {N = N} [] ≡ none
  unfolding nearest_new
  nearest_new-nil = refl

  module _ (d : ℕ) (p : QueryPeer N) (es : List (Entry N)) where
    done-skip :
        (j : ℕ)
        → (p.state ≡ failed) ⊎ (p.state ≡ unresponsive)
        → done_within j ((d, p) ∷ es) ≡ done_within j es
    unfolding done_within
    done-skip zero h = refl
    done-skip (suc j) h = ground arith

    done-one : (j : ℕ) → p.state ≡ succeeded → j ≤ 1 → done_within j ((d, p) ∷ es) ≡ true
    unfolding done_within
    done-one zero h l = refl
    done-one (suc zero) h l = rw h
    done-one (suc (suc j)) h l = absurd (omega arith)

    done-next :
        (j : ℕ)
        → p.state ≡ succeeded
        → 0 < j
        → done_within (j - 1) es ≡ true
        → done_within j ((d, p) ∷ es) ≡ true
    unfolding done_within
    done-next zero h l e = refl
    done-next (suc j) h l e = let e' : suc j - 1 ≡ j = omega arith in rw h (rw e' at e)

module _ {ℓ} {N : Type ℓ} (config : FindNodeQueryConfig) (now : ℕ) (full : Bool) where
  -- What the loop says when it returns, or does not.
  abbrev pub Says :
      List (Entry N) → Option ℕ → ℕ → List (Entry N) → ℕ → Option (QueryState N) → Type ℓ
  Says es cnt w es' w' none = (nearest_new es ≡ none) × (w' ≤ w)
  Says es cnt w es' w' (some (QueryState.waiting none)) = ⊥ × (nearest_new es ≡ none)
  Says es cnt w es' w' (some (QueryState.waiting (some n))) =
      (full ≡ false)
      × (w' ≤ w + 1)
      × ((p : QueryPeer N) × (nearest_new es ≡ some p) × (p.key.preimage ≡ n))
  Says es cnt w es' w' (some waiting_at_capacity) =
      (full ≡ true) × (w' ≤ w) × (skeleton es' ≡ skeleton es)
  Says es cnt w es' w' (some QueryState.finished) =
      (w' ≤ w)
      × ((c : ℕ) × (cnt ≡ some c)
          × ((k : ℕ) → c + k ≡ config.num_results → done_within k es' ≡ true))
      × (skeleton es' ≡ skeleton es)

  abbrev pub Scans : List (Entry N) → Option ℕ → ℕ → Option (Pass N) → Type ℓ
  Scans es cnt w o =
      (es' : List (Entry N)) × (w' : ℕ) × (r : Option (QueryState N)) × (o ≡ some (es', w', r))
      × (w' + waiting_count es ≡ w + waiting_count es')
      × (skeleton es' ≡ skeleton es)
      × Says es cnt w es' w' r

  module _ (d : ℕ) (p p' : QueryPeer N) (es : List (Entry N)) (cnt cnt' : Option ℕ) (w w' : ℕ)
      (k : p'.key ≡ p.key) (old : nearest_new ((d, p) ∷ es) ≡ nearest_new es) (le : w' ≤ w)
      (step : (es' : List (Entry N)) (c' : ℕ)
        → cnt' ≡ some c'
        → ((j : ℕ) → c' + j ≡ config.num_results → done_within j es' ≡ true)
        → (c : ℕ) × (cnt ≡ some c)
          × ((j : ℕ) → c + j ≡ config.num_results → done_within j ((d, p') ∷ es') ≡ true)) where
    skeleton-cons :
        (es' : List (Entry N))
        → skeleton es' ≡ skeleton es
        → skeleton ((d, p') ∷ es') ≡ skeleton ((d, p) ∷ es)
    skeleton-cons es' e = ap₂ (λ (a : Key N) (as' : List (ℕ × Key N)). (d, a) ∷ as') k e

    Says-cons :
        (r : Option (QueryState N)) (es' : List (Entry N)) (v : ℕ)
        → Says es cnt' w' es' v r
        → Says ((d, p) ∷ es) cnt w ((d, p') ∷ es') v r
    Says-cons none es' v s = (old ∙ s.0, omega arith)
    Says-cons (some (QueryState.waiting none)) es' v s = absurd s.0
    Says-cons (some (QueryState.waiting (some n))) es' v (f, l, (q, e, n')) =
        (f, omega arith, (q, old ∙ e, n'))
    Says-cons (some waiting_at_capacity) es' v s = (s.0, omega arith, skeleton-cons es' s.2)
    Says-cons (some QueryState.finished) es' v (l, (c', e, h), sk) =
        (omega arith, step es' c' e h, skeleton-cons es' sk)

    -- A round that goes on: the entry may only become another that is not new.
    behind-Scans :
        (o : Option (Pass N))
        → w' + waiting_count ((d, p) ∷ es) + waiting_count es
          ≡ w + waiting_count es + waiting_count ((d, p') ∷ es)
        → Scans es cnt' w' o
        → Scans ((d, p) ∷ es) cnt w (behind (d, p') o)
    unfolding waiting_count
    behind-Scans o count (es', v, r, e, sum, skel, says) = (
      (d, p') ∷ es',
      v,
      r,
      rw e,
      ground (arith, sum, count),
      skeleton-cons es' skel,
      Says-cons r es' v says,
    )

  -- One round, the loop over the entries behind being as it should.
  visit-Scans :
      (d : ℕ) (p : QueryPeer N) (s : QueryPeerState) (es : List (Entry N))
      (rest : Option ℕ → ℕ → Option (Pass N)) (cnt : Option ℕ) (w : ℕ)
      → p.state ≡ s
      → waiting_count ((d, p) ∷ es) ≤ w
      → ((c : Option ℕ) (v : ℕ) → waiting_count es ≤ v → Scans es c v (rest c v))
      → Scans ((d, p) ∷ es) cnt w (visit config now full d p s es rest cnt w)
  unfolding visit waiting_count nearest_new done_within
  visit-Scans d p not_contacted es rest cnt w st le go = elim (Bool-cases full) [
    | inl at_cap ↦ (
      (d, p) ∷ es,
      w,
      some waiting_at_capacity,
      rw at_cap,
      refl,
      refl,
      (at_cap, omega arith, refl),
    )
    | inr free ↦ (
      (d, asked) ∷ es,
      w + 1,
      some (QueryState.waiting (some p.key.preimage)),
      rw free,
      ground arith,
      refl,
      (free, omega arith, (p, ground arith, refl)),
    )
  ]
    where
      asked : QueryPeer N
      asked = set_state (QueryPeerState.waiting (now + config.peer_timeout)) p
  visit-Scans d p (QueryPeerState.waiting timeout) es rest cnt w st le go =
      elim (Bool-cases (leb timeout now)) [
        | inl late ↦
            let (w', e) = one_less_of_pos w (ground arith) in
            rw (late, e.0)
              (behind-Scans d p (set_state unresponsive p) es cnt cnt w w' refl (ground arith)
                (omega arith)
                (λ es' c' q h.
                  (c', q, λ j r. done-skip d (set_state unresponsive p) es' j (inr refl) ∙ h j r))
                (rest cnt w') (ground arith) (go cnt w' (ground arith)))
        | inr early ↦ elim (Bool-cases full) [
          | inl at_cap ↦ (
            (d, p) ∷ es,
            w,
            some waiting_at_capacity,
            rw (early, at_cap),
            refl,
            refl,
            (at_cap, omega arith, refl),
          )
          | inr free ↦
              let e : visit config now full d p (QueryPeerState.waiting timeout) es rest cnt w
                  ≡ behind (d, p) (rest none w) =
                rw (early, free) in
              subst (Scans ((d, p) ∷ es) cnt w) (sym e) (
                behind-Scans d p p es cnt none w w refl (ground arith) (omega arith)
                  (λ es' c' q h. cc) (rest none w) (omega arith) (go none w (ground arith)))
        ]
      ]
  visit-Scans d p succeeded es rest none w st le go =
      behind-Scans d p p es none none w w refl (ground arith) (omega arith) (λ es' c' e h. cc)
        (rest none w) (omega arith) (go none w (ground arith))
  visit-Scans d p succeeded es rest (some c) w st le go =
      elim (Bool-cases (leb config.num_results (c + 1))) [
        | inl enough ↦ (
          (d, p) ∷ es,
          w,
          some QueryState.finished,
          rw enough,
          refl,
          refl,
          (omega arith, (c, refl, λ j q. done-one d p es j st (ground arith)), refl),
        )
        | inr few ↦ rw few (
            behind-Scans d p p es (some c) (some (c + 1)) w w refl (ground arith) (omega arith)
              (λ es' c' q h.
                (c, refl, λ j r. done-next d p es' j st (ground arith) (h (j - 1) (ground arith))))
              (rest (some (c + 1)) w) (omega arith) (go (some (c + 1)) w (ground arith)))
      ]
  visit-Scans d p failed es rest cnt w st le go =
      behind-Scans d p p es cnt cnt w w refl (ground arith) (omega arith)
        (λ es' c' e h. (c', e, λ j q. done-skip d p es' j (inl st) ∙ h j q)) (rest cnt w)
        (omega arith) (go cnt w (ground arith))
  visit-Scans d p unresponsive es rest cnt w st le go =
      behind-Scans d p p es cnt cnt w w refl (ground arith) (omega arith)
        (λ es' c' e h. (c', e, λ j q. done-skip d p es' j (inr st) ∙ h j q)) (rest cnt w)
        (omega arith) (go cnt w (ground arith))

  pub scan-Scans :
      (es : List (Entry N)) (cnt : Option ℕ) (w : ℕ)
      → waiting_count es ≤ w
      → Scans es cnt w (scan config now full es cnt w)
  unfolding scan
  scan-Scans [] cnt w le = ([], w, none, refl, refl, refl, (nearest_new-nil, omega arith))
  scan-Scans ((d, p) ∷ es) cnt w le =
      visit-Scans d p p.state es (scan config now full es) cnt w refl le (scan-Scans es)
