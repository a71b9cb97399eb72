-- ===== src/Handler/ActiveRequests/Removal.antt =====
-- src/handler/active_requests.rs: calls leave `ActiveRequests`, and its maps stay in sync.
use discv.Prelude.{
  refl, some, none, [], ◌∷◌, List, ℕ, Bool, ◌≡◌, true, false, Option, All, Bool-cases, inl, sym,
  ◌∙◌, inr, subst, ◌⊎◌, Option-cases,
}
use discv.Prelude.Eq.{Eq}
use discv.Packet.Bytes.{bytes_eq, bytes_eq_self}
use discv.Handler.RequestCall.{RequestCall, nonce, raw_id}
use discv.Handler.ActiveRequests.{
  DelayMap, ActiveRequests, put, unless_empty, take_out, remove_by_nonce, poll_expired,
  remove_request, remove_at_address, raw_id,
}
use discv.Handler.ActiveRequests.Calls.{
  has, Distinct, Apart, All-mono, All-both, Takes, eq_of_bytes_eq, take_out-has, take_out-Takes,
}
use discv.Handler.ActiveRequests.Synced.{IsSynced, is_empty, eq_of_same, put_same, put_other}

module _ {C N R : Type 0} where
  kept_nonempty :
      (n : List ℕ) (cs : List (RequestCall C N R)) → has n cs ≡ true → unless_empty cs ≡ some cs
  unfolding has
  kept_nonempty n [] h = cc
  kept_nonempty n (c ∷ cs) h = refl

  of_unless_empty :
      (rest cs : List (RequestCall C N R))
      → unless_empty rest ≡ some cs
      → (rest ≡ cs) × (is_empty rest ≡ false)
  of_unless_empty [] cs h = let g : none ≡ some cs = h in cc
  of_unless_empty (c ∷ rest) cs h = let g : c ∷ rest ≡ cs = cc in (g, refl)

gone :
    {A : Type 0} ⦃delay : DelayMap A⦄ (n : List ℕ) (m : delay.Map)
    → delay.get n (delay.remove n m) ≡ none
gone ⦃delay⦄ n m = rw (delay.get-remove n n m, bytes_eq_self n) refl

module _ {A C N R : Type 0} ⦃a : Eq A⦄ ⦃delay : DelayMap A⦄ where
  -- The calls of an address without one, whose nonce is taken out too.
  abbrev without :
      A
      → RequestCall C N R
      → List (RequestCall C N R)
      → ActiveRequests A C N R
      → ActiveRequests A C N R
  without x c rest s = record {
    active_requests_mapping = put x (unless_empty rest) s.active_requests_mapping;
    active_requests_nonce_mapping = delay.remove (nonce c) s.active_requests_nonce_mapping;
  }

  taken-IsSynced :
      (x : A) (cs : List (RequestCall C N R)) (s : ActiveRequests A C N R)
      (p : RequestCall C N R → Bool) (c : RequestCall C N R) (rest : List (RequestCall C N R))
      → IsSynced s
      → s.active_requests_mapping x ≡ some cs
      → Takes p cs c rest
      → IsSynced (without x c rest s)
  taken-IsSynced x cs s p c rest w e t = record {
    listed = λ n y h. elim (Bool-cases (bytes_eq (nonce c) n)) [
      | inl same ↦ let g : none ≡ some y = rw (delay.get-remove (nonce c) n ns, same) at h in cc
      | inr apart ↦
          let g : delay.get n ns ≡ some y = rw (delay.get-remove (nonce c) n ns, apart) at h in
          let (ds, f, k) = w.listed n y g in
          elim (Bool-cases (a.eq x y)) [
            | inl same ↦
                let xy : x ≡ y = (a.eq_iff x y).0 same in
                let f' : ms x ≡ some ds = rw xy f in
                let cd : cs ≡ ds = cc in
                let k' : has n rest ≡ true = sym (t.others n apart) ∙ rw cd k in
                (rest, put_same x y (unless_empty rest) ms same ∙ kept_nonempty n rest k', k')
            | inr other ↦ (ds, put_other x y (unless_empty rest) ms other ∙ f, k)
          ]
    ];
    mapped = λ y ds h. elim (Bool-cases (a.eq x y)) [
      | inl same ↦
          let g : unless_empty rest ≡ some ds =
            sym (put_same x y (unless_empty rest) ms same) ∙ h in
          let (rd, filled) = of_unless_empty rest ds g in
          let xy : x ≡ y = (a.eq_iff x y).0 same in
          let m = w.mapped x cs e in
          let d = t.distinct m.1 in
          subst (λ (z : A). Kept z ds) xy
            (subst (λ (l : List (RequestCall C N R)). Kept x l) rd
              (
                All-both (Apart c) (Was x) (At x) rest (λ v u k. later x v u k) d.1
                    (t.each (Was x) m.0).1,
                d.0,
                filled,
              ))
      | inr other ↦
          let g : ms y ≡ some ds = sym (put_other x y (unless_empty rest) ms other) ∙ h in
          let m = w.mapped y ds g in
          let own : Was x c = (t.each (Was x) (w.mapped x cs e).0).0 in
          (
            All-mono (Was y) (At y) ds (λ v k. later y v (elsewhere y other own v k) k) m.0,
            m.1,
            m.2,
          )
    ];
  }
    where
      ms : A → Option (List (RequestCall C N R))
      ms = s.active_requests_mapping

      ns : delay.Map
      ns = s.active_requests_nonce_mapping

      Was : A → RequestCall C N R → Type 0
      Was y d = delay.get (nonce d) ns ≡ some y

      At : A → RequestCall C N R → Type 0
      At y d = delay.get (nonce d) (delay.remove (nonce c) ns) ≡ some y

      Kept : A → List (RequestCall C N R) → Type 0
      Kept y l = All (At y) l × Distinct l × (is_empty l ≡ false)

      later : (y : A) (d : RequestCall C N R) → Apart c d → Was y d → At y d
      later y d u k = rw (delay.get-remove (nonce c) (nonce d) ns, u) k

      elsewhere :
          (y : A) → a.eq x y ≡ false → Was x c → (d : RequestCall C N R) → Was y d → Apart c d
      elsewhere y other own d k = elim (Bool-cases (bytes_eq (nonce c) (nonce d))) [
        | inl same ↦
            let q : nonce c ≡ nonce d = eq_of_bytes_eq (nonce c) (nonce d) same in
            let g : some x ≡ some y = sym own ∙ rw (sym q) at k in
            let xy : x ≡ y = cc in let g' : true ≡ false = sym (eq_of_same x y xy) ∙ other in cc
        | inr u ↦ u
      ]

  -- The call of a nonce in use: how it is taken out.
  taken_by_nonce :
      (n : List ℕ) (x : A) (s : ActiveRequests A C N R)
      → IsSynced s
      → delay.get n s.active_requests_nonce_mapping ≡ some x
      → (cs : List (RequestCall C N R)) × (c : RequestCall C N R) × (rest : List
          (RequestCall C N R))
        × (s.active_requests_mapping x ≡ some cs)
        × (take_out (λ (d : RequestCall C N R). bytes_eq (nonce d) n) cs ≡ some (c, rest))
        × (nonce c ≡ n)
        × IsSynced (record {
          active_requests_mapping = put x (unless_empty rest) s.active_requests_mapping;
          active_requests_nonce_mapping = delay.remove n s.active_requests_nonce_mapping;
        })
  taken_by_nonce n x s w h =
      let (cs, e, k) = w.listed n x h in
      let (r, f) = take_out-has n cs k in
      let p : RequestCall C N R → Bool = λ d. bytes_eq (nonce d) n in
      let t = take_out-Takes p cs r f in
      let m : nonce r.0 ≡ n = eq_of_bytes_eq (nonce r.0) n t.passes in
      let done = taken-IsSynced x cs s p r.0 r.1 w e t in
      (
        cs,
        r.0,
        r.1,
        e,
        f,
        m,
        subst
            (λ (j : List ℕ). IsSynced (record {
              active_requests_mapping = put x (unless_empty r.1) s.active_requests_mapping;
              active_requests_nonce_mapping = delay.remove j s.active_requests_nonce_mapping;
            }))
            m done,
      )

  -- What a removal by nonce, or the end of a nonce, gives.
  abbrev pub Removes :
      List ℕ
      → ActiveRequests A C N R
      → ActiveRequests A C N R × Option (A × RequestCall C N R)
      → Type 0
  Removes n s r =
      IsSynced r.0
      × ((x : A) × (c : RequestCall C N R) × (delay.get n s.active_requests_nonce_mapping ≡ some x)
          × (r.1 ≡ some (x, c))
          × (nonce c ≡ n)
          × (delay.get n r.0.active_requests_nonce_mapping ≡ none))

  -- With the maps in sync `remove_by_nonce` returns, it does not reach its `debug_unreachable!`. If
  -- no call has the nonce, nothing changes. Otherwise it gives a call of that nonce with its
  -- address, the nonce is in use no more, and the maps stay in sync.
  pub remove_by_nonce-Removes :
      (n : List ℕ) (s : ActiveRequests A C N R)
      → IsSynced s
      → (r : ActiveRequests A C N R × Option (A × RequestCall C N R)) × (remove_by_nonce n s
          ≡ some r)
        × (((delay.get n s.active_requests_nonce_mapping ≡ none) × (r ≡ (s, none))) ⊎ Removes n s r)
  unfolding remove_by_nonce remove_at_address
  remove_by_nonce-Removes n s w =
      elim (Option-cases (delay.get n s.active_requests_nonce_mapping)) [
        | inl e ↦ ((s, none), rw (remove_by_nonce, e) refl, inl (e, refl))
        | inr (x, e) ↦
            let (cs, c, rest, e1, e2, m, done) = taken_by_nonce n x s w e in
            (
              (
                record {
                  active_requests_mapping = put x (unless_empty rest) s.active_requests_mapping;
                  active_requests_nonce_mapping = delay.remove n s.active_requests_nonce_mapping;
                },
                some (x, c),
              ),
              rw (remove_by_nonce, e, remove_at_address, e1, e2) refl,
              inr (done, (x, c, e, refl, m, gone n s.active_requests_nonce_mapping)),
            )
      ]

  -- With the maps in sync, when the nonce of an address expires, `poll_next` gives a call of that
  -- nonce with the address, the nonce is in use no more, and the maps stay in sync.
  pub poll_expired-Removes :
      (n : List ℕ) (x : A) (s : ActiveRequests A C N R)
      → IsSynced s
      → delay.get n s.active_requests_nonce_mapping ≡ some x
      → Removes n s (poll_expired n x s)
  unfolding poll_expired
  poll_expired-Removes n x s w e =
      let (cs, c, rest, e1, e2, m, done) = taken_by_nonce n x s w e in
      let run : poll_expired n x s ≡ (
        record {
          active_requests_mapping = put x (unless_empty rest) s.active_requests_mapping;
          active_requests_nonce_mapping = delay.remove n s.active_requests_nonce_mapping;
        },
        some (x, c),
      ) =
        rw (poll_expired, e1, e2) refl in
      subst (Removes n s) (sym run)
        (done, (x, c, e, refl, m, gone n s.active_requests_nonce_mapping))

  -- `remove_request` keeps the maps in sync; a call that it gives has the id that it was asked for,
  -- and the call's nonce is in use no more.
  pub remove_request-IsSynced :
      (x : A) (id : List ℕ) (s : ActiveRequests A C N R)
      → IsSynced s
      → IsSynced (remove_request x id s).0
        × (((remove_request x id s).1 ≡ none)
            ⊎ ((c : RequestCall C N R) × ((remove_request x id s).1 ≡ some c)
                × (raw_id c.request_id ≡ id)
                × (delay.get (nonce c) (remove_request x id s).0.active_requests_nonce_mapping
                    ≡ none)))
  unfolding remove_request
  remove_request-IsSynced x id s w = elim (Option-cases (s.active_requests_mapping x)) [
    | inl e ↦ rw (remove_request, e) (w, inl refl)
    | inr (cs, e) ↦
        let p : RequestCall C N R → Bool = λ d. bytes_eq (raw_id d.request_id) id in
        elim (Option-cases (take_out p cs)) [
          | inl f ↦ rw (remove_request, e, f) (w, inl refl)
          | inr (r, f) ↦
              let t = take_out-Takes p cs r f in
              rw (remove_request, e, f)
                (
                  taken-IsSynced x cs s p r.0 r.1 w e t,
                  inr (
                    r.0,
                    refl,
                    eq_of_bytes_eq (raw_id r.0.request_id) id t.passes,
                    gone (nonce r.0) s.active_requests_nonce_mapping,
                  ),
                )
        ]
  ]
