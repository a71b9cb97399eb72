-- ===== src/Handler/ActiveRequests/Synced.antt =====
-- src/handler/active_requests.rs: the two maps of `ActiveRequests` are in sync, which
-- `check_invariant` there tests, and the operations keep them so.
use discv.Prelude.{
  refl, some, none, [], ◌∷◌, List, Option, All, ◌≡◌, Bool, ℕ, true, false, Bool-cases, Option-cases,
  inl, inr, sym, ◌∙◌, ◌++◌, arith, subst,
}
use discv.Prelude.Eq.{Eq}
use discv.Packet.Bytes.{bytes_eq, bytes_eq_self}
use discv.Handler.RequestCall.{RequestCall, nonce}
use discv.Handler.ActiveRequests.{
  DelayMap, ActiveRequests, put, insert_request, or_empty, new_requests,
}
use discv.Handler.ActiveRequests.Calls.{
  has, Distinct, Apart, All-mono, eq_of_bytes_eq, has-last, All-last, Distinct-last,
}

abbrev pub is_empty : {C N R : Type 0} → List (RequestCall C N R) → Bool
is_empty [] = true
is_empty (c ∷ cs) = false

-- Every nonce belongs to a call of its address; every call's nonce to the address under which it is
-- kept; the calls of an address have different nonces, and an address without calls is not kept.
pub record IsSynced {A C N R : Type 0} ⦃delay : DelayMap A⦄ (s : ActiveRequests A C N R)
    : Type 0 where
  pub listed :
      (n : List ℕ) (x : A)
      → delay.get n s.active_requests_nonce_mapping ≡ some x
      → (cs : List (RequestCall C N R)) × (s.active_requests_mapping x ≡ some cs)
        × (has n cs ≡ true)
  pub mapped :
      (x : A) (cs : List (RequestCall C N R))
      → s.active_requests_mapping x ≡ some cs
      → All
          (λ (c : RequestCall C N R). delay.get (nonce c) s.active_requests_nonce_mapping ≡ some x)
          cs
        × Distinct cs
        × (is_empty cs ≡ false)

module _ {A : Type 0} ⦃a : Eq A⦄ where
  pub eq_of_same : (x y : A) → x ≡ y → a.eq x y ≡ true
  eq_of_same x y e = (a.eq_iff x y).1 e

is_empty-last :
    {C N R : Type 0} (cs : List (RequestCall C N R)) (c : RequestCall C N R)
    → is_empty (cs ++ c ∷ []) ≡ false
is_empty-last [] c = refl
is_empty-last (d ∷ cs) c = refl

module _ {A C N R : Type 0} ⦃a : Eq A⦄ ⦃delay : DelayMap A⦄ where
  pub put_same :
      (x y : A) (v : Option (List (RequestCall C N R))) (f : A → Option (List (RequestCall C N R)))
      → a.eq x y ≡ true
      → put x v f y ≡ v
  put_same x y v f e = rw e refl

  pub put_other :
      (x y : A) (v : Option (List (RequestCall C N R))) (f : A → Option (List (RequestCall C N R)))
      → a.eq x y ≡ false
      → put x v f y ≡ f y
  put_other x y v f e = rw e refl

  -- The calls that an address has, none or some.
  calls_of :
      (s : ActiveRequests A C N R) (x : A)
      → IsSynced s
      → All
          (λ (c : RequestCall C N R). delay.get (nonce c) s.active_requests_nonce_mapping ≡ some x)
          (or_empty (s.active_requests_mapping x))
        × Distinct (or_empty (s.active_requests_mapping x))
  calls_of s x w = elim (Option-cases (s.active_requests_mapping x)) [
    | inl e ↦ rw e (tt, tt)
    | inr (cs, e) ↦ let m = w.mapped x cs e in rw e (m.0, m.1)
  ]

  -- The calls of a new nonce are apart from all others.
  fresh-Apart :
      (s : ActiveRequests A C N R) (c : RequestCall C N R) (x : A)
      → delay.get (nonce c) s.active_requests_nonce_mapping ≡ none
      → (d : RequestCall C N R) → delay.get (nonce d) s.active_requests_nonce_mapping ≡ some x
      → Apart c d
  fresh-Apart s c x fresh d h = elim (Bool-cases (bytes_eq (nonce c) (nonce d))) [
    | inl same ↦
        let e : nonce c ≡ nonce d = eq_of_bytes_eq (nonce c) (nonce d) same in
        let g : none ≡ some x = sym (rw e at fresh) ∙ h in cc
    | inr n ↦ n
  ]

  -- A call with a nonce that is not in use is added, and the maps stay in sync.
  pub insert_request-IsSynced :
      (x : A) (c : RequestCall C N R) (s : ActiveRequests A C N R)
      → IsSynced s
      → delay.get (nonce c) s.active_requests_nonce_mapping ≡ none
      → IsSynced (insert_request x c s)
  unfolding insert_request
  insert_request-IsSynced x c s w fresh = record {
    listed = λ n y h. elim (Bool-cases (bytes_eq (nonce c) n)) [
      | inl same ↦
          let g : some x ≡ some y = rw (delay.get-insert (nonce c) n x ns, same) at h in
          let xy : x ≡ y = cc in
          (
            old ++ c ∷ [],
            put_same x y (some (old ++ c ∷ [])) ms (eq_of_same x y xy),
            ground (arith, has-last n old c, same),
          )
      | inr apart ↦
          let g : delay.get n ns ≡ some y = rw (delay.get-insert (nonce c) n x ns, apart) at h in
          let (cs, e, k) = w.listed n y g in
          elim (Bool-cases (a.eq x y)) [
            | inl same ↦
                let xy : x ≡ y = (a.eq_iff x y).0 same in
                let e' : ms x ≡ some cs = rw xy e in
                let was : old ≡ cs = rw e' refl in
                (
                  old ++ c ∷ [],
                  put_same x y (some (old ++ c ∷ [])) ms same,
                  ground (arith, has-last n old c, rw (sym was) at k),
                )
            | inr other ↦ (cs, put_other x y (some (old ++ c ∷ [])) ms other ∙ e, k)
          ]
    ];
    mapped = λ y cs h. elim (Bool-cases (a.eq x y)) [
      | inl e ↦
          let g : some (old ++ c ∷ []) ≡ some cs =
            sym (put_same x y (some (old ++ c ∷ [])) ms e) ∙ h in
          let g' : old ++ c ∷ [] ≡ cs = cc in
          let xy : x ≡ y = (a.eq_iff x y).0 e in
          subst (λ (z : A). Kept z cs) xy
            (subst (λ (l : List (RequestCall C N R)). Kept x l) g'
              (
                All-last (At x) old c
                    (All-mono (Was x) (At x) old (λ d k. later x d k) (calls_of s x w).0)
                    (rw (delay.get-insert (nonce c) (nonce c) x ns, bytes_eq_self (nonce c)) refl),
                Distinct-last old c (calls_of s x w).1 (
                    All-mono (Was x) (Apart c) old (λ d k. fresh-Apart s c x fresh d k)
                      (calls_of s x w).0),
                is_empty-last old c,
              ))
      | inr e ↦
          let g : ms y ≡ some cs = sym (put_other x y (some (old ++ c ∷ [])) ms e) ∙ h in
          let m = w.mapped y cs g in (All-mono (Was y) (At y) cs (λ d k. later y d k) m.0, m.1, m.2)
    ];
  }
    where
      ms : A → Option (List (RequestCall C N R))
      ms = s.active_requests_mapping

      ns : delay.Map
      ns = s.active_requests_nonce_mapping

      old : List (RequestCall C N R)
      old = or_empty (ms x)

      Was : A → RequestCall C N R → Type 0
      Was y d = delay.get (nonce d) ns ≡ some y

      At : A → RequestCall C N R → Type 0
      At y d = delay.get (nonce d) (delay.insert (nonce c) x ns) ≡ some y

      Kept : A → List (RequestCall C N R) → Type 0
      Kept y cs = All (At y) cs × Distinct cs × (is_empty cs ≡ false)

      later : (y : A) (d : RequestCall C N R) → Was y d → At y d
      later y d k = rw (delay.get-insert (nonce c) (nonce d) x ns, fresh-Apart s c y fresh d k) k

  -- Without requests the maps are in sync.
  pub new_requests-IsSynced : (d : ℕ) → IsSynced (new_requests {A = A} {C = C} {N = N} {R = R} d)
  unfolding new_requests
  new_requests-IsSynced d = record {
    listed = λ n x h. let g : none ≡ some x = sym (delay.get-new d n) ∙ h in cc;
    mapped = λ x cs h. let g : none ≡ some cs = h in cc;
  }
