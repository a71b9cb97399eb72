-- ===== src/Handler/ActiveRequests/Calls.antt =====
-- Lists of calls (src/handler/active_requests.rs): which nonces they have, and what taking one out
-- leaves.
use discv.Prelude.{
  refl, some, none, [], ◌∷◌, List, Bool, ◌≡◌, ℕ, false, All, true, Bool-cases, arith, ◌||◌, inl,
  ◌++◌, ap₂, ◌∙◌, subst, inr, Option-cases,
}
use discv.Packet.Bytes.{bytes_eq}
use discv.Handler.RequestCall.{RequestCall, nonce}
use discv.Handler.ActiveRequests.{take_out}

pub eq_of_bytes_eq : (xs ys : List ℕ) → bytes_eq xs ys ≡ true → xs ≡ ys
unfolding bytes_eq
eq_of_bytes_eq [] [] h = refl
eq_of_bytes_eq [] (y ∷ ys) h = cc
eq_of_bytes_eq (x ∷ xs) [] h = cc
eq_of_bytes_eq (x ∷ xs) (y ∷ ys) h =
    let e : x ≡ y = ground arith in
    let f : xs ≡ ys = eq_of_bytes_eq xs ys (ground arith) in
    ap₂ (λ (z : ℕ) (zs : List ℕ). z ∷ zs) e f

pub bytes_eq_comm : (xs ys : List ℕ) → bytes_eq xs ys ≡ bytes_eq ys xs
unfolding bytes_eq
bytes_eq_comm [] [] = refl
bytes_eq_comm [] (y ∷ ys) = refl
bytes_eq_comm (x ∷ xs) [] = refl
bytes_eq_comm (x ∷ xs) (y ∷ ys) = ground (arith, bytes_eq_comm xs ys)

module _ {C N R : Type 0} where
  unfoldable pub has : List ℕ → List (RequestCall C N R) → Bool
  has n [] = false
  has n (c ∷ cs) = bytes_eq (nonce c) n || has n cs

  -- Another nonce than that of the call.
  abbrev pub Apart : RequestCall C N R → RequestCall C N R → Type 0
  Apart c d = bytes_eq (nonce c) (nonce d) ≡ false

  abbrev pub Distinct : List (RequestCall C N R) → Type 0
  Distinct [] = Unit {0}
  Distinct (c ∷ cs) = All (Apart c) cs × Distinct cs

  pub has-last :
      (n : List ℕ) (cs : List (RequestCall C N R)) (c : RequestCall C N R)
      → has n (cs ++ c ∷ []) ≡ (has n cs || bytes_eq (nonce c) n)
  unfolding has
  has-last n [] c = ground arith
  has-last n (d ∷ cs) c = ground (arith, has-last n cs c)

  pub All-last :
      (P : RequestCall C N R → Type 0) (cs : List (RequestCall C N R)) (c : RequestCall C N R)
      → All P cs
      → P c
      → All P (cs ++ c ∷ [])
  All-last P [] c h k = (k, tt)
  All-last P (d ∷ cs) c h k = (h.0, All-last P cs c h.1 k)

  pub All-mono :
      (P Q : RequestCall C N R → Type 0) (cs : List (RequestCall C N R))
      → ((c : RequestCall C N R) → P c → Q c)
      → All P cs
      → All Q cs
  All-mono P Q [] f h = tt
  All-mono P Q (c ∷ cs) f h = (f c h.0, All-mono P Q cs f h.1)

  pub All-both :
      (P Q S : RequestCall C N R → Type 0) (cs : List (RequestCall C N R))
      → ((c : RequestCall C N R) → P c → Q c → S c)
      → All P cs
      → All Q cs
      → All S cs
  All-both P Q S [] f h k = tt
  All-both P Q S (c ∷ cs) f h k = (f c h.0 k.0, All-both P Q S cs f h.1 k.1)

  pub Distinct-last :
      (cs : List (RequestCall C N R)) (c : RequestCall C N R)
      → Distinct cs
      → All (Apart c) cs
      → Distinct (cs ++ c ∷ [])
  Distinct-last [] c h k = (tt, tt)
  Distinct-last (d ∷ cs) c h k = (
    All-last (Apart d) cs c h.0 (bytes_eq_comm (nonce d) (nonce c) ∙ k.0),
    Distinct-last cs c h.1 k.1,
  )

  -- What taking out gives.
  pub record Takes (p : RequestCall C N R → Bool) (cs : List (RequestCall C N R))
      (c : RequestCall C N R) (rest : List (RequestCall C N R)) : Type 1 where
    pub passes : p c ≡ true
    pub each : (P : RequestCall C N R → Type 0) → All P cs → P c × All P rest
    pub distinct : Distinct cs → Distinct rest × All (Apart c) rest
    pub others : (n : List ℕ) → bytes_eq (nonce c) n ≡ false → has n cs ≡ has n rest

  pub take_out-Takes :
      (p : RequestCall C N R → Bool) (cs : List (RequestCall C N R))
      (r : RequestCall C N R × List (RequestCall C N R))
      → take_out p cs ≡ some r
      → Takes p cs r.0 r.1
  unfolding take_out has
  take_out-Takes p [] r h = let g : none ≡ some r = h in cc
  take_out-Takes p (d ∷ cs) r h = elim (Bool-cases (p d)) [
    | inl y ↦
        let g : (d, cs) ≡ r = let k : some (d, cs) ≡ some r = rw (take_out, y) at h in cc in
        subst (λ (q : RequestCall C N R × List (RequestCall C N R)). Takes p (d ∷ cs) q.0 q.1) g
          (record {
            passes = y;
            each = λ P k. k;
            distinct = λ k. (k.1, k.0);
            others = λ n e. rw (has, e) refl;
          })
    | inr n ↦ elim (Option-cases (take_out p cs)) [
      | inl e ↦ let k : none ≡ some r = rw (take_out, n, e) at h in cc
      | inr (q, e) ↦
          let k : some (q.0, d ∷ q.1) ≡ some r = rw (take_out, n, e) at h in
          let g : (q.0, d ∷ q.1) ≡ r = cc in
          let t = take_out-Takes p cs q e in
          subst (λ (x : RequestCall C N R × List (RequestCall C N R)). Takes p (d ∷ cs) x.0 x.1) g
            (record {
              passes = t.passes;
              each = λ P m. ((t.each P m.1).0, (m.0, (t.each P m.1).1));
              distinct = λ m. (
                ((t.each (Apart d) m.0).1, (t.distinct m.1).0),
                (
                  bytes_eq_comm (nonce q.0) (nonce d) ∙ (t.each (Apart d) m.0).0,
                  (t.distinct m.1).1,
                ),
              );
              others = λ m u. rw (has, t.others m u) refl;
            })
    ]
  ]

  -- A call of a nonce that is there is found.
  pub take_out-has :
      (n : List ℕ) (cs : List (RequestCall C N R))
      → has n cs ≡ true
      → (r : RequestCall C N R × List (RequestCall C N R)) × (take_out
            (λ (c : RequestCall C N R). bytes_eq (nonce c) n)
            cs
          ≡ some r)
  unfolding take_out has
  take_out-has n [] h = cc
  take_out-has n (c ∷ cs) h = elim (Bool-cases (bytes_eq (nonce c) n)) [
    | inl y ↦ ((c, cs), rw (take_out, y) refl)
    | inr m ↦
        let g : has n cs ≡ true = rw (has, m) at h in
        let (r, e) = take_out-has n cs g in ((r.0, c ∷ r.1), rw (take_out, m, e) refl)
  ]
