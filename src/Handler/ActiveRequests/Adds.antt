-- ===== src/Handler/ActiveRequests/Adds.antt =====
-- src/handler/active_requests.rs, `insert`: what it adds to the two maps, and that it changes nothing
-- else.
use discv.Prelude.{
  refl, some, none, [], ◌∷◌, List, ◌≡◌, ◌⊎◌, inl, inr, ℕ, false, Option-cases, ◌∙◌, ◌++◌,
}
use discv.Prelude.Eq.{Eq}
use discv.Packet.Bytes.{bytes_eq, bytes_eq_self}
use discv.Handler.RequestCall.{RequestCall, nonce}
use discv.Handler.ActiveRequests.{DelayMap, ActiveRequests, insert_request, or_empty}
use discv.Handler.ActiveRequests.Synced.{
  IsSynced, insert_request-IsSynced, put_same, put_other, eq_of_same,
}

module _ {A C N R : Type 0} ⦃a : Eq A⦄ ⦃delay : DelayMap A⦄ where
  -- The call is the last of its address, its nonce belongs to that address, and every other address
  -- and nonce has what it had.
  pub record Adds (x : A) (c : RequestCall C N R) (s s' : ActiveRequests A C N R) : Type 0 where
    pub synced : IsSynced s'
    pub added :
        ((s.active_requests_mapping x ≡ none) × (s'.active_requests_mapping x ≡ some (c ∷ [])))
        ⊎ ((cs : List (RequestCall C N R)) × (s.active_requests_mapping x ≡ some cs)
            × (s'.active_requests_mapping x ≡ some (cs ++ c ∷ [])))
    pub others :
        (y : A) → a.eq x y ≡ false → s'.active_requests_mapping y ≡ s.active_requests_mapping y
    pub noted : delay.get (nonce c) s'.active_requests_nonce_mapping ≡ some x
    pub other_nonces :
        (n : List ℕ)
        → bytes_eq (nonce c) n ≡ false
        → delay.get n s'.active_requests_nonce_mapping ≡ delay.get n s.active_requests_nonce_mapping

  -- With the maps in sync and a nonce that is not in use, `insert` puts the call behind those that
  -- its address has, notes the address under its nonce, leaves every other address and nonce as it
  -- was, and keeps the maps in sync.
  pub insert_request-Adds :
      (x : A) (c : RequestCall C N R) (s : ActiveRequests A C N R)
      → IsSynced s
      → delay.get (nonce c) s.active_requests_nonce_mapping ≡ none
      → Adds x c s (insert_request x c s)
  unfolding insert_request
  insert_request-Adds x c s w fresh =
      let ms = s.active_requests_mapping in
      let ns = s.active_requests_nonce_mapping in
      let v = some (or_empty (ms x) ++ c ∷ []) in
      let now_at_x = put_same x x v ms (eq_of_same x x refl) in
      record {
        synced = insert_request-IsSynced x c s w fresh;
        added = elim (Option-cases (ms x)) [
          | inl e ↦ inl (e, now_at_x ∙ (rw e refl))
          | inr (cs, e) ↦ inr (cs, e, now_at_x ∙ (rw e refl))
        ];
        others = λ y other. put_other x y v ms other;
        noted = rw (delay.get-insert (nonce c) (nonce c) x ns, bytes_eq_self (nonce c)) refl;
        other_nonces = λ n other. rw (delay.get-insert (nonce c) n x ns, other) refl;
      }
