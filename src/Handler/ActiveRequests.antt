-- ===== src/Handler/ActiveRequests.antt =====
-- src/handler/active_requests.rs, `ActiveRequests`. The `HashMap` of the requests by address is a
-- function, and `HashMapDelay` is an interface. A method returns `none` where it panics: a
-- `debug_unreachable!` is reached.
pub mod Calls
pub mod Synced
pub mod Adds
pub mod Removal
mod Tests
use discv.Prelude.{ℕ, Option, Bool, List, some, ◌≡◌, none, [], if◌then◌else◌, ◌++◌, ◌∷◌, ◌>>=◌}
use discv.Prelude.Eq.{Eq}
use discv.Packet.Codec.{Packet}
use discv.Packet.Bytes.{bytes_eq}
use discv.Handler.RequestCall.{RequestCall, nonce, raw_id, update_call_packet}

-- `delay_map::HashMapDelay` with byte strings as keys: an entry stays until it is removed or expires.
pub record DelayMap (V : Type 0) : Type 1 where
  pub Map : Type 0
  pub new : ℕ → Map
  pub get : List ℕ → Map → Option V
  pub insert : List ℕ → V → Map → Map
  pub remove : List ℕ → Map → Map
  pub get-new : (d : ℕ) (j : List ℕ) → get j (new d) ≡ none
  pub get-insert :
      (k j : List ℕ) (v : V) (m : Map)
      → get j (insert k v m) ≡ (if bytes_eq k j then some v else get j m)
  pub get-remove :
      (k j : List ℕ) (m : Map) → get j (remove k m) ≡ (if bytes_eq k j then none else get j m)

pub record ActiveRequests (A C N R : Type 0) ⦃delay : DelayMap A⦄ : Type 0 where
  pub active_requests_mapping : A → Option (List (RequestCall C N R))
  pub active_requests_nonce_mapping : delay.Map

module _ {C N R : Type 0} where
  -- `position` and then `remove`: the first call that passes the test, and the others.
  unfoldable pub take_out :
      (RequestCall C N R → Bool)
      → List (RequestCall C N R)
      → Option (RequestCall C N R × List (RequestCall C N R))
  take_out p [] = none
  take_out p (c ∷ cs) =
      let rest = take_out p cs in if p c then some (c, cs) else (rest >>= λ r. some (r.0, c ∷ r.1))

  -- The call of a nonce gets another packet, if it is there (`iter_mut().find`).
  unfoldable pub update_in :
      List ℕ → Packet N R → List (RequestCall C N R) → Option (List (RequestCall C N R))
  unfolding update_call_packet
  update_in n p [] = none
  update_in n p (c ∷ cs) =
      let rest = update_in n p cs in
      if bytes_eq (nonce c) n
      then some (update_call_packet p c ∷ cs)
      else (rest >>= λ r. some (c ∷ r))

  -- No entry is kept for an empty list.
  abbrev pub unless_empty : List (RequestCall C N R) → Option (List (RequestCall C N R))
  unless_empty [] = none
  unless_empty (c ∷ cs) = some (c ∷ cs)

  abbrev pub or_empty : Option (List (RequestCall C N R)) → List (RequestCall C N R)
  or_empty none = []
  or_empty (some cs) = cs

module _ {C N R : Type 0} (A : Type 0) ⦃delay : DelayMap A⦄ where
  -- The nonces of the calls are taken out; each is to be there.
  unfoldable pub remove_nonces : List (RequestCall C N R) → delay.Map → Option delay.Map
  remove_nonces [] m = some m
  remove_nonces (c ∷ cs) m =
      delay.get (nonce c) m >>= λ _. remove_nonces cs (delay.remove (nonce c) m)

module _ {A C N R : Type 0} ⦃a : Eq A⦄ ⦃delay : DelayMap A⦄ where
  -- The mapping with another value at an address.
  abbrev pub put :
      A
      → Option (List (RequestCall C N R))
      → (A → Option (List (RequestCall C N R)))
      → A
      → Option (List (RequestCall C N R))
  put x v f y = if a.eq x y then v else f y

  unfoldable pub new_requests : ℕ → ActiveRequests A C N R
  new_requests request_timeout = record {
    active_requests_mapping = λ _. none;
    active_requests_nonce_mapping = delay.new request_timeout;
  }

  unfoldable pub insert_request :
      A → RequestCall C N R → ActiveRequests A C N R → ActiveRequests A C N R
  insert_request x c s = record {
    active_requests_mapping =
        put x (some (or_empty (s.active_requests_mapping x) ++ c ∷ [])) s.active_requests_mapping;
    active_requests_nonce_mapping = delay.insert (nonce c) x s.active_requests_nonce_mapping;
  }

  unfoldable pub update_packet :
      List ℕ → Packet N R → ActiveRequests A C N R → Option (ActiveRequests A C N R)
  unfolding update_in
  update_packet old_nonce new_packet s = do
    x ← delay.get old_nonce s.active_requests_nonce_mapping
    requests ← s.active_requests_mapping x
    updated ← update_in old_nonce new_packet requests
    some (record {
      active_requests_mapping = put x (some updated) s.active_requests_mapping;
      active_requests_nonce_mapping =
          delay.insert new_packet.header.message_nonce x
            (delay.remove old_nonce s.active_requests_nonce_mapping);
    })

  -- What `remove_by_nonce` does with the address that a nonce had.
  unfoldable pub remove_at_address :
      List ℕ
      → A
      → ActiveRequests A C N R
      → Option (ActiveRequests A C N R × Option (A × RequestCall C N R))
  unfolding take_out
  remove_at_address n x s = elim (s.active_requests_mapping x) [
    | none ↦ none
    | some requests ↦ elim (take_out (λ c. bytes_eq (nonce c) n) requests) [
      | none ↦ some (
        record s {
          active_requests_mapping = put x (unless_empty requests) s.active_requests_mapping;
        },
        none,
      )
      | some (c, rest) ↦ some (
        record s { active_requests_mapping = put x (unless_empty rest) s.active_requests_mapping },
        some (x, c),
      )
    ]
  ]

  unfoldable pub remove_by_nonce :
      List ℕ
      → ActiveRequests A C N R
      → Option (ActiveRequests A C N R × Option (A × RequestCall C N R))
  unfolding remove_at_address
  remove_by_nonce n s = elim (delay.get n s.active_requests_nonce_mapping) [
    | none ↦ some (s, none)
    | some x ↦ remove_at_address n x (record s {
      active_requests_nonce_mapping = delay.remove n s.active_requests_nonce_mapping;
    })
  ]

  unfoldable pub remove_requests :
      A
      → ActiveRequests A C N R
      → Option (ActiveRequests A C N R × Option (List (RequestCall C N R)))
  unfolding remove_nonces
  remove_requests x s = elim (s.active_requests_mapping x) [
    | none ↦ some (s, none)
    | some [] ↦ none
    | some (c ∷ cs) ↦ do
      m ← remove_nonces A (c ∷ cs) s.active_requests_nonce_mapping
      some (
        record {
          active_requests_mapping = put x none s.active_requests_mapping;
          active_requests_nonce_mapping = m;
        },
        some (c ∷ cs),
      )
  ]

  unfoldable pub remove_request :
      A → List ℕ → ActiveRequests A C N R → ActiveRequests A C N R × Option (RequestCall C N R)
  unfolding take_out raw_id
  remove_request x id s = elim (s.active_requests_mapping x) [
    | none ↦ (s, none)
    | some requests ↦ elim (take_out (λ c. bytes_eq (raw_id c.request_id) id) requests) [
      | none ↦ (s, none)
      | some (c, rest) ↦ (
        record {
          active_requests_mapping = put x (unless_empty rest) s.active_requests_mapping;
          active_requests_nonce_mapping = delay.remove (nonce c) s.active_requests_nonce_mapping;
        },
        some c,
      )
    ]
  ]

  -- `poll_next`, when the nonce `n` of the address `x` has expired, and so left the map of nonces.
  unfoldable pub poll_expired :
      List ℕ → A → ActiveRequests A C N R → ActiveRequests A C N R × Option (A × RequestCall C N R)
  unfolding take_out
  poll_expired n x s =
      let s' = record s {
        active_requests_nonce_mapping = delay.remove n s.active_requests_nonce_mapping;
      } in
      elim (s.active_requests_mapping x) [
        | none ↦ (s', none)
        | some requests ↦ elim (take_out (λ c. bytes_eq (nonce c) n) requests) [
          | none ↦ (s', none)
          | some (c, rest) ↦ (
            record s' {
              active_requests_mapping = put x (unless_empty rest) s.active_requests_mapping;
            },
            some (x, c),
          )
        ]
      ]
