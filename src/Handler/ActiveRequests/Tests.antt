-- ===== src/Handler/ActiveRequests/Tests.antt =====
-- The theorems on `ActiveRequests` of src/handler/active_requests.rs, applied to one request.
use discv.Handler.ActiveRequests.Removal.{
  Removes, poll_expired-Removes, remove_by_nonce-Removes, remove_request-IsSynced,
}
use discv.Prelude.{refl, some, none, [], ◌∷◌, ℕ, List, Option, true, if◌then◌else◌, ◌≡◌, ◌⊎◌}
use discv.Prelude.Eq.{Eq, nat_Eq}
use discv.Packet.Bytes.{bytes_eq}
use discv.Packet.Codec.{Packet}
use discv.Packet.Kind.{message}
use discv.Rpc.Message.{ping}
use discv.Handler.RequestCall.{RequestCall, nonce, new_call, external, raw_id}
use discv.Handler.ActiveRequests.{
  DelayMap, ActiveRequests, remove_request, remove_by_nonce, poll_expired, new_requests,
  insert_request, raw_id,
}
use discv.Handler.ActiveRequests.Adds.{Adds, insert_request-Adds}
use discv.Handler.ActiveRequests.Synced.{IsSynced, insert_request-IsSynced, new_requests-IsSynced}

instance abbrev nat : Eq ℕ
nat = nat_Eq

instance abbrev forever : DelayMap ℕ
forever = record {
  Map = List ℕ → Option ℕ;
  new = λ d j. none;
  get = λ j m. m j;
  insert = λ k v m j. if bytes_eq k j then some v else m j;
  remove = λ k m j. if bytes_eq k j then none else m j;
  get-new = λ d j. refl;
  get-insert = λ k j v m. refl;
  get-remove = λ k j m. refl;
}

abbrev packet : Packet ℕ ℕ
packet = record {
  iv = 0;
  header = record { message_nonce = 1 ∷ 2 ∷ []; kind = message 5 };
  message = [];
}

abbrev call : RequestCall ℕ ℕ ℕ
call = new_call 0 packet (external (8 ∷ [])) (ping 1) true

abbrev empty : ActiveRequests ℕ ℕ ℕ ℕ
empty = new_requests 1000

abbrev one : ActiveRequests ℕ ℕ ℕ ℕ
one = insert_request 10 call empty

fresh : forever.get (nonce call) empty.active_requests_nonce_mapping ≡ none
unfolding new_call new_requests
fresh = refl

insert_request-Adds_example : Adds 10 call empty one
insert_request-Adds_example = insert_request-Adds 10 call empty (new_requests-IsSynced 1000) fresh

one-IsSynced : IsSynced one
one-IsSynced = insert_request-IsSynced 10 call empty (new_requests-IsSynced 1000) fresh

remove_by_nonce-Removes_example :
    (r : ActiveRequests ℕ ℕ ℕ ℕ × Option (ℕ × RequestCall ℕ ℕ ℕ)) × (remove_by_nonce
        (1 ∷ 2 ∷ [])
        one
      ≡ some r)
    × (((forever.get (1 ∷ 2 ∷ []) one.active_requests_nonce_mapping ≡ none) × (r ≡ (one, none)))
        ⊎ Removes (1 ∷ 2 ∷ []) one r)
remove_by_nonce-Removes_example = remove_by_nonce-Removes (1 ∷ 2 ∷ []) one one-IsSynced

in_use : forever.get (1 ∷ 2 ∷ []) one.active_requests_nonce_mapping ≡ some 10
unfolding insert_request new_call new_requests bytes_eq
in_use = refl

poll_expired-Removes_example : Removes (1 ∷ 2 ∷ []) one (poll_expired (1 ∷ 2 ∷ []) 10 one)
poll_expired-Removes_example = poll_expired-Removes (1 ∷ 2 ∷ []) 10 one one-IsSynced in_use

remove_request-IsSynced_example :
    IsSynced (remove_request 10 (8 ∷ []) one).0
    × (((remove_request 10 (8 ∷ []) one).1 ≡ none)
        ⊎ ((c : RequestCall ℕ ℕ ℕ) × ((remove_request 10 (8 ∷ []) one).1 ≡ some c)
            × (raw_id c.request_id ≡ 8 ∷ [])
            × (forever.get
                  (nonce c)
                  (remove_request 10 (8 ∷ []) one).0.active_requests_nonce_mapping
                ≡ none)))
remove_request-IsSynced_example = remove_request-IsSynced 10 (8 ∷ []) one one-IsSynced
