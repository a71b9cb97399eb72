-- ===== src/Handler/RequestCall.antt =====
-- src/handler/request_call.rs, `RequestCall`, with `HandlerReqId` of src/handler/mod.rs.
use discv.Prelude.{List, Bool, Option, true, ℕ, false, if◌then◌else◌, none, ltb, ◌+◌, some}
use discv.Rpc.Message.{RequestBody}
use discv.Packet.Codec.{Packet}

pub data HandlerReqId : Type 0 where
  internal external : List ℕ → HandlerReqId

pub record RequestCall (C N R : Type 0) : Type 0 where
  pub contact : C
  pub packet : Packet N R
  pub request_id : HandlerReqId
  pub request : RequestBody
  pub handshake_sent : Bool
  pub retries : ℕ
  pub remaining_responses : Option ℕ
  pub initiating_session : Bool

-- `HandlerReqId` as a `RequestId`
unfoldable pub raw_id : HandlerReqId → List ℕ
raw_id (internal id) = id
raw_id (external id) = id

module _ {C N R : Type 0} where
  -- `RequestCall::new`
  unfoldable pub new_call : C → Packet N R → HandlerReqId → RequestBody → Bool → RequestCall C N R
  new_call contact packet request_id body initiating_session = record {
    contact = contact;
    packet = packet;
    request_id = request_id;
    request = body;
    handshake_sent = false;
    retries = 1;
    remaining_responses = none;
    initiating_session = initiating_session;
  }

  -- `increment_retries`, on a `u8`; an overflow panics.
  unfoldable pub increment_retries : RequestCall C N R → Option (RequestCall C N R)
  increment_retries c =
      if ltb (c.retries + 1) 256 then some (record c { retries = c.retries + 1 }) else none

  unfoldable pub set_handshake_sent : RequestCall C N R → RequestCall C N R
  set_handshake_sent c = record c { handshake_sent = true }

  unfoldable pub set_initiating_session : Bool → RequestCall C N R → RequestCall C N R
  set_initiating_session state c = record c { initiating_session = state }

  unfoldable pub update_call_packet : Packet N R → RequestCall C N R → RequestCall C N R
  update_call_packet p c = record c { packet = p }

  -- `packet().message_nonce()`
  abbrev pub nonce : RequestCall C N R → List ℕ
  nonce c = c.packet.header.message_nonce
