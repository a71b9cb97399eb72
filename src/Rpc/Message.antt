-- ===== src/Rpc/Message.antt =====
-- The messages of src/rpc.rs, with the functions that ask only for their kind; and the addresses of
-- the standard library.
use discv.Packet.Bytes.{drop, bytes_eq}
use discv.Prelude.{
  take, ℕ, List, [], ◌∷◌, Bool, true, false, Option, some, none, ◌==◌, ◌&&◌, ◌||◌, if◌then◌else◌,
}

-- The octets of an address, 4 or 16.
pub data IpAddr : Type 0 where
  v4 v6 : List ℕ → IpAddr

pub data RequestBody : Type 0 where
  ping : ℕ → RequestBody
  find_node : List ℕ → RequestBody
  talk : List ℕ → List ℕ → RequestBody

pub data ResponseBody (Enr : Type 0) : Type 0 where
  pong : ℕ → IpAddr → ℕ → ResponseBody Enr
  nodes : ℕ → List Enr → ResponseBody Enr
  talk : List ℕ → ResponseBody Enr

-- A `RequestId` is its bytes.
pub record Request : Type 0 where
  pub id : List ℕ
  pub body : RequestBody

pub record Response (Enr : Type 0) : Type 0 where
  pub id : List ℕ
  pub body : ResponseBody Enr

pub data Message (Enr : Type 0) : Type 0 where
  request : Request → Message Enr
  response : Response Enr → Message Enr

-- `Request::msg_type`
unfoldable pub request_type : RequestBody → ℕ
request_type (ping enr_seq) = 1
request_type (find_node distances) = 3
request_type (RequestBody.talk protocol req) = 5

-- `Response::msg_type`
unfoldable pub response_type : {Enr : Type 0} → ResponseBody Enr → ℕ
response_type (pong enr_seq ip port) = 2
response_type (nodes total enrs) = 4
response_type (ResponseBody.talk resp) = 6

-- `Response::match_request`
unfoldable pub match_request : {Enr : Type 0} → ResponseBody Enr → RequestBody → Bool
match_request (pong enr_seq ip port) (ping seq) = true
match_request (pong enr_seq ip port) (find_node distances) = false
match_request (pong enr_seq ip port) (RequestBody.talk protocol req) = false
match_request (nodes total enrs) (ping seq) = false
match_request (nodes total enrs) (find_node distances) = true
match_request (nodes total enrs) (RequestBody.talk protocol req) = false
match_request (ResponseBody.talk resp) (ping seq) = false
match_request (ResponseBody.talk resp) (find_node distances) = false
match_request (ResponseBody.talk resp) (RequestBody.talk protocol req) = true

-- `Ipv6Addr::is_loopback`: the address ends in 1, and all else is 0.
unfoldable pub is_loopback : List ℕ → Bool
is_loopback [] = false
is_loopback (x ∷ []) = x == 1
is_loopback (x ∷ y ∷ xs) = (x == 0) && is_loopback (y ∷ xs)

abbrev pub all_zero : List ℕ → Bool
all_zero [] = true
all_zero (x ∷ xs) = (x == 0) && all_zero xs

-- `Ipv6Addr::to_ipv4`: the last four octets of `::a.b.c.d` and of `::ffff:a.b.c.d`.
unfoldable pub to_ipv4 : List ℕ → Option (List ℕ)
to_ipv4 octets =
    if all_zero (take 10 octets)
      && (bytes_eq (take 2 (drop 10 octets)) (0 ∷ 0 ∷ [])
          || bytes_eq (take 2 (drop 10 octets)) (255 ∷ 255 ∷ []))
    then some (drop 12 octets)
    else none
