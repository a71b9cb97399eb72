-- ===== src/Lib.antt =====
-- A model of discv5, an implementation of the Node Discovery Protocol v5 in Rust, and the theorems that
-- make its routing table, its lookups, its codecs and its limits correct.
--
-- The program keeps the nodes it knows in a Kademlia routing table. The table (src/kbucket.rs) has 256
-- buckets (src/kbucket/bucket.rs), one for each length of the XOR distance (src/kbucket/key.rs) from the
-- local node. A lookup (src/query_pool/peers/closest.rs) starts from known peers near a target, asks the
-- nearest ones for nearer ones, and ends when enough of the nearest have answered. The service
-- (src/service.rs) drives lookups, and tells the table which nodes answer; the handler and the sockets
-- carry the packets (src/packet) that hold the messages (src/rpc.rs), the handler keeps the requests that
-- wait for an answer (src/handler/active_requests.rs), and the packet filter (src/socket/filter) limits
-- how many packets a sender gets through.
--
--   Prelude      shared names, tests on numbers, lists, and the laws of exclusive or on numbers
--   ArrayVec     the interface of `arrayvec::ArrayVec`: `push`, `insert` and `remove` with the results
--                that its documentation gives, `none` where it panics
--   Uint         the interface of `U256`: exclusive or, leading zeros and single bits, with their laws
--                on 256 bits
--   KBucket      Key: src/kbucket/key.rs; Node: the types of src/kbucket/bucket.rs and the
--                `ConnectionDirection` of src/handler/mod.rs; Bucket: `KBucket`, with `insert`, and in
--                Bucket.Update `apply_pending`, `update_status`, `update_value` and `remove`. The other
--                children of Bucket prove what these do. Table: `KBucketsTable` of src/kbucket.rs, and
--                its children prove what its operations do by the theorems on a bucket. IpFilter:
--                src/kbucket/filter.rs. ClosestBuckets: `ClosestBucketsIter` of src/kbucket.rs, the
--                order in which the buckets are visited for a target
--   IpVote       src/service/ip_vote.rs, the external address by the votes of peers. Winner: the choice
--                among counted votes; Tally: who has the most
--   LruTimeCache src/lru_time_cache.rs, the cache in which the handler keeps its sessions. Entries and
--                Expiry: the lists of its entries; Valid and Steps: the order it is in; Finds: what it
--                finds
--   Packet       src/packet/mod.rs. Outcome: a result that is a value, an error or a panic; Bytes: byte
--                strings, big-endian numbers and slices; Crates: the interfaces of `enr` and of the
--                cipher that masks a header; Kind: `PacketKind` and the auth data; Codec: `encode` and
--                `decode` of a packet. The other children prove what these do
--   Rpc          src/rpc.rs. Rlp: the interface of `rlp`; Message: the requests and responses; Codec:
--                `encode` and `decode` of a message
--   Handler      RequestCall: src/handler/request_call.rs; ActiveRequests: the two maps of
--                src/handler/active_requests.rs, the requests by address and the addresses by nonce,
--                and its children prove that the two stay in step
--   Socket       RateLimiter: src/socket/filter/rate_limiter.rs, the limits on requests by node and by
--                address (`Limiter`, `RateLimiter`); its children prove what a request is told, and how
--                much a key can get. Filter: src/socket/filter/mod.rs with the lists of
--                src/permit_ban.rs, and in Filter.Cache the packet cache of src/socket/filter/cache.rs
--   Query        Closest: `FindNodeQuery` with `on_success` and `on_failure`, and in Closest.Next `next`
--                and `into_result`. The other children of Closest prove what these do. Predicate:
--                `PredicateQuery` of src/query_pool/peers/predicate.rs, compared in Predicate.Forget
--                with `FindNodeQuery`
--
-- State is passed on: a method that changes its object returns the new one. `Instant::now()` is an
-- argument `now`, and where an operation of the table reads the clock twice, `now` and `later`.
-- The packet cache reads the clock once for each entry it inspects, and there it stands still during
-- one call. Instants and durations are numbers of one unit. A method that can panic returns an
-- `Option`, and in Packet an `Outcome`, which tells an error from a panic; `debug_unreachable!`, which
-- panics in a debug build, is a panic too. A `BTreeMap` is the ascending list of its entries. Loops run
-- over a list, and need no fuel; only the bucket iterator is run for a number of calls, and 513 calls
-- are enough to reach its end. The `u64` times of the rate limiter wrap at 2 ^ 64. A `usize` counter has
-- no bound here: no bucket holds more than 16 nodes, and the counters of a query count entries in
-- memory.
--
-- Third-party crates are interfaces, records of operations and of the laws that their documentation
-- gives: node records and the cipher of a header in Packet, RLP in Rpc, the caches of known and banned
-- senders in Socket.Filter, the map with delays in Handler, the linked map in LruTimeCache.
--
-- Not modelled: the async event loops, channels and sockets (src/service.rs, src/discv5.rs,
-- src/handler/mod.rs, src/socket/recv.rs and send.rs), which are I/O; the cryptography of
-- src/handler/crypto, which third-party crates provide; logging, metrics and `Display`. Nor are the
-- query pool and the iterators of the table over its nodes, on which what is modelled does not depend.
pub mod Prelude
pub mod ArrayVec
pub mod Uint
pub mod KBucket
pub mod Query
pub mod IpVote
pub mod LruTimeCache
pub mod Packet
pub mod Rpc
pub mod Handler
pub mod Socket
