-- ===== src/Rpc.antt =====
-- The messages of src/rpc.rs, requests and responses, and their RLP codec.
pub mod Rlp
pub mod Message
pub mod Codec
mod Roundtrip
mod Tests
