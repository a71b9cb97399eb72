-- ===== src/Packet.antt =====
-- The packets of src/packet/mod.rs: the codec of the auth data (Kind), of the header and of the whole
pub mod Outcome
pub mod Bytes
pub mod Crates
pub mod Kind
pub mod Codec
mod KindRoundtrip
mod Roundtrip
mod Ensures
mod AuthData
mod Decode
mod Tests
