-- ===== src/Socket.antt =====
-- src/socket: what is checked before a packet is read.
pub mod RateLimiter
pub mod Filter
