-- ===== src/Query.antt =====
-- src/query_pool.rs and src/query_pool/: the queries for nodes.
pub mod Closest
pub mod Predicate
