-- ===== src/KBucket.antt =====
-- src/kbucket.rs and src/kbucket/: the Kademlia routing table.
pub mod Key
pub mod Node
pub mod Bucket
pub mod Table
pub mod ClosestBuckets
pub mod IpFilter
