-- ===== src/Mempool.antt =====
-- The memory pool (core/mempool).
pub mod Types
pub mod Buckets
pub mod Roles
pub mod Cache
pub mod Pool
pub mod BucketLaws
pub mod Package
pub mod Queues
pub mod Run
pub mod Ensure
mod Tests
