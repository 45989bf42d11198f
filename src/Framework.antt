-- ===== src/Framework.antt =====
-- The state of a service, and what a transaction does to it (framework).
pub mod State
pub mod StoreValues
pub mod Numbers
pub mod StoreArray
pub mod StoreBuckets
pub mod Intervals
pub mod BucketRuns
pub mod Executor
pub mod Transactions
pub mod Blocks
pub mod Committed
pub mod Executed
pub mod Answers
pub mod Views
mod Tests
mod ArrayTests
mod BlockTests
