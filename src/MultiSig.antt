-- ===== src/MultiSig.antt =====
-- The multi-signature service (built-in-services/multi-signature).
pub mod Types
pub mod Sdk
pub mod Service
pub mod Verify
pub mod Weights
pub mod Invariant
pub mod Run
pub mod Owner
pub mod Threshold
pub mod Classify
pub mod Open
mod Tests
