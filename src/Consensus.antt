-- ===== src/Consensus.antt =====
-- The consensus engine around the agreement protocol (core/consensus).
pub mod Types
pub mod Status
pub mod Splits
pub mod History
pub mod Adapter
pub mod Quorum
pub mod Weights
pub mod Actions
pub mod Sync
pub mod Syncing
pub mod Heights
pub mod Receive
pub mod Received
pub mod Checks
pub mod Engine
pub mod Commit
pub mod Proposal
pub mod Checked
pub mod Tries
pub mod Committed
mod Fixtures
mod Tests
mod EngineTests
