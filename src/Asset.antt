-- ===== src/Asset.antt =====
-- The asset service (built-in-services/asset).
pub mod Types
pub mod Sdk
pub mod Service
pub mod Transfer
pub mod Total
pub mod Supply
pub mod Operations
pub mod Issue
pub mod Allowance
pub mod Run
pub mod Memory
mod Tests
