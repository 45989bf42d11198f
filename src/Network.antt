-- ===== src/Network.antt =====
-- The peer manager of the network (core/network/src/peer_manager).
pub mod Types
pub mod Retry
pub mod Tags
pub mod Addrs
pub mod Peers
pub mod Sessions
pub mod Manager
pub mod Start
pub mod Events
pub mod Dialling
pub mod Routine
pub mod Linked
pub mod Counted
pub mod Sound
pub mod PreCheck
pub mod Steps
pub mod Blames
pub mod Dials
pub mod Handle
pub mod Handled
pub mod Reached
pub mod Addressed
pub mod Waits
pub mod Bans
pub mod Replaced
pub mod Admits
mod Tests
