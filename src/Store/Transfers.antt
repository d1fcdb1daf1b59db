-- ===== src/Store/Transfers.antt =====
-- The queue of transfers of crates/myvault-sync-engine/src/store.rs.
pub mod Record
pub mod Queue
pub mod Moves
pub mod Completion
pub mod Verified
pub mod Pages
pub mod Batches
pub mod Steps
pub mod Change
pub mod Quiet
pub mod Changes
pub mod Commits
pub mod BatchChanges
pub mod Claims
pub mod Operations
pub mod Lifecycle
pub mod Invariant
pub mod Oldest
pub mod Untouched
pub mod Recovery
