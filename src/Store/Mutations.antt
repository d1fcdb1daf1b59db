-- ===== src/Store/Mutations.antt =====
-- The durable mutations of crates/myvault-sync-engine/src/store.rs: guarded changes, their states,
-- their events and the evidence of their outcomes.
pub mod Evidence
pub mod Machine
pub mod Transitions
pub mod Steps
pub mod Writes
pub mod Operations
pub mod Spent
pub mod Log
pub mod Races
pub mod Once
mod Tests
