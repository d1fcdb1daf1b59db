-- ===== src/Conflict.antt =====
-- crates/myvault-sync-engine/src/conflict: classification of sync conflicts.
pub mod Cells
pub mod Facts
pub mod Classify
pub mod Paths
pub mod Replay
pub mod Validate
pub mod Input
pub mod Accepted
pub mod Gates
pub mod Naming
pub mod Framing
pub mod Identity
pub mod Identified
pub mod Named
pub mod Evidence
pub mod Safety
pub mod Published
pub mod Sealed
pub mod Seals
pub mod Concluded
mod Tests
mod NameTests
mod IdentityTests
