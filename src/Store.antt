-- ===== src/Store.antt =====
-- crates/myvault-sync-engine/src/store.rs: the durable store of the sync engine.
pub mod Validators
pub mod Table
pub mod Transfers
pub mod Mutations
pub mod Adapter
mod Tests
