-- ===== src/Transfer.antt =====
-- crates/myvault-transfer/src/lib.rs: orchestration of guarded content transfers.
pub mod Intent
pub mod Backoff
pub mod Worker
