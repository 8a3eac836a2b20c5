-- ===== src/Engine/Validation.antt =====
-- crates/engine/src/validation.rs: which deltas are accepted.
pub mod Errors
pub mod Checks
pub mod Secrets
pub mod Npcs
pub mod Counters
pub mod Records
pub mod Validate
pub mod Accepted
pub mod References
pub mod Sound
