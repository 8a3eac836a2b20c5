-- ===== src/Persistence.antt =====
-- crates/persistence/src/store.rs: where scenarios and sessions are kept.
pub mod Initial
pub mod Intro
pub mod Start
pub mod Store
pub mod Examples
