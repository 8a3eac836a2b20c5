-- ===== src/Domain.antt =====
-- crates/domain: the data of scenarios, sessions, turns and what a player sees.
pub mod Ids
pub mod Scenario
pub mod State
pub mod Delta
pub mod Visible
pub mod Validation
pub mod Session
