-- ===== src/Engine/Reducer.antt =====
-- crates/engine/src/reducer.rs: a validated delta turns one world state into the next.
pub mod Records
pub mod Npcs
pub mod Counters
pub mod Player
pub mod Apply
pub mod Parts
pub mod WellFormed
pub mod Numbering
pub mod FactIds
pub mod Roster
pub mod Knowledge
