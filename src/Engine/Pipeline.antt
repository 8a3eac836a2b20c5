-- ===== src/Engine/Pipeline.antt =====
-- crates/engine/src/pipeline: a turn, from the player's input to what is stored.
pub mod Types
pub mod Turn
pub mod Prepare
pub mod Run
pub mod Laws
pub mod Keeping
pub mod Unchanged
pub mod Applied
pub mod Outcome
