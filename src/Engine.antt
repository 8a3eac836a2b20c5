-- ===== src/Engine.antt =====
-- crates/engine/src: validation, reduction and projection of the world state.
pub mod Validated
pub mod Targets
pub mod Reducer
pub mod Validation
pub mod Turn
pub mod Projection
pub mod Scene
pub mod Context
pub mod Prompt
pub mod Safety
pub mod Pipeline
pub mod Lock
pub mod Sample
pub mod Examples
