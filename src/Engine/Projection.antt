-- ===== src/Engine/Projection.antt =====
-- crates/engine/src/projection.rs: what a viewer is shown of the world state, and which entities a
-- turn is said to have changed.
pub mod View
pub mod Hiding
pub mod Changed
pub mod Unique
pub mod Loops
pub mod Mentions
pub mod Recent
