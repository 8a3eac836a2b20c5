-- ===== src/Engine/Prompt.antt =====
-- crates/engine/src/prompt: what is asked of the language model.
pub mod Names
pub mod Sections
pub mod Facts
pub mod Render
pub mod Requests
pub mod Hiding
pub mod Parser
pub mod Extract
pub mod Examples
