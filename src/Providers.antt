-- ===== src/Providers.antt =====
-- crates/providers/src: the requests to a language model.
pub mod Request
pub mod Retry
pub mod Sse
pub mod Examples
