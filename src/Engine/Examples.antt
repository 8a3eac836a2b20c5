-- ===== src/Engine/Examples.antt =====
-- The theorems at work on the sample.
mod Turns
mod Reduction
mod Showing
pub mod Scenarios
