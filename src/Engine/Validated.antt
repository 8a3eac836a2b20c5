-- ===== src/Engine/Validated.antt =====
-- crates/engine/src/validation.rs: the wrapper of a delta that has passed validation.
use advanced_roleplaying_fra.Domain.Delta.{WorldStateDelta}

pub record ValidatedWorldStateDelta : Type 0 where
  pub inner : WorldStateDelta
