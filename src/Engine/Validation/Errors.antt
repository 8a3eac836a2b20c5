-- ===== src/Engine/Validation/Errors.antt =====
-- crates/engine/src/validation.rs: why a delta is refused.
use advanced_roleplaying_fra.Base.{String}
use advanced_roleplaying_fra.Base.Int.{ℤ}
use advanced_roleplaying_fra.Domain.Ids.{EntityKey}
use advanced_roleplaying_fra.Domain.Scenario.{NpcStatus}

pub data DeltaValidationError : Type 0 where
  unknown_entity : (entity : String) (id : EntityKey) → DeltaValidationError
  missing_field : String → DeltaValidationError
  secret_leak : String → DeltaValidationError
  clock_out_of_range : (clock_id : EntityKey) (value : ℤ) → DeltaValidationError
  standing_out_of_range : (faction_id : EntityKey) (value : ℤ) → DeltaValidationError
  pressure_out_of_range : (faction_id : EntityKey) (value : ℤ) → DeltaValidationError
  invalid_status : String → DeltaValidationError
  memory_importance_out_of_range : (importance : ℤ) → DeltaValidationError
  unknown_reveal_condition : (clue_id : EntityKey) (condition_id : EntityKey) → DeltaValidationError
  player_goal_progress_out_of_range : (value : ℤ) → DeltaValidationError
  player_resource_out_of_range :
      (resource_id : EntityKey) (value : ℤ) (min : ℤ) (max : ℤ) → DeltaValidationError
  relationship_metric_out_of_range :
      (source_id : EntityKey) (target_id : EntityKey) (value : ℤ) → DeltaValidationError
  invalid_npc_status_action :
      (npc_id : EntityKey) (status : NpcStatus) (action : String) → DeltaValidationError
  missing_reason missing_reveal_proof missing_action_stakes missing_action_consequence :
      DeltaValidationError
