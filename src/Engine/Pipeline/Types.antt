-- ===== src/Engine/Pipeline/Types.antt =====
-- crates/engine/src/pipeline: types.rs and events.rs, `TurnPipelineError`, and the interface
-- `TurnStateStore` of mod.rs. `serde_json::Value` is a type that the records take.
use advanced_roleplaying_fra.Base.{ℕ, String, Option, List, Result}
use advanced_roleplaying_fra.Base.Int.{ℤ}
use advanced_roleplaying_fra.Domain.Ids.{Uuid}
use advanced_roleplaying_fra.Domain.Scenario.{Scenario}
use advanced_roleplaying_fra.Domain.State.{WorldState, SceneReasoningStyle, TurnMode}
use advanced_roleplaying_fra.Domain.Session.{MessageRecord}
use advanced_roleplaying_fra.Domain.Visible.{EntityRef, ViewerContext, FrontendStatePatch}
use advanced_roleplaying_fra.Engine.Validated.{ValidatedWorldStateDelta}
use advanced_roleplaying_fra.Engine.Validation.Errors.{DeltaValidationError}
use advanced_roleplaying_fra.Engine.Lock.{TurnLockError}
use advanced_roleplaying_fra.Engine.Context.{AgentContext}
use advanced_roleplaying_fra.Engine.Prompt.Parser.{ParseError}
use advanced_roleplaying_fra.Providers.Request.{ProviderError}

pub data PipelineEventKind : Type 0 where
  turn_started turn_lock_acquired context_built provider_called provider_responded delta_applied
        frontend_state_projected turn_finished turn_lock_releasing provider_usage_captured :
      PipelineEventKind

abbrev pub as_str : PipelineEventKind → String
as_str PipelineEventKind.turn_started = "turn_started"
as_str PipelineEventKind.turn_lock_acquired = "turn_lock_acquired"
as_str PipelineEventKind.context_built = "context_built"
as_str PipelineEventKind.provider_called = "provider_called"
as_str PipelineEventKind.provider_responded = "provider_responded"
as_str PipelineEventKind.delta_applied = "delta_applied"
as_str PipelineEventKind.frontend_state_projected = "frontend_state_projected"
as_str PipelineEventKind.turn_finished = "turn_finished"
as_str PipelineEventKind.turn_lock_releasing = "turn_lock_releasing"
as_str PipelineEventKind.provider_usage_captured = "provider_usage_captured"

pub data TurnPipelineError : Type 0 where
  not_found : TurnPipelineError
  lock : (error : TurnLockError) → TurnPipelineError
  provider : (error : ProviderError) → TurnPipelineError
  parse : (error : ParseError) → TurnPipelineError
  delta_validation : (error : DeltaValidationError) → TurnPipelineError
  store : (message : String) → TurnPipelineError

pub record TurnRequestInput : Type 0 where
  pub session_id : Uuid
  pub input : String
  pub mode : Option TurnMode
  pub viewer : ViewerContext

pub record TurnResponse : Type 0 where
  pub message_id : Uuid
  pub player_response : String
  pub scene_type : SceneReasoningStyle
  pub world_state_version : ℤ
  pub changed_entities : List EntityRef
  pub frontend_state_patch : FrontendStatePatch

pub record LoadedTurnState (Json : Type 0) : Type 0 where
  pub scenario : Scenario
  pub world_state : WorldState
  pub recent_messages : List (MessageRecord Json)

pub record PreparedTurn (Json : Type 0) : Type 0 where
  pub loaded : LoadedTurnState Json
  pub context : AgentContext
  pub scene_type : SceneReasoningStyle

pub record FinalizedTurn (Json : Type 0) : Type 0 where
  pub user_message : MessageRecord Json
  pub assistant_message : MessageRecord Json
  pub validated_delta : ValidatedWorldStateDelta
  pub updated_world_state : WorldState
  pub world_state_version : ℤ
  pub frontend_state_patch : FrontendStatePatch
  pub visible_response : String

-- A store with states S. An operation that draws UUIDs takes them: one, or one for each event.
pub record TurnStateStore (Json S : Type 0) : Type 0 where
  pub load_turn_state : S → Uuid → Result (LoadedTurnState Json) TurnPipelineError
  pub persist_successful_turn :
      (ℕ → Uuid)
      → MessageRecord Json
      → MessageRecord Json
      → ValidatedWorldStateDelta
      → WorldState
      → S
      → S × Result (Unit {0}) TurnPipelineError
  pub persist_error_event : Uuid → Uuid → String → S → S × Result (Unit {0}) TurnPipelineError
  pub persist_pipeline_event :
      Uuid → Uuid → String → String → S → S × Result (Unit {0}) TurnPipelineError
