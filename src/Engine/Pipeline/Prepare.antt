-- ===== src/Engine/Pipeline/Prepare.antt =====
-- crates/engine/src/pipeline/mod.rs: `prepare_turn_context` and
-- `finalize_with_parsed_delta` of `DefaultTurnPipeline`.
use advanced_roleplaying_fra.Base.{String, Option, none, some, map, Result, ok, err}
use advanced_roleplaying_fra.Domain.Ids.{Uuid}
use advanced_roleplaying_fra.Domain.State.{SceneReasoningStyle, TurnMode}
use advanced_roleplaying_fra.Domain.Delta.{WorldStateDelta}
use advanced_roleplaying_fra.Domain.Session.{MessageRecord, MessageRole}
use advanced_roleplaying_fra.Domain.Visible.{ViewerContext}
use advanced_roleplaying_fra.Engine.Validated.{ValidatedWorldStateDelta}
use advanced_roleplaying_fra.Engine.Validation.Errors.{DeltaValidationError}
use advanced_roleplaying_fra.Engine.Validation.Validate.{validate}
use advanced_roleplaying_fra.Engine.Reducer.Apply.{apply}
use advanced_roleplaying_fra.Engine.Projection.Changed.{patch_from_delta}
use advanced_roleplaying_fra.Engine.Scene.{classify}
use advanced_roleplaying_fra.Engine.Context.{MessageContext}
use advanced_roleplaying_fra.Engine.Context.Role.{activate, directive_for}
use advanced_roleplaying_fra.Engine.Context.Build.{build}
use advanced_roleplaying_fra.Engine.Pipeline.Types.{
  TurnPipelineError, LoadedTurnState, PreparedTurn, FinalizedTurn,
}
use advanced_roleplaying_fra.Engine.Pipeline.Turn.{Environment, Turn, ◌>>=◌, return, lift, draw}

-- `format!("{:?}", message.role)`.
abbrev pub role_name : MessageRole → String
role_name MessageRole.user = "User"
role_name MessageRole.assistant = "Assistant"
role_name MessageRole.system = "System"

abbrev pub prompt_template_version : String
prompt_template_version = "roleplaying-engine-v2"

abbrev pub scene_for : Option TurnMode → SceneReasoningStyle → SceneReasoningStyle
scene_for (some TurnMode.direct) classified = SceneReasoningStyle.rules_adjudication
scene_for (some TurnMode.remember) classified = SceneReasoningStyle.world_simulation
scene_for _ classified = classified

abbrev pub message_context : {Json : Type 0} → MessageRecord Json → MessageContext
message_context message = record { role = role_name message.role; content = message.content }

module _ {Json S P : Type 0} (env : Environment Json S P) where
  unfoldable pub prepare_loaded :
      String → Option TurnMode → LoadedTurnState Json → PreparedTurn Json
  prepare_loaded input mode loaded =
      let scene_type = scene_for mode (classify env.to_lowercase input loaded.world_state) in
      record {
        loaded = loaded;
        context = build (record {
          scenario = loaded.scenario;
          world_state = loaded.world_state;
          active_role = activate loaded.scenario loaded.world_state scene_type;
          scene_directive = directive_for scene_type;
          recent_messages = map message_context loaded.recent_messages;
          mode = mode;
        });
        scene_type = scene_type;
      }

  unfoldable pub load : Uuid → Turn S P (LoadedTurnState Json)
  load session_id machine = lift ((env.turn_store).load_turn_state machine.store session_id) machine

  unfoldable pub prepare_turn_context :
      Uuid → String → Option TurnMode → Turn S P (PreparedTurn Json)
  unfolding load prepare_loaded
  prepare_turn_context session_id input mode =
      load session_id >>= λ loaded. return (prepare_loaded input mode loaded)

  -- `self.validator.validate(..)?`.
  abbrev pub validated_or :
      Result ValidatedWorldStateDelta DeltaValidationError
      → Result ValidatedWorldStateDelta TurnPipelineError
  validated_or (ok validated) = ok validated
  validated_or (err e) = err (TurnPipelineError.delta_validation e)

  abbrev pub check :
      PreparedTurn Json → WorldStateDelta → Result ValidatedWorldStateDelta DeltaValidationError
  check prepared delta =
      validate env.to_lowercase (prepared.loaded).scenario (prepared.loaded).world_state delta

  unfoldable pub finalized :
      Uuid
      → PreparedTurn Json
      → String
      → ValidatedWorldStateDelta
      → String
      → ViewerContext
      → Uuid
      → Uuid
      → FinalizedTurn Json
  finalized session_id prepared visible_response validated user_input viewer user_id assistant_id =
      let updated = apply (prepared.loaded).world_state validated in
      record {
        user_message = record {
          id = user_id;
          session_id = session_id;
          role = MessageRole.user;
          speaker_id = none;
          content = user_input;
          scene_type = some prepared.scene_type;
          prompt_template_version = none;
          raw_provider_output = none;
        };
        assistant_message = record {
          id = assistant_id;
          session_id = session_id;
          role = MessageRole.assistant;
          speaker_id = ((prepared.loaded).world_state).active_speaker_id;
          content = visible_response;
          scene_type = some prepared.scene_type;
          prompt_template_version = some prompt_template_version;
          raw_provider_output = none;
        };
        validated_delta = validated;
        updated_world_state = updated;
        world_state_version = updated.version;
        frontend_state_patch = patch_from_delta (prepared.loaded).scenario updated validated viewer;
        visible_response = visible_response;
      }

  unfoldable pub finalize_with_parsed_delta :
      Uuid
      → PreparedTurn Json
      → String
      → WorldStateDelta
      → String
      → ViewerContext
      → Turn S P (FinalizedTurn Json)
  unfolding draw finalized
  finalize_with_parsed_delta session_id prepared visible_response delta user_input viewer =
      lift (validated_or (check prepared delta)) >>= λ validated. draw env >>= λ user_id.
      draw env >>= λ assistant_id. return (
        finalized session_id prepared visible_response validated user_input viewer user_id
          assistant_id)
