-- ===== src/Engine/Pipeline/Run.antt =====
-- crates/engine/src/pipeline/mod.rs: `process_turn` and `process_turn_debug` of
-- `DefaultTurnPipeline`.
use Prim.Native.String
use advanced_roleplaying_fra.Base.{
  ℕ, ◌+◌, String, Bool, true, false, ◌&&◌, Option, none, some, List, [], ◌∷◌, length, leb, nat_eq,
  if◌then◌else◌, err,
}
use advanced_roleplaying_fra.Base.Text.{codes}
use advanced_roleplaying_fra.Base.Search.{trim}
use advanced_roleplaying_fra.Domain.Ids.{Uuid}
use advanced_roleplaying_fra.Domain.Delta.{WorldStateDelta}
use advanced_roleplaying_fra.Domain.Visible.{ViewerContext}
use advanced_roleplaying_fra.Engine.Safety.{strip}
use advanced_roleplaying_fra.Engine.Context.Build.{last}
use advanced_roleplaying_fra.Engine.Prompt.Parser.{
  ParseError, Parsed, parsed, failed, panicked, parse_delta_output,
}
use advanced_roleplaying_fra.Engine.Prompt.Requests.{
  repair_prompt, as_user, build_visible_response_prompt, build_delta_extraction_prompt,
}
use advanced_roleplaying_fra.Providers.Request.{LlmRequest}
use advanced_roleplaying_fra.Engine.Pipeline.Types.{
  PipelineEventKind, as_str, TurnPipelineError, TurnRequestInput, TurnResponse, PreparedTurn,
  FinalizedTurn,
}
use advanced_roleplaying_fra.Engine.Pipeline.Prepare.{
  prepare_turn_context, finalize_with_parsed_delta,
}
use advanced_roleplaying_fra.Engine.Pipeline.Turn.{
  Environment, Stop, Turn, ◌>>=◌, ◌>>◌, return, lift, with_guard, draw, ask, stored,
}

abbrev pub is_quote : Option ℕ → Bool
is_quote none = false
is_quote (some c) = nat_eq c 0x22

abbrev pub first_code : List ℕ → Option ℕ
first_code [] = none
first_code (c ∷ cs) = some c

-- In double quotes; the quotes take one byte each, so two characters are two bytes at least.
abbrev pub is_quoted : List ℕ → Bool
is_quoted cs = is_quote (first_code cs) && is_quote (last cs) && leb 2 (length cs)

abbrev pub or_text : String → Option String → String
or_text text none = text
or_text text (some decoded) = decoded

unfoldable pub unquote_json_string : (String → Option String) → String → String
unquote_json_string string_from_str text =
    if is_quoted (codes (trim text)) then or_text text (string_from_str (trim text)) else text

pub record TwoCallOutput (Json : Type 0) : Type 0 where
  pub stripped_visible : String
  pub raw_delta_text : String
  pub visible_raw_provider_output : Json

-- `.unwrap_or_else(|| serde_json::Value::String(text))`.
abbrev pub raw_or : {Json : Type 0} → Json → Option Json → Json
raw_or other none = other
raw_or other (some raw) = raw

module _ {Json S P : Type 0} (env : Environment Json S P) where
  unfoldable pub record_pipeline_event : Uuid → PipelineEventKind → Turn S P (Unit {0})
  unfolding draw
  record_pipeline_event session_id event = draw env >>= λ id machine. stored machine (
      (env.turn_store).persist_pipeline_event id session_id (as_str event) (as_str event)
        machine.store)

  unfoldable pub record_error : Uuid → String → Turn S P (Unit {0})
  unfolding draw
  record_error session_id description = draw env >>= λ id machine.
      stored machine ((env.turn_store).persist_error_event id session_id description machine.store)

  abbrev pub repair_request : String → LlmRequest
  repair_request raw_delta_text = record {
    messages = as_user (repair_prompt raw_delta_text) ∷ [];
    temperature = some 2;
    max_tokens = none;
    json_mode = true;
  }

  abbrev pub repair_failed : ParseError → String
  repair_failed (ParseError.malformed message) =
      String.◌++◌ "delta parse failed after repair attempt: malformed model output: " message

  -- The answer to the request for repair.
  unfoldable pub parse_repaired : Uuid → Parsed WorldStateDelta → Turn S P WorldStateDelta
  unfolding record_error
  parse_repaired session_id (parsed delta) = return delta
  parse_repaired session_id (failed repair_err) =
      record_error session_id (repair_failed repair_err)
      >> lift (err (TurnPipelineError.parse repair_err))
  parse_repaired session_id panicked = λ machine. (machine, err Stop.panic)

  unfoldable pub parse_or_repair : Uuid → String → Parsed WorldStateDelta → Turn S P WorldStateDelta
  unfolding ask parse_repaired
  parse_or_repair session_id raw_delta_text (parsed delta) = return delta
  parse_or_repair session_id raw_delta_text (failed parse_err) =
      ask env (repair_request raw_delta_text) >>= λ repaired.
      parse_repaired session_id (parse_delta_output env.delta_from_str repaired.text)
  parse_or_repair session_id raw_delta_text panicked = λ machine. (machine, err Stop.panic)

  unfoldable pub finalize_turn_delta :
      Uuid
      → PreparedTurn Json
      → String
      → String
      → String
      → ViewerContext
      → Turn S P (FinalizedTurn Json)
  unfolding parse_or_repair
  finalize_turn_delta session_id prepared visible_response raw_delta_text user_input viewer =
      parse_or_repair session_id raw_delta_text
        (parse_delta_output env.delta_from_str raw_delta_text)
      >>= λ delta.
          finalize_with_parsed_delta env session_id prepared visible_response delta user_input
            viewer

  unfoldable pub run_two_call_generation :
      Uuid → PreparedTurn Json → String → Turn S P (TwoCallOutput Json)
  unfolding record_pipeline_event ask unquote_json_string
  run_two_call_generation session_id prepared player_input =
      record_pipeline_event session_id PipelineEventKind.provider_called
      >> ask env (build_visible_response_prompt env.is_alphanumeric prepared.context player_input)
      >>= λ visible.
          let stripped = strip (unquote_json_string env.string_from_str visible.text) in
          record_pipeline_event session_id PipelineEventKind.provider_responded
          >> record_pipeline_event session_id PipelineEventKind.provider_called
          >> ask env (
              build_delta_extraction_prompt env.is_alphanumeric prepared.context player_input
                stripped)
          >>= λ response.
              record_pipeline_event session_id PipelineEventKind.provider_responded
              >> return (record {
                stripped_visible = stripped;
                raw_delta_text = response.text;
                visible_raw_provider_output =
                    raw_or (env.json_string visible.text) visible.raw_json;
              })

  abbrev pub with_raw_output : TwoCallOutput Json → FinalizedTurn Json → FinalizedTurn Json
  with_raw_output two_call turn = record turn {
    assistant_message = record (turn.assistant_message) {
      raw_provider_output = some two_call.visible_raw_provider_output;
    };
  }

  -- What comes between the context and the store.
  unfoldable pub work_out_prepared :
      TurnRequestInput → PreparedTurn Json → Turn S P (PreparedTurn Json × FinalizedTurn Json)
  unfolding record_pipeline_event run_two_call_generation finalize_turn_delta
  work_out_prepared request prepared =
      record_pipeline_event request.session_id PipelineEventKind.context_built
      >> run_two_call_generation request.session_id prepared request.input
      >>= λ two_call.
          finalize_turn_delta request.session_id prepared two_call.stripped_visible
            two_call.raw_delta_text request.input request.viewer
          >>= λ turn.
              record_pipeline_event request.session_id PipelineEventKind.delta_applied
              >> record_pipeline_event request.session_id PipelineEventKind.frontend_state_projected
              >> return (prepared, with_raw_output two_call turn)

  -- All of a turn that comes before it is stored.
  unfoldable pub work_out : TurnRequestInput → Turn S P (PreparedTurn Json × FinalizedTurn Json)
  unfolding record_pipeline_event work_out_prepared
  work_out request =
      record_pipeline_event request.session_id PipelineEventKind.turn_lock_acquired
      >> prepare_turn_context env request.session_id request.input request.mode
      >>= work_out_prepared request

  -- `persist_successful_turn`, which draws a UUID for each entry of the delta's event log.
  unfoldable pub persist : FinalizedTurn Json → Turn S P (Unit {0})
  persist turn machine =
      stored
        (record machine {
          drawn = machine.drawn + length ((turn.validated_delta).inner).event_log_entries;
        })
        ((env.turn_store).persist_successful_turn (λ i. env.new_v4 (machine.drawn + i))
          turn.user_message turn.assistant_message turn.validated_delta turn.updated_world_state
          machine.store)

  unfoldable pub finish_turn : Uuid → Turn S P (Unit {0})
  unfolding record_pipeline_event
  finish_turn session_id =
      record_pipeline_event session_id PipelineEventKind.turn_finished
      >> record_pipeline_event session_id PipelineEventKind.turn_lock_releasing

  abbrev pub response_of : PreparedTurn Json × FinalizedTurn Json → TurnResponse
  response_of (prepared, turn) = record {
    message_id = (turn.assistant_message).id;
    player_response = turn.visible_response;
    scene_type = prepared.scene_type;
    world_state_version = turn.world_state_version;
    changed_entities = (turn.frontend_state_patch).changed_entities;
    frontend_state_patch = turn.frontend_state_patch;
  }

  unfoldable pub locked_turn : TurnRequestInput → Turn S P (PreparedTurn Json × FinalizedTurn Json)
  unfolding work_out persist finish_turn
  locked_turn request = work_out request >>= λ worked.
      persist (worked.1) >> finish_turn request.session_id >> return worked

  unfoldable pub whole_turn : TurnRequestInput → Turn S P (PreparedTurn Json × FinalizedTurn Json)
  unfolding record_pipeline_event with_guard locked_turn
  whole_turn request =
      record_pipeline_event request.session_id PipelineEventKind.turn_started
      >> with_guard request.session_id (locked_turn request)

  unfoldable pub process_turn : TurnRequestInput → Turn S P TurnResponse
  unfolding whole_turn
  process_turn request = whole_turn request >>= λ worked. return (response_of worked)

  unfoldable pub process_turn_debug : TurnRequestInput → Turn S P (TurnResponse × WorldStateDelta)
  unfolding whole_turn
  process_turn_debug request = whole_turn request >>= λ worked.
      return (response_of worked, ((worked.1).validated_delta).inner)
