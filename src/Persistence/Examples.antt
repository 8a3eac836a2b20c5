-- ===== src/Persistence/Examples.antt =====
-- The in-memory store and turns on it, for the sample's game.
use advanced_roleplaying_fra.Base.{
  ◌+◌, ◌≡◌, ◌≢◌, ◌⊎◌, refl, String, true, false, some, none, List, [], ◌∷◌, All, nat_eq, Result, ok,
  err,
}
use advanced_roleplaying_fra.Base.Table.{get}
use advanced_roleplaying_fra.Domain.Session.{ProviderRecord, SessionRecord}
use advanced_roleplaying_fra.Engine.Sample.{harbor, harbor_world, ledger_found, lower}
use advanced_roleplaying_fra.Engine.Examples.Scenarios.{harbor-IsSound}
use advanced_roleplaying_fra.Engine.Projection.Hiding.{redact, player_context}
use advanced_roleplaying_fra.Engine.Pipeline.Types.{
  TurnRequestInput, TurnResponse, TurnPipelineError, LoadedTurnState,
}
use advanced_roleplaying_fra.Engine.Pipeline.Turn.{
  Environment, Machine, Stop, draw, ask, ◌>>=◌, with_guard,
}
use advanced_roleplaying_fra.Engine.Lock.{acquire}
use advanced_roleplaying_fra.Engine.Pipeline.Prepare.{
  load, prepare_loaded, prepare_turn_context, finalize_with_parsed_delta,
}
use advanced_roleplaying_fra.Engine.Pipeline.Laws.{KeepsTurns, HandsOn, SameLoads}
use advanced_roleplaying_fra.Engine.Pipeline.Run.{
  process_turn, whole_turn, record_pipeline_event, locked_turn, work_out, work_out_prepared,
  run_two_call_generation, finalize_turn_delta, parse_or_repair, persist, finish_turn,
}
use advanced_roleplaying_fra.Engine.Prompt.Parser.{parse_output}
use advanced_roleplaying_fra.Domain.State.{SceneReasoningStyle}
use advanced_roleplaying_fra.Base.Int.{pos}
use advanced_roleplaying_fra.Engine.Pipeline.Unchanged.{process_turn-unchanged}
use advanced_roleplaying_fra.Engine.Pipeline.Outcome.{Refines, process_turn-Refines}
use advanced_roleplaying_fra.Providers.Request.{ProviderError, LlmRequest, LlmResponse}
use advanced_roleplaying_fra.Persistence.Initial.{initial_world_state}
use advanced_roleplaying_fra.Persistence.Intro.{build_opening_intro, build_opening_intro-redact}
use advanced_roleplaying_fra.Persistence.Start.{IsGoodStart, initial_world_state-IsGoodStart}
use advanced_roleplaying_fra.Persistence.Store.{
  InMemoryApplicationStore, new, insert_session, delete_provider,
}
use advanced_roleplaying_fra.Persistence.Store.Turns.{
  load_turn_state, in_memory_turns, persist_pipeline_event, append_event, persist_successful_turn,
}
use advanced_roleplaying_fra.Persistence.Store.Laws.{in_memory_turns-KeepsTurns}
use advanced_roleplaying_fra.Persistence.Store.Handover.{in_memory_turns-HandsOn}
use advanced_roleplaying_fra.Persistence.Store.Sessions.{
  provider_of, insert_session-load_turn_state, delete_provider-frees,
}
use advanced_roleplaying_fra.Base.Int.{◌+ℤ◌, add_i16, add_i32}
use advanced_roleplaying_fra.Base.Text.{contains, is_blank}
use advanced_roleplaying_fra.Domain.Validation.{validate_npc_status_transition, display}
use advanced_roleplaying_fra.Engine.Validation.Checks.{
  require_known, require_reason, require_non_empty, is_known_relationship_endpoint,
  current_relationship_metric,
}
use advanced_roleplaying_fra.Engine.Validation.Npcs.{
  check_npc_change, check_npc_content, check_npc_status, current_status, check_faction_change,
}
use advanced_roleplaying_fra.Engine.Validation.Counters.{
  check_quest_change, check_clock_change, check_relationship_change, check_relationship_metric,
  check_metric, check_inventory_change,
}
use advanced_roleplaying_fra.Engine.Validation.Records.{
  check_scene_change, check_active_speaker_change, check_summary_update, check_clue_change,
  check_location_change,
}
use advanced_roleplaying_fra.Engine.Validation.Secrets.{
  leaks, proves, check_condition_of, check_clue_condition, validate_clue_links, check_leaked,
  check_reveal, find_leaked_gm_only_facts, leaks_gm_only_fact, validate_secret_reveal_proof,
  proof_visible_in_world, proof_visible_in_delta, change_proves, check_player_known,
  check_fact_to_add,
}
use advanced_roleplaying_fra.Engine.Validation.Validate.{validate}

initial_world_state-IsGoodStart_example : IsGoodStart (initial_world_state 3 harbor)
initial_world_state-IsGoodStart_example = initial_world_state-IsGoodStart 3 harbor harbor-IsSound

build_opening_intro-redact_example :
    build_opening_intro harbor (redact harbor harbor_world)
    ≡ build_opening_intro harbor harbor_world
build_opening_intro-redact_example = build_opening_intro-redact harbor harbor_world

abbrev harbor_session : SessionRecord
harbor_session = record {
  id = 3;
  scenario_id = 7;
  title = "First night";
  status = "active";
  provider_id = some 11;
}

-- Strings stand for JSON values.
abbrev harbor_store : InMemoryApplicationStore String
harbor_store = record (new false) {
  scenarios = (7, harbor) ∷ [];
  sessions = (3, harbor_session) ∷ [];
  world_states = (3, harbor_world) ∷ [];
}

in_memory_turns-HandsOn_example :
    KeepsTurns (in_memory_turns {Json = String}) × HandsOn (in_memory_turns {Json = String})
in_memory_turns-HandsOn_example = in_memory_turns-HandsOn {Json = String}

insert_session-load_turn_state_example :
    load_turn_state ((insert_session 4 5 7 "Second night" harbor_store).0) 4
    ≡ ok (record {
      scenario = harbor;
      world_state = initial_world_state 4 harbor;
      recent_messages = [];
    })
unfolding get
insert_session-load_turn_state_example =
    insert_session-load_turn_state 4 5 7 "Second night" harbor_store harbor refl refl

delete_provider-frees_example :
    (provider_of (get 3 (delete_provider 11 harbor_store).sessions) ≢ some 11)
    × ((provider_of (get 3 harbor_store.sessions) ≡ some 11)
        ⊎ (get 3 (delete_provider 11 harbor_store).sessions ≡ get 3 harbor_store.sessions))
    × All
        (λ (p : ProviderRecord String). nat_eq p.id 11 ≡ false)
        (delete_provider 11 harbor_store).providers
delete_provider-frees_example = delete_provider-frees 11 3 harbor_store

-- A provider that gives the answers of a list, and then times out.
abbrev next_answer :
    LlmRequest → List String → List String × Result (LlmResponse String) ProviderError
next_answer request [] = ([], err ProviderError.timeout)
next_answer request (text ∷ rest) = (
  rest,
  ok (record { text = text; raw_json = none; usage = none; cost_usd = none; generation_id = none }),
)

abbrev harbor_env : Environment String (InMemoryApplicationStore String) (List String)
harbor_env = record {
  turn_store = in_memory_turns;
  generate = next_answer;
  delta_from_str = λ text. ok ledger_found;
  string_from_str = λ text. none;
  json_string = λ text. text;
  to_lowercase = lower;
  is_alphanumeric = λ c. true;
  new_v4 = λ n. n + 100;
}

abbrev harbor_machine : List String → Machine (InMemoryApplicationStore String) (List String)
harbor_machine answers = record {
  store = harbor_store;
  provider = answers;
  turn_lock = record { locked_sessions = []; is_poisoned = false };
  drawn = 0;
}

abbrev look : TurnRequestInput
look = record { session_id = 3; input = "I look."; mode = none; viewer = player_context }

process_turn-unchanged_example :
    SameLoads in_memory_turns
      ((process_turn harbor_env look (harbor_machine [])).0)
      (harbor_machine [])
unfolding process_turn whole_turn record_pipeline_event draw ◌>>=◌ with_guard acquire locked_turn
    work_out prepare_turn_context load load_turn_state get work_out_prepared run_two_call_generation
    ask persist_pipeline_event append_event
process_turn-unchanged_example =
    process_turn-unchanged harbor_env in_memory_turns-KeepsTurns look (harbor_machine [])
      (Stop.error (TurnPipelineError.provider ProviderError.timeout)) refl

abbrev harbor_loaded : LoadedTurnState String
harbor_loaded = record { scenario = harbor; world_state = harbor_world; recent_messages = [] }

-- The provider narrates, and then gives the delta.
abbrev played : Machine (InMemoryApplicationStore String) (List String) × Result TurnResponse Stop
played = process_turn harbor_env look (harbor_machine ("You find a ledger." ∷ "{}" ∷ []))

abbrev empty_response : TurnResponse
empty_response = record {
  message_id = 0;
  player_response = "";
  scene_type = SceneReasoningStyle.downtime;
  world_state_version = pos 0;
  changed_entities = [];
  frontend_state_patch = record {
    state_version = pos 0;
    changed_entities = [];
    visible_state = none;
  };
}

abbrev response_or : TurnResponse → Result TurnResponse Stop → TurnResponse
response_or other (ok response) = response
response_or other (err stop) = other

process_turn-Refines_example :
    Refines harbor_env in_memory_turns-KeepsTurns look harbor_loaded
      (played.0)
      (response_or empty_response (played.1))
unfolding process_turn whole_turn record_pipeline_event draw ◌>>=◌ with_guard acquire locked_turn
    work_out prepare_turn_context load load_turn_state get work_out_prepared run_two_call_generation
    ask persist_pipeline_event append_event finalize_turn_delta parse_or_repair parse_output
    finalize_with_parsed_delta persist persist_successful_turn finish_turn prepare_loaded validate
    check_scene_change check_active_speaker_change require_reason is_blank require_known
    check_summary_update check_fact_to_add contains check_npc_change validate_npc_status_transition
    check_faction_change add_i32 ◌+ℤ◌ check_quest_change check_clock_change add_i16
    check_relationship_change display current_relationship_metric is_known_relationship_endpoint
    require_non_empty check_metric check_relationship_metric check_npc_content check_npc_status
    current_status check_clue_change check_location_change change_proves check_clue_condition
    check_condition_of check_leaked check_player_known check_reveal find_leaked_gm_only_facts leaks
    leaks_gm_only_fact proof_visible_in_delta proof_visible_in_world proves validate_clue_links
    validate_secret_reveal_proof check_inventory_change
process_turn-Refines_example =
    process_turn-Refines harbor_env in_memory_turns-KeepsTurns look
      (harbor_machine ("You find a ledger." ∷ "{}" ∷ [])) harbor_loaded
      (response_or empty_response (played.1)) refl refl refl
