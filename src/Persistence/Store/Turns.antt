-- ===== src/Persistence/Store/Turns.antt =====
-- crates/persistence/src/store.rs: what `InMemoryApplicationStore` does for a turn.
use Prim.Native.String.{String}
use advanced_roleplaying_fra.Base.{◌>>=◌}
use advanced_roleplaying_fra.Base.{
  ℕ, suc, Bool, Option, none, some, List, [], ◌∷◌, keep, take, if◌then◌else◌, Result, ok, err,
}
use advanced_roleplaying_fra.Base.Int.{ℤ}
use advanced_roleplaying_fra.Base.Table.{get, insert, or_empty, extend_at}
use advanced_roleplaying_fra.Domain.Ids.{Uuid}
use advanced_roleplaying_fra.Domain.State.{WorldState}
use advanced_roleplaying_fra.Domain.Session.{MessageRecord, EventRecord}
use advanced_roleplaying_fra.Engine.Validated.{ValidatedWorldStateDelta}
use advanced_roleplaying_fra.Engine.Context.Build.{rev}
use advanced_roleplaying_fra.Engine.Pipeline.Types.{
  TurnPipelineError, LoadedTurnState, TurnStateStore,
}
use advanced_roleplaying_fra.Persistence.Store.{
  InMemoryApplicationStore, is_not_system, message_entry, event_entry,
}

abbrev pub found : {A : Type 0} → Option A → Result A TurnPipelineError
found none = err TurnPipelineError.not_found
found (some value) = ok value

abbrev pub session_event : Uuid → Uuid → String → String → EventRecord
session_event id session_id event_type description = record {
  id = id;
  session_id = session_id;
  event_type = event_type;
  description = description;
}

module _ {Json : Type 0} where
  abbrev pub recent : List (MessageRecord Json) → List (MessageRecord Json)
  recent messages =
      rev (
        take 6 (keep (λ (message : MessageRecord Json). is_not_system message.role) (rev messages)))

  unfoldable pub load_turn_state :
      InMemoryApplicationStore Json → Uuid → Result (LoadedTurnState Json) TurnPipelineError
  load_turn_state store session_id = do
    session ← found (get session_id store.sessions)
    scenario ← found (get session.scenario_id store.scenarios)
    world_state ← found (get session_id store.world_states)
    ok (record {
      scenario = scenario;
      world_state = world_state;
      recent_messages = recent (or_empty (get session_id store.messages));
    })

  -- An event, in the log and in the timeline.
  unfoldable pub append_event :
      EventRecord → Option ℤ → InMemoryApplicationStore Json → InMemoryApplicationStore Json
  append_event event version store = record store {
    events = extend_at event.session_id (event ∷ []) store.events;
    timeline_entries =
        extend_at event.session_id (event_entry event version ∷ []) store.timeline_entries;
  }

  -- The entries of the delta's event log, each with a UUID of its own.
  unfoldable pub append_world_events :
      (ℕ → Uuid)
      → ℕ
      → Uuid
      → ℤ
      → List String
      → InMemoryApplicationStore Json
      → InMemoryApplicationStore Json
  unfolding append_event
  append_world_events ids i session_id version [] store = store
  append_world_events ids i session_id version (description ∷ rest) store =
      append_world_events ids (suc i) session_id version rest (
        append_event (session_event (ids i) session_id "world_event" description) (some version)
          store)

  abbrev pub kept_raw : Bool → MessageRecord Json → MessageRecord Json
  kept_raw store_raw message =
      if store_raw then message else record message { raw_provider_output = none }

  unfoldable pub persist_successful_turn :
      (ℕ → Uuid)
      → MessageRecord Json
      → MessageRecord Json
      → ValidatedWorldStateDelta
      → WorldState
      → InMemoryApplicationStore Json
      → InMemoryApplicationStore Json × Result (Unit {0}) TurnPipelineError
  unfolding append_world_events
  persist_successful_turn ids user_message assistant_message delta updated_state store =
      let session_id = updated_state.session_id in
      let kept = kept_raw store.store_raw_provider_output assistant_message in
      (
        append_world_events ids 0 session_id updated_state.version (delta.inner).event_log_entries
            (record store {
              messages = extend_at session_id (user_message ∷ kept ∷ []) store.messages;
              timeline_entries =
                  extend_at session_id
                    (message_entry "user_message" user_message.content user_message.id none
                      ∷ message_entry "assistant_message" kept.content kept.id
                          (some updated_state.version)
                      ∷ [])
                    store.timeline_entries;
              world_states = insert session_id updated_state store.world_states;
            }),
        ok tt,
      )

  unfoldable pub persist_error_event :
      Uuid
      → Uuid
      → String
      → InMemoryApplicationStore Json
      → InMemoryApplicationStore Json × Result (Unit {0}) TurnPipelineError
  unfolding append_event
  persist_error_event id session_id description store =
      (append_event (session_event id session_id "turn_error" description) none store, ok tt)

  unfoldable pub persist_pipeline_event :
      Uuid
      → Uuid
      → String
      → String
      → InMemoryApplicationStore Json
      → InMemoryApplicationStore Json × Result (Unit {0}) TurnPipelineError
  unfolding append_event
  persist_pipeline_event id session_id event_type description store =
      (append_event (session_event id session_id event_type description) none store, ok tt)

  abbrev pub in_memory_turns : TurnStateStore Json (InMemoryApplicationStore Json)
  in_memory_turns = record {
    load_turn_state = load_turn_state;
    persist_successful_turn = persist_successful_turn;
    persist_error_event = persist_error_event;
    persist_pipeline_event = persist_pipeline_event;
  }
