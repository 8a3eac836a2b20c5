-- ===== src/Persistence/Store.antt =====
-- crates/persistence/src/store.rs: `InMemoryApplicationStore`. An operation that draws UUIDs takes
-- them. The mutex is held throughout each operation; `values()` comes in the order of the table.
use Prim.Native.String.{String}
use advanced_roleplaying_fra.Base.{
  ℕ, Bool, true, false, not, Option, none, some, List, [], ◌∷◌, ◌++◌, map, keep, take, nat_eq,
  is_some, if◌then◌else◌, Result, ok, err, length,
}
use advanced_roleplaying_fra.Base.Int.{ℤ}
use advanced_roleplaying_fra.Base.Table.{
  Table, get, insert, remove, values, map_values, or_empty, extend_at,
}
use advanced_roleplaying_fra.Domain.Ids.{Uuid}
use advanced_roleplaying_fra.Domain.Scenario.{Scenario}
use advanced_roleplaying_fra.Domain.State.{WorldState}
use advanced_roleplaying_fra.Domain.Session.{
  MessageRecord, MessageRole, SessionRecord, EventRecord, TimelineEntry, ProviderRecord,
}
use advanced_roleplaying_fra.Engine.Validated.{ValidatedWorldStateDelta}
use advanced_roleplaying_fra.Engine.Context.Build.{rev}
use advanced_roleplaying_fra.Engine.Pipeline.Types.{
  TurnPipelineError, LoadedTurnState, TurnStateStore,
}
use advanced_roleplaying_fra.Persistence.Initial.{initial_world_state}
use advanced_roleplaying_fra.Persistence.Intro.{opening_intro_message}
pub mod Turns
pub mod Laws
pub mod Handover
pub mod Sessions

pub record InMemoryApplicationStore (Json : Type 0) : Type 0 where
  pub scenarios : Table Scenario
  pub sessions : Table SessionRecord
  pub world_states : Table WorldState
  pub messages : Table (List (MessageRecord Json))
  pub events : Table (List EventRecord)
  pub timeline_entries : Table (List TimelineEntry)
  pub providers : List (ProviderRecord Json)
  pub store_raw_provider_output : Bool

abbrev pub is_not_system : MessageRole → Bool
is_not_system MessageRole.system = false
is_not_system _ = true

abbrev pub message_entry : String → String → Uuid → Option ℤ → TimelineEntry
message_entry kind description message_id version = record {
  kind = kind;
  description = description;
  message_id = some message_id;
  event_id = none;
  world_state_version = version;
}

abbrev pub event_entry : EventRecord → Option ℤ → TimelineEntry
event_entry event version = record {
  kind = event.event_type;
  description = event.description;
  message_id = none;
  event_id = some event.id;
  world_state_version = version;
}

abbrev pub has_provider : Uuid → Option Uuid → Bool
has_provider id none = false
has_provider id (some provider_id) = nat_eq provider_id id

abbrev pub without_provider : Uuid → SessionRecord → SessionRecord
without_provider id session =
    if has_provider id session.provider_id then record session { provider_id = none } else session

abbrev pub set_provider : Option Uuid → SessionRecord → SessionRecord
set_provider provider_id session = record session { provider_id = provider_id }

abbrev pub new_session : Uuid → Uuid → String → SessionRecord
new_session id scenario_id title = record {
  id = id;
  scenario_id = scenario_id;
  title = title;
  status = "active";
  provider_id = none;
}

module _ {Json : Type 0} where
  abbrev pub new : Bool → InMemoryApplicationStore Json
  new store_raw_provider_output = record {
    scenarios = [];
    sessions = [];
    world_states = [];
    messages = [];
    events = [];
    timeline_entries = [];
    providers = [];
    store_raw_provider_output = store_raw_provider_output;
  }

  unfoldable pub insert_scenario :
      Scenario → InMemoryApplicationStore Json → InMemoryApplicationStore Json × Scenario
  insert_scenario scenario store =
      (record store { scenarios = insert scenario.id scenario store.scenarios }, scenario)

  unfoldable pub replace_scenario :
      Scenario → InMemoryApplicationStore Json → InMemoryApplicationStore Json × Option Scenario
  replace_scenario scenario store =
      if is_some (get scenario.id store.scenarios)
      then (record store { scenarios = insert scenario.id scenario store.scenarios }, some scenario)
      else (store, none)

  unfoldable pub remove_scenario :
      Uuid → InMemoryApplicationStore Json → InMemoryApplicationStore Json × Bool
  remove_scenario id store =
      (record store { scenarios = remove id store.scenarios }, is_some (get id store.scenarios))

  abbrev pub open_session :
      Uuid
      → Uuid
      → Uuid
      → String
      → InMemoryApplicationStore Json
      → Option Scenario
      → InMemoryApplicationStore Json × Option SessionRecord
  open_session id message_id scenario_id title store none = (store, none)
  open_session id message_id scenario_id title store (some scenario) =
      let session = new_session id scenario_id title in
      let world_state = initial_world_state id scenario in
      let intro = opening_intro_message message_id id scenario world_state in
      (
        record store {
          sessions = insert id session store.sessions;
          world_states = insert id world_state store.world_states;
          messages = extend_at id (intro ∷ []) store.messages;
          timeline_entries =
              extend_at id (message_entry "system_message" intro.content intro.id none ∷ [])
                store.timeline_entries;
        },
        some session,
      )

  unfoldable pub insert_session :
      Uuid
      → Uuid
      → Uuid
      → String
      → InMemoryApplicationStore Json
      → InMemoryApplicationStore Json × Option SessionRecord
  insert_session id message_id scenario_id title store =
      open_session id message_id scenario_id title store (get scenario_id store.scenarios)

  unfoldable pub remove_session :
      Uuid → InMemoryApplicationStore Json → InMemoryApplicationStore Json × Bool
  remove_session id store = (
    record store {
      sessions = remove id store.sessions;
      world_states = remove id store.world_states;
      messages = remove id store.messages;
      events = remove id store.events;
      timeline_entries = remove id store.timeline_entries;
    },
    is_some (get id store.sessions),
  )

  abbrev pub put_provider :
      Uuid
      → Option Uuid
      → InMemoryApplicationStore Json
      → Option SessionRecord
      → InMemoryApplicationStore Json × Option SessionRecord
  put_provider session_id provider_id store none = (store, none)
  put_provider session_id provider_id store (some session) = (
    record store { sessions = insert session_id (set_provider provider_id session) store.sessions },
    some (set_provider provider_id session),
  )

  unfoldable pub update_session_provider :
      Uuid
      → Option Uuid
      → InMemoryApplicationStore Json
      → InMemoryApplicationStore Json × Option SessionRecord
  update_session_provider session_id provider_id store =
      put_provider session_id provider_id store (get session_id store.sessions)

  unfoldable pub delete_provider :
      Uuid → InMemoryApplicationStore Json → InMemoryApplicationStore Json
  delete_provider id store = record store {
    providers = keep (λ (p : ProviderRecord Json). not (nat_eq p.id id)) store.providers;
    sessions = map_values (without_provider id) store.sessions;
  }

  unfoldable pub create_provider :
      ProviderRecord Json → InMemoryApplicationStore Json → InMemoryApplicationStore Json
  create_provider provider store = record store { providers = store.providers ++ provider ∷ [] }

  -- `None` where the session does not exist.
  abbrev pub for_session :
      {A : Type 0} → Uuid → Table (List A) → InMemoryApplicationStore Json → Option (List A)
  for_session session_id table store =
      if is_some (get session_id store.sessions)
      then some (or_empty (get session_id table))
      else none

  unfoldable pub snapshot_timeline :
      Uuid → InMemoryApplicationStore Json → Option (List TimelineEntry)
  snapshot_timeline session_id store = for_session session_id store.timeline_entries store

  unfoldable pub snapshot_messages :
      Uuid → InMemoryApplicationStore Json → Option (List (MessageRecord Json))
  snapshot_messages session_id store = for_session session_id store.messages store

  abbrev pub snapshot_world_state : Uuid → InMemoryApplicationStore Json → Option WorldState
  snapshot_world_state session_id store = get session_id store.world_states

  abbrev pub snapshot_events : Uuid → InMemoryApplicationStore Json → List EventRecord
  snapshot_events session_id store = or_empty (get session_id store.events)
