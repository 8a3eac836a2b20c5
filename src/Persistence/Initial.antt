-- ===== src/Persistence/Initial.antt =====
-- crates/persistence/src/store.rs: `initial_world_state`, the world state that a session starts with.
use advanced_roleplaying_fra.Base.{
  Bool, true, false, ◌&&◌, not, Option, none, some, List, [], ◌∷◌, map, is_some, if◌then◌else◌,
}
use advanced_roleplaying_fra.Base.Int.{pos}
use advanced_roleplaying_fra.Domain.Ids.{EntityKey, Uuid}
use advanced_roleplaying_fra.Domain.Scenario.{
  Scenario, Location, Npc, NpcStatus, Faction, Quest, Secret, ClockTemplate,
}
use advanced_roleplaying_fra.Domain.State.{
  WorldState, Fact, FactVisibility, FactSource, NpcState, NpcAvailability, FactionState, QuestState,
  QuestStatus, ClockState, PlayerCharacterState,
}
use advanced_roleplaying_fra.Engine.Context.Build.{same_option}

-- `locations.first().map(|location| location.id)`.
abbrev pub first_location : List Location → Option EntityKey
first_location [] = none
first_location (location ∷ rest) = some location.id

abbrev pub first_npc : List Npc → Option EntityKey
first_npc [] = none
first_npc (npc ∷ rest) = some npc.id

abbrev pub or_first : Option EntityKey → Option EntityKey → Option EntityKey
or_first none other = other
or_first (some id) other = some id

abbrev pub is_down : NpcStatus → Bool
is_down NpcStatus.dead = true
is_down NpcStatus.unconscious = true
is_down _ = false

unfoldable pub derive_npc_availability :
    NpcStatus → Bool → Option EntityKey → Option EntityKey → NpcAvailability
derive_npc_availability status visible_to_player location_id starting_location_id =
    if is_down status
    then NpcAvailability.unavailable
    else if not visible_to_player
    then NpcAvailability.offscreen
    else if is_some location_id && same_option location_id starting_location_id
    then NpcAvailability.present
    else if is_some location_id
    then NpcAvailability.offscreen
    else NpcAvailability.nearby

abbrev pub initial_fact : Secret → Fact
initial_fact secret = record {
  id = secret.id;
  text = secret.text;
  visibility = FactVisibility.gm_only;
  known_by = [];
  source = FactSource.scenario;
  reveal_conditions = secret.reveal_conditions;
  related_secret_ids = [];
  reveal_condition_satisfied = none;
}

unfoldable pub initial_npc : Option EntityKey → Npc → NpcState
unfolding derive_npc_availability
initial_npc start npc = record {
  npc_id = npc.id;
  status = npc.initial_status;
  visible_to_player = npc.initial_visible_to_player;
  location_id = or_first npc.initial_location_id start;
  attitude_to_player = none;
  known_facts = [];
  notes = [];
  availability =
      derive_npc_availability npc.initial_status npc.initial_visible_to_player
        npc.initial_location_id start;
  current_intent = none;
  offscreen_actions = [];
}

abbrev pub initial_faction : Faction → FactionState
initial_faction faction = record {
  faction_id = faction.id;
  standing = faction.initial_standing;
  public_notes = [];
  hidden_notes = [];
  revealed_goals = [];
  pressure = pos 0;
  public_pressure_notes = [];
  hidden_pressure_notes = [];
}

abbrev pub initial_quest : Quest → QuestState
initial_quest quest = record {
  quest_id = quest.id;
  status = if quest.visible then QuestStatus.available else QuestStatus.hidden;
  completed_objectives = [];
  visible = quest.visible;
}

abbrev pub initial_clock : ClockTemplate → ClockState
initial_clock clock = record {
  id = clock.id;
  title = clock.title;
  current = clock.current;
  max = clock.max;
  consequence = clock.consequence;
  visible_to_player = true;
}

-- `PlayerCharacterState::default()`.
abbrev pub default_player : PlayerCharacterState
default_player = record { traits = []; goals = []; conditions = []; resources = []; gm_notes = [] }

unfoldable pub initial_world_state : Uuid → Scenario → WorldState
unfolding initial_npc
initial_world_state session_id scenario = record {
  session_id = session_id;
  scenario_id = scenario.id;
  version = pos 0;
  current_location_id = first_location scenario.locations;
  current_scene = none;
  active_speaker_id = first_npc scenario.npcs;
  facts = map initial_fact scenario.secrets;
  npcs = map (initial_npc (first_location scenario.locations)) scenario.npcs;
  factions = map initial_faction scenario.factions;
  quests = map initial_quest scenario.quests;
  clocks = map initial_clock scenario.clocks;
  action_resolutions = [];
  relationships = [];
  inventory = [];
  player = default_player;
  clues = [];
  memories = [];
  summary = none;
  recent_events = [];
}
