-- ===== src/Engine/Projection/View.antt =====
-- crates/engine/src/projection.rs: `BasicFrontendStateProjector::project`.
use mathlib.Core.Option
use advanced_roleplaying_fra.Base.{
  Bool, true, false, not, ◌&&◌, ◌||◌, Option, none, some, List, map, ◌==◌, any, find, keep,
  filter_map,
}
use advanced_roleplaying_fra.Domain.Ids.{EntityKey}
use advanced_roleplaying_fra.Domain.Scenario.{Scenario, Location, Npc, Faction}
use advanced_roleplaying_fra.Domain.State.{
  WorldState, NpcState, FactionState, QuestState, QuestStatus, ClockState, Fact, RelationshipState,
  ActionResolution, ClueState, PlayerCharacterState, PlayerTrait, PlayerGoal, PlayerCondition,
  PlayerResource, MemoryEntry, MemoryVisibility,
}
use advanced_roleplaying_fra.Domain.Visible.{
  ViewerContext, VisibleLocation, VisibleNpc, VisibleFaction, VisibleRelationship, VisibleQuest,
  VisibleClock, VisibleFact, VisibleActionResolution, VisibleClue, VisiblePlayerCharacterState,
  VisibleMemory, FrontendVisibleState,
}
use advanced_roleplaying_fra.Engine.Validation.Secrets.{is_player_known}

abbrev pub is_hidden : QuestStatus → Bool
is_hidden QuestStatus.hidden = true
is_hidden _ = false

abbrev pub is_player_memory : MemoryVisibility → Bool
is_player_memory MemoryVisibility.player_known = true
is_player_memory _ = false

abbrev pub view_location : Location → VisibleLocation
view_location location = record {
  id = location.id;
  name = location.name;
  description = location.description;
}

unfoldable pub current_location_view :
    Scenario → ViewerContext → Option EntityKey → Option VisibleLocation
current_location_view scenario viewer none = none
current_location_view scenario viewer (some id) = Option.map view_location (
    find (λ (location : Location). location.id == id && (location.visible || viewer.is_admin))
      scenario.locations)

abbrev pub view_npc : NpcState → Npc → VisibleNpc
view_npc npc_state npc = record {
  id = npc.id;
  name = npc.name;
  description = npc.description;
  status = npc_state.status;
  attitude_to_player = npc_state.attitude_to_player;
  availability = npc_state.availability;
}

abbrev pub npc_view : Scenario → NpcState → Option VisibleNpc
npc_view scenario npc_state =
    Option.map (view_npc npc_state) (find (λ (npc : Npc). npc.id == npc_state.npc_id) scenario.npcs)

unfoldable pub npc_views : Scenario → ViewerContext → List NpcState → List VisibleNpc
npc_views scenario viewer npcs =
    filter_map (npc_view scenario)
      (keep (λ (npc : NpcState). viewer.is_admin || npc.visible_to_player) npcs)

abbrev pub view_faction : FactionState → Faction → VisibleFaction
view_faction faction_state faction = record {
  id = faction.id;
  name = faction.name;
  standing = faction_state.standing;
  pressure = faction_state.pressure;
  public_notes = faction_state.public_notes;
  public_pressure_notes = faction_state.public_pressure_notes;
  revealed_goals = faction_state.revealed_goals;
}

abbrev pub faction_view : Scenario → FactionState → Option VisibleFaction
faction_view scenario faction_state =
    Option.map (view_faction faction_state)
      (find (λ (faction : Faction). faction.id == faction_state.faction_id) scenario.factions)

unfoldable pub faction_views : Scenario → List FactionState → List VisibleFaction
faction_views scenario factions = filter_map (faction_view scenario) factions

unfoldable pub speaker_view : List VisibleNpc → Option EntityKey → Option VisibleNpc
speaker_view visible_npcs none = none
speaker_view visible_npcs (some id) = find (λ (npc : VisibleNpc). npc.id == id) visible_npcs

abbrev pub view_quest : QuestState → VisibleQuest
view_quest quest = record { id = quest.quest_id; status = quest.status }

unfoldable pub quest_views : ViewerContext → List QuestState → List VisibleQuest
quest_views viewer quests = map view_quest (
    keep
      (λ (quest : QuestState). viewer.is_admin || (quest.visible && not (is_hidden quest.status)))
      quests)

abbrev pub view_clock : ClockState → VisibleClock
view_clock clock = record {
  id = clock.id;
  title = clock.title;
  current = clock.current;
  max = clock.max;
  consequence = clock.consequence;
}

unfoldable pub clock_views : ViewerContext → List ClockState → List VisibleClock
clock_views viewer clocks =
    map view_clock
      (keep (λ (clock : ClockState). viewer.is_admin || clock.visible_to_player) clocks)

unfoldable pub fact_views : ViewerContext → List Fact → List VisibleFact
fact_views viewer facts =
    map (λ (fact : Fact). record { id = fact.id; text = fact.text })
      (keep (λ (fact : Fact). is_player_known fact.visibility || viewer.is_admin) facts)

abbrev pub sees_relationship : ViewerContext → List VisibleNpc → RelationshipState → Bool
sees_relationship viewer visible_npcs relationship =
    viewer.is_admin
    || (relationship.source_id == "player"
        || (relationship.target_id == "player"
            || any
                (λ (npc : VisibleNpc).
                  npc.id == relationship.source_id || npc.id == relationship.target_id)
                visible_npcs))

abbrev pub view_relationship : RelationshipState → VisibleRelationship
view_relationship relationship = record {
  source_id = relationship.source_id;
  target_id = relationship.target_id;
  attitude = relationship.attitude;
  trust = relationship.trust;
  suspicion = relationship.suspicion;
  loyalty = relationship.loyalty;
  notes = relationship.notes;
}

unfoldable pub relationship_views :
    ViewerContext → List VisibleNpc → List RelationshipState → List VisibleRelationship
relationship_views viewer visible_npcs relationships =
    map view_relationship (keep (sees_relationship viewer visible_npcs) relationships)

abbrev pub view_action : ActionResolution → VisibleActionResolution
view_action resolution = record {
  id = resolution.id;
  intent = resolution.intent;
  stakes = resolution.stakes;
  outcome = resolution.outcome;
  consequence = resolution.consequence;
  linked_clock_ids = resolution.linked_clock_ids;
}

unfoldable pub action_views : ViewerContext → List ActionResolution → List VisibleActionResolution
action_views viewer resolutions =
    map view_action
      (keep (λ (r : ActionResolution). viewer.is_admin || r.visible_to_player) resolutions)

abbrev pub view_clue : ClueState → VisibleClue
view_clue clue = record {
  id = clue.id;
  text = clue.text;
  satisfied_reveal_conditions = clue.satisfied_reveal_conditions;
}

unfoldable pub clue_views : ViewerContext → List ClueState → List VisibleClue
clue_views viewer clues =
    map view_clue (keep (λ (clue : ClueState). viewer.is_admin || clue.visible_to_player) clues)

unfoldable pub player_view : ViewerContext → PlayerCharacterState → VisiblePlayerCharacterState
player_view viewer player = record {
  traits = keep (λ (item : PlayerTrait). viewer.is_admin || item.visible_to_player) player.traits;
  goals = keep (λ (item : PlayerGoal). viewer.is_admin || item.visible_to_player) player.goals;
  conditions =
      keep (λ (item : PlayerCondition). viewer.is_admin || item.visible_to_player)
        player.conditions;
  resources =
      keep (λ (item : PlayerResource). viewer.is_admin || item.visible_to_player) player.resources;
}

abbrev pub view_memory : MemoryEntry → VisibleMemory
view_memory memory = record {
  id = memory.id;
  text = memory.text;
  importance = memory.importance;
  related_entity_ids = memory.related_entity_ids;
}

unfoldable pub memory_views : ViewerContext → List MemoryEntry → List VisibleMemory
memory_views viewer memories = map view_memory (
    keep (λ (memory : MemoryEntry). viewer.is_admin || is_player_memory memory.visibility) memories)

unfoldable pub project : Scenario → WorldState → ViewerContext → FrontendVisibleState
project scenario state viewer =
    let visible_npcs = npc_views scenario viewer state.npcs in
    record {
      state_version = state.version;
      current_location = current_location_view scenario viewer state.current_location_id;
      active_speaker = speaker_view visible_npcs state.active_speaker_id;
      visible_npcs = visible_npcs;
      visible_factions = faction_views scenario state.factions;
      visible_relationships = relationship_views viewer visible_npcs state.relationships;
      visible_quests = quest_views viewer state.quests;
      visible_clocks = clock_views viewer state.clocks;
      player_known_facts = fact_views viewer state.facts;
      visible_action_resolutions = action_views viewer state.action_resolutions;
      visible_clues = clue_views viewer state.clues;
      player = player_view viewer state.player;
      visible_memories = memory_views viewer state.memories;
      recent_public_events = state.recent_events;
    }
