-- ===== src/Engine/Reducer/Parts.antt =====
-- The reducer's loops one by one: each rewrites its own part of the world state, whatever the
-- other parts hold, so the parts of the next state can be written down separately.
use advanced_roleplaying_fra.Base.{
  String, Option, none, some, List, [], ◌∷◌, ◌++◌, ◌≡◌, refl, foldl,
}
use advanced_roleplaying_fra.Base.Int.{ℤ, pos, add_i64}
use advanced_roleplaying_fra.Domain.Ids.{EntityKey}
use advanced_roleplaying_fra.Domain.State.{WorldState, Fact, NpcState}
use advanced_roleplaying_fra.Domain.Delta.{
  SceneChange, ActiveSpeakerChange, SummaryUpdate, MemoryChange, FactToAdd, ActionResolutionChange,
  NpcChange, FactionChange, QuestChange, ClockChange, InventoryChange, PlayerChange,
  RelationshipChange, ClueChange, LocationChange, WorldStateDelta,
}
use advanced_roleplaying_fra.Engine.Validated.{ValidatedWorldStateDelta}
use advanced_roleplaying_fra.Engine.Reducer.Records.{
  apply_scene_change, apply_active_speaker_change, apply_summary_update, apply_memory_change,
  apply_fact_to_add, apply_action_resolution_change, change_memories, add_fact,
  add_action_resolution, next_fact_id,
}
use advanced_roleplaying_fra.Engine.Reducer.Npcs.{
  apply_npc_change, apply_faction_change, change_npcs, learn_fact, change_factions,
}
use advanced_roleplaying_fra.Engine.Reducer.Counters.{
  apply_quest_change, apply_clock_change, apply_inventory_change, change_quests, change_clocks,
  change_inventory,
}
use advanced_roleplaying_fra.Engine.Reducer.Player.{
  apply_player_change, apply_relationship_change, apply_clue_change, change_player,
  change_relationships, change_clues,
}
use advanced_roleplaying_fra.Engine.Reducer.Apply.{apply, apply_location_change}

-- The NPC changes see the facts, since `KnowledgeAdded` writes the new fact's id into the NPC.
abbrev pub npcs_after : ℤ → List Fact → List NpcState → List NpcChange → List NpcState
npcs_after version facts npcs [] = npcs
npcs_after version facts npcs (change ∷ rest) =
    npcs_after version (learn_fact version facts change)
      (change_npcs (next_fact_id version facts) npcs change) rest

abbrev pub scene_after : Option String → Option SceneChange → Option String
scene_after current none = current
scene_after current (some change) = change.scene

abbrev pub speaker_after : Option EntityKey → Option ActiveSpeakerChange → Option EntityKey
speaker_after current none = current
speaker_after current (some change) = change.speaker_id

abbrev pub summary_after : Option String → Option SummaryUpdate → Option String
summary_after current none = current
summary_after current (some update) = update.summary

abbrev pub location_after : Option EntityKey → Option LocationChange → Option EntityKey
location_after current none = current
location_after current (some change) = some change.location_id

abbrev pub parts : WorldState → WorldStateDelta → WorldState
parts state delta = record {
  session_id = state.session_id;
  scenario_id = state.scenario_id;
  version = add_i64 state.version (pos 1);
  current_location_id = location_after state.current_location_id delta.location_change;
  current_scene = scene_after state.current_scene delta.scene_change;
  active_speaker_id = speaker_after state.active_speaker_id delta.active_speaker_change;
  facts =
      foldl (learn_fact state.version)
        (foldl (add_fact state.version) state.facts delta.facts_to_add) delta.npc_changes;
  npcs =
      npcs_after state.version (foldl (add_fact state.version) state.facts delta.facts_to_add)
        state.npcs delta.npc_changes;
  factions = foldl change_factions state.factions delta.faction_changes;
  quests = foldl change_quests state.quests delta.quest_changes;
  clocks = foldl change_clocks state.clocks delta.clock_changes;
  action_resolutions =
      foldl (add_action_resolution state.version) state.action_resolutions
        delta.action_resolution_changes;
  relationships = foldl change_relationships state.relationships delta.relationship_changes;
  inventory = foldl change_inventory state.inventory delta.inventory_changes;
  player = foldl change_player state.player delta.player_changes;
  clues = foldl change_clues state.clues delta.clue_changes;
  memories = foldl (change_memories state.version) state.memories delta.memory_changes;
  summary = summary_after state.summary delta.summary_update;
  recent_events = state.recent_events ++ delta.event_log_entries;
}

scene_part :
    (s : WorldState) (c : Option SceneChange)
    → apply_scene_change s c ≡ record s { current_scene = scene_after s.current_scene c }
unfolding apply_scene_change
scene_part s none = refl
scene_part s (some c) = refl

speaker_part :
    (s : WorldState) (c : Option ActiveSpeakerChange)
    → apply_active_speaker_change s c
      ≡ record s { active_speaker_id = speaker_after s.active_speaker_id c }
unfolding apply_active_speaker_change
speaker_part s none = refl
speaker_part s (some c) = refl

summary_part :
    (s : WorldState) (c : Option SummaryUpdate)
    → apply_summary_update s c ≡ record s { summary = summary_after s.summary c }
unfolding apply_summary_update
summary_part s none = refl
summary_part s (some c) = refl

memories_part :
    (s : WorldState) (cs : List MemoryChange)
    → foldl apply_memory_change s cs
      ≡ record s { memories = foldl (change_memories s.version) s.memories cs }
unfolding apply_memory_change
memories_part s [] = refl
memories_part s (c ∷ cs) = memories_part (apply_memory_change s c) cs

facts_part :
    (s : WorldState) (cs : List FactToAdd)
    → foldl apply_fact_to_add s cs ≡ record s { facts = foldl (add_fact s.version) s.facts cs }
unfolding apply_fact_to_add
facts_part s [] = refl
facts_part s (c ∷ cs) = facts_part (apply_fact_to_add s c) cs

actions_part :
    (s : WorldState) (cs : List ActionResolutionChange)
    → foldl apply_action_resolution_change s cs ≡ record s {
      action_resolutions = foldl (add_action_resolution s.version) s.action_resolutions cs;
    }
unfolding apply_action_resolution_change
actions_part s [] = refl
actions_part s (c ∷ cs) = actions_part (apply_action_resolution_change s c) cs

npcs_part :
    (s : WorldState) (cs : List NpcChange)
    → foldl apply_npc_change s cs ≡ record s {
      facts = foldl (learn_fact s.version) s.facts cs;
      npcs = npcs_after s.version s.facts s.npcs cs;
    }
unfolding apply_npc_change
npcs_part s [] = refl
npcs_part s (c ∷ cs) = npcs_part (apply_npc_change s c) cs

factions_part :
    (s : WorldState) (cs : List FactionChange)
    → foldl apply_faction_change s cs ≡ record s { factions = foldl change_factions s.factions cs }
unfolding apply_faction_change
factions_part s [] = refl
factions_part s (c ∷ cs) = factions_part (apply_faction_change s c) cs

quests_part :
    (s : WorldState) (cs : List QuestChange)
    → foldl apply_quest_change s cs ≡ record s { quests = foldl change_quests s.quests cs }
unfolding apply_quest_change
quests_part s [] = refl
quests_part s (c ∷ cs) = quests_part (apply_quest_change s c) cs

clocks_part :
    (s : WorldState) (cs : List ClockChange)
    → foldl apply_clock_change s cs ≡ record s { clocks = foldl change_clocks s.clocks cs }
unfolding apply_clock_change
clocks_part s [] = refl
clocks_part s (c ∷ cs) = clocks_part (apply_clock_change s c) cs

inventory_part :
    (s : WorldState) (cs : List InventoryChange)
    → foldl apply_inventory_change s cs
      ≡ record s { inventory = foldl change_inventory s.inventory cs }
unfolding apply_inventory_change
inventory_part s [] = refl
inventory_part s (c ∷ cs) = inventory_part (apply_inventory_change s c) cs

player_part :
    (s : WorldState) (cs : List PlayerChange)
    → foldl apply_player_change s cs ≡ record s { player = foldl change_player s.player cs }
unfolding apply_player_change
player_part s [] = refl
player_part s (c ∷ cs) = player_part (apply_player_change s c) cs

relationships_part :
    (s : WorldState) (cs : List RelationshipChange)
    → foldl apply_relationship_change s cs
      ≡ record s { relationships = foldl change_relationships s.relationships cs }
unfolding apply_relationship_change
relationships_part s [] = refl
relationships_part s (c ∷ cs) = relationships_part (apply_relationship_change s c) cs

clues_part :
    (s : WorldState) (cs : List ClueChange)
    → foldl apply_clue_change s cs ≡ record s { clues = foldl change_clues s.clues cs }
unfolding apply_clue_change
clues_part s [] = refl
clues_part s (c ∷ cs) = clues_part (apply_clue_change s c) cs

location_part :
    (s : WorldState) (c : Option LocationChange)
    → apply_location_change s c
      ≡ record s { current_location_id = location_after s.current_location_id c }
unfolding apply_location_change
location_part s none = refl
location_part s (some c) = refl

ruleset loop_parts = (
  scene_part, speaker_part, summary_part, memories_part, facts_part, actions_part, npcs_part,
  factions_part, quests_part, clocks_part, inventory_part, player_part, relationships_part,
  clues_part, location_part,
)

-- One turn of the reducer is, part by part, the fold of that part's changes over that part alone.
pub apply-eq-parts :
    (state : WorldState) (validated : ValidatedWorldStateDelta)
    → apply state validated ≡ parts state validated.inner
unfolding apply
apply-eq-parts state validated = simp loop_parts
