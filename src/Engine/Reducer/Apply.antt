-- ===== src/Engine/Reducer/Apply.antt =====
-- crates/engine/src/reducer.rs: `BasicWorldStateReducer::apply`, one loop after another.
use advanced_roleplaying_fra.Base.{String, Option, none, some, List, ◌++◌, foldl}
use advanced_roleplaying_fra.Base.Int.{pos, add_i64}
use advanced_roleplaying_fra.Domain.State.{WorldState}
use advanced_roleplaying_fra.Domain.Delta.{LocationChange, WorldStateDelta}
use advanced_roleplaying_fra.Engine.Validated.{ValidatedWorldStateDelta}
use advanced_roleplaying_fra.Engine.Reducer.Records.{
  apply_scene_change, apply_active_speaker_change, apply_summary_update, apply_memory_change,
  apply_fact_to_add, apply_action_resolution_change,
}
use advanced_roleplaying_fra.Engine.Reducer.Npcs.{apply_npc_change, apply_faction_change}
use advanced_roleplaying_fra.Engine.Reducer.Counters.{
  apply_quest_change, apply_clock_change, apply_inventory_change,
}
use advanced_roleplaying_fra.Engine.Reducer.Player.{
  apply_player_change, apply_relationship_change, apply_clue_change,
}

unfoldable pub apply_location_change : WorldState → Option LocationChange → WorldState
apply_location_change state none = state
apply_location_change state (some location) = record state {
  current_location_id = some location.location_id;
}

-- The last two statements: the event log grows, and the version goes up by one.
unfoldable pub finish : WorldState → List String → WorldState
finish state event_log_entries = record state {
  recent_events = state.recent_events ++ event_log_entries;
  version = add_i64 state.version (pos 1);
}

-- The changes up to the facts and the action resolutions, whose ids count what is already there.
unfoldable pub apply_records : WorldState → WorldStateDelta → WorldState
apply_records state delta =
    foldl apply_action_resolution_change
      (foldl apply_fact_to_add
        (foldl apply_memory_change
          (apply_summary_update
            (apply_active_speaker_change (apply_scene_change state delta.scene_change)
              delta.active_speaker_change)
            delta.summary_update)
          delta.memory_changes)
        delta.facts_to_add)
      delta.action_resolution_changes

unfoldable pub apply_entities : WorldState → WorldStateDelta → WorldState
apply_entities state delta =
    foldl apply_inventory_change
      (foldl apply_clock_change
        (foldl apply_quest_change
          (foldl apply_faction_change (foldl apply_npc_change state delta.npc_changes)
            delta.faction_changes)
          delta.quest_changes)
        delta.clock_changes)
      delta.inventory_changes

unfoldable pub apply_player : WorldState → WorldStateDelta → WorldState
apply_player state delta =
    foldl apply_clue_change
      (foldl apply_relationship_change (foldl apply_player_change state delta.player_changes)
        delta.relationship_changes)
      delta.clue_changes

unfoldable pub apply : WorldState → ValidatedWorldStateDelta → WorldState
unfolding finish apply_records apply_entities apply_player
apply state validated =
    let delta = validated.inner in
    finish
      (apply_location_change (apply_player (apply_entities (apply_records state delta) delta) delta)
        delta.location_change)
      delta.event_log_entries
