-- ===== src/Engine/Validation/Validate.antt =====
-- crates/engine/src/validation.rs: `BasicDeltaValidator::validate`, its checks in their order.
use advanced_roleplaying_fra.Base.{String, List, map, Result, ok, for_each, ◌>>◌}
use advanced_roleplaying_fra.Domain.Ids.{EntityKey}
use advanced_roleplaying_fra.Domain.Scenario.{Scenario, Npc, Faction, Quest, Location}
use advanced_roleplaying_fra.Domain.State.{WorldState, ClockState, InventoryItem}
use advanced_roleplaying_fra.Domain.Delta.{WorldStateDelta}
use advanced_roleplaying_fra.Engine.Validated.{ValidatedWorldStateDelta}
use advanced_roleplaying_fra.Engine.Validation.Errors.{DeltaValidationError}
use advanced_roleplaying_fra.Engine.Validation.Secrets.{
  SecretConditions, collect_conditions, check_fact_to_add,
}
use advanced_roleplaying_fra.Engine.Validation.Npcs.{check_npc_change, check_faction_change}
use advanced_roleplaying_fra.Engine.Validation.Counters.{
  check_quest_change, check_clock_change, check_relationship_change, check_inventory_change,
}
use advanced_roleplaying_fra.Engine.Validation.Records.{
  check_scene_change, check_active_speaker_change, check_summary_update,
  check_action_resolution_change, check_memory_change, check_player_change, check_clue_change,
  check_location_change,
}

abbrev pub npc_ids_of : Scenario → List EntityKey
npc_ids_of scenario = map (λ (npc : Npc). npc.id) scenario.npcs

abbrev pub faction_ids_of : Scenario → List EntityKey
faction_ids_of scenario = map (λ (faction : Faction). faction.id) scenario.factions

abbrev pub quest_ids_of : Scenario → List EntityKey
quest_ids_of scenario = map (λ (quest : Quest). quest.id) scenario.quests

abbrev pub location_ids_of : Scenario → List EntityKey
location_ids_of scenario = map (λ (location : Location). location.id) scenario.locations

abbrev pub clock_ids_of : WorldState → List EntityKey
clock_ids_of world_state = map (λ (clock : ClockState). clock.id) world_state.clocks

abbrev pub inventory_ids_of : WorldState → List EntityKey
inventory_ids_of world_state = map (λ (item : InventoryItem). item.id) world_state.inventory

abbrev pub secret_conditions_of : Scenario → SecretConditions
secret_conditions_of scenario = collect_conditions scenario.secrets

module _ (to_lowercase : String → String) where
  unfoldable pub validate :
      Scenario → WorldState → WorldStateDelta → Result ValidatedWorldStateDelta DeltaValidationError
  validate scenario world_state delta = do
    let npc_ids = npc_ids_of scenario
    let faction_ids = faction_ids_of scenario
    let clock_ids = clock_ids_of world_state
    let location_ids = location_ids_of scenario
    let secret_conditions = secret_conditions_of scenario
    check_scene_change delta.scene_change
    check_active_speaker_change npc_ids delta.active_speaker_change
    check_summary_update delta.summary_update
    for_each (check_action_resolution_change delta clock_ids) delta.action_resolution_changes
    for_each (check_memory_change world_state) delta.memory_changes
    for_each (check_fact_to_add to_lowercase world_state delta secret_conditions) delta.facts_to_add
    for_each (check_npc_change to_lowercase scenario world_state npc_ids location_ids)
        delta.npc_changes
    for_each (check_faction_change world_state faction_ids) delta.faction_changes
    for_each (check_quest_change (quest_ids_of scenario)) delta.quest_changes
    for_each (check_clock_change world_state clock_ids) delta.clock_changes
    for_each (check_relationship_change world_state npc_ids faction_ids) delta.relationship_changes
    for_each (check_inventory_change (inventory_ids_of world_state)) delta.inventory_changes
    for_each (check_player_change world_state) delta.player_changes
    for_each (check_clue_change world_state delta secret_conditions) delta.clue_changes
    check_location_change location_ids delta.location_change
    ok (record { inner = delta })
