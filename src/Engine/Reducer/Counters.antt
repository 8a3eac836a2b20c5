-- ===== src/Engine/Reducer/Counters.antt =====
-- crates/engine/src/reducer.rs: changes of quests, clocks and the inventory.
use Prim.Native.Nat.{min}
use advanced_roleplaying_fra.Base.{◌==◌, not, List, push, update_first, any, keep, if◌then◌else◌}
use advanced_roleplaying_fra.Base.Int.{ℤ, pos, add_i16, clamp, as_u8}
use advanced_roleplaying_fra.Domain.Ids.{EntityKey}
use advanced_roleplaying_fra.Domain.State.{
  WorldState, QuestState, QuestStatus, ClockState, InventoryItem,
}
use advanced_roleplaying_fra.Domain.Delta.{QuestChange, ClockChange, InventoryChange}

unfoldable pub update_quest :
    List QuestState → EntityKey → (QuestState → QuestState) → List QuestState
update_quest quests quest_id f = update_first (λ quest. quest.quest_id == quest_id) f quests

unfoldable pub complete_objective : EntityKey → QuestState → QuestState
complete_objective objective_id quest =
    if any (λ done. done == objective_id) quest.completed_objectives
    then quest
    else record quest { completed_objectives = push quest.completed_objectives objective_id }

unfoldable pub change_quests : List QuestState → QuestChange → List QuestState
unfolding update_quest complete_objective
change_quests quests (QuestChange.started quest_id reason) =
    update_quest quests quest_id (λ quest. record quest { status = QuestStatus.active })
change_quests quests (QuestChange.objective_completed quest_id objective_id reason) =
    update_quest quests quest_id (complete_objective objective_id)
change_quests quests (QuestChange.completed quest_id reason) =
    update_quest quests quest_id (λ quest. record quest { status = QuestStatus.completed })
change_quests quests (QuestChange.failed quest_id reason) =
    update_quest quests quest_id (λ quest. record quest { status = QuestStatus.failed })

unfoldable pub apply_quest_change : WorldState → QuestChange → WorldState
unfolding change_quests
apply_quest_change state change = record state { quests = change_quests state.quests change }

unfoldable pub update_clock :
    List ClockState → EntityKey → (ClockState → ClockState) → List ClockState
update_clock clocks clock_id f = update_first (λ clock. clock.id == clock_id) f clocks

-- `(i16::from(current) + i16::from(delta)).clamp(0, i16::from(max)) as u8`.
unfoldable pub advance_clock : ℤ → ClockState → ClockState
advance_clock delta clock = record clock {
  current = as_u8 (clamp (pos 0) (pos clock.max) (add_i16 (pos clock.current) delta));
}

unfoldable pub change_clocks : List ClockState → ClockChange → List ClockState
unfolding update_clock advance_clock
change_clocks clocks (ClockChange.advanced clock_id delta reason) =
    update_clock clocks clock_id (advance_clock delta)
change_clocks clocks (ClockChange.set_value clock_id value reason) =
    update_clock clocks clock_id (λ clock. record clock { current = min value clock.max })
change_clocks clocks (ClockChange.visibility_changed clock_id visible_to_player reason) =
    update_clock clocks clock_id (λ clock. record clock { visible_to_player = visible_to_player })

unfoldable pub apply_clock_change : WorldState → ClockChange → WorldState
unfolding change_clocks
apply_clock_change state change = record state { clocks = change_clocks state.clocks change }

unfoldable pub replace_item : InventoryItem → List InventoryItem → List InventoryItem
replace_item item inventory = update_first (λ entry. entry.id == item.id) (λ entry. item) inventory

unfoldable pub change_inventory : List InventoryItem → InventoryChange → List InventoryItem
unfolding replace_item
change_inventory inventory (InventoryChange.added item reason) =
    if any (λ entry. entry.id == item.id) inventory
    then replace_item item inventory
    else push inventory item
change_inventory inventory (InventoryChange.removed item_id reason) =
    keep (λ item. not (item.id == item_id)) inventory
change_inventory inventory (InventoryChange.updated item reason) = replace_item item inventory

unfoldable pub apply_inventory_change : WorldState → InventoryChange → WorldState
unfolding change_inventory
apply_inventory_change state change = record state {
  inventory = change_inventory state.inventory change;
}
