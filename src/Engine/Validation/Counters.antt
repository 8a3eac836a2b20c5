-- ===== src/Engine/Validation/Counters.antt =====
-- crates/engine/src/validation.rs: the checks of quest, clock, relationship and inventory changes.
use advanced_roleplaying_fra.Base.{
  String, not, ◌==◌, List, find, leb, Result, ok, ensure, ok_or, ◌>>=◌, ◌>>◌,
}
use advanced_roleplaying_fra.Base.Int.{ℤ, pos, add_i16, add_i32, in_range}
use advanced_roleplaying_fra.Base.Text.{is_blank}
use advanced_roleplaying_fra.Domain.Ids.{EntityKey}
use advanced_roleplaying_fra.Domain.State.{WorldState, ClockState}
use advanced_roleplaying_fra.Domain.Delta.{
  QuestChange, ClockChange, RelationshipChange, InventoryChange,
}
use advanced_roleplaying_fra.Engine.Validation.Errors.{DeltaValidationError}
use advanced_roleplaying_fra.Engine.Validation.Checks.{
  Check, require_known, require_reason, within_hundred, is_known_relationship_endpoint,
  current_relationship_metric,
}

unfoldable pub check_quest_change : List EntityKey → QuestChange → Check
check_quest_change quest_ids (QuestChange.started quest_id reason) = do
  require_known "quest" quest_id quest_ids
  require_reason reason
check_quest_change quest_ids (QuestChange.objective_completed quest_id objective_id reason) = do
  require_known "quest" quest_id quest_ids
  require_reason reason
check_quest_change quest_ids (QuestChange.completed quest_id reason) = do
  require_known "quest" quest_id quest_ids
  require_reason reason
check_quest_change quest_ids (QuestChange.failed quest_id reason) = do
  require_known "quest" quest_id quest_ids
  require_reason reason

-- `.find(..).expect("clock checked")`: the id has just been found among the clocks, so the search
-- cannot fail, and what stands here for the panic is never returned.
abbrev pub expect_clock : WorldState → EntityKey → Result ClockState DeltaValidationError
expect_clock world_state clock_id =
    ok_or (find (λ (clock : ClockState). clock.id == clock_id) world_state.clocks)
      (DeltaValidationError.unknown_entity "clock checked" clock_id)

unfoldable pub check_clock_change : WorldState → List EntityKey → ClockChange → Check
check_clock_change world_state clock_ids (ClockChange.advanced clock_id delta reason) = do
  require_known "clock" clock_id clock_ids
  require_reason reason
  clock ← expect_clock world_state clock_id
  let next = add_i16 (pos clock.current) delta
  ensure (in_range (pos 0) (pos clock.max) next)
      (DeltaValidationError.clock_out_of_range clock_id next)
check_clock_change world_state clock_ids (ClockChange.set_value clock_id value reason) = do
  require_known "clock" clock_id clock_ids
  require_reason reason
  clock ← expect_clock world_state clock_id
  ensure (leb value clock.max) (DeltaValidationError.clock_out_of_range clock_id (pos value))
check_clock_change world_state clock_ids
      (ClockChange.visibility_changed clock_id visible_to_player reason) =
    do require_known "clock" clock_id clock_ids; require_reason reason

abbrev pub source_of : RelationshipChange → EntityKey
source_of (RelationshipChange.changed source_id target_id attitude_delta reason) = source_id
source_of (RelationshipChange.note_added source_id target_id note reason) = source_id
source_of (RelationshipChange.trust_changed source_id target_id delta reason) = source_id
source_of (RelationshipChange.suspicion_changed source_id target_id delta reason) = source_id
source_of (RelationshipChange.loyalty_changed source_id target_id delta reason) = source_id

abbrev pub target_of : RelationshipChange → EntityKey
target_of (RelationshipChange.changed source_id target_id attitude_delta reason) = target_id
target_of (RelationshipChange.note_added source_id target_id note reason) = target_id
target_of (RelationshipChange.trust_changed source_id target_id delta reason) = target_id
target_of (RelationshipChange.suspicion_changed source_id target_id delta reason) = target_id
target_of (RelationshipChange.loyalty_changed source_id target_id delta reason) = target_id

abbrev pub reason_of_relationship : RelationshipChange → String
reason_of_relationship (RelationshipChange.changed source_id target_id attitude_delta reason) =
    reason
reason_of_relationship (RelationshipChange.note_added source_id target_id note reason) = reason
reason_of_relationship (RelationshipChange.trust_changed source_id target_id delta reason) = reason
reason_of_relationship (RelationshipChange.suspicion_changed source_id target_id delta reason) =
    reason
reason_of_relationship (RelationshipChange.loyalty_changed source_id target_id delta reason) =
    reason

-- `next` of a metric that moves by `delta`.
unfoldable pub check_metric : WorldState → RelationshipChange → ℤ → Check
check_metric world_state change delta =
    let next =
      add_i32 (current_relationship_metric world_state (source_of change) (target_of change) change)
        delta in
    ensure (within_hundred next) (
      DeltaValidationError.relationship_metric_out_of_range (source_of change) (target_of change)
        next)

unfoldable pub check_relationship_metric : WorldState → RelationshipChange → Check
unfolding check_metric
check_relationship_metric world_state (RelationshipChange.trust_changed s t delta reason) =
    check_metric world_state (RelationshipChange.trust_changed s t delta reason) delta
check_relationship_metric world_state (RelationshipChange.suspicion_changed s t delta reason) =
    check_metric world_state (RelationshipChange.suspicion_changed s t delta reason) delta
check_relationship_metric world_state (RelationshipChange.loyalty_changed s t delta reason) =
    check_metric world_state (RelationshipChange.loyalty_changed s t delta reason) delta
check_relationship_metric world_state _ = ok tt

unfoldable pub check_relationship_change :
    WorldState → List EntityKey → List EntityKey → RelationshipChange → Check
unfolding check_relationship_metric
check_relationship_change world_state npc_ids faction_ids change = do
  require_reason (reason_of_relationship change)
  ensure (is_known_relationship_endpoint (source_of change) npc_ids faction_ids)
      (DeltaValidationError.unknown_entity "relationship source" (source_of change))
  ensure (is_known_relationship_endpoint (target_of change) npc_ids faction_ids)
      (DeltaValidationError.unknown_entity "relationship target" (target_of change))
  check_relationship_metric world_state change

unfoldable pub check_inventory_change : List EntityKey → InventoryChange → Check
check_inventory_change inventory_ids (InventoryChange.added item reason) = do
  require_reason reason
  ensure (not (is_blank item.id)) (DeltaValidationError.unknown_entity "inventory item" item.id)
check_inventory_change inventory_ids (InventoryChange.removed item_id reason) = do
  require_reason reason
  require_known "inventory item" item_id inventory_ids
check_inventory_change inventory_ids (InventoryChange.updated item reason) = do
  require_reason reason
  require_known "inventory item" item.id inventory_ids
