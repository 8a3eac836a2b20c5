-- ===== src/Engine/Validation/Checks.antt =====
-- crates/engine/src/validation.rs: the small checks that the validator shares.
use advanced_roleplaying_fra.Base.{
  ℕ, String, Bool, not, ◌&&◌, ◌||◌, ◌==◌, Option, none, some, List, any, find, leb, is_empty,
  is_some, Result, ensure,
}
use advanced_roleplaying_fra.Base.Int.{ℤ, pos, negsuc, in_range}
use advanced_roleplaying_fra.Base.Text.{is_blank}
use advanced_roleplaying_fra.Domain.Ids.{EntityKey}
use advanced_roleplaying_fra.Domain.State.{WorldState, RelationshipState}
use advanced_roleplaying_fra.Domain.Delta.{RelationshipChange, WorldStateDelta}
use advanced_roleplaying_fra.Engine.Validation.Errors.{DeltaValidationError}

abbrev pub Check : Type 0
Check = Result (Unit {0}) DeltaValidationError

-- `known.contains(id)`: a `HashSet` is the list that it was collected from.
abbrev pub has_id : List EntityKey → EntityKey → Bool
has_id known id = any (λ other. other == id) known

unfoldable pub require_known : String → EntityKey → List EntityKey → Check
require_known entity id known =
    ensure (has_id known id) (DeltaValidationError.unknown_entity entity id)

unfoldable pub require_reason : String → Check
require_reason reason = ensure (not (is_blank reason)) DeltaValidationError.missing_reason

unfoldable pub require_non_empty : String → String → Check
require_non_empty label value =
    ensure (not (is_blank value)) (DeltaValidationError.missing_field label)

unfoldable pub validate_memory_importance : ℕ → Check
validate_memory_importance importance =
    ensure (leb importance 10)
      (DeltaValidationError.memory_importance_out_of_range (pos importance))

unfoldable pub validate_player_progress : ℤ → Check
validate_player_progress progress =
    ensure (in_range (pos 0) (pos 100) progress)
      (DeltaValidationError.player_goal_progress_out_of_range progress)

-- `(-100..=100).contains(&next)`.
abbrev pub within_hundred : ℤ → Bool
within_hundred next = in_range (negsuc 99) (pos 100) next

unfoldable pub delta_has_observable_consequence : WorldStateDelta → Bool
delta_has_observable_consequence delta =
    not (is_empty delta.facts_to_add)
    || not (is_empty delta.npc_changes)
    || not (is_empty delta.faction_changes)
    || not (is_empty delta.quest_changes)
    || not (is_empty delta.clock_changes)
    || not (is_empty delta.relationship_changes)
    || not (is_empty delta.inventory_changes)
    || not (is_empty delta.player_changes)
    || not (is_empty delta.clue_changes)
    || is_some delta.location_change
    || not (is_empty delta.event_log_entries)

unfoldable pub is_known_relationship_endpoint : EntityKey → List EntityKey → List EntityKey → Bool
is_known_relationship_endpoint id npc_ids faction_ids =
    id == "player" || has_id npc_ids id || has_id faction_ids id

abbrev pub metric_of : Option RelationshipState → (RelationshipState → ℤ) → ℤ
metric_of none metric = pos 0
metric_of (some relationship) metric = metric relationship

unfoldable pub current_relationship_metric :
    WorldState → EntityKey → EntityKey → RelationshipChange → ℤ
current_relationship_metric world_state source_id target_id change =
    let relationship : Option RelationshipState =
      find (λ (r : RelationshipState). r.source_id == source_id && r.target_id == target_id)
        world_state.relationships in
    elim change [
      | RelationshipChange.trust_changed s t delta reason ↦ metric_of relationship (λ r. r.trust)
      | RelationshipChange.suspicion_changed s t delta reason ↦
          metric_of relationship (λ r. r.suspicion)
      | RelationshipChange.loyalty_changed s t delta reason ↦
          metric_of relationship (λ r. r.loyalty)
      | _ ↦ pos 0
    ]
