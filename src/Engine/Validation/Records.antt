-- ===== src/Engine/Validation/Records.antt =====
-- crates/engine/src/validation.rs: the checks of the speaker, action resolutions, memories, the
-- player character, clues and the location.
use advanced_roleplaying_fra.Base.{
  Bool, false, not, ◌||◌, ◌==◌, Option, none, some, List, find, any, all, ok, ensure, ok_or,
  for_each, ◌>>=◌, ◌>>◌,
}
use advanced_roleplaying_fra.Base.Int.{add_i32, in_range}
use advanced_roleplaying_fra.Base.Text.{is_blank}
use advanced_roleplaying_fra.Domain.Ids.{EntityKey}
use advanced_roleplaying_fra.Domain.State.{
  WorldState, MemoryEntry, PlayerGoal, PlayerCondition, PlayerResource, ClueState,
}
use advanced_roleplaying_fra.Domain.Delta.{
  SceneChange, ActiveSpeakerChange, SummaryUpdate, ActionResolutionChange, MemoryChange,
  PlayerChange, ClueChange, LocationChange, WorldStateDelta,
}
use advanced_roleplaying_fra.Engine.Validation.Errors.{DeltaValidationError}
use advanced_roleplaying_fra.Engine.Validation.Checks.{
  Check, require_known, require_reason, require_non_empty, validate_memory_importance,
  validate_player_progress, delta_has_observable_consequence,
}
use advanced_roleplaying_fra.Engine.Validation.Secrets.{SecretConditions, validate_clue_links}

unfoldable pub check_scene_change : Option SceneChange → Check
check_scene_change none = ok tt
check_scene_change (some change) = require_reason change.reason

abbrev pub check_speaker : List EntityKey → Option EntityKey → Check
check_speaker npc_ids none = ok tt
check_speaker npc_ids (some speaker_id) = require_known "npc" speaker_id npc_ids

unfoldable pub check_active_speaker_change : List EntityKey → Option ActiveSpeakerChange → Check
check_active_speaker_change npc_ids none = ok tt
check_active_speaker_change npc_ids (some change) = do
  require_reason change.reason
  check_speaker npc_ids change.speaker_id

unfoldable pub check_summary_update : Option SummaryUpdate → Check
check_summary_update none = ok tt
check_summary_update (some update) = require_reason update.reason

unfoldable pub check_action_resolution_change :
    WorldStateDelta → List EntityKey → ActionResolutionChange → Check
check_action_resolution_change delta clock_ids
      (ActionResolutionChange.recorded intent stakes outcome consequence visible_to_player
        linked_clock_ids reason) =
    do
      require_reason reason
      require_non_empty "action intent" intent
      require_non_empty "action consequence" consequence
      ensure (not (all is_blank stakes)) DeltaValidationError.missing_action_stakes
      for_each (λ clock_id. require_known "clock" clock_id clock_ids) linked_clock_ids
      ensure (delta_has_observable_consequence delta)
          DeltaValidationError.missing_action_consequence

unfoldable pub check_memory_change : WorldState → MemoryChange → Check
check_memory_change world_state
      (MemoryChange.added text visibility importance related_entity_ids reason) =
    do require_reason reason; validate_memory_importance importance
check_memory_change world_state (MemoryChange.importance_changed memory_id importance reason) = do
  require_reason reason
  validate_memory_importance importance
  ensure (any (λ (memory : MemoryEntry). memory.id == memory_id) world_state.memories)
      (DeltaValidationError.unknown_entity "memory" memory_id)

unfoldable pub check_player_change : WorldState → PlayerChange → Check
check_player_change world_state
      (PlayerChange.trait_added trait_id label description visible_to_player reason) =
    do
      require_reason reason
      require_non_empty "player trait id" trait_id
      require_non_empty "player trait label" label
      require_non_empty "player trait description" description
check_player_change world_state
      (PlayerChange.goal_added goal_id label description progress visible_to_player reason) =
    do
      require_reason reason
      require_non_empty "player goal id" goal_id
      require_non_empty "player goal label" label
      require_non_empty "player goal description" description
      validate_player_progress progress
check_player_change world_state (PlayerChange.goal_progressed goal_id delta reason) = do
  require_reason reason
  goal ←
      ok_or (find (λ (goal : PlayerGoal). goal.id == goal_id) world_state.player.goals)
        (DeltaValidationError.unknown_entity "player goal" goal_id)
  validate_player_progress (add_i32 goal.progress delta)
check_player_change world_state
      (PlayerChange.condition_added condition_id label description visible_to_player reason) =
    do
      require_reason reason
      require_non_empty "player condition id" condition_id
      require_non_empty "player condition label" label
      require_non_empty "player condition description" description
check_player_change world_state (PlayerChange.condition_cleared condition_id reason) = do
  require_reason reason
  ensure
      (any (λ (condition : PlayerCondition). condition.id == condition_id)
        world_state.player.conditions)
      (DeltaValidationError.unknown_entity "player condition" condition_id)
check_player_change world_state (PlayerChange.resource_changed resource_id delta reason) = do
  require_reason reason
  resource ←
      ok_or
        (find (λ (resource : PlayerResource). resource.id == resource_id)
          world_state.player.resources)
        (DeltaValidationError.unknown_entity "player resource" resource_id)
  let next = add_i32 resource.current delta
  ensure (in_range resource.min resource.max next)
      (DeltaValidationError.player_resource_out_of_range resource_id next resource.min resource.max)
check_player_change world_state (PlayerChange.gm_note_added note reason) = do
  require_reason reason
  require_non_empty "player gm note" note

-- Does the delta itself discover the clue?
abbrev pub discovers : EntityKey → ClueChange → Bool
discovers clue_id (ClueChange.discovered candidate_id text linked satisfied visible reason) =
    candidate_id == clue_id
discovers clue_id (ClueChange.visibility_changed other_id visible reason) = false

unfoldable pub check_clue_change :
    WorldState → WorldStateDelta → SecretConditions → ClueChange → Check
check_clue_change world_state delta secret_conditions
      (ClueChange.discovered clue_id text linked_secret_ids satisfied_reveal_conditions
        visible_to_player reason) =
    do
      require_reason reason
      require_non_empty "clue id" clue_id
      require_non_empty "clue text" text
      validate_clue_links clue_id linked_secret_ids satisfied_reveal_conditions secret_conditions
check_clue_change world_state delta secret_conditions
      (ClueChange.visibility_changed clue_id visible_to_player reason) =
    do
      require_reason reason
      ensure
          (any (λ (clue : ClueState). clue.id == clue_id) world_state.clues
            || any (discovers clue_id) delta.clue_changes)
          (DeltaValidationError.unknown_entity "clue" clue_id)

unfoldable pub check_location_change : List EntityKey → Option LocationChange → Check
check_location_change location_ids none = ok tt
check_location_change location_ids (some change) = do
  require_known "location" change.location_id location_ids
  require_reason change.reason
