-- ===== src/Engine/Validation/Npcs.antt =====
-- crates/engine/src/validation.rs: the checks of NPC and faction changes.
use advanced_roleplaying_fra.Base.{
  String, Bool, true, false, not, ◌&&◌, ◌||◌, ◌==◌, Option, none, some, List, find, Result, ok, err,
  ensure, ok_or, ◌>>=◌, ◌>>◌,
}
use advanced_roleplaying_fra.Base.Int.{ℤ, pos, add_i32}
use advanced_roleplaying_fra.Domain.Ids.{EntityKey}
use advanced_roleplaying_fra.Domain.Scenario.{Scenario, Npc, NpcStatus}
use advanced_roleplaying_fra.Domain.State.{WorldState, NpcState, FactionState}
use advanced_roleplaying_fra.Domain.Delta.{NpcChange, FactionChange}
use advanced_roleplaying_fra.Domain.Validation.{
  DomainValidationError, display, validate_npc_status_transition, is_dead,
}
use advanced_roleplaying_fra.Engine.Validation.Errors.{DeltaValidationError}
use advanced_roleplaying_fra.Engine.Validation.Checks.{
  Check, require_known, require_reason, require_non_empty, within_hundred,
}
use advanced_roleplaying_fra.Engine.Validation.Secrets.{is_player_known, leaks_gm_only_fact}

abbrev pub npc_of : NpcChange → EntityKey
npc_of (NpcChange.attitude_changed npc_id attitude reason) = npc_id
npc_of (NpcChange.knowledge_added npc_id fact visibility reason) = npc_id
npc_of (NpcChange.status_changed npc_id status reason) = npc_id
npc_of (NpcChange.location_changed npc_id location_id reason) = npc_id
npc_of (NpcChange.note_added npc_id note reason) = npc_id
npc_of (NpcChange.visibility_changed npc_id visible_to_player reason) = npc_id
npc_of (NpcChange.availability_changed npc_id availability reason) = npc_id
npc_of (NpcChange.intent_changed npc_id intent reason) = npc_id
npc_of (NpcChange.offscreen_action_recorded npc_id intent result visible_to_player reason) = npc_id

abbrev pub reason_of_npc : NpcChange → String
reason_of_npc (NpcChange.attitude_changed npc_id attitude reason) = reason
reason_of_npc (NpcChange.knowledge_added npc_id fact visibility reason) = reason
reason_of_npc (NpcChange.status_changed npc_id status reason) = reason
reason_of_npc (NpcChange.location_changed npc_id location_id reason) = reason
reason_of_npc (NpcChange.note_added npc_id note reason) = reason
reason_of_npc (NpcChange.visibility_changed npc_id visible_to_player reason) = reason
reason_of_npc (NpcChange.availability_changed npc_id availability reason) = reason
reason_of_npc (NpcChange.intent_changed npc_id intent reason) = reason
reason_of_npc (NpcChange.offscreen_action_recorded npc_id intent result visible_to_player reason) =
    reason

abbrev pub is_unconscious : NpcStatus → Bool
is_unconscious NpcStatus.unconscious = true
is_unconscious _ = false

-- `matches!(status, NpcStatus::Unconscious | NpcStatus::Dead)`.
abbrev pub cannot_act : NpcStatus → Bool
cannot_act status = is_unconscious status || is_dead status

-- Is the change allowed, given the current status of the NPC?
unfoldable pub check_npc_status : NpcChange → NpcState → Check
check_npc_status (NpcChange.knowledge_added npc_id fact visibility reason) npc =
    ensure (not (cannot_act npc.status)) (
      DeltaValidationError.invalid_npc_status_action npc_id npc.status
        "knowledge or attitude change")
check_npc_status (NpcChange.attitude_changed npc_id attitude reason) npc =
    ensure (not (cannot_act npc.status)) (
      DeltaValidationError.invalid_npc_status_action npc_id npc.status
        "knowledge or attitude change")
check_npc_status (NpcChange.location_changed npc_id location_id reason) npc =
    ensure (not (is_dead npc.status))
      (DeltaValidationError.invalid_npc_status_action npc_id npc.status "location change")
check_npc_status (NpcChange.intent_changed npc_id intent reason) npc =
    ensure (not (cannot_act npc.status))
      (DeltaValidationError.invalid_npc_status_action npc_id npc.status "agency change")
check_npc_status (NpcChange.offscreen_action_recorded npc_id intent result visible reason) npc =
    ensure (not (cannot_act npc.status))
      (DeltaValidationError.invalid_npc_status_action npc_id npc.status "agency change")
check_npc_status _ npc = ok tt

abbrev pub check_current_npc : NpcChange → Option NpcState → Check
check_current_npc change none = ok tt
check_current_npc change (some npc) = check_npc_status change npc

abbrev pub find_npc : WorldState → EntityKey → Option NpcState
find_npc world_state npc_id = find (λ (npc : NpcState). npc.npc_id == npc_id) world_state.npcs

-- The status in the world state, or else the scenario's initial one.
unfoldable pub current_status : Scenario → WorldState → EntityKey → Option NpcStatus
current_status scenario world_state npc_id = elim (find_npc world_state npc_id) [
  | some npc ↦ some npc.status
  | none ↦ elim (find (λ (npc : Npc). npc.id == npc_id) scenario.npcs) [
    | some npc ↦ some npc.initial_status
    | none ↦ none
  ]
]

-- `.map_err(|error| InvalidStatus(error.to_string()))`.
abbrev pub as_invalid_status : Result (Unit {0}) DomainValidationError → Check
as_invalid_status (ok tt) = ok tt
as_invalid_status (err error) = err (DeltaValidationError.invalid_status (display error))

abbrev pub require_intent : Option String → Check
require_intent none = ok tt
require_intent (some intent) = require_non_empty "npc intent" intent

module _ (to_lowercase : String → String) where
  unfoldable pub check_npc_content : Scenario → WorldState → List EntityKey → NpcChange → Check
  unfolding current_status
  check_npc_content scenario world_state location_ids
        (NpcChange.knowledge_added npc_id fact visibility reason) =
      ensure (not (is_player_known visibility && leaks_gm_only_fact to_lowercase world_state fact))
        (DeltaValidationError.secret_leak fact)
  check_npc_content scenario world_state location_ids
        (NpcChange.status_changed npc_id status reason) =
      do
        current ←
            ok_or (current_status scenario world_state npc_id)
              (DeltaValidationError.unknown_entity "npc" npc_id)
        as_invalid_status (validate_npc_status_transition current status false)
  check_npc_content scenario world_state location_ids
        (NpcChange.location_changed npc_id location_id reason) =
      require_known "location" location_id location_ids
  check_npc_content scenario world_state location_ids
        (NpcChange.intent_changed npc_id intent reason) =
      require_intent intent
  check_npc_content scenario world_state location_ids
        (NpcChange.offscreen_action_recorded npc_id intent result visible_to_player reason) =
      do
        require_non_empty "npc offscreen intent" intent
        require_non_empty "npc offscreen result" result
  check_npc_content scenario world_state location_ids _ = ok tt

  unfoldable pub check_npc_change :
      Scenario → WorldState → List EntityKey → List EntityKey → NpcChange → Check
  unfolding check_npc_status check_npc_content
  check_npc_change scenario world_state npc_ids location_ids change = do
    require_known "npc" (npc_of change) npc_ids
    require_reason (reason_of_npc change)
    check_current_npc change (find_npc world_state (npc_of change))
    check_npc_content scenario world_state location_ids change

abbrev pub faction_metric : WorldState → EntityKey → (FactionState → ℤ) → ℤ
faction_metric world_state faction_id metric =
    elim (find (λ (state : FactionState). state.faction_id == faction_id) world_state.factions) [
      | some state ↦ metric state
      | none ↦ pos 0
    ]

unfoldable pub check_faction_change : WorldState → List EntityKey → FactionChange → Check
check_faction_change world_state faction_ids
      (FactionChange.standing_changed faction_id standing_delta reason) =
    do
      require_known "faction" faction_id faction_ids
      require_reason reason
      let next =
          add_i32 (faction_metric world_state faction_id (λ state. state.standing)) standing_delta
      ensure (within_hundred next) (DeltaValidationError.standing_out_of_range faction_id next)
check_faction_change world_state faction_ids (FactionChange.goal_revealed faction_id goal reason) =
    do require_known "faction" faction_id faction_ids; require_reason reason
check_faction_change world_state faction_ids
      (FactionChange.public_note_added faction_id note reason) =
    do require_known "faction" faction_id faction_ids; require_reason reason
check_faction_change world_state faction_ids
      (FactionChange.hidden_note_added faction_id note reason) =
    do require_known "faction" faction_id faction_ids; require_reason reason
check_faction_change world_state faction_ids
      (FactionChange.public_pressure_note_added faction_id note reason) =
    do require_known "faction" faction_id faction_ids; require_reason reason
check_faction_change world_state faction_ids
      (FactionChange.hidden_pressure_note_added faction_id note reason) =
    do require_known "faction" faction_id faction_ids; require_reason reason
check_faction_change world_state faction_ids
      (FactionChange.pressure_changed faction_id delta public reason) =
    do
      require_known "faction" faction_id faction_ids
      require_reason reason
      let next = add_i32 (faction_metric world_state faction_id (λ state. state.pressure)) delta
      ensure (within_hundred next) (DeltaValidationError.pressure_out_of_range faction_id next)
