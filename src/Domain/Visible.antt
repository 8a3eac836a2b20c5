-- ===== src/Domain/Visible.antt =====
-- crates/domain/src/state.rs: what the frontend is shown of the world state.
use advanced_roleplaying_fra.Base.{ℕ, String, Bool, Option, List}
use advanced_roleplaying_fra.Base.Int.{ℤ}
use advanced_roleplaying_fra.Domain.Ids.{EntityKey}
use advanced_roleplaying_fra.Domain.Scenario.{NpcStatus}
use advanced_roleplaying_fra.Domain.State.{
  ActionOutcome, NpcAvailability, QuestStatus, ConditionRef, PlayerTrait, PlayerGoal,
  PlayerCondition, PlayerResource,
}

pub record EntityRef : Type 0 where
  pub entity_type : String
  pub id : EntityKey

pub record ViewerContext : Type 0 where
  pub include_debug_state : Bool
  pub is_admin : Bool

pub record VisibleLocation : Type 0 where
  pub id : EntityKey
  pub name : String
  pub description : String

pub record VisibleNpc : Type 0 where
  pub id : EntityKey
  pub name : String
  pub description : String
  pub status : NpcStatus
  pub attitude_to_player : Option String
  pub availability : NpcAvailability

pub record VisibleFaction : Type 0 where
  pub id : EntityKey
  pub name : String
  pub standing : ℤ
  pub pressure : ℤ
  pub public_notes : List String
  pub public_pressure_notes : List String
  pub revealed_goals : List String

pub record VisibleRelationship : Type 0 where
  pub source_id : EntityKey
  pub target_id : EntityKey
  pub attitude : ℤ
  pub trust : ℤ
  pub suspicion : ℤ
  pub loyalty : ℤ
  pub notes : List String

pub record VisibleQuest : Type 0 where
  pub id : EntityKey
  pub status : QuestStatus

pub record VisibleClock : Type 0 where
  pub id : EntityKey
  pub title : String
  pub current : ℕ
  pub max : ℕ
  pub consequence : String

pub record VisibleFact : Type 0 where
  pub id : EntityKey
  pub text : String

pub record VisibleActionResolution : Type 0 where
  pub id : EntityKey
  pub intent : String
  pub stakes : List String
  pub outcome : ActionOutcome
  pub consequence : String
  pub linked_clock_ids : List EntityKey

pub record VisibleClue : Type 0 where
  pub id : EntityKey
  pub text : String
  pub satisfied_reveal_conditions : List ConditionRef

pub record VisiblePlayerCharacterState : Type 0 where
  pub traits : List PlayerTrait
  pub goals : List PlayerGoal
  pub conditions : List PlayerCondition
  pub resources : List PlayerResource

pub record VisibleMemory : Type 0 where
  pub id : EntityKey
  pub text : String
  pub importance : ℕ
  pub related_entity_ids : List EntityKey

pub record FrontendVisibleState : Type 0 where
  pub state_version : ℤ
  pub current_location : Option VisibleLocation
  pub active_speaker : Option VisibleNpc
  pub visible_npcs : List VisibleNpc
  pub visible_factions : List VisibleFaction
  pub visible_relationships : List VisibleRelationship
  pub visible_quests : List VisibleQuest
  pub visible_clocks : List VisibleClock
  pub player_known_facts : List VisibleFact
  pub visible_action_resolutions : List VisibleActionResolution
  pub visible_clues : List VisibleClue
  pub player : VisiblePlayerCharacterState
  pub visible_memories : List VisibleMemory
  pub recent_public_events : List String

pub record FrontendStatePatch : Type 0 where
  pub state_version : ℤ
  pub changed_entities : List EntityRef
  pub visible_state : Option FrontendVisibleState
