-- ===== src/Domain/State.antt =====
-- crates/domain/src/state.rs: the world state of a session.
use advanced_roleplaying_fra.Base.{ℕ, String, Bool, Option, List}
use advanced_roleplaying_fra.Base.Int.{ℤ}
use advanced_roleplaying_fra.Domain.Ids.{EntityKey, Uuid}
use advanced_roleplaying_fra.Domain.Scenario.{NpcStatus, RevealCondition}

pub data MatchMode : Type 0 where
  exact : MatchMode

pub record ConditionRef : Type 0 where
  pub id : EntityKey
  pub mode : MatchMode

pub data FactVisibility : Type 0 where
  player_known gm_only npc_known faction_known : FactVisibility

pub data FactSource : Type 0 where
  scenario turn player_correction system : FactSource

pub record Fact : Type 0 where
  pub id : EntityKey
  pub text : String
  pub visibility : FactVisibility
  pub known_by : List EntityKey
  pub source : FactSource
  pub reveal_conditions : List RevealCondition
  pub related_secret_ids : List EntityKey
  pub reveal_condition_satisfied : Option ConditionRef

pub data NpcAvailability : Type 0 where
  present nearby offscreen unavailable : NpcAvailability

pub record OffscreenAction : Type 0 where
  pub intent : String
  pub result : String
  pub visible_to_player : Bool

pub record NpcState : Type 0 where
  pub npc_id : EntityKey
  pub status : NpcStatus
  pub visible_to_player : Bool
  pub location_id : Option EntityKey
  pub attitude_to_player : Option String
  pub known_facts : List EntityKey
  pub notes : List String
  pub availability : NpcAvailability
  pub current_intent : Option String
  pub offscreen_actions : List OffscreenAction

pub record FactionState : Type 0 where
  pub faction_id : EntityKey
  pub standing : ℤ
  pub public_notes : List String
  pub hidden_notes : List String
  pub revealed_goals : List String
  pub pressure : ℤ
  pub public_pressure_notes : List String
  pub hidden_pressure_notes : List String

pub data QuestStatus : Type 0 where
  available active completed failed hidden : QuestStatus

pub record QuestState : Type 0 where
  pub quest_id : EntityKey
  pub status : QuestStatus
  pub completed_objectives : List EntityKey
  pub visible : Bool

pub record ClockState : Type 0 where
  pub id : EntityKey
  pub title : String
  pub current : ℕ
  pub max : ℕ
  pub consequence : String
  pub visible_to_player : Bool

pub record RelationshipState : Type 0 where
  pub source_id : EntityKey
  pub target_id : EntityKey
  pub attitude : ℤ
  pub notes : List String
  pub trust : ℤ
  pub suspicion : ℤ
  pub loyalty : ℤ

pub data ActionOutcome : Type 0 where
  success success_with_cost partial failure : ActionOutcome

pub record ActionResolution : Type 0 where
  pub id : EntityKey
  pub intent : String
  pub stakes : List String
  pub outcome : ActionOutcome
  pub consequence : String
  pub visible_to_player : Bool
  pub linked_clock_ids : List EntityKey

pub record PlayerTrait : Type 0 where
  pub id : EntityKey
  pub label : String
  pub description : String
  pub visible_to_player : Bool

pub record PlayerGoal : Type 0 where
  pub id : EntityKey
  pub label : String
  pub description : String
  pub progress : ℤ
  pub visible_to_player : Bool

pub record PlayerCondition : Type 0 where
  pub id : EntityKey
  pub label : String
  pub description : String
  pub visible_to_player : Bool

pub record PlayerResource : Type 0 where
  pub id : EntityKey
  pub label : String
  pub current : ℤ
  pub min : ℤ
  pub max : ℤ
  pub visible_to_player : Bool

pub record PlayerCharacterState : Type 0 where
  pub traits : List PlayerTrait
  pub goals : List PlayerGoal
  pub conditions : List PlayerCondition
  pub resources : List PlayerResource
  pub gm_notes : List String

pub record ClueState : Type 0 where
  pub id : EntityKey
  pub text : String
  pub linked_secret_ids : List EntityKey
  pub satisfied_reveal_conditions : List ConditionRef
  pub visible_to_player : Bool

pub record InventoryItem : Type 0 where
  pub id : EntityKey
  pub name : String
  pub description : String
  pub visible : Bool

pub data MemoryVisibility : Type 0 where
  player_known gm_only : MemoryVisibility

pub record MemoryEntry : Type 0 where
  pub id : EntityKey
  pub text : String
  pub visibility : MemoryVisibility
  pub importance : ℕ
  pub related_entity_ids : List EntityKey
  pub source_message_id : Option Uuid

pub data SceneReasoningStyle : Type 0 where
  character_dialogue emotional_scene political_negotiation mystery_investigation tactical_combat
        world_simulation rules_adjudication travel_exploration downtime quest_resolution :
      SceneReasoningStyle

pub data TurnMode : Type 0 where
  dialogue action direct remember : TurnMode

pub record WorldState : Type 0 where
  pub session_id : Uuid
  pub scenario_id : Uuid
  pub version : ℤ
  pub current_location_id : Option EntityKey
  pub current_scene : Option String
  pub active_speaker_id : Option EntityKey
  pub facts : List Fact
  pub npcs : List NpcState
  pub factions : List FactionState
  pub quests : List QuestState
  pub clocks : List ClockState
  pub action_resolutions : List ActionResolution
  pub relationships : List RelationshipState
  pub inventory : List InventoryItem
  pub player : PlayerCharacterState
  pub clues : List ClueState
  pub memories : List MemoryEntry
  pub summary : Option String
  pub recent_events : List String
