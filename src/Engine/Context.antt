-- ===== src/Engine/Context.antt =====
-- crates/engine/src/context.rs: the part of the scenario and of the world state that a turn's
-- prompts are written from.
use advanced_roleplaying_fra.Base.{String, Bool, Option, List}
use advanced_roleplaying_fra.Domain.Scenario.{Scenario, Location, Npc, NpcStatus, Faction}
use advanced_roleplaying_fra.Domain.State.{
  WorldState, FactionState, RelationshipState, QuestState, ClockState, ActionResolution, ClueState,
  PlayerCharacterState, Fact, MemoryEntry, SceneReasoningStyle, TurnMode,
}
pub mod Role
pub mod Speaker
pub mod Memories
pub mod Ranking
pub mod Build
pub mod Forget
pub mod Examples

pub record RoleActivationContext : Type 0 where
  pub active_role_name : Option String
  pub emotion_now : Option String
  pub motivation_now : Option String
  pub knowledge_boundaries : List String
  pub forbidden_moves : List String
  pub speech_constraints : List String

pub record ReasoningStyleDirective : Type 0 where
  pub style : SceneReasoningStyle
  pub priorities : List String
  pub avoid : List String
  pub visible_response_shape : String

pub record NpcContext : Type 0 where
  pub npc : Npc
  pub status : NpcStatus
  pub attitude_to_player : Option String

pub record OffscreenNpcActivity : Type 0 where
  pub npc_name : String
  pub intent : String
  pub result : String
  pub visible_to_player : Bool

pub record FactionContext : Type 0 where
  pub faction : Faction
  pub state : Option FactionState

pub record MessageContext : Type 0 where
  pub role : String
  pub content : String

pub record AgentContext : Type 0 where
  pub scenario_title : String
  pub setting_summary : String
  pub current_location : Option Location
  pub active_role : RoleActivationContext
  pub scene_directive : ReasoningStyleDirective
  pub relevant_npcs : List NpcContext
  pub offscreen_npc_activity : List OffscreenNpcActivity
  pub relevant_factions : List FactionContext
  pub relevant_relationships : List RelationshipState
  pub active_quests : List QuestState
  pub active_clocks : List ClockState
  pub recent_action_resolutions : List ActionResolution
  pub visible_clues : List ClueState
  pub player_state : PlayerCharacterState
  pub player_known_facts : List Fact
  pub gm_only_facts : List Fact
  pub player_memories : List MemoryEntry
  pub gm_only_memories : List MemoryEntry
  pub recent_summary : Option String
  pub recent_messages : List MessageContext
  pub rules : List String
  pub mode : Option TurnMode

pub record BuildContextInput : Type 0 where
  pub scenario : Scenario
  pub world_state : WorldState
  pub active_role : RoleActivationContext
  pub scene_directive : ReasoningStyleDirective
  pub recent_messages : List MessageContext
  pub mode : Option TurnMode
