-- ===== src/Domain/Delta.antt =====
-- crates/domain/src/state.rs: the changes that one turn proposes to the world state.
use advanced_roleplaying_fra.Base.{ℕ, String, Bool, Option, List}
use advanced_roleplaying_fra.Base.Int.{ℤ}
use advanced_roleplaying_fra.Domain.Ids.{EntityKey}
use advanced_roleplaying_fra.Domain.Scenario.{NpcStatus, RevealCondition}
use advanced_roleplaying_fra.Domain.State.{
  MemoryVisibility, FactVisibility, ConditionRef, ActionOutcome, NpcAvailability, InventoryItem,
}

pub data MemoryChange : Type 0 where
  added :
      (text : String) (visibility : MemoryVisibility) (importance : ℕ)
      (related_entity_ids : List EntityKey) (reason : String)
      → MemoryChange
  importance_changed : (memory_id : EntityKey) (importance : ℕ) (reason : String) → MemoryChange

pub record SceneChange : Type 0 where
  pub scene : Option String
  pub reason : String

pub record ActiveSpeakerChange : Type 0 where
  pub speaker_id : Option EntityKey
  pub reason : String

pub record SummaryUpdate : Type 0 where
  pub summary : Option String
  pub reason : String

pub record FactToAdd : Type 0 where
  pub text : String
  pub visibility : FactVisibility
  pub known_by : List EntityKey
  pub reveal_conditions : List RevealCondition
  pub reason : String
  pub related_secret_ids : List EntityKey
  pub reveal_condition_satisfied : Option ConditionRef

pub data ActionResolutionChange : Type 0 where
  recorded :
      (intent : String) (stakes : List String) (outcome : ActionOutcome) (consequence : String)
      (visible_to_player : Bool) (linked_clock_ids : List EntityKey) (reason : String)
      → ActionResolutionChange

pub data NpcChange : Type 0 where
  attitude_changed : (npc_id : EntityKey) (attitude : String) (reason : String) → NpcChange
  knowledge_added :
      (npc_id : EntityKey) (fact : String) (visibility : FactVisibility) (reason : String)
      → NpcChange
  status_changed : (npc_id : EntityKey) (status : NpcStatus) (reason : String) → NpcChange
  location_changed : (npc_id : EntityKey) (location_id : EntityKey) (reason : String) → NpcChange
  note_added : (npc_id : EntityKey) (note : String) (reason : String) → NpcChange
  visibility_changed : (npc_id : EntityKey) (visible_to_player : Bool) (reason : String) → NpcChange
  availability_changed :
      (npc_id : EntityKey) (availability : NpcAvailability) (reason : String) → NpcChange
  intent_changed : (npc_id : EntityKey) (intent : Option String) (reason : String) → NpcChange
  offscreen_action_recorded :
      (npc_id : EntityKey) (intent : String) (result : String) (visible_to_player : Bool)
      (reason : String)
      → NpcChange

pub data FactionChange : Type 0 where
  standing_changed : (faction_id : EntityKey) (standing_delta : ℤ) (reason : String) → FactionChange
  goal_revealed : (faction_id : EntityKey) (goal : String) (reason : String) → FactionChange
  public_note_added : (faction_id : EntityKey) (note : String) (reason : String) → FactionChange
  hidden_note_added : (faction_id : EntityKey) (note : String) (reason : String) → FactionChange
  pressure_changed :
      (faction_id : EntityKey) (delta : ℤ) (public : Bool) (reason : String) → FactionChange
  public_pressure_note_added :
      (faction_id : EntityKey) (note : String) (reason : String) → FactionChange
  hidden_pressure_note_added :
      (faction_id : EntityKey) (note : String) (reason : String) → FactionChange

pub data ClockChange : Type 0 where
  advanced : (clock_id : EntityKey) (delta : ℤ) (reason : String) → ClockChange
  set_value : (clock_id : EntityKey) (value : ℕ) (reason : String) → ClockChange
  visibility_changed :
      (clock_id : EntityKey) (visible_to_player : Bool) (reason : String) → ClockChange

pub data QuestChange : Type 0 where
  started : (quest_id : EntityKey) (reason : String) → QuestChange
  objective_completed :
      (quest_id : EntityKey) (objective_id : EntityKey) (reason : String) → QuestChange
  completed : (quest_id : EntityKey) (reason : String) → QuestChange
  failed : (quest_id : EntityKey) (reason : String) → QuestChange

pub data RelationshipChange : Type 0 where
  changed :
      (source_id : EntityKey) (target_id : EntityKey) (attitude_delta : ℤ) (reason : String)
      → RelationshipChange
  note_added :
      (source_id : EntityKey) (target_id : EntityKey) (note : String) (reason : String)
      → RelationshipChange
  trust_changed :
      (source_id : EntityKey) (target_id : EntityKey) (delta : ℤ) (reason : String)
      → RelationshipChange
  suspicion_changed :
      (source_id : EntityKey) (target_id : EntityKey) (delta : ℤ) (reason : String)
      → RelationshipChange
  loyalty_changed :
      (source_id : EntityKey) (target_id : EntityKey) (delta : ℤ) (reason : String)
      → RelationshipChange

pub data InventoryChange : Type 0 where
  added : (item : InventoryItem) (reason : String) → InventoryChange
  removed : (item_id : EntityKey) (reason : String) → InventoryChange
  updated : (item : InventoryItem) (reason : String) → InventoryChange

pub data PlayerChange : Type 0 where
  trait_added :
      (trait_id : EntityKey) (label : String) (description : String) (visible_to_player : Bool)
      (reason : String)
      → PlayerChange
  goal_added :
      (goal_id : EntityKey) (label : String) (description : String) (progress : ℤ)
      (visible_to_player : Bool) (reason : String)
      → PlayerChange
  goal_progressed : (goal_id : EntityKey) (delta : ℤ) (reason : String) → PlayerChange
  condition_added :
      (condition_id : EntityKey) (label : String) (description : String) (visible_to_player : Bool)
      (reason : String)
      → PlayerChange
  condition_cleared : (condition_id : EntityKey) (reason : String) → PlayerChange
  resource_changed : (resource_id : EntityKey) (delta : ℤ) (reason : String) → PlayerChange
  gm_note_added : (note : String) (reason : String) → PlayerChange

pub data ClueChange : Type 0 where
  discovered :
      (clue_id : EntityKey) (text : String) (linked_secret_ids : List EntityKey)
      (satisfied_reveal_conditions : List ConditionRef) (visible_to_player : Bool) (reason : String)
      → ClueChange
  visibility_changed :
      (clue_id : EntityKey) (visible_to_player : Bool) (reason : String) → ClueChange

pub record LocationChange : Type 0 where
  pub location_id : EntityKey
  pub reason : String

pub record WorldStateDelta : Type 0 where
  pub scene_change : Option SceneChange
  pub active_speaker_change : Option ActiveSpeakerChange
  pub facts_to_add : List FactToAdd
  pub action_resolution_changes : List ActionResolutionChange
  pub npc_changes : List NpcChange
  pub faction_changes : List FactionChange
  pub quest_changes : List QuestChange
  pub clock_changes : List ClockChange
  pub relationship_changes : List RelationshipChange
  pub inventory_changes : List InventoryChange
  pub player_changes : List PlayerChange
  pub clue_changes : List ClueChange
  pub location_change : Option LocationChange
  pub summary_update : Option SummaryUpdate
  pub memory_changes : List MemoryChange
  pub event_log_entries : List String
