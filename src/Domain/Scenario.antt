-- ===== src/Domain/Scenario.antt =====
-- crates/domain/src/scenario.rs: the authored scenario, which a session never changes.
use advanced_roleplaying_fra.Base.{ℕ, String, Bool, Option, List}
use advanced_roleplaying_fra.Base.Int.{ℤ}
use advanced_roleplaying_fra.Domain.Ids.{EntityKey, Uuid}

pub data ScenarioType : Type 0 where
  adventure : ScenarioType

pub record Location : Type 0 where
  pub id : EntityKey
  pub name : String
  pub description : String
  pub visible : Bool

pub record RoleIdentity : Type 0 where
  pub core_emotion : String
  pub motivation : String
  pub worldview : String
  pub fear : Option String
  pub desire : Option String
  pub speech_style : String
  pub boundaries : List String
  pub values : List String

pub record CharacterStats : Type 0 where
  pub tags : List String

pub data NpcStatus : Type 0 where
  active injured unconscious missing captured dead hidden unknown : NpcStatus

pub record Npc : Type 0 where
  pub id : EntityKey
  pub name : String
  pub description : String
  pub role_identity : RoleIdentity
  pub stats : Option CharacterStats
  pub initial_status : NpcStatus
  pub initial_location_id : Option EntityKey
  pub initial_visible_to_player : Bool

pub record FactionIdentity : Type 0 where
  pub public_goal : String
  pub hidden_goal : Option String
  pub values : List String
  pub fears : List String
  pub methods : List String

pub record Faction : Type 0 where
  pub id : EntityKey
  pub name : String
  pub description : String
  pub faction_identity : FactionIdentity
  pub initial_standing : ℤ

pub record QuestObjective : Type 0 where
  pub id : EntityKey
  pub title : String
  pub completed : Bool

pub record Quest : Type 0 where
  pub id : EntityKey
  pub title : String
  pub description : String
  pub objectives : List QuestObjective
  pub visible : Bool

pub record RevealCondition : Type 0 where
  pub id : EntityKey
  pub description : String

pub record Secret : Type 0 where
  pub id : EntityKey
  pub text : String
  pub reveal_conditions : List RevealCondition

pub record ClockTemplate : Type 0 where
  pub id : EntityKey
  pub title : String
  pub current : ℕ
  pub max : ℕ
  pub consequence : String

pub record Scenario : Type 0 where
  pub id : Uuid
  pub title : String
  pub scenario_type : ScenarioType
  pub setting : String
  pub tone : String
  pub rules : List String
  pub locations : List Location
  pub factions : List Faction
  pub npcs : List Npc
  pub quests : List Quest
  pub secrets : List Secret
  pub clocks : List ClockTemplate
