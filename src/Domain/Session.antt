-- ===== src/Domain/Session.antt =====
-- crates/domain/src/state.rs and crates/persistence/src/repositories.rs: what is kept of a session
-- besides its world state. `serde_json::Value` is a type that the records take.
use advanced_roleplaying_fra.Base.{String, Bool, Option}
use advanced_roleplaying_fra.Base.Int.{ℤ}
use advanced_roleplaying_fra.Domain.Ids.{EntityKey, Uuid}
use advanced_roleplaying_fra.Domain.State.{SceneReasoningStyle}

pub data MessageRole : Type 0 where
  user assistant system : MessageRole

pub record MessageRecord (Json : Type 0) : Type 0 where
  pub id : Uuid
  pub session_id : Uuid
  pub role : MessageRole
  pub speaker_id : Option EntityKey
  pub content : String
  pub scene_type : Option SceneReasoningStyle
  pub prompt_template_version : Option String
  pub raw_provider_output : Option Json

pub record SessionRecord : Type 0 where
  pub id : Uuid
  pub scenario_id : Uuid
  pub title : String
  pub status : String
  pub provider_id : Option Uuid

pub record EventRecord : Type 0 where
  pub id : Uuid
  pub session_id : Uuid
  pub event_type : String
  pub description : String

pub record TimelineEntry : Type 0 where
  pub kind : String
  pub description : String
  pub message_id : Option Uuid
  pub event_id : Option Uuid
  pub world_state_version : Option ℤ

pub record ProviderRecord (Json : Type 0) : Type 0 where
  pub id : Uuid
  pub name : String
  pub provider_type : String
  pub base_url : String
  pub model : String
  pub api_key_secret_ref : Option String
  pub capabilities : Json
  pub is_default : Bool
