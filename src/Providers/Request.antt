-- ===== src/Providers/Request.antt =====
-- crates/providers/src/provider.rs: what a provider is asked.
use advanced_roleplaying_fra.Base.{ℕ, String, Bool, true, false, ◌||◌, Option, List, nat_eq, leb}

pub data LlmMessageRole : Type 0 where
  system user assistant : LlmMessageRole

abbrev pub as_openai_role : LlmMessageRole → String
as_openai_role LlmMessageRole.system = "system"
as_openai_role LlmMessageRole.user = "user"
as_openai_role LlmMessageRole.assistant = "assistant"

pub record LlmMessage : Type 0 where
  pub role : LlmMessageRole
  pub content : String

-- A temperature is counted in tenths.
pub record LlmRequest : Type 0 where
  pub messages : List LlmMessage
  pub temperature : Option ℕ
  pub max_tokens : Option ℕ
  pub json_mode : Bool

pub record TokenUsage : Type 0 where
  pub prompt_tokens : ℕ
  pub completion_tokens : ℕ
  pub total_tokens : ℕ

-- `serde_json::Value` is a type that the record takes; an `f64` is its 64 bits.
pub record LlmResponse (Json : Type 0) : Type 0 where
  pub text : String
  pub raw_json : Option Json
  pub usage : Option TokenUsage
  pub cost_usd : Option ℕ
  pub generation_id : Option String

pub data ProviderError : Type 0 where
  transport : (message : String) → ProviderError
  timeout stream_idle_timeout rate_limit : ProviderError
  status : (code : ℕ) (body : String) → ProviderError
  malformed_response : (message : String) → ProviderError
  streaming_unsupported no_mock_response : ProviderError
  unsupported : (capability : String) → ProviderError

unfoldable pub is_retryable : ProviderError → Bool
is_retryable (ProviderError.transport message) = true
is_retryable ProviderError.timeout = true
is_retryable ProviderError.stream_idle_timeout = true
is_retryable ProviderError.rate_limit = true
is_retryable (ProviderError.status code body) = nat_eq code 429 || leb 500 code
is_retryable (ProviderError.malformed_response message) = false
is_retryable ProviderError.streaming_unsupported = false
is_retryable ProviderError.no_mock_response = false
is_retryable (ProviderError.unsupported capability) = false
