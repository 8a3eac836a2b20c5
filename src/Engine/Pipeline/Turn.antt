-- ===== src/Engine/Pipeline/Turn.antt =====
-- How a turn runs: a computation on the store, the provider, the lock and the UUIDs drawn so far.
use advanced_roleplaying_fra.Base.{ℕ, ◌+◌, String, Bool, Option, Result, ok, err}
use advanced_roleplaying_fra.Domain.Ids.{Uuid}
use advanced_roleplaying_fra.Domain.Delta.{WorldStateDelta}
use advanced_roleplaying_fra.Engine.Lock.{
  InMemorySessionTurnLock, TurnLockGuard, TurnLockError, acquire, drop_guard,
}
use advanced_roleplaying_fra.Engine.Pipeline.Types.{TurnPipelineError, TurnStateStore}
use advanced_roleplaying_fra.Providers.Request.{LlmRequest, LlmResponse, ProviderError}

-- What the pipeline calls: the store, the provider with states P, `serde_json` and the tables of
-- Unicode, and `Uuid::new_v4`, whose draws are numbered.
pub record Environment (Json S P : Type 0) : Type 0 where
  pub turn_store : TurnStateStore Json S
  pub generate : LlmRequest → P → P × Result (LlmResponse Json) ProviderError
  pub delta_from_str : String → Result WorldStateDelta String
  pub string_from_str : String → Option String
  pub json_string : String → Json
  pub to_lowercase : String → String
  pub is_alphanumeric : ℕ → Bool
  pub new_v4 : ℕ → Uuid

pub record Machine (S P : Type 0) : Type 0 where
  pub store : S
  pub provider : P
  pub turn_lock : InMemorySessionTurnLock
  pub drawn : ℕ

-- A turn stops early with an error, or unwinds from a panic.
pub data Stop : Type 0 where
  error : TurnPipelineError → Stop
  panic : Stop

abbrev pub Turn : Type 0 → Type 0 → Type 0 → Type 0
Turn S P A = Machine S P → Machine S P × Result A Stop

abbrev pub stopping : {A : Type 0} → Result A TurnPipelineError → Result A Stop
stopping (ok value) = ok value
stopping (err e) = err (Stop.error e)

module _ {S P : Type 0} where
  abbrev pub continue_with :
      {A B : Type 0} → (A → Turn S P B) → Machine S P × Result A Stop → Machine S P × Result B Stop
  continue_with next (machine, ok value) = next value machine
  continue_with next (machine, err stop) = (machine, err stop)

  infixl 5 ◌>>=◌ ◌>>◌
  unfoldable pub ◌>>=◌ : {A B : Type 0} → Turn S P A → (A → Turn S P B) → Turn S P B
  (first >>= next) machine = continue_with next (first machine)

  abbrev pub ◌>>◌ : {A B : Type 0} → Turn S P A → Turn S P B → Turn S P B
  first >> next = first >>= λ _. next

  abbrev pub return : {A : Type 0} → A → Turn S P A
  return value = λ machine. (machine, ok value)

  abbrev pub lift : {A : Type 0} → Result A TurnPipelineError → Turn S P A
  lift (ok value) = λ machine. (machine, ok value)
  lift (err e) = λ machine. (machine, err (Stop.error e))

  -- `let _guard = lock.acquire(session_id)?; ..`: the guard is dropped wherever the rest ends.
  abbrev pub release_after :
      {A : Type 0} → TurnLockGuard → Machine S P × Result A Stop → Machine S P × Result A Stop
  release_after guard (machine, result) =
      (record machine { turn_lock = drop_guard guard machine.turn_lock }, result)

  abbrev pub under_guard :
      {A : Type 0}
      → Turn S P A
      → Machine S P
      → Result (TurnLockGuard × InMemorySessionTurnLock) TurnLockError
      → Machine S P × Result A Stop
  under_guard body machine (err e) = (machine, err (Stop.error (TurnPipelineError.lock e)))
  under_guard body machine (ok (guard, lock)) =
      release_after guard (body (record machine { turn_lock = lock }))

  unfoldable pub with_guard : {A : Type 0} → Uuid → Turn S P A → Turn S P A
  with_guard session_id body machine =
      under_guard body machine (acquire session_id machine.turn_lock)

  abbrev pub stored :
      Machine S P → S × Result (Unit {0}) TurnPipelineError → Machine S P × Result (Unit {0}) Stop
  stored machine (store, result) = (record machine { store = store }, stopping result)

module _ {Json S P : Type 0} (env : Environment Json S P) where
  -- `Uuid::new_v4()`.
  unfoldable pub draw : Turn S P Uuid
  draw machine = (record machine { drawn = machine.drawn + 1 }, ok (env.new_v4 machine.drawn))

  abbrev pub answered :
      Machine S P
      → P × Result (LlmResponse Json) ProviderError
      → Machine S P × Result (LlmResponse Json) Stop
  answered machine (provider, ok response) = (record machine { provider = provider }, ok response)
  answered machine (provider, err e) =
      (record machine { provider = provider }, err (Stop.error (TurnPipelineError.provider e)))

  unfoldable pub ask : LlmRequest → Turn S P (LlmResponse Json)
  ask request machine = answered machine (env.generate request machine.provider)
