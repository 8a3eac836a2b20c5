-- ===== src/Providers/Retry.antt =====
-- crates/providers/src/http.rs: `with_retries`, as a computation on the state of the operation, with
-- the delays between its attempts in milliseconds.
use advanced_roleplaying_fra.Base.{
  ℕ, zero, suc, ◌+◌, ◌*◌, ◌%◌, ◌^◌, ◌≤◌, ◌≡◌, ◌⊎◌, inl, inr, arith, false, not, List, [], ◌∷◌,
  length, leb, nat_eq, nat_eq_iff, if◌then◌else◌, Bool-cases, Result, ok, err, All,
}
use advanced_roleplaying_fra.Providers.Request.{ProviderError, is_retryable}

abbrev pub min : ℕ → ℕ → ℕ
min a b = if leb a b then a else b

-- `min(100 * (1u64 << attempt), 2000)`: the shift takes its amount modulo 64, and the product wraps
-- around.
unfoldable pub delay_ms : ℕ → ℕ
delay_ms attempt = min (100 * 2 ^ (attempt % 64) % 2 ^ 64) 2000

-- What is left of the operation, the delays, and the result.
pub record Retried (M T : Type 0) : Type 0 where
  pub state : M
  pub delays : List ℕ
  pub result : Result T ProviderError

abbrev pub waited : {M T : Type 0} → ℕ → Retried M T → Retried M T
waited delay retried = record retried { delays = delay ∷ retried.delays }

module _ {M T : Type 0} (op : M → M × Result T ProviderError) where
  abbrev pub stop_with : M → Result T ProviderError → Retried M T
  stop_with state result = record { state = state; delays = []; result = result }

  -- After an attempt: `max_attempts` and the number of the attempt tell whether it is the last one.
  abbrev pub next_attempt :
      ℕ → ℕ → (M → ProviderError → Retried M T) → M × Result T ProviderError → Retried M T
  next_attempt max_attempts attempt again (state, ok value) = stop_with state (ok value)
  next_attempt max_attempts attempt again (state, err error) =
      if not (is_retryable error)
      then stop_with state (err error)
      else if nat_eq (attempt + 1) max_attempts
      then stop_with state (err error)
      else waited (delay_ms attempt) (again state error)

  -- `for attempt in 0..max_attempts`, with the attempts that are left.
  unfoldable pub attempts : ℕ → ℕ → ℕ → M → ProviderError → Retried M T
  attempts zero max_attempts attempt state last_error = stop_with state (err last_error)
  attempts (suc left) max_attempts attempt state last_error =
      next_attempt max_attempts attempt (attempts left max_attempts (attempt + 1)) (op state)

  unfoldable pub with_retries : ℕ → M → Retried M T
  unfolding attempts
  with_retries max_retries state =
      attempts (max_retries + 1) (max_retries + 1) 0 state
        (ProviderError.transport "no attempt made")

-- The operation, with the number of its calls.
abbrev pub count_call :
    {M T : Type 0} → ℕ → M × Result T ProviderError → (ℕ × M) × Result T ProviderError
count_call calls (state, result) = ((calls + 1, state), result)

abbrev pub counted :
    {M T : Type 0} → (M → M × Result T ProviderError) → ℕ × M → (ℕ × M) × Result T ProviderError
counted op (calls, state) = count_call calls (op state)

delay_ms-le : (attempt : ℕ) → delay_ms attempt ≤ 2000
unfolding delay_ms
delay_ms-le attempt = go (100 * 2 ^ (attempt % 64) % 2 ^ 64)
  where
    go : (d : ℕ) → min d 2000 ≤ 2000
    go d = ground arith

-- An error ends the attempts only where another would not help, or none is left.
abbrev pub GivesUp : {T : Type 0} → ℕ → ℕ → Result T ProviderError → Type 0
GivesUp calls limit (ok value) = Unit
GivesUp calls limit (err error) = (is_retryable error ≡ false) ⊎ (calls ≡ limit)

-- From `calls` calls on, between one and `left` further calls were made, each but the first of them
-- after a delay of at most two seconds.
abbrev pub Bounded : {M T : Type 0} → ℕ → ℕ → ℕ → Retried (ℕ × M) T → Type 0
Bounded calls left limit retried =
    (calls + 1 ≤ (retried.state).0)
    × ((retried.state).0 ≤ calls + left)
    × (calls + 1 + length retried.delays ≡ (retried.state).0)
    × All (λ d. d ≤ 2000) retried.delays
    × GivesUp ((retried.state).0) limit retried.result

module _ {M T : Type 0} (op : M → M × Result T ProviderError) where
  -- The attempts after a failed one, seen from the one before.
  waited-Bounded :
      (calls left limit : ℕ) (retried : Retried (ℕ × M) T)
      → Bounded (calls + 1) left limit retried
      → Bounded calls (suc left) limit (waited (delay_ms calls) retried)
  waited-Bounded calls left limit retried (least, most, delays, short, gives_up) =
      (omega arith, omega arith, omega arith, (delay_ms-le calls, short), gives_up)

  -- One attempt, with what the further ones give.
  next_attempt-Bounded :
      (left calls limit : ℕ) (again : ℕ × M → ProviderError → Retried (ℕ × M) T)
      → (nat_eq (calls + 1) limit ≡ false
          → (state : M) (error : ProviderError)
          → Bounded (calls + 1) left limit (again (calls + 1, state) error))
      → (outcome : M × Result T ProviderError)
      → Bounded calls
          (suc left)
          limit
          (next_attempt (counted op) limit calls again (count_call calls outcome))
  next_attempt-Bounded left calls limit again further (next, ok value) =
      (omega arith, omega arith, omega arith, tt, tt)
  next_attempt-Bounded left calls limit again further (next, err error) =
      elim (Bool-cases (is_retryable error)) [
        | inl passing ↦ elim (Bool-cases (nat_eq (calls + 1) limit)) [
          | inl last ↦
              let stops = (nat_eq_iff (calls + 1) limit).0 last in
              rw passing (rw last (omega arith, omega arith, omega arith, tt, inr stops))
          | inr more ↦
              let rest = further more next error in
              rw passing
                (rw more (waited-Bounded calls left limit (again (calls + 1, next) error) rest))
        ]
        | inr final ↦ rw final (omega arith, omega arith, omega arith, tt, inl final)
      ]

  attempts-Bounded :
      (left calls limit : ℕ) (state : M) (last_error : ProviderError)
      → calls + suc left ≡ limit
      → Bounded calls
          (suc left)
          limit
          (attempts (counted op) (suc left) limit calls (calls, state) last_error)
  unfolding attempts
  attempts-Bounded zero calls limit state last_error is_limit =
      next_attempt-Bounded zero calls limit (attempts (counted op) zero limit (calls + 1)) none_left
        (op state)
    where
      none_left :
          nat_eq (calls + 1) limit ≡ false
          → (next : M) (error : ProviderError)
          → Bounded
              (calls + 1)
              zero
              limit
              (attempts (counted op) zero limit (calls + 1) (calls + 1, next) error)
      none_left more next error = ground arith
  attempts-Bounded (suc left) calls limit state last_error is_limit =
      next_attempt-Bounded (suc left) calls limit
        (attempts (counted op) (suc left) limit (calls + 1))
        (λ more next error. attempts-Bounded left (calls + 1) limit next error (omega arith))
        (op state)

  -- An operation that may fail is called at least once and at most `max_retries + 1` times, with a
  -- delay of at most two seconds before each further call; it ends in an error only where that error
  -- is not worth another call, or all calls were made.
  pub with_retries-Bounded :
      (max_retries : ℕ) (state : M)
      → Bounded 0
          (max_retries + 1)
          (max_retries + 1)
          (with_retries (counted op) max_retries (0, state))
  unfolding with_retries
  with_retries-Bounded max_retries state = from (max_retries + 1) (omega arith)
    where
      from :
          (total : ℕ)
          → total ≡ suc max_retries
          → Bounded 0 total total (
              attempts
                (counted op)
                total
                total
                0
                (0, state)
                (ProviderError.transport "no attempt made"))
      from zero counts = omega arith
      from (suc left) counts =
          attempts-Bounded left 0 (suc left) state (ProviderError.transport "no attempt made")
            (omega arith)
