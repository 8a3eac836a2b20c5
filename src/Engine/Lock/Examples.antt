-- ===== src/Engine/Lock/Examples.antt =====
-- The lock at work: two sessions are locked, then the first guard is dropped.
use advanced_roleplaying_fra.Base.{false, [], ◌∷◌, ◌≡◌, refl, inl, inr, ok, err, arith}
use advanced_roleplaying_fra.Engine.Lock.{
  TurnLockError, in_memory, acquire, drop_guard, Turns, Step, Reach, fresh,
}
use advanced_roleplaying_fra.Engine.Lock.Exclusion.{Excludes, Reach-Excludes}
use advanced_roleplaying_fra.Engine.Lock.Release.{acquire-free, acquire-running}

abbrev one_turn : Turns
one_turn = record {
  lock = record { locked_sessions = 3 ∷ []; is_poisoned = false };
  guards = record { session_id = 3 } ∷ [];
}

abbrev two_turns : Turns
two_turns = record {
  lock = record { locked_sessions = 5 ∷ 3 ∷ []; is_poisoned = false };
  guards = record { session_id = 5 } ∷ record { session_id = 3 } ∷ [];
}

abbrev first_over : Turns
first_over = record {
  lock = record { locked_sessions = 5 ∷ []; is_poisoned = false };
  guards = record { session_id = 5 } ∷ [];
}

two_turns-Reach : Reach two_turns
unfolding acquire
two_turns-Reach =
    Reach.later
      (Reach.later Reach.start
        (Step.acquired fresh 3 (record { session_id = 3 }) one_turn.lock refl))
      (Step.acquired one_turn 5 (record { session_id = 5 }) two_turns.lock refl)

first_over-Reach : Reach first_over
unfolding drop_guard
first_over-Reach =
    Reach.later two_turns-Reach
      (Step.dropped two_turns.lock (record { session_id = 5 } ∷ []) [] (record { session_id = 3 }))

Reach-Excludes_example : Excludes two_turns
Reach-Excludes_example = Reach-Excludes two_turns-Reach

acquire-running_example : acquire 3 two_turns.lock ≡ err TurnLockError.already_in_progress
acquire-running_example = acquire-running two_turns-Reach 3 refl (inr (inl refl))

acquire-free_example : acquire 3 first_over.lock ≡ ok (in_memory 3 first_over.lock)
acquire-free_example =
    acquire-free first_over-Reach 3 refl
      (λ o. elim o [ inl e ↦ omega (arith, e) | inr other ↦ other ])
