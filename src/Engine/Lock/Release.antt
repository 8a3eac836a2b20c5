-- ===== src/Engine/Lock/Release.antt =====
-- No lock outlives its guard: while the mutex is sound, a session can be locked exactly when it has
-- no live guard.
use advanced_roleplaying_fra.Base.{
  Bool, true, false, not, List, [], ◌∷◌, ◌++◌, ◌≡◌, ◌≢◌, refl, sym, ◌∙◌, subst, inl, inr, any, keep,
  nat_eq, Bool-cases, All, All-weaken, All-at, OneOf, map, ok, err, arith,
}
use advanced_roleplaying_fra.Domain.Ids.{Uuid}
use advanced_roleplaying_fra.Engine.Lock.{
  TurnLockError, TurnLockGuard, in_memory, acquire, drop_guard, Turns, Step, Reach,
}
use advanced_roleplaying_fra.Engine.Lock.Exclusion.{present, absent, Reach-Excludes, acquire-eq-ok}

abbrev pub session_of : TurnLockGuard → Uuid
session_of guard = guard.session_id

-- The session runs a turn.
abbrev pub Runs : List TurnLockGuard → Uuid → Type 0
Runs guards s = OneOf s (map session_of guards)

All-keep_test :
    {P Q : Uuid → Type 0} (p : Uuid → Bool) (xs : List Uuid)
    → ((x : Uuid) → p x ≡ true → P x → Q x)
    → All P xs
    → All Q (keep p xs)
All-keep_test p [] f h = tt
All-keep_test p (x ∷ xs) f h = elim (Bool-cases (p x)) [
  | inl kept ↦ rw kept (f x kept h.0, All-keep_test p xs f h.1)
  | inr dropped ↦ rw dropped (All-keep_test p xs f h.1)
]

OneOf-middle :
    (before after : List TurnLockGuard) (guard : TurnLockGuard) (s : Uuid)
    → Runs (before ++ guard ∷ after) s
    → guard.session_id ≢ s
    → Runs (before ++ after) s
OneOf-middle [] after guard s (inl e) differ = absurd (differ (sym e))
OneOf-middle [] after guard s (inr o) differ = o
OneOf-middle (x ∷ before) after guard s (inl e) differ = inl e
OneOf-middle (x ∷ before) after guard s (inr o) differ =
    inr (OneOf-middle before after guard s o differ)

-- Every session in the table runs a turn.
abbrev pub IsTight : Turns → Type 0
IsTight t = t.lock.is_poisoned ≡ false → All (Runs t.guards) t.lock.locked_sessions

differ_of : (a s : Uuid) → not (nat_eq a s) ≡ true → a ≢ s
differ_of a s h e = ground arith

Step-IsTight : {t u : Turns} → Step t u → IsTight t → IsTight u
unfolding drop_guard
Step-IsTight (Step.acquired t s guard lock e) h = λ sound.
    let (new, same, table, poison) = acquire-eq-ok s t.lock guard lock e in
    subst (All (Runs (guard ∷ t.guards))) table
      (inl same, All-weaken t.lock.locked_sessions (λ x o. inr o) (h (poison ∙ sound)))
Step-IsTight (Step.refused t s error e) h = h
Step-IsTight (Step.dropped lock before after guard) h = elim (Bool-cases lock.is_poisoned) [
  | inl poisoned ↦ rw poisoned λ sound. cc
  | inr working ↦ rw working λ sound.
      All-keep_test _ lock.locked_sessions
        (λ s kept o. OneOf-middle before after guard s o (differ_of guard.session_id s kept))
        (h working)
]
Step-IsTight (Step.poisons t) h = λ sound. cc

Reach-IsTight : {t : Turns} → Reach t → IsTight t
Reach-IsTight Reach.start = λ sound. tt
Reach-IsTight (Reach.later r step) = Step-IsTight step (Reach-IsTight r)

-- In a reachable state with a sound mutex, a session without a live guard can be locked.
pub acquire-free :
    {t : Turns}
    → Reach t
    → (s : Uuid) → t.lock.is_poisoned ≡ false
    → ¬ Runs t.guards s
    → acquire s t.lock ≡ ok (in_memory s t.lock)
unfolding acquire
acquire-free {t} r s sound free = elim (Bool-cases (any (nat_eq s) t.lock.locked_sessions)) [
  | inl busy ↦ absurd (
      free (
        All-at (Runs t.guards) t.lock.locked_sessions s (Reach-IsTight r sound)
          (present s t.lock.locked_sessions busy)))
  | inr idle ↦ rw (sound, idle) refl
]

running_locked :
    (locked : List Uuid) (guards : List TurnLockGuard) (s : Uuid)
    → All (λ (g : TurnLockGuard). OneOf g.session_id locked) guards
    → Runs guards s
    → OneOf s locked
running_locked locked [] s h o = absurd o
running_locked locked (g ∷ guards) s h (inl e) = subst (λ k. OneOf k locked) (sym e) h.0
running_locked locked (g ∷ guards) s h (inr o) = running_locked locked guards s h.1 o

-- In a reachable state with a sound mutex, a session with a live guard cannot be locked.
pub acquire-running :
    {t : Turns}
    → Reach t
    → (s : Uuid) → t.lock.is_poisoned ≡ false
    → Runs t.guards s
    → acquire s t.lock ≡ err TurnLockError.already_in_progress
unfolding acquire
acquire-running {t} r s sound runs = elim (Bool-cases (any (nat_eq s) t.lock.locked_sessions)) [
  | inl busy ↦ rw (sound, busy) refl
  | inr idle ↦ absurd (
      absent s t.lock.locked_sessions idle s
        (running_locked t.lock.locked_sessions t.guards s (Reach-Excludes r).1 runs) refl)
]
