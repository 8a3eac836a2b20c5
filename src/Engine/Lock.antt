-- ===== src/Engine/Lock.antt =====
-- crates/engine/src/lock.rs: the lock that lets a session run one turn at a time, in memory.
use advanced_roleplaying_fra.Base.{
  ℕ, String, Bool, true, false, not, List, [], ◌∷◌, ◌++◌, ◌≡◌, any, keep, nat_eq, if◌then◌else◌,
  Result, ok, err,
}
use advanced_roleplaying_fra.Domain.Ids.{Uuid}
pub mod Exclusion
pub mod Release
pub mod Examples

pub data TurnLockError : Type 0 where
  already_in_progress poisoned : TurnLockError
  store : (message : String) → TurnLockError

-- `Arc<Mutex<HashSet<SessionId>>>`, which all clones and guards share. A thread that panics while
-- it holds the mutex leaves it poisoned.
pub record InMemorySessionTurnLock : Type 0 where
  pub locked_sessions : List Uuid
  pub is_poisoned : Bool

-- What `TurnLockGuard::in_memory` captures for its release function.
pub record TurnLockGuard : Type 0 where
  pub session_id : Uuid

-- The session is inserted into the table, and its guard made.
abbrev pub in_memory : Uuid → InMemorySessionTurnLock → TurnLockGuard × InMemorySessionTurnLock
in_memory session_id lock = (
  record { session_id = session_id },
  record lock { locked_sessions = session_id ∷ lock.locked_sessions },
)

unfoldable pub acquire :
    Uuid → InMemorySessionTurnLock → Result (TurnLockGuard × InMemorySessionTurnLock) TurnLockError
acquire session_id lock =
    if lock.is_poisoned
    then err TurnLockError.poisoned
    else if any (nat_eq session_id) lock.locked_sessions
    then err TurnLockError.already_in_progress
    else ok (in_memory session_id lock)

-- `Drop`: the release function removes the session, unless the mutex is poisoned.
unfoldable pub drop_guard : TurnLockGuard → InMemorySessionTurnLock → InMemorySessionTurnLock
drop_guard guard lock = if lock.is_poisoned then lock else record lock {
  locked_sessions = keep (λ s. not (nat_eq guard.session_id s)) lock.locked_sessions;
}

-- The lock, and the guards that are alive.
pub record Turns : Type 0 where
  pub lock : InMemorySessionTurnLock
  pub guards : List TurnLockGuard

-- What threads do to the lock, in any order. A guard is dropped once, wherever it stands.
pub data Step : Turns → Turns → Type 0 where
  acquired :
      (t : Turns) (session_id : Uuid) (guard : TurnLockGuard) (lock : InMemorySessionTurnLock)
      → acquire session_id t.lock ≡ ok (guard, lock)
      → Step t (record { lock = lock; guards = guard ∷ t.guards })
  refused :
      (t : Turns) (session_id : Uuid) (error : TurnLockError)
      → acquire session_id t.lock ≡ err error
      → Step t t
  dropped :
      (lock : InMemorySessionTurnLock) (before after : List TurnLockGuard) (guard : TurnLockGuard)
      → Step
          (record { lock = lock; guards = before ++ guard ∷ after })
          (record { lock = drop_guard guard lock; guards = before ++ after })
  poisons : (t : Turns) → Step t (record t { lock = record t.lock { is_poisoned = true } })

abbrev pub fresh : Turns
fresh = record { lock = record { locked_sessions = []; is_poisoned = false }; guards = [] }

pub data Reach : Turns → Type 0 where
  start : Reach fresh
  later : {t u : Turns} → Reach t → Step t u → Reach u
