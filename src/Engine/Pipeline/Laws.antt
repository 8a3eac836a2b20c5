-- ===== src/Engine/Pipeline/Laws.antt =====
-- What a turn relies on its store for, and how that carries over to the computations of a turn.
use advanced_roleplaying_fra.Base.{
  ℕ, ◌≡◌, ◌≢◌, ◌⊎◌, refl, sym, ap, ◌∙◌, String, Bool, true, false, Option, none, List, [], ◌∷◌,
  ◌++◌, take, keep, Result, ok, err,
}
use advanced_roleplaying_fra.Engine.Context.Build.{rev}
use advanced_roleplaying_fra.Domain.Ids.{Uuid}
use advanced_roleplaying_fra.Domain.State.{WorldState}
use advanced_roleplaying_fra.Domain.Session.{MessageRecord, MessageRole}
use advanced_roleplaying_fra.Engine.Lock.{
  TurnLockGuard, InMemorySessionTurnLock, TurnLockError, acquire,
}
use advanced_roleplaying_fra.Engine.Validated.{ValidatedWorldStateDelta}
use advanced_roleplaying_fra.Engine.Pipeline.Types.{
  TurnPipelineError, LoadedTurnState, TurnStateStore,
}
use advanced_roleplaying_fra.Engine.Pipeline.Turn.{
  Machine, Stop, Turn, continue_with, ◌>>=◌, return, lift, with_guard, release_after, under_guard,
}

-- Events do not touch what turns load, and a turn that is stored is loaded by the next one. None of
-- these operations fails.
pub record KeepsTurns {Json S : Type 0} (turn_store : TurnStateStore Json S) : Type 0 where
  pub events_kept :
      (id session_id other : Uuid) (event_type description : String) (store : S)
      → turn_store.load_turn_state
          ((turn_store.persist_pipeline_event id session_id event_type description store).0)
          other
        ≡ turn_store.load_turn_state store other
  pub events_succeed :
      (id session_id : Uuid) (event_type description : String) (store : S)
      → (turn_store.persist_pipeline_event id session_id event_type description store).1 ≡ ok tt
  pub errors_kept :
      (id session_id other : Uuid) (description : String) (store : S)
      → turn_store.load_turn_state
          ((turn_store.persist_error_event id session_id description store).0)
          other
        ≡ turn_store.load_turn_state store other
  pub turns_succeed :
      (ids : ℕ → Uuid) (user_message assistant_message : MessageRecord Json)
      (delta : ValidatedWorldStateDelta) (updated : WorldState) (store : S)
      → (turn_store.persist_successful_turn ids user_message assistant_message delta updated
          store).1
        ≡ ok tt
  pub turns_stored :
      (ids : ℕ → Uuid) (user_message assistant_message : MessageRecord Json)
      (delta : ValidatedWorldStateDelta) (updated : WorldState) (store : S)
      (loaded : LoadedTurnState Json)
      → turn_store.load_turn_state store updated.session_id ≡ ok loaded
      → (messages : _) × (turn_store.load_turn_state
            ((turn_store.persist_successful_turn ids user_message assistant_message delta updated
              store).0)
            updated.session_id
          ≡ ok (record loaded { world_state = updated; recent_messages = messages }))

abbrev pub last_six {ℓ} : {A : Type ℓ} → List A → List A
last_six messages = rev (take 6 (rev messages))

abbrev pub is_spoken : {Json : Type 0} → MessageRecord Json → Bool
is_spoken message = elim (message.role) [ MessageRole.system ↦ false | _ ↦ true ]

-- What one turn hands on to the next: its world state, and its two messages behind those that it
-- was given itself, the last six of them all, without those of the system. The provider's raw output
-- may be left out of the answer. Other sessions are left alone.
pub record HandsOn {Json S : Type 0} (turn_store : TurnStateStore Json S) : Type 0 where
  pub turns_handed_on :
      (ids : ℕ → Uuid) (user_message assistant_message : MessageRecord Json)
      (delta : ValidatedWorldStateDelta) (updated : WorldState) (store : S)
      (loaded : LoadedTurnState Json)
      → turn_store.load_turn_state store updated.session_id ≡ ok loaded
      → (raw : Option Json) × ((raw ≡ assistant_message.raw_provider_output) ⊎ (raw ≡ none))
        × (turn_store.load_turn_state
              ((turn_store.persist_successful_turn ids user_message assistant_message delta updated
                store).0)
              updated.session_id
            ≡ ok (record loaded {
              world_state = updated;
              recent_messages = last_six (
                  loaded.recent_messages
                  ++ keep is_spoken
                      (user_message ∷ record assistant_message { raw_provider_output = raw } ∷ []));
            }))
  pub others_kept :
      (ids : ℕ → Uuid) (user_message assistant_message : MessageRecord Json)
      (delta : ValidatedWorldStateDelta) (updated : WorldState) (store : S) (other : Uuid)
      → other ≢ updated.session_id
      → turn_store.load_turn_state
          ((turn_store.persist_successful_turn ids user_message assistant_message delta updated
            store).0)
          other
        ≡ turn_store.load_turn_state store other

module _ {Json S P : Type 0} (turn_store : TurnStateStore Json S) where
  -- What the store gives for each session.
  abbrev pub SameLoads : Machine S P → Machine S P → Type 0
  SameLoads after before =
      (session_id : Uuid)
      → turn_store.load_turn_state after.store session_id
        ≡ turn_store.load_turn_state before.store session_id

  pub record Keeps {A : Type 0} (turn : Turn S P A) : Type 0 where
    pub keeps : (machine : Machine S P) → SameLoads ((turn machine).0) machine

  -- A turn that stops early changes nothing that is loaded.
  pub record KeepsUnlessOk {A : Type 0} (turn : Turn S P A) : Type 0 where
    pub keeps :
        (machine : Machine S P) (stop : Stop)
        → (turn machine).1 ≡ err stop
        → SameLoads ((turn machine).0) machine

  pub Keeps->>= :
      {A B : Type 0} {first : Turn S P A} {next : A → Turn S P B}
      → Keeps first
      → ((value : A) → Keeps (next value))
      → Keeps (first >>= next)
  unfolding ◌>>=◌
  Keeps->>= {A = A} {first = first} {next = next} kept later = record {
    keeps = λ machine session_id. after session_id (first machine) ∙ kept.keeps machine session_id;
  }
    where
      after :
          (session_id : Uuid) (outcome : Machine S P × Result A Stop)
          → turn_store.load_turn_state ((continue_with next outcome).0).store session_id
            ≡ turn_store.load_turn_state (outcome.0).store session_id
      after session_id (reached, ok value) = (later value).keeps reached session_id
      after session_id (reached, err stop) = refl

  pub KeepsUnlessOk->>= :
      {A B : Type 0} {first : Turn S P A} {next : A → Turn S P B}
      → Keeps first
      → ((value : A) → KeepsUnlessOk (next value))
      → KeepsUnlessOk (first >>= next)
  unfolding ◌>>=◌
  KeepsUnlessOk->>= {A = A} {first = first} {next = next} kept later = record {
    keeps = λ machine stop failed session_id.
        after stop session_id (first machine) failed ∙ kept.keeps machine session_id;
  }
    where
      after :
          (stop : Stop) (session_id : Uuid) (outcome : Machine S P × Result A Stop)
          → (continue_with next outcome).1 ≡ err stop
          → turn_store.load_turn_state ((continue_with next outcome).0).store session_id
            ≡ turn_store.load_turn_state (outcome.0).store session_id
      after stop session_id (reached, ok value) h = (later value).keeps reached stop h session_id
      after stop session_id (reached, err other) h = refl

  -- An operation that cannot fail.
  pub ok-KeepsUnlessOk :
      {A : Type 0} (turn : Turn S P A) (value : Machine S P → A)
      → ((machine : Machine S P) → (turn machine).1 ≡ ok (value machine))
      → KeepsUnlessOk turn
  ok-KeepsUnlessOk turn value succeeds = record {
    keeps = λ machine stop failed.
        let stuck : ok (value machine) ≡ err stop = sym (succeeds machine) ∙ failed in absurd cc;
  }

  pub with_guard-KeepsUnlessOk :
      {A : Type 0} (session_id : Uuid) (body : Turn S P A)
      → KeepsUnlessOk body
      → KeepsUnlessOk (with_guard session_id body)
  unfolding with_guard
  with_guard-KeepsUnlessOk {A = A} session_id body kept = record {
    keeps = λ machine stop failed other.
        go machine stop other (acquire session_id machine.turn_lock) failed;
  }
    where
      released :
          (stop : Stop) (guard : TurnLockGuard) (outcome : Machine S P × Result A Stop)
          → (release_after guard outcome).1 ≡ err stop
          → outcome.1 ≡ err stop
      released stop guard (reached, ok value) h = h
      released stop guard (reached, err e) h = h

      same_store :
          (guard : TurnLockGuard) (outcome : Machine S P × Result A Stop)
          → ((release_after guard outcome).0).store ≡ (outcome.0).store
      same_store guard (reached, result) = refl

      go :
          (machine : Machine S P) (stop : Stop) (other : Uuid)
          (taken : Result (TurnLockGuard × InMemorySessionTurnLock) TurnLockError)
          → (under_guard body machine taken).1 ≡ err stop
          → turn_store.load_turn_state ((under_guard body machine taken).0).store other
            ≡ turn_store.load_turn_state machine.store other
      go machine stop other (err e) h = refl
      go machine stop other (ok (guard, lock)) h =
          let start = record machine { turn_lock = lock } in
          ap (λ store. turn_store.load_turn_state store other) (same_store guard (body start))
          ∙ kept.keeps start stop (released stop guard (body start) h) other

  pub return-Keeps : {A : Type 0} (value : A) → Keeps (return value)
  return-Keeps value = record { keeps = λ machine session_id. refl }

  pub lift-Keeps : {A : Type 0} (result : Result A TurnPipelineError) → Keeps (lift result)
  lift-Keeps (ok value) = record { keeps = λ machine session_id. refl }
  lift-Keeps (err e) = record { keeps = λ machine session_id. refl }
