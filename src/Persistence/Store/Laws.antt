-- ===== src/Persistence/Store/Laws.antt =====
-- The in-memory store is a store as turns need it.
use advanced_roleplaying_fra.Base.{
  ℕ, suc, ◌≡◌, refl, ap, ◌∙◌, String, Option, some, none, List, [], ◌∷◌, nat_eq_iff, Result, ok,
  Option-cases, inl, inr,
}
use advanced_roleplaying_fra.Base.Int.{ℤ}
use advanced_roleplaying_fra.Base.Table.{get, insert, get-insert, or_empty, extend_at}
use advanced_roleplaying_fra.Domain.Ids.{Uuid}
use advanced_roleplaying_fra.Domain.State.{WorldState}
use advanced_roleplaying_fra.Domain.Session.{MessageRecord, EventRecord, TimelineEntry}
use advanced_roleplaying_fra.Engine.Validated.{ValidatedWorldStateDelta}
use advanced_roleplaying_fra.Engine.Pipeline.Types.{LoadedTurnState}
use advanced_roleplaying_fra.Engine.Pipeline.Laws.{KeepsTurns}
use advanced_roleplaying_fra.Persistence.Store.{InMemoryApplicationStore}
use advanced_roleplaying_fra.Persistence.Store.Turns.{
  recent, load_turn_state, append_event, session_event, append_world_events, kept_raw,
  persist_successful_turn, persist_error_event, persist_pipeline_event, in_memory_turns,
}

pub get-inserted :
    {V : Type 0} (k : ℕ) (v : V) (table : List (ℕ × V)) → get k (insert k v table) ≡ some v
get-inserted k v table = rw (get-insert k k v table, (nat_eq_iff k k).1 refl) refl

same_ok :
    {A E : Type 0} (a b : A) (first second : Result A E)
    → first ≡ ok a
    → second ≡ ok b
    → first ≡ second
    → a ≡ b
same_ok a b first second one two e = cc

module _ {Json : Type 0} where
  append_event-kept :
      (event : EventRecord) (version : Option ℤ) (store : InMemoryApplicationStore Json)
      (other : Uuid)
      → load_turn_state (append_event event version store) other ≡ load_turn_state store other
  unfolding append_event load_turn_state
  append_event-kept event version store other = refl

  pub append_world_events-kept :
      (ids : ℕ → Uuid) (i : ℕ) (session_id : Uuid) (version : ℤ) (log : List String)
      (store : InMemoryApplicationStore Json) (other : Uuid)
      → load_turn_state (append_world_events ids i session_id version log store) other
        ≡ load_turn_state store other
  unfolding append_world_events
  append_world_events-kept ids i session_id version [] store other = refl
  append_world_events-kept ids i session_id version (description ∷ rest) store other =
      let event = session_event (ids i) session_id "world_event" description in
      append_world_events-kept ids (suc i) session_id version rest
        (append_event event (some version) store) other
      ∙ append_event-kept event (some version) store other

  -- The world state is replaced; the session and its scenario stay.
  pub replaced :
      (store : InMemoryApplicationStore Json) (updated : WorldState)
      (messages : List (ℕ × List (MessageRecord Json))) (timeline : List (ℕ × List TimelineEntry))
      (loaded : LoadedTurnState Json)
      → load_turn_state store updated.session_id ≡ ok loaded
      → load_turn_state
          (record store {
            messages = messages;
            timeline_entries = timeline;
            world_states = insert updated.session_id updated store.world_states;
          })
          updated.session_id
        ≡ ok (record loaded {
          world_state = updated;
          recent_messages = recent (or_empty (get updated.session_id messages));
        })
  unfolding load_turn_state
  replaced store updated messages timeline loaded h =
      elim (Option-cases (get updated.session_id store.sessions)) [
        | inl absent ↦ absurd (let stuck = rw absent at h in cc)
        | inr (session, one) ↦ elim (Option-cases (get session.scenario_id store.scenarios)) [
          | inl absent ↦ absurd (let stuck = rw (one, absent) at h in cc)
          | inr (scenario, two) ↦ elim (Option-cases (get updated.session_id store.world_states)) [
            | inl absent ↦ absurd (let stuck = rw (one, two, absent) at h in cc)
            | inr (world_state, three) ↦
                rw (one, two, get-inserted updated.session_id updated store.world_states)
                  (ap
                    (λ (l : LoadedTurnState Json). ok (record l {
                      world_state = updated;
                      recent_messages = recent (or_empty (get updated.session_id messages));
                    }))
                    (same_ok _ loaded _ (ok loaded) refl refl (rw (one, two, three) at h)))
          ]
        ]
      ]

  turns_stored_lem :
      (ids : ℕ → Uuid) (user_message assistant_message : MessageRecord Json)
      (delta : ValidatedWorldStateDelta) (updated : WorldState)
      (store : InMemoryApplicationStore Json) (loaded : LoadedTurnState Json)
      → load_turn_state store updated.session_id ≡ ok loaded
      → (messages : List (MessageRecord Json)) × (load_turn_state
            ((persist_successful_turn ids user_message assistant_message delta updated store).0)
            updated.session_id
          ≡ ok (record loaded { world_state = updated; recent_messages = messages }))
  unfolding persist_successful_turn
  turns_stored_lem ids user_message assistant_message delta updated store loaded h =
      let kept = kept_raw store.store_raw_provider_output assistant_message in
      let messages = extend_at updated.session_id (user_message ∷ kept ∷ []) store.messages in
      (
        recent (or_empty (get updated.session_id messages)),
        append_world_events-kept ids 0 updated.session_id updated.version
              (delta.inner).event_log_entries _ updated.session_id
            ∙ replaced store updated messages _ loaded h,
      )

  -- The in-memory store keeps what turns load from being touched by events, gives the world state of
  -- each turn that is stored to the next one, and never fails to store.
  pub in_memory_turns-KeepsTurns : KeepsTurns (in_memory_turns {Json = Json})
  unfolding persist_error_event persist_pipeline_event persist_successful_turn
  in_memory_turns-KeepsTurns = record {
    events_kept = λ id session_id other event_type description store.
        append_event-kept (session_event id session_id event_type description) none store other;
    events_succeed = λ id session_id event_type description store. refl;
    errors_kept = λ id session_id other description store.
        append_event-kept (session_event id session_id "turn_error" description) none store other;
    turns_succeed = λ ids user_message assistant_message delta updated store. refl;
    turns_stored = turns_stored_lem;
  }
