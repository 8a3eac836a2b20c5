-- ===== src/Engine/Pipeline/Outcome.antt =====
-- What a turn that ends well leaves in the store.
use advanced_roleplaying_fra.Base.{◌+◌, ◌≡◌, refl, sym, ap, subst, ◌∙◌, List, Result, ok, err}
use advanced_roleplaying_fra.Domain.Ids.{Uuid}
use advanced_roleplaying_fra.Domain.State.{WorldState}
use advanced_roleplaying_fra.Domain.Delta.{WorldStateDelta}
use advanced_roleplaying_fra.Domain.Session.{MessageRecord}
use advanced_roleplaying_fra.Engine.Lock.{
  TurnLockGuard, InMemorySessionTurnLock, TurnLockError, acquire,
}
use advanced_roleplaying_fra.Engine.Validated.{ValidatedWorldStateDelta}
use advanced_roleplaying_fra.Engine.Validation.Validate.{validate}
use advanced_roleplaying_fra.Engine.Reducer.Apply.{apply}
use advanced_roleplaying_fra.Engine.Reducer.Parts.{apply-eq-parts}
use advanced_roleplaying_fra.Engine.Pipeline.Types.{
  PipelineEventKind, TurnRequestInput, TurnResponse, LoadedTurnState, PreparedTurn, FinalizedTurn,
}
use advanced_roleplaying_fra.Engine.Pipeline.Turn.{
  Environment, Machine, Stop, ◌>>◌, return, with_guard, under_guard, release_after,
}
use advanced_roleplaying_fra.Engine.Pipeline.Laws.{KeepsTurns}
use advanced_roleplaying_fra.Engine.Pipeline.Keeping.{work_out-Keeps, started-Keeps, finish-Keeps}
use advanced_roleplaying_fra.Engine.Pipeline.Unchanged.{closing, closing-ok}
use advanced_roleplaying_fra.Engine.Pipeline.Applied.{steps, Applies, prepare-loaded, rest-Applies}
use advanced_roleplaying_fra.Engine.Pipeline.Prepare.{prepare_turn_context}
use advanced_roleplaying_fra.Engine.Pipeline.Run.{
  record_pipeline_event, work_out_prepared, work_out, persist, finish_turn, locked_turn, whole_turn,
  process_turn, response_of,
}

apply-session_id :
    (state : WorldState) (validated : ValidatedWorldStateDelta)
    → (apply state validated).session_id ≡ state.session_id
apply-session_id state validated =
    ap (λ (s : WorldState). s.session_id) (apply-eq-parts state validated)

same_value : {A E : Type 0} (result : Result A E) (a b : A) → result ≡ ok a → result ≡ ok b → a ≡ b
same_value result a b first second = cc

module _ {Json S P : Type 0} (env : Environment Json S P) (laws : KeepsTurns env.turn_store) where
  abbrev Worked : Type 0
  Worked = PreparedTurn Json × FinalizedTurn Json

  abbrev Loads : Uuid → Machine S P → LoadedTurnState Json → Type 0
  Loads session_id machine loaded =
      env.turn_store.load_turn_state machine.store session_id ≡ ok loaded

  -- The next turn of the session starts from the world state that the delta gives.
  abbrev pub Stored : Uuid → LoadedTurnState Json → Machine S P → FinalizedTurn Json → Type 0
  Stored session_id loaded after turn =
      (messages : List (MessageRecord Json)) × (env.turn_store.load_turn_state after.store
          session_id
        ≡ ok (record loaded { world_state = turn.updated_world_state; recent_messages = messages }))

  work_out-Applies :
      (request : TurnRequestInput) (machine : Machine S P) (loaded : LoadedTurnState Json)
      (worked : Worked)
      → Loads request.session_id machine loaded
      → (work_out env request machine).1 ≡ ok worked
      → Applies env loaded (worked.1)
  unfolding work_out
  work_out-Applies request machine loaded worked found h =
      let event =
        record_pipeline_event env request.session_id PipelineEventKind.turn_lock_acquired in
      let prepare = prepare_turn_context env request.session_id request.input request.mode in
      let (prepared, first, second, whole) =
        steps (event >> prepare) (work_out_prepared env request) machine worked h in
      let (done, one, two, both) = steps event (λ _. prepare) machine prepared first in
      let start : Loads request.session_id ((event machine).0) loaded =
        (started-Keeps env laws request.session_id PipelineEventKind.turn_lock_acquired).keeps
          machine request.session_id
        ∙ found in
      let same : prepared.loaded ≡ loaded =
        prepare-loaded env request ((event machine).0) loaded prepared start two in
      subst (λ l. Applies env l (worked.1)) same
        ((rest-Applies env request prepared).gives ((((event >> prepare) machine)).0) worked second)

  closing-Stored :
      (session_id : Uuid) (loaded : LoadedTurnState Json) (worked : Worked) (machine : Machine S P)
      → Loads session_id machine loaded
      → ((worked.1).updated_world_state).session_id ≡ session_id
      → Stored session_id loaded
          ((finish_turn env session_id ((persist env (worked.1) machine).0)).0)
          (worked.1)
  unfolding persist
  closing-Stored session_id loaded worked machine found own =
      let turn = worked.1 in
      let (messages, stored) =
        laws.turns_stored (λ i. env.new_v4 (machine.drawn + i)) turn.user_message
          turn.assistant_message turn.validated_delta turn.updated_world_state machine.store loaded
          (subst (λ id. Loads id machine loaded) (sym own) found) in
      (
        messages,
        (finish-Keeps env laws session_id).keeps ((persist env turn machine).0) session_id
            ∙ subst
                (λ id.
                  env.turn_store.load_turn_state (((persist env turn machine).0).store) id
                  ≡ ok (record loaded {
                    world_state = turn.updated_world_state;
                    recent_messages = messages;
                  }))
                own stored,
      )

  -- The world state that was loaded is the session's own.
  abbrev pub Outcome : TurnRequestInput → LoadedTurnState Json → Machine S P → Worked → Type 0
  Outcome request loaded after worked =
      Applies env loaded (worked.1) × Stored request.session_id loaded after (worked.1)

  locked_turn-Outcome :
      (request : TurnRequestInput) (machine : Machine S P) (loaded : LoadedTurnState Json)
      (worked : Worked)
      → Loads request.session_id machine loaded
      → (loaded.world_state).session_id ≡ request.session_id
      → (locked_turn env request machine).1 ≡ ok worked
      → Outcome request loaded ((locked_turn env request machine).0) worked
  unfolding locked_turn
  locked_turn-Outcome request machine loaded worked found own h =
      let (first, one, two, whole) =
        steps (work_out env request) (closing env laws request.session_id) machine worked h in
      let closed =
        closing-ok env laws request.session_id first ((work_out env request machine).0) in
      let same : first ≡ worked = same_value _ first worked (ap (λ r. r.1) closed) two in
      let applies = work_out-Applies request machine loaded first found one in
      let kept : Loads request.session_id ((work_out env request machine).0) loaded =
        (work_out-Keeps env laws request).keeps machine request.session_id ∙ found in
      let (delta, validated, accepted, updated, version) = applies in
      let stored =
        closing-Stored request.session_id loaded first ((work_out env request machine).0) kept (
          ap (λ (s : WorldState). s.session_id) updated
          ∙ apply-session_id loaded.world_state validated
          ∙ own) in
      subst (Outcome request loaded ((locked_turn env request machine).0)) same (
        applies,
        subst (λ after. Stored request.session_id loaded after (first.1))
            (ap (λ r. r.0) (sym (whole ∙ closed))) stored,
      )

  whole_turn-Outcome :
      (request : TurnRequestInput) (machine : Machine S P) (loaded : LoadedTurnState Json)
      (worked : Worked)
      → Loads request.session_id machine loaded
      → (loaded.world_state).session_id ≡ request.session_id
      → (whole_turn env request machine).1 ≡ ok worked
      → Outcome request loaded ((whole_turn env request machine).0) worked
  unfolding whole_turn with_guard
  whole_turn-Outcome request machine loaded worked found own h =
      let event = record_pipeline_event env request.session_id PipelineEventKind.turn_started in
      let (done, one, two, whole) =
        steps event (λ _. with_guard request.session_id (locked_turn env request)) machine worked
          h in
      let start : Loads request.session_id ((event machine).0) loaded =
        (started-Keeps env laws request.session_id PipelineEventKind.turn_started).keeps machine
          request.session_id
        ∙ found in
      subst (λ r. Outcome request loaded (r.0) worked) (sym whole)
        (under ((event machine).0) (acquire request.session_id ((event machine).0).turn_lock) start
          two)
    where
      released :
          (guard : TurnLockGuard) (result : Machine S P × Result Worked Stop)
          → (release_after guard result).1 ≡ ok worked
          → (result.1 ≡ ok worked) × (((release_after guard result).0).store ≡ (result.0).store)
      released guard (reached, ok value) e = (e, refl)
      released guard (reached, err stop) e = (e, refl)

      under :
          (at : Machine S P)
          (taken : Result (TurnLockGuard × InMemorySessionTurnLock) TurnLockError)
          → Loads request.session_id at loaded
          → (under_guard (locked_turn env request) at taken).1 ≡ ok worked
          → Outcome request loaded ((under_guard (locked_turn env request) at taken).0) worked
      under at (err e) start f = absurd cc
      under at (ok (guard, lock)) start f =
          let inside = record at { turn_lock = lock } in
          let (ended, same) = released guard (locked_turn env request inside) f in
          let (applies, (messages, stored)) =
            locked_turn-Outcome request inside loaded worked start own ended in
          (
            applies,
            (
              messages,
              ap (λ store. env.turn_store.load_turn_state store request.session_id) same ∙ stored,
            ),
          )

  -- What a turn says and leaves that ends well.
  abbrev pub Refines : TurnRequestInput → LoadedTurnState Json → Machine S P → TurnResponse → Type 0
  Refines request loaded after response =
      (delta : WorldStateDelta) × (validated : ValidatedWorldStateDelta) × (messages : List
        (MessageRecord Json))
      × (validate env.to_lowercase loaded.scenario loaded.world_state delta ≡ ok validated)
      × (env.turn_store.load_turn_state after.store request.session_id
          ≡ ok (record loaded {
            world_state = apply loaded.world_state validated;
            recent_messages = messages;
          }))
      × (response.world_state_version ≡ (apply loaded.world_state validated).version)

  -- A turn that ends well has applied a delta that passed validation: where the session loads a
  -- world state of its own before the turn, it loads that state with the delta applied afterwards,
  -- and the answer bears its version.
  pub process_turn-Refines :
      (request : TurnRequestInput) (machine : Machine S P) (loaded : LoadedTurnState Json)
      (response : TurnResponse)
      → Loads request.session_id machine loaded
      → (loaded.world_state).session_id ≡ request.session_id
      → (process_turn env request machine).1 ≡ ok response
      → Refines request loaded ((process_turn env request machine).0) response
  unfolding process_turn
  process_turn-Refines request machine loaded response found own h =
      let (worked, one, two, whole) =
        steps (whole_turn env request) (λ worked. return (response_of env worked)) machine response
          h in
      let (applies, (messages, stored)) =
        whole_turn-Outcome request machine loaded worked found own one in
      let (delta, validated, accepted, updated, version) = applies in
      let answer : response_of env worked ≡ response =
        same_value _ (response_of env worked) response refl two in
      (
        delta,
        validated,
        messages,
        accepted,
        ap (λ r. env.turn_store.load_turn_state (r.0).store request.session_id) whole
            ∙ stored
            ∙ ap (λ w. ok (record loaded { world_state = w; recent_messages = messages })) updated,
        ap (λ (r : TurnResponse). r.world_state_version) (sym answer) ∙ version,
      )
