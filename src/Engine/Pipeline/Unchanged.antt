-- ===== src/Engine/Pipeline/Unchanged.antt =====
-- A turn that ends in an error or a panic leaves what is loaded as it was.
use advanced_roleplaying_fra.Base.{◌≡◌, refl, sym, ap, ◌∙◌, Result, ok, err}
use advanced_roleplaying_fra.Domain.Ids.{Uuid}
use advanced_roleplaying_fra.Engine.Pipeline.Types.{
  PipelineEventKind, as_str, TurnRequestInput, PreparedTurn, FinalizedTurn,
}
use advanced_roleplaying_fra.Engine.Pipeline.Turn.{
  Environment, Machine, Stop, Turn, continue_with, ◌>>=◌, ◌>>◌, return, stopping, draw,
}
use advanced_roleplaying_fra.Engine.Pipeline.Laws.{
  KeepsTurns, KeepsUnlessOk, SameLoads, KeepsUnlessOk->>=, ok-KeepsUnlessOk,
  with_guard-KeepsUnlessOk,
}
use advanced_roleplaying_fra.Engine.Pipeline.Keeping.{work_out-Keeps, started-Keeps}
use advanced_roleplaying_fra.Engine.Pipeline.Run.{
  record_pipeline_event, persist, finish_turn, locked_turn, whole_turn, process_turn, response_of,
}

module _ {Json S P : Type 0} (env : Environment Json S P) (laws : KeepsTurns env.turn_store) where
  pub record-ok :
      (session_id : Uuid) (event : PipelineEventKind) (machine : Machine S P)
      → (record_pipeline_event env session_id event machine).1 ≡ ok tt
  unfolding record_pipeline_event draw ◌>>=◌
  record-ok session_id event machine = ap stopping (
      laws.events_succeed (env.new_v4 machine.drawn) session_id (as_str event) (as_str event)
        machine.store)

  pub persist-ok :
      (turn : FinalizedTurn Json) (machine : Machine S P) → (persist env turn machine).1 ≡ ok tt
  unfolding persist
  persist-ok turn machine = ap stopping (laws.turns_succeed _ _ _ _ _ machine.store)

  -- What follows on a computation that ended well.
  pub after-ok :
      {A B : Type 0} (first : Turn S P A) (next : A → Turn S P B) (machine : Machine S P)
      (value : A)
      → (first machine).1 ≡ ok value
      → (first >>= next) machine ≡ next value ((first machine).0)
  unfolding ◌>>=◌
  after-ok first next machine value h = ap (λ r. continue_with next ((first machine).0, r)) h

  pub finish-ok :
      (session_id : Uuid) (machine : Machine S P) → (finish_turn env session_id machine).1 ≡ ok tt
  unfolding finish_turn
  finish-ok session_id machine =
      ap (λ outcome. outcome.1)
        (after-ok (record_pipeline_event env session_id PipelineEventKind.turn_finished)
          (λ done. record_pipeline_event env session_id PipelineEventKind.turn_lock_releasing)
          machine tt (record-ok session_id PipelineEventKind.turn_finished machine))
      ∙ record-ok session_id PipelineEventKind.turn_lock_releasing _

  -- Once a turn is worked out, it is stored and answered.
  abbrev pub closing :
      Uuid
      → PreparedTurn Json × FinalizedTurn Json
      → Turn S P (PreparedTurn Json × FinalizedTurn Json)
  closing session_id worked = persist env (worked.1) >> finish_turn env session_id >> return worked

  pub closing-ok :
      (session_id : Uuid) (worked : PreparedTurn Json × FinalizedTurn Json) (machine : Machine S P)
      → closing session_id worked machine
        ≡ ((finish_turn env session_id ((persist env (worked.1) machine).0)).0, ok worked)
  closing-ok session_id worked machine =
      let turn = worked.1 in
      let both =
        after-ok (persist env turn) (λ done. finish_turn env session_id) machine tt
          (persist-ok turn machine) in
      after-ok (persist env turn >> finish_turn env session_id) (λ done. return worked) machine tt
        (ap (λ outcome. outcome.1) both ∙ finish-ok session_id _)
      ∙ ap (λ outcome. (outcome.0, ok worked)) both

  locked_turn-KeepsUnlessOk :
      (request : TurnRequestInput) → KeepsUnlessOk env.turn_store (locked_turn env request)
  unfolding locked_turn
  locked_turn-KeepsUnlessOk request =
      KeepsUnlessOk->>= env.turn_store (work_out-Keeps env laws request) λ worked.
        ok-KeepsUnlessOk env.turn_store (closing request.session_id worked) (λ machine. worked)
          λ machine. ap (λ outcome. outcome.1) (closing-ok request.session_id worked machine)

  whole_turn-KeepsUnlessOk :
      (request : TurnRequestInput) → KeepsUnlessOk env.turn_store (whole_turn env request)
  unfolding whole_turn
  whole_turn-KeepsUnlessOk request =
      KeepsUnlessOk->>= env.turn_store
        (started-Keeps env laws request.session_id PipelineEventKind.turn_started)
        λ done.
          with_guard-KeepsUnlessOk env.turn_store request.session_id (locked_turn env request)
            (locked_turn-KeepsUnlessOk request)

  -- A turn that ends in an error or in a panic, at whatever point, leaves the world state and the
  -- messages that are loaded as they were, in every session.
  pub process_turn-unchanged :
      (request : TurnRequestInput) (machine : Machine S P) (stop : Stop)
      → (process_turn env request machine).1 ≡ err stop
      → SameLoads env.turn_store ((process_turn env request machine).0) machine
  unfolding process_turn ◌>>=◌
  process_turn-unchanged request machine stop failed =
      go (whole_turn env request machine) refl failed
    where
      go :
          (outcome : Machine S P × Result (PreparedTurn Json × FinalizedTurn Json) Stop)
          → whole_turn env request machine ≡ outcome
          → (continue_with (λ worked. return (response_of env worked)) outcome).1 ≡ err stop
          → SameLoads env.turn_store
              ((continue_with (λ worked. return (response_of env worked)) outcome).0)
              machine
      go (reached, ok worked) e h session_id = absurd cc
      go (reached, err other) e h session_id =
          ap (λ r. env.turn_store.load_turn_state (r.0).store session_id) (sym e)
          ∙ (whole_turn-KeepsUnlessOk request).keeps machine other (ap (λ r. r.1) e) session_id
