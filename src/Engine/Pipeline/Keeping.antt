-- ===== src/Engine/Pipeline/Keeping.antt =====
-- A turn that ends in an error or a panic leaves what is loaded as it was.
use advanced_roleplaying_fra.Base.{◌≡◌, refl, String, Option, Result, ok, err}
use advanced_roleplaying_fra.Domain.Ids.{Uuid}
use advanced_roleplaying_fra.Domain.State.{TurnMode}
use advanced_roleplaying_fra.Domain.Delta.{WorldStateDelta}
use advanced_roleplaying_fra.Domain.Visible.{ViewerContext}
use advanced_roleplaying_fra.Engine.Prompt.Parser.{Parsed, parsed, failed, panicked}
use advanced_roleplaying_fra.Providers.Request.{LlmRequest, LlmResponse, ProviderError}
use advanced_roleplaying_fra.Engine.Pipeline.Types.{
  PipelineEventKind, as_str, TurnPipelineError, TurnRequestInput, PreparedTurn,
}
use advanced_roleplaying_fra.Engine.Pipeline.Turn.{
  Environment, Machine, Turn, ◌>>◌, answered, draw, ask,
}
use advanced_roleplaying_fra.Engine.Pipeline.Laws.{
  KeepsTurns, Keeps, Keeps->>=, return-Keeps, lift-Keeps,
}
use advanced_roleplaying_fra.Engine.Pipeline.Prepare.{
  load, prepare_turn_context, finalize_with_parsed_delta,
}
use advanced_roleplaying_fra.Engine.Pipeline.Run.{
  record_pipeline_event, record_error, parse_repaired, parse_or_repair, finalize_turn_delta,
  run_two_call_generation, work_out_prepared, work_out, finish_turn,
}

module _ {Json S P : Type 0} (env : Environment Json S P) (laws : KeepsTurns env.turn_store) where
  abbrev Kept : {A : Type 0} → Turn S P A → Type 0
  Kept turn = Keeps env.turn_store turn

  draw-Keeps : Kept (draw env)
  unfolding draw
  draw-Keeps = record { keeps = λ machine session_id. refl }

  ask-Keeps : (request : LlmRequest) → Kept (ask env request)
  unfolding ask
  ask-Keeps request = record {
    keeps = λ machine session_id. go machine session_id (env.generate request machine.provider);
  }
    where
      go :
          (machine : Machine S P) (session_id : Uuid)
          (answer : P × Result (LlmResponse Json) ProviderError)
          → env.turn_store.load_turn_state ((answered env machine answer).0).store session_id
            ≡ env.turn_store.load_turn_state machine.store session_id
      go machine session_id (provider, ok response) = refl
      go machine session_id (provider, err e) = refl

  record-Keeps :
      (session_id : Uuid) (event : PipelineEventKind)
      → Kept (record_pipeline_event env session_id event)
  unfolding record_pipeline_event
  record-Keeps session_id event = Keeps->>= env.turn_store draw-Keeps λ id. record {
    keeps = λ machine other.
        laws.events_kept id session_id other (as_str event) (as_str event) machine.store;
  }

  record_error-Keeps : (session_id : Uuid) (text : String) → Kept (record_error env session_id text)
  unfolding record_error
  record_error-Keeps session_id text = Keeps->>= env.turn_store draw-Keeps λ id. record {
    keeps = λ machine other. laws.errors_kept id session_id other text machine.store;
  }

  load-Keeps : (session_id : Uuid) → Kept (load env session_id)
  unfolding load
  load-Keeps session_id = record {
    keeps = λ machine.
        (lift-Keeps env.turn_store (env.turn_store.load_turn_state machine.store session_id)).keeps
          machine;
  }

  prepare-Keeps :
      (session_id : Uuid) (input : String) (mode : Option TurnMode)
      → Kept (prepare_turn_context env session_id input mode)
  unfolding prepare_turn_context
  prepare-Keeps session_id input mode =
      Keeps->>= env.turn_store (load-Keeps session_id) λ loaded. return-Keeps env.turn_store _

  finalize-Keeps :
      (session_id : Uuid) (prepared : PreparedTurn Json) (visible : String)
      (delta : WorldStateDelta) (input : String) (viewer : ViewerContext)
      → Kept (finalize_with_parsed_delta env session_id prepared visible delta input viewer)
  unfolding finalize_with_parsed_delta
  finalize-Keeps session_id prepared visible delta input viewer =
      Keeps->>= env.turn_store (lift-Keeps env.turn_store _) λ validated.
        Keeps->>= env.turn_store draw-Keeps λ user_id.
          Keeps->>= env.turn_store draw-Keeps λ assistant_id. return-Keeps env.turn_store _

  repaired-Keeps :
      (session_id : Uuid) (answer : Parsed WorldStateDelta)
      → Kept (parse_repaired env session_id answer)
  unfolding parse_repaired
  repaired-Keeps session_id (parsed delta) = return-Keeps env.turn_store delta
  repaired-Keeps session_id (failed e) =
      Keeps->>= env.turn_store (record_error-Keeps session_id _)
        λ done. lift-Keeps env.turn_store (err (TurnPipelineError.parse e))
  repaired-Keeps session_id panicked = record { keeps = λ machine other. refl }

  repair-Keeps :
      (session_id : Uuid) (text : String) (answer : Parsed WorldStateDelta)
      → Kept (parse_or_repair env session_id text answer)
  unfolding parse_or_repair
  repair-Keeps session_id text (parsed delta) = return-Keeps env.turn_store delta
  repair-Keeps session_id text (failed e) =
      Keeps->>= env.turn_store (ask-Keeps _) λ repaired. repaired-Keeps session_id _
  repair-Keeps session_id text panicked = record { keeps = λ machine other. refl }

  finalize_delta-Keeps :
      (session_id : Uuid) (prepared : PreparedTurn Json) (visible raw input : String)
      (viewer : ViewerContext)
      → Kept (finalize_turn_delta env session_id prepared visible raw input viewer)
  unfolding finalize_turn_delta
  finalize_delta-Keeps session_id prepared visible raw input viewer =
      Keeps->>= env.turn_store (repair-Keeps session_id raw _)
        λ delta. finalize-Keeps session_id prepared visible delta input viewer

  recorded-Keeps :
      {A : Type 0} {next : Turn S P A} (session_id : Uuid) (event : PipelineEventKind)
      → Kept next
      → Kept (record_pipeline_event env session_id event >> next)
  recorded-Keeps session_id event kept =
      Keeps->>= env.turn_store (record-Keeps session_id event) λ done. kept

  two_call-Keeps :
      (session_id : Uuid) (prepared : PreparedTurn Json) (input : String)
      → Kept (run_two_call_generation env session_id prepared input)
  unfolding run_two_call_generation
  two_call-Keeps session_id prepared input =
      Keeps->>= env.turn_store
        (recorded-Keeps session_id PipelineEventKind.provider_called (ask-Keeps _))
        λ visible.
          Keeps->>= env.turn_store
            (Keeps->>= env.turn_store
              (recorded-Keeps session_id PipelineEventKind.provider_responded
                (record-Keeps session_id PipelineEventKind.provider_called))
              λ done. ask-Keeps _)
            λ response.
              recorded-Keeps session_id PipelineEventKind.provider_responded
                (return-Keeps env.turn_store _)

  work_out_prepared-Keeps :
      (request : TurnRequestInput) (prepared : PreparedTurn Json)
      → Kept (work_out_prepared env request prepared)
  unfolding work_out_prepared
  work_out_prepared-Keeps request prepared =
      Keeps->>= env.turn_store
        (recorded-Keeps request.session_id PipelineEventKind.context_built
          (two_call-Keeps request.session_id prepared request.input))
        λ two_call.
          Keeps->>= env.turn_store
            (finalize_delta-Keeps request.session_id prepared _ _ request.input request.viewer)
            λ turn.
              Keeps->>= env.turn_store
                (recorded-Keeps request.session_id PipelineEventKind.delta_applied
                  (record-Keeps request.session_id PipelineEventKind.frontend_state_projected))
                λ done. return-Keeps env.turn_store _

  pub work_out-Keeps : (request : TurnRequestInput) → Kept (work_out env request)
  unfolding work_out
  work_out-Keeps request =
      Keeps->>= env.turn_store
        (recorded-Keeps request.session_id PipelineEventKind.turn_lock_acquired
          (prepare-Keeps request.session_id request.input request.mode))
        λ prepared. work_out_prepared-Keeps request prepared

  pub finish-Keeps : (session_id : Uuid) → Kept (finish_turn env session_id)
  unfolding finish_turn
  finish-Keeps session_id =
      recorded-Keeps session_id PipelineEventKind.turn_finished
        (record-Keeps session_id PipelineEventKind.turn_lock_releasing)

  pub started-Keeps :
      (session_id : Uuid) (event : PipelineEventKind)
      → Kept (record_pipeline_event env session_id event)
  started-Keeps session_id event = record-Keeps session_id event
