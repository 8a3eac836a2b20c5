-- ===== src/Engine/Pipeline/Applied.antt =====
-- What a turn that ends well has done: it applied one delta that passed validation.
use advanced_roleplaying_fra.Base.{◌≡◌, refl, sym, ap, subst, String, Result, ok, err}
use advanced_roleplaying_fra.Domain.Ids.{Uuid}
use advanced_roleplaying_fra.Domain.Delta.{WorldStateDelta}
use advanced_roleplaying_fra.Domain.Visible.{ViewerContext}
use advanced_roleplaying_fra.Engine.Validated.{ValidatedWorldStateDelta}
use advanced_roleplaying_fra.Engine.Validation.Errors.{DeltaValidationError}
use advanced_roleplaying_fra.Engine.Validation.Validate.{validate}
use advanced_roleplaying_fra.Engine.Reducer.Apply.{apply}
use advanced_roleplaying_fra.Engine.Prompt.Parser.{parse_delta_output}
use advanced_roleplaying_fra.Engine.Pipeline.Types.{
  PipelineEventKind, TurnRequestInput, LoadedTurnState, PreparedTurn, FinalizedTurn,
}
use advanced_roleplaying_fra.Engine.Pipeline.Turn.{
  Environment, Machine, Stop, Turn, continue_with, ◌>>=◌, ◌>>◌, return, lift, draw,
}
use advanced_roleplaying_fra.Engine.Pipeline.Prepare.{
  load, prepare_loaded, prepare_turn_context, check, validated_or, finalized,
  finalize_with_parsed_delta,
}
use advanced_roleplaying_fra.Engine.Pipeline.Run.{
  record_pipeline_event, finalize_turn_delta, parse_or_repair, run_two_call_generation,
  work_out_prepared, with_raw_output,
}

module _ {S P : Type 0} where
  -- Whatever the machine, a result of the computation has the property.
  pub record Gives {A : Type 0} (turn : Turn S P A) (Q : A → Type 0) : Type 0 where
    pub gives : (machine : Machine S P) (value : A) → (turn machine).1 ≡ ok value → Q value

  -- The two steps of a computation that ended well.
  abbrev Steps : {A B : Type 0} → Turn S P A → (A → Turn S P B) → Machine S P → B → Type 0
  Steps {A = A} first next machine result =
      (value : A) × ((first machine).1 ≡ ok value)
      × ((next value ((first machine).0)).1 ≡ ok result)
      × ((first >>= next) machine ≡ next value ((first machine).0))

  pub steps :
      {A B : Type 0} (first : Turn S P A) (next : A → Turn S P B) (machine : Machine S P)
      (result : B)
      → ((first >>= next) machine).1 ≡ ok result
      → Steps first next machine result
  unfolding ◌>>=◌
  steps {A = A} first next machine result h = go (first machine) refl h
    where
      go :
          (outcome : Machine S P × Result A Stop)
          → first machine ≡ outcome
          → (continue_with next outcome).1 ≡ ok result
          → Steps first next machine result
      go (reached, ok value) e f = (value, ap (λ r. r.1) e, rw e f, rw e refl)
      go (reached, err stop) e f = absurd cc

  pub Gives->>= :
      {A B : Type 0} {first : Turn S P A} {next : A → Turn S P B} {Q : A → Type 0} {R : B → Type 0}
      → Gives first Q
      → ((value : A) → Q value → Gives (next value) R)
      → Gives (first >>= next) R
  Gives->>= {first = first} {next = next} before later = record {
    gives = λ machine result h.
        let (value, one, two, whole) = steps first next machine result h in
        (later value (before.gives machine value one)).gives ((first machine).0) result two;
  }

  pub Gives-any : {A : Type 0} (turn : Turn S P A) → Gives turn (λ _. Unit {0})
  Gives-any turn = record { gives = λ machine value h. tt }

  pub Gives-return : {A : Type 0} (Q : A → Type 0) (value : A) → Q value → Gives (return value) Q
  Gives-return Q value q = record {
    gives = λ machine other h. let same : value ≡ other = cc in subst Q same q;
  }

module _ {Json S P : Type 0} (env : Environment Json S P) where
  -- The turn applies a delta that passed validation to the world state that was loaded.
  abbrev pub Applies : LoadedTurnState Json → FinalizedTurn Json → Type 0
  Applies loaded turn =
      (delta : WorldStateDelta) × (validated : ValidatedWorldStateDelta) × (validate
          env.to_lowercase loaded.scenario loaded.world_state delta
        ≡ ok validated)
      × (turn.updated_world_state ≡ apply loaded.world_state validated)
      × (turn.world_state_version ≡ (apply loaded.world_state validated).version)

  validated-Gives :
      (prepared : PreparedTurn Json) (delta : WorldStateDelta)
      → Gives {P = P}
          (lift {S = S} (validated_or env (check env prepared delta)))
          (λ validated. check env prepared delta ≡ ok validated)
  validated-Gives prepared delta = record {
    gives = λ machine value h. go (check env prepared delta) value machine h;
  }
    where
      go :
          (checked : Result ValidatedWorldStateDelta DeltaValidationError)
          (value : ValidatedWorldStateDelta) (machine : Machine S P)
          → (lift (validated_or env checked) machine).1 ≡ ok value
          → checked ≡ ok value
      go (ok validated) value machine h = let same : validated ≡ value = cc in ap ok same
      go (err e) value machine h = absurd cc

  finalize-Applies :
      (session_id : Uuid) (prepared : PreparedTurn Json) (visible : String)
      (delta : WorldStateDelta) (input : String) (viewer : ViewerContext)
      → Gives
          (finalize_with_parsed_delta env session_id prepared visible delta input viewer)
          (Applies prepared.loaded)
  unfolding finalize_with_parsed_delta finalized
  finalize-Applies session_id prepared visible delta input viewer =
      Gives->>= (validated-Gives prepared delta) λ validated accepted.
        Gives->>= (Gives-any (draw env)) λ user_id any.
          Gives->>= (Gives-any (draw env)) λ assistant_id any.
            Gives-return (Applies prepared.loaded) _ (delta, validated, accepted, refl, refl)

  -- The turn was worked out on the state that was loaded.
  abbrev pub WorkedOn : LoadedTurnState Json → PreparedTurn Json × FinalizedTurn Json → Type 0
  WorkedOn loaded worked = Applies loaded (worked.1)

  finalize_delta-Applies :
      (session_id : Uuid) (prepared : PreparedTurn Json) (visible raw input : String)
      (viewer : ViewerContext)
      → Gives
          (finalize_turn_delta env session_id prepared visible raw input viewer)
          (Applies prepared.loaded)
  unfolding finalize_turn_delta
  finalize_delta-Applies session_id prepared visible raw input viewer =
      Gives->>=
        (Gives-any (parse_or_repair env session_id raw (parse_delta_output env.delta_from_str raw)))
        λ delta any. finalize-Applies session_id prepared visible delta input viewer

  pub prepare-loaded :
      (request : TurnRequestInput) (machine : Machine S P) (loaded : LoadedTurnState Json)
      (prepared : PreparedTurn Json)
      → env.turn_store.load_turn_state machine.store request.session_id ≡ ok loaded
      → (prepare_turn_context env request.session_id request.input request.mode machine).1
        ≡ ok prepared
      → prepared.loaded ≡ loaded
  unfolding prepare_turn_context load prepare_loaded ◌>>=◌
  prepare-loaded request machine loaded prepared found h =
      let reached = rw found at h in
      let same : prepare_loaded env request.input request.mode loaded ≡ prepared = cc in
      ap (λ (p : PreparedTurn Json). p.loaded) (sym same)

  pub rest-Applies :
      (request : TurnRequestInput) (prepared : PreparedTurn Json)
      → Gives (work_out_prepared env request prepared) (WorkedOn prepared.loaded)
  unfolding work_out_prepared
  rest-Applies request prepared =
      Gives->>=
        (Gives-any (
          record_pipeline_event env request.session_id PipelineEventKind.context_built
          >> run_two_call_generation env request.session_id prepared request.input))
        λ two_call any.
          Gives->>=
            (finalize_delta-Applies request.session_id prepared two_call.stripped_visible
              two_call.raw_delta_text request.input request.viewer)
            λ turn applies.
              Gives->>=
                (Gives-any (
                  record_pipeline_event env request.session_id PipelineEventKind.delta_applied
                  >> record_pipeline_event env request.session_id
                      PipelineEventKind.frontend_state_projected))
                λ done any.
                  Gives-return (WorkedOn prepared.loaded)
                    (prepared, with_raw_output env two_call turn) applies
