-- ===== src/Engine/Validation/Secrets.antt =====
-- crates/engine/src/validation.rs: which texts leak a secret, and which proofs reveal one.
-- `to_lowercase` is Rust's `str::to_lowercase`, whose tables are Unicode's and not the program's.
use advanced_roleplaying_fra.Base.{
  String, Bool, true, false, not, ◌&&◌, ◌||◌, ◌==◌, Option, none, some, List, [], ◌∷◌, map, any,
  all, find, keep, is_empty, is_some, if◌then◌else◌, ok, err, ensure, when, for_each, ◌>>◌,
}
use advanced_roleplaying_fra.Base.Text.{is_blank, contains}
use advanced_roleplaying_fra.Domain.Ids.{EntityKey}
use advanced_roleplaying_fra.Domain.Scenario.{Secret, RevealCondition}
use advanced_roleplaying_fra.Domain.State.{
  WorldState, Fact, FactVisibility, ConditionRef, ClueState, MatchMode,
}
use advanced_roleplaying_fra.Domain.Delta.{ClueChange, FactToAdd, WorldStateDelta}
use advanced_roleplaying_fra.Engine.Validation.Errors.{DeltaValidationError}
use advanced_roleplaying_fra.Engine.Validation.Checks.{Check, has_id, require_reason}

abbrev pub is_gm_only : FactVisibility → Bool
is_gm_only FactVisibility.gm_only = true
is_gm_only _ = false

abbrev pub is_player_known : FactVisibility → Bool
is_player_known FactVisibility.player_known = true
is_player_known _ = false

abbrev pub is_exact : MatchMode → Bool
is_exact MatchMode.exact = true

-- `secret_conditions`: a `HashMap` from a secret's id to the ids of its reveal conditions, where
-- the last secret with an id wins.
abbrev pub SecretConditions : Type 0
SecretConditions = EntityKey → Option (List EntityKey)

abbrev pub collect_conditions : List Secret → SecretConditions
collect_conditions [] id = none
collect_conditions (secret ∷ rest) id =
    let later = collect_conditions rest id in
    elim later [
      | some conditions ↦ some conditions
      | none ↦
          if secret.id == id
          then some (map (λ (c : RevealCondition). c.id) secret.reveal_conditions)
          else none
    ]

-- Equality of `ConditionRef`s; `MatchMode` has one value.
abbrev pub same_condition : ConditionRef → ConditionRef → Bool
same_condition candidate condition_ref = candidate.id == condition_ref.id

-- The clue's secrets are all there, and the condition is among those it satisfies.
unfoldable pub proves : List EntityKey → ConditionRef → List EntityKey → List ConditionRef → Bool
proves related_secret_ids condition_ref linked_secret_ids satisfied_reveal_conditions =
    all (has_id linked_secret_ids) related_secret_ids
    && any (λ candidate. same_condition candidate condition_ref) satisfied_reveal_conditions

unfoldable pub proof_visible_in_world : WorldState → List EntityKey → ConditionRef → Bool
unfolding proves
proof_visible_in_world world_state related_secret_ids condition_ref =
    any
      (λ (clue : ClueState).
        clue.visible_to_player
        && proves related_secret_ids condition_ref clue.linked_secret_ids
            clue.satisfied_reveal_conditions)
      world_state.clues

abbrev pub clue_proves : Option ClueState → List EntityKey → ConditionRef → Bool
clue_proves none related_secret_ids condition_ref = false
clue_proves (some clue) related_secret_ids condition_ref =
    proves related_secret_ids condition_ref clue.linked_secret_ids clue.satisfied_reveal_conditions

unfoldable pub change_proves : WorldState → List EntityKey → ConditionRef → ClueChange → Bool
unfolding proves
change_proves world_state related_secret_ids condition_ref
      (ClueChange.discovered clue_id text linked_secret_ids satisfied_reveal_conditions
        visible_to_player reason) =
    visible_to_player
    && proves related_secret_ids condition_ref linked_secret_ids satisfied_reveal_conditions
change_proves world_state related_secret_ids condition_ref
      (ClueChange.visibility_changed clue_id visible_to_player reason) =
    visible_to_player
    && clue_proves (find (λ (clue : ClueState). clue.id == clue_id) world_state.clues)
        related_secret_ids condition_ref

unfoldable pub proof_visible_in_delta :
    WorldState → WorldStateDelta → List EntityKey → ConditionRef → Bool
unfolding change_proves
proof_visible_in_delta world_state delta related_secret_ids condition_ref =
    any (change_proves world_state related_secret_ids condition_ref) delta.clue_changes

unfoldable pub check_condition_of : SecretConditions → ConditionRef → EntityKey → Check
check_condition_of secret_conditions condition_ref secret_id = elim (secret_conditions secret_id) [
  | none ↦ err (DeltaValidationError.unknown_entity "secret" secret_id)
  | some conditions ↦
      ensure (has_id conditions condition_ref.id)
        (DeltaValidationError.unknown_reveal_condition "secret-reveal-proof" condition_ref.id)
]

unfoldable pub validate_secret_reveal_proof :
    WorldState → WorldStateDelta → SecretConditions → List EntityKey → ConditionRef → Check
unfolding check_condition_of proof_visible_in_world proof_visible_in_delta
validate_secret_reveal_proof world_state delta secret_conditions related_secret_ids condition_ref =
    do
      for_each (check_condition_of secret_conditions condition_ref) related_secret_ids
      ensure
          (proof_visible_in_world world_state related_secret_ids condition_ref
            || proof_visible_in_delta world_state delta related_secret_ids condition_ref)
          DeltaValidationError.missing_reveal_proof

abbrev pub condition_of_secret : SecretConditions → EntityKey → EntityKey → Bool
condition_of_secret secret_conditions condition_id secret_id = elim (secret_conditions secret_id) [
  | none ↦ false
  | some conditions ↦ has_id conditions condition_id
]

unfoldable pub check_clue_condition :
    SecretConditions → EntityKey → List EntityKey → ConditionRef → Check
check_clue_condition secret_conditions clue_id linked_secret_ids condition_ref = do
  ensure (is_exact condition_ref.mode)
      (DeltaValidationError.unknown_reveal_condition clue_id condition_ref.id)
  ensure (any (condition_of_secret secret_conditions condition_ref.id) linked_secret_ids)
      (DeltaValidationError.unknown_reveal_condition clue_id condition_ref.id)

unfoldable pub validate_clue_links :
    EntityKey → List EntityKey → List ConditionRef → SecretConditions → Check
unfolding check_clue_condition
validate_clue_links clue_id linked_secret_ids satisfied_reveal_conditions secret_conditions = do
  for_each
      (λ secret_id.
        ensure (is_some (secret_conditions secret_id))
          (DeltaValidationError.unknown_entity "secret" secret_id))
      linked_secret_ids
  ensure (is_empty linked_secret_ids || not (is_empty satisfied_reveal_conditions))
      DeltaValidationError.missing_reveal_proof
  for_each (check_clue_condition secret_conditions clue_id linked_secret_ids)
      satisfied_reveal_conditions

module _ (to_lowercase : String → String) where
  -- The fact is a secret with a text, and the text contains it, whatever the case.
  unfoldable pub leaks : String → Fact → Bool
  leaks text fact =
      is_gm_only fact.visibility
      && not (is_blank fact.text)
      && contains (to_lowercase text) (to_lowercase fact.text)

  unfoldable pub find_leaked_gm_only_facts : WorldState → String → List Fact
  unfolding leaks
  find_leaked_gm_only_facts world_state text = keep (leaks text) world_state.facts

  unfoldable pub leaks_gm_only_fact : WorldState → String → Bool
  unfolding find_leaked_gm_only_facts
  leaks_gm_only_fact world_state text = not (is_empty (find_leaked_gm_only_facts world_state text))

  -- The fact names the secret, has a proof, and the secret may be revealed at all.
  unfoldable pub check_leaked : FactToAdd → Fact → Check
  check_leaked fact gm_fact =
      ensure
        (has_id fact.related_secret_ids gm_fact.id
          && (is_some fact.reveal_condition_satisfied && not (is_empty gm_fact.reveal_conditions)))
        (DeltaValidationError.secret_leak fact.text)

  unfoldable pub check_reveal :
      WorldState → WorldStateDelta → SecretConditions → FactToAdd → Option ConditionRef → Check
  unfolding validate_secret_reveal_proof
  check_reveal world_state delta secret_conditions fact none = ok tt
  check_reveal world_state delta secret_conditions fact (some condition_ref) =
      validate_secret_reveal_proof world_state delta secret_conditions fact.related_secret_ids
        condition_ref

  unfoldable pub check_player_known :
      WorldState → WorldStateDelta → SecretConditions → FactToAdd → Check
  unfolding check_leaked check_reveal find_leaked_gm_only_facts
  check_player_known world_state delta secret_conditions fact = do
    for_each (check_leaked fact) (find_leaked_gm_only_facts world_state fact.text)
    ensure (is_empty fact.related_secret_ids || is_some fact.reveal_condition_satisfied)
        DeltaValidationError.missing_reveal_proof
    check_reveal world_state delta secret_conditions fact fact.reveal_condition_satisfied

  unfoldable pub check_fact_to_add :
      WorldState → WorldStateDelta → SecretConditions → FactToAdd → Check
  unfolding require_reason check_player_known
  check_fact_to_add world_state delta secret_conditions fact = do
    require_reason fact.reason
    when (is_player_known fact.visibility)
        (check_player_known world_state delta secret_conditions fact)
