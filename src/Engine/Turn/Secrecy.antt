-- ===== src/Engine/Turn/Secrecy.antt =====
-- No accepted turn tells the player a secret without a proof: the validator's leak check and the
-- reducer's new facts together.
use advanced_roleplaying_fra.Base.{
  ℕ, suc, String, ◌≡◌, ◌≢◌, refl, ◌⊎◌, inl, inr, Bool, true, false, not, ◌&&◌, ◌||◌, Option, none,
  some, List, [], ◌∷◌, arith, All, OneOf, ok, keep, is_empty, is_some, length, filter_map, >>-eq-ok,
  ensure-eq-ok, when-eq-ok, for_each-eq-ok, All-weaken, All-append, keep-at, keep-not_empty,
  &&-eq-true,
}
use advanced_roleplaying_fra.Base.Int.{ℤ}
use advanced_roleplaying_fra.Base.Text.{contains}
use advanced_roleplaying_fra.Domain.Ids.{EntityKey}
use advanced_roleplaying_fra.Domain.Scenario.{Scenario}
use advanced_roleplaying_fra.Domain.State.{WorldState, Fact, FactVisibility, ConditionRef}
use advanced_roleplaying_fra.Domain.Delta.{WorldStateDelta, FactToAdd, NpcChange}
use advanced_roleplaying_fra.Engine.Validated.{ValidatedWorldStateDelta}
use advanced_roleplaying_fra.Engine.Reducer.Apply.{apply}
use advanced_roleplaying_fra.Engine.Reducer.Numbering.{
  knowledge, learned_fact, new_facts, numbered, facts-apply,
}
use advanced_roleplaying_fra.Engine.Turn.Evidence.{Evidence, visible-Evidence}
use advanced_roleplaying_fra.Engine.Validation.Checks.{require_reason}
use advanced_roleplaying_fra.Engine.Validation.Secrets.{
  SecretConditions, is_player_known, leaks, find_leaked_gm_only_facts, leaks_gm_only_fact,
  check_leaked, check_reveal, check_fact_to_add, validate_secret_reveal_proof,
  proof_visible_in_world, proof_visible_in_delta,
}
use advanced_roleplaying_fra.Engine.Validation.Npcs.{check_npc_change, check_npc_content}
use advanced_roleplaying_fra.Engine.Validation.Validate.{
  validate, npc_ids_of, location_ids_of, secret_conditions_of,
}
use advanced_roleplaying_fra.Engine.Validation.Accepted.{validate-Accepted, validate-inner}
use advanced_roleplaying_fra.Engine.Validation.References.{
  IsStated, has_id-OneOf, check_npc_change-parts,
}
use advanced_roleplaying_fra.Engine.Validation.Errors.{DeltaValidationError}

module _ (to_lowercase : String → String) (world : WorldState) (delta : WorldStateDelta) where
  -- The world holds a secret that the text contains, whatever the case of its letters.
  pub record IsTold (text : String) (secret : Fact) : Type 0 where
    pub known : OneOf secret world.facts
    pub gm_only : secret.visibility ≡ FactVisibility.gm_only
    pub stated : IsStated secret.text
    pub contained : contains (to_lowercase text) (to_lowercase secret.text) ≡ true

  -- The new fact names the secret, the secret may be revealed, and a clue that the player sees, in
  -- the world or in the delta, proves it.
  pub record IsRevealed (related_secret_ids : List EntityKey) (satisfied : Option ConditionRef)
      (secret : Fact) : Type 0 where
    pub named : OneOf secret.id related_secret_ids
    pub revealable : secret.reveal_conditions ≢ []
    pub condition : ConditionRef
    pub satisfied_by : satisfied ≡ some condition
    pub proved :
        (proof_visible_in_world world related_secret_ids condition
          || proof_visible_in_delta world delta related_secret_ids condition)
        ≡ true
    pub evidence : Evidence world delta related_secret_ids condition

  -- Each secret that a fact tells the player is revealed.
  abbrev pub Guarded : String → FactVisibility → List EntityKey → Option ConditionRef → Type 0
  Guarded text visibility related_secret_ids satisfied =
      visibility ≡ FactVisibility.player_known
      → (secret : Fact) → IsTold text secret
      → IsRevealed related_secret_ids satisfied secret

  abbrev pub GuardedFact : Fact → Type 0
  GuardedFact fact =
      Guarded fact.text fact.visibility fact.related_secret_ids fact.reveal_condition_satisfied

  abbrev GuardedAddition : FactToAdd → Type 0
  GuardedAddition fact =
      Guarded fact.text fact.visibility fact.related_secret_ids fact.reveal_condition_satisfied

  IsTold-leaks :
      (text : String) (secret : Fact) → IsTold text secret → leaks to_lowercase text secret ≡ true
  unfolding leaks
  IsTold-leaks text secret t = rw (t.gm_only, t.stated, t.contained)

  reveal-proved :
      (conditions : SecretConditions) (fact : FactToAdd) (satisfied : Option ConditionRef)
      → is_some satisfied ≡ true
      → check_reveal to_lowercase world delta conditions fact satisfied ≡ ok tt
      → (c : ConditionRef) × (satisfied ≡ some c)
        × ((proof_visible_in_world world fact.related_secret_ids c
              || proof_visible_in_delta world delta fact.related_secret_ids c)
            ≡ true)
  unfolding check_reveal validate_secret_reveal_proof
  reveal-proved conditions fact none e h = cc
  reveal-proved conditions fact (some c) e h =
      let (_, proof) = >>-eq-ok _ _ h in (c, refl, ensure-eq-ok _ _ proof)

  leaked-parts :
      (fact : FactToAdd) (secret : Fact)
      → check_leaked to_lowercase fact secret ≡ ok tt
      → OneOf secret.id fact.related_secret_ids
        × (is_some fact.reveal_condition_satisfied ≡ true)
        × (secret.reveal_conditions ≢ [])
  unfolding check_leaked
  leaked-parts fact secret h =
      let (named, rest) = &&-eq-true _ _ (ensure-eq-ok _ _ h) in
      let (has_proof, revealable) = &&-eq-true _ _ rest in
      (
        has_id-OneOf fact.related_secret_ids secret.id named,
        has_proof,
        λ none_there. clash (rw none_there at revealable),
      )
    where
      clash : false ≡ true → ⊥
      clash e = cc

  addition-guarded :
      (conditions : SecretConditions) (fact : FactToAdd)
      → check_fact_to_add to_lowercase world delta conditions fact ≡ ok tt
      → GuardedAddition fact
  unfolding check_fact_to_add find_leaked_gm_only_facts
  addition-guarded conditions fact h visible secret told =
      let (_, checked) = >>-eq-ok (require_reason fact.reason) _ h in
      let player : is_player_known fact.visibility ≡ true = rw visible in
      let shown = when-eq-ok _ _ checked player in
      let (leaked, h1) = >>-eq-ok _ _ shown in
      let (_, reveal) = >>-eq-ok _ _ h1 in
      let (named, has_proof, revealable) = leaked-parts fact secret (
        keep-at _ (leaks to_lowercase fact.text) world.facts secret
          (for_each-eq-ok (check_leaked to_lowercase fact)
            (find_leaked_gm_only_facts to_lowercase world fact.text) leaked)
          told.known (IsTold-leaks fact.text secret told)) in
      let (c, satisfied_by, proved) =
        reveal-proved conditions fact fact.reveal_condition_satisfied has_proof reveal in
      record {
        named = named;
        revealable = revealable;
        condition = c;
        satisfied_by = satisfied_by;
        proved = proved;
        evidence = visible-Evidence world delta fact.related_secret_ids c proved;
      }

  -- An NPC's new knowledge never tells the player a secret.
  knowledge-guarded :
      (scenario : Scenario) (k : EntityKey) (fact : String) (visibility : FactVisibility)
      (reason : String)
      → check_npc_change to_lowercase scenario world
          (npc_ids_of scenario)
          (location_ids_of scenario)
          (NpcChange.knowledge_added k fact visibility reason)
        ≡ ok tt
      → GuardedAddition (knowledge k fact visibility reason)
  unfolding check_npc_content leaks_gm_only_fact find_leaked_gm_only_facts
  knowledge-guarded scenario k fact visibility reason h visible secret told =
      let (_, _, content) =
        check_npc_change-parts to_lowercase scenario world (npc_ids_of scenario)
          (location_ids_of scenario) (NpcChange.knowledge_added k fact visibility reason) h in
      absurd (
        no_leak (is_player_known visibility) (is_empty (keep (leaks to_lowercase fact) world.facts))
          (ensure-eq-ok _ (DeltaValidationError.secret_leak fact) content) (rw visible)
          (keep-not_empty (leaks to_lowercase fact) world.facts secret told.known
            (IsTold-leaks fact secret told)))
    where
      no_leak : (a b : Bool) → not (a && not b) ≡ true → a ≡ true → b ≡ false → ⊥
      no_leak a b e f g = ground arith

  learned-guarded :
      (scenario : Scenario) (changes : List NpcChange)
      → All
          (λ c.
            check_npc_change to_lowercase scenario world
              (npc_ids_of scenario)
              (location_ids_of scenario)
              c
            ≡ ok tt)
          changes
      → All GuardedAddition (filter_map learned_fact changes)
  learned-guarded scenario [] h = tt
  learned-guarded scenario (NpcChange.knowledge_added k fact visibility reason ∷ rest) h =
      (knowledge-guarded scenario k fact visibility reason h.0, learned-guarded scenario rest h.1)
  learned-guarded scenario (_ ∷ rest) h = learned-guarded scenario rest h.1

  numbered-guarded :
      (version : ℤ) (count : ℕ) (new : List FactToAdd)
      → All GuardedAddition new
      → All GuardedFact (numbered version count new)
  numbered-guarded version count [] h = tt
  numbered-guarded version count (fact ∷ rest) h =
      (h.0, numbered-guarded version (suc count) rest h.1)

-- A fact of the old state, or one that tells the player no unrevealed secret of it.
abbrev pub KeepsSecrets : (String → String) → WorldState → WorldStateDelta → Fact → Type 0
KeepsSecrets to_lowercase world delta fact =
    OneOf fact world.facts ⊎ GuardedFact to_lowercase world delta fact

old_facts : (P : Fact → Type 0) (facts : List Fact) → All (λ f. OneOf f facts ⊎ P f) facts
old_facts P [] = tt
old_facts P (fact ∷ facts) = (
  inl (inl refl),
  All-weaken facts (λ f. elim [ inl old ↦ inl (inr old) | inr p ↦ inr p ]) (old_facts P facts),
)

-- After an accepted turn, a fact that the player knows and that is new contains, in lower case, the
-- text of a secret of the old world that is not blank only if it names the secret, the secret has
-- reveal conditions, and a clue that the player sees, of the world or of the delta, is linked to all
-- secrets that the fact names and satisfies the condition that the fact states.
pub apply-KeepsSecrets :
    (to_lowercase : String → String) (scenario : Scenario) (world : WorldState)
    (delta : WorldStateDelta) (validated : ValidatedWorldStateDelta)
    → validate to_lowercase scenario world delta ≡ ok validated
    → All (KeepsSecrets to_lowercase world delta) (apply world validated).facts
apply-KeepsSecrets to_lowercase scenario world delta validated h =
    let accepted = validate-Accepted to_lowercase scenario world delta validated h in
    let same = validate-inner to_lowercase scenario world delta validated h in
    rw (facts-apply, same)
      (All-append (KeepsSecrets to_lowercase world delta) world.facts _
        (old_facts (GuardedFact to_lowercase world delta) world.facts)
        (All-weaken _ (λ f g. inr g)
          (numbered-guarded to_lowercase world delta world.version (length world.facts)
            (new_facts delta)
            (All-append _ delta.facts_to_add _
              (All-weaken delta.facts_to_add
                (addition-guarded to_lowercase world delta (secret_conditions_of scenario))
                accepted.facts)
              (learned-guarded to_lowercase world delta scenario delta.npc_changes
                accepted.npcs)))))
