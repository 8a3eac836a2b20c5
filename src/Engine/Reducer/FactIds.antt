-- ===== src/Engine/Reducer/FactIds.antt =====
-- The ids of the facts that turns create.
use advanced_roleplaying_fra.Base.{
  ℕ, suc, ◌+◌, ◌≤◌, String, ◌≡◌, ◌≢◌, ap, Bool, true, false, Bool-cases, inl, inr, keep, List, [],
  ◌∷◌, ◌++◌, map, arith, All, Distinct, length,
}
use advanced_roleplaying_fra.Base.Int.{ℤ, pos, add_i64}
use advanced_roleplaying_fra.Base.Text.{codes}
use advanced_roleplaying_fra.Base.Decimal.{decimal_ℤ}
use advanced_roleplaying_fra.Base.Decimal.ReadBack.{
  last_number, last_number-behind, last_number-after_dash,
}
use advanced_roleplaying_fra.Domain.Ids.{EntityKey}
use advanced_roleplaying_fra.Domain.State.{WorldState, Fact, FactSource}
use advanced_roleplaying_fra.Domain.Delta.{FactToAdd}
use advanced_roleplaying_fra.Engine.Validated.{ValidatedWorldStateDelta}
use advanced_roleplaying_fra.Engine.Reducer.Records.{generated_id}
use advanced_roleplaying_fra.Engine.Reducer.Apply.{apply}
use advanced_roleplaying_fra.Engine.Reducer.Numbering.{numbered, new_facts, facts-apply}

-- The number that a generated id ends in is its position, counted from one, whatever the version.
pub last_number-generated_id :
    (prefix : String) (version : ℤ) (count : ℕ)
    → last_number 0 (codes (generated_id prefix version count)) ≡ count + 1
unfolding generated_id
last_number-generated_id prefix version count =
    last_number-behind prefix _ (count + 1)
      (last_number-behind "-" _ (count + 1)
        (last_number-after_dash (decimal_ℤ (add_i64 version (pos 1))) (count + 1)))
      0

abbrev pub fact_id : Fact → EntityKey
fact_id fact = fact.id

abbrev pub from_turn : Fact → Bool
from_turn fact = elim fact.source [ FactSource.turn ↦ true | _ ↦ false ]

-- Each fact that a turn created carries its position in the list in its id.
abbrev pub IsNumbered : ℕ → List Fact → Type 0
IsNumbered count [] = Unit
IsNumbered count (fact ∷ rest) =
    (from_turn fact ≡ true → last_number 0 (codes fact.id) ≡ suc count)
    × IsNumbered (suc count) rest

numbered-IsNumbered :
    (version : ℤ) (count : ℕ) (new : List FactToAdd) → IsNumbered count (numbered version count new)
numbered-IsNumbered version count [] = tt
numbered-IsNumbered version count (fact ∷ rest) = (
  λ _. omega (arith, last_number-generated_id "fact" version count),
  numbered-IsNumbered version (suc count) rest,
)

append-IsNumbered :
    (count : ℕ) (old : List Fact) (version : ℤ) (new : List FactToAdd)
    → IsNumbered count old
    → IsNumbered count (old ++ numbered version (count + length old) new)
append-IsNumbered count [] version new h =
    let same : count + 0 ≡ count = omega arith in rw same (numbered-IsNumbered version count new)
append-IsNumbered count (fact ∷ old) version new h =
    let same : count + suc (length old) ≡ suc count + length old = omega arith in
    rw same (h.0, append-IsNumbered (suc count) old version new h.1)

-- The reducer keeps the numbering, over any number of turns.
pub apply-IsNumbered :
    (state : WorldState) (validated : ValidatedWorldStateDelta)
    → IsNumbered 0 state.facts
    → IsNumbered 0 (apply state validated).facts
apply-IsNumbered state validated h =
    let none_before : 0 + length state.facts ≡ length state.facts = omega arith in
    rw facts-apply (
      rw none_before at
        (append-IsNumbered 0 state.facts state.version (new_facts validated.inner) h))

later_ids :
    (k : EntityKey) (bound count : ℕ) (facts : List Fact)
    → last_number 0 (codes k) ≡ bound
    → bound ≤ count
    → IsNumbered count facts
    → All (λ j. k ≢ j) (map fact_id (keep from_turn facts))
later_ids k bound count [] e le h = tt
later_ids k bound count (fact ∷ facts) e le h =
    let rest = later_ids k bound (suc count) facts e (omega arith) h.1 in
    elim (Bool-cases (from_turn fact)) [
      | inl turn ↦ rw turn (
        λ same.
            absurd
              (omega (arith, h.0 turn, e, ap (λ (i : EntityKey). last_number 0 (codes i)) same)),
        rest,
      )
      | inr other ↦ rw other rest
    ]

-- Under the numbering no two facts of turns share an id.
pub IsNumbered-Distinct :
    (count : ℕ) (facts : List Fact)
    → IsNumbered count facts
    → Distinct (map fact_id (keep from_turn facts))
IsNumbered-Distinct count [] h = tt
IsNumbered-Distinct count (fact ∷ facts) h =
    let rest = IsNumbered-Distinct (suc count) facts h.1 in
    elim (Bool-cases (from_turn fact)) [
      | inl turn ↦
          rw turn
            (later_ids fact.id (suc count) (suc count) facts (h.0 turn) (omega arith) h.1, rest)
      | inr other ↦ rw other rest
    ]

-- From a numbered state, after a turn no two facts that turns created share an id.
pub turn_fact_ids-Distinct :
    (state : WorldState) (validated : ValidatedWorldStateDelta)
    → IsNumbered 0 state.facts
    → Distinct (map fact_id (keep from_turn (apply state validated).facts))
turn_fact_ids-Distinct state validated h =
    IsNumbered-Distinct 0 (apply state validated).facts (apply-IsNumbered state validated h)
