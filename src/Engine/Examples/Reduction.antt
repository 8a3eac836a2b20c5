-- ===== src/Engine/Examples/Reduction.antt =====
-- The reducer on the sample.
use advanced_roleplaying_fra.Base.{◌≡◌, refl, inl, ◌++◌, map, arith, All, Distinct, keep}
use advanced_roleplaying_fra.Base.Int.{pos}
use advanced_roleplaying_fra.Base.Text.{codes}
use advanced_roleplaying_fra.Base.Decimal.ReadBack.{last_number}
use advanced_roleplaying_fra.Engine.Sample.{harbor_world, ledger_found, accepted_ledger}
use advanced_roleplaying_fra.Engine.Reducer.Apply.{apply}
use advanced_roleplaying_fra.Engine.Reducer.Records.{generated_id}
use advanced_roleplaying_fra.Engine.Reducer.WellFormed.{IsWellFormed, apply-IsWellFormed}
use advanced_roleplaying_fra.Engine.Reducer.Numbering.{numbered, new_facts, facts-apply}
use advanced_roleplaying_fra.Engine.Reducer.FactIds.{
  IsNumbered, apply-IsNumbered, fact_id, from_turn, turn_fact_ids-Distinct,
  last_number-generated_id,
}
use advanced_roleplaying_fra.Engine.Reducer.Roster.{roster, roster-apply}
use advanced_roleplaying_fra.Engine.Reducer.Knowledge.{KnowsFacts, apply-KnowsFacts}

harbor-IsWellFormed : IsWellFormed harbor_world
harbor-IsWellFormed = record {
  clocks_within = (omega arith, tt);
  items_distinct = tt;
  clues_distinct = tt;
  relationships_distinct = tt;
  objectives_distinct = (tt, tt);
}

apply-IsWellFormed_example : IsWellFormed (apply harbor_world accepted_ledger)
apply-IsWellFormed_example = apply-IsWellFormed harbor_world accepted_ledger harbor-IsWellFormed

facts-apply_example :
    (apply harbor_world accepted_ledger).facts
    ≡ harbor_world.facts ++ numbered (pos 4) 2 (new_facts ledger_found)
facts-apply_example = facts-apply harbor_world accepted_ledger

harbor-IsNumbered : IsNumbered 0 harbor_world.facts
unfolding last_number
harbor-IsNumbered = (λ e. cc, (λ e. refl, tt))

turn_fact_ids-Distinct_example :
    Distinct (map fact_id (keep from_turn (apply harbor_world accepted_ledger).facts))
turn_fact_ids-Distinct_example =
    turn_fact_ids-Distinct harbor_world accepted_ledger harbor-IsNumbered

apply-IsNumbered_example : IsNumbered 0 (apply harbor_world accepted_ledger).facts
apply-IsNumbered_example = apply-IsNumbered harbor_world accepted_ledger harbor-IsNumbered

last_number-generated_id_example : last_number 0 (codes (generated_id "fact" (pos 4) 11)) ≡ 12
last_number-generated_id_example = last_number-generated_id "fact" (pos 4) 11

apply-KnowsFacts_example :
    All
      (KnowsFacts (apply harbor_world accepted_ledger).facts)
      (apply harbor_world accepted_ledger).npcs
apply-KnowsFacts_example = apply-KnowsFacts harbor_world accepted_ledger ((inl refl, tt), (tt, tt))

roster-apply_example : roster (apply harbor_world accepted_ledger) ≡ roster harbor_world
roster-apply_example = roster-apply harbor_world accepted_ledger
