-- ===== src/Engine/Examples/Showing.antt =====
-- What the player of the sample is shown.
use advanced_roleplaying_fra.Base.{
  ◌≡◌, refl, String, false, map, [], ◌∷◌, arith, Distinct, All, OneOf,
}
use advanced_roleplaying_fra.Base.Int.{pos}
use advanced_roleplaying_fra.Engine.Sample.{harbor, harbor_world, ledger_found, accepted_ledger}
use advanced_roleplaying_fra.Domain.State.{FactVisibility, Fact, ClueState, WorldState}
use advanced_roleplaying_fra.Engine.Validated.{ValidatedWorldStateDelta}
use advanced_roleplaying_fra.Engine.Reducer.Numbering.{knowledge}
use advanced_roleplaying_fra.Engine.Projection.View.{project}
use advanced_roleplaying_fra.Engine.Projection.Hiding.{redact, player_context, project-redact}
use advanced_roleplaying_fra.Engine.Projection.Changed.{
  changed_entities, recent_facts, recent_clues, take_last,
}
use advanced_roleplaying_fra.Engine.Projection.Unique.{ref_to, changed_entities-Distinct}
use advanced_roleplaying_fra.Engine.Projection.Mentions.{
  Mentions, clue_key, changed_entities-Mentions, changed_entities-new,
}
use advanced_roleplaying_fra.Engine.Projection.Recent.{recent_facts-added, recent_facts-learned}
use advanced_roleplaying_fra.Engine.Reducer.Apply.{apply}
use advanced_roleplaying_fra.Engine.Reducer.Parts.{apply-eq-parts}
use advanced_roleplaying_fra.Engine.Reducer.Player.{change_clues}
use advanced_roleplaying_fra.Engine.Reducer.Numbering.{numbered}

project-redact_example :
    project harbor (redact harbor harbor_world) player_context
    ≡ project harbor harbor_world player_context
project-redact_example = project-redact harbor harbor_world

changed_entities-Mentions_example :
    Mentions harbor_world ledger_found
      (changed_entities (apply harbor_world accepted_ledger) accepted_ledger)
changed_entities-Mentions_example = changed_entities-Mentions harbor_world accepted_ledger

changed_entities-Distinct_example : Distinct (changed_entities harbor_world accepted_ledger)
changed_entities-Distinct_example = changed_entities-Distinct harbor_world accepted_ledger

abbrev ledger_only : ValidatedWorldStateDelta
ledger_only = record { inner = record ledger_found { npc_changes = [] } }

-- The ledger's fact and its clue are listed.
changed_entities-new_example :
    All
      (λ (fact : Fact).
        OneOf
          (ref_to "fact" fact.id)
          (changed_entities (apply harbor_world ledger_only) ledger_only))
      (numbered (pos 4) 2 ledger_found.facts_to_add)
    × All
        (λ id.
          OneOf (ref_to "clue" id) (changed_entities (apply harbor_world ledger_only) ledger_only))
        ("clue-1" ∷ [])
changed_entities-new_example = changed_entities-new harbor_world ledger_only refl (tt, tt)

-- The clue that is discovered again is not listed, but the last one of the state.
abbrev two_clues : WorldState
two_clues = record harbor_world { clues = found "clue-1" ∷ found "clue-2" ∷ [] }
  where
    found : String → ClueState
    found id = record {
      id = id;
      text = "a ledger";
      linked_secret_ids = [];
      satisfied_reveal_conditions = [];
      visible_to_player = false;
    }

discovered_again :
    map clue_key (recent_clues (apply two_clues accepted_ledger) ledger_found) ≡ "clue-2" ∷ []
unfolding change_clues
discovered_again = rw (apply-eq-parts two_clues accepted_ledger) refl

recent_facts-added_example :
    recent_facts (apply harbor_world ledger_only) ledger_only.inner
    ≡ numbered (pos 4) 2 ledger_found.facts_to_add
recent_facts-added_example = recent_facts-added harbor_world ledger_only refl

-- The fact of the ledger is not reported.
recent_facts-learned_example :
    recent_facts (apply harbor_world accepted_ledger) ledger_found
    ≡ take_last 1 (
        numbered
          (pos 4)
          3
          (knowledge "mara" "the player knows" FactVisibility.npc_known "she saw it" ∷ []))
recent_facts-learned_example = recent_facts-learned harbor_world accepted_ledger (omega arith)
