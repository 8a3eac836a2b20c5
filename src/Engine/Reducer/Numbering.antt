-- ===== src/Engine/Reducer/Numbering.antt =====
-- The facts that a turn creates: which they are, in which order, and their ids.
use advanced_roleplaying_fra.Base.{
  ℕ, suc, String, ◌≡◌, refl, sym, ap, ◌∙◌, Option, none, some, List, [], ◌∷◌, ◌++◌, push, length,
  filter_map, foldl,
}
use mathlib.Core.List.{append_assoc, append-nil}
use advanced_roleplaying_fra.Base.Int.{ℤ}
use advanced_roleplaying_fra.Domain.Ids.{EntityKey}
use advanced_roleplaying_fra.Domain.State.{WorldState, Fact, FactSource, FactVisibility}
use advanced_roleplaying_fra.Domain.Delta.{FactToAdd, NpcChange, WorldStateDelta}
use advanced_roleplaying_fra.Engine.Validated.{ValidatedWorldStateDelta}
use advanced_roleplaying_fra.Engine.Reducer.Records.{generated_id, next_fact_id, add_fact}
use advanced_roleplaying_fra.Engine.Reducer.Npcs.{learn_fact}
use advanced_roleplaying_fra.Engine.Reducer.Apply.{apply}
use advanced_roleplaying_fra.Engine.Reducer.Parts.{apply-eq-parts}

abbrev pub fact_of : EntityKey → FactToAdd → Fact
fact_of id fact = record {
  id = id;
  text = fact.text;
  visibility = fact.visibility;
  known_by = fact.known_by;
  source = FactSource.turn;
  reveal_conditions = fact.reveal_conditions;
  related_secret_ids = fact.related_secret_ids;
  reveal_condition_satisfied = fact.reveal_condition_satisfied;
}

-- `KnowledgeAdded` stands for a fact that only that NPC knows, with no reveal conditions.
abbrev pub knowledge : EntityKey → String → FactVisibility → String → FactToAdd
knowledge npc_id fact visibility reason = record {
  text = fact;
  visibility = visibility;
  known_by = npc_id ∷ [];
  reveal_conditions = [];
  reason = reason;
  related_secret_ids = [];
  reveal_condition_satisfied = none;
}

abbrev pub learned_fact : NpcChange → Option FactToAdd
learned_fact (NpcChange.knowledge_added npc_id fact visibility reason) =
    some (knowledge npc_id fact visibility reason)
learned_fact _ = none

-- First the facts of `facts_to_add`, then the knowledge that NPCs gain.
abbrev pub new_facts : WorldStateDelta → List FactToAdd
new_facts delta = delta.facts_to_add ++ filter_map learned_fact delta.npc_changes

-- Numbers the facts one after another, from the count that is already there.
abbrev pub numbered : ℤ → ℕ → List FactToAdd → List Fact
numbered version count [] = []
numbered version count (fact ∷ rest) =
    fact_of (generated_id "fact" version count) fact ∷ numbered version (suc count) rest

pub length-push {ℓ} : {A : Type ℓ} (xs : List A) (x : A) → length (push xs x) ≡ suc (length xs)
length-push [] x = refl
length-push (y ∷ xs) x = ap suc (length-push xs x)

push-numbered :
    (version : ℤ) (facts : List Fact) (fact : FactToAdd) (rest : List FactToAdd)
    → push facts (fact_of (next_fact_id version facts) fact)
        ++ numbered version (length (push facts (fact_of (next_fact_id version facts) fact))) rest
      ≡ facts ++ numbered version (length facts) (fact ∷ rest)
push-numbered version facts fact rest = rw (
  length-push facts (fact_of (next_fact_id version facts) fact),
  append_assoc facts (fact_of (next_fact_id version facts) fact ∷ []),
)

numbered-append :
    (version : ℤ) (facts : List Fact) (xs ys : List FactToAdd)
    → (facts ++ numbered version (length facts) xs)
        ++ numbered version (length (facts ++ numbered version (length facts) xs)) ys
      ≡ facts ++ numbered version (length facts) (xs ++ ys)
numbered-append version facts [] ys = rw (append-nil facts)
numbered-append version facts (x ∷ xs) ys =
    rw (← push-numbered version facts x xs, ← push-numbered version facts x (xs ++ ys))
      (numbered-append version (push facts (fact_of (next_fact_id version facts) x)) xs ys)

add_facts-numbered :
    (version : ℤ) (facts : List Fact) (new : List FactToAdd)
    → foldl (add_fact version) facts new ≡ facts ++ numbered version (length facts) new
unfolding add_fact
add_facts-numbered version facts [] = sym (append-nil facts)
add_facts-numbered version facts (fact ∷ new) =
    add_facts-numbered version (add_fact version facts fact) new
    ∙ push-numbered version facts fact new

learn_facts-numbered :
    (version : ℤ) (facts : List Fact) (changes : List NpcChange)
    → foldl (learn_fact version) facts changes
      ≡ facts ++ numbered version (length facts) (filter_map learned_fact changes)
unfolding learn_fact
learn_facts-numbered version facts [] = sym (append-nil facts)
learn_facts-numbered version facts
      (NpcChange.knowledge_added npc_id fact visibility reason ∷ rest) =
    learn_facts-numbered version
      (learn_fact version facts (NpcChange.knowledge_added npc_id fact visibility reason)) rest
    ∙ push-numbered version facts (knowledge npc_id fact visibility reason)
        (filter_map learned_fact rest)
learn_facts-numbered version facts (change ∷ rest) = learn_facts-numbered version facts rest

-- A turn appends exactly the new facts of its delta, in order, numbered on from the old ones.
pub facts-apply :
    (state : WorldState) (validated : ValidatedWorldStateDelta)
    → (apply state validated).facts
      ≡ state.facts ++ numbered state.version (length state.facts) (new_facts validated.inner)
facts-apply state validated =
    ap (λ (s : WorldState). s.facts) (apply-eq-parts state validated)
    ∙ learn_facts-numbered state.version
        (foldl (add_fact state.version) state.facts validated.inner.facts_to_add)
        validated.inner.npc_changes
    ∙ rw (add_facts-numbered state.version state.facts validated.inner.facts_to_add) (
        numbered-append state.version state.facts validated.inner.facts_to_add
          (filter_map learned_fact validated.inner.npc_changes))
