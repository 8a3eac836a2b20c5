-- ===== src/Engine/Reducer/Knowledge.antt =====
-- What NPCs know: each fact id that an NPC carries belongs to a fact of the world state.
use advanced_roleplaying_fra.Base.{
  sym, subst, List, [], ◌∷◌, map, All, OneOf, push, foldl, foldl-keeps, map-push, All-push,
  All-weaken, All-update_first, OneOf-push, OneOf-push_old,
}
use advanced_roleplaying_fra.Base.Int.{ℤ}
use advanced_roleplaying_fra.Domain.Ids.{EntityKey}
use advanced_roleplaying_fra.Domain.State.{WorldState, Fact, NpcState}
use advanced_roleplaying_fra.Domain.Delta.{NpcChange, FactToAdd}
use advanced_roleplaying_fra.Engine.Validated.{ValidatedWorldStateDelta}
use advanced_roleplaying_fra.Engine.Reducer.Records.{add_fact, next_fact_id}
use advanced_roleplaying_fra.Engine.Reducer.Npcs.{change_npcs, learn_fact}
use advanced_roleplaying_fra.Engine.Reducer.Apply.{apply}
use advanced_roleplaying_fra.Engine.Reducer.Parts.{npcs_after, apply-eq-parts}
use advanced_roleplaying_fra.Engine.Reducer.FactIds.{fact_id}

abbrev pub Exists : List Fact → EntityKey → Type 0
Exists facts id = OneOf id (map fact_id facts)

-- Everything that the NPC knows is a fact of the list.
abbrev pub KnowsFacts : List Fact → NpcState → Type 0
KnowsFacts facts npc = All (Exists facts) npc.known_facts

push-Exists :
    (facts : List Fact) (fact : Fact) (k : EntityKey) → Exists facts k → Exists (push facts fact) k
push-Exists facts fact k h =
    subst (OneOf k) (sym (map-push fact_id facts fact))
      (OneOf-push_old (map fact_id facts) fact.id k h)

push-KnowsFacts :
    (facts : List Fact) (fact : Fact) (npcs : List NpcState)
    → All (KnowsFacts facts) npcs
    → All (KnowsFacts (push facts fact)) npcs
push-KnowsFacts facts fact npcs =
    All-weaken npcs (λ npc. All-weaken npc.known_facts (push-Exists facts fact))

change_npcs-KnowsFacts :
    (version : ℤ) (facts : List Fact) (npcs : List NpcState) (c : NpcChange)
    → All (KnowsFacts facts) npcs
    → All
        (KnowsFacts (learn_fact version facts c))
        (change_npcs (next_fact_id version facts) npcs c)
unfolding change_npcs learn_fact
change_npcs-KnowsFacts version facts npcs (NpcChange.knowledge_added k fact visibility reason) h =
    All-update_first _ _ _
      (λ npc _ knows. All-push _ npc.known_facts (next_fact_id version facts) knows (
        subst (OneOf (next_fact_id version facts)) (sym (map-push fact_id facts _))
          (OneOf-push (map fact_id facts) (next_fact_id version facts))))
      npcs (push-KnowsFacts facts _ npcs h)
change_npcs-KnowsFacts version facts npcs _ h =
    All-update_first (KnowsFacts facts) _ _ (λ npc _ knows. knows) npcs h

npcs_after-KnowsFacts :
    (version : ℤ) (facts : List Fact) (npcs : List NpcState) (cs : List NpcChange)
    → All (KnowsFacts facts) npcs
    → All (KnowsFacts (foldl (learn_fact version) facts cs)) (npcs_after version facts npcs cs)
npcs_after-KnowsFacts version facts npcs [] h = h
npcs_after-KnowsFacts version facts npcs (c ∷ cs) h =
    npcs_after-KnowsFacts version (learn_fact version facts c)
      (change_npcs (next_fact_id version facts) npcs c) cs
      (change_npcs-KnowsFacts version facts npcs c h)

add_facts-KnowsFacts :
    (version : ℤ) (npcs : List NpcState) (new : List FactToAdd) (facts : List Fact)
    → All (KnowsFacts facts) npcs
    → All (KnowsFacts (foldl (add_fact version) facts new)) npcs
unfolding add_fact
add_facts-KnowsFacts version npcs new facts h =
    foldl-keeps (λ fs. All (KnowsFacts fs) npcs) (add_fact version)
      (λ fs fact. push-KnowsFacts fs _ npcs) new facts h

-- If every NPC knows only facts of the state, that is so after the turn, new knowledge included.
pub apply-KnowsFacts :
    (state : WorldState) (validated : ValidatedWorldStateDelta)
    → All (KnowsFacts state.facts) state.npcs
    → All (KnowsFacts (apply state validated).facts) (apply state validated).npcs
apply-KnowsFacts state validated h = rw (apply-eq-parts state validated) (
    npcs_after-KnowsFacts state.version _ state.npcs validated.inner.npc_changes
      (add_facts-KnowsFacts state.version state.npcs validated.inner.facts_to_add state.facts h))
