-- ===== src/Engine/Reducer/Roster.antt =====
-- The reducer neither adds nor removes an NPC, a faction, a quest or a clock, nor changes the
-- session, the scenario or a clock's maximum.
use advanced_roleplaying_fra.Base.{
  ℕ, String, ◌≡◌, refl, ◌∙◌, List, [], ◌∷◌, map, ◌==◌, foldl, foldl-keeps-value, map-update_first,
  any, Bool-cases, inl, inr,
}
use advanced_roleplaying_fra.Base.Int.{ℤ}
use advanced_roleplaying_fra.Domain.Ids.{EntityKey}
use advanced_roleplaying_fra.Domain.State.{
  WorldState, Fact, NpcState, FactionState, QuestState, ClockState,
}
use advanced_roleplaying_fra.Domain.Delta.{NpcChange, FactionChange, QuestChange, ClockChange}
use advanced_roleplaying_fra.Engine.Validated.{ValidatedWorldStateDelta}
use advanced_roleplaying_fra.Engine.Reducer.Records.{next_fact_id, add_fact}
use advanced_roleplaying_fra.Engine.Reducer.Npcs.{change_npcs, learn_fact, change_factions}
use advanced_roleplaying_fra.Engine.Reducer.Counters.{
  complete_objective, change_quests, advance_clock, change_clocks,
}
use advanced_roleplaying_fra.Engine.Reducer.Apply.{apply}
use advanced_roleplaying_fra.Engine.Reducer.Parts.{npcs_after, apply-eq-parts}

abbrev pub npc_key : NpcState → EntityKey
npc_key npc = npc.npc_id

abbrev pub faction_key : FactionState → EntityKey
faction_key faction = faction.faction_id

abbrev pub quest_key : QuestState → EntityKey
quest_key quest = quest.quest_id

abbrev pub clock_frame : ClockState → EntityKey × ℕ
clock_frame clock = (clock.id, clock.max)

-- What of a world state no turn changes.
pub record Roster : Type 0 where
  pub session_id : ℕ
  pub scenario_id : ℕ
  pub npcs : List EntityKey
  pub factions : List EntityKey
  pub quests : List EntityKey
  pub clocks : List (EntityKey × ℕ)

abbrev pub roster : WorldState → Roster
roster state = record {
  session_id = state.session_id;
  scenario_id = state.scenario_id;
  npcs = map npc_key state.npcs;
  factions = map faction_key state.factions;
  quests = map quest_key state.quests;
  clocks = map clock_frame state.clocks;
}

change_npcs-keys :
    (fact_id : String) (npcs : List NpcState) (c : NpcChange)
    → map npc_key (change_npcs fact_id npcs c) ≡ map npc_key npcs
unfolding change_npcs
change_npcs-keys i npcs (NpcChange.attitude_changed k attitude reason) =
    map-update_first npc_key _ _ (λ x. refl) npcs
change_npcs-keys i npcs _ = map-update_first npc_key _ _ (λ x. refl) npcs

npcs_after-keys :
    (version : ℤ) (facts : List Fact) (npcs : List NpcState) (cs : List NpcChange)
    → map npc_key (npcs_after version facts npcs cs) ≡ map npc_key npcs
npcs_after-keys version facts npcs [] = refl
npcs_after-keys version facts npcs (c ∷ cs) =
    npcs_after-keys version (learn_fact version facts c)
      (change_npcs (next_fact_id version facts) npcs c) cs
    ∙ change_npcs-keys (next_fact_id version facts) npcs c

change_factions-keys :
    (factions : List FactionState) (c : FactionChange)
    → map faction_key (change_factions factions c) ≡ map faction_key factions
unfolding change_factions
change_factions-keys fs (FactionChange.goal_revealed k goal reason) =
    map-update_first faction_key _ _ (λ x. refl) fs
change_factions-keys fs _ = map-update_first faction_key _ _ (λ x. refl) fs

complete_objective-key :
    (k : EntityKey) (q : QuestState) → (complete_objective k q).quest_id ≡ q.quest_id
unfolding complete_objective
complete_objective-key k q = elim (Bool-cases (any (λ done. done == k) q.completed_objectives)) [
  | inl found ↦ rw found
  | inr new ↦ rw new
]

change_quests-keys :
    (quests : List QuestState) (c : QuestChange)
    → map quest_key (change_quests quests c) ≡ map quest_key quests
unfolding change_quests
change_quests-keys qs (QuestChange.objective_completed k o reason) =
    map-update_first quest_key _ _ (complete_objective-key o) qs
change_quests-keys qs _ = map-update_first quest_key _ _ (λ x. refl) qs

change_clocks-frames :
    (clocks : List ClockState) (c : ClockChange)
    → map clock_frame (change_clocks clocks c) ≡ map clock_frame clocks
unfolding change_clocks advance_clock
change_clocks-frames cs (ClockChange.advanced k delta reason) =
    map-update_first clock_frame _ _ (λ x. refl) cs
change_clocks-frames cs _ = map-update_first clock_frame _ _ (λ x. refl) cs

-- The roster is the same before and after any turn.
pub roster-apply :
    (state : WorldState) (validated : ValidatedWorldStateDelta)
    → roster (apply state validated) ≡ roster state
roster-apply state validated = rw (apply-eq-parts state validated) λ i. record {
  session_id = state.session_id;
  scenario_id = state.scenario_id;
  npcs =
      npcs_after-keys state.version
        (foldl (add_fact state.version) state.facts validated.inner.facts_to_add) state.npcs
        validated.inner.npc_changes i;
  factions =
      foldl-keeps-value (map faction_key) change_factions change_factions-keys
        validated.inner.faction_changes state.factions i;
  quests =
      foldl-keeps-value (map quest_key) change_quests change_quests-keys
        validated.inner.quest_changes state.quests i;
  clocks =
      foldl-keeps-value (map clock_frame) change_clocks change_clocks-frames
        validated.inner.clock_changes state.clocks i;
}
