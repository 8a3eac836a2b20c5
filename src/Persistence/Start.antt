-- ===== src/Persistence/Start.antt =====
-- The invariants of a world state hold where a session starts.
use advanced_roleplaying_fra.Base.{
  ℕ, suc, ◌≡◌, refl, false, Bool-cases, inl, inr, Option, some, List, [], ◌∷◌, map, ◌==◌, All,
  subst,
}
use advanced_roleplaying_fra.Domain.Ids.{EntityKey, Uuid}
use advanced_roleplaying_fra.Domain.Scenario.{Scenario, Npc, Faction, Quest, Secret, ClockTemplate}
use advanced_roleplaying_fra.Domain.State.{WorldState, Fact}
use advanced_roleplaying_fra.Domain.Validation.Sound.{IsSound, TemplateWithin, StandingWithin}
use advanced_roleplaying_fra.Engine.Reducer.WellFormed.{
  IsWellFormed, ClockWithin, ObjectivesDistinct,
}
use advanced_roleplaying_fra.Engine.Reducer.FactIds.{IsNumbered}
use advanced_roleplaying_fra.Engine.Reducer.Knowledge.{KnowsFacts}
use advanced_roleplaying_fra.Engine.Validation.Secrets.{is_player_known}
use advanced_roleplaying_fra.Engine.Turn.Standing.{InHundred, StandingsInRange}
use advanced_roleplaying_fra.Persistence.Initial.{
  initial_world_state, initial_fact, initial_npc, initial_faction, initial_quest, initial_clock,
  first_location,
}

clocks_start :
    (clocks : List ClockTemplate)
    → All TemplateWithin clocks
    → All ClockWithin (map initial_clock clocks)
clocks_start [] h = tt
clocks_start (clock ∷ clocks) h = (h.0, clocks_start clocks h.1)

quests_start : (quests : List Quest) → All ObjectivesDistinct (map initial_quest quests)
quests_start [] = tt
quests_start (quest ∷ quests) = (tt, quests_start quests)

facts_start : (count : ℕ) (secrets : List Secret) → IsNumbered count (map initial_fact secrets)
facts_start count [] = tt
facts_start count (secret ∷ secrets) = ((λ h. cc), facts_start (suc count) secrets)

npcs_start :
    (facts : List Fact) (start : Option EntityKey) (npcs : List Npc)
    → All (KnowsFacts facts) (map (initial_npc start) npcs)
unfolding initial_npc
npcs_start facts start [] = tt
npcs_start facts start (npc ∷ npcs) = (tt, npcs_start facts start npcs)

standings_start :
    (factions : List Faction)
    → All StandingWithin factions
    → StandingsInRange (map initial_faction factions)
standings_start [] h k v e = absurd cc
standings_start (faction ∷ factions) h k v e = elim (Bool-cases (faction.id == k)) [
  | inl here ↦
      let found : some faction.initial_standing ≡ some v = rw here at e in
      let same : faction.initial_standing ≡ v = cc in subst InHundred same h.0
  | inr there ↦ standings_start factions h.1 k v (rw there at e)
]

hidden_start :
    (secrets : List Secret)
    → All (λ (fact : Fact). is_player_known fact.visibility ≡ false) (map initial_fact secrets)
hidden_start [] = tt
hidden_start (secret ∷ secrets) = (refl, hidden_start secrets)

-- The invariants that turns keep, and no fact that the player knows.
pub record IsGoodStart (state : WorldState) : Type 0 where
  pub well_formed : IsWellFormed state
  pub numbered : IsNumbered 0 state.facts
  pub knowledge : All (KnowsFacts state.facts) state.npcs
  pub standings : StandingsInRange state.factions
  pub hidden : All (λ (fact : Fact). is_player_known fact.visibility ≡ false) state.facts

-- A session of a scenario that passes validation starts with a world state that is well formed,
-- whose facts are numbered, whose NPCs know only facts that exist, whose standings lie between -100
-- and 100, and of whose facts the player knows none.
pub initial_world_state-IsGoodStart :
    (session_id : Uuid) (scenario : Scenario)
    → IsSound scenario
    → IsGoodStart (initial_world_state session_id scenario)
unfolding initial_world_state
initial_world_state-IsGoodStart session_id scenario sound = record {
  well_formed = record {
    clocks_within = clocks_start scenario.clocks sound.clocks_within;
    items_distinct = tt;
    clues_distinct = tt;
    relationships_distinct = tt;
    objectives_distinct = quests_start scenario.quests;
  };
  numbered = facts_start 0 scenario.secrets;
  knowledge =
      npcs_start (map initial_fact scenario.secrets) (first_location scenario.locations)
        scenario.npcs;
  standings = standings_start scenario.factions sound.standings_within;
  hidden = hidden_start scenario.secrets;
}
