-- ===== src/Engine/Validation/Accepted.antt =====
-- What the validator has checked when it accepts a delta: every check of every change.
use advanced_roleplaying_fra.Base.{
  String, ◌≡◌, sym, ap, All, Result, ok, err, >>-eq-ok, for_each-eq-ok,
}
use advanced_roleplaying_fra.Domain.Scenario.{Scenario}
use advanced_roleplaying_fra.Domain.State.{WorldState}
use advanced_roleplaying_fra.Domain.Delta.{WorldStateDelta}
use advanced_roleplaying_fra.Engine.Validated.{ValidatedWorldStateDelta}
use advanced_roleplaying_fra.Engine.Validation.Secrets.{check_fact_to_add}
use advanced_roleplaying_fra.Engine.Validation.Npcs.{check_npc_change, check_faction_change}
use advanced_roleplaying_fra.Engine.Validation.Counters.{
  check_quest_change, check_clock_change, check_relationship_change, check_inventory_change,
}
use advanced_roleplaying_fra.Engine.Validation.Records.{
  check_scene_change, check_active_speaker_change, check_summary_update,
  check_action_resolution_change, check_memory_change, check_player_change, check_clue_change,
  check_location_change,
}
use advanced_roleplaying_fra.Engine.Validation.Validate.{
  validate, npc_ids_of, faction_ids_of, quest_ids_of, location_ids_of, clock_ids_of,
  inventory_ids_of, secret_conditions_of,
}

abbrev inner_of :
    {E : Type 0} → WorldStateDelta → Result ValidatedWorldStateDelta E → WorldStateDelta
inner_of d (ok validated) = validated.inner
inner_of d (err e) = d

module _ (to_lowercase : String → String) (scenario : Scenario) (world : WorldState) where
  pub record Accepted (delta : WorldStateDelta) : Type 0 where
    pub scene : check_scene_change delta.scene_change ≡ ok tt
    pub speaker :
        check_active_speaker_change (npc_ids_of scenario) delta.active_speaker_change ≡ ok tt
    pub summary : check_summary_update delta.summary_update ≡ ok tt
    pub actions :
        All
          (λ c. check_action_resolution_change delta (clock_ids_of world) c ≡ ok tt)
          delta.action_resolution_changes
    pub memories : All (λ c. check_memory_change world c ≡ ok tt) delta.memory_changes
    pub facts :
        All
          (λ c.
            check_fact_to_add to_lowercase world delta (secret_conditions_of scenario) c ≡ ok tt)
          delta.facts_to_add
    pub npcs :
        All
          (λ c.
            check_npc_change to_lowercase scenario world
              (npc_ids_of scenario)
              (location_ids_of scenario)
              c
            ≡ ok tt)
          delta.npc_changes
    pub factions :
        All
          (λ c. check_faction_change world (faction_ids_of scenario) c ≡ ok tt)
          delta.faction_changes
    pub quests : All (λ c. check_quest_change (quest_ids_of scenario) c ≡ ok tt) delta.quest_changes
    pub clocks :
        All (λ c. check_clock_change world (clock_ids_of world) c ≡ ok tt) delta.clock_changes
    pub relationships :
        All
          (λ c.
            check_relationship_change world (npc_ids_of scenario) (faction_ids_of scenario) c
            ≡ ok tt)
          delta.relationship_changes
    pub inventory :
        All (λ c. check_inventory_change (inventory_ids_of world) c ≡ ok tt) delta.inventory_changes
    pub player : All (λ c. check_player_change world c ≡ ok tt) delta.player_changes
    pub clues :
        All
          (λ c. check_clue_change world delta (secret_conditions_of scenario) c ≡ ok tt)
          delta.clue_changes
    pub location : check_location_change (location_ids_of scenario) delta.location_change ≡ ok tt

  validate-parts :
      (delta : WorldStateDelta) (validated : ValidatedWorldStateDelta)
      → validate to_lowercase scenario world delta ≡ ok validated
      → Accepted delta × (validated.inner ≡ delta)
  unfolding validate
  validate-parts delta validated h =
      let (scene, h0) = >>-eq-ok _ _ h in
      let (speaker, h1) = >>-eq-ok _ _ h0 in
      let (summary, h2) = >>-eq-ok _ _ h1 in
      let (actions, h3) = >>-eq-ok _ _ h2 in
      let (memories, h4) = >>-eq-ok _ _ h3 in
      let (facts, h5) = >>-eq-ok _ _ h4 in
      let (npcs, h6) = >>-eq-ok _ _ h5 in
      let (factions, h7) = >>-eq-ok _ _ h6 in
      let (quests, h8) = >>-eq-ok _ _ h7 in
      let (clocks, h9) = >>-eq-ok _ _ h8 in
      let (relationships, h10) = >>-eq-ok _ _ h9 in
      let (inventory, h11) = >>-eq-ok _ _ h10 in
      let (player, h12) = >>-eq-ok _ _ h11 in
      let (clues, h13) = >>-eq-ok _ _ h12 in
      let (location, h14) = >>-eq-ok _ _ h13 in
      (
        record {
          scene = scene;
          speaker = speaker;
          summary = summary;
          actions = for_each-eq-ok _ _ actions;
          memories = for_each-eq-ok _ _ memories;
          facts = for_each-eq-ok _ _ facts;
          npcs = for_each-eq-ok _ _ npcs;
          factions = for_each-eq-ok _ _ factions;
          quests = for_each-eq-ok _ _ quests;
          clocks = for_each-eq-ok _ _ clocks;
          relationships = for_each-eq-ok _ _ relationships;
          inventory = for_each-eq-ok _ _ inventory;
          player = for_each-eq-ok _ _ player;
          clues = for_each-eq-ok _ _ clues;
          location = location;
        },
        sym (ap (inner_of delta) h14),
      )

  pub validate-Accepted :
      (delta : WorldStateDelta) (validated : ValidatedWorldStateDelta)
      → validate to_lowercase scenario world delta ≡ ok validated
      → Accepted delta
  validate-Accepted delta validated h = (validate-parts delta validated h).0

  -- The validated delta is the delta itself.
  pub validate-inner :
      (delta : WorldStateDelta) (validated : ValidatedWorldStateDelta)
      → validate to_lowercase scenario world delta ≡ ok validated
      → validated.inner ≡ delta
  validate-inner delta validated h = (validate-parts delta validated h).1
