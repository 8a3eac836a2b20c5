-- ===== src/Engine/Projection/Loops.antt =====
-- Each loop of `changed_entities` lists what it runs over, and what one has listed stays.
use advanced_roleplaying_fra.Base.{
  String, ◌≡◌, refl, Option, none, some, List, [], ◌∷◌, All, OneOf, All-weaken,
}
use advanced_roleplaying_fra.Domain.Ids.{EntityKey}
use advanced_roleplaying_fra.Domain.State.{WorldState, Fact, ActionResolution, ClueState}
use advanced_roleplaying_fra.Domain.Delta.{WorldStateDelta, LocationChange, PlayerChange}
use advanced_roleplaying_fra.Domain.Visible.{EntityRef}
use advanced_roleplaying_fra.Engine.Validated.{ValidatedWorldStateDelta}
use advanced_roleplaying_fra.Engine.Targets.{faction_of, quest_of, clock_of}
use advanced_roleplaying_fra.Engine.Validation.Npcs.{npc_of}
use advanced_roleplaying_fra.Engine.Projection.Changed.{
  push_all, relationship_ref, recent_facts, recent_actions, recent_clues, push_player,
  push_location, changed_entities,
}
use advanced_roleplaying_fra.Engine.Projection.Unique.{
  ref_to, push_unique-OneOf, push_all-keeps, push_all-OneOf, push_player-keeps, push_location-keeps,
}

abbrev pub MentionsPlayer : List PlayerChange → List EntityRef → Type 0
MentionsPlayer [] refs = Unit
MentionsPlayer (change ∷ rest) refs = OneOf (ref_to "player" "player") refs

abbrev pub MentionsLocation : Option LocationChange → List EntityRef → Type 0
MentionsLocation none refs = Unit
MentionsLocation (some change) refs = OneOf (ref_to "location" change.location_id) refs

-- What the loops of `changed_entities` run over is among the references.
pub record Runs (state : WorldState) (delta : WorldStateDelta) (refs : List EntityRef)
    : Type 0 where
  pub facts : All (λ (fact : Fact). OneOf (ref_to "fact" fact.id) refs) (recent_facts state delta)
  pub npcs : All (λ c. OneOf (ref_to "npc" (npc_of c)) refs) delta.npc_changes
  pub factions : All (λ c. OneOf (ref_to "faction" (faction_of c)) refs) delta.faction_changes
  pub quests : All (λ c. OneOf (ref_to "quest" (quest_of c)) refs) delta.quest_changes
  pub clocks : All (λ c. OneOf (ref_to "clock" (clock_of c)) refs) delta.clock_changes
  pub relationships :
      All (λ c. OneOf (ref_to "relationship" (relationship_ref c)) refs) delta.relationship_changes
  pub actions :
      All
        (λ (r : ActionResolution). OneOf (ref_to "action_resolution" r.id) refs)
        (recent_actions state delta)
  pub clues :
      All (λ (clue : ClueState). OneOf (ref_to "clue" clue.id) refs) (recent_clues state delta)
  pub player : MentionsPlayer delta.player_changes refs
  pub location : MentionsLocation delta.location_change refs

module _ (state : WorldState) (delta : WorldStateDelta) where
  abbrev after_facts : List EntityRef
  after_facts = push_all "fact" (λ (fact : Fact). fact.id) [] (recent_facts state delta)

  abbrev after_npcs : List EntityRef
  after_npcs = push_all "npc" npc_of after_facts delta.npc_changes

  abbrev after_factions : List EntityRef
  after_factions = push_all "faction" faction_of after_npcs delta.faction_changes

  abbrev after_quests : List EntityRef
  after_quests = push_all "quest" quest_of after_factions delta.quest_changes

  abbrev after_clocks : List EntityRef
  after_clocks = push_all "clock" clock_of after_quests delta.clock_changes

  abbrev after_relationships : List EntityRef
  after_relationships =
      push_all "relationship" relationship_ref after_clocks delta.relationship_changes

  abbrev after_actions : List EntityRef
  after_actions =
      push_all "action_resolution" (λ (r : ActionResolution). r.id) after_relationships
        (recent_actions state delta)

  abbrev after_clues : List EntityRef
  after_clues =
      push_all "clue" (λ (clue : ClueState). clue.id) after_actions (recent_clues state delta)

  abbrev after_all : List EntityRef
  after_all = push_location delta.location_change (push_player delta after_clues)

  -- What is listed at that point is listed at the end.
  abbrev Stays : List EntityRef → Type 0
  Stays refs = (r : EntityRef) → OneOf r refs → OneOf r after_all

  after_clues-Stays : Stays after_clues
  after_clues-Stays r h =
      push_location-keeps delta.location_change (push_player delta after_clues) r
        (push_player-keeps delta after_clues r h)

  after_actions-Stays : Stays after_actions
  after_actions-Stays r h = after_clues-Stays r (push_all-keeps "clue" _ _ _ r h)

  after_relationships-Stays : Stays after_relationships
  after_relationships-Stays r h =
      after_actions-Stays r (push_all-keeps "action_resolution" _ _ _ r h)

  after_clocks-Stays : Stays after_clocks
  after_clocks-Stays r h = after_relationships-Stays r (push_all-keeps "relationship" _ _ _ r h)

  after_quests-Stays : Stays after_quests
  after_quests-Stays r h = after_clocks-Stays r (push_all-keeps "clock" _ _ _ r h)

  after_factions-Stays : Stays after_factions
  after_factions-Stays r h = after_quests-Stays r (push_all-keeps "quest" _ _ _ r h)

  after_npcs-Stays : Stays after_npcs
  after_npcs-Stays r h = after_factions-Stays r (push_all-keeps "faction" _ _ _ r h)

  after_facts-Stays : Stays after_facts
  after_facts-Stays r h = after_npcs-Stays r (push_all-keeps "npc" _ _ _ r h)

  Stays-All :
      {A : Type 0} (t : String) (id_of : A → EntityKey) (refs : List EntityRef) (xs : List A)
      → Stays (push_all t id_of refs xs)
      → All (λ x. OneOf (ref_to t (id_of x)) after_all) xs
  Stays-All t id_of refs xs stays =
      All-weaken xs (λ x. stays (ref_to t (id_of x))) (push_all-OneOf t id_of refs xs)

  push_player-MentionsPlayer :
      (changes : List PlayerChange)
      → delta.player_changes ≡ changes
      → MentionsPlayer changes after_all
  push_player-MentionsPlayer [] e = tt
  push_player-MentionsPlayer (change ∷ rest) e =
      push_location-keeps delta.location_change (push_player delta after_clues)
        (ref_to "player" "player") (rw e (push_unique-OneOf after_clues "player" "player"))

  push_location-MentionsLocation :
      (change : Option LocationChange) (refs : List EntityRef)
      → MentionsLocation change (push_location change refs)
  push_location-MentionsLocation none refs = tt
  push_location-MentionsLocation (some change) refs =
      push_unique-OneOf refs "location" change.location_id

pub changed_entities-Runs :
    (state : WorldState) (validated : ValidatedWorldStateDelta)
    → Runs state validated.inner (changed_entities state validated)
unfolding changed_entities
changed_entities-Runs state validated =
    let delta = validated.inner in
    record {
      facts = Stays-All state delta "fact" _ _ _ (after_facts-Stays state delta);
      npcs = Stays-All state delta "npc" _ _ _ (after_npcs-Stays state delta);
      factions = Stays-All state delta "faction" _ _ _ (after_factions-Stays state delta);
      quests = Stays-All state delta "quest" _ _ _ (after_quests-Stays state delta);
      clocks = Stays-All state delta "clock" _ _ _ (after_clocks-Stays state delta);
      relationships =
          Stays-All state delta "relationship" _ _ _ (after_relationships-Stays state delta);
      actions = Stays-All state delta "action_resolution" _ _ _ (after_actions-Stays state delta);
      clues = Stays-All state delta "clue" _ _ _ (after_clues-Stays state delta);
      player = push_player-MentionsPlayer state delta delta.player_changes refl;
      location = push_location-MentionsLocation state delta delta.location_change _;
    }
