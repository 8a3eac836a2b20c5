-- ===== src/Engine/Validation/Sound.antt =====
-- The names of all changes of an accepted delta at once.
use advanced_roleplaying_fra.Base.{
  String, ◌≡◌, subst, Option, none, some, All, OneOf, ok, >>-eq-ok, ensure-eq-ok, All-weaken,
  for_each-eq-ok,
}
use advanced_roleplaying_fra.Domain.Ids.{EntityKey}
use advanced_roleplaying_fra.Domain.Scenario.{Scenario}
use advanced_roleplaying_fra.Domain.State.{WorldState}
use advanced_roleplaying_fra.Domain.Delta.{
  WorldStateDelta, ActiveSpeakerChange, LocationChange, NpcChange, RelationshipChange,
  ActionResolutionChange,
}
use advanced_roleplaying_fra.Engine.Targets.{
  faction_of, reason_of_faction, quest_of, reason_of_quest, clock_of, reason_of_clock,
}
use advanced_roleplaying_fra.Engine.Validated.{ValidatedWorldStateDelta}
use advanced_roleplaying_fra.Engine.Validation.Checks.{require_reason, require_non_empty}
use advanced_roleplaying_fra.Engine.Validation.Npcs.{check_npc_change, npc_of, reason_of_npc}
use advanced_roleplaying_fra.Engine.Validation.Counters.{
  check_relationship_change, source_of, target_of, reason_of_relationship,
}
use advanced_roleplaying_fra.Engine.Validation.Records.{
  check_speaker, check_active_speaker_change, check_location_change, check_action_resolution_change,
}
use advanced_roleplaying_fra.Engine.Validation.Validate.{
  validate, npc_ids_of, faction_ids_of, quest_ids_of, location_ids_of, clock_ids_of,
}
use advanced_roleplaying_fra.Engine.Validation.Accepted.{validate-Accepted}
use advanced_roleplaying_fra.Engine.Validation.References.{
  IsStated, Names, IsEndpoint, require_known-OneOf, require_reason-IsStated,
  require_non_empty-IsStated, ensure-IsEndpoint, known_then_reason, check_quest_change-Names,
  check_faction_change-Names, check_clock_change-Names,
}

-- A relationship change links two endpoints that exist, and gives a reason.
abbrev pub LinksEndpoints : Scenario → RelationshipChange → Type 0
LinksEndpoints scenario change =
    IsEndpoint scenario (source_of change)
    × IsEndpoint scenario (target_of change)
    × IsStated (reason_of_relationship change)

-- A new speaker, if any, is an NPC of the scenario.
abbrev pub SpeakerKnown : Scenario → Option ActiveSpeakerChange → Type 0
SpeakerKnown scenario none = Unit
SpeakerKnown scenario (some change) =
    ((k : EntityKey) → change.speaker_id ≡ some k → OneOf k (npc_ids_of scenario))
    × IsStated change.reason

abbrev pub LocationKnown : Scenario → Option LocationChange → Type 0
LocationKnown scenario none = Unit
LocationKnown scenario (some change) =
    Names change.location_id (location_ids_of scenario) change.reason

abbrev pub LinksClocks : WorldState → ActionResolutionChange → Type 0
LinksClocks world
      (ActionResolutionChange.recorded intent stakes outcome consequence visible clocks reason) =
    All (λ k. OneOf k (clock_ids_of world)) clocks
    × IsStated intent
    × IsStated consequence
    × IsStated reason

-- The NPCs, factions, quests, clocks, endpoints, speaker and location that the delta names exist in
-- the scenario or the world, and these changes state their reasons.
pub record NamesExist (scenario : Scenario) (world : WorldState) (delta : WorldStateDelta)
    : Type 0 where
  pub speaker : SpeakerKnown scenario delta.active_speaker_change
  pub location : LocationKnown scenario delta.location_change
  pub npcs : All (λ c. Names (npc_of c) (npc_ids_of scenario) (reason_of_npc c)) delta.npc_changes
  pub factions :
      All
        (λ c. Names (faction_of c) (faction_ids_of scenario) (reason_of_faction c))
        delta.faction_changes
  pub quests :
      All (λ c. Names (quest_of c) (quest_ids_of scenario) (reason_of_quest c)) delta.quest_changes
  pub clocks :
      All (λ c. Names (clock_of c) (clock_ids_of world) (reason_of_clock c)) delta.clock_changes
  pub relationships : All (LinksEndpoints scenario) delta.relationship_changes
  pub actions : All (LinksClocks world) delta.action_resolution_changes

named-speaker :
    (scenario : Scenario) (speaker_id : Option EntityKey)
    → check_speaker (npc_ids_of scenario) speaker_id ≡ ok tt
    → (k : EntityKey) → speaker_id ≡ some k
    → OneOf k (npc_ids_of scenario)
named-speaker scenario none h k e = cc
named-speaker scenario (some speaker_id) h k e =
    let same : speaker_id ≡ k = cc in
    subst (λ (id : EntityKey). OneOf id (npc_ids_of scenario)) same
      (require_known-OneOf "npc" speaker_id (npc_ids_of scenario) h)

speaker_sound :
    (scenario : Scenario) (change : Option ActiveSpeakerChange)
    → check_active_speaker_change (npc_ids_of scenario) change ≡ ok tt
    → SpeakerKnown scenario change
unfolding check_active_speaker_change
speaker_sound scenario none h = tt
speaker_sound scenario (some change) h =
    let (stated, known) = >>-eq-ok (require_reason change.reason) _ h in
    (named-speaker scenario change.speaker_id known, require_reason-IsStated change.reason stated)

location_sound :
    (scenario : Scenario) (change : Option LocationChange)
    → check_location_change (location_ids_of scenario) change ≡ ok tt
    → LocationKnown scenario change
unfolding check_location_change
location_sound scenario none h = tt
location_sound scenario (some change) h =
    let (known, stated) = >>-eq-ok _ _ h in
    (
      require_known-OneOf "location" change.location_id (location_ids_of scenario) known,
      require_reason-IsStated change.reason stated,
    )

npc_sound :
    (to_lowercase : String → String) (scenario : Scenario) (world : WorldState) (c : NpcChange)
    → check_npc_change to_lowercase scenario world
        (npc_ids_of scenario)
        (location_ids_of scenario)
        c
      ≡ ok tt
    → Names (npc_of c) (npc_ids_of scenario) (reason_of_npc c)
unfolding check_npc_change
npc_sound to_lowercase scenario world c =
    known_then_reason "npc" (npc_of c) (npc_ids_of scenario) (reason_of_npc c) _

relationship_sound :
    (scenario : Scenario) (world : WorldState) (c : RelationshipChange)
    → check_relationship_change world (npc_ids_of scenario) (faction_ids_of scenario) c ≡ ok tt
    → LinksEndpoints scenario c
unfolding check_relationship_change
relationship_sound scenario world c h =
    let (stated, h1) = >>-eq-ok _ _ h in
    let (source, h2) = >>-eq-ok _ _ h1 in
    let (target, h3) = >>-eq-ok _ _ h2 in
    (
      ensure-IsEndpoint scenario (source_of c) (ensure-eq-ok _ _ source),
      ensure-IsEndpoint scenario (target_of c) (ensure-eq-ok _ _ target),
      require_reason-IsStated (reason_of_relationship c) stated,
    )

action_sound :
    (delta : WorldStateDelta) (world : WorldState) (c : ActionResolutionChange)
    → check_action_resolution_change delta (clock_ids_of world) c ≡ ok tt
    → LinksClocks world c
unfolding check_action_resolution_change
action_sound delta world
      (ActionResolutionChange.recorded intent stakes outcome consequence visible clocks reason) h =
    let (stated, h1) = >>-eq-ok (require_reason reason) _ h in
    let (intended, h2) = >>-eq-ok (require_non_empty "action intent" intent) _ h1 in
    let (followed, h3) = >>-eq-ok (require_non_empty "action consequence" consequence) _ h2 in
    let (staked, h4) = >>-eq-ok _ _ h3 in
    let (linked, h5) = >>-eq-ok _ _ h4 in
    (
      All-weaken clocks (λ k. require_known-OneOf "clock" k (clock_ids_of world))
          (for_each-eq-ok _ clocks linked),
      require_non_empty-IsStated "action intent" intent intended,
      require_non_empty-IsStated "action consequence" consequence followed,
      require_reason-IsStated reason stated,
    )

-- The NPCs, factions, quests, clocks, linked clocks, relationship endpoints, the speaker and the new
-- location that an accepted delta names exist, and these changes state their reasons.
pub validate-NamesExist :
    (to_lowercase : String → String) (scenario : Scenario) (world : WorldState)
    (delta : WorldStateDelta) (validated : ValidatedWorldStateDelta)
    → validate to_lowercase scenario world delta ≡ ok validated
    → NamesExist scenario world delta
validate-NamesExist to_lowercase scenario world delta validated h =
    let a = validate-Accepted to_lowercase scenario world delta validated h in
    record {
      speaker = speaker_sound scenario delta.active_speaker_change a.speaker;
      location = location_sound scenario delta.location_change a.location;
      npcs = All-weaken delta.npc_changes (npc_sound to_lowercase scenario world) a.npcs;
      factions =
          All-weaken delta.faction_changes
            (check_faction_change-Names world (faction_ids_of scenario)) a.factions;
      quests =
          All-weaken delta.quest_changes (check_quest_change-Names (quest_ids_of scenario))
            a.quests;
      clocks =
          All-weaken delta.clock_changes (check_clock_change-Names world (clock_ids_of world))
            a.clocks;
      relationships =
          All-weaken delta.relationship_changes (relationship_sound scenario world) a.relationships;
      actions = All-weaken delta.action_resolution_changes (action_sound delta world) a.actions;
    }
