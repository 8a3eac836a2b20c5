-- ===== src/Engine/Projection/Changed.antt =====
-- crates/engine/src/projection.rs: `changed_entities`, and `patch_from_delta`, which sends it.
use Prim.Native.String
use advanced_roleplaying_fra.Base.{
  ℕ, ◌-◌, zero, suc, String, Bool, true, false, ◌&&◌, ◌==◌, if◌then◌else◌, Option, none, some, List,
  [], ◌∷◌, any, keep, push, length, is_empty, foldl,
}
use advanced_roleplaying_fra.Domain.Ids.{EntityKey}
use advanced_roleplaying_fra.Domain.Scenario.{Scenario}
use advanced_roleplaying_fra.Domain.State.{WorldState, Fact, ActionResolution, ClueState}
use advanced_roleplaying_fra.Domain.Delta.{
  WorldStateDelta, RelationshipChange, ClueChange, LocationChange,
}
use advanced_roleplaying_fra.Domain.Visible.{EntityRef, ViewerContext, FrontendStatePatch}
use advanced_roleplaying_fra.Engine.Validated.{ValidatedWorldStateDelta}
use advanced_roleplaying_fra.Engine.Targets.{faction_of, quest_of, clock_of}
use advanced_roleplaying_fra.Engine.Validation.Npcs.{npc_of}
use advanced_roleplaying_fra.Engine.Validation.Counters.{source_of, target_of}
use advanced_roleplaying_fra.Engine.Projection.View.{project}

-- `iter().rev().take(n)`, back in the order of the list: the last n elements, or all of fewer.
abbrev pub drop {ℓ} : {A : Type ℓ} → ℕ → List A → List A
drop zero xs = xs
drop (suc n) [] = []
drop (suc n) (x ∷ xs) = drop n xs

abbrev pub take_last {ℓ} : {A : Type ℓ} → ℕ → List A → List A
take_last n xs = drop (length xs - n) xs

abbrev pub same_ref : String → String → EntityRef → Bool
same_ref entity_type id item = item.entity_type == entity_type && item.id == id

unfoldable pub push_unique : List EntityRef → String → String → List EntityRef
push_unique refs entity_type id =
    if any (same_ref entity_type id) refs
    then refs
    else push refs (record { entity_type = entity_type; id = id })

-- `for item in items { push_unique(&mut refs, entity_type, id_of(item)) }`.
unfoldable pub push_all :
    {A : Type 0} → String → (A → EntityKey) → List EntityRef → List A → List EntityRef
push_all entity_type id_of refs items =
    foldl (λ refs item. push_unique refs entity_type (id_of item)) refs items

abbrev pub relationship_ref : RelationshipChange → String
relationship_ref change = String.◌++◌ (source_of change) (String.◌++◌ "->" (target_of change))

abbrev pub is_discovered : ClueChange → Bool
is_discovered (ClueChange.discovered clue_id text secrets conditions visible reason) = true
is_discovered (ClueChange.visibility_changed clue_id visible reason) = false

abbrev pub recent_facts : WorldState → WorldStateDelta → List Fact
recent_facts state delta = take_last (length delta.facts_to_add) state.facts

abbrev pub recent_actions : WorldState → WorldStateDelta → List ActionResolution
recent_actions state delta =
    take_last (length delta.action_resolution_changes) state.action_resolutions

abbrev pub recent_clues : WorldState → WorldStateDelta → List ClueState
recent_clues state delta = take_last (length (keep is_discovered delta.clue_changes)) state.clues

abbrev pub push_player : WorldStateDelta → List EntityRef → List EntityRef
push_player delta refs =
    if is_empty delta.player_changes then refs else push_unique refs "player" "player"

abbrev pub push_location : Option LocationChange → List EntityRef → List EntityRef
push_location none refs = refs
push_location (some location) refs = push_unique refs "location" location.location_id

unfoldable pub changed_entities : WorldState → ValidatedWorldStateDelta → List EntityRef
changed_entities state validated =
    let delta = validated.inner in
    let facts = push_all "fact" (λ (fact : Fact). fact.id) [] (recent_facts state delta) in
    let npcs = push_all "npc" npc_of facts delta.npc_changes in
    let factions = push_all "faction" faction_of npcs delta.faction_changes in
    let quests = push_all "quest" quest_of factions delta.quest_changes in
    let clocks = push_all "clock" clock_of quests delta.clock_changes in
    let relationships =
      push_all "relationship" relationship_ref clocks delta.relationship_changes in
    let actions =
      push_all "action_resolution" (λ (r : ActionResolution). r.id) relationships
        (recent_actions state delta) in
    let clues =
      push_all "clue" (λ (clue : ClueState). clue.id) actions (recent_clues state delta) in
    push_location delta.location_change (push_player delta clues)

unfoldable pub patch_from_delta :
    Scenario → WorldState → ValidatedWorldStateDelta → ViewerContext → FrontendStatePatch
patch_from_delta scenario state validated viewer = record {
  state_version = state.version;
  changed_entities = changed_entities state validated;
  visible_state = some (project scenario state viewer);
}
