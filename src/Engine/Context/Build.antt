-- ===== src/Engine/Context/Build.antt =====
-- crates/engine/src/context.rs: `BasicContextBuilder::build`.
use mathlib.Core.Option
use advanced_roleplaying_fra.Base.{
  String, Bool, true, false, ◌&&◌, ◌||◌, Option, none, some, List, [], ◌∷◌, ◌++◌, ◌==◌, map, any,
  find, keep, take, filter_map,
}
use advanced_roleplaying_fra.Domain.Ids.{EntityKey}
use advanced_roleplaying_fra.Domain.Scenario.{Scenario, Location, Npc, Faction}
use advanced_roleplaying_fra.Domain.State.{
  WorldState, NpcState, NpcAvailability, OffscreenAction, FactionState, QuestState, QuestStatus,
  ActionResolution, ClueState, PlayerCharacterState, PlayerTrait, PlayerGoal, PlayerCondition,
  PlayerResource, Fact, MemoryVisibility, RelationshipState,
}
use advanced_roleplaying_fra.Engine.Validation.Secrets.{is_player_known, is_gm_only}
use advanced_roleplaying_fra.Engine.Context.{
  AgentContext, BuildContextInput, NpcContext, OffscreenNpcActivity, FactionContext, MessageContext,
}
use advanced_roleplaying_fra.Engine.Context.Role.{runtime_of, status_or}
use advanced_roleplaying_fra.Engine.Context.Memories.{prioritized_memories}

-- `==` of two optional keys.
abbrev pub same_option : Option EntityKey → Option EntityKey → Bool
same_option none none = true
same_option (some a) (some b) = a == b
same_option _ _ = false

abbrev pub is_present : NpcAvailability → Bool
is_present NpcAvailability.present = true
is_present _ = false

abbrev pub is_open : QuestStatus → Bool
is_open QuestStatus.active = true
is_open QuestStatus.available = true
is_open _ = false

-- `iter().rev()`.
abbrev pub rev {ℓ} : {A : Type ℓ} → List A → List A
rev [] = []
rev (x ∷ xs) = rev xs ++ x ∷ []

-- `slice.last()`.
abbrev pub last {ℓ} : {A : Type ℓ} → List A → Option A
last [] = none
last (x ∷ []) = some x
last (x ∷ y ∷ ys) = last (y ∷ ys)

unfoldable pub location_at : Scenario → Option EntityKey → Option Location
location_at scenario none = none
location_at scenario (some id) =
    find (λ (location : Location). location.id == id) scenario.locations

-- At the player's place.
abbrev pub stands_here : Option EntityKey → Npc → NpcState → Bool
stands_here here npc state =
    state.npc_id == npc.id && same_option state.location_id here && is_present state.availability

abbrev pub is_relevant : Option EntityKey → Option EntityKey → List NpcState → Npc → Bool
is_relevant speaker here npcs npc =
    same_option speaker (some npc.id) || any (stands_here here npc) npcs

abbrev pub attitude_of : Option NpcState → Option String
attitude_of none = none
attitude_of (some state) = state.attitude_to_player

abbrev pub npc_context : WorldState → Npc → NpcContext
npc_context world_state npc = record {
  npc = npc;
  status = status_or npc.initial_status (runtime_of world_state npc);
  attitude_to_player = attitude_of (runtime_of world_state npc);
}

unfoldable pub relevant_npcs : Scenario → WorldState → List NpcContext
relevant_npcs scenario world_state = map (npc_context world_state) (
    keep
      (is_relevant world_state.active_speaker_id world_state.current_location_id world_state.npcs)
      scenario.npcs)

abbrev pub activity_of : Npc → OffscreenAction → OffscreenNpcActivity
activity_of npc action = record {
  npc_name = npc.name;
  intent = action.intent;
  result = action.result;
  visible_to_player = action.visible_to_player;
}

abbrev pub last_action : Option NpcState → Option OffscreenAction
last_action none = none
last_action (some state) = last state.offscreen_actions

unfoldable pub offscreen_activity : Scenario → WorldState → List OffscreenNpcActivity
offscreen_activity scenario world_state =
    filter_map
      (λ (npc : Npc). Option.map (activity_of npc) (last_action (runtime_of world_state npc)))
      scenario.npcs

abbrev pub faction_context : Faction → FactionState → FactionContext
faction_context faction state = record { faction = faction; state = some state }

unfoldable pub relevant_factions : Scenario → WorldState → List FactionContext
relevant_factions scenario world_state =
    filter_map
      (λ (faction : Faction).
        Option.map (faction_context faction)
          (find (λ (state : FactionState). state.faction_id == faction.id) world_state.factions))
      scenario.factions

abbrev pub concerns : List NpcContext → RelationshipState → Bool
concerns npcs relationship =
    relationship.source_id == "player"
    || relationship.target_id == "player"
    || any
        (λ (context : NpcContext).
          (context.npc).id == relationship.source_id || (context.npc).id == relationship.target_id)
        npcs

unfoldable pub shown_player : PlayerCharacterState → PlayerCharacterState
shown_player player = record {
  traits = keep (λ (item : PlayerTrait). item.visible_to_player) player.traits;
  goals = keep (λ (item : PlayerGoal). item.visible_to_player) player.goals;
  conditions = keep (λ (item : PlayerCondition). item.visible_to_player) player.conditions;
  resources = keep (λ (item : PlayerResource). item.visible_to_player) player.resources;
  gm_notes = player.gm_notes;
}

unfoldable pub recent_resolutions : List ActionResolution → List ActionResolution
recent_resolutions resolutions = rev (
    take 5
      (keep (λ (resolution : ActionResolution). resolution.visible_to_player) (rev resolutions)))

unfoldable pub latest_messages : List MessageContext → List MessageContext
latest_messages messages = rev (take 6 (rev messages))

unfoldable pub build : BuildContextInput → AgentContext
unfolding location_at relevant_npcs offscreen_activity relevant_factions shown_player
    recent_resolutions latest_messages
build input =
    let world_state = input.world_state in
    let npcs = relevant_npcs input.scenario world_state in
    record {
      scenario_title = (input.scenario).title;
      setting_summary = (input.scenario).setting;
      current_location = location_at input.scenario world_state.current_location_id;
      active_role = input.active_role;
      scene_directive = input.scene_directive;
      relevant_npcs = npcs;
      offscreen_npc_activity = offscreen_activity input.scenario world_state;
      relevant_factions = relevant_factions input.scenario world_state;
      relevant_relationships = keep (concerns npcs) world_state.relationships;
      active_quests = keep (λ (quest : QuestState). is_open quest.status) world_state.quests;
      active_clocks = world_state.clocks;
      recent_action_resolutions = recent_resolutions world_state.action_resolutions;
      visible_clues = keep (λ (clue : ClueState). clue.visible_to_player) world_state.clues;
      player_state = shown_player world_state.player;
      player_known_facts =
          keep (λ (fact : Fact). is_player_known fact.visibility) world_state.facts;
      gm_only_facts = take 5 (keep (λ (fact : Fact). is_gm_only fact.visibility) world_state.facts);
      player_memories = prioritized_memories world_state.memories MemoryVisibility.player_known 8;
      gm_only_memories = prioritized_memories world_state.memories MemoryVisibility.gm_only 5;
      recent_summary = world_state.summary;
      recent_messages = latest_messages input.recent_messages;
      rules = (input.scenario).rules;
      mode = input.mode;
    }
