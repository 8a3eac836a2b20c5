-- ===== src/Engine/Projection/Hiding.antt =====
-- What a player is shown does not depend on what is hidden from the player.
use advanced_roleplaying_fra.Base.{
  ◌≡◌, refl, ap, Bool, true, false, not, ◌&&◌, ◌||◌, Bool-cases, inl, inr, none, some, List, [],
  ◌∷◌, map, keep, filter_map, Option, keep-keep,
}
use advanced_roleplaying_fra.Domain.Scenario.{Scenario}
use advanced_roleplaying_fra.Domain.State.{
  WorldState, NpcState, FactionState, QuestState, ClockState, Fact, ActionResolution, ClueState,
  PlayerCharacterState, PlayerTrait, PlayerGoal, PlayerCondition, PlayerResource, MemoryEntry,
}
use advanced_roleplaying_fra.Domain.Visible.{ViewerContext}
use advanced_roleplaying_fra.Engine.Validation.Secrets.{is_player_known}
use advanced_roleplaying_fra.Engine.Projection.View.{
  is_hidden, is_player_memory, npc_view, npc_views, faction_views, faction_view, speaker_view,
  quest_views, clock_views, fact_views, sees_relationship, relationship_views, action_views,
  clue_views, player_view, memory_views, view_quest, view_clock, view_action, view_clue,
  view_memory, project, current_location_view,
}

-- `ViewerContext::player()`.
abbrev pub player_context : ViewerContext
player_context = record { include_debug_state = false; is_admin = false }

abbrev pub shows_quest : QuestState → Bool
shows_quest quest = quest.visible && not (is_hidden quest.status)

abbrev pub shows_clock : ClockState → Bool
shows_clock clock = clock.visible_to_player

abbrev pub shows_action : ActionResolution → Bool
shows_action resolution = resolution.visible_to_player

abbrev pub shows_clue : ClueState → Bool
shows_clue clue = clue.visible_to_player

abbrev pub shows_memory : MemoryEntry → Bool
shows_memory memory = is_player_memory memory.visibility

abbrev pub shows_trait : PlayerTrait → Bool
shows_trait item = item.visible_to_player

abbrev pub shows_goal : PlayerGoal → Bool
shows_goal item = item.visible_to_player

abbrev pub shows_condition : PlayerCondition → Bool
shows_condition item = item.visible_to_player

abbrev pub shows_resource : PlayerResource → Bool
shows_resource item = item.visible_to_player

abbrev pub hide_npc : NpcState → NpcState
hide_npc npc = record npc {
  location_id = none;
  known_facts = [];
  notes = [];
  current_intent = none;
  offscreen_actions = [];
}

abbrev pub hide_faction : FactionState → FactionState
hide_faction faction = record faction { hidden_notes = []; hidden_pressure_notes = [] }

abbrev pub hide_clue : ClueState → ClueState
hide_clue clue = record clue { linked_secret_ids = [] }

abbrev pub hide_player : PlayerCharacterState → PlayerCharacterState
hide_player player = record {
  traits = keep shows_trait player.traits;
  goals = keep shows_goal player.goals;
  conditions = keep shows_condition player.conditions;
  resources = keep shows_resource player.resources;
  gm_notes = [];
}

-- The world state without what is hidden from the player: secrets, what NPCs know and intend,
-- hidden entries of every kind, notes of the game master, the summary and the inventory.
abbrev pub redact : Scenario → WorldState → WorldState
redact scenario state = record state {
  current_scene = none;
  facts = keep (λ (fact : Fact). is_player_known fact.visibility) state.facts;
  npcs = map hide_npc (keep (λ (npc : NpcState). npc.visible_to_player) state.npcs);
  factions = map hide_faction state.factions;
  quests = keep shows_quest state.quests;
  clocks = keep shows_clock state.clocks;
  action_resolutions = keep shows_action state.action_resolutions;
  relationships =
      keep (sees_relationship player_context (npc_views scenario player_context state.npcs))
        state.relationships;
  inventory = [];
  player = hide_player state.player;
  clues = map hide_clue (keep shows_clue state.clues);
  memories = keep shows_memory state.memories;
  summary = none;
}

module _ {A : Type 0} (p : A → Bool) where
  -- The view g does not see what f hides.
  map-keep-hide :
      {B : Type 0} (f : A → A) (g : A → B)
      → ((x : A) → p (f x) ≡ p x)
      → ((x : A) → g (f x) ≡ g x)
      → (xs : List A) → map g (keep p (map f (keep p xs))) ≡ map g (keep p xs)
  map-keep-hide f g shows sees [] = refl
  map-keep-hide f g shows sees (x ∷ xs) = elim (Bool-cases (p x)) [
    | inl shown ↦
        rw (shown, shows x, shown, sees x) (ap (λ r. g x ∷ r) (map-keep-hide f g shows sees xs))
    | inr hidden ↦ rw hidden (map-keep-hide f g shows sees xs)
  ]

  filter_map-keep-hide :
      {B : Type 0} (f : A → A) (g : A → Option B)
      → ((x : A) → p (f x) ≡ p x)
      → ((x : A) → g (f x) ≡ g x)
      → (xs : List A) → filter_map g (keep p (map f (keep p xs))) ≡ filter_map g (keep p xs)
  filter_map-keep-hide f g shows sees [] = refl
  filter_map-keep-hide f g shows sees (x ∷ xs) = elim (Bool-cases (p x)) [
    | inl shown ↦
        rw (shown, shows x, shown, sees x)
          (ap (λ r. elim (g x) [ none ↦ r | some b ↦ b ∷ r ])
            (filter_map-keep-hide f g shows sees xs))
    | inr hidden ↦ rw hidden (filter_map-keep-hide f g shows sees xs)
  ]

filter_map-map :
    {A B : Type 0} (f : A → A) (g : A → Option B)
    → ((x : A) → g (f x) ≡ g x)
    → (xs : List A) → filter_map g (map f xs) ≡ filter_map g xs
filter_map-map f g sees [] = refl
filter_map-map f g sees (x ∷ xs) =
    rw (sees x) (ap (λ r. elim (g x) [ none ↦ r | some b ↦ b ∷ r ]) (filter_map-map f g sees xs))

||-false : (b : Bool) → (b || false) ≡ b
||-false true = refl
||-false false = refl

npc_views-redact :
    (scenario : Scenario) (state : WorldState)
    → npc_views scenario player_context (redact scenario state).npcs
      ≡ npc_views scenario player_context state.npcs
unfolding npc_views
npc_views-redact scenario state =
    filter_map-keep-hide (λ (npc : NpcState). npc.visible_to_player) hide_npc (npc_view scenario)
      (λ x. refl) (λ x. refl) state.npcs

relationship_views-redact :
    (scenario : Scenario) (state : WorldState)
    → relationship_views player_context
        (npc_views scenario player_context state.npcs)
        (redact scenario state).relationships
      ≡ relationship_views player_context
          (npc_views scenario player_context state.npcs)
          state.relationships
unfolding relationship_views
relationship_views-redact scenario state =
    ap (map _) (keep-keep _ _ (λ x. refl) state.relationships)

fact_views-redact :
    (scenario : Scenario) (state : WorldState)
    → fact_views player_context (redact scenario state).facts
      ≡ fact_views player_context state.facts
unfolding fact_views
fact_views-redact scenario state =
    ap (map _) (keep-keep _ _ (λ x. ||-false (is_player_known x.visibility)) state.facts)

player_view-redact :
    (player : PlayerCharacterState)
    → player_view player_context (hide_player player) ≡ player_view player_context player
unfolding player_view
player_view-redact player i = record {
  traits = keep-keep shows_trait shows_trait (λ x. refl) player.traits i;
  goals = keep-keep shows_goal shows_goal (λ x. refl) player.goals i;
  conditions = keep-keep shows_condition shows_condition (λ x. refl) player.conditions i;
  resources = keep-keep shows_resource shows_resource (λ x. refl) player.resources i;
}

-- The player's view of a world state is the view of the state with everything hidden taken out.
pub project-redact :
    (scenario : Scenario) (state : WorldState)
    → project scenario (redact scenario state) player_context
      ≡ project scenario state player_context
unfolding project faction_views quest_views clock_views action_views clue_views memory_views
project-redact scenario state = rw (npc_views-redact scenario state) λ i. record {
  state_version = state.version;
  current_location = current_location_view scenario player_context state.current_location_id;
  active_speaker =
      speaker_view (npc_views scenario player_context state.npcs) state.active_speaker_id;
  visible_npcs = npc_views scenario player_context state.npcs;
  visible_factions =
      filter_map-map hide_faction (faction_view scenario) (λ x. refl) state.factions i;
  visible_relationships = relationship_views-redact scenario state i;
  visible_quests = map view_quest (keep-keep shows_quest shows_quest (λ x. refl) state.quests i);
  visible_clocks = map view_clock (keep-keep shows_clock shows_clock (λ x. refl) state.clocks i);
  player_known_facts = fact_views-redact scenario state i;
  visible_action_resolutions =
      map view_action (keep-keep shows_action shows_action (λ x. refl) state.action_resolutions i);
  visible_clues =
      map-keep-hide shows_clue hide_clue view_clue (λ x. refl) (λ x. refl) state.clues i;
  player = player_view-redact state.player i;
  visible_memories =
      map view_memory (keep-keep shows_memory shows_memory (λ x. refl) state.memories i);
  recent_public_events = state.recent_events;
}
