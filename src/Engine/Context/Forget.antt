-- ===== src/Engine/Context/Forget.antt =====
-- Of the world state without what only the game master knows, the context is built as of the
-- whole, but for the game master's own parts.
use mathlib.Core.Option
use mathlib.Core.List.{append-nil}
use advanced_roleplaying_fra.Base.{
  ℕ, ◌≡◌, refl, sym, ap, ◌∙◌, arith, Bool, true, false, ◌||◌, Bool-cases, inl, inr, Option,
  Option-cases, none, some, List, [], ◌∷◌, ◌++◌, ◌==◌, map, find, keep, take, filter_map, keep-keep,
  keep-eq, keep-append, any-map, find-map, map-eq, filter_map-eq,
}
use advanced_roleplaying_fra.Domain.Scenario.{Scenario, Npc, Faction}
use advanced_roleplaying_fra.Domain.State.{
  WorldState, NpcState, OffscreenAction, FactionState, Fact, ActionResolution, ClueState,
  MemoryEntry, MemoryVisibility, PlayerCharacterState,
}
use advanced_roleplaying_fra.Engine.Validation.Secrets.{is_player_known}
use advanced_roleplaying_fra.Engine.Context.{OffscreenNpcActivity, FactionContext}
use advanced_roleplaying_fra.Engine.Context.Role.{runtime_of}
use advanced_roleplaying_fra.Engine.Context.Memories.{is_for, sort_by, prioritized_memories}
use advanced_roleplaying_fra.Engine.Context.Ranking.{importance_order, prioritized_memories-eq}
use advanced_roleplaying_fra.Engine.Context.Build.{
  same_option, stands_here, is_relevant, npc_context, relevant_npcs, last, activity_of, last_action,
  offscreen_activity, faction_context, relevant_factions, recent_resolutions, shown_player, rev,
}

abbrev shows_action : OffscreenAction → Bool
shows_action action = action.visible_to_player

-- Only the last action off screen is looked at.
abbrev pub shown_last : Option OffscreenAction → List OffscreenAction
shown_last none = []
shown_last (some action) = keep shows_action (action ∷ [])

abbrev pub forget_npc : NpcState → NpcState
forget_npc npc = record npc {
  known_facts = [];
  notes = [];
  current_intent = none;
  offscreen_actions = shown_last (last npc.offscreen_actions);
}

abbrev pub forget_faction : FactionState → FactionState
forget_faction faction = record faction { hidden_notes = []; hidden_pressure_notes = [] }

abbrev pub known_fact : Fact → Bool
known_fact fact = is_player_known fact.visibility

abbrev shows_resolution : ActionResolution → Bool
shows_resolution resolution = resolution.visible_to_player

abbrev pub shows_clue : ClueState → Bool
shows_clue clue = clue.visible_to_player

-- The player's character without the notes of the game master and the hidden entries.
abbrev pub forget_player : PlayerCharacterState → PlayerCharacterState
forget_player player = record (shown_player player) { gm_notes = [] }

-- The world state without what the game master knows and the player does not: facts that are not
-- known to the player, what NPCs know, note and intend, what they do unseen, hidden notes and
-- pressure of factions, hidden outcomes of actions, hidden clues, hidden entries and notes of the
-- player's character, memories of the game master, and the log.
abbrev pub forget : WorldState → WorldState
forget world_state = record world_state {
  current_scene = none;
  facts = keep known_fact world_state.facts;
  npcs = map forget_npc world_state.npcs;
  factions = map forget_faction world_state.factions;
  action_resolutions = keep shows_resolution world_state.action_resolutions;
  inventory = [];
  player = forget_player world_state.player;
  clues = keep shows_clue world_state.clues;
  memories = keep (is_for MemoryVisibility.player_known) world_state.memories;
  recent_events = [];
}

forget-runtime_of :
    (world_state : WorldState) (npc : Npc)
    → runtime_of (forget world_state) npc ≡ Option.map forget_npc (runtime_of world_state npc)
forget-runtime_of world_state npc =
    find-map (λ (state : NpcState). state.npc_id == npc.id) forget_npc (λ x. refl) world_state.npcs

forget-npc_context :
    (world_state : WorldState) (npc : Npc)
    → npc_context (forget world_state) npc ≡ npc_context world_state npc
forget-npc_context world_state npc = elim (Option-cases (runtime_of world_state npc)) [
  | inl absent ↦ rw (forget-runtime_of world_state npc, absent) refl
  | inr (state, found) ↦ rw (forget-runtime_of world_state npc, found) refl
]

pub forget-relevant_npcs :
    (scenario : Scenario) (world_state : WorldState)
    → relevant_npcs scenario (forget world_state) ≡ relevant_npcs scenario world_state
unfolding relevant_npcs
forget-relevant_npcs scenario world_state =
    let speaker = world_state.active_speaker_id in
    let here = world_state.current_location_id in
    map-eq (npc_context (forget world_state)) (npc_context world_state)
      (forget-npc_context world_state)
      (keep (is_relevant speaker here (map forget_npc world_state.npcs)) scenario.npcs)
    ∙ ap (map (npc_context world_state)) (
        keep-eq (is_relevant speaker here (map forget_npc world_state.npcs))
          (is_relevant speaker here world_state.npcs)
          (λ npc.
            ap (λ r. same_option speaker (some npc.id) || r)
              (any-map (stands_here here npc) forget_npc (λ x. refl) world_state.npcs))
          scenario.npcs)

abbrev pub shows_offscreen : OffscreenNpcActivity → Bool
shows_offscreen activity = activity.visible_to_player

abbrev latest : WorldState → Npc → Option OffscreenNpcActivity
latest world_state npc = Option.map (activity_of npc) (last_action (runtime_of world_state npc))

-- The activity, unless it is hidden.
abbrev unless_hidden : Option OffscreenNpcActivity → Option OffscreenNpcActivity
unless_hidden none = none
unless_hidden (some activity) = elim (shows_offscreen activity) [
  | true ↦ some activity
  | false ↦ none
]

shown_last-last :
    (npc : Npc) (action : Option OffscreenAction)
    → Option.map (activity_of npc) (last (shown_last action))
      ≡ unless_hidden (Option.map (activity_of npc) action)
shown_last-last npc none = refl
shown_last-last npc (some action) = elim (Bool-cases action.visible_to_player) [
  | inl shown ↦ rw shown refl
  | inr hidden ↦ rw hidden refl
]

forget-latest :
    (world_state : WorldState) (npc : Npc)
    → latest (forget world_state) npc ≡ unless_hidden (latest world_state npc)
forget-latest world_state npc = elim (Option-cases (runtime_of world_state npc)) [
  | inl absent ↦ rw (forget-runtime_of world_state npc, absent) refl
  | inr (state, found) ↦
      rw (forget-runtime_of world_state npc, found)
        (shown_last-last npc (last state.offscreen_actions))
]

filter_map-unless_hidden :
    (f : Npc → Option OffscreenNpcActivity) (npcs : List Npc)
    → filter_map (λ npc. unless_hidden (f npc)) npcs ≡ keep shows_offscreen (filter_map f npcs)
filter_map-unless_hidden f [] = refl
filter_map-unless_hidden f (npc ∷ npcs) = ground (arith, filter_map-unless_hidden f npcs)

pub forget-offscreen_activity :
    (scenario : Scenario) (world_state : WorldState)
    → offscreen_activity scenario (forget world_state)
      ≡ keep shows_offscreen (offscreen_activity scenario world_state)
unfolding offscreen_activity
forget-offscreen_activity scenario world_state =
    filter_map-eq (latest (forget world_state)) (λ npc. unless_hidden (latest world_state npc))
      (forget-latest world_state) scenario.npcs
    ∙ filter_map-unless_hidden (latest world_state) scenario.npcs

find_faction : WorldState → Faction → Option FactionState
find_faction world_state faction =
    find (λ (state : FactionState). state.faction_id == faction.id) world_state.factions

abbrev pub forget_faction_context : FactionContext → FactionContext
forget_faction_context context = record context { state = Option.map forget_faction context.state }

forget-faction_context :
    (world_state : WorldState) (faction : Faction)
    → Option.map (faction_context faction) (find_faction (forget world_state) faction)
      ≡ Option.map forget_faction_context
          (Option.map (faction_context faction) (find_faction world_state faction))
unfolding find_faction
forget-faction_context world_state faction =
    let found = find_faction world_state faction in
    ap (Option.map (faction_context faction)) (
      find-map (λ (state : FactionState). state.faction_id == faction.id) forget_faction (λ x. refl)
        world_state.factions)
    ∙ both found
  where
    both :
        (found : Option FactionState)
        → Option.map (faction_context faction) (Option.map forget_faction found)
          ≡ Option.map forget_faction_context (Option.map (faction_context faction) found)
    both none = refl
    both (some state) = refl

filter_map-map :
    (f : Faction → Option FactionContext) (factions : List Faction)
    → filter_map (λ faction. Option.map forget_faction_context (f faction)) factions
      ≡ map forget_faction_context (filter_map f factions)
filter_map-map f [] = refl
filter_map-map f (faction ∷ factions) = ground (arith, filter_map-map f factions)

pub forget-relevant_factions :
    (scenario : Scenario) (world_state : WorldState)
    → relevant_factions scenario (forget world_state)
      ≡ map forget_faction_context (relevant_factions scenario world_state)
unfolding relevant_factions find_faction
forget-relevant_factions scenario world_state =
    filter_map-eq _ _ (forget-faction_context world_state) scenario.factions
    ∙ filter_map-map
        (λ faction. Option.map (faction_context faction) (find_faction world_state faction))
        scenario.factions

pub rev-keep : {A : Type 0} (p : A → Bool) (xs : List A) → rev (keep p xs) ≡ keep p (rev xs)
rev-keep p [] = refl
rev-keep p (x ∷ xs) = rw (keep-append p (rev xs) (x ∷ [])) (elim (Bool-cases (p x)) [
  | inl kept ↦ rw kept (ap (λ r. r ++ x ∷ []) (rev-keep p xs))
  | inr dropped ↦ rw dropped (rev-keep p xs ∙ sym (append-nil (keep p (rev xs))))
])

pub forget-recent_resolutions :
    (resolutions : List ActionResolution)
    → recent_resolutions (keep shows_resolution resolutions) ≡ recent_resolutions resolutions
unfolding recent_resolutions
forget-recent_resolutions resolutions =
    ap (λ r. rev (take 5 r))
      (ap (keep shows_resolution) (rev-keep shows_resolution resolutions)
        ∙ keep-keep shows_resolution shows_resolution (λ x. refl) (rev resolutions))

pub forget-player_memories :
    (memories : List MemoryEntry) (limit : ℕ)
    → prioritized_memories
        (keep (is_for MemoryVisibility.player_known) memories)
        MemoryVisibility.player_known
        limit
      ≡ prioritized_memories memories MemoryVisibility.player_known limit
forget-player_memories memories limit =
    let for_player = is_for MemoryVisibility.player_known in
    prioritized_memories-eq (keep for_player memories) MemoryVisibility.player_known limit
    ∙ ap (λ r. take limit (sort_by importance_order r))
        (keep-keep for_player for_player (λ x. refl) memories)
    ∙ sym (prioritized_memories-eq memories MemoryVisibility.player_known limit)
