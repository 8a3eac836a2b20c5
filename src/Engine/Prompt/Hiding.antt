-- ===== src/Engine/Prompt/Hiding.antt =====
-- What the narration's prompt says does not depend on what only the game master knows.
use Prim.Native.String.{String}
use advanced_roleplaying_fra.Base.{
  ℕ, ◌≡◌, refl, sym, ap, ◌∙◌, Bool, false, Option, none, some, List, [], ◌∷◌, map, keep, keep-keep,
  Option-cases, inl, inr,
}
use advanced_roleplaying_fra.Base.Search.{join}
use advanced_roleplaying_fra.Domain.State.{PlayerCharacterState, FactionState}
use advanced_roleplaying_fra.Engine.Context.{AgentContext, BuildContextInput, FactionContext}
use advanced_roleplaying_fra.Engine.Context.Build.{build, shown_player, relevant_factions}
use advanced_roleplaying_fra.Engine.Context.Forget.{
  forget, forget_player, forget_faction_context, shows_offscreen, known_fact, shows_clue,
  forget-relevant_npcs, forget-offscreen_activity, forget-relevant_factions,
  forget-recent_resolutions, forget-player_memories,
}
use advanced_roleplaying_fra.Engine.Prompt.Names.{listed}
use advanced_roleplaying_fra.Engine.Prompt.Sections.{
  scenario_section, style_section, role_section, world_section, render_player_state_section,
  render_social_state_section, render_npc_agency_section, render_action_resolution_section,
  render_clue_section, messages_section, pressure_line, faction_line, shows_activity,
}
use advanced_roleplaying_fra.Engine.Prompt.Facts.{render_facts_section, render_memory_section}
use advanced_roleplaying_fra.Engine.Prompt.Render.{render_narration_context}
use advanced_roleplaying_fra.Engine.Prompt.Requests.{narration_request}

-- The context without what the narration's prompt leaves out.
abbrev pub narrated : AgentContext → AgentContext
narrated context = record context {
  offscreen_npc_activity = keep shows_offscreen context.offscreen_npc_activity;
  relevant_factions = map forget_faction_context context.relevant_factions;
  player_state = record (context.player_state) { gm_notes = [] };
  gm_only_facts = [];
  gm_only_memories = [];
}

abbrev pub forget_input : BuildContextInput → BuildContextInput
forget_input input = record input { world_state = forget input.world_state }

forget_faction-twice :
    (context : FactionContext)
    → forget_faction_context (forget_faction_context context) ≡ forget_faction_context context
forget_faction-twice context = once context context.state refl
  where
    once :
        (context : FactionContext) (state : Option FactionState)
        → context.state ≡ state
        → forget_faction_context (forget_faction_context context) ≡ forget_faction_context context
    once context none e = rw e refl
    once context (some state) e = rw e refl

map-twice :
    (contexts : List FactionContext)
    → map forget_faction_context (map forget_faction_context contexts)
      ≡ map forget_faction_context contexts
map-twice [] = refl
map-twice (context ∷ contexts) = rw (map-twice contexts, forget_faction-twice context) refl

shown_player-twice :
    (player : PlayerCharacterState)
    → record (shown_player (forget_player player)) { gm_notes = [] } ≡ forget_player player
unfolding shown_player
shown_player-twice player =
    rw
      (
        keep-keep _ _ (λ x. refl) player.traits,
        keep-keep _ _ (λ x. refl) player.goals,
        keep-keep _ _ (λ x. refl) player.conditions,
        keep-keep _ _ (λ x. refl) player.resources,
      )
      refl

narrated-forget :
    (input : BuildContextInput) → narrated (build (forget_input input)) ≡ narrated (build input)
unfolding build
narrated-forget input =
    let scenario = input.scenario in
    let world_state = input.world_state in
    rw
      (
        forget-relevant_npcs scenario world_state,
        forget-offscreen_activity scenario world_state,
        forget-relevant_factions scenario world_state,
        forget-recent_resolutions world_state.action_resolutions,
        forget-player_memories world_state.memories 8,
        keep-keep shows_offscreen shows_offscreen (λ x. refl) _,
        keep-keep known_fact known_fact (λ x. refl) world_state.facts,
        keep-keep shows_clue shows_clue (λ x. refl) world_state.clues,
        map-twice (relevant_factions scenario world_state),
        shown_player-twice world_state.player,
      )
      refl

module _ {A : Type 0} (separator : String) (line : A → String) (f : A → A)
    (same : (x : A) → line (f x) ≡ line x) where
  listed-map : (xs : List A) → listed separator line (map f xs) ≡ listed separator line xs
  listed-map [] = refl
  listed-map (x ∷ xs) = ap (join separator) (lines (x ∷ xs))
    where
      lines : (xs : List A) → map line (map f xs) ≡ map line xs
      lines [] = refl
      lines (x ∷ xs) = rw (same x, lines xs) refl

faction_line-forget :
    (context : FactionContext)
    → faction_line (forget_faction_context context) ≡ faction_line context
faction_line-forget context = elim (Option-cases context.state) [
  | inl absent ↦ rw absent refl
  | inr (state, found) ↦ rw found refl
]

pressure_line-forget :
    (context : FactionContext)
    → pressure_line false (forget_faction_context context) ≡ pressure_line false context
pressure_line-forget context = elim (Option-cases context.state) [
  | inl absent ↦ rw absent refl
  | inr (state, found) ↦ rw found refl
]

world_section-narrated :
    (context : AgentContext) → world_section (narrated context) ≡ world_section context
unfolding world_section
world_section-narrated context =
    rw
      (listed-map " | " faction_line forget_faction_context faction_line-forget
        context.relevant_factions)
      refl

social-narrated :
    (context : AgentContext)
    → render_social_state_section (narrated context) false
      ≡ render_social_state_section context false
unfolding render_social_state_section
social-narrated context =
    rw
      (listed-map " | " (pressure_line false) forget_faction_context pressure_line-forget
        context.relevant_factions)
      refl

agency-narrated :
    (context : AgentContext)
    → render_npc_agency_section (narrated context) false ≡ render_npc_agency_section context false
unfolding render_npc_agency_section
agency-narrated context =
    rw (keep-keep shows_offscreen (shows_activity false) (λ x. refl) context.offscreen_npc_activity)
      refl

render-narrated :
    (is_alphanumeric : ℕ → Bool) (context : AgentContext) (player_input : String)
    → render_narration_context is_alphanumeric (narrated context) player_input
      ≡ render_narration_context is_alphanumeric context player_input
unfolding render_narration_context scenario_section style_section role_section render_facts_section
    render_player_state_section render_memory_section render_action_resolution_section
    render_clue_section messages_section
render-narrated is_alphanumeric context player_input =
    rw (world_section-narrated context, social-narrated context, agency-narrated context) refl

-- A request to narrate is the same whether or not the world state still holds what the player is
-- not to know: the facts that the player does not know, what NPCs know, note and intend and do
-- unseen, hidden notes and pressure, hidden outcomes, clues and memories, and the notes on the
-- player's character. Clocks and quests are not among them.
pub narration_request-forget :
    (is_alphanumeric : ℕ → Bool) (input : BuildContextInput) (player_input system_suffix : String)
    (temperature : ℕ)
    → narration_request is_alphanumeric
        (build (forget_input input))
        player_input
        system_suffix
        temperature
      ≡ narration_request is_alphanumeric (build input) player_input system_suffix temperature
unfolding narration_request build
narration_request-forget is_alphanumeric input player_input system_suffix temperature =
    let same : render_narration_context is_alphanumeric (build (forget_input input)) player_input
        ≡ render_narration_context is_alphanumeric (build input) player_input =
      sym (render-narrated is_alphanumeric (build (forget_input input)) player_input)
      ∙ ap (λ context. render_narration_context is_alphanumeric context player_input)
          (narrated-forget input)
      ∙ render-narrated is_alphanumeric (build input) player_input in
    rw same refl
