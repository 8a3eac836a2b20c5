-- ===== src/Engine/Prompt/Render.antt =====
-- crates/engine/src/prompt/render.rs: `render_context`, which the model is given to work out what a
-- turn changes, and `render_narration_context`, which it is given to narrate.
use advanced_roleplaying_fra.Base.{ℕ, String, Bool, true, false, [], ◌∷◌}
use advanced_roleplaying_fra.Base.Search.{join}
use advanced_roleplaying_fra.Engine.Context.{AgentContext}
use advanced_roleplaying_fra.Engine.Prompt.Names.{or_else, render_single_value_section}
use advanced_roleplaying_fra.Engine.Prompt.Sections.{
  scenario_section, style_section, role_section, world_section, render_player_state_section,
  render_social_state_section, render_npc_agency_section, render_action_resolution_section,
  render_clue_section, messages_section,
}
use advanced_roleplaying_fra.Engine.Prompt.Facts.{render_facts_section, render_memory_section}

module _ (is_alphanumeric : ℕ → Bool) where
  unfoldable pub render_context : AgentContext → String → String
  render_context context player_input = join "\n\n" (
      scenario_section context
      ∷ style_section context
      ∷ role_section context
      ∷ world_section context
      ∷ render_facts_section is_alphanumeric context player_input true
      ∷ render_player_state_section context true
      ∷ render_social_state_section context true
      ∷ render_npc_agency_section context true
      ∷ render_action_resolution_section context
      ∷ render_clue_section context
      ∷ render_memory_section context true
      ∷ render_single_value_section "RECENT SUMMARY" (or_else "none" context.recent_summary)
      ∷ messages_section context
      ∷ render_single_value_section "PLAYER INPUT" player_input
      ∷ [])

  unfoldable pub render_narration_context : AgentContext → String → String
  render_narration_context context player_input = join "\n\n" (
      scenario_section context
      ∷ style_section context
      ∷ role_section context
      ∷ world_section context
      ∷ render_facts_section is_alphanumeric context player_input false
      ∷ render_player_state_section context false
      ∷ render_social_state_section context false
      ∷ render_npc_agency_section context false
      ∷ render_action_resolution_section context
      ∷ render_clue_section context
      ∷ render_memory_section context false
      ∷ render_single_value_section "RECENT SUMMARY" (or_else "none" context.recent_summary)
      ∷ messages_section context
      ∷ render_single_value_section "PLAYER INPUT" player_input
      ∷ [])
