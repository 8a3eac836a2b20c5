-- ===== src/Engine/Prompt/Requests.antt =====
-- crates/engine/src/prompt/mod.rs: `BasicPromptBuilder`, and `repair_prompt` of
-- crates/engine/src/prompt/repair.rs.
use Prim.Native.String.{String, ◌++◌}
use advanced_roleplaying_fra.Base.{ℕ, Bool, true, false, Option, none, some, [], ◌∷◌}
use advanced_roleplaying_fra.Base.Search.{join}
use advanced_roleplaying_fra.Domain.State.{TurnMode}
use advanced_roleplaying_fra.Providers.Request.{LlmMessage, LlmMessageRole, LlmRequest}
use advanced_roleplaying_fra.Engine.Context.{AgentContext}
use advanced_roleplaying_fra.Engine.Prompt.Render.{render_context, render_narration_context}

abbrev pub base_rules : String
base_rules = join "\n" (
    "You are a roleplaying engine that generates immersive storyteller output."
    ∷ "Stay in-world unless rules adjudication is required."
    ∷ "Respect world state, role identities, faction goals, clocks, and known facts."
    ∷ "Do not reveal hidden reasoning."
    ∷ "Do not reveal GM-only secrets unless the player has discovered them through justified action."
    ∷ "The LLM proposes typed deltas; the engine validates and applies them." ∷ [])

abbrev pub preamble : Option TurnMode → Option String
preamble (some TurnMode.action) =
    some
      "The player is performing an in-world action. Narrate the outcome. For risky actions, track stakes and make the consequence visible."
preamble (some TurnMode.direct) =
    some
      "The player is asking an out-of-character question. Answer as GM directly and clearly. Do not stay in character."
preamble (some TurnMode.remember) =
    some
      "The player is providing a memory or fact correction. Acknowledge it, update your understanding, and confirm what changed."
preamble (some TurnMode.dialogue) = none
preamble none = none

abbrev pub with_preamble : Option String → String
with_preamble (some text) = text ++ "\n" ++ base_rules
with_preamble none = base_rules

unfoldable pub system_rules : Option TurnMode → String
system_rules mode = with_preamble (preamble mode)

abbrev pub system_message : String → LlmMessage
system_message content = record { role = LlmMessageRole.system; content = content }

abbrev pub as_user : String → LlmMessage
as_user content = record { role = LlmMessageRole.user; content = content }

unfoldable pub repair_prompt : String → String
repair_prompt raw_output =
    "The following output was malformed JSON. "
    ++ "Return only valid JSON matching the WorldStateDelta schema. "
    ++ "Do not include any explanation or markdown.\n" ++ "\n"
    ++ "Schema fields: facts_to_add, npc_changes, faction_changes, "
    ++ "quest_changes, clock_changes, relationship_changes, "
    ++ "location_change, event_log_entries\n" ++ "\n" ++ "Malformed output:\n" ++ raw_output

module _ (is_alphanumeric : ℕ → Bool) where
  unfoldable pub build_non_streaming_prompt : AgentContext → String → LlmRequest
  build_non_streaming_prompt context player_input = record {
    messages =
        system_message (system_rules context.mode)
        ∷ as_user (
            render_context is_alphanumeric context player_input
            ++ "\n\nOUTPUT CONTRACT:\nReturn strict JSON with keys player_response and world_state_delta. The delta may only use typed change arrays. For risky action turns, include action_resolution_changes with intent, stakes, outcome, and consequence.")
        ∷ [];
    temperature = some 7;
    max_tokens = none;
    json_mode = true;
  }

  unfoldable pub narration_request : AgentContext → String → String → ℕ → LlmRequest
  narration_request context player_input system_suffix temperature = record {
    messages =
        system_message (system_rules context.mode ++ "\n" ++ system_suffix)
        ∷ as_user (render_narration_context is_alphanumeric context player_input)
        ∷ [];
    temperature = some temperature;
    max_tokens = none;
    json_mode = false;
  }

  unfoldable pub build_streaming_prompt : AgentContext → String → LlmRequest
  unfolding narration_request
  build_streaming_prompt context player_input =
      narration_request context player_input
        "Stream only player-visible narration. Do not emit JSON." 8

  unfoldable pub build_visible_response_prompt : AgentContext → String → LlmRequest
  unfolding narration_request
  build_visible_response_prompt context player_input =
      narration_request context player_input
        "Return only the player-visible narration. Do not emit JSON or delta fields." 7

  unfoldable pub build_delta_extraction_prompt : AgentContext → String → String → LlmRequest
  build_delta_extraction_prompt context player_input visible_response = record {
    messages =
        system_message "Extract only a typed WorldStateDelta as strict JSON. Do not narrate."
        ∷ as_user (
            render_context is_alphanumeric context player_input
            ++ "\n\nVISIBLE RESPONSE:\n"
            ++ visible_response
            ++ "\n\nOUTPUT CONTRACT:\nReturn only world_state_delta JSON. For risky action turns, include action_resolution_changes with intent, stakes, outcome, and consequence.")
        ∷ [];
    temperature = some 2;
    max_tokens = none;
    json_mode = true;
  }
