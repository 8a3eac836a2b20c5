-- ===== src/Engine/Prompt/Names.antt =====
-- `{:?}` of the enumerations that a prompt mentions, and the text helpers of
-- crates/engine/src/prompt/render.rs.
use Prim.Native.String.{String, ◌++◌}
use advanced_roleplaying_fra.Base.{Option, none, some, List, [], ◌∷◌, map}
use advanced_roleplaying_fra.Base.Search.{join}
use advanced_roleplaying_fra.Domain.Scenario.{NpcStatus}
use advanced_roleplaying_fra.Domain.State.{QuestStatus, ActionOutcome, SceneReasoningStyle}

abbrev pub npc_status_name : NpcStatus → String
npc_status_name NpcStatus.active = "Active"
npc_status_name NpcStatus.injured = "Injured"
npc_status_name NpcStatus.unconscious = "Unconscious"
npc_status_name NpcStatus.missing = "Missing"
npc_status_name NpcStatus.captured = "Captured"
npc_status_name NpcStatus.dead = "Dead"
npc_status_name NpcStatus.hidden = "Hidden"
npc_status_name NpcStatus.unknown = "Unknown"

abbrev pub quest_status_name : QuestStatus → String
quest_status_name QuestStatus.available = "Available"
quest_status_name QuestStatus.active = "Active"
quest_status_name QuestStatus.completed = "Completed"
quest_status_name QuestStatus.failed = "Failed"
quest_status_name QuestStatus.hidden = "Hidden"

abbrev pub outcome_name : ActionOutcome → String
outcome_name ActionOutcome.success = "Success"
outcome_name ActionOutcome.success_with_cost = "SuccessWithCost"
outcome_name ActionOutcome.partial = "Partial"
outcome_name ActionOutcome.failure = "Failure"

abbrev pub style_name : SceneReasoningStyle → String
style_name SceneReasoningStyle.character_dialogue = "CharacterDialogue"
style_name SceneReasoningStyle.emotional_scene = "EmotionalScene"
style_name SceneReasoningStyle.political_negotiation = "PoliticalNegotiation"
style_name SceneReasoningStyle.mystery_investigation = "MysteryInvestigation"
style_name SceneReasoningStyle.tactical_combat = "TacticalCombat"
style_name SceneReasoningStyle.world_simulation = "WorldSimulation"
style_name SceneReasoningStyle.rules_adjudication = "RulesAdjudication"
style_name SceneReasoningStyle.travel_exploration = "TravelExploration"
style_name SceneReasoningStyle.downtime = "Downtime"
style_name SceneReasoningStyle.quest_resolution = "QuestResolution"

abbrev pub or_else : String → Option String → String
or_else default none = default
or_else default (some text) = text

-- `if values.is_empty() { "none" } else { values.iter().map(f).join(separator) }`.
abbrev pub listed {ℓ} : {A : Type ℓ} → String → (A → String) → List A → String
listed separator f [] = "none"
listed separator f (x ∷ xs) = join separator (map f (x ∷ xs))

unfoldable pub join_or_none : List String → String
join_or_none values = listed "; " (λ text. text) values

unfoldable pub render_section : String → List String → String
render_section title lines = title ++ ":\n" ++ join "\n" lines

unfoldable pub render_single_value_section : String → String → String
render_single_value_section title value = title ++ ":\n" ++ value
