-- ===== src/Engine/Prompt/Sections.antt =====
-- crates/engine/src/prompt/render.rs: the sections of a prompt but those of facts and memories.
use Prim.Native.String.{String, ◌++◌}
use advanced_roleplaying_fra.Base.{Bool, true, false, ◌||◌, Option, none, some, List, [], ◌∷◌, keep}
use advanced_roleplaying_fra.Base.Search.{join}
use advanced_roleplaying_fra.Base.Decimal.{decimal, decimal_ℤ}
use advanced_roleplaying_fra.Domain.Scenario.{Location}
use advanced_roleplaying_fra.Domain.State.{
  FactionState, QuestState, ClockState, RelationshipState, ActionResolution, ClueState, PlayerTrait,
  PlayerGoal, PlayerCondition, PlayerResource,
}
use advanced_roleplaying_fra.Engine.Context.{
  AgentContext, NpcContext, FactionContext, OffscreenNpcActivity, MessageContext,
}
use advanced_roleplaying_fra.Engine.Prompt.Names.{
  npc_status_name, quest_status_name, outcome_name, style_name, or_else, listed, join_or_none,
  render_section,
}

unfoldable pub scenario_section : AgentContext → String
scenario_section context = render_section "SCENARIO AND SETTING" (
    ("Scenario: " ++ context.scenario_title)
    ∷ ("Setting: " ++ context.setting_summary)
    ∷ ("Rules: " ++ join_or_none context.rules)
    ∷ [])

unfoldable pub style_section : AgentContext → String
style_section context =
    let directive = context.scene_directive in
    render_section "SCENE STYLE DIRECTIVE" (
      ("Style: " ++ style_name directive.style)
      ∷ ("Priorities: " ++ join_or_none directive.priorities)
      ∷ ("Avoid: " ++ join_or_none directive.avoid)
      ∷ ("Visible response shape: " ++ directive.visible_response_shape)
      ∷ [])

unfoldable pub role_section : AgentContext → String
role_section context =
    let role = context.active_role in
    render_section "ACTIVE ROLE ACTIVATION" (
      ("Active role: " ++ or_else "Narrator/GM" role.active_role_name)
      ∷ ("Emotion now: " ++ or_else "none" role.emotion_now)
      ∷ ("Motivation now: " ++ or_else "none" role.motivation_now)
      ∷ ("Knowledge boundaries: " ++ join_or_none role.knowledge_boundaries)
      ∷ ("Forbidden moves: " ++ join_or_none role.forbidden_moves)
      ∷ ("Speech constraints: " ++ join_or_none role.speech_constraints)
      ∷ [])

abbrev pub location_line : Option Location → String
location_line none = "none"
location_line (some location) = location.name ++ " — " ++ location.description

abbrev pub npc_line : NpcContext → String
npc_line context =
    (context.npc).name
    ++ " ("
    ++ npc_status_name context.status
    ++ "; attitude: "
    ++ or_else "none" context.attitude_to_player
    ++ ")"

abbrev pub standing_text : Option FactionState → String
standing_text none = "none"
standing_text (some state) = decimal_ℤ state.standing

abbrev pub faction_line : FactionContext → String
faction_line context =
    (context.faction).name
    ++ " (standing: "
    ++ standing_text context.state
    ++ "; public goal: "
    ++ ((context.faction).faction_identity).public_goal
    ++ ")"

abbrev pub quest_line : QuestState → String
quest_line quest = quest.quest_id ++ " (" ++ quest_status_name quest.status ++ ")"

abbrev pub clock_line : ClockState → String
clock_line clock =
    clock.title
    ++ " ("
    ++ decimal clock.current
    ++ "/"
    ++ decimal clock.max
    ++ "; consequence: "
    ++ clock.consequence
    ++ ")"

unfoldable pub world_section : AgentContext → String
world_section context = render_section "CURRENT WORLD STATE" (
    ("Current location: " ++ location_line context.current_location)
    ∷ ("Relevant NPCs: " ++ listed " | " npc_line context.relevant_npcs)
    ∷ ("Relevant factions: " ++ listed " | " faction_line context.relevant_factions)
    ∷ ("Active quests: " ++ listed " | " quest_line context.active_quests)
    ∷ ("Active clocks: " ++ listed " | " clock_line context.active_clocks)
    ∷ [])

abbrev pub trait_line : PlayerTrait → String
trait_line item = item.label ++ ": " ++ item.description

abbrev pub goal_line : PlayerGoal → String
goal_line item = item.label ++ " (progress: " ++ decimal_ℤ item.progress ++ ")"

abbrev pub condition_line : PlayerCondition → String
condition_line item = item.label

abbrev pub resource_line : PlayerResource → String
resource_line item = item.label ++ " " ++ decimal_ℤ item.current ++ "/" ++ decimal_ℤ item.max

-- The line of the game master's notes, which only the oracle's prompt has.
abbrev pub notes_lines : Bool → List String → List String
notes_lines true notes = ("GM notes: " ++ listed " | " (λ text. text) notes) ∷ []
notes_lines false notes = []

unfoldable pub render_player_state_section : AgentContext → Bool → String
render_player_state_section context include_gm_only =
    let player = context.player_state in
    render_section "PLAYER CHARACTER" (
      ("Traits: " ++ listed " | " trait_line player.traits)
      ∷ ("Goals: " ++ listed " | " goal_line player.goals)
      ∷ ("Conditions: " ++ listed " | " condition_line player.conditions)
      ∷ ("Resources: " ++ listed " | " resource_line player.resources)
      ∷ notes_lines include_gm_only player.gm_notes)

abbrev pub relationship_line : RelationshipState → String
relationship_line relationship =
    relationship.source_id
    ++ " -> "
    ++ relationship.target_id
    ++ " (attitude "
    ++ decimal_ℤ relationship.attitude
    ++ "; trust "
    ++ decimal_ℤ relationship.trust
    ++ "; suspicion "
    ++ decimal_ℤ relationship.suspicion
    ++ "; loyalty "
    ++ decimal_ℤ relationship.loyalty
    ++ ")"

-- `if !notes.is_empty() { summary.push_str(..) }`.
abbrev pub pressure_text : String → List String → String
pressure_text title [] = ""
pressure_text title (x ∷ xs) = title ++ join " / " (x ∷ xs)

abbrev pub hidden_pressure_text : Bool → FactionState → String
hidden_pressure_text true state = pressure_text "; hidden pressure: " state.hidden_pressure_notes
hidden_pressure_text false state = ""

abbrev pub pressure_of : Bool → String → Option FactionState → String
pressure_of include_gm_only name none = name
pressure_of include_gm_only name (some state) =
    name
    ++ " (standing "
    ++ decimal_ℤ state.standing
    ++ "; pressure "
    ++ decimal_ℤ state.pressure
    ++ ")"
    ++ pressure_text "; public pressure: " state.public_pressure_notes
    ++ hidden_pressure_text include_gm_only state

abbrev pub pressure_line : Bool → FactionContext → String
pressure_line include_gm_only context =
    pressure_of include_gm_only (context.faction).name context.state

unfoldable pub render_social_state_section : AgentContext → Bool → String
render_social_state_section context include_gm_only = render_section "SOCIAL STATE" (
    ("Relationships: " ++ listed " | " relationship_line context.relevant_relationships)
    ∷ ("Faction pressure: "
        ++ listed " | " (pressure_line include_gm_only) context.relevant_factions)
    ∷ [])

abbrev pub activity_line : OffscreenNpcActivity → String
activity_line activity = activity.npc_name ++ ": " ++ activity.intent ++ " -> " ++ activity.result

abbrev pub shows_activity : Bool → OffscreenNpcActivity → Bool
shows_activity include_hidden activity = include_hidden || activity.visible_to_player

unfoldable pub render_npc_agency_section : AgentContext → Bool → String
render_npc_agency_section context include_hidden = render_section "NPC AGENCY" (
    ("Present NPCs: " ++ listed " | " npc_line context.relevant_npcs)
    ∷ ("Offscreen activity: "
        ++ listed " | " activity_line
            (keep (shows_activity include_hidden) context.offscreen_npc_activity))
    ∷ [])

abbrev pub resolution_line : ActionResolution → String
resolution_line resolution =
    resolution.intent
    ++ " -> "
    ++ outcome_name resolution.outcome
    ++ " ("
    ++ resolution.consequence
    ++ ")"

unfoldable pub render_action_resolution_section : AgentContext → String
render_action_resolution_section context =
    render_section "ACTION RESOLUTIONS"
      (listed " | " resolution_line context.recent_action_resolutions ∷ [])

abbrev pub clue_line : ClueState → String
clue_line clue = clue.text

unfoldable pub render_clue_section : AgentContext → String
render_clue_section context =
    render_section "DISCOVERED CLUES" (listed " | " clue_line context.visible_clues ∷ [])

abbrev pub message_line : MessageContext → String
message_line message = message.role ++ ": " ++ message.content

unfoldable pub messages_section : AgentContext → String
messages_section context =
    render_section "RECENT MESSAGES" (listed " | " message_line context.recent_messages ∷ [])
