-- ===== src/Persistence/Intro.antt =====
-- crates/persistence/src/store.rs: the message that a session opens with.
use Prim.Native.String.{String, ◌++◌}
use advanced_roleplaying_fra.Base.{
  ◌≡◌, ap, not, Option, none, some, List, [], ◌∷◌, ◌==◌, find, if◌then◌else◌,
}
use mathlib.Core.List.{◌++◌ as append}
use advanced_roleplaying_fra.Base.Text.{is_blank}
use advanced_roleplaying_fra.Base.Search.{trim, join}
use advanced_roleplaying_fra.Base.Decimal.{decimal, decimal_ℤ}
use advanced_roleplaying_fra.Domain.Ids.{Uuid}
use advanced_roleplaying_fra.Domain.Scenario.{Scenario, Quest}
use advanced_roleplaying_fra.Domain.State.{WorldState, PlayerGoal, PlayerCondition, PlayerResource}
use advanced_roleplaying_fra.Domain.Session.{MessageRecord, MessageRole}
use advanced_roleplaying_fra.Domain.Visible.{
  FrontendVisibleState, VisibleLocation, VisibleNpc, VisibleQuest, VisibleClock,
}
use advanced_roleplaying_fra.Engine.Projection.View.{project}
use advanced_roleplaying_fra.Engine.Projection.Hiding.{player_context, redact, project-redact}

abbrev pub setting_part : String → List String
setting_part setting = if not (is_blank setting) then ("Setting\n" ++ trim setting) ∷ [] else []

abbrev pub opening_location : Option VisibleLocation → List String
opening_location none = []
opening_location (some location) = ("You begin in " ++ location.name ++ ".") ∷ []

abbrev pub opening_speaker : Option VisibleNpc → List String
opening_speaker none = []
opening_speaker (some speaker) = (speaker.name ++ " is the first visible voice in the scene.") ∷ []

abbrev pub concern : Option Quest → List String
concern none = []
concern (some quest) =
    if is_blank quest.description
    then ("Immediate concern: " ++ quest.title ++ ".") ∷ []
    else ("Immediate concern: " ++ quest.title ++ ". " ++ trim quest.description) ∷ []

abbrev pub quest_part : Scenario → List VisibleQuest → List String
quest_part scenario [] = []
quest_part scenario (shown ∷ rest) =
    concern (find (λ (quest : Quest). quest.id == shown.id) scenario.quests)

abbrev pub clock_part : List VisibleClock → List String
clock_part [] = []
clock_part (clock ∷ rest) =
    ("Pressure: "
      ++ clock.title
      ++ " stands at "
      ++ decimal clock.current
      ++ "/"
      ++ decimal clock.max
      ++ ".")
    ∷ []

abbrev pub resource_part : List PlayerResource → List String
resource_part [] = []
resource_part (resource ∷ rest) =
    (resource.label
      ++ " currently sits at "
      ++ decimal_ℤ resource.current
      ++ " within a range of "
      ++ decimal_ℤ resource.min
      ++ " to "
      ++ decimal_ℤ resource.max
      ++ ".")
    ∷ []

abbrev pub condition_part : List PlayerCondition → List PlayerResource → List String
condition_part [] resources = resource_part resources
condition_part (condition ∷ rest) resources = ("You are carrying " ++ condition.label ++ ".") ∷ []

-- The first goal, or else the first condition, or else the first resource.
abbrev pub focus_part : List PlayerGoal → List PlayerCondition → List PlayerResource → List String
focus_part [] conditions resources = condition_part conditions resources
focus_part (goal ∷ rest) conditions resources = ("Your focus: " ++ goal.label ++ ".") ∷ []

-- `if !parts.is_empty() { sections.push(..) }`.
abbrev pub titled : String → List String → List String
titled title [] = []
titled title (x ∷ xs) = (title ++ "\n" ++ join " " (x ∷ xs)) ∷ []

unfoldable pub intro_sections : Scenario → FrontendVisibleState → List String
intro_sections scenario projected =
    let player = projected.player in
    trim scenario.title
    ∷ append (setting_part scenario.setting) (
        append
          (titled "Opening" (
            append (opening_location projected.current_location)
              (opening_speaker projected.active_speaker)))
          (titled "Situation" (
            append (quest_part scenario projected.visible_quests) (
              append (clock_part projected.visible_clocks)
                (focus_part player.goals player.conditions player.resources)))))

unfoldable pub build_opening_intro : Scenario → WorldState → String
unfolding intro_sections
build_opening_intro scenario world_state =
    join "\n\n" (intro_sections scenario (project scenario world_state player_context))

-- The UUID that is drawn for the message is an argument.
unfoldable pub opening_intro_message :
    {Json : Type 0} → Uuid → Uuid → Scenario → WorldState → MessageRecord Json
opening_intro_message id session_id scenario world_state = record {
  id = id;
  session_id = session_id;
  role = MessageRole.system;
  speaker_id = none;
  content = build_opening_intro scenario world_state;
  scene_type = none;
  prompt_template_version = none;
  raw_provider_output = none;
}

-- The opening says nothing of what is hidden from the player in the world state: it is the same
-- text when all of that is taken out first.
pub build_opening_intro-redact :
    (scenario : Scenario) (world_state : WorldState)
    → build_opening_intro scenario (redact scenario world_state)
      ≡ build_opening_intro scenario world_state
unfolding build_opening_intro
build_opening_intro-redact scenario world_state =
    ap (λ projected. join "\n\n" (intro_sections scenario projected))
      (project-redact scenario world_state)
