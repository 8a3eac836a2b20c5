-- ===== src/Engine/Scene.antt =====
-- crates/engine/src/scene.rs: `RuleBasedSceneClassifier`. `str::to_lowercase` is a parameter.
use advanced_roleplaying_fra.Base.{
  String, Bool, false, Option, none, some, List, [], ◌∷◌, any, ◌==◌, if◌then◌else◌,
}
use advanced_roleplaying_fra.Base.Text.{contains}
use advanced_roleplaying_fra.Domain.State.{WorldState, SceneReasoningStyle}

unfoldable pub contains_any : String → List String → Bool
contains_any input needles = any (λ (needle : String). contains input needle) needles

abbrev pub is_combat : Option String → Bool
is_combat none = false
is_combat (some scene) = scene == "combat"

unfoldable pub classify : (String → String) → String → WorldState → SceneReasoningStyle
unfolding contains_any
classify to_lowercase input world_state =
    let lower = to_lowercase input in
    if is_combat world_state.current_scene
    then SceneReasoningStyle.tactical_combat
    else if contains_any lower ("attack" ∷ "cast" ∷ "strike" ∷ "dodge" ∷ "shoot" ∷ [])
    then SceneReasoningStyle.tactical_combat
    else if contains_any lower ("negotiate" ∷ "convince" ∷ "threaten" ∷ "deal" ∷ "bargain" ∷ [])
    then SceneReasoningStyle.political_negotiation
    else if contains_any lower ("inspect" ∷ "search" ∷ "investigate" ∷ "clue" ∷ "examine" ∷ [])
    then SceneReasoningStyle.mystery_investigation
    else if contains_any lower
        ("comfort" ∷ "grieve" ∷ "confess" ∷ "reassure" ∷ "weep" ∷ "embrace" ∷ [])
    then SceneReasoningStyle.emotional_scene
    else if contains_any lower
        ("travel" ∷ "journey" ∷ "camp" ∷ "road" ∷ "trail" ∷ "explore" ∷ "scout" ∷ [])
    then SceneReasoningStyle.travel_exploration
    else if contains_any lower
        ("rest" ∷ "relax" ∷ "shop" ∷ "train" ∷ "downtime" ∷ "recover" ∷ "craft" ∷ [])
    then SceneReasoningStyle.downtime
    else if contains_any lower
        ("turn in" ∷ "report back" ∷ "claim reward" ∷ "quest complete" ∷ "mission complete" ∷ [])
    then SceneReasoningStyle.quest_resolution
    else if contains_any lower ("class" ∷ "stats" ∷ "rule" ∷ "ability" ∷ "level" ∷ [])
    then SceneReasoningStyle.rules_adjudication
    else SceneReasoningStyle.character_dialogue
