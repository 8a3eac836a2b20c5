-- ===== src/Engine/Prompt/Examples.antt =====
-- What the prompts and the parser do on small inputs.
use advanced_roleplaying_fra.Base.{◌≡◌, refl, some, [], leb, ◌||◌, ◌&&◌, Bool, ℕ}
use advanced_roleplaying_fra.Domain.State.{SceneReasoningStyle, TurnMode}
use advanced_roleplaying_fra.Base.Search.{split_first}
use advanced_roleplaying_fra.Engine.Sample.{harbor, harbor_world}
use advanced_roleplaying_fra.Engine.Context.{BuildContextInput}
use advanced_roleplaying_fra.Engine.Context.Role.{activate, directive_for}
use advanced_roleplaying_fra.Engine.Context.Build.{build}
use advanced_roleplaying_fra.Engine.Prompt.Parser.{
  parsed, panicked, extract_json_object, split_last,
}
use advanced_roleplaying_fra.Engine.Prompt.Extract.{
  extract_json_object-cuts, extract_json_object-panics,
}
use advanced_roleplaying_fra.Engine.Prompt.Requests.{narration_request}
use advanced_roleplaying_fra.Engine.Prompt.Hiding.{forget_input, narration_request-forget}

extract_json_object-cuts_example :
    extract_json_object "Sure: {\"facts\": {}} Done." ≡ parsed "{\"facts\": {}}"
unfolding split_first split_last
extract_json_object-cuts_example =
    extract_json_object-cuts "Sure: " "\"facts\": {}" " Done." refl refl

extract_json_object-panics_example : extract_json_object "a} b { c" ≡ panicked
unfolding split_first split_last
extract_json_object-panics_example = extract_json_object-panics "a" "b " " c" " " refl refl refl

abbrev letters : ℕ → Bool
letters c = leb 97 c && leb c 122 || leb 65 c && leb c 90

abbrev harbor_input : BuildContextInput
harbor_input = record {
  scenario = harbor;
  world_state = harbor_world;
  active_role = activate harbor harbor_world SceneReasoningStyle.downtime;
  scene_directive = directive_for SceneReasoningStyle.downtime;
  recent_messages = [];
  mode = some TurnMode.dialogue;
}

narration_request-forget_example :
    narration_request letters (build (forget_input harbor_input)) "I wait." "No JSON." 7
    ≡ narration_request letters (build harbor_input) "I wait." "No JSON." 7
narration_request-forget_example =
    narration_request-forget letters harbor_input "I wait." "No JSON." 7
