-- ===== src/Engine/Prompt/Facts.antt =====
-- crates/engine/src/prompt/render.rs: which of the game master's facts a prompt mentions, and the
-- sections of facts and memories.
use Prim.Native.String.{String, ◌++◌}
use advanced_roleplaying_fra.Base.{
  ℕ, ◌+◌, Bool, true, false, not, ◌&&◌, Option, none, some, List, [], ◌∷◌, map, any, keep, nat_eq,
  leb, ltb, if◌then◌else◌,
}
use advanced_roleplaying_fra.Base.Text.{codes}
use advanced_roleplaying_fra.Base.Search.{join}
use advanced_roleplaying_fra.Base.Decimal.{decimal}
use advanced_roleplaying_fra.Domain.Scenario.{Location, RevealCondition}
use advanced_roleplaying_fra.Domain.State.{Fact, MemoryEntry, QuestState, ClockState}
use advanced_roleplaying_fra.Engine.Context.{AgentContext}
use advanced_roleplaying_fra.Engine.Prompt.Names.{listed, or_else, render_section}

-- A token is the sequence of its code points.
abbrev pub Token : Type 0
Token = List ℕ

abbrev pub same_token : Token → Token → Bool
same_token [] [] = true
same_token (x ∷ xs) (y ∷ ys) = nat_eq x y && same_token xs ys
same_token _ _ = false

-- `char::to_ascii_lowercase`.
abbrev pub lower_ascii : ℕ → ℕ
lower_ascii c = if leb 65 c && leb c 90 then c + 32 else c

-- `token.len()` is the number of bytes in UTF-8.
abbrev pub utf8_width : ℕ → ℕ
utf8_width c = if ltb c 0x80 then 1 else if ltb c 0x800 then 2 else if ltb c 0x10000 then 3 else 4

abbrev pub utf8_length : Token → ℕ
utf8_length [] = 0
utf8_length (c ∷ cs) = utf8_width c + utf8_length cs

abbrev pub noise : List String
noise =
    "the" ∷ "and" ∷ "for" ∷ "with" ∷ "that" ∷ "this" ∷ "from" ∷ "into" ∷ "stop" ∷ "clock" ∷ "only"
    ∷ "during" ∷ []

unfoldable pub is_noise_token : Token → Bool
is_noise_token token = any (λ (word : String). same_token token (codes word)) noise

abbrev pub put_first : ℕ → List Token → List Token
put_first c [] = (c ∷ []) ∷ []
put_first c (token ∷ rest) = (c ∷ token) ∷ rest

abbrev pub location_name : Option Location → String
location_name none = ""
location_name (some location) = location.name

abbrev pub quest_cue : QuestState → String
quest_cue quest = quest.quest_id

abbrev pub clock_cue : ClockState → String
clock_cue clock = clock.title

abbrev pub condition_text : RevealCondition → String
condition_text condition = condition.id ++ " " ++ condition.description

abbrev pub condition_description : RevealCondition → String
condition_description condition = condition.description

unfoldable pub format_reveal_conditions : List RevealCondition → String
format_reveal_conditions conditions = listed "; " condition_description conditions

abbrev pub gm_fact_line : Fact → String
gm_fact_line fact =
    fact.text ++ " (reveal conditions: " ++ format_reveal_conditions fact.reveal_conditions ++ ")"

-- What is said around the facts that decides which of them matter.
unfoldable pub cue_text : AgentContext → String → String
cue_text context player_input =
    player_input
    ++ " "
    ++ location_name context.current_location
    ++ " "
    ++ or_else "" (context.active_role).active_role_name
    ++ " "
    ++ join " " (map quest_cue context.active_quests)
    ++ " "
    ++ join " " (map clock_cue context.active_clocks)

unfoldable pub fact_cues : Fact → String
fact_cues fact = fact.text ++ " " ++ join " " (map condition_text fact.reveal_conditions)

abbrev pub fact_text : Fact → String
fact_text fact = fact.text

abbrev pub player_known_line : AgentContext → String
player_known_line context =
    "Player-known facts: " ++ listed " | " fact_text context.player_known_facts

abbrev pub related_text : List String → String
related_text [] = ""
related_text (x ∷ xs) = " [related: " ++ join ", " (x ∷ xs) ++ "]"

unfoldable pub format_memory : MemoryEntry → String
format_memory memory =
    memory.text
    ++ " (importance: "
    ++ decimal memory.importance
    ++ ")"
    ++ related_text memory.related_entity_ids

abbrev pub player_memory_line : AgentContext → String
player_memory_line context =
    "Player-visible memory: " ++ listed " | " format_memory context.player_memories

unfoldable pub render_memory_section : AgentContext → Bool → String
render_memory_section context true = render_section "CAMPAIGN MEMORY" (
    player_memory_line context
    ∷ ("GM-only memory: " ++ listed " | " format_memory context.gm_only_memories)
    ∷ [])
render_memory_section context false =
    render_section "CAMPAIGN MEMORY" (player_memory_line context ∷ [])

-- `char::is_alphanumeric`, a table of Unicode.
module _ (is_alphanumeric : ℕ → Bool) where
  -- `split(|ch| !ch.is_alphanumeric())`.
  unfoldable pub split_tokens : List ℕ → List Token
  split_tokens [] = [] ∷ []
  split_tokens (c ∷ cs) =
      let rest = split_tokens cs in if is_alphanumeric c then put_first c rest else [] ∷ rest

  unfoldable pub tokenize : String → List Token
  unfolding is_noise_token split_tokens
  tokenize input =
      keep (λ (token : Token). leb 3 (utf8_length token) && not (is_noise_token token))
        (map (λ (token : Token). map lower_ascii token) (split_tokens (codes input)))

  -- `!a.is_disjoint(&b)`.
  abbrev pub meets : List Token → List Token → Bool
  meets xs ys = any (λ (x : Token). any (same_token x) ys) xs

  unfoldable pub relevant_gm_only_facts : AgentContext → String → List Fact
  relevant_gm_only_facts context player_input =
      keep
        (λ (fact : Fact).
          meets (tokenize (fact_cues fact)) (tokenize (cue_text context player_input)))
        context.gm_only_facts

  unfoldable pub render_gm_only_facts : AgentContext → String → String
  render_gm_only_facts context player_input =
      listed " | " gm_fact_line (relevant_gm_only_facts context player_input)

  unfoldable pub render_facts_section : AgentContext → String → Bool → String
  render_facts_section context player_input true = render_section "RELEVANT FACTS" (
      player_known_line context
      ∷ ("GM-only facts (do not reveal unless justified): "
          ++ render_gm_only_facts context player_input)
      ∷ [])
  render_facts_section context player_input false =
      render_section "RELEVANT FACTS" (player_known_line context ∷ [])
