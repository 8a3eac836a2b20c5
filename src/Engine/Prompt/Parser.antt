-- ===== src/Engine/Prompt/Parser.antt =====
-- crates/engine/src/prompt/parser.rs: `JsonResponseParser`, which reads a delta out of a model's
-- answer. What `serde_json` makes of a text is a parameter.
use Prim.Native.Char.{Char, code}
use Prim.Native.String
use Prim.Native.String.{String}
use advanced_roleplaying_fra.Base.{
  ℕ, Bool, true, false, Option, none, some, nat_eq, Result, ok, err,
}
use advanced_roleplaying_fra.Base.Search.{split_first}
use advanced_roleplaying_fra.Domain.Delta.{WorldStateDelta}

pub data ParseError : Type 0 where
  malformed : (message : String) → ParseError

-- A call that returns, with a result or an error, or that panics.
pub data Parsed (A : Type 0) : Type 0 where
  parsed : A → Parsed A
  failed : ParseError → Parsed A
  panicked : Parsed A

-- `rfind` of a character, with the text before its last occurrence and the text after it.
abbrev pub last_or : Char → Bool → String → Option (String × String) → Option (String × String)
last_or c here rest (some (before, after)) = some (String.◌∷◌ c before, after)
last_or c true rest none = some (String.[], rest)
last_or c false rest none = none

unfoldable pub split_last : ℕ → String → Option (String × String)
split_last mark String.[] = none
split_last mark (String.◌∷◌ c rest) = last_or c (nat_eq (code c) mark) rest (split_last mark rest)

abbrev pub opening : String
opening = "{"

-- The code points of the braces.
abbrev pub open_brace : ℕ
open_brace = 0x7b

abbrev pub close_brace : ℕ
close_brace = 0x7d

-- `&raw[start..=end]` where no closing brace stands behind the opening one: the slice is empty if
-- the last closing brace stands directly before it, and else the range is refused with a panic.
abbrev pub cut_backwards : Option (String × String) → Parsed String
cut_backwards none = failed (ParseError.malformed "missing JSON object end")
cut_backwards (some (before, String.[])) = parsed ""
cut_backwards (some (before, String.◌∷◌ c between)) = panicked

abbrev pub cut : String → Option (String × String) → Parsed String
cut before (some (inside, after)) = parsed (String.◌++◌ "{" (String.◌++◌ inside "}"))
cut before none = cut_backwards (split_last close_brace before)

abbrev pub cut_at : Option (String × String) → Parsed String
cut_at none = failed (ParseError.malformed "missing JSON object start")
cut_at (some (before, after)) = cut before (split_last close_brace after)

unfoldable pub extract_json_object : String → Parsed String
unfolding split_last
extract_json_object raw = cut_at (split_first opening raw)

-- `.map_err(|error| ParseError::Malformed(error.to_string()))`.
abbrev pub or_malformed : {A : Type 0} → Result A String → Parsed A
or_malformed (ok value) = parsed value
or_malformed (err message) = failed (ParseError.malformed message)

abbrev pub then_decode : {A : Type 0} → (String → Result A String) → Parsed String → Parsed A
then_decode decode (parsed text) = or_malformed (decode text)
then_decode decode (failed error) = failed error
then_decode decode panicked = panicked

-- `from_str` is `serde_json::from_str`, or its error as a text.
unfoldable pub parse_output : {A : Type 0} → (String → Result A String) → String → Parsed A
unfolding extract_json_object
parse_output from_str raw = elim (from_str raw) [
  | ok output ↦ parsed output
  | err message ↦ then_decode from_str (extract_json_object raw)
]

pub record PlayerTurnModelOutput : Type 0 where
  pub player_response : String
  pub world_state_delta : WorldStateDelta

abbrev pub parse_turn_output :
    (String → Result PlayerTurnModelOutput String) → String → Parsed PlayerTurnModelOutput
parse_turn_output from_str raw = parse_output from_str raw

abbrev pub parse_delta_output :
    (String → Result WorldStateDelta String) → String → Parsed WorldStateDelta
parse_delta_output from_str raw = parse_output from_str raw
