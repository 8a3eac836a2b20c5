-- ===== src/Engine/Prompt/Extract.antt =====
-- What `extract_json_object` of crates/engine/src/prompt/parser.rs cuts out, and when it panics.
use Prim.Native.Char.{Char, code}
use Prim.Native.String
use Prim.Native.String.{String}
use Prim.Native.String.append
use advanced_roleplaying_fra.Base.{
  ◌≡◌, refl, ap, ◌∙◌, Bool-cases, Option-cases, inl, inr, none, some, nat_eq,
}
use advanced_roleplaying_fra.Base.Search.{split_first, after_prefix}
use advanced_roleplaying_fra.Engine.Prompt.Parser.{
  parsed, panicked, split_last, opening, close_brace, cut, cut_backwards, extract_json_object,
}

-- A text without an opening brace, and one without a closing brace.
abbrev pub LacksOpening : String → Type 0
LacksOpening text = split_first opening text ≡ none

abbrev pub LacksClosing : String → Type 0
LacksClosing text = split_last close_brace text ≡ none

brace-cons : (rest : String) → String.◌++◌ opening rest ≡ String.◌∷◌ "{" rest
brace-cons rest = append.cons "{" String.[] rest ∙ ap (String.◌∷◌ "{") (append.nil rest)

close-cons : (rest : String) → String.◌++◌ "}" rest ≡ String.◌∷◌ "}" rest
close-cons rest = append.cons "}" String.[] rest ∙ ap (String.◌∷◌ "}") (append.nil rest)

split_first-opening :
    (before rest : String)
    → LacksOpening before
    → split_first opening (String.◌++◌ before (String.◌∷◌ "{" rest)) ≡ some (before, rest)
unfolding split_first after_prefix
split_first-opening String.[] rest h = rw append.nil refl
split_first-opening (String.◌∷◌ c before) rest h = elim (Bool-cases (nat_eq 0x7b (code c))) [
  | inl here ↦ absurd (let stuck = rw here at h in cc)
  | inr other ↦ elim (Option-cases (split_first opening before)) [
    | inl clear ↦ rw (append.cons, other) (rw (split_first-opening before rest clear) refl)
    | inr (parts, e) ↦ absurd (let stuck = rw (other, e) at h in cc)
  ]
]

split_last-closing :
    (inside after : String)
    → LacksClosing after
    → split_last close_brace (String.◌++◌ inside (String.◌∷◌ "}" after)) ≡ some (inside, after)
unfolding split_last
split_last-closing String.[] after h = rw (append.nil, h) refl
split_last-closing (String.◌∷◌ c inside) after h =
    rw append.cons (rw (split_last-closing inside after h) refl)

-- The JSON object is cut out of a text that has no opening brace before it and no closing brace
-- behind it, whatever stands inside.
pub extract_json_object-cuts :
    (before inside after : String)
    → LacksOpening before
    → LacksClosing after
    → extract_json_object
        (String.◌++◌ before (String.◌∷◌ "{" (String.◌++◌ inside (String.◌∷◌ "}" after))))
      ≡ parsed (String.◌++◌ "{" (String.◌++◌ inside "}"))
unfolding extract_json_object
extract_json_object-cuts before inside after first last =
    rw (split_first-opening before (String.◌++◌ inside (String.◌∷◌ "}" after)) first)
      (ap (cut before) (split_last-closing inside after last))

-- Where the last closing brace stands before the first opening one, with some text between them,
-- the slice panics.
pub extract_json_object-panics :
    (before between after : String) (c : Char)
    → LacksOpening (String.◌++◌ before (String.◌∷◌ "}" (String.◌∷◌ c between)))
    → LacksClosing (String.◌∷◌ c between)
    → LacksClosing after
    → extract_json_object (
        String.◌++◌
          (String.◌++◌ before (String.◌∷◌ "}" (String.◌∷◌ c between)))
          (String.◌∷◌ "{" after))
      ≡ panicked
unfolding extract_json_object
extract_json_object-panics before between after c first second last =
    let front = String.◌++◌ before (String.◌∷◌ "}" (String.◌∷◌ c between)) in
    rw (split_first-opening front after first) (
      ap (cut front) last
      ∙ ap cut_backwards (split_last-closing before (String.◌∷◌ c between) second))
