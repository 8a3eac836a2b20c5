-- ===== src/Base/Search.antt =====
-- Searching and cutting texts: what the source does with `find`, slices, `truncate` and `trim`.
use Prim.Native.Char.{Char, code}
use Prim.Native.String
use Prim.Native.String.{String}
use Prim.Native.String.append
use Prim.Native.Nat.{ℕ, zero, suc, ◌+◌, ◌≤◌, ◌<◌}
use mathlib.Core.Path.{◌≡◌, refl, sym, ap, ◌∙◌, subst}
use mathlib.Core.Bool.{Bool, true, false}
use mathlib.Core.Option
use mathlib.Core.Option.{Option, none, some}
use mathlib.Core.List.{List, [], ◌∷◌}
use mathlib.Core.Logic.{◌≢◌, inl, inr}
use native.Mathlib.Omega.{arith}
use advanced_roleplaying_fra.Base.Tests.{nat_eq, if◌then◌else◌, Bool-cases}
use advanced_roleplaying_fra.Base.Lists.{length}
use advanced_roleplaying_fra.Base.Text.{codes, is_blank, is_whitespace}
pub mod Cuts
pub mod Sizes

-- What is left of a text after a prefix.
unfoldable pub after_prefix : String → String → Option String
after_prefix String.[] text = some text
after_prefix (String.◌∷◌ c needle) String.[] = none
after_prefix (String.◌∷◌ c needle) (String.◌∷◌ d text) =
    if nat_eq (code c) (code d) then after_prefix needle text else none

-- What is found at the front, or else what is found later, with the character put in front.
abbrev pub found_or : Char → Option String → Option (String × String) → Option (String × String)
found_or c (some rest) later = some (String.[], rest)
found_or c none none = none
found_or c none (some (before, after)) = some (String.◌∷◌ c before, after)

-- `find`, with the text before the first occurrence and the text after it.
unfoldable pub split_first : String → String → Option (String × String)
unfolding after_prefix
split_first needle String.[] =
    Option.map (λ rest. (String.[], rest)) (after_prefix needle String.[])
split_first needle (String.◌∷◌ c text) =
    found_or c (after_prefix needle (String.◌∷◌ c text)) (split_first needle text)

unfoldable pub trim_start : String → String
trim_start String.[] = String.[]
trim_start (String.◌∷◌ c text) =
    if is_whitespace (code c) then trim_start text else String.◌∷◌ c text

unfoldable pub trim_end : String → String
trim_end String.[] = String.[]
trim_end (String.◌∷◌ c text) =
    if is_blank (String.◌∷◌ c text) then String.[] else String.◌∷◌ c (trim_end text)

unfoldable pub trim : String → String
unfolding trim_start trim_end
trim text = trim_end (trim_start text)

-- `for (i, part) in parts { .. }`: `parts.join(separator)`.
unfoldable pub join : String → List String → String
join separator [] = String.[]
join separator (part ∷ []) = part
join separator (part ∷ next ∷ rest) =
    String.◌++◌ part (String.◌++◌ separator (join separator (next ∷ rest)))
