-- ===== src/Base/Text.antt =====
-- What the source uses of Rust's `str`: `trim`, `contains` and the emptiness of a trimmed text.
-- A text is a sequence of code points.
use Prim.Native.Char.{code}
use Prim.Native.String.{String}
use Prim.Native.Nat.{ℕ}
use mathlib.Core.Bool.{Bool, true, false, ◌&&◌, ◌||◌}
use mathlib.Core.List.{List, [], ◌∷◌}
use advanced_roleplaying_fra.Base.Tests.{leb, nat_eq}
use advanced_roleplaying_fra.Base.Lists.{all}

abbrev pub codes : String → List ℕ
codes String.[] = []
codes (String.◌∷◌ c s) = code c ∷ codes s

-- `char::is_whitespace`: the code points with the Unicode property White_Space.
unfoldable pub is_whitespace : ℕ → Bool
is_whitespace c =
    (leb 9 c && leb c 13)
    || nat_eq c 32
    || nat_eq c 0x85
    || nat_eq c 0xa0
    || nat_eq c 0x1680
    || (leb 0x2000 c && leb c 0x200a)
    || nat_eq c 0x2028
    || nat_eq c 0x2029
    || nat_eq c 0x202f
    || nat_eq c 0x205f
    || nat_eq c 0x3000

-- `text.trim().is_empty()`: nothing is left exactly when every character is white space.
unfoldable pub is_blank : String → Bool
unfolding is_whitespace
is_blank s = all is_whitespace (codes s)

abbrev pub is_prefix : List ℕ → List ℕ → Bool
is_prefix [] ys = true
is_prefix (x ∷ xs) [] = false
is_prefix (x ∷ xs) (y ∷ ys) = nat_eq x y && is_prefix xs ys

abbrev pub has_infix : List ℕ → List ℕ → Bool
has_infix xs [] = is_prefix xs []
has_infix xs (y ∷ ys) = is_prefix xs (y ∷ ys) || has_infix xs ys

-- `text.contains(needle)`.
unfoldable pub contains : String → String → Bool
contains text needle = has_infix (codes needle) (codes text)
