-- ===== src/Providers/Sse.antt =====
-- crates/providers/src/http.rs: `SseLineDecoder`, which cuts a stream of text into its events.
use Prim.Native.Char.{Char, code}
use Prim.Native.String
use Prim.Native.String.append
use advanced_roleplaying_fra.Base.{
  ℕ, zero, suc, ◌+◌, ◌<◌, ◌≤◌, String, ◌≡◌, refl, ap, sym, ◌∙◌, Bool, true, false, Option, none,
  some, List, [], ◌∷◌, ◌++◌, length, filter_map, nat_eq, ◌&&◌, arith, if◌then◌else◌,
}
use advanced_roleplaying_fra.Base.Text.{codes}
use advanced_roleplaying_fra.Base.Search.{split_first, after_prefix, join}
pub mod Chunks

abbrev pub starts_line_feed : String → Bool
starts_line_feed String.[] = false
starts_line_feed (String.◌∷◌ c text) = nat_eq (code c) 10

abbrev pub put_in_line : Char → List String → List String
put_in_line c [] = String.◌∷◌ c String.[] ∷ []
put_in_line c (line ∷ lines) = String.◌∷◌ c line ∷ lines

-- `str::lines`: a line ends with a line feed, or a carriage return and a line feed.
unfoldable pub lines : String → List String
lines String.[] = []
lines (String.◌∷◌ c text) =
    let rest = lines text in
    if nat_eq (code c) 10
    then String.[] ∷ rest
    else if nat_eq (code c) 13 && starts_line_feed text
    then rest
    else put_in_line c rest

-- The data of a frame: its data lines, joined.
unfoldable pub frame_data : String → String
unfolding lines
frame_data frame = join "\n" (filter_map (after_prefix "data: ") (lines frame))

abbrev pub push_data : String → List String → List String
push_data String.[] pushed = pushed
push_data (String.◌∷◌ c data_text) pushed = String.◌∷◌ c data_text ∷ pushed

abbrev pub after_frame : String → List String × String → List String × String
after_frame frame (pushed, buffer) = (push_data (frame_data frame) pushed, buffer)

-- One round of the loop, on what `find` gives for the buffer.
abbrev pub on_frame :
    (String → List String × String) → String → Option (String × String) → List String × String
on_frame go buffer none = ([], buffer)
on_frame go buffer (some (frame, rest)) = after_frame frame (go rest)

-- Each round shortens the buffer, so as many rounds as it has characters are enough.
unfoldable pub frame_rounds : ℕ → String → List String × String
frame_rounds zero buffer = ([], buffer)
frame_rounds (suc fuel) buffer = on_frame (frame_rounds fuel) buffer (split_first "\n\n" buffer)

-- The decoder is its buffer; the result is the lines and the new buffer.
unfoldable pub push : String → String → List String × String
push buffer chunk =
    let text = String.◌++◌ buffer chunk in frame_rounds (suc (length (codes text))) text
