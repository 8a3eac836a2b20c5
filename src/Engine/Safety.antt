-- ===== src/Engine/Safety.antt =====
-- crates/engine/src/safety.rs: `BasicHiddenReasoningStripper`, which takes a model's hidden
-- reasoning out of its answer.
use Prim.Native.String
use advanced_roleplaying_fra.Base.{
  ℕ, zero, suc, String, Option, none, some, List, [], ◌∷◌, length, foldl,
}
use advanced_roleplaying_fra.Base.Text.{codes}
use advanced_roleplaying_fra.Base.Search.{split_first, trim}
pub mod Markers
pub mod Rounds
pub mod Examples

-- The text after a block: nothing, where the block is not closed.
abbrev pub after_block : Option (String × String) → String
after_block none = String.[]
after_block (some (inside, rest)) = rest

-- One round of the loop, on what `rest.find(start)` gives: without an opening tag the text stays;
-- with one, the text before it stays, the block goes, and the loop goes on behind it.
abbrev pub on_block : String → (String → String) → String → Option (String × String) → String
on_block end go rest none = rest
on_block end go rest (some (before, after_start)) =
    String.◌++◌ before (go (after_block (split_first end after_start)))

-- Each round shortens the text, so as many rounds as it has characters are enough.
unfoldable pub strip_rounds : ℕ → String → String → String → String
strip_rounds zero start end rest = rest
strip_rounds (suc fuel) start end rest =
    on_block end (strip_rounds fuel start end) rest (split_first start rest)

unfoldable pub strip_tag_blocks : String → String → String → String
strip_tag_blocks start end input = strip_rounds (suc (length (codes input))) start end input

-- `if let Some(index) = cleaned.find(marker) { cleaned.truncate(index); }`.
abbrev pub before_or : String → Option (String × String) → String
before_or cleaned none = cleaned
before_or cleaned (some (before, after)) = before

unfoldable pub truncate_at : String → String → String
truncate_at cleaned marker = before_or cleaned (split_first marker cleaned)

abbrev pub hidden_markers : List String
hidden_markers =
    "Internal reasoning:" ∷ "Chain of thought:" ∷ "Hidden reasoning:" ∷ "GM reasoning:" ∷ []

unfoldable pub strip : String → String
strip text = trim (foldl truncate_at (strip_tag_blocks "<think>" "</think>" text) hidden_markers)
