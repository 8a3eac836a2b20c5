-- ===== src/Engine/Safety/Rounds.antt =====
-- What the loop that takes blocks out leaves of a text, and that it has rounds enough for it.
use Prim.Native.Char.{Char}
use Prim.Native.String
use text.Mathlib.TextLemmas.{append-nil}
use advanced_roleplaying_fra.Base.{
  ℕ, zero, suc, ◌<◌, String, ◌≡◌, refl, ap, ◌∙◌, Option, none, some, arith,
}
use advanced_roleplaying_fra.Base.Search.{split_first, after_prefix}
use advanced_roleplaying_fra.Base.Search.Cuts.{Lacks, split_first-eq-some}
use advanced_roleplaying_fra.Base.Search.Sizes.{size, split_first-size}
use advanced_roleplaying_fra.Engine.Safety.{after_block, on_block, strip_rounds, strip_tag_blocks}

-- What is left of a text when its blocks are gone, by where the tags stand in it.
pub data Strips (start end : String) : String → String → Type 0 where
  -- Without an opening tag nothing goes.
  plain : (text : String) → Lacks start text → Strips start end text text
  -- A block that is not closed goes with all that follows it.
  unclosed :
      (text before block : String)
      → text ≡ String.◌++◌ before (String.◌++◌ start block)
      → Lacks start before
      → Lacks end block
      → Strips start end text before
  -- A block that is closed goes, and so do the blocks behind it.
  closed :
      (text before inside rest left : String)
      → text ≡ String.◌++◌ before (String.◌++◌ start (String.◌++◌ inside (String.◌++◌ end rest)))
      → Lacks start before
      → Lacks end inside
      → Strips start end rest left
      → Strips start end text (String.◌++◌ before left)

module _ (c d : Char) (start end : String) where
  abbrev opening : String
  opening = String.◌∷◌ c start

  abbrev closing : String
  closing = String.◌∷◌ d end

  strip_rounds-empty : (fuel : ℕ) → strip_rounds fuel opening closing String.[] ≡ String.[]
  unfolding strip_rounds split_first after_prefix
  strip_rounds-empty zero = refl
  strip_rounds-empty (suc fuel) = refl

  -- Each round shortens the text, so a fuel above its size is enough.
  strip_rounds-Strips :
      (fuel : ℕ) (text : String)
      → size text < fuel
      → Strips opening closing text (strip_rounds fuel opening closing text)
  unfolding strip_rounds
  strip_rounds-Strips zero text enough = absurd (omega arith)
  strip_rounds-Strips (suc fuel) text enough =
      round (split_first opening text) refl (strip_rounds-Strips fuel)
    where
      block :
          (before after_start : String)
          → split_first opening text ≡ some (before, after_start)
          → (found : Option (String × String)) → split_first closing after_start ≡ found
          → ((r : String)
              → size r < fuel
              → Strips opening closing r (strip_rounds fuel opening closing r))
          → Strips opening closing text
              (String.◌++◌ before (strip_rounds fuel opening closing (after_block found)))
      block before after_start opens none lacks ih =
          let (bare, whole) = split_first-eq-some c start text before after_start opens in
          rw (strip_rounds-empty fuel, append-nil before)
            (unclosed text before after_start whole bare lacks)
      block before after_start opens (some (inside, rest)) closes ih =
          let (bare, whole) = split_first-eq-some c start text before after_start opens in
          let (open_inside, behind) = split_first-eq-some d end after_start inside rest closes in
          let less = split_first-size c start text before after_start opens in
          let least = split_first-size d end after_start inside rest closes in
          closed text before inside rest (strip_rounds fuel opening closing rest)
            (whole ∙ ap (λ t. String.◌++◌ before (String.◌++◌ opening t)) behind) bare open_inside
            (ih rest (omega arith))

      round :
          (found : Option (String × String))
          → split_first opening text ≡ found
          → ((r : String)
              → size r < fuel
              → Strips opening closing r (strip_rounds fuel opening closing r))
          → Strips opening closing text
              (on_block closing (strip_rounds fuel opening closing) text found)
      round none lacks ih = plain text lacks
      round (some (before, after_start)) opens ih =
          block before after_start opens (split_first closing after_start) refl ih

  -- For tags that are not empty, the loop has rounds enough: it takes every block out, each from an
  -- opening tag to the next closing one, or to the end of the text where none follows, and leaves
  -- all that stands before, between and behind the blocks.
  pub strip_tag_blocks-Strips :
      (input : String) → Strips opening closing input (strip_tag_blocks opening closing input)
  unfolding strip_tag_blocks
  strip_tag_blocks-Strips input = strip_rounds-Strips (suc (size input)) input (omega arith)
