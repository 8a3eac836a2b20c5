-- ===== src/Engine/Safety/Examples.antt =====
-- The stripper on small texts.
use advanced_roleplaying_fra.Base.{All}
use advanced_roleplaying_fra.Base.Search.Cuts.{Lacks}
use advanced_roleplaying_fra.Engine.Safety.{strip, strip_tag_blocks, hidden_markers}
use advanced_roleplaying_fra.Engine.Safety.Markers.{strip-Lacks}
use advanced_roleplaying_fra.Engine.Safety.Rounds.{Strips, strip_tag_blocks-Strips}

strip-Lacks_example :
    All
      (λ marker. Lacks marker (strip "You see a door. GM reasoning: it is locked."))
      hidden_markers
strip-Lacks_example = strip-Lacks "You see a door. GM reasoning: it is locked."

strip_tag_blocks-Strips_example :
    Strips "<think>" "</think>" "a<think>b</think>c"
      (strip_tag_blocks "<think>" "</think>" "a<think>b</think>c")
strip_tag_blocks-Strips_example =
    strip_tag_blocks-Strips "<" "<" "think>" "/think>" "a<think>b</think>c"
