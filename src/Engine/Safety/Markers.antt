-- ===== src/Engine/Safety/Markers.antt =====
-- No marker of hidden reasoning is left in a stripped answer.
use Prim.Native.Char.{Char}
use Prim.Native.String
use Prim.Native.String.append
use advanced_roleplaying_fra.Base.{
  String, ◌≡◌, refl, subst, Option, none, some, List, [], ◌∷◌, All, All-weaken, foldl,
}
use advanced_roleplaying_fra.Base.Search.{split_first}
use advanced_roleplaying_fra.Base.Search.Cuts.{Lacks, Lacks-front, Lacks-trim, split_first-eq-some}
use advanced_roleplaying_fra.Engine.Safety.{
  before_or, truncate_at, hidden_markers, strip_tag_blocks, strip,
}

-- A truncated text is the start of the text.
truncate_at-Lacks :
    (c : Char) (marker needle text : String)
    → Lacks needle text
    → Lacks needle (truncate_at text (String.◌∷◌ c marker))
unfolding truncate_at
truncate_at-Lacks c marker needle text h = cut (split_first (String.◌∷◌ c marker) text) refl
  where
    cut :
        (found : Option (String × String))
        → split_first (String.◌∷◌ c marker) text ≡ found
        → Lacks needle (before_or text found)
    cut none e = h
    cut (some (before, after)) e =
        Lacks-front needle before (String.◌++◌ (String.◌∷◌ c marker) after)
          (subst (Lacks needle) (split_first-eq-some c marker text before after e).1 h)

truncated-Lacks :
    (c : Char) (marker text : String)
    → Lacks (String.◌∷◌ c marker) (truncate_at text (String.◌∷◌ c marker))
unfolding truncate_at
truncated-Lacks c marker text = cut (split_first (String.◌∷◌ c marker) text) refl
  where
    cut :
        (found : Option (String × String))
        → split_first (String.◌∷◌ c marker) text ≡ found
        → Lacks (String.◌∷◌ c marker) (before_or text found)
    cut none e = e
    cut (some (before, after)) e = (split_first-eq-some c marker text before after e).0

abbrev IsMarker : String → Type 0
IsMarker marker = (c : Char) × (rest : String) × (marker ≡ String.◌∷◌ c rest)

-- Truncating at one marker after another leaves none of them.
fold-Lacks :
    (needle : String) (markers : List String) (text : String)
    → All IsMarker markers
    → Lacks needle text
    → Lacks needle (foldl truncate_at text markers)
fold-Lacks needle [] text m h = h
fold-Lacks needle (marker ∷ markers) text m h =
    let (c, rest, e) = m.0 in
    fold-Lacks needle markers (truncate_at text marker) m.1
      (rw e (truncate_at-Lacks c rest needle text h))

markers_gone :
    (markers : List String) (text : String)
    → All IsMarker markers
    → All (λ marker. Lacks marker (foldl truncate_at text markers)) markers
markers_gone [] text m = tt
markers_gone (marker ∷ markers) text m =
    let (c, rest, e) = m.0 in
    (
      fold-Lacks marker markers (truncate_at text marker) m.1 (rw e (truncated-Lacks c rest text)),
      markers_gone markers (truncate_at text marker) m.1,
    )

-- Whatever the text: none of the four markers occurs in what is left of it.
pub strip-Lacks : (text : String) → All (λ marker. Lacks marker (strip text)) hidden_markers
unfolding strip
strip-Lacks text =
    All-weaken hidden_markers
      (λ marker h.
        Lacks-trim marker
          (foldl truncate_at (strip_tag_blocks "<think>" "</think>" text) hidden_markers) h)
      (markers_gone hidden_markers (strip_tag_blocks "<think>" "</think>" text) all_markers)
  where
    all_markers : All IsMarker hidden_markers
    all_markers = ((_, _, refl), ((_, _, refl), ((_, _, refl), ((_, _, refl), tt))))
