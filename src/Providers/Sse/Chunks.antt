-- ===== src/Providers/Sse/Chunks.antt =====
-- The decoder does not depend on how a stream of text is cut into chunks.
use Prim.Native.String
use Prim.Native.String.append
use text.Mathlib.TextLemmas.{append-nil, append_assoc}
use advanced_roleplaying_fra.Base.{
  ℕ, zero, suc, ◌<◌, String, ◌≡◌, refl, ap, sym, ◌∙◌, Option, none, some, List, [], ◌∷◌, ◌++◌,
  foldl, arith,
}
use advanced_roleplaying_fra.Base.Search.{split_first}
use advanced_roleplaying_fra.Base.Search.Sizes.{size, split_first-size, split_first-grow}
use advanced_roleplaying_fra.Providers.Sse.{
  push, frame_rounds, on_frame, after_frame, push_data, frame_data,
}

frame_rounds-enough :
    (f g : ℕ) (buffer : String)
    → size buffer < f
    → size buffer < g
    → frame_rounds f buffer ≡ frame_rounds g buffer
unfolding frame_rounds
frame_rounds-enough zero g buffer h k = absurd (omega arith)
frame_rounds-enough (suc f) zero buffer h k = absurd (omega arith)
frame_rounds-enough (suc f) (suc g) buffer h k =
    round (split_first "\n\n" buffer) refl (frame_rounds-enough f g)
  where
    round :
        (found : Option (String × String))
        → split_first "\n\n" buffer ≡ found
        → ((r : String) → size r < f → size r < g → frame_rounds f r ≡ frame_rounds g r)
        → on_frame (frame_rounds f) buffer found ≡ on_frame (frame_rounds g) buffer found
    round none e ih = refl
    round (some (frame, rest)) e ih =
        let less = split_first-size _ _ buffer frame rest e in
        ap (after_frame frame) (ih rest (omega arith) (omega arith))

-- The loop on a text, with rounds enough.
unfoldable drain : String → List String × String
drain text = frame_rounds (suc (size text)) text

drain-unroll : (text : String) → drain text ≡ on_frame drain text (split_first "\n\n" text)
unfolding drain frame_rounds
drain-unroll text = round (split_first "\n\n" text) refl
  where
    round :
        (found : Option (String × String))
        → split_first "\n\n" text ≡ found
        → on_frame (frame_rounds (size text)) text found ≡ on_frame drain text found
    round none e = refl
    round (some (frame, rest)) e =
        let less = split_first-size _ _ text frame rest e in
        ap (after_frame frame)
          (frame_rounds-enough (size text) (suc (size rest)) rest (omega arith) (omega arith))

-- What was drained before, in front of what a later chunk gives.
abbrev pub then_push : List String × String → String → List String × String
then_push (pushed, buffer) chunk = let (more, left) = push buffer chunk in (pushed ++ more, left)

push-drain : (buffer chunk : String) → push buffer chunk ≡ drain (String.◌++◌ buffer chunk)
unfolding push drain
push-drain buffer chunk = refl

push_data-append :
    (data_text : String) (pushed more : List String)
    → push_data data_text pushed ++ more ≡ push_data data_text (pushed ++ more)
push_data-append String.[] pushed more = refl
push_data-append (String.◌∷◌ c data_text) pushed more = refl

-- A text that is drained and then gets a chunk gives what both together give.
drain-append :
    (f : ℕ) (text chunk : String)
    → size text < f
    → then_push (drain text) chunk ≡ drain (String.◌++◌ text chunk)
drain-append zero text chunk h = absurd (omega arith)
drain-append (suc f) text chunk h =
    round (split_first "\n\n" text) refl (λ rest less. drain-append f rest chunk less)
  where
    round :
        (found : Option (String × String))
        → split_first "\n\n" text ≡ found
        → ((r : String) → size r < f → then_push (drain r) chunk ≡ drain (String.◌++◌ r chunk))
        → then_push (drain text) chunk ≡ drain (String.◌++◌ text chunk)
    round none e ih = rw (drain-unroll text, e) (push-drain text chunk)
    round (some (frame, rest)) e ih =
        let less = split_first-size _ _ text frame rest e in
        let grown = split_first-grow _ _ text frame rest chunk e in
        rw (drain-unroll text, e, drain-unroll (String.◌++◌ text chunk), grown)
          (shifted frame (drain rest) ∙ ap (after_frame frame) (ih rest (omega arith)))
      where
        shifted :
            (frame : String) (drained : List String × String)
            → then_push (after_frame frame drained) chunk
              ≡ after_frame frame (then_push drained chunk)
        shifted frame (pushed, buffer) = λ i. (
          push_data-append (frame_data frame) pushed (push buffer chunk).0 i,
          (push buffer chunk).1,
        )

abbrev pub concat : List String → String
concat [] = String.[]
concat (chunk ∷ chunks) = String.◌++◌ chunk (concat chunks)

drained-concat :
    (text : String) (chunks : List String)
    → foldl then_push (drain text) chunks ≡ drain (String.◌++◌ text (concat chunks))
drained-concat text [] = ap drain (sym (append-nil text))
drained-concat text (chunk ∷ chunks) =
    ap (λ r. foldl then_push r chunks) (drain-append (suc (size text)) text chunk (omega arith))
    ∙ drained-concat (String.◌++◌ text chunk) chunks
    ∙ ap drain (append_assoc text chunk (concat chunks))

-- However a text is cut into chunks, pushing them one after another to a new decoder gives the lines
-- and leaves the buffer that pushing the whole text at once does.
pub push-concat :
    (chunks : List String) → foldl then_push ([], String.[]) chunks ≡ push String.[] (concat chunks)
unfolding drain frame_rounds split_first
push-concat chunks = drained-concat String.[] chunks ∙ sym (push-drain String.[] (concat chunks))
