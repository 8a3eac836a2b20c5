-- ===== src/Base/Search/Sizes.antt =====
-- Searches and the lengths of texts: what stands behind an occurrence is shorter, and an occurrence
-- stays the first one when the text grows at its end.
use Prim.Native.Char.{Char, code}
use Prim.Native.Nat.{ℕ, ◌+◌, ◌≤◌, ◌<◌}
use Prim.Native.String
use Prim.Native.String.{String}
use Prim.Native.String.append
use mathlib.Core.Path.{◌≡◌, refl, ap, ◌∙◌}
use mathlib.Core.Logic.{inl, inr}
use mathlib.Core.Option
use mathlib.Core.Option.{Option, none, some}
use native.Mathlib.Omega.{arith}
use advanced_roleplaying_fra.Base.Lists.{length, length-append}
use advanced_roleplaying_fra.Base.Tests.{nat_eq, Bool-cases}
use advanced_roleplaying_fra.Base.Text.{codes}
use advanced_roleplaying_fra.Base.Decimal.ReadBack.{codes-append}
use advanced_roleplaying_fra.Base.Search.{after_prefix, split_first, found_or}
use advanced_roleplaying_fra.Base.Search.Cuts.{split_first-eq-some}

abbrev pub size : String → ℕ
size text = length (codes text)

pub size-append : (s t : String) → size (String.◌++◌ s t) ≡ size s + size t
size-append s t = ap length (codes-append s t) ∙ length-append (codes s) (codes t)

-- What stands after an occurrence is shorter than the text.
pub split_first-size :
    (c : Char) (needle text before after : String)
    → split_first (String.◌∷◌ c needle) text ≡ some (before, after)
    → size after < size text
split_first-size c needle text before after e =
    let whole = (split_first-eq-some c needle text before after e).1 in
    let total = ap size whole in
    let outer = size-append before (String.◌++◌ (String.◌∷◌ c needle) after) in
    let inner = size-append (String.◌∷◌ c needle) after in omega arith

-- A prefix stays one when the text grows.
after_prefix-grow :
    (needle text rest u : String)
    → after_prefix needle text ≡ some rest
    → after_prefix needle (String.◌++◌ text u) ≡ some (String.◌++◌ rest u)
unfolding after_prefix
after_prefix-grow String.[] text rest u h = ap (λ t. some (String.◌++◌ t u)) (cc)
after_prefix-grow (String.◌∷◌ c needle) String.[] rest u h = cc
after_prefix-grow (String.◌∷◌ c needle) (String.◌∷◌ d text) rest u h =
    elim (Bool-cases (nat_eq (code c) (code d))) [
      | inl same ↦ rw (append.cons, same) (after_prefix-grow needle text rest u (rw same at h))
      | inr differ ↦ let stuck : none ≡ some rest = rw differ at h in cc
    ]

-- What is no prefix of a text that is long enough becomes none when the text grows.
after_prefix-no_grow :
    (needle text u : String)
    → size needle ≤ size text
    → after_prefix needle text ≡ none
    → after_prefix needle (String.◌++◌ text u) ≡ none
unfolding after_prefix
after_prefix-no_grow String.[] text u fits h = cc
after_prefix-no_grow (String.◌∷◌ c needle) String.[] u fits h = absurd (omega arith)
after_prefix-no_grow (String.◌∷◌ c needle) (String.◌∷◌ d text) u fits h =
    elim (Bool-cases (nat_eq (code c) (code d))) [
      | inl same ↦
          rw (append.cons, same) (after_prefix-no_grow needle text u (omega arith) (rw same at h))
      | inr differ ↦ rw (append.cons, differ) refl
    ]

pub split_first-grow :
    (c : Char) (needle text before after u : String)
    → split_first (String.◌∷◌ c needle) text ≡ some (before, after)
    → split_first (String.◌∷◌ c needle) (String.◌++◌ text u) ≡ some (before, String.◌++◌ after u)
unfolding split_first
split_first-grow c needle String.[] before after u h = cc
split_first-grow c needle (String.◌∷◌ d text) before after u h =
    split (after_prefix (String.◌∷◌ c needle) (String.◌∷◌ d text))
      (split_first (String.◌∷◌ c needle) text) refl refl (split_first-grow c needle text) h
  where
    split :
        (first : Option String) (later : Option (String × String))
        → after_prefix (String.◌∷◌ c needle) (String.◌∷◌ d text) ≡ first
        → split_first (String.◌∷◌ c needle) text ≡ later
        → ((b a v : String)
            → split_first (String.◌∷◌ c needle) text ≡ some (b, a)
            → split_first (String.◌∷◌ c needle) (String.◌++◌ text v) ≡ some (b, String.◌++◌ a v))
        → found_or d first later ≡ some (before, after)
        → split_first (String.◌∷◌ c needle) (String.◌++◌ (String.◌∷◌ d text) u)
          ≡ some (before, String.◌++◌ after u)
    split (some rest) later e f ih g =
        let start = after_prefix-grow (String.◌∷◌ c needle) (String.◌∷◌ d text) rest u e in
        let found : some (String.[], rest) ≡ some (before, after) = g in
        rw (append.cons, rw append.cons at start)
          (ap (Option.map (λ (cut : String × String). (cut.0, String.◌++◌ cut.1 u))) found)
    split none none e f ih g = cc
    split none (some (b, a)) e f ih g =
        let whole = ap size (split_first-eq-some c needle text b a f).1 in
        let outer = size-append b (String.◌++◌ (String.◌∷◌ c needle) a) in
        let inner = size-append (String.◌∷◌ c needle) a in
        let fits : size (String.◌∷◌ c needle) ≤ size (String.◌∷◌ d text) = omega arith in
        let start = after_prefix-no_grow (String.◌∷◌ c needle) (String.◌∷◌ d text) u fits e in
        let found : some (String.◌∷◌ d b, a) ≡ some (before, after) = g in
        rw (append.cons, rw append.cons at start, ih b a u f)
          (ap (Option.map (λ (cut : String × String). (cut.0, String.◌++◌ cut.1 u))) found)
