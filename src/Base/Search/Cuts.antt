-- ===== src/Base/Search/Cuts.antt =====
-- What a search finds, and that cutting a text leaves no new occurrence.
use Prim.Native.Char.{Char, code}
use Prim.Native.String
use Prim.Native.String.{String}
use Prim.Native.String.append
use mathlib.Core.Path.{◌≡◌, refl, sym, ap, ◌∙◌, subst}
use mathlib.Core.Option.{Option, none, some}
use mathlib.Core.Logic.{◌⊎◌, inl, inr}
use text.Mathlib.TextEquality.{Char-path}
use advanced_roleplaying_fra.Base.Tests.{nat_eq, nat_eq_iff, Bool-cases}
use advanced_roleplaying_fra.Base.Text.{is_blank, is_whitespace}
use advanced_roleplaying_fra.Base.Search.{
  after_prefix, split_first, found_or, trim_start, trim_end, trim,
}

-- The needle does not occur in the text.
abbrev pub Lacks : String → String → Type 0
Lacks needle text = split_first needle text ≡ none

Option-cases : {A : Type 0} (o : Option A) → (o ≡ none) ⊎ ((a : A) × (o ≡ some a))
Option-cases none = inl refl
Option-cases (some a) = inr (a, refl)

after_prefix-shorter :
    (needle s u : String)
    → after_prefix needle (String.◌++◌ s u) ≡ none
    → after_prefix needle s ≡ none
unfolding after_prefix
after_prefix-shorter String.[] s u h = cc
after_prefix-shorter (String.◌∷◌ c needle) String.[] u h = refl
after_prefix-shorter (String.◌∷◌ c needle) (String.◌∷◌ d s) u h =
    elim (Bool-cases (nat_eq (code c) (code d))) [
      | inl same ↦ rw same (after_prefix-shorter needle s u (rw same at rw append.cons at h))
      | inr differ ↦ rw differ refl
    ]

found_or-none :
    (c : Char) (first : Option String) (later : Option (String × String))
    → found_or c first later ≡ none
    → (first ≡ none) × (later ≡ none)
found_or-none c (some rest) later h = cc
found_or-none c none none h = (refl, refl)
found_or-none c none (some (before, after)) h = cc

-- No occurrence in a text: none at its start and none in its rest.
Lacks-parts :
    (needle : String) (c : Char) (text : String)
    → Lacks needle (String.◌∷◌ c text)
    → (after_prefix needle (String.◌∷◌ c text) ≡ none) × Lacks needle text
unfolding split_first
Lacks-parts needle c text h = found_or-none c _ _ h

Lacks-cons :
    (needle : String) (c : Char) (text : String)
    → after_prefix needle (String.◌∷◌ c text) ≡ none
    → Lacks needle text
    → Lacks needle (String.◌∷◌ c text)
unfolding split_first
Lacks-cons needle c text first rest = rw (first, rest) refl

Lacks-empty : (needle u : String) → Lacks needle u → Lacks needle String.[]
unfolding split_first
Lacks-empty String.[] String.[] h = h
Lacks-empty String.[] (String.◌∷◌ c u) h = cc
Lacks-empty (String.◌∷◌ d needle) u h = refl

-- What stands in front of a text lacks what the text lacks, and so does what a text starts with.
pub Lacks-front : (needle s u : String) → Lacks needle (String.◌++◌ s u) → Lacks needle s
Lacks-front needle String.[] u h = Lacks-empty needle u (rw append.nil at h)
Lacks-front needle (String.◌∷◌ c s) u h =
    let (first, rest) = Lacks-parts needle c (String.◌++◌ s u) (rw append.cons at h) in
    Lacks-cons needle c s (after_prefix-shorter needle (String.◌∷◌ c s) u (rw append.cons first))
      (Lacks-front needle s u rest)

pub Lacks-trim_start : (needle text : String) → Lacks needle text → Lacks needle (trim_start text)
unfolding trim_start
Lacks-trim_start needle String.[] h = h
Lacks-trim_start needle (String.◌∷◌ c text) h = elim (Bool-cases (is_whitespace (code c))) [
  | inl blank ↦ rw blank (Lacks-trim_start needle text (Lacks-parts needle c text h).1)
  | inr solid ↦ rw solid h
]

-- Trimming at the end leaves the start of the text.
trim_end-front : (text : String) → (u : String) × (String.◌++◌ (trim_end text) u ≡ text)
unfolding trim_end
trim_end-front String.[] = (String.[], append.nil String.[])
trim_end-front (String.◌∷◌ c text) = elim (Bool-cases (is_blank (String.◌∷◌ c text))) [
  | inl blank ↦ (String.◌∷◌ c text, rw blank (append.nil (String.◌∷◌ c text)))
  | inr solid ↦
      let (u, e) = trim_end-front text in (u, rw (solid, append.cons) (ap (λ t. String.◌∷◌ c t) e))
]

pub Lacks-trim : (needle text : String) → Lacks needle text → Lacks needle (trim text)
unfolding trim
Lacks-trim needle text h =
    let (u, e) = trim_end-front (trim_start text) in
    Lacks-front needle (trim_end (trim_start text)) u (rw e (Lacks-trim_start needle text h))

after_prefix-eq :
    (needle text rest : String)
    → after_prefix needle text ≡ some rest
    → text ≡ String.◌++◌ needle rest
unfolding after_prefix
after_prefix-eq String.[] text rest h = rw append.nil (cc)
after_prefix-eq (String.◌∷◌ c needle) String.[] rest h = cc
after_prefix-eq (String.◌∷◌ c needle) (String.◌∷◌ d text) rest h =
    elim (Bool-cases (nat_eq (code c) (code d))) [
      | inl same ↦
          let e : c ≡ d = Char-path c d ((nat_eq_iff (code c) (code d)).0 same) in
          let t = after_prefix-eq needle text rest (rw same at h) in
          rw append.cons λ i. String.◌∷◌ (sym e i) (t i)
      | inr differ ↦ let stuck : none ≡ some rest = rw differ at h in cc
    ]

-- The text before the first occurrence lacks it, and the three parts make up the text.
pub split_first-eq-some :
    (c : Char) (needle text before after : String)
    → split_first (String.◌∷◌ c needle) text ≡ some (before, after)
    → Lacks (String.◌∷◌ c needle) before
      × (text ≡ String.◌++◌ before (String.◌++◌ (String.◌∷◌ c needle) after))
unfolding split_first
split_first-eq-some c needle String.[] before after h = cc
split_first-eq-some c needle (String.◌∷◌ d text) before after h =
    split (after_prefix (String.◌∷◌ c needle) (String.◌∷◌ d text))
      (split_first (String.◌∷◌ c needle) text) refl (split_first-eq-some c needle text) h
  where
    split :
        (first : Option String) (later : Option (String × String))
        → after_prefix (String.◌∷◌ c needle) (String.◌∷◌ d text) ≡ first
        → ((b a : String)
            → later ≡ some (b, a)
            → Lacks (String.◌∷◌ c needle) b
              × (text ≡ String.◌++◌ b (String.◌++◌ (String.◌∷◌ c needle) a)))
        → found_or d first later ≡ some (before, after)
        → Lacks (String.◌∷◌ c needle) before
          × (String.◌∷◌ d text ≡ String.◌++◌ before (String.◌++◌ (String.◌∷◌ c needle) after))
    split (some rest) later e f g =
        let nothing : String.[] ≡ before = cc in
        let same : rest ≡ after = cc in
        (
          subst (Lacks (String.◌∷◌ c needle)) nothing refl,
          after_prefix-eq (String.◌∷◌ c needle) (String.◌∷◌ d text) rest e
              ∙ rw (← nothing, same, append.nil) refl,
        )
    split none none e f g = cc
    split none (some (b, a)) e f g =
        let front : String.◌∷◌ d b ≡ before = cc in
        let same : a ≡ after = cc in
        let (lacks, whole) = f b a refl in
        (
          subst (Lacks (String.◌∷◌ c needle)) front (
              Lacks-cons (String.◌∷◌ c needle) d b
                (after_prefix-shorter (String.◌∷◌ c needle) (String.◌∷◌ d b)
                  (String.◌++◌ (String.◌∷◌ c needle) a) (rw (append.cons, ← whole) e))
                lacks),
          rw (← front, ← same, append.cons) (ap (λ t. String.◌∷◌ d t) whole),
        )
