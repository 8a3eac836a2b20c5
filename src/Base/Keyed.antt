-- ===== src/Base/Keyed.antt =====
-- Searches by a text key in a list that is updated at a key.
use mathlib.Core.Path.{◌≡◌, refl, sym, ap, ◌∙◌, subst}
use mathlib.Core.Logic.{◌≢◌, inl, inr}
use mathlib.Core.List.{List, [], ◌∷◌, map}
use mathlib.Core.Option
use mathlib.Core.Option.{Option, none, some}
use Prim.Native.String.{String}
use native.Mathlib.Omega.{arith}
use text.Mathlib.Text.{◌==◌}
use text.Mathlib.TextEquality.{eq_iff}
use advanced_roleplaying_fra.Base.Tests.{Bool-cases, if◌then◌else◌}
use advanced_roleplaying_fra.Base.Lists.{find, update_first}
use advanced_roleplaying_fra.Base.Updates.{All, OneOf, Distinct}

-- The first element with the key.
abbrev pub find_key {ℓ} : {A : Type ℓ} → (A → String) → String → List A → Option A
find_key view k xs = find (λ x. view x == k) xs

module _ {ℓ} {A : Type ℓ} (view : A → String) (f : A → A)
    (same : (x : A) → view (f x) ≡ view x) where
  -- An update at key j shows at key j, and at no other.
  pub find_key-update_first :
      (k j : String) (xs : List A)
      → find_key view k (update_first (λ x. view x == j) f xs)
        ≡ (if j == k then Option.map f (find_key view k xs) else find_key view k xs)
  find_key-update_first k j [] = ground arith
  find_key-update_first k j (x ∷ xs) = elim (Bool-cases (view x == j)) [
    | inl here ↦
        rw (here, same x) (ground (arith, eq_iff (view x) j, eq_iff (view x) k, eq_iff j k))
    | inr there ↦ rw there (
        ground
          (arith, eq_iff (view x) j, eq_iff (view x) k, eq_iff j k, find_key-update_first k j xs))
  ]

All-map-at :
    {A : Type 0} (view : A → String) (P : String → Type 0) (xs : List A) (x : A)
    → All P (map view xs)
    → OneOf x xs
    → P (view x)
All-map-at view P [] x h o = absurd o
All-map-at view P (y ∷ xs) x h (inl same) = subst (λ z. P (view z)) (sym same) h.0
All-map-at view P (y ∷ xs) x h (inr o) = All-map-at view P xs x h.1 o

module _ {A : Type 0} (view : A → String) (k : String) where
  -- Where the keys differ, an element with the key is the one that is found.
  pub find_key-at :
      (xs : List A) (x : A)
      → Distinct (map view xs)
      → OneOf x xs
      → view x ≡ k
      → find_key view k xs ≡ some x
  find_key-at [] x distinct o e = absurd o
  find_key-at (y ∷ xs) x distinct (inl same) e =
      let passes : view y ≡ k = ap view (sym same) ∙ e in
      rw ((eq_iff (view y) k).1 passes) (ap some (sym same))
  find_key-at (y ∷ xs) x distinct (inr o) e = elim (Bool-cases (view y == k)) [
    | inl here ↦
        let clash = All-map-at view (λ z. view y ≢ z) xs x distinct.0 o in
        absurd (clash ((eq_iff (view y) k).0 here ∙ sym e))
    | inr there ↦ rw there (find_key-at xs x distinct.1 o e)
  ]

  pub find_key-none : (xs : List A) → find_key view k xs ≡ none → All (λ x. view x ≢ k) xs
  find_key-none [] h = tt
  find_key-none (x ∷ xs) h = elim (Bool-cases (view x == k)) [
    | inl here ↦ absurd (let stuck = rw here at h in cc)
    | inr there ↦ (λ e. cc (there, (eq_iff (view x) k).1 e), find_key-none xs (rw there at h))
  ]

  pub find_key-absent : (xs : List A) → All (λ x. view x ≢ k) xs → find_key view k xs ≡ none
  find_key-absent [] h = refl
  find_key-absent (x ∷ xs) h = elim (Bool-cases (view x == k)) [
    | inl here ↦ absurd (h.0 ((eq_iff (view x) k).0 here))
    | inr there ↦ rw there (find_key-absent xs h.1)
  ]
