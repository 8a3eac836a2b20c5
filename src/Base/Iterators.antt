-- ===== src/Base/Iterators.antt =====
-- How filters, searches and maps over a list act on each other.
use mathlib.Core.Path.{◌≡◌, refl, ap}
use mathlib.Core.Logic.{inl, inr}
use mathlib.Core.Bool.{Bool}
use mathlib.Core.List.{List, [], ◌∷◌, ◌++◌, map}
use mathlib.Core.Option
use mathlib.Core.Option.{Option, none, some}
use native.Mathlib.Omega.{arith}
use advanced_roleplaying_fra.Base.Tests.{Bool-cases}
use advanced_roleplaying_fra.Base.Lists.{find, any, keep, filter_map}

module _ {ℓ} {A : Type ℓ} where
  pub keep-keep :
      (p q : A → Bool) → ((x : A) → q x ≡ p x) → (xs : List A) → keep q (keep p xs) ≡ keep q xs
  keep-keep p q same [] = refl
  keep-keep p q same (x ∷ xs) = elim (Bool-cases (p x)) [
    | inl shown ↦ rw (shown, same x, shown) (ap (λ r. x ∷ r) (keep-keep p q same xs))
    | inr hidden ↦ rw (same x, hidden) (keep-keep p q same xs)
  ]

  pub keep-eq : (p q : A → Bool) → ((x : A) → p x ≡ q x) → (xs : List A) → keep p xs ≡ keep q xs
  keep-eq p q same [] = refl
  keep-eq p q same (x ∷ xs) = elim (Bool-cases (q x)) [
    | inl kept ↦ rw (same x, kept) (ap (λ r. x ∷ r) (keep-eq p q same xs))
    | inr dropped ↦ rw (same x, dropped) (keep-eq p q same xs)
  ]

  pub keep-append : (p : A → Bool) (xs ys : List A) → keep p (xs ++ ys) ≡ keep p xs ++ keep p ys
  keep-append p [] ys = refl
  keep-append p (x ∷ xs) ys = elim (Bool-cases (p x)) [
    | inl kept ↦ rw kept (ap (λ r. x ∷ r) (keep-append p xs ys))
    | inr dropped ↦ rw dropped (keep-append p xs ys)
  ]

  -- A change that the test does not see.
  module _ (p : A → Bool) (f : A → A) (same : (x : A) → p (f x) ≡ p x) where
    pub any-map : (xs : List A) → any p (map f xs) ≡ any p xs
    any-map [] = refl
    any-map (x ∷ xs) = rw (same x, any-map xs) refl

    pub find-map : (xs : List A) → find p (map f xs) ≡ Option.map f (find p xs)
    find-map [] = refl
    find-map (x ∷ xs) = elim (Bool-cases (p x)) [
      | inl here ↦ rw (same x, here) refl
      | inr there ↦ rw (same x, there) (find-map xs)
    ]

module _ {ℓ κ} {A : Type ℓ} {B : Type κ} where
  pub map-eq : (f g : A → B) → ((x : A) → f x ≡ g x) → (xs : List A) → map f xs ≡ map g xs
  map-eq f g same [] = refl
  map-eq f g same (x ∷ xs) = rw (same x, map-eq f g same xs) refl

  pub filter_map-eq :
      (f g : A → Option B)
      → ((x : A) → f x ≡ g x)
      → (xs : List A) → filter_map f xs ≡ filter_map g xs
  filter_map-eq f g same [] = refl
  filter_map-eq f g same (x ∷ xs) = ground (arith, same x, filter_map-eq f g same xs)
