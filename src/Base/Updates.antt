-- ===== src/Base/Updates.antt =====
-- Predicates on lists by recursion, and what the updates of `Lists` keep of them.
use mathlib.Core.Path.{◌≡◌, refl, sym, ap, ◌∙◌, subst}
use mathlib.Core.Logic.{◌≢◌, ◌⊎◌, inl, inr}
use mathlib.Core.Bool.{Bool, true, false, ◌||◌}
use mathlib.Core.List.{List, [], ◌∷◌, ◌++◌, map}
use mathlib.Core.Option.{some}
use native.Mathlib.Omega.{arith}
use advanced_roleplaying_fra.Base.Tests.{Bool-cases, ||-eq-false}
use advanced_roleplaying_fra.Base.Outcomes.{Result, ok, for_each, >>-eq-ok}
use advanced_roleplaying_fra.Base.Lists.{is_empty, find, any, keep, update_first, push, foldl}

abbrev pub All {ℓ κ} : {A : Type ℓ} → (A → Type κ) → List A → Type κ
All P [] = Unit
All P (x ∷ xs) = P x × All P xs

-- x is one of the list's elements.
abbrev pub OneOf : {A : Type 0} → A → List A → Type 0
OneOf x [] = ⊥
OneOf x (y ∷ ys) = (x ≡ y) ⊎ OneOf x ys

-- No element stands twice in the list.
abbrev pub Distinct {ℓ} : {A : Type ℓ} → List A → Type ℓ
Distinct [] = Unit
Distinct (x ∷ xs) = All (λ y. x ≢ y) xs × Distinct xs

module _ {ℓ κ} {A : Type ℓ} {B : Type κ} where
  pub foldl-keeps {μ} :
      (P : A → Type μ) (f : A → B → A)
      → ((a : A) (b : B) → P a → P (f a b))
      → (bs : List B) (a : A) → P a
      → P (foldl f a bs)
  foldl-keeps P f keeps [] a h = h
  foldl-keeps P f keeps (b ∷ bs) a h = foldl-keeps P f keeps bs (f a b) (keeps a b h)

  pub foldl-keeps-value {μ} :
      {C : Type μ} (view : A → C) (f : A → B → A)
      → ((a : A) (b : B) → view (f a b) ≡ view a)
      → (bs : List B) (a : A) → view (foldl f a bs) ≡ view a
  foldl-keeps-value view f keeps [] a = refl
  foldl-keeps-value view f keeps (b ∷ bs) a = foldl-keeps-value view f keeps bs (f a b) ∙ keeps a b

  pub map-update_first :
      (view : A → B) (p : A → Bool) (f : A → A)
      → ((x : A) → view (f x) ≡ view x)
      → (xs : List A) → map view (update_first p f xs) ≡ map view xs
  map-update_first view p f same [] = refl
  map-update_first view p f same (x ∷ xs) = elim (Bool-cases (p x)) [
    | inl here ↦ rw (here, same x)
    | inr there ↦ rw there (ap (λ r. view x ∷ r) (map-update_first view p f same xs))
  ]

  -- The updated element is the one that was looked for.
  pub map-update_first_found :
      (view : A → B) (p : A → Bool) (f : A → A)
      → ((x : A) → p x ≡ true → view (f x) ≡ view x)
      → (xs : List A) → map view (update_first p f xs) ≡ map view xs
  map-update_first_found view p f same [] = refl
  map-update_first_found view p f same (x ∷ xs) = elim (Bool-cases (p x)) [
    | inl here ↦ rw (here, same x here)
    | inr there ↦ rw there (ap (λ r. view x ∷ r) (map-update_first_found view p f same xs))
  ]

  pub map-push :
      (view : A → B) (xs : List A) (x : A) → map view (push xs x) ≡ push (map view xs) (view x)
  map-push view [] x = refl
  map-push view (y ∷ xs) x = ap (λ r. view y ∷ r) (map-push view xs x)

  pub map-keep-All {μ} :
      (P : B → Type μ) (view : A → B) (p : A → Bool) (xs : List A)
      → All P (map view xs)
      → All P (map view (keep p xs))
  map-keep-All P view p [] h = h
  map-keep-All P view p (x ∷ xs) h = elim (Bool-cases (p x)) [
    | inl kept ↦ rw kept (h.0, map-keep-All P view p xs h.1)
    | inr dropped ↦ rw dropped (map-keep-All P view p xs h.1)
  ]

  pub map-keep-Distinct :
      (view : A → B) (p : A → Bool) (xs : List A)
      → Distinct (map view xs)
      → Distinct (map view (keep p xs))
  map-keep-Distinct view p [] h = h
  map-keep-Distinct view p (x ∷ xs) h = elim (Bool-cases (p x)) [
    | inl kept ↦
        rw kept (map-keep-All (λ y. view x ≢ y) view p xs h.0, map-keep-Distinct view p xs h.1)
    | inr dropped ↦ rw dropped (map-keep-Distinct view p xs h.1)
  ]

  -- A search that finds nothing: no element has the key.
  pub any-none-All :
      (view : A → B) (k : B) (p : A → Bool)
      → ((x : A) → p x ≡ false → view x ≢ k)
      → (xs : List A) → any p xs ≡ false
      → All (λ y. y ≢ k) (map view xs)
  any-none-All view k p tests [] h = tt
  any-none-All view k p tests (x ∷ xs) h =
      let (first, others) = ||-eq-false (p x) (any p xs) h in
      (tests x first, any-none-All view k p tests xs others)

module _ {ℓ} {A : Type ℓ} where
  pub any-none :
      (k : A) (p : A → Bool)
      → ((x : A) → p x ≡ false → x ≢ k)
      → (xs : List A) → any p xs ≡ false
      → All (λ y. y ≢ k) xs
  any-none k p tests [] h = tt
  any-none k p tests (x ∷ xs) h =
      let (first, others) = ||-eq-false (p x) (any p xs) h in
      (tests x first, any-none k p tests xs others)

  pub All-push {κ} : (P : A → Type κ) (xs : List A) (x : A) → All P xs → P x → All P (push xs x)
  All-push P [] x h px = (px, tt)
  All-push P (y ∷ xs) x h px = (h.0, All-push P xs x h.1 px)

  pub All-weaken {κ μ} :
      {P : A → Type κ} {Q : A → Type μ} (xs : List A) → ((x : A) → P x → Q x) → All P xs → All Q xs
  All-weaken [] f h = tt
  All-weaken (x ∷ xs) f h = (f x h.0, All-weaken xs f h.1)

  pub All-update_first {κ} :
      (P : A → Type κ) (p : A → Bool) (f : A → A)
      → ((x : A) → p x ≡ true → P x → P (f x))
      → (xs : List A) → All P xs
      → All P (update_first p f xs)
  All-update_first P p f keeps [] h = h
  All-update_first P p f keeps (x ∷ xs) h = elim (Bool-cases (p x)) [
    | inl here ↦ rw here (keeps x here h.0, h.1)
    | inr there ↦ rw there (h.0, All-update_first P p f keeps xs h.1)
  ]

  pub All-keep {κ} : (P : A → Type κ) (p : A → Bool) (xs : List A) → All P xs → All P (keep p xs)
  All-keep P p [] h = h
  All-keep P p (x ∷ xs) h = elim (Bool-cases (p x)) [
    | inl kept ↦ rw kept (h.0, All-keep P p xs h.1)
    | inr dropped ↦ rw dropped (All-keep P p xs h.1)
  ]

  pub Distinct-push :
      (xs : List A) (x : A) → Distinct xs → All (λ y. y ≢ x) xs → Distinct (push xs x)
  Distinct-push [] x h new = (tt, tt)
  Distinct-push (y ∷ xs) x h new =
      (All-push (λ z. y ≢ z) xs x h.0 new.0, Distinct-push xs x h.1 new.1)

module _ {A : Type 0} where
  pub OneOf-push : (xs : List A) (x : A) → OneOf x (push xs x)
  OneOf-push [] x = inl refl
  OneOf-push (y ∷ xs) x = inr (OneOf-push xs x)

  pub OneOf-push_old : (xs : List A) (x y : A) → OneOf y xs → OneOf y (push xs x)
  OneOf-push_old [] x y h = absurd h
  OneOf-push_old (z ∷ xs) x y (inl e) = inl e
  OneOf-push_old (z ∷ xs) x y (inr h) = inr (OneOf-push_old xs x y h)

  -- What a search finds passes the test, and stands in the list.
  pub find_sound :
      (p : A → Bool) (xs : List A) {x : A} → find p xs ≡ some x → (p x ≡ true) × OneOf x xs
  find_sound p [] h = cc
  find_sound p (y ∷ xs) {x} h = elim (Bool-cases (p y)) [
    | inl here ↦
        let e : y ≡ x = ground (arith, here, h) in (subst (λ z. p z ≡ true) e here, inl (sym e))
    | inr there ↦ let (t, o) = find_sound p xs (rw there at h) in (t, inr o)
  ]

  pub OneOf-append_left : (xs ys : List A) (x : A) → OneOf x xs → OneOf x (xs ++ ys)
  OneOf-append_left [] ys x h = absurd h
  OneOf-append_left (z ∷ xs) ys x (inl e) = inl e
  OneOf-append_left (z ∷ xs) ys x (inr h) = inr (OneOf-append_left xs ys x h)

  pub All-at {κ} : (P : A → Type κ) (xs : List A) (x : A) → All P xs → OneOf x xs → P x
  All-at P [] x h o = absurd o
  All-at P (y ∷ xs) x h (inl e) = subst P (sym e) h.0
  All-at P (y ∷ xs) x h (inr o) = All-at P xs x h.1 o

  -- What a filter keeps is what passes the test.
  pub keep-at {κ} :
      (P : A → Type κ) (p : A → Bool) (xs : List A) (x : A)
      → All P (keep p xs)
      → OneOf x xs
      → p x ≡ true
      → P x
  keep-at P p [] x h o e = absurd o
  keep-at P p (y ∷ xs) x h (inl same) e =
      let passes : p y ≡ true = subst (λ z. p z ≡ true) same e in
      subst P (sym same) (rw passes at h).0
  keep-at P p (y ∷ xs) x h (inr o) e = elim (Bool-cases (p y)) [
    | inl kept ↦ keep-at P p xs x (rw kept at h).1 o e
    | inr dropped ↦ keep-at P p xs x (rw dropped at h) o e
  ]

  pub keep-not_empty :
      (p : A → Bool) (xs : List A) (x : A) → OneOf x xs → p x ≡ true → is_empty (keep p xs) ≡ false
  keep-not_empty p [] x o e = absurd o
  keep-not_empty p (y ∷ xs) x (inl same) e =
      let passes : p y ≡ true = subst (λ z. p z ≡ true) same e in rw passes
  keep-not_empty p (y ∷ xs) x (inr o) e = elim (Bool-cases (p y)) [
    | inl kept ↦ rw kept
    | inr dropped ↦ rw dropped (keep-not_empty p xs x o e)
  ]

  -- A loop whose body returns no error has checked every element.
  pub for_each-eq-ok {μ} :
      {E : Type μ} (f : A → Result (Unit {0}) E) (xs : List A)
      → for_each f xs ≡ ok tt
      → All (λ x. f x ≡ ok tt) xs
  for_each-eq-ok f [] h = tt
  for_each-eq-ok f (x ∷ xs) h =
      let (first, rest) = >>-eq-ok (f x) (for_each f xs) h in (first, for_each-eq-ok f xs rest)

  pub any-OneOf :
      (p : A → Bool) (k : A)
      → ((x : A) → p x ≡ true → x ≡ k)
      → (xs : List A) → any p xs ≡ true
      → OneOf k xs
  any-OneOf p k tests [] h = cc
  any-OneOf p k tests (x ∷ xs) h = elim (Bool-cases (p x)) [
    | inl here ↦ inl (sym (tests x here))
    | inr there ↦ inr (any-OneOf p k tests xs (later (p x) (any p xs) there h))
  ]
    where
      later : (a b : Bool) → a ≡ false → (a || b) ≡ true → b ≡ true
      later a b e f = ground arith

module _ {ℓ κ} {A : Type ℓ} where
  pub All-append : (P : A → Type κ) (xs ys : List A) → All P xs → All P ys → All P (xs ++ ys)
  All-append P [] ys hx hy = hy
  All-append P (x ∷ xs) ys hx hy = (hx.0, All-append P xs ys hx.1 hy)

module _ {ℓ κ μ} {A : Type ℓ} {B : Type κ} where
  pub All-map :
      (P : B → Type μ) (f : A → B) (xs : List A) → All (λ x. P (f x)) xs → All P (map f xs)
  All-map P f [] h = tt
  All-map P f (x ∷ xs) h = (h.0, All-map P f xs h.1)
