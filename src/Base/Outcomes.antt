-- ===== src/Base/Outcomes.antt =====
-- Rust's `Result<T, E>` with `?` as bind, and a `for` loop whose body may return an error.
use mathlib.Core.Path.{◌≡◌, refl}
use mathlib.Core.Bool.{Bool, true, false}
use mathlib.Core.List.{List, [], ◌∷◌}
use mathlib.Core.Option.{Option, none, some}

pub data Result {ℓ κ} (A : Type ℓ) (E : Type κ) : Type (ℓ ⊔ κ) where
  ok : A → Result A E
  err : E → Result A E

infixl 5 ◌>>=◌ ◌>>◌
abbrev pub ◌>>=◌ {ℓ κ μ} :
    {A : Type ℓ} {B : Type κ} {E : Type μ} → Result A E → (A → Result B E) → Result B E
ok value >>= next = next value
err e >>= next = err e

abbrev pub ◌>>◌ {ℓ μ} : {B : Type ℓ} {E : Type μ} → Result (Unit {0}) E → Result B E → Result B E
m >> k = m >>= λ _. k

-- `if (!test) return Err(e)`.
abbrev pub ensure {μ} : {E : Type μ} → Bool → E → Result (Unit {0}) E
ensure true e = ok tt
ensure false e = err e

-- `if test { check?; }`.
abbrev pub when {μ} : {E : Type μ} → Bool → Result (Unit {0}) E → Result (Unit {0}) E
when true check = check
when false check = ok tt

-- `option.ok_or(e)?`.
abbrev pub ok_or {ℓ μ} : {A : Type ℓ} {E : Type μ} → Option A → E → Result A E
ok_or none e = err e
ok_or (some a) e = ok a

-- `for x in xs { f(x)?; }`.
abbrev pub for_each {ℓ μ} :
    {A : Type ℓ} {E : Type μ} → (A → Result (Unit {0}) E) → List A → Result (Unit {0}) E
for_each f [] = ok tt
for_each f (x ∷ xs) = let rest = for_each f xs in f x >>= λ _. rest

pub >>-eq-ok {ℓ μ} :
    {B : Type ℓ} {E : Type μ} (m : Result (Unit {0}) E) (k : Result B E) {b : B}
    → (m >> k) ≡ ok b
    → (m ≡ ok tt) × (k ≡ ok b)
>>-eq-ok (ok tt) k h = (refl, h)
>>-eq-ok (err e) k h = cc

pub >>=-eq-ok {ℓ κ μ} :
    {A : Type ℓ} {B : Type κ} {E : Type μ} (first : Result A E) (next : A → Result B E) {last : B}
    → (first >>= next) ≡ ok last
    → (value : A) × (first ≡ ok value) × (next value ≡ ok last)
>>=-eq-ok (ok value) next h = (value, refl, h)
>>=-eq-ok (err e) next h = cc

pub ensure-eq-ok {μ} : {E : Type μ} (b : Bool) (e : E) → ensure b e ≡ ok tt → b ≡ true
ensure-eq-ok true e h = refl
ensure-eq-ok false e h = cc

pub when-eq-ok {μ} :
    {E : Type μ} (b : Bool) (check : Result (Unit {0}) E)
    → when b check ≡ ok tt
    → b ≡ true
    → check ≡ ok tt
when-eq-ok true check h e = h
when-eq-ok false check h e = cc
