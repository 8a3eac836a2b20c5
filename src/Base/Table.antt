-- ===== src/Base/Table.antt =====
-- A `HashMap` with numbers for keys, as the list of its entries.
use Prim.Native.Nat.{ℕ}
use mathlib.Core.Path.{◌≡◌, refl}
use mathlib.Core.Logic.{inl, inr}
use mathlib.Core.List.{List, [], ◌∷◌, ◌++◌, map}
use mathlib.Core.Option
use mathlib.Core.Option.{Option, none, some}
use native.Mathlib.Omega.{arith}
use advanced_roleplaying_fra.Base.Tests.{nat_eq, Bool-cases, if◌then◌else◌}

abbrev pub Table : Type 0 → Type 0
Table V = List (ℕ × V)

module _ {V : Type 0} where
  unfoldable pub get : ℕ → Table V → Option V
  get k [] = none
  get k ((j, v) ∷ table) = if nat_eq j k then some v else get k table

  unfoldable pub insert : ℕ → V → Table V → Table V
  insert k v [] = (k, v) ∷ []
  insert k v ((j, w) ∷ table) =
      let rest = insert k v table in if nat_eq j k then (k, v) ∷ table else (j, w) ∷ rest

  unfoldable pub remove : ℕ → Table V → Table V
  remove k [] = []
  remove k ((j, v) ∷ table) =
      let rest = remove k table in if nat_eq j k then rest else (j, v) ∷ rest

  -- `values()`, and `values_mut()` with an update of each.
  abbrev pub values : Table V → List V
  values table = map (λ (entry : ℕ × V). entry.1) table

  unfoldable pub map_values : (V → V) → Table V → Table V
  map_values f [] = []
  map_values f ((j, v) ∷ table) = (j, f v) ∷ map_values f table

  pub get-insert :
      (k j : ℕ) (v : V) (table : Table V)
      → get k (insert j v table) ≡ (if nat_eq j k then some v else get k table)
  unfolding get insert
  get-insert k j v [] = ground arith
  get-insert k j v ((i, w) ∷ table) = ground (arith, get-insert k j v table)

  pub get-remove :
      (k j : ℕ) (table : Table V)
      → get k (remove j table) ≡ (if nat_eq j k then none else get k table)
  unfolding get remove
  get-remove k j [] = ground arith
  get-remove k j ((i, w) ∷ table) = ground (arith, get-remove k j table)

  pub get-map_values :
      (f : V → V) (k : ℕ) (table : Table V)
      → get k (map_values f table) ≡ Option.map f (get k table)
  unfolding get map_values
  get-map_values f k [] = refl
  get-map_values f k ((i, w) ∷ table) = elim (Bool-cases (nat_eq i k)) [
    | inl here ↦ rw here refl
    | inr there ↦ rw there (get-map_values f k table)
  ]

-- `get(key).cloned().unwrap_or_default()`.
abbrev pub or_empty : {A : Type 0} → Option (List A) → List A
or_empty none = []
or_empty (some xs) = xs

-- `entry(key).or_default().extend(more)`.
unfoldable pub extend_at : {A : Type 0} → ℕ → List A → Table (List A) → Table (List A)
extend_at k more table = insert k (or_empty (get k table) ++ more) table
