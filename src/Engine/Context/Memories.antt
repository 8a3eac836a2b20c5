-- ===== src/Engine/Context/Memories.antt =====
-- crates/engine/src/context.rs: `prioritized_memories`, the memories that a prompt has room for.
use Prim.Native.Nat.{compare, Ordering}
use advanced_roleplaying_fra.Base.{ℕ, suc, Bool, true, false, List, [], ◌∷◌, map, keep, take}
use advanced_roleplaying_fra.Domain.State.{MemoryEntry, MemoryVisibility}

-- `Ordering::then`.
abbrev pub then : Ordering → Ordering → Ordering
then Ordering.lt next = Ordering.lt
then Ordering.eq next = next
then Ordering.gt next = Ordering.gt

-- `Vec::sort_by`, which is stable: an element goes in front of those that it is not greater than.
module _ {ℓ} {A : Type ℓ} (cmp : A → A → Ordering) where
  unfoldable pub insert_by : A → List A → List A
  insert_by x [] = x ∷ []
  insert_by x (y ∷ ys) =
      let rest = insert_by x ys in elim (cmp x y) [ Ordering.gt ↦ y ∷ rest | _ ↦ x ∷ y ∷ ys ]

  unfoldable pub sort_by : List A → List A
  unfolding insert_by
  sort_by [] = []
  sort_by (x ∷ xs) = insert_by x (sort_by xs)

-- `iter().enumerate()`, from an index on.
unfoldable pub enumerate {ℓ} : {A : Type ℓ} → ℕ → List A → List (ℕ × A)
enumerate i [] = []
enumerate i (x ∷ xs) = (i, x) ∷ enumerate (suc i) xs

-- The more important memory first; of two that are equally important, the older one.
abbrev pub memory_order : ℕ × MemoryEntry → ℕ × MemoryEntry → Ordering
memory_order (left_idx, left) (right_idx, right) =
    then (compare right.importance left.importance) (compare left_idx right_idx)

abbrev pub same_visibility : MemoryVisibility → MemoryVisibility → Bool
same_visibility MemoryVisibility.player_known MemoryVisibility.player_known = true
same_visibility MemoryVisibility.gm_only MemoryVisibility.gm_only = true
same_visibility _ _ = false

abbrev pub is_for : MemoryVisibility → MemoryEntry → Bool
is_for visibility memory = same_visibility memory.visibility visibility

unfoldable pub indexed : MemoryVisibility → List MemoryEntry → List (ℕ × MemoryEntry)
unfolding enumerate
indexed visibility memories =
    keep (λ (entry : ℕ × MemoryEntry). is_for visibility (entry.1)) (enumerate 0 memories)

unfoldable pub prioritized_memories : List MemoryEntry → MemoryVisibility → ℕ → List MemoryEntry
unfolding indexed sort_by
prioritized_memories memories visibility limit =
    map (λ (entry : ℕ × MemoryEntry). entry.1)
      (take limit (sort_by memory_order (indexed visibility memories)))
