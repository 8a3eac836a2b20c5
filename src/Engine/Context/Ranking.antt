-- ===== src/Engine/Context/Ranking.antt =====
-- Which memories a prompt gets: the most important ones of its visibility.
use Prim.Native.Nat.{compare, Ordering}
use advanced_roleplaying_fra.Base.{
  ℕ, zero, suc, ◌≤◌, ◌<◌, ◌≡◌, refl, ap, ◌∙◌, ◌⊎◌, inl, inr, arith, Bool-cases, nat_eq, List, [],
  ◌∷◌, ◌++◌, map, keep, take, length, All, All-weaken, All-keep,
}
use advanced_roleplaying_fra.Domain.State.{MemoryEntry, MemoryVisibility}
use advanced_roleplaying_fra.Engine.Projection.Changed.{drop}
use advanced_roleplaying_fra.Engine.Context.Memories.{
  insert_by, sort_by, enumerate, memory_order, is_for, indexed, prioritized_memories,
}

-- No memory of the list is more important than one in front of it.
abbrev pub IsRanked : List MemoryEntry → Type 0
IsRanked [] = Unit
IsRanked (x ∷ xs) = All (λ (y : MemoryEntry). y.importance ≤ x.importance) xs × IsRanked xs

-- The memories of one importance, in order.
abbrev pub at_level : ℕ → List MemoryEntry → List MemoryEntry
at_level k xs = keep (λ (memory : MemoryEntry). nat_eq memory.importance k) xs

-- The lists hold the same memories, and those of one importance in the same order.
abbrev pub SameLevels : List MemoryEntry → List MemoryEntry → Type 0
SameLevels xs ys = (k : ℕ) → at_level k xs ≡ at_level k ys

abbrev Entry : Type 0
Entry = ℕ × MemoryEntry

abbrev entries : List Entry → List MemoryEntry
entries xs = map (λ (entry : Entry). entry.1) xs

abbrev importance : Entry → ℕ
importance entry = (entry.1).importance

-- The two places of x before and behind y.
abbrev Inserted : Entry → Entry → List Entry → Type 0
Inserted x y ys =
    ((insert_by memory_order x (y ∷ ys) ≡ x ∷ y ∷ ys) × (importance y ≤ importance x))
    ⊎ ((insert_by memory_order x (y ∷ ys) ≡ y ∷ insert_by memory_order x ys)
        × ((importance x < importance y) ⊎ ((importance x ≡ importance y) × (y.0 < x.0))))

insert_by-cases : (x y : Entry) (ys : List Entry) → Inserted x y ys
unfolding insert_by
insert_by-cases (i, x) (j, y) ys = ground arith

All-insert_by :
    (P : MemoryEntry → Type 0) (x : Entry) (xs : List Entry)
    → P (x.1)
    → All P (entries xs)
    → All P (entries (insert_by memory_order x xs))
unfolding insert_by
All-insert_by P x [] px h = (px, tt)
All-insert_by P x (y ∷ ys) px h = elim (insert_by-cases x y ys) [
  | inl front ↦ rw (front.0) (px, h)
  | inr back ↦ rw (back.0) (h.0, All-insert_by P x ys px h.1)
]

insert_by-IsRanked :
    (x : Entry) (xs : List Entry)
    → IsRanked (entries xs)
    → IsRanked (entries (insert_by memory_order x xs))
unfolding insert_by
insert_by-IsRanked x [] h = (tt, tt)
insert_by-IsRanked x (y ∷ ys) h = elim (insert_by-cases x y ys) [
  | inl front ↦
      rw (front.0)
        ((front.1, All-weaken (entries ys) (λ z below. omega (arith, below, front.1)) h.0), h)
  | inr back ↦ rw (back.0) (
    All-insert_by (λ z. z.importance ≤ (y.1).importance) x ys (ground (arith, back.1)) h.0,
    insert_by-IsRanked x ys h.1,
  )
]

-- All the entries stand at or behind an index.
abbrev From : ℕ → List Entry → Type 0
From i xs = All (λ (entry : Entry). i ≤ entry.0) xs

From-insert_by :
    (i : ℕ) (x : Entry) (xs : List Entry)
    → i ≤ x.0
    → From i xs
    → From i (insert_by memory_order x xs)
unfolding insert_by
From-insert_by i x [] hx h = (hx, tt)
From-insert_by i x (y ∷ ys) hx h = elim (insert_by-cases x y ys) [
  | inl front ↦ rw (front.0) (hx, h)
  | inr back ↦ rw (back.0) (h.0, From-insert_by i x ys hx h.1)
]

From-sort_by : (i : ℕ) (xs : List Entry) → From i xs → From i (sort_by memory_order xs)
unfolding sort_by
From-sort_by i [] h = tt
From-sort_by i (x ∷ xs) h = From-insert_by i x (sort_by memory_order xs) h.0 (From-sort_by i xs h.1)

-- An older memory stays in front of those of its importance.
insert_by-at_level :
    (k : ℕ) (x : Entry) (xs : List Entry)
    → From (x.0) xs
    → at_level k (entries (insert_by memory_order x xs)) ≡ at_level k (entries (x ∷ xs))
unfolding insert_by
insert_by-at_level k x [] h = refl
insert_by-at_level k x (y ∷ ys) h = elim (insert_by-cases x y ys) [
  | inl front ↦ rw (front.0) refl
  | inr back ↦
      let rest : at_level k (entries (insert_by memory_order x ys))
          ≡ at_level k (entries (x ∷ ys)) =
        insert_by-at_level k x ys h.1 in
      let higher : importance x < importance y = ground (arith, h.0, back.1) in
      rw (back.0, rest) (ground (arith, higher))
]

-- The indices go up, from the first one on.
abbrev IsNumberedFrom : ℕ → List Entry → Type 0
IsNumberedFrom i [] = Unit
IsNumberedFrom i (x ∷ xs) = (i ≤ x.0) × From (x.0) xs × IsNumberedFrom i xs

sort_by-IsRanked : (xs : List Entry) → IsRanked (entries (sort_by memory_order xs))
unfolding sort_by
sort_by-IsRanked [] = tt
sort_by-IsRanked (x ∷ xs) = insert_by-IsRanked x (sort_by memory_order xs) (sort_by-IsRanked xs)

sort_by-SameLevels :
    (i k : ℕ) (xs : List Entry)
    → IsNumberedFrom i xs
    → at_level k (entries (sort_by memory_order xs)) ≡ at_level k (entries xs)
unfolding sort_by
sort_by-SameLevels i k [] h = refl
sort_by-SameLevels i k (x ∷ xs) h =
    let rest : at_level k (entries (sort_by memory_order xs)) ≡ at_level k (entries xs) =
      sort_by-SameLevels i k xs h.2 in
    insert_by-at_level k x (sort_by memory_order xs) (From-sort_by (x.0) xs h.1)
    ∙ ground (arith, rest)

From-enumerate : (i j : ℕ) (xs : List MemoryEntry) → i ≤ j → From i (enumerate j xs)
unfolding enumerate
From-enumerate i j [] h = tt
From-enumerate i j (x ∷ xs) h = (h, From-enumerate i (suc j) xs (omega arith))

indexed_from : ℕ → MemoryVisibility → List MemoryEntry → List Entry
indexed_from i visibility xs =
    keep (λ (entry : Entry). is_for visibility (entry.1)) (enumerate i xs)

indexed-IsNumbered :
    (i j : ℕ) (visibility : MemoryVisibility) (xs : List MemoryEntry)
    → i ≤ j
    → IsNumberedFrom i (indexed_from j visibility xs)
unfolding indexed_from enumerate
indexed-IsNumbered i j visibility [] h = tt
indexed-IsNumbered i j visibility (x ∷ xs) h =
    let rest : IsNumberedFrom i (indexed_from (suc j) visibility xs) =
      indexed-IsNumbered i (suc j) visibility xs (omega arith) in
    elim (Bool-cases (is_for visibility x)) [
      | inl kept ↦ rw kept (
        h,
        All-keep (λ (entry : Entry). j ≤ entry.0) (λ (entry : Entry). is_for visibility (entry.1))
            (enumerate (suc j) xs) (From-enumerate j (suc j) xs (omega arith)),
        rest,
      )
      | inr dropped ↦ rw dropped rest
    ]

entries-indexed :
    (j : ℕ) (visibility : MemoryVisibility) (xs : List MemoryEntry)
    → entries (indexed_from j visibility xs) ≡ keep (is_for visibility) xs
unfolding indexed_from enumerate
entries-indexed j visibility [] = refl
entries-indexed j visibility (x ∷ xs) =
    let rest : entries (indexed_from (suc j) visibility xs) ≡ keep (is_for visibility) xs =
      entries-indexed (suc j) visibility xs in
    elim (Bool-cases (is_for visibility x)) [
      | inl kept ↦ rw kept (ap (λ r. x ∷ r) rest)
      | inr dropped ↦ rw dropped rest
    ]

take-entries : (n : ℕ) (xs : List Entry) → entries (take n xs) ++ entries (drop n xs) ≡ entries xs
take-entries zero xs = refl
take-entries (suc n) [] = refl
take-entries (suc n) (x ∷ xs) = ap (λ r. x.1 ∷ r) (take-entries n xs)

-- The list has the limit's length, or nothing is left out.
take-fills :
    (n : ℕ) (xs : List Entry)
    → (length (entries (take n xs)) ≡ n)
      ⊎ ((length (entries (take n xs)) ≤ n) × (entries (drop n xs) ≡ []))
take-fills zero xs = inl refl
take-fills (suc n) [] = inr (omega arith, refl)
take-fills (suc n) (x ∷ xs) = ground (arith, take-fills n xs)

-- The memories of a prompt and those left out of it are together exactly the memories of the
-- visibility, the more important ones in front and equally important ones in their old order.
-- Memories are left out only where the limit is reached.
pub prioritized_memories-IsRanked :
    (memories : List MemoryEntry) (visibility : MemoryVisibility) (limit : ℕ)
    → (omitted : List MemoryEntry) × IsRanked
        (prioritized_memories memories visibility limit ++ omitted)
      × SameLevels
          (prioritized_memories memories visibility limit ++ omitted)
          (keep (is_for visibility) memories)
      × ((length (prioritized_memories memories visibility limit) ≡ limit)
          ⊎ ((length (prioritized_memories memories visibility limit) ≤ limit) × (omitted ≡ [])))
unfolding prioritized_memories indexed indexed_from
prioritized_memories-IsRanked memories visibility limit =
    let sorted = sort_by memory_order (indexed_from 0 visibility memories) in
    let whole : entries (take limit sorted) ++ entries (drop limit sorted) ≡ entries sorted =
      take-entries limit sorted in
    (
      entries (drop limit sorted),
      rw whole (sort_by-IsRanked (indexed_from 0 visibility memories)),
      (λ k. rw whole (
          sort_by-SameLevels 0 k (indexed_from 0 visibility memories)
            (indexed-IsNumbered 0 0 visibility memories (omega arith))
          ∙ ap (at_level k) (entries-indexed 0 visibility memories))),
      take-fills limit sorted,
    )

-- The order by importance alone.
abbrev pub importance_order : MemoryEntry → MemoryEntry → Ordering
importance_order left right = compare right.importance left.importance

insert_by-entries :
    (x : Entry) (xs : List Entry)
    → From (x.0) xs
    → entries (insert_by memory_order x xs) ≡ insert_by importance_order (x.1) (entries xs)
unfolding insert_by
insert_by-entries x [] h = refl
insert_by-entries x (y ∷ ys) h = ground (arith, h.0, insert_by-entries x ys h.1)

sort_by-entries :
    (i : ℕ) (xs : List Entry)
    → IsNumberedFrom i xs
    → entries (sort_by memory_order xs) ≡ sort_by importance_order (entries xs)
unfolding sort_by
sort_by-entries i [] h = refl
sort_by-entries i (x ∷ xs) h =
    insert_by-entries x (sort_by memory_order xs) (From-sort_by (x.0) xs h.1)
    ∙ ap (insert_by importance_order (x.1)) (sort_by-entries i xs h.2)

entries-take : (n : ℕ) (xs : List Entry) → entries (take n xs) ≡ take n (entries xs)
entries-take zero xs = refl
entries-take (suc n) [] = refl
entries-take (suc n) (x ∷ xs) = ap (λ r. x.1 ∷ r) (entries-take n xs)

-- The indices are not needed: the sort is stable.
pub prioritized_memories-eq :
    (memories : List MemoryEntry) (visibility : MemoryVisibility) (limit : ℕ)
    → prioritized_memories memories visibility limit
      ≡ take limit (sort_by importance_order (keep (is_for visibility) memories))
unfolding prioritized_memories indexed indexed_from
prioritized_memories-eq memories visibility limit =
    let entries_in = indexed_from 0 visibility memories in
    entries-take limit (sort_by memory_order entries_in)
    ∙ ap (take limit) (
        sort_by-entries 0 entries_in (indexed-IsNumbered 0 0 visibility memories (omega arith))
        ∙ ap (sort_by importance_order) (entries-indexed 0 visibility memories))
