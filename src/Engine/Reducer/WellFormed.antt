-- ===== src/Engine/Reducer/WellFormed.antt =====
-- An invariant of the world state that the reducer keeps, whatever the delta says.
use advanced_roleplaying_fra.Base.{
  ◌≤◌, String, ◌≡◌, ◌≢◌, refl, sym, ap, inl, inr, true, false, List, map, arith, ◌==◌, eq_iff,
  Bool-cases, All, Distinct, any, foldl-keeps, map-update_first, map-update_first_found, map-push,
  map-keep-Distinct, any-none-All, any-none, All-update_first, Distinct-push,
}
use advanced_roleplaying_fra.Base.Int.{ℤ, pos, add_i16, as_u8-clamp-le}
use advanced_roleplaying_fra.Domain.Ids.{EntityKey}
use advanced_roleplaying_fra.Domain.State.{
  WorldState, QuestState, ClockState, InventoryItem, RelationshipState, ClueState,
}
use advanced_roleplaying_fra.Domain.Delta.{
  QuestChange, ClockChange, InventoryChange, RelationshipChange, ClueChange, WorldStateDelta,
}
use advanced_roleplaying_fra.Engine.Validated.{ValidatedWorldStateDelta}
use advanced_roleplaying_fra.Engine.Reducer.Counters.{
  complete_objective, change_quests, advance_clock, change_clocks, replace_item, change_inventory,
}
use advanced_roleplaying_fra.Engine.Reducer.Player.{
  links, new_relationship, update_relationship, change_relationships, put_clue, change_clues,
}
use advanced_roleplaying_fra.Engine.Reducer.Apply.{apply}
use advanced_roleplaying_fra.Engine.Reducer.Parts.{apply-eq-parts}

abbrev pub ClockWithin : ClockState → Type 0
ClockWithin clock = clock.current ≤ clock.max

abbrev pub item_id : InventoryItem → EntityKey
item_id item = item.id

abbrev pub clue_id : ClueState → EntityKey
clue_id clue = clue.id

abbrev pub endpoints : RelationshipState → EntityKey × EntityKey
endpoints relationship = (relationship.source_id, relationship.target_id)

abbrev pub ObjectivesDistinct : QuestState → Type 0
ObjectivesDistinct quest = Distinct quest.completed_objectives

-- Clocks lie within their maximum; items, clues and relationships have one entry for each key; no
-- quest lists an objective twice.
pub record IsWellFormed (state : WorldState) : Type 0 where
  pub clocks_within : All ClockWithin state.clocks
  pub items_distinct : Distinct (map item_id state.inventory)
  pub clues_distinct : Distinct (map clue_id state.clues)
  pub relationships_distinct : Distinct (map endpoints state.relationships)
  pub objectives_distinct : All ObjectivesDistinct state.quests

-- Whatever the delta, the clamp keeps the clock within its maximum.
advance_clock-ClockWithin :
    (delta : ℤ) (c : ClockState) → ClockWithin c → ClockWithin (advance_clock delta c)
unfolding advance_clock
advance_clock-ClockWithin delta c h = as_u8-clamp-le c.max (add_i16 (pos c.current) delta)

change_clocks-within :
    (clocks : List ClockState) (c : ClockChange)
    → All ClockWithin clocks
    → All ClockWithin (change_clocks clocks c)
unfolding change_clocks
change_clocks-within clocks (ClockChange.advanced clock_id delta reason) h =
    All-update_first ClockWithin _ _ (λ c _ w. advance_clock-ClockWithin delta c w) clocks h
change_clocks-within clocks (ClockChange.set_value clock_id value reason) h =
    All-update_first ClockWithin _ _ (λ c _ w. omega arith) clocks h
change_clocks-within clocks (ClockChange.visibility_changed clock_id visible reason) h =
    All-update_first ClockWithin _ _ (λ c _ w. w) clocks h

other_key : (a k : String) → (a == k) ≡ false → a ≢ k
other_key a k h e = ground (arith, eq_iff a k)

same_key : (a k : String) → (a == k) ≡ true → k ≡ a
same_key a k h = sym ((eq_iff a k).0 h)

replace_item-ids :
    (item : InventoryItem) (inventory : List InventoryItem)
    → map item_id (replace_item item inventory) ≡ map item_id inventory
unfolding replace_item
replace_item-ids item inventory =
    map-update_first_found item_id _ _ (λ x e. same_key x.id item.id e) inventory

change_inventory-Distinct :
    (inventory : List InventoryItem) (c : InventoryChange)
    → Distinct (map item_id inventory)
    → Distinct (map item_id (change_inventory inventory c))
unfolding change_inventory
change_inventory-Distinct inventory (InventoryChange.added item reason) h =
    elim (Bool-cases (any (λ (entry : InventoryItem). entry.id == item.id) inventory)) [
      | inl found ↦ rw (found, replace_item-ids item inventory) h
      | inr new ↦
          rw (new, map-push item_id inventory item)
            (Distinct-push (map item_id inventory) item.id h
              (any-none-All item_id item.id _ (λ x e. other_key x.id item.id e) inventory new))
    ]
change_inventory-Distinct inventory (InventoryChange.removed item_id' reason) h =
    map-keep-Distinct item_id _ inventory h
change_inventory-Distinct inventory (InventoryChange.updated item reason) h =
    rw (replace_item-ids item inventory) h

put_clue-Distinct :
    (clue : ClueState) (clues : List ClueState)
    → Distinct (map clue_id clues)
    → Distinct (map clue_id (put_clue clue clues))
unfolding put_clue
put_clue-Distinct clue clues h =
    elim (Bool-cases (any (λ (existing : ClueState). existing.id == clue.id) clues)) [
      | inl found ↦
          rw
            (
              found,
              map-update_first_found clue_id _ (λ (x : ClueState). clue)
                  (λ x e. same_key x.id clue.id e) clues,
            )
            h
      | inr new ↦
          rw (new, map-push clue_id clues clue)
            (Distinct-push (map clue_id clues) clue.id h
              (any-none-All clue_id clue.id _ (λ x e. other_key x.id clue.id e) clues new))
    ]

change_clues-Distinct :
    (clues : List ClueState) (c : ClueChange)
    → Distinct (map clue_id clues)
    → Distinct (map clue_id (change_clues clues c))
unfolding change_clues
change_clues-Distinct clues (ClueChange.discovered id text secrets conditions visible reason) h =
    put_clue-Distinct _ clues h
change_clues-Distinct clues (ClueChange.visibility_changed id visible reason) h =
    rw
      (map-update_first clue_id (λ (c : ClueState). c.id == id)
        (λ c. record c { visible_to_player = visible }) (λ x. refl) clues)
      h

complete_objective-distinct :
    (objective_id : EntityKey) (q : QuestState)
    → ObjectivesDistinct q
    → ObjectivesDistinct (complete_objective objective_id q)
unfolding complete_objective
complete_objective-distinct k q h =
    elim (Bool-cases (any (λ done. done == k) q.completed_objectives)) [
      | inl found ↦ rw found h
      | inr new ↦ rw new (
          Distinct-push q.completed_objectives k h
            (any-none k _ (λ x. other_key x k) q.completed_objectives new))
    ]

change_quests-distinct :
    (quests : List QuestState) (c : QuestChange)
    → All ObjectivesDistinct quests
    → All ObjectivesDistinct (change_quests quests c)
unfolding change_quests
change_quests-distinct quests (QuestChange.started quest_id reason) h =
    All-update_first ObjectivesDistinct _ _ (λ q _ d. d) quests h
change_quests-distinct quests (QuestChange.objective_completed quest_id k reason) h =
    All-update_first ObjectivesDistinct _ _ (λ q _ d. complete_objective-distinct k q d) quests h
change_quests-distinct quests (QuestChange.completed quest_id reason) h =
    All-update_first ObjectivesDistinct _ _ (λ q _ d. d) quests h
change_quests-distinct quests (QuestChange.failed quest_id reason) h =
    All-update_first ObjectivesDistinct _ _ (λ q _ d. d) quests h

other_pair : (s t : EntityKey) (r : RelationshipState) → links s t r ≡ false → endpoints r ≢ (s, t)
unfolding links
other_pair s t r h e = ground (
  arith,
  eq_iff r.source_id s,
  eq_iff r.target_id t,
  ap (λ (p : EntityKey × EntityKey). p.0) e,
  ap (λ (p : EntityKey × EntityKey). p.1) e,
)

update_relationship-Distinct :
    (relationships : List RelationshipState) (source_id target_id : EntityKey)
    (f : RelationshipState → RelationshipState)
    → ((r : RelationshipState) → endpoints (f r) ≡ endpoints r)
    → Distinct (map endpoints relationships)
    → Distinct (map endpoints (update_relationship relationships source_id target_id f))
unfolding update_relationship
update_relationship-Distinct rs s t f same h = elim (Bool-cases (any (links s t) rs)) [
  | inl found ↦ rw (found, map-update_first endpoints (links s t) f same rs) h
  | inr new ↦
      rw (new, map-push endpoints rs (f (new_relationship s t)), same (new_relationship s t))
        (Distinct-push (map endpoints rs) (s, t) h
          (any-none-All endpoints (s, t) (links s t) (other_pair s t) rs new))
]

change_relationships-Distinct :
    (relationships : List RelationshipState) (c : RelationshipChange)
    → Distinct (map endpoints relationships)
    → Distinct (map endpoints (change_relationships relationships c))
unfolding change_relationships
change_relationships-Distinct rs (RelationshipChange.changed s t delta reason) h =
    update_relationship-Distinct rs s t _ (λ r. refl) h
change_relationships-Distinct rs (RelationshipChange.note_added s t note reason) h =
    update_relationship-Distinct rs s t _ (λ r. refl) h
change_relationships-Distinct rs (RelationshipChange.trust_changed s t delta reason) h =
    update_relationship-Distinct rs s t _ (λ r. refl) h
change_relationships-Distinct rs (RelationshipChange.suspicion_changed s t delta reason) h =
    update_relationship-Distinct rs s t _ (λ r. refl) h
change_relationships-Distinct rs (RelationshipChange.loyalty_changed s t delta reason) h =
    update_relationship-Distinct rs s t _ (λ r. refl) h

-- Any delta turns a well-formed world state into a well-formed one.
pub apply-IsWellFormed :
    (state : WorldState) (validated : ValidatedWorldStateDelta)
    → IsWellFormed state
    → IsWellFormed (apply state validated)
apply-IsWellFormed state validated h = rw (apply-eq-parts state validated) (record {
  clocks_within =
      foldl-keeps (All ClockWithin) change_clocks change_clocks-within delta.clock_changes
        state.clocks h.clocks_within;
  items_distinct =
      foldl-keeps (λ items. Distinct (map item_id items)) change_inventory change_inventory-Distinct
        delta.inventory_changes state.inventory h.items_distinct;
  clues_distinct =
      foldl-keeps (λ clues. Distinct (map clue_id clues)) change_clues change_clues-Distinct
        delta.clue_changes state.clues h.clues_distinct;
  relationships_distinct =
      foldl-keeps (λ rs. Distinct (map endpoints rs)) change_relationships
        change_relationships-Distinct delta.relationship_changes state.relationships
        h.relationships_distinct;
  objectives_distinct =
      foldl-keeps (All ObjectivesDistinct) change_quests change_quests-distinct delta.quest_changes
        state.quests h.objectives_distinct;
})
  where
    delta : WorldStateDelta
    delta = validated.inner
