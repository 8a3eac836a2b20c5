-- ===== src/Engine/Projection/Unique.antt =====
-- The list of changed entities names each entity once, and loses none that it names.
use advanced_roleplaying_fra.Base.{
  String, ◌≡◌, ◌≢◌, refl, sym, ap, true, false, ◌==◌, eq_iff, Bool-cases, inl, inr, Option, none,
  some, List, [], ◌∷◌, All, OneOf, Distinct, any, any-none, foldl-keeps, Distinct-push, OneOf-push,
  OneOf-push_old, is_empty, &&-eq-true,
}
use advanced_roleplaying_fra.Domain.Ids.{EntityKey}
use advanced_roleplaying_fra.Domain.State.{WorldState}
use advanced_roleplaying_fra.Domain.Delta.{WorldStateDelta, LocationChange}
use advanced_roleplaying_fra.Domain.Visible.{EntityRef}
use advanced_roleplaying_fra.Engine.Validated.{ValidatedWorldStateDelta}
use advanced_roleplaying_fra.Engine.Projection.Changed.{
  same_ref, push_unique, push_all, push_player, push_location, changed_entities,
}

abbrev pub ref_to : String → EntityKey → EntityRef
ref_to entity_type id = record { entity_type = entity_type; id = id }

same_ref-true :
    (t : String) (id : EntityKey) (r : EntityRef) → same_ref t id r ≡ true → r ≡ ref_to t id
same_ref-true t id r h =
    let (types, ids) = &&-eq-true (r.entity_type == t) (r.id == id) h in
    λ i. record { entity_type = (eq_iff r.entity_type t).0 types i; id = (eq_iff r.id id).0 ids i }

same_ref-false :
    (t : String) (id : EntityKey) (r : EntityRef) → same_ref t id r ≡ false → r ≢ ref_to t id
same_ref-false t id r h e =
    let types : r.entity_type ≡ t = ap (λ (x : EntityRef). x.entity_type) e in
    let ids : r.id ≡ id = ap (λ (x : EntityRef). x.id) e in
    let found : same_ref t id r ≡ true =
      rw ((eq_iff r.entity_type t).1 types, (eq_iff r.id id).1 ids) refl in
    cc

push_unique-Distinct :
    (refs : List EntityRef) (t : String) (id : EntityKey)
    → Distinct refs
    → Distinct (push_unique refs t id)
unfolding push_unique
push_unique-Distinct refs t id h = elim (Bool-cases (any (same_ref t id) refs)) [
  | inl found ↦ rw found h
  | inr new ↦ rw new (
      Distinct-push refs (ref_to t id) h
        (any-none (ref_to t id) (same_ref t id) (same_ref-false t id) refs new))
]

-- A reference that stands in the list stays, and the one that is pushed is there.
pub push_unique-keeps :
    (refs : List EntityRef) (t : String) (id : EntityKey) (r : EntityRef)
    → OneOf r refs
    → OneOf r (push_unique refs t id)
unfolding push_unique
push_unique-keeps refs t id r h = elim (Bool-cases (any (same_ref t id) refs)) [
  | inl found ↦ rw found h
  | inr new ↦ rw new (OneOf-push_old refs (ref_to t id) r h)
]

found-OneOf :
    (refs : List EntityRef) (t : String) (id : EntityKey)
    → any (same_ref t id) refs ≡ true
    → OneOf (ref_to t id) refs
found-OneOf [] t id h = cc
found-OneOf (r ∷ refs) t id h = elim (Bool-cases (same_ref t id r)) [
  | inl here ↦ inl (sym (same_ref-true t id r here))
  | inr there ↦ inr (found-OneOf refs t id (rw there at h))
]

pub push_unique-OneOf :
    (refs : List EntityRef) (t : String) (id : EntityKey)
    → OneOf (ref_to t id) (push_unique refs t id)
unfolding push_unique
push_unique-OneOf refs t id = elim (Bool-cases (any (same_ref t id) refs)) [
  | inl found ↦ rw found (found-OneOf refs t id found)
  | inr new ↦ rw new (OneOf-push refs (ref_to t id))
]

module _ {A : Type 0} (t : String) (id_of : A → EntityKey) where
  push_all-Distinct :
      (refs : List EntityRef) (xs : List A) → Distinct refs → Distinct (push_all t id_of refs xs)
  unfolding push_all
  push_all-Distinct refs xs h =
      foldl-keeps Distinct _ (λ rs x. push_unique-Distinct rs t (id_of x)) xs refs h

  pub push_all-keeps :
      (refs : List EntityRef) (xs : List A) (r : EntityRef)
      → OneOf r refs
      → OneOf r (push_all t id_of refs xs)
  unfolding push_all
  push_all-keeps refs xs r h =
      foldl-keeps (OneOf r) _ (λ rs x. push_unique-keeps rs t (id_of x) r) xs refs h

  pub push_all-OneOf :
      (refs : List EntityRef) (xs : List A)
      → All (λ x. OneOf (ref_to t (id_of x)) (push_all t id_of refs xs)) xs
  unfolding push_all
  push_all-OneOf refs [] = tt
  push_all-OneOf refs (x ∷ xs) = (
    push_all-keeps (push_unique refs t (id_of x)) xs (ref_to t (id_of x))
        (push_unique-OneOf refs t (id_of x)),
    push_all-OneOf (push_unique refs t (id_of x)) xs,
  )

push_player-Distinct :
    (delta : WorldStateDelta) (refs : List EntityRef)
    → Distinct refs
    → Distinct (push_player delta refs)
push_player-Distinct delta refs h = elim (Bool-cases (is_empty delta.player_changes)) [
  | inl nothing ↦ rw nothing h
  | inr changed ↦ rw changed (push_unique-Distinct refs "player" "player" h)
]

push_location-Distinct :
    (change : Option LocationChange) (refs : List EntityRef)
    → Distinct refs
    → Distinct (push_location change refs)
push_location-Distinct none refs h = h
push_location-Distinct (some change) refs h =
    push_unique-Distinct refs "location" change.location_id h

pub push_player-keeps :
    (delta : WorldStateDelta) (refs : List EntityRef) (r : EntityRef)
    → OneOf r refs
    → OneOf r (push_player delta refs)
push_player-keeps delta refs r h = elim (Bool-cases (is_empty delta.player_changes)) [
  | inl nothing ↦ rw nothing h
  | inr changed ↦ rw changed (push_unique-keeps refs "player" "player" r h)
]

pub push_location-keeps :
    (change : Option LocationChange) (refs : List EntityRef) (r : EntityRef)
    → OneOf r refs
    → OneOf r (push_location change refs)
push_location-keeps none refs r h = h
push_location-keeps (some change) refs r h =
    push_unique-keeps refs "location" change.location_id r h

-- No entity is listed twice.
pub changed_entities-Distinct :
    (state : WorldState) (validated : ValidatedWorldStateDelta)
    → Distinct (changed_entities state validated)
unfolding changed_entities
changed_entities-Distinct state validated =
    push_location-Distinct validated.inner.location_change _ (
      push_player-Distinct validated.inner _ (
        push_all-Distinct _ _ _ _ (
          push_all-Distinct _ _ _ _ (
            push_all-Distinct _ _ _ _ (
              push_all-Distinct _ _ _ _ (
                push_all-Distinct _ _ _ _ (
                  push_all-Distinct _ _ _ _
                    (push_all-Distinct _ _ _ _ (push_all-Distinct _ _ [] _ tt)))))))))
