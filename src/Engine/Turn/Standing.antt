-- ===== src/Engine/Turn/Standing.antt =====
-- Faction standings over a turn: the validator checks each change against the standing before the
-- turn, and the reducer adds them up.
use mathlib.Core.Option
use advanced_roleplaying_fra.Base.{
  String, ◌≡◌, refl, ap, Bool, true, false, Option, none, some, List, arith, ◌==◌, ok, >>-eq-ok,
  ensure-eq-ok, find_key, find_key-update_first, filter_map, if◌then◌else◌,
}
use advanced_roleplaying_fra.Base.Int.{ℤ, pos, negsuc, add_i32, InRange}
use advanced_roleplaying_fra.Domain.Ids.{EntityKey}
use advanced_roleplaying_fra.Domain.State.{WorldState, FactionState}
use advanced_roleplaying_fra.Domain.Delta.{FactionChange}
use advanced_roleplaying_fra.Engine.Reducer.Npcs.{change_factions, update_faction}
use advanced_roleplaying_fra.Engine.Validation.Npcs.{check_faction_change, faction_metric}
use advanced_roleplaying_fra.Engine.Validation.Checks.{
  require_known, require_reason, within_hundred,
}
use advanced_roleplaying_fra.Engine.Validation.Errors.{DeltaValidationError}

abbrev pub faction_key : FactionState → EntityKey
faction_key faction = faction.faction_id

-- The standing of the first faction state with that id.
abbrev pub standing_of : List FactionState → EntityKey → Option ℤ
standing_of factions k =
    Option.map (λ (faction : FactionState). faction.standing) (find_key faction_key k factions)

-- The factions whose standing the changes move, one entry for each such change.
abbrev pub standing_target : FactionChange → Option EntityKey
standing_target (FactionChange.standing_changed faction_id standing_delta reason) = some faction_id
standing_target _ = none

abbrev pub standing_targets : List FactionChange → List EntityKey
standing_targets changes = filter_map standing_target changes

abbrev pub InHundred : ℤ → Type 0
InHundred = InRange (negsuc 99) (pos 100)

abbrev pub StandingsInRange : List FactionState → Type 0
StandingsInRange factions = (k : EntityKey) (v : ℤ) → standing_of factions k ≡ some v → InHundred v

pub standing_of-moved :
    (factions : List FactionState) (j k : EntityKey) (delta : ℤ) (reason : String)
    → standing_of (change_factions factions (FactionChange.standing_changed j delta reason)) k ≡ (
        if j == k
        then Option.map (λ v. add_i32 v delta) (standing_of factions k)
        else standing_of factions k)
unfolding change_factions
standing_of-moved factions j k delta reason =
    let after =
      find_key-update_first faction_key
        (λ (f : FactionState). record f { standing = add_i32 f.standing delta }) (λ x. refl) k j
        factions in
    rw after (ground arith)

update_faction-kept :
    (factions : List FactionState) (j k : EntityKey) (f : FactionState → FactionState)
    → ((x : FactionState) → (f x).faction_id ≡ x.faction_id)
    → ((x : FactionState) → (f x).standing ≡ x.standing)
    → standing_of (update_faction factions j f) k ≡ standing_of factions k
unfolding update_faction
update_faction-kept factions j k f key standing =
    rw (find_key-update_first faction_key f key k j factions)
      (split (j == k) (find_key faction_key k factions))
  where
    split :
        (b : Bool) (found : Option FactionState)
        → Option.map (λ (x : FactionState). x.standing) (if b then Option.map f found else found)
          ≡ Option.map (λ (x : FactionState). x.standing) found
    split true none = refl
    split true (some x) = ap some (standing x)
    split false found = refl

pub standing_of-kept :
    (factions : List FactionState) (c : FactionChange) (k : EntityKey)
    → standing_target c ≡ none
    → standing_of (change_factions factions c) k ≡ standing_of factions k
unfolding change_factions
standing_of-kept factions (FactionChange.standing_changed j delta reason) k e = cc
standing_of-kept factions (FactionChange.goal_revealed j goal reason) k e =
    update_faction-kept factions j k _ (λ x. refl) (λ x. refl)
standing_of-kept factions (FactionChange.public_note_added j note reason) k e =
    update_faction-kept factions j k _ (λ x. refl) (λ x. refl)
standing_of-kept factions (FactionChange.hidden_note_added j note reason) k e =
    update_faction-kept factions j k _ (λ x. refl) (λ x. refl)
standing_of-kept factions (FactionChange.pressure_changed j delta public reason) k e =
    update_faction-kept factions j k _ (λ x. refl) (λ x. refl)
standing_of-kept factions (FactionChange.public_pressure_note_added j note reason) k e =
    update_faction-kept factions j k _ (λ x. refl) (λ x. refl)
standing_of-kept factions (FactionChange.hidden_pressure_note_added j note reason) k e =
    update_faction-kept factions j k _ (λ x. refl) (λ x. refl)

pub faction_metric-standing_of :
    (world : WorldState) (k : EntityKey) (v : ℤ)
    → standing_of world.factions k ≡ some v
    → faction_metric world k (λ state. state.standing) ≡ v
faction_metric-standing_of world k v h = ground arith

within_hundred-InHundred : (v : ℤ) → within_hundred v ≡ true → InHundred v
within_hundred-InHundred v h = ground arith

pub map-eq-some :
    (g : ℤ → ℤ) (o : Option ℤ) {v : ℤ}
    → Option.map g o ≡ some v
    → (u : ℤ) × (o ≡ some u) × (g u ≡ v)
map-eq-some g none h = cc
map-eq-some g (some u) h = (u, refl, cc)

-- An accepted change moves the standing before the turn to one in range.
pub moved-InHundred :
    (world : WorldState) (ids : List EntityKey) (k : EntityKey) (delta v : ℤ) (reason : String)
    → check_faction_change world ids (FactionChange.standing_changed k delta reason) ≡ ok tt
    → standing_of world.factions k ≡ some v
    → InHundred (add_i32 v delta)
unfolding check_faction_change
moved-InHundred world ids k delta v reason h e =
    let (_, h1) = >>-eq-ok (require_known "faction" k ids) _ h in
    let (_, h2) = >>-eq-ok (require_reason reason) _ h1 in
    let current = faction_metric-standing_of world k v e in
    within_hundred-InHundred (add_i32 v delta)
      (rw current at (ensure-eq-ok _ (DeltaValidationError.standing_out_of_range k _) h2))
