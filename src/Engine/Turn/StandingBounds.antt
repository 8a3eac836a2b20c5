-- ===== src/Engine/Turn/StandingBounds.antt =====
-- Standings stay in range over a turn that moves none of them twice.
use mathlib.Core.Option
use advanced_roleplaying_fra.Base.{
  String, ◌≡◌, ◌≢◌, refl, sym, ap, ◌∙◌, subst, inl, inr, Bool, true, false, Option, none, some,
  List, [], ◌∷◌, arith, ◌==◌, eq_iff, Bool-cases, All, All-at, OneOf, Distinct, ok, foldl,
  if◌then◌else◌,
}
use advanced_roleplaying_fra.Base.Int.{ℤ, add_i32, in_range}
use advanced_roleplaying_fra.Domain.Ids.{EntityKey}
use advanced_roleplaying_fra.Domain.Scenario.{Scenario}
use advanced_roleplaying_fra.Domain.State.{WorldState, FactionState}
use advanced_roleplaying_fra.Domain.Delta.{WorldStateDelta, FactionChange}
use advanced_roleplaying_fra.Engine.Validated.{ValidatedWorldStateDelta}
use advanced_roleplaying_fra.Engine.Reducer.Npcs.{change_factions}
use advanced_roleplaying_fra.Engine.Reducer.Apply.{apply}
use advanced_roleplaying_fra.Engine.Reducer.Parts.{apply-eq-parts}
use advanced_roleplaying_fra.Engine.Validation.Npcs.{check_faction_change}
use advanced_roleplaying_fra.Engine.Validation.Validate.{validate, faction_ids_of}
use advanced_roleplaying_fra.Engine.Validation.Accepted.{validate-Accepted, validate-inner}
use advanced_roleplaying_fra.Engine.Turn.Standing.{
  standing_of, standing_target, standing_targets, InHundred, StandingsInRange, standing_of-moved,
  standing_of-kept, map-eq-some, moved-InHundred,
}

-- Where a standing is still to be moved it is the one before the turn; all are in range.
abbrev OnTrack : WorldState → List EntityKey → List FactionState → Type 0
OnTrack world targets factions =
    ((k : EntityKey) → OneOf k targets → standing_of factions k ≡ standing_of world.factions k)
    × StandingsInRange factions

move-OnTrack :
    (world : WorldState) (ids : List EntityKey) (j : EntityKey) (delta : ℤ) (reason : String)
    (targets : List EntityKey) (factions : List FactionState)
    → check_faction_change world ids (FactionChange.standing_changed j delta reason) ≡ ok tt
    → All (λ k. j ≢ k) targets
    → OnTrack world (j ∷ targets) factions
    → OnTrack world targets
        (change_factions factions (FactionChange.standing_changed j delta reason))
move-OnTrack world ids j delta reason targets factions h new (same, in_range) = (
  λ k o.
      standing_of-moved factions j k delta reason
      ∙ elsewhere (j == k) _ _ (differs k (All-at (λ i. j ≢ i) targets k new o))
      ∙ same k (inr o),
  λ k v e. elim (Bool-cases (j == k)) [
    | inl here ↦ at_target k v here (sym (standing_of-moved factions j k delta reason) ∙ e)
    | inr there ↦
        in_range k v (
          sym (elsewhere (j == k) _ _ there)
          ∙ sym (standing_of-moved factions j k delta reason)
          ∙ e)
  ],
)
  where
    elsewhere : (b : Bool) (x y : Option ℤ) → b ≡ false → (if b then x else y) ≡ y
    elsewhere b x y e = ground arith

    differs : (k : EntityKey) → j ≢ k → (j == k) ≡ false
    differs k ne = ground (arith, eq_iff j k)

    at_target :
        (k : EntityKey) (v : ℤ)
        → (j == k) ≡ true
        → (if j == k
            then Option.map (λ u. add_i32 u delta) (standing_of factions k)
            else standing_of factions k)
          ≡ some v
        → InHundred v
    at_target k v here e =
        let at_k : j ≡ k = (eq_iff j k).0 here in
        let (u, before, moved) =
          map-eq-some (λ u. add_i32 u delta) (standing_of factions k) (rw here at e) in
        let known : standing_of world.factions j ≡ some u =
          sym (same j (inl refl)) ∙ ap (standing_of factions) at_k ∙ before in
        subst InHundred moved (moved-InHundred world ids j delta u reason h known)

keep-OnTrack :
    (world : WorldState) (c : FactionChange) (targets : List EntityKey)
    (factions : List FactionState)
    → standing_target c ≡ none
    → OnTrack world targets factions
    → OnTrack world targets (change_factions factions c)
keep-OnTrack world c targets factions e (same, in_range) = (
  λ k o. standing_of-kept factions c k e ∙ same k o,
  λ k v h. in_range k v (sym (standing_of-kept factions c k e) ∙ h),
)

fold-OnTrack :
    (world : WorldState) (ids : List EntityKey) (changes : List FactionChange)
    (factions : List FactionState)
    → All (λ c. check_faction_change world ids c ≡ ok tt) changes
    → Distinct (standing_targets changes)
    → OnTrack world (standing_targets changes) factions
    → StandingsInRange (foldl change_factions factions changes)
fold-OnTrack world ids [] factions h d on = on.1
fold-OnTrack world ids (FactionChange.standing_changed j delta reason ∷ rest) factions h d on =
    fold-OnTrack world ids rest _ h.1 d.1
      (move-OnTrack world ids j delta reason (standing_targets rest) factions h.0 d.0 on)
fold-OnTrack world ids (FactionChange.goal_revealed j goal reason ∷ rest) factions h d on =
    fold-OnTrack world ids rest _ h.1 d
      (keep-OnTrack world _ (standing_targets rest) factions refl on)
fold-OnTrack world ids (FactionChange.public_note_added j note reason ∷ rest) factions h d on =
    fold-OnTrack world ids rest _ h.1 d
      (keep-OnTrack world _ (standing_targets rest) factions refl on)
fold-OnTrack world ids (FactionChange.hidden_note_added j note reason ∷ rest) factions h d on =
    fold-OnTrack world ids rest _ h.1 d
      (keep-OnTrack world _ (standing_targets rest) factions refl on)
fold-OnTrack world ids (FactionChange.pressure_changed j delta public reason ∷ rest) factions h d
      on =
    fold-OnTrack world ids rest _ h.1 d
      (keep-OnTrack world _ (standing_targets rest) factions refl on)
fold-OnTrack world ids (FactionChange.public_pressure_note_added j note reason ∷ rest) factions h d
      on =
    fold-OnTrack world ids rest _ h.1 d
      (keep-OnTrack world _ (standing_targets rest) factions refl on)
fold-OnTrack world ids (FactionChange.hidden_pressure_note_added j note reason ∷ rest) factions h d
      on =
    fold-OnTrack world ids rest _ h.1 d
      (keep-OnTrack world _ (standing_targets rest) factions refl on)

-- If an accepted delta moves no faction's standing twice, all standings stay from -100 to 100.
pub apply-StandingsInRange :
    (to_lowercase : String → String) (scenario : Scenario) (world : WorldState)
    (delta : WorldStateDelta) (validated : ValidatedWorldStateDelta)
    → validate to_lowercase scenario world delta ≡ ok validated
    → Distinct (standing_targets delta.faction_changes)
    → StandingsInRange world.factions
    → StandingsInRange (apply world validated).factions
apply-StandingsInRange to_lowercase scenario world delta validated h distinct in_range =
    let accepted = validate-Accepted to_lowercase scenario world delta validated h in
    let same = validate-inner to_lowercase scenario world delta validated h in
    rw (apply-eq-parts world validated, same)
      (fold-OnTrack world (faction_ids_of scenario) delta.faction_changes world.factions
        accepted.factions distinct (λ k o. refl, in_range))
