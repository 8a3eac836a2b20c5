-- ===== src/Engine/Validation/References.antt =====
-- An accepted delta names only entities that exist, and gives a reason for every change.
use advanced_roleplaying_fra.Base.{
  String, ◌≡◌, refl, ◌⊎◌, inl, inr, Bool, true, false, not, ◌||◌, List, arith, ◌==◌, eq_iff, OneOf,
  Result, ok, ◌>>◌, >>-eq-ok, ensure-eq-ok, any-OneOf,
}
use advanced_roleplaying_fra.Base.Text.{is_blank}
use advanced_roleplaying_fra.Domain.Ids.{EntityKey}
use advanced_roleplaying_fra.Domain.Scenario.{Scenario}
use advanced_roleplaying_fra.Domain.State.{WorldState}
use advanced_roleplaying_fra.Domain.Delta.{NpcChange, FactionChange, QuestChange, ClockChange}
use advanced_roleplaying_fra.Engine.Targets.{
  faction_of, reason_of_faction, quest_of, reason_of_quest, clock_of, reason_of_clock,
}
use advanced_roleplaying_fra.Engine.Validation.Errors.{DeltaValidationError}
use advanced_roleplaying_fra.Engine.Validation.Checks.{
  has_id, require_known, require_reason, require_non_empty, is_known_relationship_endpoint,
}
use advanced_roleplaying_fra.Engine.Validation.Npcs.{
  check_npc_change, check_npc_content, check_current_npc, find_npc, check_faction_change, npc_of,
  reason_of_npc,
}
use advanced_roleplaying_fra.Engine.Validation.Counters.{check_quest_change, check_clock_change}
use advanced_roleplaying_fra.Engine.Validation.Validate.{npc_ids_of, faction_ids_of}

-- The text has more than white space.
abbrev pub IsStated : String → Type 0
IsStated text = is_blank text ≡ false

pub has_id-OneOf :
    (known : List EntityKey) (id : EntityKey) → has_id known id ≡ true → OneOf id known
has_id-OneOf known id = any-OneOf _ id (λ x e. (eq_iff x id).0 e) known

pub require_known-OneOf :
    (entity : String) (id : EntityKey) (known : List EntityKey)
    → require_known entity id known ≡ ok tt
    → OneOf id known
unfolding require_known
require_known-OneOf entity id known h = has_id-OneOf known id (ensure-eq-ok _ _ h)

not-eq-true : (b : Bool) → not b ≡ true → b ≡ false
not-eq-true b e = ground arith

pub require_reason-IsStated : (reason : String) → require_reason reason ≡ ok tt → IsStated reason
unfolding require_reason
require_reason-IsStated reason h = not-eq-true (is_blank reason) (ensure-eq-ok _ _ h)

pub require_non_empty-IsStated :
    (label value : String) → require_non_empty label value ≡ ok tt → IsStated value
unfolding require_non_empty
require_non_empty-IsStated label value h = not-eq-true (is_blank value) (ensure-eq-ok _ _ h)

-- The change names one of the entities, and gives a reason.
abbrev pub Names : EntityKey → List EntityKey → String → Type 0
Names id known reason = OneOf id known × IsStated reason

pub known_then_reason :
    {B : Type 0} (entity : String) (id : EntityKey) (known : List EntityKey) (reason : String)
    (rest : Result B DeltaValidationError) {b : B}
    → (require_known entity id known >> (require_reason reason >> rest)) ≡ ok b
    → Names id known reason
known_then_reason entity id known reason rest h =
    let (k, h1) = >>-eq-ok (require_known entity id known) _ h in
    let (r, h2) = >>-eq-ok (require_reason reason) rest h1 in
    (require_known-OneOf entity id known k, require_reason-IsStated reason r)

known_and_reason :
    (entity : String) (id : EntityKey) (known : List EntityKey) (reason : String)
    → (require_known entity id known >> require_reason reason) ≡ ok tt
    → Names id known reason
known_and_reason entity id known reason h =
    let (k, r) = >>-eq-ok (require_known entity id known) (require_reason reason) h in
    (require_known-OneOf entity id known k, require_reason-IsStated reason r)

pub check_quest_change-Names :
    (ids : List EntityKey) (c : QuestChange)
    → check_quest_change ids c ≡ ok tt
    → Names (quest_of c) ids (reason_of_quest c)
unfolding check_quest_change
check_quest_change-Names ids (QuestChange.started k reason) = known_and_reason "quest" k ids reason
check_quest_change-Names ids (QuestChange.objective_completed k o reason) =
    known_and_reason "quest" k ids reason
check_quest_change-Names ids (QuestChange.completed k reason) =
    known_and_reason "quest" k ids reason
check_quest_change-Names ids (QuestChange.failed k reason) = known_and_reason "quest" k ids reason

pub check_faction_change-Names :
    (world : WorldState) (ids : List EntityKey) (c : FactionChange)
    → check_faction_change world ids c ≡ ok tt
    → Names (faction_of c) ids (reason_of_faction c)
unfolding check_faction_change
check_faction_change-Names world ids (FactionChange.standing_changed k delta reason) =
    known_then_reason "faction" k ids reason _
check_faction_change-Names world ids (FactionChange.pressure_changed k delta public reason) =
    known_then_reason "faction" k ids reason _
check_faction_change-Names world ids (FactionChange.goal_revealed k goal reason) =
    known_and_reason "faction" k ids reason
check_faction_change-Names world ids (FactionChange.public_note_added k note reason) =
    known_and_reason "faction" k ids reason
check_faction_change-Names world ids (FactionChange.hidden_note_added k note reason) =
    known_and_reason "faction" k ids reason
check_faction_change-Names world ids (FactionChange.public_pressure_note_added k note reason) =
    known_and_reason "faction" k ids reason
check_faction_change-Names world ids (FactionChange.hidden_pressure_note_added k note reason) =
    known_and_reason "faction" k ids reason

pub check_clock_change-Names :
    (world : WorldState) (ids : List EntityKey) (c : ClockChange)
    → check_clock_change world ids c ≡ ok tt
    → Names (clock_of c) ids (reason_of_clock c)
unfolding check_clock_change
check_clock_change-Names world ids (ClockChange.advanced k delta reason) =
    known_then_reason "clock" k ids reason _
check_clock_change-Names world ids (ClockChange.set_value k value reason) =
    known_then_reason "clock" k ids reason _
check_clock_change-Names world ids (ClockChange.visibility_changed k visible reason) =
    known_and_reason "clock" k ids reason

-- The player, an NPC or a faction.
abbrev pub IsEndpoint : Scenario → EntityKey → Type 0
IsEndpoint scenario id =
    (id ≡ "player") ⊎ OneOf id (npc_ids_of scenario) ⊎ OneOf id (faction_ids_of scenario)

pub ensure-IsEndpoint :
    (scenario : Scenario) (id : EntityKey)
    → is_known_relationship_endpoint id (npc_ids_of scenario) (faction_ids_of scenario) ≡ true
    → IsEndpoint scenario id
unfolding is_known_relationship_endpoint
ensure-IsEndpoint scenario id h =
    split (id == "player") (has_id (npc_ids_of scenario) id) (has_id (faction_ids_of scenario) id) h
      (λ e. (eq_iff id "player").0 e) (has_id-OneOf (npc_ids_of scenario) id)
      (has_id-OneOf (faction_ids_of scenario) id)
  where
    split :
        {P Q R : Type 0} (a b c : Bool)
        → (a || b || c) ≡ true
        → (a ≡ true → P)
        → (b ≡ true → Q)
        → (c ≡ true → R)
        → P ⊎ Q ⊎ R
    split true b c e f g k = inl (f refl)
    split false true c e f g k = inr (inl (g refl))
    split false false c e f g k = inr (inr (k e))

-- The three stages of the check of an NPC change.
pub check_npc_change-parts :
    (to_lowercase : String → String) (scenario : Scenario) (world : WorldState)
    (npc_ids location_ids : List EntityKey) (c : NpcChange)
    → check_npc_change to_lowercase scenario world npc_ids location_ids c ≡ ok tt
    → Names (npc_of c) npc_ids (reason_of_npc c)
      × (check_current_npc c (find_npc world (npc_of c)) ≡ ok tt)
      × (check_npc_content to_lowercase scenario world location_ids c ≡ ok tt)
unfolding check_npc_change
check_npc_change-parts to_lowercase scenario world npc_ids location_ids c h =
    let (known, h1) = >>-eq-ok (require_known "npc" (npc_of c) npc_ids) _ h in
    let (stated, h2) = >>-eq-ok (require_reason (reason_of_npc c)) _ h1 in
    let (current, content) = >>-eq-ok (check_current_npc c (find_npc world (npc_of c))) _ h2 in
    (
      (
        require_known-OneOf "npc" (npc_of c) npc_ids known,
        require_reason-IsStated (reason_of_npc c) stated,
      ),
      current,
      content,
    )
