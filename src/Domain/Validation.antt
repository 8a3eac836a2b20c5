-- ===== src/Domain/Validation.antt =====
-- crates/domain/src/validation.rs: which scenarios are accepted, and which changes of status.
use Prim.Native.String.{◌++◌}
use advanced_roleplaying_fra.Base.{
  String, Bool, true, false, not, ◌&&◌, ◌==◌, Option, none, some, List, [], ◌∷◌, map, any, leb,
  if◌then◌else◌, Result, ok, err, ensure, for_each, ◌>>◌,
}
use advanced_roleplaying_fra.Base.Int.{pos, negsuc, in_range}
use advanced_roleplaying_fra.Domain.Ids.{EntityKey}
use advanced_roleplaying_fra.Domain.Scenario.{Scenario, Location, Faction, ClockTemplate, NpcStatus}
pub mod Sound

pub data DomainValidationError : Type 0 where
  duplicate_id : (entity : String) (id : String) → DomainValidationError
  unknown_npc_initial_location : (npc_id : String) (location_id : String) → DomainValidationError
  clock_current_exceeds_max : (id : String) → DomainValidationError
  faction_standing_out_of_range : (id : String) → DomainValidationError
  missing_revival_event : DomainValidationError

-- The `#[error(..)]` texts.
unfoldable pub display : DomainValidationError → String
display (DomainValidationError.duplicate_id entity id) = "duplicate " ++ (entity ++ (" id: " ++ id))
display (DomainValidationError.unknown_npc_initial_location npc_id location_id) =
    "unknown location id " ++ (location_id ++ (" for npc " ++ npc_id))
display (DomainValidationError.clock_current_exceeds_max id) =
    "clock " ++ (id ++ " current exceeds max")
display (DomainValidationError.faction_standing_out_of_range id) =
    "faction " ++ (id ++ " standing must be between -100 and 100")
display DomainValidationError.missing_revival_event =
    "dead NPC cannot become active without a revival event"

abbrev pub is_dead : NpcStatus → Bool
is_dead NpcStatus.dead = true
is_dead _ = false

abbrev pub is_active : NpcStatus → Bool
is_active NpcStatus.active = true
is_active _ = false

unfoldable pub validate_npc_status_transition :
    NpcStatus → NpcStatus → Bool → Result (Unit {0}) DomainValidationError
validate_npc_status_transition from to has_revival_event =
    if is_dead from && (is_active to && not has_revival_event)
    then err DomainValidationError.missing_revival_event
    else ok tt

-- `seen.insert(id)` is false exactly for an id that stood earlier.
abbrev pub reject_seen :
    String → List EntityKey → List EntityKey → Result (Unit {0}) DomainValidationError
reject_seen entity seen [] = ok tt
reject_seen entity seen (id ∷ ids) =
    let rest = reject_seen entity (id ∷ seen) ids in
    if any (λ other. other == id) seen
    then err (DomainValidationError.duplicate_id entity id)
    else rest

unfoldable pub reject_duplicates : String → List EntityKey → Result (Unit {0}) DomainValidationError
reject_duplicates entity ids = reject_seen entity [] ids

unfoldable pub check_clock_template : ClockTemplate → Result (Unit {0}) DomainValidationError
check_clock_template clock =
    ensure (leb clock.current clock.max) (DomainValidationError.clock_current_exceeds_max clock.id)

unfoldable pub check_faction : Faction → Result (Unit {0}) DomainValidationError
check_faction faction =
    ensure (in_range (negsuc 99) (pos 100) faction.initial_standing)
      (DomainValidationError.faction_standing_out_of_range faction.id)

abbrev pub location_key : Location → EntityKey
location_key location = location.id

unfoldable pub check_initial_location :
    List EntityKey → EntityKey → Option EntityKey → Result (Unit {0}) DomainValidationError
check_initial_location location_ids npc_id none = ok tt
check_initial_location location_ids npc_id (some location_id) =
    ensure (any (λ id. id == location_id) location_ids)
      (DomainValidationError.unknown_npc_initial_location npc_id location_id)

unfoldable pub validate_scenario : Scenario → Result (Unit {0}) DomainValidationError
unfolding reject_duplicates check_clock_template check_faction check_initial_location
validate_scenario scenario = do
  reject_duplicates "location" (map location_key scenario.locations)
  reject_duplicates "npc" (map (λ npc. npc.id) scenario.npcs)
  reject_duplicates "faction" (map (λ faction. faction.id) scenario.factions)
  reject_duplicates "quest" (map (λ quest. quest.id) scenario.quests)
  reject_duplicates "secret" (map (λ secret. secret.id) scenario.secrets)
  reject_duplicates "clock" (map (λ clock. clock.id) scenario.clocks)
  for_each check_clock_template scenario.clocks
  for_each check_faction scenario.factions
  let location_ids = map location_key scenario.locations
  for_each (λ npc. check_initial_location location_ids npc.id npc.initial_location_id) scenario.npcs
