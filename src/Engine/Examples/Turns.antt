-- ===== src/Engine/Examples/Turns.antt =====
-- Whole turns of the sample: validation and reduction.
use advanced_roleplaying_fra.Base.{
  ◌≡◌, ◌≢◌, refl, inl, some, [], ◌∷◌, arith, All, ok, foldl, none, inr, true, ◌==◌, Bool-cases,
}
use advanced_roleplaying_fra.Base.Int.{pos, ◌+ℤ◌, add_i16, add_i32}
use advanced_roleplaying_fra.Base.Text.{contains, is_blank}
use advanced_roleplaying_fra.Domain.Scenario.{NpcStatus}
use advanced_roleplaying_fra.Domain.Delta.{ClockChange, FactionChange}
use advanced_roleplaying_fra.Domain.Validation.{validate_npc_status_transition, display}
use advanced_roleplaying_fra.Engine.Sample.{
  harbor, harbor_world, ledger_found, accepted_ledger, lower,
}
use advanced_roleplaying_fra.Engine.Reducer.Apply.{apply}
use advanced_roleplaying_fra.Engine.Reducer.Npcs.{change_factions}
use advanced_roleplaying_fra.Engine.Reducer.Counters.{advance_clock}
use advanced_roleplaying_fra.Engine.Validation.Checks.{
  require_known, require_reason, require_non_empty, is_known_relationship_endpoint,
  current_relationship_metric,
}
use advanced_roleplaying_fra.Engine.Validation.Npcs.{
  check_npc_change, check_npc_content, check_npc_status, current_status, check_faction_change,
}
use advanced_roleplaying_fra.Engine.Validation.Counters.{
  check_quest_change, check_clock_change, check_relationship_change, check_relationship_metric,
  check_metric, check_inventory_change,
}
use advanced_roleplaying_fra.Engine.Validation.Records.{
  check_scene_change, check_active_speaker_change, check_summary_update, check_clue_change,
  check_location_change,
}
use advanced_roleplaying_fra.Engine.Validation.Secrets.{
  leaks, proves, check_condition_of, check_clue_condition, validate_clue_links, check_leaked,
  check_reveal, find_leaked_gm_only_facts, leaks_gm_only_fact, validate_secret_reveal_proof,
  proof_visible_in_world, proof_visible_in_delta, change_proves, check_player_known,
  check_fact_to_add,
}
use advanced_roleplaying_fra.Engine.Validation.Validate.{validate, faction_ids_of, clock_ids_of}
use advanced_roleplaying_fra.Engine.Validation.Sound.{NamesExist, validate-NamesExist}
use advanced_roleplaying_fra.Engine.Turn.Secrecy.{KeepsSecrets, apply-KeepsSecrets}
use advanced_roleplaying_fra.Engine.Turn.Mortality.{status_of, apply-not_revived}
use advanced_roleplaying_fra.Engine.Turn.Clocks.{advance_clock-exact}
use advanced_roleplaying_fra.Engine.Turn.Standing.{StandingsInRange, standing_of, InHundred}
use advanced_roleplaying_fra.Engine.Turn.StandingBounds.{apply-StandingsInRange}
use advanced_roleplaying_fra.Engine.Turn.StandingOverrun.{standing_overruns}

-- The sample's delta is accepted.
ledger_accepted : validate lower harbor harbor_world ledger_found ≡ ok accepted_ledger
unfolding validate check_scene_change check_active_speaker_change require_reason is_blank
    require_known check_summary_update check_fact_to_add contains check_npc_change
    validate_npc_status_transition check_faction_change add_i32 ◌+ℤ◌ check_quest_change
    check_clock_change add_i16 check_relationship_change display current_relationship_metric
    is_known_relationship_endpoint require_non_empty check_metric check_relationship_metric
    check_npc_content check_npc_status current_status check_clue_change check_location_change
    change_proves check_clue_condition check_condition_of check_leaked check_player_known
    check_reveal find_leaked_gm_only_facts leaks leaks_gm_only_fact proof_visible_in_delta
    proof_visible_in_world proves validate_clue_links validate_secret_reveal_proof
    check_inventory_change
ledger_accepted = refl

tide_accepted :
    check_clock_change harbor_world
      (clock_ids_of harbor_world)
      (ClockChange.advanced "tide" (pos 3) "time passes")
    ≡ ok tt
unfolding check_clock_change require_known require_reason is_blank add_i16 ◌+ℤ◌
tide_accepted = refl

guild_known : require_known "faction" "guild" (faction_ids_of harbor) ≡ ok tt
unfolding require_known
guild_known = refl

gift_stated : require_reason "a gift" ≡ ok tt
unfolding require_reason is_blank
gift_stated = refl

apply-KeepsSecrets_example :
    All (KeepsSecrets lower harbor_world ledger_found) (apply harbor_world accepted_ledger).facts
apply-KeepsSecrets_example =
    apply-KeepsSecrets lower harbor harbor_world ledger_found accepted_ledger ledger_accepted

validate-NamesExist_example : NamesExist harbor harbor_world ledger_found
validate-NamesExist_example =
    validate-NamesExist lower harbor harbor_world ledger_found accepted_ledger ledger_accepted

guild_in_range : StandingsInRange harbor_world.factions
guild_in_range k v h = elim (Bool-cases ("guild" == k)) [
  | inl here ↦ let at_zero : some (pos 0) ≡ some v = rw here at h in ground arith
  | inr there ↦ let nothing : none ≡ some v = rw there at h in cc
]

apply-StandingsInRange_example : StandingsInRange (apply harbor_world accepted_ledger).factions
apply-StandingsInRange_example =
    apply-StandingsInRange lower harbor harbor_world ledger_found accepted_ledger ledger_accepted
      (tt, tt) guild_in_range

apply-not_revived_example :
    status_of (apply harbor_world accepted_ledger).npcs "oren" ≢ some NpcStatus.active
apply-not_revived_example =
    apply-not_revived lower harbor harbor_world ledger_found accepted_ledger "oren" ledger_accepted
      refl

advance_clock-exact_example :
    pos
      (advance_clock (pos 3) (record {
        id = "tide";
        title = "Tide";
        current = 2;
        max = 6;
        consequence = "flood";
        visible_to_player = true;
      })).current
    ≡ pos 2 +ℤ pos 3
advance_clock-exact_example =
    advance_clock-exact harbor_world (clock_ids_of harbor_world) "tide" (pos 3) "time passes"
      (record {
        id = "tide";
        title = "Tide";
        current = 2;
        max = 6;
        consequence = "flood";
        visible_to_player = true;
      })
      tide_accepted refl (omega arith) (omega arith) (omega arith, omega arith)

standing_overruns_example :
    (check_faction_change harbor_world
        (faction_ids_of harbor)
        (FactionChange.standing_changed "guild" (pos 60) "a gift")
      ≡ ok tt)
    × (check_faction_change harbor_world
          (faction_ids_of harbor)
          (FactionChange.standing_changed "guild" (pos 70) "a gift")
        ≡ ok tt)
    × (standing_of
          (foldl change_factions harbor_world.factions (
            FactionChange.standing_changed "guild" (pos 60) "a gift"
            ∷ FactionChange.standing_changed "guild" (pos 70) "a gift"
            ∷ []))
          "guild"
        ≡ some (pos 130))
    × ¬ InHundred (pos 130)
standing_overruns_example =
    standing_overruns harbor_world (faction_ids_of harbor) "guild" 60 70 "a gift" guild_known
      gift_stated refl (omega arith) (omega arith) (omega arith)
