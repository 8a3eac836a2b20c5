-- ===== src/Engine/Examples/Scenarios.antt =====
-- The sample's scenario is sound.
use advanced_roleplaying_fra.Base.{String, eq_iff, ◌≡◌, ◌≢◌, refl, inl, arith, ok, true, ◌==◌}
use advanced_roleplaying_fra.Engine.Sample.{harbor}
use advanced_roleplaying_fra.Domain.Validation.{
  validate_scenario, reject_duplicates, check_clock_template, check_faction, check_initial_location,
}
use advanced_roleplaying_fra.Domain.Validation.Sound.{
  IsSound, validate_scenario-IsSound, IsSound-validate_scenario,
}

harbor_accepted : validate_scenario harbor ≡ ok tt
unfolding validate_scenario reject_duplicates check_clock_template check_faction
    check_initial_location
harbor_accepted = refl

validate_scenario-IsSound_example : IsSound harbor
validate_scenario-IsSound_example = validate_scenario-IsSound harbor harbor_accepted

pub harbor-IsSound : IsSound harbor
harbor-IsSound = record {
  locations = (tt, tt);
  npcs = ((mara-oren, tt), (tt, tt));
  factions = (tt, tt);
  quests = (tt, tt);
  secrets = (tt, tt);
  clocks = (tt, tt);
  clocks_within = (omega arith, tt);
  standings_within = ((omega arith, omega arith), tt);
  starts = (inl refl, (tt, tt));
}
  where
    mara-oren : ◌≢◌ {A = String} "mara" "oren"
    mara-oren e = let same : ("mara" == "oren") ≡ true = (eq_iff "mara" "oren").1 e in cc

IsSound-validate_scenario_example : validate_scenario harbor ≡ ok tt
IsSound-validate_scenario_example = IsSound-validate_scenario harbor harbor-IsSound
