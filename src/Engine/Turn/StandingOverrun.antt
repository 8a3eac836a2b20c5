-- ===== src/Engine/Turn/StandingOverrun.antt =====
-- Two accepted changes of one standing can leave it out of range.
use advanced_roleplaying_fra.Base.{
  ℕ, ◌+◌, ◌≤◌, ◌<◌, String, ◌≡◌, ap, ◌∙◌, some, List, [], ◌∷◌, arith, str_eq_refl, ok, foldl,
}
use advanced_roleplaying_fra.Base.Int.{pos, add_i32, ◌+ℤ◌}
use advanced_roleplaying_fra.Domain.Ids.{EntityKey}
use advanced_roleplaying_fra.Domain.State.{WorldState}
use advanced_roleplaying_fra.Domain.Delta.{FactionChange}
use advanced_roleplaying_fra.Engine.Reducer.Npcs.{change_factions}
use advanced_roleplaying_fra.Engine.Validation.Npcs.{check_faction_change}
use advanced_roleplaying_fra.Engine.Validation.Checks.{require_known, require_reason}
use advanced_roleplaying_fra.Engine.Turn.Standing.{
  standing_of, InHundred, standing_of-moved, faction_metric-standing_of,
}

-- Where the sum of two non-negative numbers fits, it is the machine sum.
add_i32-pos : (a b : ℕ) → a + b ≤ 2147483647 → add_i32 (pos a) (pos b) ≡ pos (a + b)
unfolding add_i32 ◌+ℤ◌
add_i32-pos a b h = ground arith

from_zero : (a : ℕ) → a ≤ 100 → add_i32 (pos 0) (pos a) ≡ pos a
from_zero a h =
    let nothing : 0 + a ≡ a = omega arith in add_i32-pos 0 a (omega arith) ∙ ap pos nothing

single_accepted :
    (world : WorldState) (ids : List EntityKey) (k : EntityKey) (a : ℕ) (reason : String)
    → require_known "faction" k ids ≡ ok tt
    → require_reason reason ≡ ok tt
    → standing_of world.factions k ≡ some (pos 0)
    → a ≤ 100
    → check_faction_change world ids (FactionChange.standing_changed k (pos a) reason) ≡ ok tt
unfolding check_faction_change
single_accepted world ids k a reason known stated start h =
    rw (known, stated, faction_metric-standing_of world k (pos 0) start, from_zero a (omega arith))
      (ground arith)

-- Two changes of one faction, each from 1 to 100 and accepted on its own, that add up to more than
-- 100: the validator accepts both, and the reducer leaves the standing at their sum.
pub standing_overruns :
    (world : WorldState) (ids : List EntityKey) (k : EntityKey) (a b : ℕ) (reason : String)
    → require_known "faction" k ids ≡ ok tt
    → require_reason reason ≡ ok tt
    → standing_of world.factions k ≡ some (pos 0)
    → a ≤ 100
    → b ≤ 100
    → 100 < a + b
    → (check_faction_change world ids (FactionChange.standing_changed k (pos a) reason) ≡ ok tt)
      × (check_faction_change world ids (FactionChange.standing_changed k (pos b) reason) ≡ ok tt)
      × (standing_of
            (foldl change_factions world.factions (
              FactionChange.standing_changed k (pos a) reason
              ∷ FactionChange.standing_changed k (pos b) reason
              ∷ []))
            k
          ≡ some (pos (a + b)))
      × ¬ InHundred (pos (a + b))
standing_overruns world ids k a b reason known stated start ha hb over = (
  single_accepted world ids k a reason known stated start ha,
  single_accepted world ids k b reason known stated start hb,
  rw (
    standing_of-moved
        (change_factions world.factions (FactionChange.standing_changed k (pos a) reason)) k k
        (pos b) reason,
    str_eq_refl k,
    standing_of-moved world.factions k k (pos a) reason,
    str_eq_refl k,
    start,
    from_zero a (omega arith),
    add_i32-pos a b (omega arith),
  ),
  λ in_range. absurd (omega arith),
)
