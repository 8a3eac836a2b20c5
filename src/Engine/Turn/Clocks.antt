-- ===== src/Engine/Turn/Clocks.antt =====
-- An accepted advance of a clock is exact: the reducer's clamp and its cut to eight bits do nothing.
use advanced_roleplaying_fra.Base.{
  ℕ, ◌≤◌, ◌≡◌, ◌∙◌, true, some, List, arith, ◌==◌, ok, >>-eq-ok, ensure-eq-ok, find, String,
}
use advanced_roleplaying_fra.Base.Int.{
  ℤ, pos, negsuc, ◌+ℤ◌, add_i16, clamp, as_u8, in_range, InRange, i8_min, i8_max,
}
use advanced_roleplaying_fra.Domain.Ids.{EntityKey}
use advanced_roleplaying_fra.Domain.State.{WorldState, ClockState}
use advanced_roleplaying_fra.Domain.Delta.{ClockChange}
use advanced_roleplaying_fra.Engine.Reducer.Counters.{advance_clock}
use advanced_roleplaying_fra.Engine.Validation.Checks.{require_known, require_reason}
use advanced_roleplaying_fra.Engine.Validation.Errors.{DeltaValidationError}
use advanced_roleplaying_fra.Engine.Validation.Counters.{check_clock_change}

-- The sum of a byte and a signed byte fits in sixteen bits.
add_i16-byte :
    (n : ℕ) (delta : ℤ)
    → n ≤ 255
    → InRange i8_min i8_max delta
    → add_i16 (pos n) delta ≡ pos n +ℤ delta
unfolding add_i16 ◌+ℤ◌
add_i16-byte n (pos m) h r = ground arith
add_i16-byte n (negsuc m) h r = ground arith

as_u8-clamp-exact :
    (m : ℕ) (next : ℤ)
    → m ≤ 255
    → in_range (pos 0) (pos m) next ≡ true
    → pos (as_u8 (clamp (pos 0) (pos m) next)) ≡ next
unfolding as_u8 clamp
as_u8-clamp-exact m (pos n) h r = ground arith
as_u8-clamp-exact m (negsuc n) h r = ground arith

-- For a clock of two bytes within its maximum: an accepted advance moves it by exactly the delta.
pub advance_clock-exact :
    (world : WorldState) (clock_ids : List EntityKey) (k : EntityKey) (delta : ℤ) (reason : String)
    (clock : ClockState)
    → check_clock_change world clock_ids (ClockChange.advanced k delta reason) ≡ ok tt
    → find (λ (c : ClockState). c.id == k) world.clocks ≡ some clock
    → clock.current ≤ clock.max
    → clock.max ≤ 255
    → InRange i8_min i8_max delta
    → pos (advance_clock delta clock).current ≡ pos clock.current +ℤ delta
unfolding check_clock_change advance_clock
advance_clock-exact world clock_ids k delta reason clock h found within byte r =
    let (_, h1) = >>-eq-ok (require_known "clock" k clock_ids) _ h in
    let (_, h2) = >>-eq-ok (require_reason reason) _ h1 in
    let checked = ensure-eq-ok _ (DeltaValidationError.clock_out_of_range k _) (rw found at h2) in
    as_u8-clamp-exact clock.max (add_i16 (pos clock.current) delta) byte checked
    ∙ add_i16-byte clock.current delta (omega arith) r
