-- ===== src/Engine/Turn.antt =====
-- What a whole turn guarantees: a delta that the validator accepts, applied by the reducer.
pub mod Evidence
pub mod Secrecy
pub mod Clocks
pub mod Mortality
pub mod Standing
pub mod StandingBounds
pub mod StandingOverrun
