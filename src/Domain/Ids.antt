-- ===== src/Domain/Ids.antt =====
-- crates/domain/src/ids.rs. A UUID is the 128-bit number that it writes down.
use advanced_roleplaying_fra.Base.{ℕ, String}

abbrev pub Uuid : Type 0
Uuid = ℕ

abbrev pub EntityKey : Type 0
EntityKey = String
