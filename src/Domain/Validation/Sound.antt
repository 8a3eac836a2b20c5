-- ===== src/Domain/Validation/Sound.antt =====
-- What a scenario that passes validation is like, and that every such scenario passes.
use advanced_roleplaying_fra.Base.{
  String, ◌≡◌, ◌≢◌, refl, true, false, Bool-cases, ◌==◌, eq_iff, leb, ◌≤◌, inl, inr, Option, none,
  some, List, [], ◌∷◌, map, any, any-none, All, OneOf, Distinct, All-weaken, Result, ok, err,
  for_each, for_each-eq-ok, >>-eq-ok, ensure-eq-ok, arith, any-OneOf, sym,
}
use advanced_roleplaying_fra.Base.Int.{pos, negsuc, in_range, InRange}
use advanced_roleplaying_fra.Domain.Ids.{EntityKey}
use advanced_roleplaying_fra.Domain.Scenario.{Scenario, Npc, Faction, Quest, Secret, ClockTemplate}
use advanced_roleplaying_fra.Domain.Validation.{
  DomainValidationError, reject_seen, reject_duplicates, check_clock_template, check_faction,
  location_key, check_initial_location, validate_scenario,
}

abbrev pub TemplateWithin : ClockTemplate → Type 0
TemplateWithin clock = clock.current ≤ clock.max

abbrev pub StandingWithin : Faction → Type 0
StandingWithin faction = InRange (negsuc 99) (pos 100) faction.initial_standing

-- An NPC that starts at a location starts at one of the list.
abbrev pub StartsAt : List EntityKey → Option EntityKey → Type 0
StartsAt location_ids none = Unit
StartsAt location_ids (some location_id) = OneOf location_id location_ids

-- No two entities of a kind share an id, clocks start within their maximum, factions from -100 to
-- 100, and NPCs at locations of the scenario.
pub record IsSound (scenario : Scenario) : Type 0 where
  pub locations : Distinct (map location_key scenario.locations)
  pub npcs : Distinct (map (λ (npc : Npc). npc.id) scenario.npcs)
  pub factions : Distinct (map (λ (faction : Faction). faction.id) scenario.factions)
  pub quests : Distinct (map (λ (quest : Quest). quest.id) scenario.quests)
  pub secrets : Distinct (map (λ (secret : Secret). secret.id) scenario.secrets)
  pub clocks : Distinct (map (λ (clock : ClockTemplate). clock.id) scenario.clocks)
  pub clocks_within : All TemplateWithin scenario.clocks
  pub standings_within : All StandingWithin scenario.factions
  pub starts :
      All
        (λ (npc : Npc). StartsAt (map location_key scenario.locations) npc.initial_location_id)
        scenario.npcs

unequal : (a k : String) → (a == k) ≡ false → a ≢ k
unequal a k h e = ground (arith, eq_iff a k)

abbrev Unseen : List EntityKey → EntityKey → Type 0
Unseen seen id = All (λ other. other ≢ id) seen

reject_seen_sound :
    (entity : String) (seen ids : List EntityKey)
    → reject_seen entity seen ids ≡ ok tt
    → Distinct ids × All (Unseen seen) ids
reject_seen_sound entity seen [] h = (tt, tt)
reject_seen_sound entity seen (id ∷ ids) h = elim (Bool-cases (any (λ other. other == id) seen)) [
  | inl again ↦
      let stuck : err (DomainValidationError.duplicate_id entity id) ≡ ok tt = rw again at h in cc
  | inr new ↦
      let (distinct, unseen) = reject_seen_sound entity (id ∷ seen) ids (rw new at h) in
      (
        (All-weaken ids (λ j u. u.0) unseen, distinct),
        (
          any-none id (λ other. other == id) (λ x. unequal x id) seen new,
          All-weaken ids (λ j u. u.1) unseen,
        ),
      )
]

any-Unseen :
    (seen : List EntityKey) (id : EntityKey)
    → Unseen seen id
    → any (λ other. other == id) seen ≡ false
any-Unseen [] id h = refl
any-Unseen (other ∷ seen) id h = elim (Bool-cases (other == id)) [
  | inl same ↦ absurd (h.0 ((eq_iff other id).0 same))
  | inr differ ↦ rw differ (any-Unseen seen id h.1)
]

reject_seen_complete :
    (entity : String) (seen ids : List EntityKey)
    → Distinct ids
    → All (Unseen seen) ids
    → reject_seen entity seen ids ≡ ok tt
reject_seen_complete entity seen [] d u = refl
reject_seen_complete entity seen (id ∷ ids) d u =
    rw (any-Unseen seen id u.0) (reject_seen_complete entity (id ∷ seen) ids d.1 (both ids d.0 u.1))
  where
    both :
        (js : List EntityKey)
        → All (λ j. id ≢ j) js
        → All (Unseen seen) js
        → All (Unseen (id ∷ seen)) js
    both [] a b = tt
    both (j ∷ js) a b = ((a.0, b.0), both js a.1 b.1)

All-Unseen : (ids : List EntityKey) → All (Unseen []) ids
All-Unseen [] = tt
All-Unseen (id ∷ ids) = (tt, All-Unseen ids)

-- `reject_duplicates` accepts exactly the lists without a duplicate.
reject_duplicates-Distinct :
    (entity : String) (ids : List EntityKey) → reject_duplicates entity ids ≡ ok tt → Distinct ids
unfolding reject_duplicates
reject_duplicates-Distinct entity ids h = (reject_seen_sound entity [] ids h).0

Distinct-reject_duplicates :
    (entity : String) (ids : List EntityKey) → Distinct ids → reject_duplicates entity ids ≡ ok tt
unfolding reject_duplicates
Distinct-reject_duplicates entity ids d = reject_seen_complete entity [] ids d (All-Unseen ids)

clock_sound : (c : ClockTemplate) → check_clock_template c ≡ ok tt → TemplateWithin c
unfolding check_clock_template
clock_sound c h = let test = ensure-eq-ok (leb c.current c.max) _ h in ground arith

faction_sound : (f : Faction) → check_faction f ≡ ok tt → StandingWithin f
unfolding check_faction
faction_sound f h =
    let test = ensure-eq-ok (in_range (negsuc 99) (pos 100) f.initial_standing) _ h in ground arith

start_sound :
    (ids : List EntityKey) (npc_id : EntityKey) (start : Option EntityKey)
    → check_initial_location ids npc_id start ≡ ok tt
    → StartsAt ids start
unfolding check_initial_location
start_sound ids npc_id none h = tt
start_sound ids npc_id (some location_id) h =
    any-OneOf (λ id. id == location_id) location_id (λ x e. (eq_iff x location_id).0 e) ids
      (ensure-eq-ok _ _ h)

OneOf-any : (k : EntityKey) (ids : List EntityKey) → OneOf k ids → any (λ id. id == k) ids ≡ true
OneOf-any k [] h = elim h [ ]
OneOf-any k (id ∷ ids) (inl here) = rw ((eq_iff id k).1 (sym here)) refl
OneOf-any k (id ∷ ids) (inr there) = elim (Bool-cases (id == k)) [
  | inl here ↦ rw here refl
  | inr away ↦ rw away (OneOf-any k ids there)
]

StartsAt-check_initial_location :
    (ids : List EntityKey) (npc_id : EntityKey) (start : Option EntityKey)
    → StartsAt ids start
    → check_initial_location ids npc_id start ≡ ok tt
unfolding check_initial_location
StartsAt-check_initial_location ids npc_id none h = refl
StartsAt-check_initial_location ids npc_id (some location_id) h =
    rw (OneOf-any location_id ids h) refl

for_each-ok :
    {A E : Type 0} (f : A → Result (Unit {0}) E) (xs : List A)
    → All (λ x. f x ≡ ok tt) xs
    → for_each f xs ≡ ok tt
for_each-ok f [] h = refl
for_each-ok f (x ∷ xs) h = rw h.0 (for_each-ok f xs h.1)

clock_complete : (c : ClockTemplate) → TemplateWithin c → check_clock_template c ≡ ok tt
unfolding check_clock_template
clock_complete c h = ground arith

faction_complete : (f : Faction) → StandingWithin f → check_faction f ≡ ok tt
unfolding check_faction
faction_complete f h = ground arith

-- An accepted scenario is sound.
pub validate_scenario-IsSound :
    (scenario : Scenario) → validate_scenario scenario ≡ ok tt → IsSound scenario
unfolding validate_scenario
validate_scenario-IsSound scenario h =
    let (locations, h1) = >>-eq-ok _ _ h in
    let (npcs, h2) = >>-eq-ok _ _ h1 in
    let (factions, h3) = >>-eq-ok _ _ h2 in
    let (quests, h4) = >>-eq-ok _ _ h3 in
    let (secrets, h5) = >>-eq-ok _ _ h4 in
    let (clocks, h6) = >>-eq-ok _ _ h5 in
    let (within, h7) = >>-eq-ok _ _ h6 in
    let (standings, starts) = >>-eq-ok _ _ h7 in
    record {
      locations = reject_duplicates-Distinct "location" _ locations;
      npcs = reject_duplicates-Distinct "npc" _ npcs;
      factions = reject_duplicates-Distinct "faction" _ factions;
      quests = reject_duplicates-Distinct "quest" _ quests;
      secrets = reject_duplicates-Distinct "secret" _ secrets;
      clocks = reject_duplicates-Distinct "clock" _ clocks;
      clocks_within = All-weaken _ clock_sound (for_each-eq-ok _ _ within);
      standings_within = All-weaken _ faction_sound (for_each-eq-ok _ _ standings);
      starts =
          All-weaken _
            (λ (npc : Npc).
              start_sound (map location_key scenario.locations) npc.id npc.initial_location_id)
            (for_each-eq-ok _ _ starts);
    }

-- Every sound scenario is accepted.
pub IsSound-validate_scenario :
    (scenario : Scenario) → IsSound scenario → validate_scenario scenario ≡ ok tt
unfolding validate_scenario
IsSound-validate_scenario scenario h =
    rw
      (
        Distinct-reject_duplicates "location" _ h.locations,
        Distinct-reject_duplicates "npc" _ h.npcs,
        Distinct-reject_duplicates "faction" _ h.factions,
        Distinct-reject_duplicates "quest" _ h.quests,
        Distinct-reject_duplicates "secret" _ h.secrets,
        Distinct-reject_duplicates "clock" _ h.clocks,
        for_each-ok check_clock_template scenario.clocks
            (All-weaken _ clock_complete h.clocks_within),
        for_each-ok check_faction scenario.factions
            (All-weaken _ faction_complete h.standings_within),
      )
      (for_each-ok _ scenario.npcs (
        All-weaken _
          (λ (npc : Npc).
            StartsAt-check_initial_location (map location_key scenario.locations) npc.id
              npc.initial_location_id)
          h.starts))
