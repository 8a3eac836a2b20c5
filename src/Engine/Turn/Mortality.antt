-- ===== src/Engine/Turn/Mortality.antt =====
-- No accepted turn makes a dead NPC active.
use mathlib.Core.Option
use advanced_roleplaying_fra.Base.{
  String, ◌≡◌, ◌≢◌, refl, ap, ◌∙◌, inl, inr, Bool, true, false, Option, none, some, List, [], ◌∷◌,
  arith, ◌==◌, eq_iff, Bool-cases, All, ok, foldl, find_key, find_key-update_first, if◌then◌else◌,
}
use advanced_roleplaying_fra.Base.Int.{ℤ}
use advanced_roleplaying_fra.Domain.Ids.{EntityKey}
use advanced_roleplaying_fra.Domain.Scenario.{Scenario, NpcStatus}
use advanced_roleplaying_fra.Domain.State.{WorldState, Fact, NpcState}
use advanced_roleplaying_fra.Domain.Delta.{WorldStateDelta, NpcChange}
use advanced_roleplaying_fra.Domain.Validation.{validate_npc_status_transition}
use advanced_roleplaying_fra.Engine.Validated.{ValidatedWorldStateDelta}
use advanced_roleplaying_fra.Engine.Reducer.Records.{next_fact_id, add_fact}
use advanced_roleplaying_fra.Engine.Reducer.Npcs.{change_npcs, update_npc, learn_fact}
use advanced_roleplaying_fra.Engine.Reducer.Apply.{apply}
use advanced_roleplaying_fra.Engine.Reducer.Parts.{npcs_after, apply-eq-parts}
use advanced_roleplaying_fra.Engine.Validation.Npcs.{
  check_npc_change, check_npc_content, current_status,
}
use advanced_roleplaying_fra.Engine.Validation.Validate.{validate, npc_ids_of, location_ids_of}
use advanced_roleplaying_fra.Engine.Validation.Accepted.{validate-Accepted, validate-inner}
use advanced_roleplaying_fra.Engine.Validation.References.{check_npc_change-parts}

abbrev pub npc_key : NpcState → EntityKey
npc_key npc = npc.npc_id

-- The status of the first NPC state with that id.
abbrev pub status_of : List NpcState → EntityKey → Option NpcStatus
status_of npcs k = Option.map (λ (npc : NpcState). npc.status) (find_key npc_key k npcs)

-- What a change makes of the status of NPC k.
abbrev pub status_after : NpcChange → EntityKey → Option NpcStatus → Option NpcStatus
status_after (NpcChange.status_changed npc_id status reason) k before =
    if npc_id == k then Option.map (λ _. status) before else before
status_after _ k before = before

update_npc-kept :
    (npcs : List NpcState) (j k : EntityKey) (f : NpcState → NpcState)
    → ((x : NpcState) → (f x).npc_id ≡ x.npc_id)
    → ((x : NpcState) → (f x).status ≡ x.status)
    → status_of (update_npc npcs j f) k ≡ status_of npcs k
unfolding update_npc
update_npc-kept npcs j k f key status =
    rw (find_key-update_first npc_key f key k j npcs) (split (j == k) (find_key npc_key k npcs))
  where
    split :
        (b : Bool) (found : Option NpcState)
        → Option.map (λ (x : NpcState). x.status) (if b then Option.map f found else found)
          ≡ Option.map (λ (x : NpcState). x.status) found
    split true none = refl
    split true (some x) = ap some (status x)
    split false found = refl

update_npc-moved :
    (npcs : List NpcState) (j k : EntityKey) (status : NpcStatus)
    → status_of (update_npc npcs j (λ npc. record npc { status = status })) k
      ≡ (if j == k then Option.map (λ _. status) (status_of npcs k) else status_of npcs k)
unfolding update_npc
update_npc-moved npcs j k status =
    rw
      (find_key-update_first npc_key (λ (x : NpcState). record x { status = status }) (λ x. refl) k
        j npcs)
      (ground arith)

status_of-change_npcs :
    (fact_id : String) (npcs : List NpcState) (c : NpcChange) (k : EntityKey)
    → status_of (change_npcs fact_id npcs c) k ≡ status_after c k (status_of npcs k)
unfolding change_npcs
status_of-change_npcs i npcs (NpcChange.status_changed j status reason) k =
    update_npc-moved npcs j k status
status_of-change_npcs i npcs (NpcChange.attitude_changed j attitude reason) k =
    update_npc-kept npcs j k _ (λ x. refl) (λ x. refl)
status_of-change_npcs i npcs (NpcChange.knowledge_added j fact visibility reason) k =
    update_npc-kept npcs j k _ (λ x. refl) (λ x. refl)
status_of-change_npcs i npcs (NpcChange.location_changed j location reason) k =
    update_npc-kept npcs j k _ (λ x. refl) (λ x. refl)
status_of-change_npcs i npcs (NpcChange.note_added j note reason) k =
    update_npc-kept npcs j k _ (λ x. refl) (λ x. refl)
status_of-change_npcs i npcs (NpcChange.visibility_changed j visible reason) k =
    update_npc-kept npcs j k _ (λ x. refl) (λ x. refl)
status_of-change_npcs i npcs (NpcChange.availability_changed j availability reason) k =
    update_npc-kept npcs j k _ (λ x. refl) (λ x. refl)
status_of-change_npcs i npcs (NpcChange.intent_changed j intent reason) k =
    update_npc-kept npcs j k _ (λ x. refl) (λ x. refl)
status_of-change_npcs i npcs (NpcChange.offscreen_action_recorded j intent result visible reason)
      k =
    update_npc-kept npcs j k _ (λ x. refl) (λ x. refl)

-- A change of status that is accepted for an NPC that is dead before the turn is not to `Active`.
accepted-not_active :
    (to_lowercase : String → String) (scenario : Scenario) (world : WorldState)
    (npc_ids location_ids : List EntityKey) (k : EntityKey) (status : NpcStatus) (reason : String)
    → check_npc_change to_lowercase scenario world npc_ids location_ids
        (NpcChange.status_changed k status reason)
      ≡ ok tt
    → status_of world.npcs k ≡ some NpcStatus.dead
    → status ≢ NpcStatus.active
unfolding check_npc_content current_status validate_npc_status_transition
accepted-not_active to_lowercase scenario world npc_ids location_ids k status reason h dead active =
    let (_, _, content) =
      check_npc_change-parts to_lowercase scenario world npc_ids location_ids
        (NpcChange.status_changed k status reason) h in
    ground arith

step-not_active :
    (to_lowercase : String → String) (scenario : Scenario) (world : WorldState)
    (npc_ids location_ids : List EntityKey) (k : EntityKey) (c : NpcChange)
    (before : Option NpcStatus)
    → status_of world.npcs k ≡ some NpcStatus.dead
    → check_npc_change to_lowercase scenario world npc_ids location_ids c ≡ ok tt
    → before ≢ some NpcStatus.active
    → status_after c k before ≢ some NpcStatus.active
step-not_active lower scenario world npc_ids location_ids k
      (NpcChange.status_changed j status reason) before dead h now after =
    elim (Bool-cases (j == k)) [
      | inl here ↦
          let at_k : j ≡ k = (eq_iff j k).0 here in
          accepted-not_active lower scenario world npc_ids location_ids j status reason h
            (ap (status_of world.npcs) at_k ∙ dead) (written before (rw here at after))
      | inr there ↦ now (rw there at after)
    ]
  where
    written :
        (o : Option NpcStatus)
        → Option.map (λ _. status) o ≡ some NpcStatus.active
        → status ≡ NpcStatus.active
    written none e = cc
    written (some x) e = cc
step-not_active lower scenario world npc_ids location_ids k _ before dead h now after = now after

-- Through all changes of the turn its status does not become `Active`.
npcs_after-not_active :
    (to_lowercase : String → String) (scenario : Scenario) (world : WorldState)
    (npc_ids location_ids : List EntityKey) (k : EntityKey)
    → status_of world.npcs k ≡ some NpcStatus.dead
    → (version : ℤ) (changes : List NpcChange) (facts : List Fact) (npcs : List NpcState)
    → All (λ c. check_npc_change to_lowercase scenario world npc_ids location_ids c ≡ ok tt) changes
    → status_of npcs k ≢ some NpcStatus.active
    → status_of (npcs_after version facts npcs changes) k ≢ some NpcStatus.active
npcs_after-not_active lower scenario world npc_ids location_ids k dead version [] facts npcs h now =
    now
npcs_after-not_active lower scenario world npc_ids location_ids k dead version (c ∷ rest) facts npcs
      h now =
    npcs_after-not_active lower scenario world npc_ids location_ids k dead version rest
      (learn_fact version facts c) (change_npcs (next_fact_id version facts) npcs c) h.1
      (rw status_of-change_npcs (
        step-not_active lower scenario world npc_ids location_ids k c (status_of npcs k) dead h.0
          now))

-- An NPC that is dead before an accepted turn is not active after it.
pub apply-not_revived :
    (to_lowercase : String → String) (scenario : Scenario) (world : WorldState)
    (delta : WorldStateDelta) (validated : ValidatedWorldStateDelta) (k : EntityKey)
    → validate to_lowercase scenario world delta ≡ ok validated
    → status_of world.npcs k ≡ some NpcStatus.dead
    → status_of (apply world validated).npcs k ≢ some NpcStatus.active
apply-not_revived to_lowercase scenario world delta validated k h dead =
    let accepted = validate-Accepted to_lowercase scenario world delta validated h in
    let same = validate-inner to_lowercase scenario world delta validated h in
    rw (apply-eq-parts world validated, same)
      (npcs_after-not_active to_lowercase scenario world (npc_ids_of scenario)
        (location_ids_of scenario) k dead world.version delta.npc_changes
        (foldl (add_fact world.version) world.facts delta.facts_to_add) world.npcs accepted.npcs
        (λ active. cc))
