-- ===== src/Engine/Projection/Mentions.antt =====
-- The entities that a turn is said to have changed, said by its delta.
use mathlib.Core.List.{append_assoc, append-nil}
use advanced_roleplaying_fra.Base.{
  ℕ, zero, suc, ◌-◌, String, ◌≡◌, ◌≢◌, refl, sym, ap, ◌∙◌, subst, arith, false, Option, none, some,
  List, [], ◌∷◌, ◌++◌, map, length, push, any, keep, filter_map, update_first, foldl, All, OneOf,
  Distinct, Bool-cases, inl, inr, ◌==◌, eq_iff, map-push, map-update_first,
}
use advanced_roleplaying_fra.Base.Int.{ℤ}
use advanced_roleplaying_fra.Domain.Ids.{EntityKey}
use advanced_roleplaying_fra.Domain.State.{WorldState, Fact, ActionResolution, ClueState}
use advanced_roleplaying_fra.Domain.Delta.{WorldStateDelta, ActionResolutionChange, ClueChange}
use advanced_roleplaying_fra.Domain.Visible.{EntityRef}
use advanced_roleplaying_fra.Engine.Validated.{ValidatedWorldStateDelta}
use advanced_roleplaying_fra.Engine.Targets.{faction_of, quest_of, clock_of}
use advanced_roleplaying_fra.Engine.Validation.Npcs.{npc_of}
use advanced_roleplaying_fra.Engine.Reducer.Records.{generated_id, add_action_resolution}
use advanced_roleplaying_fra.Engine.Reducer.Player.{change_clues, put_clue}
use advanced_roleplaying_fra.Engine.Reducer.Apply.{apply}
use advanced_roleplaying_fra.Engine.Reducer.Parts.{apply-eq-parts}
use advanced_roleplaying_fra.Engine.Reducer.Numbering.{learned_fact, numbered, length-push}
use advanced_roleplaying_fra.Engine.Projection.Changed.{
  drop, take_last, is_discovered, relationship_ref, recent_actions, recent_clues, changed_entities,
}
use advanced_roleplaying_fra.Engine.Projection.Unique.{ref_to}
use advanced_roleplaying_fra.Engine.Projection.Loops.{
  MentionsPlayer, MentionsLocation, changed_entities-Runs,
}
use advanced_roleplaying_fra.Engine.Projection.Recent.{
  take_last-append, take_last-all, recent_facts-added,
}

-- The ids of new action resolutions, numbered on from those that there are.
abbrev pub action_ids : ℤ → ℕ → List ActionResolutionChange → List EntityKey
action_ids version count [] = []
action_ids version count (change ∷ rest) =
    generated_id "action" version count ∷ action_ids version (suc count) rest

abbrev pub discovered_id : ClueChange → Option EntityKey
discovered_id (ClueChange.discovered clue_id text secrets conditions visible reason) = some clue_id
discovered_id (ClueChange.visibility_changed clue_id visible reason) = none

-- The ids of the clues that the delta discovers.
abbrev pub discovered_ids : WorldStateDelta → List EntityKey
discovered_ids delta = filter_map discovered_id delta.clue_changes

abbrev pub clue_key : ClueState → EntityKey
clue_key clue = clue.id

abbrev action_key : ActionResolution → EntityKey
action_key resolution = resolution.id

module _ {A : Type 0} where
  drop-map : (view : A → String) (n : ℕ) (xs : List A) → map view (drop n xs) ≡ drop n (map view xs)
  drop-map view zero xs = refl
  drop-map view (suc n) [] = refl
  drop-map view (suc n) (x ∷ xs) = drop-map view n xs

  length-map : (view : A → String) (xs : List A) → length (map view xs) ≡ length xs
  length-map view [] = refl
  length-map view (x ∷ xs) = ap suc (length-map view xs)

  -- The keys of the last elements, where the keys of all are some old ones and the new ones.
  take_last-keys :
      (view : A → String) (n : ℕ) (xs : List A) (old new : List String)
      → map view xs ≡ old ++ new
      → length new ≡ n
      → map view (take_last n xs) ≡ new
  take_last-keys view n xs old new keys size =
      drop-map view (length xs - n) xs
      ∙ ap (λ k. drop (k - n) (map view xs)) (sym (length-map view xs))
      ∙ ap (take_last n) keys
      ∙ take_last-append n old new (omega (arith, size))
      ∙ ap (λ k. take_last k new) (sym size)
      ∙ take_last-all new

  All-map :
      (view : A → String) (P : String → Type 0) (xs : List A)
      → All (λ x. P (view x)) xs
      → All P (map view xs)
  All-map view P [] h = tt
  All-map view P (x ∷ xs) h = (h.0, All-map view P xs h.1)

length-action_ids :
    (version : ℤ) (count : ℕ) (changes : List ActionResolutionChange)
    → length (action_ids version count changes) ≡ length changes
length-action_ids version count [] = refl
length-action_ids version count (change ∷ rest) =
    ap suc (length-action_ids version (suc count) rest)

-- Each action resolution is appended under the next id.
action_ids-foldl :
    (version : ℤ) (resolutions : List ActionResolution) (changes : List ActionResolutionChange)
    → map action_key (foldl (add_action_resolution version) resolutions changes)
      ≡ map action_key resolutions ++ action_ids version (length resolutions) changes
unfolding add_action_resolution
action_ids-foldl version resolutions [] = sym (append-nil (map action_key resolutions))
action_ids-foldl version resolutions
      (ActionResolutionChange.recorded intent stakes outcome consequence visible clocks reason
        ∷ rest) =
    let made : ActionResolution = record {
      id = generated_id "action" version (length resolutions);
      intent = intent;
      stakes = stakes;
      outcome = outcome;
      consequence = consequence;
      visible_to_player = visible;
      linked_clock_ids = clocks;
    } in
    action_ids-foldl version (push resolutions made) rest
    ∙ ap (λ keys. keys ++ action_ids version (length (push resolutions made)) rest)
        (map-push action_key resolutions made)
    ∙ ap (λ n. push (map action_key resolutions) made.id ++ action_ids version n rest)
        (length-push resolutions made)
    ∙ append_assoc (map action_key resolutions) (made.id ∷ [])
        (action_ids version (suc (length resolutions)) rest)

-- A clue whose id is new is appended.
put_clue-new :
    (clue : ClueState) (clues : List ClueState) (rest : List EntityKey)
    → Distinct (map clue_key clues ++ clue.id ∷ rest)
    → put_clue clue clues ≡ push clues clue
unfolding put_clue
put_clue-new clue clues rest distinct = rw (absent clues distinct) refl
  where
    heads :
        (k : EntityKey) (keys : List EntityKey)
        → All (λ y. k ≢ y) (keys ++ clue.id ∷ rest)
        → k ≢ clue.id
    heads k [] h = h.0
    heads k (x ∷ keys) h = heads k keys h.1

    absent :
        (clues : List ClueState)
        → Distinct (map clue_key clues ++ clue.id ∷ rest)
        → any (λ (existing : ClueState). existing.id == clue.id) clues ≡ false
    absent [] h = refl
    absent (x ∷ clues) h = elim (Bool-cases (x.id == clue.id)) [
      | inl here ↦ absurd (heads x.id (map clue_key clues) h.0 ((eq_iff x.id clue.id).0 here))
      | inr there ↦ rw there (absent clues h.1)
    ]

-- Where all discovered ids are new, the discovered clues are appended in order.
clue_ids-foldl :
    (clues : List ClueState) (changes : List ClueChange)
    → Distinct (map clue_key clues ++ filter_map discovered_id changes)
    → map clue_key (foldl change_clues clues changes)
      ≡ map clue_key clues ++ filter_map discovered_id changes
unfolding change_clues
clue_ids-foldl clues [] distinct = sym (append-nil (map clue_key clues))
clue_ids-foldl clues (ClueChange.discovered clue_id text secrets conditions visible reason ∷ rest)
      distinct =
    let clue : ClueState = record {
      id = clue_id;
      text = text;
      linked_secret_ids = secrets;
      satisfied_reveal_conditions = conditions;
      visible_to_player = visible;
    } in
    let later = filter_map discovered_id rest in
    let shift : push (map clue_key clues) clue_id ++ later ≡ map clue_key clues ++ clue_id ∷ later =
      append_assoc (map clue_key clues) (clue_id ∷ []) later in
    let keys : map clue_key (push clues clue) ≡ push (map clue_key clues) clue_id =
      map-push clue_key clues clue in
    rw (put_clue-new clue clues later distinct) (
      clue_ids-foldl (push clues clue) rest (rw (keys, shift) distinct)
      ∙ ap (λ k. k ++ later) keys
      ∙ shift)
clue_ids-foldl clues (ClueChange.visibility_changed clue_id visible reason ∷ rest) distinct =
    let shown =
      update_first (λ (clue : ClueState). clue.id == clue_id)
        (λ (clue : ClueState). record clue { visible_to_player = visible }) clues in
    let keys : map clue_key shown ≡ map clue_key clues =
      map-update_first clue_key (λ (clue : ClueState). clue.id == clue_id)
        (λ (clue : ClueState). record clue { visible_to_player = visible }) (λ x. refl) clues in
    clue_ids-foldl shown rest (rw keys distinct) ∙ ap (λ k. k ++ filter_map discovered_id rest) keys

length-discovered :
    (changes : List ClueChange)
    → length (filter_map discovered_id changes) ≡ length (keep is_discovered changes)
length-discovered [] = refl
length-discovered (ClueChange.discovered clue_id text secrets conditions visible reason ∷ rest) =
    ap suc (length-discovered rest)
length-discovered (ClueChange.visibility_changed clue_id visible reason ∷ rest) =
    length-discovered rest

recent_actions-ids :
    (state : WorldState) (validated : ValidatedWorldStateDelta)
    → map action_key (recent_actions (apply state validated) validated.inner)
      ≡ action_ids state.version
          (length state.action_resolutions)
          validated.inner.action_resolution_changes
recent_actions-ids state validated =
    let changes = validated.inner.action_resolution_changes in
    rw (apply-eq-parts state validated) (
      take_last-keys action_key (length changes) _ (map action_key state.action_resolutions)
        (action_ids state.version (length state.action_resolutions) changes)
        (action_ids-foldl state.version state.action_resolutions changes)
        (length-action_ids state.version (length state.action_resolutions) changes))

recent_clues-ids :
    (state : WorldState) (validated : ValidatedWorldStateDelta)
    → Distinct (map clue_key state.clues ++ discovered_ids validated.inner)
    → map clue_key (recent_clues (apply state validated) validated.inner)
      ≡ discovered_ids validated.inner
recent_clues-ids state validated distinct =
    let changes = validated.inner.clue_changes in
    rw (apply-eq-parts state validated) (
      take_last-keys clue_key (length (keep is_discovered changes)) _ (map clue_key state.clues)
        (discovered_ids validated.inner) (clue_ids-foldl state.clues changes distinct)
        (length-discovered changes))

-- What a delta names is among the references.
pub record Mentions (state : WorldState) (delta : WorldStateDelta) (refs : List EntityRef)
    : Type 0 where
  pub npcs : All (λ c. OneOf (ref_to "npc" (npc_of c)) refs) delta.npc_changes
  pub factions : All (λ c. OneOf (ref_to "faction" (faction_of c)) refs) delta.faction_changes
  pub quests : All (λ c. OneOf (ref_to "quest" (quest_of c)) refs) delta.quest_changes
  pub clocks : All (λ c. OneOf (ref_to "clock" (clock_of c)) refs) delta.clock_changes
  pub relationships :
      All (λ c. OneOf (ref_to "relationship" (relationship_ref c)) refs) delta.relationship_changes
  pub actions :
      All
        (λ id. OneOf (ref_to "action_resolution" id) refs)
        (action_ids state.version (length state.action_resolutions) delta.action_resolution_changes)
  pub player : MentionsPlayer delta.player_changes refs
  pub location : MentionsLocation delta.location_change refs

-- After a turn, these are listed as changed: every NPC, faction, quest, clock and relationship that
-- the delta names, every action resolution that it adds, by the id that the reducer gives it, the
-- player where it changes, and the location to which the delta moves.
pub changed_entities-Mentions :
    (state : WorldState) (validated : ValidatedWorldStateDelta)
    → Mentions state validated.inner (changed_entities (apply state validated) validated)
changed_entities-Mentions state validated =
    let runs = changed_entities-Runs (apply state validated) validated in
    let refs = changed_entities (apply state validated) validated in
    record {
      npcs = runs.npcs;
      factions = runs.factions;
      quests = runs.quests;
      clocks = runs.clocks;
      relationships = runs.relationships;
      actions =
          subst (All (λ id. OneOf (ref_to "action_resolution" id) refs))
            (recent_actions-ids state validated)
            (All-map action_key (λ id. OneOf (ref_to "action_resolution" id) refs) _ runs.actions);
      player = runs.player;
      location = runs.location;
    }

-- After a turn in which no NPC gains knowledge, and whose discovered clues have ids that are all
-- new and different, every fact that the delta adds and every clue that it discovers is listed as
-- changed. The ids of the old clues differ too.
pub changed_entities-new :
    (state : WorldState) (validated : ValidatedWorldStateDelta)
    → filter_map learned_fact validated.inner.npc_changes ≡ []
    → Distinct (map clue_key state.clues ++ discovered_ids validated.inner)
    → All
        (λ (fact : Fact).
          OneOf (ref_to "fact" fact.id) (changed_entities (apply state validated) validated))
        (numbered state.version (length state.facts) validated.inner.facts_to_add)
      × All
          (λ id. OneOf (ref_to "clue" id) (changed_entities (apply state validated) validated))
          (discovered_ids validated.inner)
changed_entities-new state validated nothing distinct =
    let runs = changed_entities-Runs (apply state validated) validated in
    let refs = changed_entities (apply state validated) validated in
    (
      subst (All (λ (fact : Fact). OneOf (ref_to "fact" fact.id) refs))
          (recent_facts-added state validated nothing) runs.facts,
      subst (All (λ id. OneOf (ref_to "clue" id) refs)) (recent_clues-ids state validated distinct)
          (All-map clue_key (λ id. OneOf (ref_to "clue" id) refs) _ runs.clues),
    )
