-- ===== src/Engine/Turn/Evidence.antt =====
-- What proves to the player that a secret may be revealed, said by the clues alone.
use advanced_roleplaying_fra.Base.{
  String, ◌≡◌, refl, sym, subst, inl, inr, Bool, true, false, ◌||◌, Option, none, some, List, [],
  ◌∷◌, All, OneOf, any, all, find, find_sound, Bool-cases, &&-eq-true, ◌==◌, eq_iff,
}
use advanced_roleplaying_fra.Domain.Ids.{EntityKey}
use advanced_roleplaying_fra.Domain.State.{WorldState, ClueState, ConditionRef, MatchMode}
use advanced_roleplaying_fra.Domain.Delta.{WorldStateDelta, ClueChange}
use advanced_roleplaying_fra.Engine.Validation.Checks.{has_id}
use advanced_roleplaying_fra.Engine.Validation.Secrets.{
  proves, proof_visible_in_world, clue_proves, change_proves, proof_visible_in_delta,
  same_condition,
}
use advanced_roleplaying_fra.Engine.Validation.References.{has_id-OneOf}

-- A clue is linked to all the secrets, and satisfies the condition.
abbrev pub Supports : List EntityKey → ConditionRef → List EntityKey → List ConditionRef → Type 0
Supports related_secret_ids condition linked_secret_ids satisfied =
    All (λ id. OneOf id linked_secret_ids) related_secret_ids × OneOf condition satisfied

-- A clue that the player sees supports the reveal: one of the world, one that the delta discovers,
-- or one of the world that the delta shows to the player.
pub data Evidence (world : WorldState) (delta : WorldStateDelta)
    (related_secret_ids : List EntityKey) (condition : ConditionRef) : Type 0 where
  in_world :
      (clue : ClueState)
      → OneOf clue world.clues
      → clue.visible_to_player ≡ true
      → Supports related_secret_ids condition clue.linked_secret_ids
          clue.satisfied_reveal_conditions
      → Evidence world delta related_secret_ids condition
  discovered_now :
      (clue_id text : String) (linked_secret_ids : List EntityKey) (satisfied : List ConditionRef)
      (reason : String)
      → OneOf
          (ClueChange.discovered clue_id text linked_secret_ids satisfied true reason)
          delta.clue_changes
      → Supports related_secret_ids condition linked_secret_ids satisfied
      → Evidence world delta related_secret_ids condition
  shown_now :
      (clue : ClueState) (reason : String)
      → OneOf clue world.clues
      → OneOf (ClueChange.visibility_changed clue.id true reason) delta.clue_changes
      → Supports related_secret_ids condition clue.linked_secret_ids
          clue.satisfied_reveal_conditions
      → Evidence world delta related_secret_ids condition

any-found :
    {A : Type 0} (p : A → Bool) (xs : List A)
    → any p xs ≡ true
    → (x : A) × OneOf x xs × (p x ≡ true)
any-found p [] h = cc
any-found p (x ∷ xs) h = elim (Bool-cases (p x)) [
  | inl here ↦ (x, inl refl, here)
  | inr there ↦ let (y, stands, passes) = any-found p xs (rw there at h) in (y, inr stands, passes)
]

all-All :
    {A : Type 0} (p : A → Bool) (P : A → Type 0)
    → ((x : A) → p x ≡ true → P x)
    → (xs : List A) → all p xs ≡ true
    → All P xs
all-All p P sound [] h = tt
all-All p P sound (x ∷ xs) h =
    let (first, others) = &&-eq-true (p x) (all p xs) h in
    (sound x first, all-All p P sound xs others)

same_mode : (m n : MatchMode) → m ≡ n
same_mode MatchMode.exact MatchMode.exact = refl

same_condition-eq :
    (candidate condition : ConditionRef)
    → same_condition candidate condition ≡ true
    → candidate ≡ condition
same_condition-eq candidate condition h =
    let ids = (eq_iff candidate.id condition.id).0 h in
    λ i. record { id = ids i; mode = same_mode candidate.mode condition.mode i }

proves-Supports :
    (related_secret_ids : List EntityKey) (condition : ConditionRef)
    (linked_secret_ids : List EntityKey) (satisfied : List ConditionRef)
    → proves related_secret_ids condition linked_secret_ids satisfied ≡ true
    → Supports related_secret_ids condition linked_secret_ids satisfied
unfolding proves
proves-Supports related condition linked satisfied h =
    let (links, meets) = &&-eq-true _ _ h in
    let (candidate, stands, same) =
      any-found (λ (c : ConditionRef). same_condition c condition) satisfied meets in
    (
      all-All (has_id linked) (λ id. OneOf id linked) (λ id. has_id-OneOf linked id) related links,
      subst (λ c. OneOf c satisfied) (same_condition-eq candidate condition same) stands,
    )

change_proves-Evidence :
    (world : WorldState) (delta : WorldStateDelta) (related : List EntityKey)
    (condition : ConditionRef) (change : ClueChange)
    → OneOf change delta.clue_changes
    → change_proves world related condition change ≡ true
    → Evidence world delta related condition
unfolding change_proves
change_proves-Evidence world delta related condition
      (ClueChange.discovered clue_id text linked satisfied true reason) stands h =
    discovered_now clue_id text linked satisfied reason stands
      (proves-Supports related condition linked satisfied h)
change_proves-Evidence world delta related condition
      (ClueChange.discovered clue_id text linked satisfied false reason) stands h =
    cc
change_proves-Evidence world delta related condition
      (ClueChange.visibility_changed clue_id false reason) stands h =
    cc
change_proves-Evidence world delta related condition
      (ClueChange.visibility_changed clue_id true reason) stands h =
    from (find (λ (clue : ClueState). clue.id == clue_id) world.clues) refl h
  where
    from :
        (found : Option ClueState)
        → find (λ (clue : ClueState). clue.id == clue_id) world.clues ≡ found
        → clue_proves found related condition ≡ true
        → Evidence world delta related condition
    from none e p = cc
    from (some clue) e p =
        let (same, known) = find_sound (λ (c : ClueState). c.id == clue_id) world.clues e in
        shown_now clue reason known
          (subst (λ id. OneOf (ClueChange.visibility_changed id true reason) delta.clue_changes)
            (sym ((eq_iff clue.id clue_id).0 same)) stands)
          (proves-Supports related condition _ _ p)

pub visible-Evidence :
    (world : WorldState) (delta : WorldStateDelta) (related : List EntityKey)
    (condition : ConditionRef)
    → (proof_visible_in_world world related condition
        || proof_visible_in_delta world delta related condition)
      ≡ true
    → Evidence world delta related condition
unfolding proof_visible_in_world proof_visible_in_delta
visible-Evidence world delta related condition h =
    elim (Bool-cases (proof_visible_in_world world related condition)) [
      | inl seen ↦
          let (clue, stands, both) = any-found _ world.clues seen in
          let (visible, supports) = &&-eq-true _ _ both in
          in_world clue stands visible (proves-Supports related condition _ _ supports)
      | inr unseen ↦
          let (change, stands, shows) =
            any-found (change_proves world related condition) delta.clue_changes (rw unseen at h) in
          change_proves-Evidence world delta related condition change stands shows
    ]
