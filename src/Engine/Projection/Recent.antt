-- ===== src/Engine/Projection/Recent.antt =====
-- Which facts a turn is said to have changed: the last ones of the state, as many as the delta has
-- in `facts_to_add`. The knowledge that NPCs gain is appended behind those.
use advanced_roleplaying_fra.Base.{
  ℕ, suc, ◌+◌, ◌-◌, ◌≤◌, ◌≡◌, refl, sym, ap, ◌∙◌, List, [], ◌∷◌, ◌++◌, arith, length, length-append,
  filter_map,
}
use mathlib.Core.List.{append_assoc, append-nil}
use advanced_roleplaying_fra.Base.Int.{ℤ}
use advanced_roleplaying_fra.Domain.State.{WorldState}
use advanced_roleplaying_fra.Domain.Delta.{FactToAdd}
use advanced_roleplaying_fra.Engine.Validated.{ValidatedWorldStateDelta}
use advanced_roleplaying_fra.Engine.Reducer.Records.{generated_id}
use advanced_roleplaying_fra.Engine.Reducer.Apply.{apply}
use advanced_roleplaying_fra.Engine.Reducer.Numbering.{fact_of, learned_fact, numbered, facts-apply}
use advanced_roleplaying_fra.Engine.Projection.Changed.{drop, take_last, recent_facts}

module _ {A : Type 0} where
  drop-append : (xs ys : List A) (k : ℕ) → drop (length xs + k) (xs ++ ys) ≡ drop k ys
  drop-append [] ys k = let same : 0 + k ≡ k = omega arith in ap (λ n. drop n ys) same
  drop-append (x ∷ xs) ys k =
      let next : suc (length xs) + k ≡ suc (length xs + k) = omega arith in
      ap (λ n. drop n (x ∷ xs ++ ys)) next ∙ drop-append xs ys k

  pub take_last-append :
      (n : ℕ) (xs ys : List A) → n ≤ length ys → take_last n (xs ++ ys) ≡ take_last n ys
  take_last-append n xs ys h =
      let split : length (xs ++ ys) - n ≡ length xs + (length ys - n) =
        rw (length-append xs ys) (omega arith) in
      ap (λ k. drop k (xs ++ ys)) split ∙ drop-append xs ys (length ys - n)

  pub take_last-all : (xs : List A) → take_last (length xs) xs ≡ xs
  take_last-all xs =
      let nothing : length xs - length xs ≡ 0 = omega arith in ap (λ k. drop k xs) nothing

length-numbered :
    (version : ℤ) (count : ℕ) (new : List FactToAdd)
    → length (numbered version count new) ≡ length new
length-numbered version count [] = refl
length-numbered version count (fact ∷ rest) = ap suc (length-numbered version (suc count) rest)

numbered-append :
    (version : ℤ) (count : ℕ) (first second : List FactToAdd)
    → numbered version count (first ++ second)
      ≡ numbered version count first ++ numbered version (count + length first) second
numbered-append version count [] second =
    let same : count ≡ count + 0 = omega arith in ap (λ n. numbered version n second) same
numbered-append version count (fact ∷ first) second =
    let next : suc count + length first ≡ count + suc (length first) = omega arith in
    ap (λ r. fact_of (generated_id "fact" version count) fact ∷ r)
      (numbered-append version (suc count) first second
        ∙ ap (λ n. numbered version (suc count) first ++ numbered version n second) next)

-- Where no NPC gains knowledge, the facts reported after a turn are exactly the facts it added.
pub recent_facts-added :
    (state : WorldState) (validated : ValidatedWorldStateDelta)
    → filter_map learned_fact validated.inner.npc_changes ≡ []
    → recent_facts (apply state validated) validated.inner
      ≡ numbered state.version (length state.facts) validated.inner.facts_to_add
recent_facts-added state validated nothing =
    let added = validated.inner.facts_to_add in
    let made = numbered state.version (length state.facts) added in
    let size : length made ≡ length added =
      length-numbered state.version (length state.facts) added in
    rw (facts-apply state validated, nothing, append-nil added)
      (take_last-append (length added) state.facts made (omega (arith, size))
        ∙ rw (sym size) (take_last-all made))

-- Where NPCs gain at least as many facts as the delta adds, the facts reported after a turn are
-- among those that NPCs gained, and no added fact is reported.
pub recent_facts-learned :
    (state : WorldState) (validated : ValidatedWorldStateDelta)
    → length validated.inner.facts_to_add
      ≤ length (filter_map learned_fact validated.inner.npc_changes)
    → recent_facts (apply state validated) validated.inner
      ≡ take_last (length validated.inner.facts_to_add) (
          numbered state.version
            (length state.facts + length validated.inner.facts_to_add)
            (filter_map learned_fact validated.inner.npc_changes))
recent_facts-learned state validated enough =
    let added = validated.inner.facts_to_add in
    let learned = filter_map learned_fact validated.inner.npc_changes in
    let count = length state.facts in
    let made = numbered state.version (count + length added) learned in
    let size : length made ≡ length learned =
      length-numbered state.version (count + length added) learned in
    rw (facts-apply state validated, numbered-append state.version count added learned)
      (ap (take_last (length added))
          (sym (append_assoc state.facts (numbered state.version count added) made))
        ∙ take_last-append (length added) (state.facts ++ numbered state.version count added) made
            (omega (arith, size, enough)))
