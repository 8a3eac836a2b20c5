-- ===== src/Persistence/Store/Handover.antt =====
-- What a turn that is stored hands on to the next one of its session.
use mathlib.Core.List.{append_assoc, append-nil}
use advanced_roleplaying_fra.Base.{
  ℕ, zero, suc, ◌≤◌, ◌≡◌, ◌≢◌, ◌⊎◌, refl, sym, ap, ◌∙◌, arith, Bool, true, false, Option, none,
  List, [], ◌∷◌, ◌++◌, take, keep, nat_eq, nat_eq_iff, keep-append, keep-eq, Bool-cases,
  Option-cases, Result, ok, err, inl, inr,
}
use advanced_roleplaying_fra.Base.Table.{get, insert, get-insert, or_empty, extend_at}
use advanced_roleplaying_fra.Domain.Ids.{Uuid}
use advanced_roleplaying_fra.Domain.State.{WorldState}
use advanced_roleplaying_fra.Domain.Session.{MessageRecord, MessageRole, TimelineEntry}
use advanced_roleplaying_fra.Engine.Validated.{ValidatedWorldStateDelta}
use advanced_roleplaying_fra.Engine.Context.Build.{rev}
use advanced_roleplaying_fra.Engine.Context.Forget.{rev-keep}
use advanced_roleplaying_fra.Engine.Pipeline.Types.{LoadedTurnState, TurnPipelineError}
use advanced_roleplaying_fra.Engine.Pipeline.Laws.{KeepsTurns, HandsOn, last_six, is_spoken}
use advanced_roleplaying_fra.Persistence.Store.{InMemoryApplicationStore, is_not_system}
use advanced_roleplaying_fra.Persistence.Store.Laws.{
  append_world_events-kept, replaced, get-inserted, in_memory_turns-KeepsTurns,
}
use advanced_roleplaying_fra.Persistence.Store.Turns.{
  recent, load_turn_state, kept_raw, persist_successful_turn, in_memory_turns,
}

module _ {A : Type 0} where
  rev-append : (xs ys : List A) → rev (xs ++ ys) ≡ rev ys ++ rev xs
  rev-append [] ys = sym (append-nil (rev ys))
  rev-append (x ∷ xs) ys =
      ap (λ r. r ++ x ∷ []) (rev-append xs ys) ∙ append_assoc (rev ys) (rev xs) (x ∷ [])

  rev-rev : (xs : List A) → rev (rev xs) ≡ xs
  rev-rev [] = refl
  rev-rev (x ∷ xs) = rev-append (rev xs) (x ∷ []) ∙ ap (λ r. x ∷ r) (rev-rev xs)

  take-take : (n m : ℕ) (xs : List A) → n ≤ m → take n (take m xs) ≡ take n xs
  take-take zero m xs h = refl
  take-take (suc n) zero xs h = absurd (omega arith)
  take-take (suc n) (suc m) [] h = refl
  take-take (suc n) (suc m) (x ∷ xs) h = ap (λ r. x ∷ r) (take-take n m xs (omega arith))

  -- What is cut off behind the first n elements is not among the first n.
  take-append_take :
      (n m : ℕ) (front xs : List A) → n ≤ m → take n (front ++ take m xs) ≡ take n (front ++ xs)
  take-append_take n m [] xs h = take-take n m xs h
  take-append_take zero m (x ∷ front) xs h = refl
  take-append_take (suc n) m (x ∷ front) xs h =
      ap (λ r. x ∷ r) (take-append_take n m front xs (omega arith))

module _ {Json : Type 0} where
  abbrev spoken : MessageRecord Json → Bool
  spoken message = is_not_system message.role

  is_spoken-eq : (message : MessageRecord Json) → is_spoken message ≡ spoken message
  is_spoken-eq message = by_role message.role
    where
      by_role :
          (role : MessageRole)
          → (elim role [ MessageRole.system ↦ false | _ ↦ true ]) ≡ is_not_system role
      by_role MessageRole.user = refl
      by_role MessageRole.assistant = refl
      by_role MessageRole.system = refl

  -- The recent messages of a longer list are found from those of the shorter one.
  recent-append :
      (old new : List (MessageRecord Json))
      → recent (old ++ new) ≡ last_six (recent old ++ keep spoken new)
  recent-append old new =
      let past = keep spoken (rev old) in
      let front = rev (keep spoken new) in
      let whole : keep spoken (rev (old ++ new)) ≡ front ++ past =
        ap (keep spoken) (rev-append old new)
        ∙ keep-append spoken (rev new) (rev old)
        ∙ ap (λ r. r ++ past) (sym (rev-keep spoken new)) in
      let cut : rev (recent old ++ keep spoken new) ≡ front ++ take 6 past =
        rev-append (recent old) (keep spoken new) ∙ ap (λ r. front ++ r) (rev-rev (take 6 past)) in
      ap (λ r. rev (take 6 r)) whole
      ∙ ap rev (sym (take-append_take 6 6 front past (omega arith)))
      ∙ ap (λ r. rev (take 6 r)) (sym cut)

  abbrev messages_of : Result (LoadedTurnState Json) TurnPipelineError → List (MessageRecord Json)
  messages_of (ok loaded) = loaded.recent_messages
  messages_of (err error) = []

  loaded_messages :
      (store : InMemoryApplicationStore Json) (session_id : Uuid) (loaded : LoadedTurnState Json)
      → load_turn_state store session_id ≡ ok loaded
      → recent (or_empty (get session_id store.messages)) ≡ loaded.recent_messages
  unfolding load_turn_state
  loaded_messages store session_id loaded h = elim (Option-cases (get session_id store.sessions)) [
    | inl absent ↦ absurd (let stuck = rw absent at h in cc)
    | inr (session, one) ↦ elim (Option-cases (get session.scenario_id store.scenarios)) [
      | inl absent ↦ absurd (let stuck = rw (one, absent) at h in cc)
      | inr (scenario, two) ↦ elim (Option-cases (get session_id store.world_states)) [
        | inl absent ↦ absurd (let stuck = rw (one, two, absent) at h in cc)
        | inr (world_state, three) ↦
            ap (λ (r : Result (LoadedTurnState Json) TurnPipelineError). messages_of r)
              (rw (one, two, three) at h)
      ]
    ]
  ]

  kept_raw-raw :
      (store_raw : Bool) (message : MessageRecord Json)
      → (raw : Option Json) × ((raw ≡ message.raw_provider_output) ⊎ (raw ≡ none))
        × (kept_raw store_raw message ≡ record message { raw_provider_output = raw })
  kept_raw-raw true message = (message.raw_provider_output, inl refl, refl)
  kept_raw-raw false message = (none, inr refl, refl)

  handed_on :
      (ids : ℕ → Uuid) (user_message assistant_message : MessageRecord Json)
      (delta : ValidatedWorldStateDelta) (updated : WorldState)
      (store : InMemoryApplicationStore Json) (loaded : LoadedTurnState Json)
      → load_turn_state store updated.session_id ≡ ok loaded
      → (raw : Option Json) × ((raw ≡ assistant_message.raw_provider_output) ⊎ (raw ≡ none))
        × (load_turn_state
              ((persist_successful_turn ids user_message assistant_message delta updated store).0)
              updated.session_id
            ≡ ok (record loaded {
              world_state = updated;
              recent_messages = last_six (
                  loaded.recent_messages
                  ++ keep is_spoken
                      (user_message ∷ record assistant_message { raw_provider_output = raw } ∷ []));
            }))
  unfolding persist_successful_turn extend_at
  handed_on ids user_message assistant_message delta updated store loaded h =
      let (raw, source, is_kept) = kept_raw-raw store.store_raw_provider_output assistant_message in
      let kept = kept_raw store.store_raw_provider_output assistant_message in
      let new = user_message ∷ kept ∷ [] in
      let old = or_empty (get updated.session_id store.messages) in
      let messages = insert updated.session_id (old ++ new) store.messages in
      let now : recent (or_empty (get updated.session_id messages))
          ≡ last_six (
              loaded.recent_messages
              ++ keep is_spoken
                  (user_message ∷ record assistant_message { raw_provider_output = raw } ∷ [])) =
        ap (λ found. recent (or_empty found))
          (get-inserted updated.session_id (old ++ new) store.messages)
        ∙ recent-append old new
        ∙ ap (λ before. last_six (before ++ keep spoken new))
            (loaded_messages store updated.session_id loaded h)
        ∙ ap (λ added. last_six (loaded.recent_messages ++ added))
            (sym (keep-eq is_spoken spoken is_spoken-eq new))
        ∙ ap
            (λ answer.
              last_six (loaded.recent_messages ++ keep is_spoken (user_message ∷ answer ∷ [])))
            is_kept in
      (
        raw,
        source,
        append_world_events-kept ids 0 updated.session_id updated.version
              (delta.inner).event_log_entries _ updated.session_id
            ∙ replaced store updated messages _ loaded h
            ∙ ap
                (λ recent_messages.
                  ok (record loaded { world_state = updated; recent_messages = recent_messages }))
                now,
      )

  elsewhere :
      (store : InMemoryApplicationStore Json) (session_id other : Uuid) (updated : WorldState)
      (messages : List (MessageRecord Json)) (timeline : List (ℕ × List TimelineEntry))
      → nat_eq session_id other ≡ false
      → load_turn_state
          (record store {
            messages = insert session_id messages store.messages;
            timeline_entries = timeline;
            world_states = insert session_id updated store.world_states;
          })
          other
        ≡ load_turn_state store other
  unfolding load_turn_state
  elsewhere store session_id other updated messages timeline differ =
      rw
        (
          get-insert other session_id messages store.messages,
          get-insert other session_id updated store.world_states,
          differ,
        )
        refl

  others :
      (ids : ℕ → Uuid) (user_message assistant_message : MessageRecord Json)
      (delta : ValidatedWorldStateDelta) (updated : WorldState)
      (store : InMemoryApplicationStore Json) (other : Uuid)
      → other ≢ updated.session_id
      → load_turn_state
          ((persist_successful_turn ids user_message assistant_message delta updated store).0)
          other
        ≡ load_turn_state store other
  unfolding persist_successful_turn extend_at
  others ids user_message assistant_message delta updated store other apart =
      append_world_events-kept ids 0 updated.session_id updated.version
        (delta.inner).event_log_entries _ other
      ∙ elsewhere store updated.session_id other updated _ _ (differs (Bool-cases _))
    where
      differs :
          (nat_eq updated.session_id other ≡ true) ⊎ (nat_eq updated.session_id other ≡ false)
          → nat_eq updated.session_id other ≡ false
      differs (inl same) = absurd (apart (sym ((nat_eq_iff updated.session_id other).0 same)))
      differs (inr differ) = differ

  -- The in-memory store keeps what turns load from being touched by events and never fails to store.
  -- A turn that is stored hands on to the next one of its session its world state and the last six
  -- messages, its own two behind those that it was given, without those of the system; the answer
  -- may have lost the provider's raw output. What other sessions load stays.
  pub in_memory_turns-HandsOn :
      KeepsTurns (in_memory_turns {Json = Json}) × HandsOn (in_memory_turns {Json = Json})
  in_memory_turns-HandsOn =
      (in_memory_turns-KeepsTurns, record { turns_handed_on = handed_on; others_kept = others })
