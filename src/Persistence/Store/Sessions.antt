-- ===== src/Persistence/Store/Sessions.antt =====
-- What becomes of a session: opened, removed, and freed of a provider that is deleted.
use mathlib.Core.Option
use advanced_roleplaying_fra.Base.{
  ◌≡◌, ◌≢◌, ◌⊎◌, refl, sym, ap, ◌∙◌, String, true, false, Option, some, none, Option-cases, inl,
  inr, List, [], ◌∷◌, nat_eq, nat_eq_iff, Bool-cases, ok, err, All, if◌then◌else◌, not, keep,
}
use advanced_roleplaying_fra.Base.Table.{get, get-insert, get-remove, get-map_values, extend_at}
use advanced_roleplaying_fra.Domain.Ids.{Uuid}
use advanced_roleplaying_fra.Domain.Scenario.{Scenario}
use advanced_roleplaying_fra.Domain.Session.{SessionRecord, ProviderRecord}
use advanced_roleplaying_fra.Engine.Pipeline.Types.{TurnPipelineError}
use advanced_roleplaying_fra.Persistence.Initial.{initial_world_state}
use advanced_roleplaying_fra.Persistence.Intro.{opening_intro_message}
use advanced_roleplaying_fra.Persistence.Store.{
  InMemoryApplicationStore, insert_session, remove_session, delete_provider, without_provider,
}
use advanced_roleplaying_fra.Persistence.Store.Turns.{load_turn_state}

abbrev pub provider_of : Option SessionRecord → Option Uuid
provider_of none = none
provider_of (some session) = session.provider_id

without_provider-cases :
    (id : Uuid) (session : SessionRecord)
    → (without_provider id session ≡ session) × (session.provider_id ≢ some id)
      ⊎ ((without_provider id session).provider_id ≡ none) × (session.provider_id ≡ some id)
without_provider-cases id session = elim (Option-cases session.provider_id) [
  | inl free ↦ inl (rw free refl, λ e. let stuck : none ≡ some id = rw free at e in cc)
  | inr (used, e) ↦ elim (Bool-cases (nat_eq used id)) [
    | inl same ↦ inr (rw (e, same) refl, e ∙ ap some ((nat_eq_iff used id).0 same))
    | inr differ ↦ inl (
      rw (e, differ) refl,
      λ f.
          let other : some used ≡ some id = rw e at f in
          let equal : used ≡ id = cc in
          let stuck : nat_eq used id ≡ true = (nat_eq_iff used id).1 equal in cc,
    )
  ]
]

freed :
    (id : Uuid) (session : Option SessionRecord)
    → provider_of (Option.map (without_provider id) session) ≢ some id
freed id none e = cc
freed id (some session) e = elim (without_provider-cases id session) [
  | inl (same, free) ↦ free (ap (λ (s : SessionRecord). s.provider_id) (sym same) ∙ e)
  | inr (gone, used) ↦ let stuck : none ≡ some id = sym gone ∙ e in cc
]

left :
    (id : Uuid) (session : Option SessionRecord)
    → (provider_of session ≡ some id) ⊎ (Option.map (without_provider id) session ≡ session)
left id none = inr refl
left id (some session) = elim (without_provider-cases id session) [
  | inl (same, free) ↦ inr (ap some same)
  | inr (gone, used) ↦ inl used
]

module _ {Json : Type 0} where
  -- A session that is removed cannot be loaded any more, and every other session loads as before.
  remove_session-load_turn_state :
      (id other : Uuid) (store : InMemoryApplicationStore Json)
      → load_turn_state ((remove_session id store).0) other
        ≡ (if nat_eq id other then err TurnPipelineError.not_found else load_turn_state store other)
  unfolding remove_session load_turn_state
  remove_session-load_turn_state id other store = elim (Bool-cases (nat_eq id other)) [
    | inl same ↦ rw (get-remove other id store.sessions, same) refl
    | inr differ ↦
        rw
          (
            get-remove other id store.sessions,
            get-remove other id store.world_states,
            get-remove other id store.messages,
            differ,
          )
          refl
  ]

  -- A session that is opened on a scenario of the store loads that scenario, its initial world state
  -- and no message, since the opening is a message of the system.
  pub insert_session-load_turn_state :
      (id message_id scenario_id : Uuid) (title : String) (store : InMemoryApplicationStore Json)
      (scenario : Scenario)
      → get scenario_id store.scenarios ≡ some scenario
      → get id store.messages ≡ none
      → load_turn_state ((insert_session id message_id scenario_id title store).0) id
        ≡ ok (record {
          scenario = scenario;
          world_state = initial_world_state id scenario;
          recent_messages = [];
        })
  unfolding insert_session load_turn_state extend_at opening_intro_message
  insert_session-load_turn_state id message_id scenario_id title store scenario found fresh =
      rw
        (
          found,
          fresh,
          get-insert id id _ store.sessions,
          get-insert id id _ store.world_states,
          get-insert id id _ store.messages,
          (nat_eq_iff id id).1 refl,
          found,
        )
        refl

  no_provider :
      (id : Uuid) (providers : List (ProviderRecord Json))
      → All
          (λ (p : ProviderRecord Json). nat_eq p.id id ≡ false)
          (keep (λ (p : ProviderRecord Json). not (nat_eq p.id id)) providers)
  no_provider id [] = tt
  no_provider id (p ∷ providers) = elim (Bool-cases (nat_eq p.id id)) [
    | inl same ↦ rw same (no_provider id providers)
    | inr differ ↦ rw differ (differ, no_provider id providers)
  ]

  -- A provider that is deleted is in no list and in use by no session, and a session that uses
  -- another provider, or none, stays as it was.
  pub delete_provider-frees :
      (id k : Uuid) (store : InMemoryApplicationStore Json)
      → (provider_of (get k (delete_provider id store).sessions) ≢ some id)
        × ((provider_of (get k store.sessions) ≡ some id)
            ⊎ (get k (delete_provider id store).sessions ≡ get k store.sessions))
        × All
            (λ (p : ProviderRecord Json). nat_eq p.id id ≡ false)
            (delete_provider id store).providers
  unfolding delete_provider
  delete_provider-frees id k store = rw (get-map_values (without_provider id) k store.sessions) (
    freed id (get k store.sessions),
    left id (get k store.sessions),
    no_provider id store.providers,
  )
