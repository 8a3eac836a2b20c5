-- ===== src/Engine/Context/Speaker.antt =====
-- For whom a role is played, said by the lists of NPCs alone.
use advanced_roleplaying_fra.Base.{
  ◌≡◌, ◌≢◌, ◌⊎◌, ◌↔◌, refl, sym, ap, arith, true, Option, none, some, Bool-cases, inl, inr, String,
  All, OneOf, Distinct, map, find_sound, ◌==◌, eq_iff, find_key-at, find_key-none, find_key-absent,
}
use advanced_roleplaying_fra.Domain.Ids.{EntityKey}
use advanced_roleplaying_fra.Domain.Scenario.{Scenario, Npc, NpcStatus}
use advanced_roleplaying_fra.Domain.State.{WorldState, NpcState, SceneReasoningStyle}
use advanced_roleplaying_fra.Engine.Context.Role.{
  can_act, runtime_of, status_or, runtime_status, npc_named, role_for, activate,
}

abbrev pub npc_id : Npc → EntityKey
npc_id npc = npc.id

abbrev pub state_id : NpcState → EntityKey
state_id state = state.npc_id

-- The statuses in which an NPC speaks: not dead, captured, missing, hidden or unconscious.
abbrev pub IsAble : NpcStatus → Type 0
IsAble status =
    (status ≡ NpcStatus.active) ⊎ ((status ≡ NpcStatus.injured) ⊎ (status ≡ NpcStatus.unknown))

-- The status that the world state has for an NPC, or its first one where it has none.
abbrev pub HasStatus : WorldState → Npc → NpcStatus → Type 0
HasStatus world_state npc status =
    ((state : NpcState) × OneOf state world_state.npcs
      × (state.npc_id ≡ npc.id)
      × (state.status ≡ status))
    ⊎ (All (λ (state : NpcState). state.npc_id ≢ npc.id) world_state.npcs
        × (npc.initial_status ≡ status))

-- An NPC of that name is the active speaker, and its status lets it speak.
abbrev pub SpeaksAs : Scenario → WorldState → String → Type 0
SpeaksAs scenario world_state name =
    (npc : Npc) × OneOf npc scenario.npcs
    × (world_state.active_speaker_id ≡ some npc.id)
    × ((status : NpcStatus) × HasStatus world_state npc status × IsAble status)
    × (npc.name ≡ name)

can_act-IsAble : (status : NpcStatus) → can_act status ≡ true → IsAble status
can_act-IsAble NpcStatus.active h = inl refl
can_act-IsAble NpcStatus.injured h = inr (inl refl)
can_act-IsAble NpcStatus.unknown h = inr (inr refl)
can_act-IsAble NpcStatus.dead h = cc
can_act-IsAble NpcStatus.captured h = cc
can_act-IsAble NpcStatus.missing h = cc
can_act-IsAble NpcStatus.hidden h = cc
can_act-IsAble NpcStatus.unconscious h = cc

IsAble-can_act : (status : NpcStatus) → IsAble status → can_act status ≡ true
IsAble-can_act status (inl active) = ap can_act active
IsAble-can_act status (inr (inl injured)) = ap can_act injured
IsAble-can_act status (inr (inr unknown)) = ap can_act unknown

runtime_status-HasStatus :
    (world_state : WorldState) (npc : Npc)
    → HasStatus world_state npc (runtime_status world_state npc)
runtime_status-HasStatus world_state npc = from (runtime_of world_state npc) refl
  where
    from :
        (found : Option NpcState)
        → runtime_of world_state npc ≡ found
        → HasStatus world_state npc (status_or npc.initial_status found)
    from none e = inr (find_key-none state_id npc.id world_state.npcs e, refl)
    from (some state) e =
        let (passes, stands) =
          find_sound (λ (s : NpcState). s.npc_id == npc.id) world_state.npcs e in
        inl (state, stands, (eq_iff state.npc_id npc.id).0 passes, refl)

HasStatus-runtime_status :
    (world_state : WorldState) (npc : Npc) (status : NpcStatus)
    → Distinct (map state_id world_state.npcs)
    → HasStatus world_state npc status
    → runtime_status world_state npc ≡ status
HasStatus-runtime_status world_state npc status distinct (inl (state, stands, same, is)) =
    rw (find_key-at state_id npc.id world_state.npcs state distinct stands same) is
HasStatus-runtime_status world_state npc status distinct (inr (absent, is)) =
    rw (find_key-absent state_id npc.id world_state.npcs absent) is

plays :
    (world_state : WorldState) (speaker : Option Npc) (name : String)
    → (role_for world_state speaker).active_role_name ≡ some name
    → (npc : Npc) × (speaker ≡ some npc)
      × (can_act (runtime_status world_state npc) ≡ true)
      × (npc.name ≡ name)
plays world_state none name h = cc
plays world_state (some npc) name h = elim (Bool-cases (can_act (runtime_status world_state npc))) [
  | inl able ↦ (npc, refl, able, let named : npc.name ≡ name = grind arith in named)
  | inr unable ↦ absurd (grind arith)
]

named :
    (scenario : Scenario) (speaker : Option EntityKey) (npc : Npc)
    → npc_named scenario speaker ≡ some npc
    → OneOf npc scenario.npcs × (speaker ≡ some npc.id)
named scenario none npc h = cc
named scenario (some id) npc h =
    let (passes, stands) = find_sound (λ (n : Npc). n.id == id) scenario.npcs h in
    (stands, ap some (sym ((eq_iff npc.id id).0 passes)))

-- Where no two NPCs share an id, a role is played exactly under the name of the NPC that is the
-- active speaker, where its status in the world state, or its first one, is active, injured or
-- unknown. The dead, captured, missing, hidden and unconscious leave it to the narrator.
pub activate-SpeaksAs :
    (scenario : Scenario) (world_state : WorldState) (scene_style : SceneReasoningStyle)
    (name : String)
    → Distinct (map npc_id scenario.npcs)
    → Distinct (map state_id world_state.npcs)
    → ((activate scenario world_state scene_style).active_role_name ≡ some name)
      ↔ SpeaksAs scenario world_state name
unfolding activate
activate-SpeaksAs scenario world_state scene_style name npcs states = (sound, complete)
  where
    sound :
        (role_for world_state (npc_named scenario world_state.active_speaker_id)).active_role_name
          ≡ some name
        → SpeaksAs scenario world_state name
    sound h =
        let (npc, found, able, called) = plays world_state _ name h in
        let (stands, speaks) = named scenario world_state.active_speaker_id npc found in
        let status = runtime_status world_state npc in
        (
          npc,
          stands,
          speaks,
          (status, runtime_status-HasStatus world_state npc, can_act-IsAble status able),
          called,
        )

    complete :
        SpeaksAs scenario world_state name
        → (role_for world_state (npc_named scenario world_state.active_speaker_id)).active_role_name
          ≡ some name
    complete (npc, stands, speaks, (status, has, able), called) =
        let here = HasStatus-runtime_status world_state npc status states has in
        rw
          (
            speaks,
            find_key-at npc_id npc.id scenario.npcs npc npcs stands refl,
            here,
            IsAble-can_act status able,
          )
          (ap some called)
