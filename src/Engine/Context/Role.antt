-- ===== src/Engine/Context/Role.antt =====
-- crates/engine/src/context.rs: `BasicRoleIdentityActivator` and `BasicReasoningStyleOptimizer`,
-- which choose who speaks and in which manner, and `NpcStatus::can_act` of
-- crates/domain/src/scenario.rs.
use advanced_roleplaying_fra.Base.{
  Bool, true, false, Option, none, some, [], ◌∷◌, ◌==◌, find, if◌then◌else◌,
}
use advanced_roleplaying_fra.Domain.Ids.{EntityKey}
use advanced_roleplaying_fra.Domain.Scenario.{Scenario, Npc, NpcStatus}
use advanced_roleplaying_fra.Domain.State.{WorldState, NpcState, SceneReasoningStyle}
use advanced_roleplaying_fra.Engine.Context.{RoleActivationContext, ReasoningStyleDirective}

abbrev pub can_act : NpcStatus → Bool
can_act NpcStatus.active = true
can_act NpcStatus.injured = true
can_act NpcStatus.unknown = true
can_act _ = false

-- `world_state.npcs.iter().find(|state| state.npc_id == npc.id)`.
abbrev pub runtime_of : WorldState → Npc → Option NpcState
runtime_of world_state npc = find (λ (state : NpcState). state.npc_id == npc.id) world_state.npcs

abbrev pub status_or : NpcStatus → Option NpcState → NpcStatus
status_or initial none = initial
status_or initial (some state) = state.status

abbrev pub runtime_status : WorldState → Npc → NpcStatus
runtime_status world_state npc = status_or npc.initial_status (runtime_of world_state npc)

abbrev pub npc_named : Scenario → Option EntityKey → Option Npc
npc_named scenario none = none
npc_named scenario (some id) = find (λ (npc : Npc). npc.id == id) scenario.npcs

abbrev pub npc_role : Npc → RoleActivationContext
npc_role npc = record {
  active_role_name = some npc.name;
  emotion_now = some npc.role_identity.core_emotion;
  motivation_now = some npc.role_identity.motivation;
  knowledge_boundaries = npc.role_identity.boundaries;
  forbidden_moves =
      "do not reveal GM-only secrets without justified discovery"
      ∷ "do not use knowledge this role does not have" ∷ [];
  speech_constraints = npc.role_identity.speech_style ∷ [];
}

abbrev pub narrator_role : RoleActivationContext
narrator_role = record {
  active_role_name = none;
  emotion_now = none;
  motivation_now = some "adjudicate consequences while preserving world consistency";
  knowledge_boundaries =
      "GM-only facts may shape foreshadowing but must not be revealed early" ∷ [];
  forbidden_moves = "do not directly overwrite world state" ∷ "do not expose hidden reasoning" ∷ [];
  speech_constraints = "immersive storyteller narration" ∷ [];
}

abbrev pub role_for : WorldState → Option Npc → RoleActivationContext
role_for world_state none = narrator_role
role_for world_state (some npc) =
    if can_act (runtime_status world_state npc) then npc_role npc else narrator_role

unfoldable pub activate : Scenario → WorldState → SceneReasoningStyle → RoleActivationContext
activate scenario world_state scene_style =
    role_for world_state (npc_named scenario world_state.active_speaker_id)

unfoldable pub directive_for : SceneReasoningStyle → ReasoningStyleDirective
directive_for SceneReasoningStyle.political_negotiation = record {
  style = SceneReasoningStyle.political_negotiation;
  priorities =
      "track leverage" ∷ "preserve faction interests" ∷ "show public and private consequences" ∷ [];
  avoid = "instant loyalty change" ∷ "generic exposition" ∷ "ignoring reputation" ∷ [];
  visible_response_shape = "immersive dialogue plus visible social consequence";
}
directive_for SceneReasoningStyle.tactical_combat = record {
  style = SceneReasoningStyle.tactical_combat;
  priorities = "clear action resolution" ∷ "enemy intent" ∷ "stakes beyond player HP" ∷ [];
  avoid =
      "vague cinematic fog" ∷ "denying established powers" ∷ "one power solving every stake" ∷ [];
  visible_response_shape = "crisp action resolution with external stakes";
}
directive_for SceneReasoningStyle.mystery_investigation = record {
  style = SceneReasoningStyle.mystery_investigation;
  priorities = "clue discipline" ∷ "partial reveals" ∷ "player-known vs GM-only facts" ∷ [];
  avoid =
      "full mystery reveal" ∷ "answers without discovery" ∷ "contradicting established clues" ∷ [];
  visible_response_shape = "evidence-focused discovery response";
}
directive_for SceneReasoningStyle.rules_adjudication = record {
  style = SceneReasoningStyle.rules_adjudication;
  priorities = "concise ruling" ∷ "fairness" ∷ "clear options" ∷ [];
  avoid = "long lore monologues" ∷ "arbitrary hidden restrictions" ∷ "mid-scene rule changes" ∷ [];
  visible_response_shape = "clear ruling with consequences";
}
directive_for style = record {
  style = style;
  priorities =
      "NPC motivation" ∷ "relationship memory" ∷ "speech style" ∷ "what the NPC knows" ∷ [];
  avoid = "generic assistant advice" ∷ "exposition dumps" ∷ "revealing secrets too early" ∷ [];
  visible_response_shape = "immersive dialogue or narration";
}
