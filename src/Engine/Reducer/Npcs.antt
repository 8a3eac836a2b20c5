-- ===== src/Engine/Reducer/Npcs.antt =====
-- crates/engine/src/reducer.rs: changes of NPCs and factions.
use advanced_roleplaying_fra.Base.{String, none, some, List, [], ◌∷◌, ◌==◌, push, update_first}
use advanced_roleplaying_fra.Base.Int.{ℤ, add_i32}
use advanced_roleplaying_fra.Domain.Ids.{EntityKey}
use advanced_roleplaying_fra.Domain.State.{WorldState, Fact, FactSource, NpcState, FactionState}
use advanced_roleplaying_fra.Domain.Delta.{NpcChange, FactionChange}
use advanced_roleplaying_fra.Engine.Reducer.Records.{next_fact_id}

-- `if let Some(npc) = state.npcs.iter_mut().find(..) { .. }`: an unknown NPC changes nothing.
unfoldable pub update_npc : List NpcState → EntityKey → (NpcState → NpcState) → List NpcState
update_npc npcs npc_id f = update_first (λ npc. npc.npc_id == npc_id) f npcs

-- What an NPC change does to the NPCs, where `fact_id` is the id of the fact that
-- `KnowledgeAdded` creates.
unfoldable pub change_npcs : String → List NpcState → NpcChange → List NpcState
unfolding update_npc
change_npcs fact_id npcs (NpcChange.attitude_changed npc_id attitude reason) =
    update_npc npcs npc_id (λ npc. record npc { attitude_to_player = some attitude })
change_npcs fact_id npcs (NpcChange.knowledge_added npc_id fact visibility reason) =
    update_npc npcs npc_id (λ npc. record npc { known_facts = push npc.known_facts fact_id })
change_npcs fact_id npcs (NpcChange.status_changed npc_id status reason) =
    update_npc npcs npc_id (λ npc. record npc { status = status })
change_npcs fact_id npcs (NpcChange.location_changed npc_id location_id reason) =
    update_npc npcs npc_id (λ npc. record npc { location_id = some location_id })
change_npcs fact_id npcs (NpcChange.note_added npc_id note reason) =
    update_npc npcs npc_id (λ npc. record npc { notes = push npc.notes note })
change_npcs fact_id npcs (NpcChange.visibility_changed npc_id visible_to_player reason) =
    update_npc npcs npc_id (λ npc. record npc { visible_to_player = visible_to_player })
change_npcs fact_id npcs (NpcChange.availability_changed npc_id availability reason) =
    update_npc npcs npc_id (λ npc. record npc { availability = availability })
change_npcs fact_id npcs (NpcChange.intent_changed npc_id intent reason) =
    update_npc npcs npc_id (λ npc. record npc { current_intent = intent })
change_npcs fact_id npcs
      (NpcChange.offscreen_action_recorded npc_id intent result visible_to_player reason) =
    update_npc npcs npc_id λ npc. record npc {
      offscreen_actions =
          push npc.offscreen_actions
            (record { intent = intent; result = result; visible_to_player = visible_to_player });
    }

-- What an NPC change does to the facts: `KnowledgeAdded` creates one, known to that NPC.
unfoldable pub learn_fact : ℤ → List Fact → NpcChange → List Fact
learn_fact version facts (NpcChange.knowledge_added npc_id fact visibility reason) =
    push facts (record {
      id = next_fact_id version facts;
      text = fact;
      visibility = visibility;
      known_by = npc_id ∷ [];
      source = FactSource.turn;
      reveal_conditions = [];
      related_secret_ids = [];
      reveal_condition_satisfied = none;
    })
learn_fact version facts _ = facts

unfoldable pub apply_npc_change : WorldState → NpcChange → WorldState
unfolding change_npcs learn_fact
apply_npc_change state change = record state {
  facts = learn_fact state.version state.facts change;
  npcs = change_npcs (next_fact_id state.version state.facts) state.npcs change;
}

unfoldable pub update_faction :
    List FactionState → EntityKey → (FactionState → FactionState) → List FactionState
update_faction factions faction_id f =
    update_first (λ faction. faction.faction_id == faction_id) f factions

unfoldable pub change_factions : List FactionState → FactionChange → List FactionState
unfolding update_faction
change_factions factions (FactionChange.standing_changed faction_id standing_delta reason) =
    update_faction factions faction_id
      λ faction. record faction { standing = add_i32 faction.standing standing_delta }
change_factions factions (FactionChange.goal_revealed faction_id goal reason) =
    update_faction factions faction_id
      λ faction. record faction { revealed_goals = push faction.revealed_goals goal }
change_factions factions (FactionChange.public_note_added faction_id note reason) =
    update_faction factions faction_id
      λ faction. record faction { public_notes = push faction.public_notes note }
change_factions factions (FactionChange.hidden_note_added faction_id note reason) =
    update_faction factions faction_id
      λ faction. record faction { hidden_notes = push faction.hidden_notes note }
change_factions factions (FactionChange.pressure_changed faction_id delta public reason) =
    update_faction factions faction_id
      λ faction. record faction { pressure = add_i32 faction.pressure delta }
change_factions factions (FactionChange.public_pressure_note_added faction_id note reason) =
    update_faction factions faction_id
      λ faction. record faction { public_pressure_notes = push faction.public_pressure_notes note }
change_factions factions (FactionChange.hidden_pressure_note_added faction_id note reason) =
    update_faction factions faction_id
      λ faction. record faction { hidden_pressure_notes = push faction.hidden_pressure_notes note }

unfoldable pub apply_faction_change : WorldState → FactionChange → WorldState
unfolding change_factions
apply_faction_change state change = record state {
  factions = change_factions state.factions change;
}
