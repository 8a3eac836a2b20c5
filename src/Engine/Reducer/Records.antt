-- ===== src/Engine/Reducer/Records.antt =====
-- crates/engine/src/reducer.rs: the scene, the speaker, the summary, and the append-only records
-- of memories, facts and action resolutions, whose ids the reducer makes up.
use Prim.Native.String.{◌++◌}
use advanced_roleplaying_fra.Base.{
  ℕ, ◌+◌, String, Option, none, some, List, ◌==◌, push, length, update_first,
}
use advanced_roleplaying_fra.Base.Int.{ℤ, pos, add_i64}
use advanced_roleplaying_fra.Base.Decimal.{decimal, decimal_ℤ}
use advanced_roleplaying_fra.Domain.State.{
  WorldState, Fact, FactSource, MemoryEntry, ActionResolution,
}
use advanced_roleplaying_fra.Domain.Delta.{
  SceneChange, ActiveSpeakerChange, SummaryUpdate, MemoryChange, FactToAdd, ActionResolutionChange,
}

-- `format!("{prefix}-{}-{}", version + 1, count + 1)`.
unfoldable pub generated_id : String → ℤ → ℕ → String
unfolding add_i64 decimal decimal_ℤ
generated_id prefix version count =
    prefix ++ ("-" ++ (decimal_ℤ (add_i64 version (pos 1)) ++ ("-" ++ decimal (count + 1))))

unfoldable pub apply_scene_change : WorldState → Option SceneChange → WorldState
apply_scene_change state none = state
apply_scene_change state (some change) = record state { current_scene = change.scene }

unfoldable pub apply_active_speaker_change : WorldState → Option ActiveSpeakerChange → WorldState
apply_active_speaker_change state none = state
apply_active_speaker_change state (some change) = record state {
  active_speaker_id = change.speaker_id;
}

unfoldable pub apply_summary_update : WorldState → Option SummaryUpdate → WorldState
apply_summary_update state none = state
apply_summary_update state (some update) = record state { summary = update.summary }

unfoldable pub change_memories : ℤ → List MemoryEntry → MemoryChange → List MemoryEntry
change_memories version memories
      (MemoryChange.added text visibility importance related_entity_ids reason) =
    push memories (record {
      id = generated_id "memory" version (length memories);
      text = text;
      visibility = visibility;
      importance = importance;
      related_entity_ids = related_entity_ids;
      source_message_id = none;
    })
change_memories version memories (MemoryChange.importance_changed memory_id importance reason) =
    update_first (λ memory. memory.id == memory_id)
      (λ memory. record memory { importance = importance }) memories

unfoldable pub apply_memory_change : WorldState → MemoryChange → WorldState
unfolding change_memories
apply_memory_change state change = record state {
  memories = change_memories state.version state.memories change;
}

-- The id that the reducer gives to the next fact.
abbrev pub next_fact_id : ℤ → List Fact → String
next_fact_id version facts = generated_id "fact" version (length facts)

unfoldable pub add_fact : ℤ → List Fact → FactToAdd → List Fact
add_fact version facts fact = push facts (record {
  id = next_fact_id version facts;
  text = fact.text;
  visibility = fact.visibility;
  known_by = fact.known_by;
  source = FactSource.turn;
  reveal_conditions = fact.reveal_conditions;
  related_secret_ids = fact.related_secret_ids;
  reveal_condition_satisfied = fact.reveal_condition_satisfied;
})

unfoldable pub apply_fact_to_add : WorldState → FactToAdd → WorldState
unfolding add_fact
apply_fact_to_add state fact = record state { facts = add_fact state.version state.facts fact }

unfoldable pub add_action_resolution :
    ℤ → List ActionResolution → ActionResolutionChange → List ActionResolution
add_action_resolution version action_resolutions
      (ActionResolutionChange.recorded intent stakes outcome consequence visible_to_player
        linked_clock_ids reason) =
    push action_resolutions (record {
      id = generated_id "action" version (length action_resolutions);
      intent = intent;
      stakes = stakes;
      outcome = outcome;
      consequence = consequence;
      visible_to_player = visible_to_player;
      linked_clock_ids = linked_clock_ids;
    })

unfoldable pub apply_action_resolution_change : WorldState → ActionResolutionChange → WorldState
unfolding add_action_resolution
apply_action_resolution_change state change = record state {
  action_resolutions = add_action_resolution state.version state.action_resolutions change;
}
