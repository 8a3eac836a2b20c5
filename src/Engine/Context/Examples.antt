-- ===== src/Engine/Context/Examples.antt =====
-- The context of a small game.
use advanced_roleplaying_fra.Base.{
  ℕ, ◌≤◌, ◌≡◌, ◌⊎◌, String, some, none, List, [], ◌∷◌, ◌++◌, length, keep,
}
use advanced_roleplaying_fra.Domain.State.{
  MemoryEntry, MemoryVisibility, SceneReasoningStyle, WorldState,
}
use advanced_roleplaying_fra.Engine.Sample.{harbor, harbor_world}
use advanced_roleplaying_fra.Engine.Examples.Scenarios.{harbor-IsSound}
use advanced_roleplaying_fra.Engine.Context.Role.{activate}
use advanced_roleplaying_fra.Engine.Context.Speaker.{SpeaksAs, activate-SpeaksAs}
use advanced_roleplaying_fra.Base.{◌↔◌}
use advanced_roleplaying_fra.Engine.Context.Memories.{is_for, prioritized_memories}
use advanced_roleplaying_fra.Engine.Context.Ranking.{
  IsRanked, SameLevels, prioritized_memories-IsRanked,
}

abbrev memory : String → ℕ → MemoryVisibility → MemoryEntry
memory text importance visibility = record {
  id = text;
  text = text;
  visibility = visibility;
  importance = importance;
  related_entity_ids = [];
  source_message_id = none;
}

abbrev diary : List MemoryEntry
diary =
    memory "the storm" 3 MemoryVisibility.player_known
    ∷ memory "the traitor" 9 MemoryVisibility.gm_only
    ∷ memory "the oath" 8 MemoryVisibility.player_known
    ∷ memory "the song" 3 MemoryVisibility.player_known
    ∷ []

prioritized_memories-IsRanked_example :
    (omitted : List MemoryEntry) × IsRanked
      (prioritized_memories diary MemoryVisibility.player_known 2 ++ omitted)
    × SameLevels
        (prioritized_memories diary MemoryVisibility.player_known 2 ++ omitted)
        (keep (is_for MemoryVisibility.player_known) diary)
    × ((length (prioritized_memories diary MemoryVisibility.player_known 2) ≡ 2)
        ⊎ ((length (prioritized_memories diary MemoryVisibility.player_known 2) ≤ 2)
            × (omitted ≡ [])))
prioritized_memories-IsRanked_example =
    prioritized_memories-IsRanked diary MemoryVisibility.player_known 2

abbrev mara_speaks : WorldState
mara_speaks = record harbor_world { active_speaker_id = some "mara" }

activate-SpeaksAs_example :
    ((activate harbor mara_speaks SceneReasoningStyle.downtime).active_role_name ≡ some "Mara")
    ↔ SpeaksAs harbor mara_speaks "Mara"
activate-SpeaksAs_example =
    activate-SpeaksAs harbor mara_speaks SceneReasoningStyle.downtime "Mara" harbor-IsSound.npcs
      harbor-IsSound.npcs
