-- ===== src/Engine/Targets.antt =====
-- The entity that a change of a faction, quest or clock names, and the reason that it gives. The
-- validator and the projector match on the changes in the same way.
use advanced_roleplaying_fra.Base.{String}
use advanced_roleplaying_fra.Domain.Ids.{EntityKey}
use advanced_roleplaying_fra.Domain.Delta.{FactionChange, QuestChange, ClockChange}

abbrev pub faction_of : FactionChange → EntityKey
faction_of (FactionChange.standing_changed faction_id standing_delta reason) = faction_id
faction_of (FactionChange.goal_revealed faction_id goal reason) = faction_id
faction_of (FactionChange.public_note_added faction_id note reason) = faction_id
faction_of (FactionChange.hidden_note_added faction_id note reason) = faction_id
faction_of (FactionChange.pressure_changed faction_id delta public reason) = faction_id
faction_of (FactionChange.public_pressure_note_added faction_id note reason) = faction_id
faction_of (FactionChange.hidden_pressure_note_added faction_id note reason) = faction_id

abbrev pub reason_of_faction : FactionChange → String
reason_of_faction (FactionChange.standing_changed faction_id standing_delta reason) = reason
reason_of_faction (FactionChange.goal_revealed faction_id goal reason) = reason
reason_of_faction (FactionChange.public_note_added faction_id note reason) = reason
reason_of_faction (FactionChange.hidden_note_added faction_id note reason) = reason
reason_of_faction (FactionChange.pressure_changed faction_id delta public reason) = reason
reason_of_faction (FactionChange.public_pressure_note_added faction_id note reason) = reason
reason_of_faction (FactionChange.hidden_pressure_note_added faction_id note reason) = reason

abbrev pub quest_of : QuestChange → EntityKey
quest_of (QuestChange.started quest_id reason) = quest_id
quest_of (QuestChange.objective_completed quest_id objective_id reason) = quest_id
quest_of (QuestChange.completed quest_id reason) = quest_id
quest_of (QuestChange.failed quest_id reason) = quest_id

abbrev pub reason_of_quest : QuestChange → String
reason_of_quest (QuestChange.started quest_id reason) = reason
reason_of_quest (QuestChange.objective_completed quest_id objective_id reason) = reason
reason_of_quest (QuestChange.completed quest_id reason) = reason
reason_of_quest (QuestChange.failed quest_id reason) = reason

abbrev pub clock_of : ClockChange → EntityKey
clock_of (ClockChange.advanced clock_id delta reason) = clock_id
clock_of (ClockChange.set_value clock_id value reason) = clock_id
clock_of (ClockChange.visibility_changed clock_id visible_to_player reason) = clock_id

abbrev pub reason_of_clock : ClockChange → String
reason_of_clock (ClockChange.advanced clock_id delta reason) = reason
reason_of_clock (ClockChange.set_value clock_id value reason) = reason
reason_of_clock (ClockChange.visibility_changed clock_id visible_to_player reason) = reason
