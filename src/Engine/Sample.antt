-- ===== src/Engine/Sample.antt =====
-- A small scenario, its world and one turn's delta, on which the theorems are tried out.
use advanced_roleplaying_fra.Base.{String, true, false, none, some, [], ◌∷◌}
use advanced_roleplaying_fra.Base.Int.{pos, negsuc}
use advanced_roleplaying_fra.Domain.Scenario.{Scenario, ScenarioType, NpcStatus}
use advanced_roleplaying_fra.Domain.State.{
  WorldState, FactVisibility, FactSource, MatchMode, NpcAvailability, QuestStatus,
}
use advanced_roleplaying_fra.Domain.Delta.{
  WorldStateDelta, NpcChange, FactionChange, QuestChange, ClockChange, RelationshipChange,
  ClueChange,
}
use advanced_roleplaying_fra.Engine.Validated.{ValidatedWorldStateDelta}

abbrev pub harbor : Scenario
harbor = record {
  id = 7;
  title = "Harbor";
  scenario_type = ScenarioType.adventure;
  setting = "a port";
  tone = "grim";
  rules = [];
  locations = record { id = "pier"; name = "Pier"; description = "wet"; visible = true } ∷ [];
  factions =
      record {
        id = "guild";
        name = "Guild";
        description = "merchants";
        faction_identity = record {
          public_goal = "trade";
          hidden_goal = none;
          values = [];
          fears = [];
          methods = [];
        };
        initial_standing = pos 95;
      }
      ∷ [];
  npcs =
      record {
        id = "mara";
        name = "Mara";
        description = "captain";
        role_identity = record {
          core_emotion = "hope";
          motivation = "home";
          worldview = "kind";
          fear = none;
          desire = none;
          speech_style = "short";
          boundaries = [];
          values = [];
        };
        stats = none;
        initial_status = NpcStatus.active;
        initial_location_id = some "pier";
        initial_visible_to_player = true;
      }
      ∷ record {
        id = "oren";
        name = "Oren";
        description = "smuggler";
        role_identity = record {
          core_emotion = "greed";
          motivation = "gold";
          worldview = "bleak";
          fear = none;
          desire = none;
          speech_style = "long";
          boundaries = [];
          values = [];
        };
        stats = none;
        initial_status = NpcStatus.dead;
        initial_location_id = none;
        initial_visible_to_player = false;
      }
      ∷ [];
  quests =
      record {
        id = "cargo";
        title = "Cargo";
        description = "find";
        objectives = [];
        visible = true;
      }
      ∷ [];
  secrets =
      record {
        id = "owner";
        text = "mara owns the ship";
        reveal_conditions = record { id = "ledger"; description = "the ledger is found" } ∷ [];
      }
      ∷ [];
  clocks = record { id = "tide"; title = "Tide"; current = 2; max = 6; consequence = "flood" } ∷ [];
}

abbrev pub harbor_world : WorldState
harbor_world = record {
  session_id = 3;
  scenario_id = 7;
  version = pos 4;
  current_location_id = some "pier";
  current_scene = none;
  active_speaker_id = none;
  facts =
      record {
        id = "owner";
        text = "mara owns the ship";
        visibility = FactVisibility.gm_only;
        known_by = [];
        source = FactSource.scenario;
        reveal_conditions = record { id = "ledger"; description = "the ledger is found" } ∷ [];
        related_secret_ids = [];
        reveal_condition_satisfied = none;
      }
      ∷ record {
        id = "fact-4-2";
        text = "rain falls";
        visibility = FactVisibility.player_known;
        known_by = [];
        source = FactSource.turn;
        reveal_conditions = [];
        related_secret_ids = [];
        reveal_condition_satisfied = none;
      }
      ∷ [];
  npcs =
      record {
        npc_id = "mara";
        status = NpcStatus.active;
        visible_to_player = true;
        location_id = some "pier";
        attitude_to_player = none;
        known_facts = "owner" ∷ [];
        notes = [];
        availability = NpcAvailability.present;
        current_intent = none;
        offscreen_actions = [];
      }
      ∷ record {
        npc_id = "oren";
        status = NpcStatus.dead;
        visible_to_player = false;
        location_id = none;
        attitude_to_player = none;
        known_facts = [];
        notes = [];
        availability = NpcAvailability.unavailable;
        current_intent = none;
        offscreen_actions = [];
      }
      ∷ [];
  factions =
      record {
        faction_id = "guild";
        standing = pos 0;
        public_notes = [];
        hidden_notes = [];
        revealed_goals = [];
        pressure = pos 0;
        public_pressure_notes = [];
        hidden_pressure_notes = [];
      }
      ∷ [];
  quests =
      record {
        quest_id = "cargo";
        status = QuestStatus.available;
        completed_objectives = [];
        visible = true;
      }
      ∷ [];
  clocks =
      record {
        id = "tide";
        title = "Tide";
        current = 2;
        max = 6;
        consequence = "flood";
        visible_to_player = true;
      }
      ∷ [];
  action_resolutions = [];
  relationships = [];
  inventory = [];
  player = record { traits = []; goals = []; conditions = []; resources = []; gm_notes = [] };
  clues = [];
  memories = [];
  summary = none;
  recent_events = [];
}

-- The ledger is found, so the player learns who owns the ship; other things move as well.
abbrev pub ledger_found : WorldStateDelta
ledger_found = record {
  scene_change = none;
  active_speaker_change = some (record { speaker_id = some "mara"; reason = "she talks" });
  facts_to_add =
      record {
        text = "So mara owns the ship.";
        visibility = FactVisibility.player_known;
        known_by = [];
        reveal_conditions = [];
        reason = "the ledger says so";
        related_secret_ids = "owner" ∷ [];
        reveal_condition_satisfied = some (record { id = "ledger"; mode = MatchMode.exact });
      }
      ∷ [];
  action_resolution_changes = [];
  npc_changes =
      NpcChange.knowledge_added "mara" "the player knows" FactVisibility.npc_known "she saw it"
      ∷ NpcChange.status_changed "oren" NpcStatus.missing "the body is gone"
      ∷ [];
  faction_changes = FactionChange.standing_changed "guild" (negsuc 9) "an insult" ∷ [];
  quest_changes = QuestChange.objective_completed "cargo" "search" "found it" ∷ [];
  clock_changes = ClockChange.advanced "tide" (pos 3) "time passes" ∷ [];
  relationship_changes = RelationshipChange.changed "mara" "player" (pos 5) "trust grows" ∷ [];
  inventory_changes = [];
  player_changes = [];
  clue_changes =
      ClueChange.discovered "clue-1" "a ledger" ("owner" ∷ [])
        (record { id = "ledger"; mode = MatchMode.exact } ∷ []) true "in the hold"
      ∷ [];
  location_change = some (record { location_id = "pier"; reason = "they stay" });
  summary_update = none;
  memory_changes = [];
  event_log_entries = "the ledger is found" ∷ [];
}

abbrev pub accepted_ledger : ValidatedWorldStateDelta
accepted_ledger = record { inner = ledger_found }

-- Lower case for texts that have no other letters.
abbrev pub lower : String → String
lower text = text
