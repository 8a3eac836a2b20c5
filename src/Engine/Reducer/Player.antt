-- ===== src/Engine/Reducer/Player.antt =====
-- crates/engine/src/reducer.rs: changes of the player character, relationships and clues.
use advanced_roleplaying_fra.Base.{
  ◌==◌, ◌&&◌, Bool, not, List, [], push, update_first, any, keep, if◌then◌else◌,
}
use advanced_roleplaying_fra.Base.Int.{pos, add_i32}
use advanced_roleplaying_fra.Domain.Ids.{EntityKey}
use advanced_roleplaying_fra.Domain.State.{
  WorldState, PlayerCharacterState, RelationshipState, ClueState,
}
use advanced_roleplaying_fra.Domain.Delta.{PlayerChange, RelationshipChange, ClueChange}

unfoldable pub change_player : PlayerCharacterState → PlayerChange → PlayerCharacterState
change_player player
      (PlayerChange.trait_added trait_id label description visible_to_player reason) =
    record player {
      traits = push player.traits (record {
        id = trait_id;
        label = label;
        description = description;
        visible_to_player = visible_to_player;
      });
    }
change_player player
      (PlayerChange.goal_added goal_id label description progress visible_to_player reason) =
    record player {
      goals = push player.goals (record {
        id = goal_id;
        label = label;
        description = description;
        progress = progress;
        visible_to_player = visible_to_player;
      });
    }
change_player player (PlayerChange.goal_progressed goal_id delta reason) = record player {
  goals =
      update_first (λ goal. goal.id == goal_id)
        (λ goal. record goal { progress = add_i32 goal.progress delta }) player.goals;
}
change_player player
      (PlayerChange.condition_added condition_id label description visible_to_player reason) =
    record player {
      conditions = push player.conditions (record {
        id = condition_id;
        label = label;
        description = description;
        visible_to_player = visible_to_player;
      });
    }
change_player player (PlayerChange.condition_cleared condition_id reason) = record player {
  conditions = keep (λ condition. not (condition.id == condition_id)) player.conditions;
}
change_player player (PlayerChange.resource_changed resource_id delta reason) = record player {
  resources =
      update_first (λ resource. resource.id == resource_id)
        (λ resource. record resource { current = add_i32 resource.current delta }) player.resources;
}
change_player player (PlayerChange.gm_note_added note reason) = record player {
  gm_notes = push player.gm_notes note;
}

unfoldable pub apply_player_change : WorldState → PlayerChange → WorldState
unfolding change_player
apply_player_change state change = record state { player = change_player state.player change }

unfoldable pub links : EntityKey → EntityKey → RelationshipState → Bool
links source_id target_id relationship =
    relationship.source_id == source_id && relationship.target_id == target_id

-- What `find_or_insert_relationship_mut` inserts for a pair that is not there.
unfoldable pub new_relationship : EntityKey → EntityKey → RelationshipState
new_relationship source_id target_id = record {
  source_id = source_id;
  target_id = target_id;
  attitude = pos 0;
  notes = [];
  trust = pos 0;
  suspicion = pos 0;
  loyalty = pos 0;
}

-- A write through `find_or_insert_relationship_mut`.
unfoldable pub update_relationship :
    List RelationshipState
    → EntityKey
    → EntityKey
    → (RelationshipState → RelationshipState)
    → List RelationshipState
unfolding links new_relationship
update_relationship relationships source_id target_id f =
    if any (links source_id target_id) relationships
    then update_first (links source_id target_id) f relationships
    else push relationships (f (new_relationship source_id target_id))

unfoldable pub change_relationships :
    List RelationshipState → RelationshipChange → List RelationshipState
unfolding update_relationship
change_relationships relationships
      (RelationshipChange.changed source_id target_id attitude_delta reason) =
    update_relationship relationships source_id target_id λ relationship. record relationship {
      attitude = add_i32 relationship.attitude attitude_delta;
    }
change_relationships relationships (RelationshipChange.note_added source_id target_id note reason) =
    update_relationship relationships source_id target_id
      λ relationship. record relationship { notes = push relationship.notes note }
change_relationships relationships
      (RelationshipChange.trust_changed source_id target_id delta reason) =
    update_relationship relationships source_id target_id
      λ relationship. record relationship { trust = add_i32 relationship.trust delta }
change_relationships relationships
      (RelationshipChange.suspicion_changed source_id target_id delta reason) =
    update_relationship relationships source_id target_id
      λ relationship. record relationship { suspicion = add_i32 relationship.suspicion delta }
change_relationships relationships
      (RelationshipChange.loyalty_changed source_id target_id delta reason) =
    update_relationship relationships source_id target_id
      λ relationship. record relationship { loyalty = add_i32 relationship.loyalty delta }

unfoldable pub apply_relationship_change : WorldState → RelationshipChange → WorldState
unfolding change_relationships
apply_relationship_change state change = record state {
  relationships = change_relationships state.relationships change;
}

unfoldable pub put_clue : ClueState → List ClueState → List ClueState
put_clue clue clues =
    if any (λ existing. existing.id == clue.id) clues
    then update_first (λ existing. existing.id == clue.id) (λ existing. clue) clues
    else push clues clue

unfoldable pub change_clues : List ClueState → ClueChange → List ClueState
unfolding put_clue
change_clues clues
      (ClueChange.discovered clue_id text linked_secret_ids satisfied_reveal_conditions
        visible_to_player reason) =
    put_clue
      (record {
        id = clue_id;
        text = text;
        linked_secret_ids = linked_secret_ids;
        satisfied_reveal_conditions = satisfied_reveal_conditions;
        visible_to_player = visible_to_player;
      })
      clues
change_clues clues (ClueChange.visibility_changed clue_id visible_to_player reason) =
    update_first (λ clue. clue.id == clue_id)
      (λ clue. record clue { visible_to_player = visible_to_player }) clues

unfoldable pub apply_clue_change : WorldState → ClueChange → WorldState
unfolding change_clues
apply_clue_change state change = record state { clues = change_clues state.clues change }
