-- ===== src/Lib.antt =====
-- The rules of the advanced roleplaying engine: what a turn of a game asks of a language model, which
-- changes of the game's world it may make, and what making and storing them does.
--
-- A session plays a scenario. A turn takes the session's lock, loads its state from the store, builds
-- a context and asks the model for a narration and then for a delta, a list of changes of the world
-- state. The validator accepts or rejects the delta against the scenario and the state before the
-- turn, the reducer applies an accepted delta, the projector shows the player the part of the new
-- state that is not hidden, and the store keeps the turn.
--
-- The files and the code:
-- - Domain/Scenario, Domain/State, Domain/Delta, Domain/Visible: the types of
--   crates/domain/src/scenario.rs and state.rs, with the fields and constructors of the source.
--   Domain/Session: messages, sessions and events, with crates/persistence/src/repositories.rs.
-- - Domain/Validation: crates/domain/src/validation.rs, `validate_scenario` and
--   `validate_npc_status_transition`; its child Sound says which scenarios are accepted.
-- - Engine/Validation: crates/engine/src/validation.rs. `validate` is `BasicDeltaValidator::validate`
--   with its checks in order; the children hold the checks of each kind of change (Checks, Secrets,
--   Npcs, Counters, Records), the errors, and what acceptance means (Accepted, References, Sound).
--   Engine/Validated is the wrapper of an accepted delta, Engine/Targets what a change is about.
-- - Engine/Reducer: crates/engine/src/reducer.rs. `apply` is `BasicWorldStateReducer::apply`, one
--   fold for each of its loops; the children hold the changes of each kind (Records, Npcs, Counters,
--   Player, Apply) and the facts about them (Parts, WellFormed, Numbering, FactIds, Roster,
--   Knowledge).
-- - Engine/Projection: crates/engine/src/projection.rs. View is `project`, Changed is
--   `changed_entities` and `patch_from_delta`; Hiding, Unique, Loops, Mentions and Recent are
--   about them.
-- - Engine/Scene: crates/engine/src/scene.rs, `classify`.
-- - Engine/Context: crates/engine/src/context.rs. Role is `activate` and `directive_for`, Memories is
--   `prioritized_memories`, Build is `build`; Speaker, Ranking and Forget are about them.
-- - Engine/Prompt: crates/engine/src/prompt. Names, Sections, Facts and Render are render.rs,
--   Requests is mod.rs and repair.rs, Parser is parser.rs; Hiding is about what a narration is asked
--   with, Extract about what the parser cuts out.
-- - Engine/Safety: crates/engine/src/safety.rs, `strip`; Markers and Rounds are about it.
-- - Engine/Lock: crates/engine/src/lock.rs, the lock that lets a session run one turn at a time. What
--   threads do to it is a step relation; Exclusion and Release are about its reachable states.
-- - Engine/Turn: validator and reducer together, over one turn.
-- - Engine/Pipeline: crates/engine/src/pipeline. Types has the records and the interface
--   `TurnStateStore`; Turn says what a computation of a turn is, Prepare and Run are
--   `DefaultTurnPipeline`. Laws is what a turn relies on its store for, and hands on to the
--   next one; Keeping, Unchanged, Applied
--   and Outcome are about whole turns.
-- - Persistence: crates/persistence/src/store.rs. Initial is `initial_world_state`, Intro the opening
--   message, Store and Store/Turns are `InMemoryApplicationStore`; Start, Store/Laws,
--   Store/Handover and Store/Sessions are about them.
-- - Providers/Request: crates/providers/src/provider.rs, requests, answers and errors.
-- - Providers/Retry: `with_retries` of crates/providers/src/http.rs, over any operation.
-- - Providers/Sse: `SseLineDecoder` of the same file; Sse/Chunks is about its pieces.
-- - Engine/Sample and the files named Examples: small games on which the theorems are tried.
-- - Base: lists, tables, results, integers, text and decimal numbers, for all of these.
--
-- What the model takes over and what it chooses. A field of the state that Rust mutates is a record
-- that is passed on; `iter_mut().find` followed by an assignment is `update_first`. A `Result` and
-- its `?` are `Result` and do blocks. The integers of the state are exact and each addition wraps
-- around at the width of its type, as in the release profile; a `u8` is a natural number, cut at
-- eight bits where the source casts. A `HashSet` of ids is the list of them, a `HashMap` the list of
-- its entries, and the map of reveal conditions a function in which the last secret of an id wins. A
-- UUID is a number, an entity's key a string. `str::to_lowercase`, `char::is_alphanumeric`,
-- `serde_json` with its values, `Uuid::new_v4` and the language model are parameters of the
-- definitions that use them, of which nothing is assumed. Where the source would panic
-- (`expect("clock checked")`) the model takes an error that no accepted delta can meet, since the
-- check before it has failed then; the panic of the parser's slice is an outcome of its own. A turn
-- runs by itself, from taking the lock to dropping it; a panic drops the lock as an error does.
-- A temperature is counted in tenths. The fuel is that of printing decimals, n + 1 rounds for n, and
-- that of taking out tag blocks and of cutting frames off a stream, one round more than the text has
-- characters, since each round shortens it; that of retries is the number of attempts.
--
-- Not modelled: serde formats, logging and derived traits; what providers do over HTTP; the
-- repositories in PostgreSQL and the lock in the database; the HTTP and command-line programs,
-- which carry text between the parts above; the streaming of turns in
-- crates/engine/src/streaming.rs.
pub mod Base
pub mod Domain
pub mod Providers
pub mod Engine
pub mod Persistence
