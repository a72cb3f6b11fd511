-- ===== src/Lib.antt =====
-- Forge OS: verification library.
--
-- Forge OS drives a project through the stages of its pipeline. The state manager keeps the state
-- file; a stage completes when the gate coordinator lets it, every transition is an event that the
-- bus writes to its log and hands to the hooks, each save also goes to the event store, and a
-- completed stage leaves a reflection and a lesson. Beside the pipeline stand the artifact registry
-- with the rework planner and the context pruner, the security enforcer, the chat channels whose actions
-- it decides on, the decay of old lessons, and a daemon with scheduled tasks that throttles itself at a
-- cost cap.
--
-- Which file models which part (the paths are those of the repository, below src/forge_os):
--   * Pipeline/State, Pipeline/World, Pipeline/Saving, Pipeline/Manager: schemas/state.py and
--     core/state_manager.py. The record `World` holds the files that the manager reads and writes; a
--     method is an action on it, which may raise and then keeps what was written before. Manager/Spec is
--     the specification by stage names and statuses, Manager/Keeping the rules for single actions,
--     Manager/Safety what sequences of calls keep, Manager/Gating what the gates decide,
--     Manager/Running when calls return, one call and a run through a whole pipeline.
--   * Events/Model, Events/Bus, Events/Hooks, Events/Store: events/model.py, events/log.py, events/bus.py,
--     hooks/registry.py, hooks/timing.py, events/store.py. An SQLite table is the list of its rows.
--   * Gates/Model, Gates/Evaluator, Gates/Coordinator: gates/models.py, gates/evaluator.py,
--     gates/coordinator.py.
--   * Memory/Lessons, Memory/Reflections: memory/lessons.py, memory/models.py, memory/reflections.py.
--   * Cost: cost/aggregator.py and health/cost_cap.py.
--   * Daemon/State, Daemon/Scheduler, Daemon/Throttle: daemon/state.py, schemas/daemon.py,
--     daemon/scheduler.py, daemon/throttle.py.
--   * Artifacts, Artifacts/Names, Artifacts/Registry, Artifacts/Registry/Refresh: context/registry.py,
--     context/models.py. Names holds the normalisation of paths and edges, which every load applies.
--     Registry holds register and the rebuild of the dependents, Refresh the snapshots and the spread of
--     staleness, with the relations that it is compared to in Refresh/Depends.
--   * Artifacts/Rework, Artifacts/Tickets: project/rework_planner.py, project/backtrack_registry.py,
--     schemas/backtrack.py.
--   * Artifacts/Pruner, Artifacts/Selection, Artifacts/Selection/Spread, Artifacts/Selection/Cache:
--     context/pruner.py, the whole of select, its choice, its spread of priorities, its content cache.
--   * Channels, Channels/Identity, Channels/Policy, Channels/Intake: channels/normalize.py,
--     channels/base.py, channels/identity.py, channels/policy.py, channels/intake.py, schemas/channel.py.
--     Identity/Pairing is the specification of the pairing, a state for each sender.
--   * Dreamer: dreamer/decay.py and dreamer/timeutil.py, on the lesson store.
--   * Security: project/security_enforcer.py, project/security_audit.py, schemas/security.py.
--   * Host: what the program takes from outside, as a record of functions: the clock and the identifiers
--     by the number of the reading, the project's files, commands, floating-point numbers, regular
--     expressions and the other library calls. Theorems hold for every host, but for the named
--     assumptions `IsOrdered` (Daemon/Throttle/Control, the order of two literals), `IsWritable` and
--     `IsReviewable` (Pipeline/Manager/Running, writes succeed, and the lesson text is accepted and written) and
--     `IsReadable` (Artifacts/Selection/Made), `IsStripped` (Artifacts/Registry/Safe, `str.strip` on
--     a text that is stripped) and `IsStamped` (Artifacts/Selection/Cache, one time of
--     modification, one content), which the sample host of the tests meets.
--   * Base: lists, predicates on them, sorting, dictionaries, texts, and actions that may raise.
--   * Tests: a sample host and project, and the theorems applied to them.
--
-- Fuel: three walks over the graph of the artifacts run on fuel, `traverse` in Artifacts/Rework on one
-- round for each seed and each dependent of the document, `visit` in Artifacts/Selection/Spread on
-- `depth`, and `mark` in Artifacts/Registry/Refresh on `mark_depth`. Each bounds the vertices that can
-- still be new, and the theorems on the walks show that it is enough for every document, with cycles
-- too.
--
-- Not modelled: the texts of JSON, JSONL and YAML files (a file is absent, unreadable, or the value that
-- it holds), concurrent processes on one project, the command line, adapters to agent programs, network
-- clients, tracing, and the project templates. Writes of the reflection and log files do not fail in the
-- model; those of state.json and state.md, of the event store, of the audit log, of the daemon's state,
-- of the lessons, of the artifact registry, of the tickets, of the bindings and of the feedback may. A
-- write of the lessons or of the artifact registry that fails may leave its file cut. Every file that
-- is there is UTF-8 text. Python's limit on recursion, a cost that is an integer too large for a float,
-- and registered files that exist and cannot be read, are outside the model.
pub mod Base
pub mod Events
pub mod Host
pub mod Gates
pub mod Memory
pub mod Pipeline
pub mod Cost
pub mod Daemon
pub mod Security
pub mod Artifacts
pub mod Channels
pub mod Dreamer
pub mod Tests
