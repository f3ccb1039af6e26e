-- ===== src/Lib.antt =====
-- The core of claude-pilot, an orchestrator that runs missions with several coding agents, as
-- executable definitions, with the theorems about them.
--
-- The parts. The agents of a session take tasks from a dependency graph: a task that is ready is
-- assigned and started, and its completion or failure makes others ready or blocks them. While
-- agents work, they hold leases on files, so that two of them do not write one file at once; who
-- has to wait stands in a queue with priorities. What happens to a mission is recorded as events,
-- which a writer thread numbers and appends to a table. Read models (projections) are folds over
-- these events, rebuilt from the latest snapshot and the events after it. Before a plan runs, its tasks
-- are renamed and checked; agents that have to agree on a plan do so in the rounds of a consensus,
-- whose events are projected like the others.
--
-- Base: names shared by all modules. `DecEq` is decidable equality as an instance, sets are lists,
-- and a map is an association list (Base/Assoc). The native numbers measure lists.
--
-- TaskGraph: src/agent/multi/session/task_graph.rs. The graph is a record with the nodes by their
-- identifier; every method is a function on it. Edges, Calls and Acyclic are about the edges and
-- cycles, Search about the search for a cycle, Order and InOrder about the topological order,
-- Ready, Start and Failure about what a status change does to the other tasks, Stats about the
-- counts. A search has as much fuel as there are nodes and edges, since it expands a node once.
--
-- Session: src/agent/multi/session/orchestration.rs, the session over its four stores, in Session
-- and Session/State; Session/Notification: notification.rs; Session/Agents with its child Member:
-- participant.rs; Session/Checkpoint: checkpoint.rs. Times are milliseconds, given as arguments,
-- as are the identifiers that `uuid` makes; the comparison of the budget with its threshold, in
-- floating point, is a parameter. Session/Calls lists the calls that change a session, of which
-- Coherent, Retries, Bounds, Recovery and Strays speak; Log and Delivery are about the log,
-- Indexed, Registry and Candidate about the registry, Kept about the checkpoints. The loop that
-- removes checkpoints has as much fuel as there are checkpoints, and a round removes one.
--
-- Ownership: src/agent/multi/ownership/mod.rs, lease.rs and tracking.rs. One record is the manager
-- with all its maps; a call is one step, since the code holds the lock for its length, and the clock
-- is read once for it. Acquire, Release, Guard, Ordered, Queue and Queues are named for the calls
-- that they are about. The version counter wraps at 64 bits.
--
-- Events: src/state/events.rs with the enumerations that events carry, src/state/machine.rs in
-- Events/MissionState, src/mission/status.rs in Events/TaskStatus. Floating point numbers are a
-- type parameter; an instant is a number.
--
-- Mission: src/orchestrator/engine/mod.rs, transition_state, with the fields that it does not
-- touch as one parameter; a run is a list of requests, each with whether the mission is saved and the
-- event appended. Mission/Tasks: src/mission/task.rs; Mission/Loop: the queries of
-- src/mission/types.rs over the tasks, and the loop of src/orchestrator/engine/execution.rs, where
-- what becomes of started tasks is a function on the tasks, which may also end in the escalation that
-- leaves the loop. The loop has as much fuel as iterations are left, and a round uses one;
-- Mission/Rounds is about it.
--
-- EventStore: src/state/writer.rs and src/state/event_store.rs. The table is a list of rows in the
-- order of insertion, with its unique indexes; a refused insertion rolls its transaction back, while
-- the number it was given stays used. Versions wrap at 32 bits, sequence numbers at 64. `order_by`
-- is the sorting of the queries. EventStore/Replay: src/state/replay.rs and src/state/snapshots.rs.
-- `Projection` is the trait of src/state/projections.rs as a record of functions, which the
-- implementations of Projections fill; serde and the checksum are the record `Serde`.
--
-- Projections: src/state/projections.rs, each projection in a file of its name. The fields that
-- serde skips come back as their defaults (`restored_tasks`, `restored_consensus`).
--
-- FileTracker: src/verification/file_tracker.rs, which files a task changed. A snapshot of the
-- directory is an argument, and so is the sort of the standard library, of which it is used that it
-- keeps the elements of its list.
--
-- Consensus: src/agent/multi/consensus, of which Synthesis has the types, Scoring the histories of the
-- agents, Proposals the collection of proposals and the events of votes and conflicts, and Rounds a
-- round and a run. What a run calls (agents, the pool, the synthesis by a language model, the clock,
-- serde) is the record `Surroundings`, the arithmetic of floats the record `Floats`. A run carries its
-- session, the events it emitted and the histories; an answer that is none is an error. A run makes
-- as many steps as there are rounds from the start round to the maximum. View says what the events
-- mean for the projection of src/state/projections.rs; Watched, Closing and Resume follow the events of
-- a round, Verdicts, Answers and Prompted the answers of a run, Members who takes part.
--
-- Planning: src/planning. Graph has the search of graph.rs, with one more fuel than there are tasks
-- with dependencies, which bounds the depth of the calls, since each call below another enters a new
-- one; Walks, Fuel, Visits and Cycle are about it. Tasks has the tasks of artifacts.rs and the check of
-- validation/rules.rs, Renamed, Places, Partners and Normal are about their renaming, Feasible about
-- the check.
--
-- Not modelled: the calls of language models, the asynchronous glue, channels and time-outs, SQL
-- errors other than a broken index, the text of messages and summaries, floating point scores, file
-- and process input and output, and the subsystems that build on these parts (adaptive
-- consensus, recovery, the rest of verification and of planning, learning, configuration, the command
-- line).
pub mod Base
pub mod Consensus
pub mod EventStore
pub mod Events
pub mod FileTracker
pub mod Mission
pub mod Ownership
pub mod Planning
pub mod Projections
pub mod Session
pub mod TaskGraph
