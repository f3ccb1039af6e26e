-- ===== src/Session.antt =====
-- src/agent/multi/session/orchestration.rs: the session that coordinates the agents of a mission, over
-- the task graph, the registry of participants, the log of notifications and the checkpoints. Methods
-- take the clock, in milliseconds, and the identifier that `uuid` makes for a checkpoint as arguments;
-- the comparison of the budget with its threshold, in floating point, is a parameter. A method that can
-- fail returns the new session or an error, and fails before it changes anything.
mod State
mod Notification
mod Log
mod Delivery
pub mod Agents
mod Indexed
mod Registry
mod Candidate
mod Checkpoint
mod Kept
mod Calls
mod Nodes
mod Retries
mod Coherent
mod Recovery
mod Strays
mod Bounds
mod PartTests
mod Tests
unfoldable pub use State.*
use claude_pilot.Base.{
  ℕ, zero, suc, ◌+◌, ◌-◌, ◌*◌, ◌/◌, ◌%◌, ◌^◌, ◌≤◌, ◌<◌, String, ◌≡◌, refl, sym, ap, ◌∙◌, subst, ◌≢◌,
  ◌↔◌, ◌⊎◌, inl, inr, ite, Bool, true, false, ◌&&◌, ◌||◌, not, Option, none, some, List, [], ◌∷◌,
  ◌++◌, map, arith, DecEq, ◌==◌, string_eq, list_eq, nat_eq, eq_refl, ==_iff, contains, is_subset,
  contains-set_insert, contains-append, set_insert, set_remove, length, length-append, all, any,
  keep, find, is_empty, is_some, is_none, ltb, leb, eqb, if◌then◌else◌, Bool-cases, and_left,
  and_right, and_intro, Option-cases, decide_by, string_dec, list_dec, ltb→lt, lt→ltb,
  length-keep-le, length-map,
}
use claude_pilot.Base.Assoc.{lookup, insert, keys, values}
use claude_pilot.Events.Kinds.{SessionPhase}
use claude_pilot.TaskGraph.{
  TaskDag, TaskNode, TaskInfo, TaskDependency, DagTaskResult, NodeStatus, DagError, Result, ok, err,
  task_not_found, same_status, task_ids, get, add_task, refresh_ready_status, add_dependency,
  start_task, complete_task, fail_task, retry_task,
}
use claude_pilot.Session.Notification.{
  NotificationLog, NotificationType, conflict_detected, task_assigned, task_completed, task_failed,
  phase_changed, text, new_log, add, add_with_priority, acknowledge, latest_id,
}
use claude_pilot.Session.Agents.{
  AgentCapabilities, Participant, ParticipantRegistry, new_registry, new_participant,
  with_capabilities, register, update_participant, assign_to, take_from, spans_multiple_workspaces,
}
use claude_pilot.Session.Checkpoint.{
  CheckpointReason, CheckpointRef, TaskLists, SessionCheckpoint, SessionCheckpointManager,
  RecoveryContext, new_manager, new_checkpoint, with_refs, with_phase, with_tasks,
  with_context_used, create, create_phase_transition, create_budget_threshold,
  maybe_create_scheduled, create_recovery_context, should_checkpoint_for_budget,
}

-- `{:?}` of a status.
unfoldable pub debug_status : NodeStatus → String
debug_status NodeStatus.pending = "Pending"
debug_status NodeStatus.ready = "Ready"
debug_status NodeStatus.in_progress = "InProgress"
debug_status NodeStatus.completed = "Completed"
debug_status NodeStatus.failed = "Failed"
debug_status NodeStatus.cancelled = "Cancelled"
debug_status NodeStatus.blocked = "Blocked"
debug_status NodeStatus.deferred = "Deferred"

unfoldable pub statuses_of : TaskDag → List String → List (String × String)
statuses_of g [] = []
statuses_of g (id ∷ ids) =
    let later = statuses_of g ids in
    elim (get g id) [ none ↦ later | some n ↦ (id, debug_status n.status) ∷ later ]

-- The identifiers of the tasks with a status.
abbrev pub has_status : NodeStatus → Option TaskNode → Bool
has_status status none = false
has_status status (some n) = same_status n.status status

unfoldable pub task_id_lists : OrchestrationSession → TaskLists
unfolding task_ids get
task_id_lists s = (
  keep (λ id. has_status NodeStatus.completed (get s.tasks id)) (task_ids s.tasks),
  keep (λ id. has_status NodeStatus.failed (get s.tasks id)) (task_ids s.tasks),
  keep (λ id. has_status NodeStatus.in_progress (get s.tasks id)) (task_ids s.tasks),
)

unfoldable pub create_checkpoint_refs : OrchestrationSession → CheckpointRef
create_checkpoint_refs s = record {
  notification_id = latest_id s.notifications;
  task_statuses = statuses_of s.tasks (task_ids s.tasks);
  consensus_round = none;
  file_snapshots = [];
}

unfoldable pub create_checkpoint :
    String → ℕ → CheckpointReason → OrchestrationSession → OrchestrationSession
create_checkpoint uuid now reason s = record s {
  checkpoints =
      create
        (with_context_used s.context_budget.used (
          with_tasks (task_id_lists s) (
            with_phase (phase_name s.phase)
              (with_refs (create_checkpoint_refs s) (new_checkpoint uuid now s.id reason)))))
        s.checkpoints;
}

unfoldable pub create_phase_checkpoint :
    String → ℕ → String → String → OrchestrationSession → OrchestrationSession
create_phase_checkpoint uuid now a b s = record s {
  checkpoints =
      create_phase_transition uuid now a b (create_checkpoint_refs s) (task_id_lists s)
        s.checkpoints;
}

unfoldable pub maybe_checkpoint : String → ℕ → OrchestrationSession → OrchestrationSession
maybe_checkpoint uuid now s = record s {
  checkpoints =
      (maybe_create_scheduled uuid now (create_checkpoint_refs s) (phase_name s.phase)
        (task_id_lists s) s.checkpoints).0;
}

unfoldable pub start : ℕ → OrchestrationSession → OrchestrationSession
start now s = elim s.status [
  | initializing ↦ notify_phase_change now "setup" "planning" (record s { status = active })
  | _ ↦ s
]

-- The checkpoint is made before the phase changes, and all are told after it.
unfoldable pub enter_phase : String → ℕ → SessionPhase → OrchestrationSession → OrchestrationSession
enter_phase uuid now phase s =
    let a = phase_name s.phase in
    let b = phase_name phase in
    notify_phase_change now a b (record (create_phase_checkpoint uuid now a b s) { phase = phase })

unfoldable pub enter_next :
    String → ℕ → Option SessionPhase → OrchestrationSession → OrchestrationSession
enter_next uuid now none s = s
enter_next uuid now (some phase) s = enter_phase uuid now phase s

-- The new phase, which the method returns too, is that of the session.
unfoldable pub advance_phase : String → ℕ → OrchestrationSession → OrchestrationSession
advance_phase uuid now s = enter_next uuid now (next_phase s.phase) s

unfoldable pub set_phase : String → ℕ → SessionPhase → OrchestrationSession → OrchestrationSession
set_phase uuid now phase s =
    if phase_name s.phase == phase_name phase then s else enter_phase uuid now phase s

unfoldable pub complete : String → ℕ → OrchestrationSession → OrchestrationSession
complete uuid now s = set_phase uuid now SessionPhase.finalization (record s { status = completed })

unfoldable pub fail : String → OrchestrationSession → OrchestrationSession
fail reason s = record s { status = failed; metadata = insert "failure_reason" reason s.metadata }

unfoldable pub pause : OrchestrationSession → OrchestrationSession
pause s = elim s.status [ active ↦ record s { status = paused } | _ ↦ s ]

unfoldable pub resume : OrchestrationSession → OrchestrationSession
resume s = elim s.status [ paused ↦ record s { status = active } | _ ↦ s ]

-- `message` is the text that is formatted from the identifier.
unfoldable pub register_participant :
    ℕ → String → Participant → OrchestrationSession → OrchestrationSession
register_participant now message p s =
    notify now "session" "*" (text message) (record s { participants = register p s.participants })

unfoldable pub register_agent :
    ℕ
    → String
    → String
    → String
    → String
    → AgentCapabilities
    → OrchestrationSession
    → OrchestrationSession
unfolding new_participant
register_agent now message id home workspace capabilities s =
    register_participant now message
      (with_capabilities capabilities (new_participant now id home workspace)) s

unfoldable pub is_cross_workspace : OrchestrationSession → Bool
is_cross_workspace s = s.config.enable_cross_workspace && spans_multiple_workspaces s.participants

pub data SessionError : Type 0 where
  graph : DagError → SessionError
  retries_exceeded : String → ℕ → SessionError

pub data SessionResult : Type 0 where
  done : OrchestrationSession → SessionResult
  refused : SessionError → SessionResult

-- `?` on a call of the task graph, and what follows with the new graph.
infixl 20 ◌then_with◌
abbrev pub ◌then_with◌ : Result TaskDag → (TaskDag → OrchestrationSession) → SessionResult
(ok g) then_with f = done (f g)
(err e) then_with f = refused (graph e)

unfoldable pub add_session_task : TaskInfo → OrchestrationSession → OrchestrationSession
add_session_task info s = record s { tasks = refresh_ready_status (add_task s.tasks info) }

unfoldable pub add_task_dependency : TaskDependency → OrchestrationSession → SessionResult
add_task_dependency d s = add_dependency s.tasks d then_with λ g. record s { tasks = g }

unfoldable pub assign_task : ℕ → String → String → OrchestrationSession → SessionResult
assign_task now task agent s = start_task s.tasks task agent then_with λ g.
    notify now "session" "*" (task_assigned task agent) (record s {
      tasks = g;
      participants = update_participant agent (assign_to now task) s.participants;
    })

unfoldable pub complete_session_task :
    ℕ → String → String → DagTaskResult → OrchestrationSession → SessionResult
complete_session_task now task agent r s = complete_task s.tasks task r then_with λ g.
    notify now agent "*" (task_completed task agent r.files_modified) (record s {
      tasks = g;
      participants = update_participant agent (take_from now task) s.participants;
    })

unfoldable pub fail_session_task :
    ℕ → String → String → String → OrchestrationSession → SessionResult
fail_session_task now task agent error s = fail_task s.tasks task error then_with λ g.
    notify now agent "*" (task_failed task agent error) (record s {
      tasks = g;
      participants = update_participant agent (take_from now task) s.participants;
    })

unfoldable pub retry_session_task : String → OrchestrationSession → SessionResult
retry_session_task task s = elim (get s.tasks task) [
  | none ↦ refused (graph (task_not_found task))
  | some n ↦
      if leb s.config.max_task_retries n.retry_count
      then refused (retries_exceeded task s.config.max_task_retries)
      else retry_task s.tasks task then_with λ g. record s { tasks = g }
]

unfoldable pub add_context_usage :
    (ℕ → ℕ → Bool) → String → ℕ → ℕ → OrchestrationSession → OrchestrationSession
add_context_usage reaches uuid now tokens s =
    let spent = record s { context_budget = add_usage tokens s.context_budget } in
    if should_checkpoint_for_budget reaches spent.context_budget.used spent.context_budget.total
    then record spent {
      checkpoints =
          create_budget_threshold uuid now spent.context_budget.used spent.context_budget.total
            (create_checkpoint_refs spent) (phase_name spent.phase) spent.checkpoints;
    }
    else spent

unfoldable pub reset_context_usage : OrchestrationSession → OrchestrationSession
reset_context_usage s = record s { context_budget = reset_usage s.context_budget }

unfoldable pub recovery_context : OrchestrationSession → Option RecoveryContext
recovery_context s = create_recovery_context s.checkpoints
