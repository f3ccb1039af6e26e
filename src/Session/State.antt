-- ===== src/Session/State.antt =====
-- src/agent/multi/session/orchestration.rs: the state of a session, its configuration and its budget.
use claude_pilot.Base.{
  ℕ, ◌+◌, ◌-◌, ◌^◌, String, Bool, true, false, Option, none, some, List, [], string_eq, list_eq,
  nat_eq, ltb, if◌then◌else◌,
}
use claude_pilot.Events.Kinds.{SessionPhase}
use claude_pilot.TaskGraph.{
  TaskDag, TaskNode, TaskInfo, TaskDependency, DagTaskResult, NodeStatus, DagError, Result, ok, err,
  task_not_found, same_status, task_ids, get, add_task, refresh_ready_status, add_dependency,
  start_task, complete_task, fail_task, retry_task,
}
use claude_pilot.Session.Notification.{
  NotificationLog, NotificationType, conflict_detected, phase_changed, new_log, add,
  add_with_priority, acknowledge,
}
use claude_pilot.Session.Agents.{ParticipantRegistry, new_registry}
use claude_pilot.Session.Checkpoint.{SessionCheckpointManager, new_manager}

pub data SessionStatus : Type 0 where
  initializing active paused completed failed cancelled : SessionStatus

unfoldable pub is_over : SessionStatus → Bool
is_over completed = true
is_over failed = true
is_over cancelled = true
is_over _ = false

unfoldable pub can_accept_tasks : SessionStatus → Bool
can_accept_tasks initializing = true
can_accept_tasks active = true
can_accept_tasks _ = false

unfoldable pub phase_name : SessionPhase → String
phase_name SessionPhase.setup = "setup"
phase_name SessionPhase.planning = "planning"
phase_name SessionPhase.implementation = "implementation"
phase_name SessionPhase.verification = "verification"
phase_name SessionPhase.finalization = "finalization"
phase_name (SessionPhase.custom s) = s

unfoldable pub next_phase : SessionPhase → Option SessionPhase
next_phase SessionPhase.setup = some SessionPhase.planning
next_phase SessionPhase.planning = some SessionPhase.implementation
next_phase SessionPhase.implementation = some SessionPhase.verification
next_phase SessionPhase.verification = some SessionPhase.finalization
next_phase SessionPhase.finalization = none
next_phase (SessionPhase.custom _) = none

-- The threshold of the budget is a parameter of the method that compares with it.
pub record OrchestrationConfig : Type 0 where
  pub max_duration : ℕ
  pub checkpoint_interval : ℕ
  pub max_parallel_tasks : ℕ
  pub max_task_retries : ℕ
  pub enable_cross_workspace : Bool
  pub max_notifications : ℕ
  pub notification_max_age : ℕ

unfoldable pub default_config : OrchestrationConfig
default_config = record {
  max_duration = 86400000;
  checkpoint_interval = 300000;
  max_parallel_tasks = 10;
  max_task_retries = 3;
  enable_cross_workspace = true;
  max_notifications = 10000;
  notification_max_age = 3600000;
}

pub record ContextBudget : Type 0 where
  pub total : ℕ
  pub used : ℕ
  pub reserved : ℕ

unfoldable pub default_budget : ContextBudget
default_budget = record { total = 200000; used = 0; reserved = 10000 }

unfoldable pub available_tokens : ContextBudget → ℕ
available_tokens b = b.total - b.used - b.reserved

-- `saturating_add` of a `u32`.
unfoldable pub add_usage : ℕ → ContextBudget → ContextBudget
add_usage tokens b = record b {
  used = if ltb (b.used + tokens) (2 ^ 32) then b.used + tokens else 2 ^ 32 - 1;
}

unfoldable pub reset_usage : ContextBudget → ContextBudget
reset_usage b = record b { used = 0 }

pub record OrchestrationSession : Type 0 where
  pub id : String
  pub mission : String
  pub status : SessionStatus
  pub phase : SessionPhase
  pub config : OrchestrationConfig
  pub participants : ParticipantRegistry
  pub tasks : TaskDag
  pub notifications : NotificationLog
  pub checkpoints : SessionCheckpointManager
  pub context_budget : ContextBudget
  pub started_at : ℕ
  pub working_dir : String
  pub metadata : List (String × String)

unfoldable pub new_session : String → ℕ → String → String → OrchestrationSession
unfolding new_registry claude_pilot.TaskGraph.new new_manager default_config default_budget
new_session id now mission working_dir = record {
  id = id;
  mission = mission;
  status = initializing;
  phase = SessionPhase.setup;
  config = default_config;
  participants = new_registry;
  tasks = claude_pilot.TaskGraph.new;
  notifications = new_log 10000 3600000;
  checkpoints = new_manager now id;
  context_budget = default_budget;
  started_at = now;
  working_dir = working_dir;
  metadata = [];
}

unfoldable pub with_config : OrchestrationConfig → OrchestrationSession → OrchestrationSession
with_config config s = record s {
  config = config;
  notifications = new_log config.max_notifications config.notification_max_age;
  checkpoints = record (s.checkpoints) { auto_checkpoint_interval = config.checkpoint_interval };
}

unfoldable pub with_context_budget : ℕ → ℕ → OrchestrationSession → OrchestrationSession
with_context_budget total reserved s = record s {
  context_budget = record { total = total; used = 0; reserved = reserved };
}

unfoldable pub notify :
    ℕ → String → String → NotificationType → OrchestrationSession → OrchestrationSession
notify now source target kind s = record s {
  notifications = (add now source target kind s.notifications).0;
}

unfoldable pub notify_conflict :
    ℕ → String → List String → List String → String → OrchestrationSession → OrchestrationSession
notify_conflict now id agents files description s = record s {
  notifications =
      (add_with_priority now "session" "*" (conflict_detected id agents files description) 100
        s.notifications).0;
}

unfoldable pub notify_phase_change :
    ℕ → String → String → OrchestrationSession → OrchestrationSession
notify_phase_change now a b s = notify now "session" "*" (phase_changed a b) s

unfoldable pub acknowledge_notification : ℕ → String → OrchestrationSession → OrchestrationSession
acknowledge_notification id agent s = record s {
  notifications = acknowledge id agent s.notifications;
}
