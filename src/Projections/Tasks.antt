-- ===== src/Projections/Tasks.antt =====
-- src/state/projections.rs: the status of the tasks, with a bound on how many are tracked.
use claude_pilot.Base.{
  ℕ, String, Option, none, some, List, [], ◌∷◌, ◌++◌, string_eq, list_eq, nat_eq, length, leb,
  if◌then◌else◌,
}
use claude_pilot.Base.Assoc.{insert, remove, adjust}
use claude_pilot.Events.{
  DomainEvent, EventPayload, task_started, task_completed, task_failed, task_skipped, task_deferred,
  task_status_changed,
}
use claude_pilot.EventStore.Replay.{Projection}
use claude_pilot.Events.TaskStatus.{TaskStatus}
use claude_pilot.Projections.Timeline.{pop_front}

pub record TaskState : Type 0 where
  pub task_id : String
  pub description : String
  pub status : TaskStatus
  pub files_modified : List String
  pub retry_count : ℕ
  pub started_at : Option ℕ
  pub completed_at : Option ℕ

pub record TaskStatusProjection : Type 0 where
  pub version : ℕ
  pub last_applied_seq : ℕ
  pub tasks : List (String × TaskState)
  pub task_order : List String
  pub max_tracked_tasks : ℕ

-- The limit of the default is that of the configuration.
abbrev pub new_tasks : ℕ → TaskStatusProjection
new_tasks max = record {
  version = 0;
  last_applied_seq = 0;
  tasks = [];
  task_order = [];
  max_tracked_tasks = max;
}

abbrev pub started : ℕ → String → String → TaskState
started now t description = record {
  task_id = t;
  description = description;
  status = TaskStatus.in_progress;
  files_modified = [];
  retry_count = 0;
  started_at = some now;
  completed_at = none;
}

abbrev pub set_task_status : TaskStatus → TaskState → TaskState
set_task_status st t = record t { status = st }

-- The oldest entry of the order goes, and its task with it.
abbrev pub evict : List String → List (String × TaskState) → List (String × TaskState)
evict [] m = m
evict (oldest ∷ order) m = remove oldest m

unfoldable pub make_room : TaskStatusProjection → TaskStatusProjection
make_room p =
    if leb p.max_tracked_tasks (length p.tasks)
    then record p { tasks = evict p.task_order p.tasks; task_order = pop_front p.task_order }
    else p

unfoldable pub start_task : ℕ → String → String → TaskStatusProjection → TaskStatusProjection
start_task now t description p = record (make_room p) {
  task_order = (make_room p).task_order ++ t ∷ [];
  tasks = insert t (started now t description) (make_room p).tasks;
}

abbrev pub adjust_task :
    String → (TaskState → TaskState) → TaskStatusProjection → TaskStatusProjection
adjust_task t f p = record p { tasks = adjust t f p.tasks }

-- The two fields that serde skips come back as their defaults.
unfoldable pub restored_tasks : TaskStatusProjection → TaskStatusProjection
restored_tasks p = record p { task_order = []; max_tracked_tasks = 0 }

module _ {F : Type 0} where
  unfoldable pub tasks_payload : ℕ → EventPayload F → TaskStatusProjection → TaskStatusProjection
  tasks_payload now (task_started t d) p = start_task now t d p
  tasks_payload now (task_completed t files _) p =
      adjust_task t
        (λ s. record s {
          status = TaskStatus.completed;
          files_modified = files;
          completed_at = some now;
        })
        p
  tasks_payload now (task_failed t _ n) p =
      adjust_task t (λ s. record s { status = TaskStatus.failed; retry_count = n }) p
  tasks_payload now (task_skipped t _) p = adjust_task t (set_task_status TaskStatus.skipped) p
  tasks_payload now (task_deferred t _ _) p = adjust_task t (set_task_status TaskStatus.deferred) p
  tasks_payload now (task_status_changed t _ to) p = adjust_task t (set_task_status to) p
  tasks_payload now _ p = p

  unfoldable pub tasks_apply : DomainEvent F → TaskStatusProjection → TaskStatusProjection
  tasks_apply e p = tasks_payload e.timestamp e.payload (record p { version = e.version })

  unfoldable pub task_statuses : ℕ → Projection F TaskStatusProjection
  task_statuses max = record {
    default = new_tasks max;
    apply = tasks_apply;
    last_applied_seq = λ p. p.last_applied_seq;
    set_last_applied_seq = λ n p. record p { last_applied_seq = n };
    schema_version = 1;
    projection_type = "TaskStatusProjection";
  }
