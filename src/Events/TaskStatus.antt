-- ===== src/Events/TaskStatus.antt =====
-- src/mission/status.rs: the status of a mission's task.
use claude_pilot.Base.{Bool, true, false}

pub data TaskStatus : Type 0 where
  pending blocked in_progress verifying completed failed skipped deferred : TaskStatus

unfoldable pub is_terminal : TaskStatus → Bool
is_terminal completed = true
is_terminal failed = true
is_terminal skipped = true
is_terminal _ = false

unfoldable pub is_active : TaskStatus → Bool
is_active in_progress = true
is_active verifying = true
is_active _ = false

-- src/agent/multi/core: how an execution ended.
pub data ExecutionOutcome : Type 0 where
  completed failed deferred : ExecutionOutcome

unfoldable pub from_outcome : ExecutionOutcome → TaskStatus
from_outcome completed = TaskStatus.completed
from_outcome failed = TaskStatus.failed
from_outcome deferred = TaskStatus.deferred
