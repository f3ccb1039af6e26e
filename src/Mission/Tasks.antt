-- ===== src/Mission/Tasks.antt =====
-- src/mission/task.rs: a task of a mission, with its retries. The clock is an argument; the factor by
-- which a recovery reduces the scope, in floating point, is left out.
use claude_pilot.Base.{
  ℕ, ◌+◌, ◌%◌, ◌^◌, String, Bool, true, false, ◌&&◌, Option, none, some, List, [], string_eq,
  list_eq, nat_eq, contains, all, ltb, leb, eqb, if◌then◌else◌,
}
use claude_pilot.Events.TaskStatus.{TaskStatus}

pub data AgentType : Type 0 where
  general coder reviewer tester debugger architect : AgentType

pub record TaskResult : Type 0 where
  pub success : Bool
  pub output : String
  pub files_modified : List String
  pub files_created : List String
  pub files_deleted : List String
  pub input_tokens : Option ℕ
  pub output_tokens : Option ℕ

abbrev pub outcome : Bool → String → TaskResult
outcome success output = record {
  success = success;
  output = output;
  files_modified = [];
  files_created = [];
  files_deleted = [];
  input_tokens = none;
  output_tokens = none;
}

pub record Task : Type 0 where
  pub id : String
  pub description : String
  pub status : TaskStatus
  pub phase : Option String
  pub dependencies : List String
  pub agent_type : AgentType
  pub retry_count : ℕ
  pub max_retries : ℕ
  pub affected_files : List String
  pub test_patterns : List String
  pub started_at : Option ℕ
  pub completed_at : Option ℕ
  pub result : Option TaskResult
  pub learnings : List String
  pub home : Option String

unfoldable pub new_task : String → String → Task
new_task id description = record {
  id = id;
  description = description;
  status = TaskStatus.pending;
  phase = none;
  dependencies = [];
  agent_type = general;
  retry_count = 0;
  max_retries = 3;
  affected_files = [];
  test_patterns = [];
  started_at = none;
  completed_at = none;
  result = none;
  learnings = [];
  home = none;
}

abbrev pub with_dependencies : List String → Task → Task
with_dependencies deps t = record t { dependencies = deps }

abbrev pub discriminant : TaskStatus → ℕ
discriminant TaskStatus.pending = 0
discriminant TaskStatus.blocked = 1
discriminant TaskStatus.in_progress = 2
discriminant TaskStatus.verifying = 3
discriminant TaskStatus.completed = 4
discriminant TaskStatus.failed = 5
discriminant TaskStatus.skipped = 6
discriminant TaskStatus.deferred = 7

-- The derived `==`.
abbrev pub has : TaskStatus → Task → Bool
has status t = eqb (discriminant t.status) (discriminant status)

unfoldable pub can_start : List String → Task → Bool
can_start satisfied t = has TaskStatus.pending t && all (contains satisfied) t.dependencies

unfoldable pub can_retry : Task → Bool
can_retry t = leb t.retry_count t.max_retries

unfoldable pub start_one : ℕ → Task → Task
start_one now t = record t { status = TaskStatus.in_progress; started_at = some now }

unfoldable pub complete_one : ℕ → TaskResult → Task → Task
complete_one now r t = record t {
  status = TaskStatus.completed;
  completed_at = some now;
  result = some r;
}

-- What is known of the files stays in the result.
abbrev pub with_failure : String → Option TaskResult → TaskResult
with_failure error none = outcome false error
with_failure error (some r) = record r { success = false; output = error }

-- The counter is a `u32`.
unfoldable pub fail_one : String → Task → Task
fail_one error t =
    let count = (t.retry_count + 1) % 2 ^ 32 in
    record t {
      retry_count = count;
      status = if ltb t.max_retries count then TaskStatus.failed else TaskStatus.pending;
      result = some (with_failure error t.result);
    }

-- `text` is the reason as it is formatted.
unfoldable pub skip_one : ℕ → String → Task → Task
skip_one now text t = record t {
  status = TaskStatus.skipped;
  completed_at = some now;
  result = some (outcome true text);
}

abbrev pub with_changes : List String → List String → Option TaskResult → TaskResult
with_changes created modified none = record (outcome false "") {
  files_created = created;
  files_modified = modified;
}
with_changes created modified (some r) = record r {
  files_created = created;
  files_modified = modified;
}

unfoldable pub update_file_changes : List String → List String → Task → Task
update_file_changes created modified t = record t {
  result = some (with_changes created modified t.result);
}
