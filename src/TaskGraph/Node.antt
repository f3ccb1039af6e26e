-- ===== src/TaskGraph/Node.antt =====
-- src/agent/multi/session/task_graph.rs: a task of the graph, its status, and the writes to it.
use claude_pilot.Base.{
  ℕ, ◌+◌, ◌%◌, ◌^◌, String, Bool, true, false, ◌&&◌, ◌||◌, not, Option, none, some, List, [],
  string_eq, contains, set_insert, is_subset, eqb, if◌then◌else◌, keep,
}

pub data NodeStatus : Type 0 where
  pending ready in_progress completed failed cancelled blocked deferred : NodeStatus

abbrev pub discriminant : NodeStatus → ℕ
discriminant pending = 0
discriminant ready = 1
discriminant in_progress = 2
discriminant completed = 3
discriminant failed = 4
discriminant cancelled = 5
discriminant blocked = 6
discriminant deferred = 7

-- The derived `==`.
abbrev pub same_status : NodeStatus → NodeStatus → Bool
same_status a b = eqb (discriminant a) (discriminant b)

unfoldable pub is_terminal : NodeStatus → Bool
is_terminal completed = true
is_terminal failed = true
is_terminal cancelled = true
is_terminal _ = false

unfoldable pub is_runnable : NodeStatus → Bool
is_runnable ready = true
is_runnable _ = false

unfoldable pub is_pending : NodeStatus → Bool
is_pending pending = true
is_pending ready = true
is_pending _ = false

pub data DependencyType : Type 0 where
  blocking soft_dependency resource_conflict : DependencyType

pub record TaskDependency : Type 0 where
  pub prerequisite : String
  pub dependent : String
  pub dependency_type : DependencyType

pub record TaskInfo : Type 0 where
  pub id : String
  pub description : String
  pub target_module : String
  pub required_role : String
  pub estimated_complexity : ℕ
  pub priority : ℕ
  pub affected_files : List String

pub record DagTaskResult : Type 0 where
  pub success : Bool
  pub output : String
  pub files_modified : List String
  pub artifacts : List String

pub record TaskNode : Type 0 where
  pub info : TaskInfo
  pub status : NodeStatus
  pub assigned_to : Option String
  pub dependencies : List String
  pub dependents : List String
  pub result : Option DagTaskResult
  pub retry_count : ℕ

unfoldable pub new_node : TaskInfo → TaskNode
new_node info = record {
  info = info;
  status = pending;
  assigned_to = none;
  dependencies = [];
  dependents = [];
  result = none;
  retry_count = 0;
}

unfoldable pub has_unmet_dependencies : TaskNode → List String → Bool
has_unmet_dependencies n done = not (is_subset n.dependencies done)

unfoldable pub unmet_dependencies : TaskNode → List String → List String
unmet_dependencies n done = keep (λ d. not (contains done d)) n.dependencies

-- The writes to a node that the methods make.
abbrev pub add_dependent : String → TaskNode → TaskNode
add_dependent id n = record n { dependents = set_insert id n.dependents }

abbrev pub add_prerequisite : String → TaskNode → TaskNode
add_prerequisite id n = record n { dependencies = set_insert id n.dependencies }

abbrev pub mark_started : String → TaskNode → TaskNode
mark_started agent n = record n { status = in_progress; assigned_to = some agent }

abbrev pub mark_completed : DagTaskResult → TaskNode → TaskNode
mark_completed r n = record n { status = completed; result = some r }

abbrev pub failure : String → DagTaskResult
failure error = record { success = false; output = error; files_modified = []; artifacts = [] }

abbrev pub mark_failed : String → TaskNode → TaskNode
mark_failed error n = record n { status = failed; result = some (failure error) }

abbrev pub mark_retried : TaskNode → TaskNode
mark_retried n = record n {
  status = pending;
  retry_count = (n.retry_count + 1) % 2 ^ 32;
  assigned_to = none;
}

-- The filter of `ready_tasks`.
unfoldable pub is_ready : List String → TaskNode → Bool
unfolding has_unmet_dependencies
is_ready done n =
    same_status n.status ready
    || (same_status n.status pending && not (has_unmet_dependencies n done))

-- The filter and the update of `refresh_ready_status`, for one node.
unfoldable pub refresh_node : List String → TaskNode → TaskNode
unfolding has_unmet_dependencies
refresh_node done n =
    if same_status n.status pending && not (has_unmet_dependencies n done)
    then record n { status = ready }
    else n

unfoldable pub block_node : TaskNode → TaskNode
unfolding is_pending
block_node n = if is_pending n.status then record n { status = blocked } else n
