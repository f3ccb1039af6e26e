-- ===== src/Session/Nodes.antt =====
-- src/agent/multi/session/task_graph.rs: what the calls of a session do to who runs a task and to how
-- often it was retried.
use claude_pilot.Base.{
  ℕ, ◌+◌, ◌%◌, ◌^◌, String, ◌≡◌, inl, inr, Bool, false, ◌&&◌, not, Option, none, some, arith, ◌==◌,
  string_eq, list_eq, nat_eq, set_insert, if◌then◌else◌, Option-cases,
}
use claude_pilot.Base.Assoc.{lookup, insert, adjust, lookup-insert, lookup-adjust}
use claude_pilot.TaskGraph.{
  TaskDag, TaskNode, TaskInfo, TaskDependency, DagTaskResult, ok, same_status, in_progress,
  add_task, new_node, add_dependency, start_task, complete_task, fail_task, retry_task,
  refresh_ready_status, refresh_node, block_node, is_pending, mark_started, mark_completed,
  mark_failed, mark_retried, add_dependent, add_prerequisite,
}
use claude_pilot.TaskGraph.Lookup.{lookup-refresh_nodes, lookup-block_all}

abbrev pub is_with : String → Option String → Bool
is_with agent none = false
is_with agent (some a) = a == agent

-- The task is in progress with the agent.
abbrev pub runs : String → Option TaskNode → Bool
runs agent none = false
runs agent (some n) = same_status n.status in_progress && is_with agent n.assigned_to

abbrev pub retries_of : Option TaskNode → ℕ
retries_of none = 0
retries_of (some n) = n.retry_count

module _ (agent x : String) (g h : TaskDag) where
  abbrev before : Option TaskNode
  before = lookup x g.nodes

  abbrev after : Option TaskNode
  after = lookup x h.nodes

  pub refresh-runs :
      (runs agent (lookup x (refresh_ready_status g).nodes) ≡ runs agent before)
      × (retries_of (lookup x (refresh_ready_status g).nodes) ≡ retries_of before)
  unfolding refresh_ready_status refresh_node
  refresh-runs = (
    ground (arith, lookup-refresh_nodes g.completed_ids g.nodes x),
    ground (arith, lookup-refresh_nodes g.completed_ids g.nodes x),
  )

  pub add_task-runs :
      (info : TaskInfo)
      → (runs agent (lookup x (refresh_ready_status (add_task g info)).nodes)
          ≡ (not (info.id == x) && runs agent before))
        × (retries_of (lookup x (refresh_ready_status (add_task g info)).nodes)
            ≡ (if info.id == x then 0 else retries_of before))
  unfolding refresh_ready_status refresh_node add_task new_node
  add_task-runs info = (
    ground (
      arith,
      lookup-refresh_nodes g.completed_ids (insert info.id (new_node info) g.nodes) x,
      lookup-insert x info.id (new_node info) g.nodes,
    ),
    ground (
      arith,
      lookup-refresh_nodes g.completed_ids (insert info.id (new_node info) g.nodes) x,
      lookup-insert x info.id (new_node info) g.nodes,
    ),
  )

  pub add_dependency-runs :
      (d : TaskDependency)
      → add_dependency g d ≡ ok h
      → (runs agent after ≡ runs agent before) × (retries_of after ≡ retries_of before)
  unfolding add_dependency
  add_dependency-runs d e = (
    ground (
      arith,
      e,
      lookup-adjust x d.dependent (add_prerequisite d.prerequisite)
          (adjust d.prerequisite (add_dependent d.dependent) g.nodes),
      lookup-adjust x d.prerequisite (add_dependent d.dependent) g.nodes,
    ),
    ground (
      arith,
      e,
      lookup-adjust x d.dependent (add_prerequisite d.prerequisite)
          (adjust d.prerequisite (add_dependent d.dependent) g.nodes),
      lookup-adjust x d.prerequisite (add_dependent d.dependent) g.nodes,
    ),
  )

  pub start_task-runs :
      (id a : String)
      → start_task g id a ≡ ok h
      → (runs agent after ≡ (if id == x then a == agent else runs agent before))
        × (retries_of after ≡ retries_of before)
        × (runs agent (lookup id g.nodes) ≡ false)
  unfolding start_task
  start_task-runs id a e = (
    ground (arith, e, lookup-adjust x id (mark_started a) g.nodes),
    ground (arith, e, lookup-adjust x id (mark_started a) g.nodes),
    ground (arith, e),
  )

  pub complete_task-runs :
      (id : String) (r : DagTaskResult)
      → complete_task g id r ≡ ok h
      → (runs agent after ≡ (not (id == x) && runs agent before))
        × (retries_of after ≡ retries_of before)
  unfolding complete_task refresh_ready_status refresh_node
  complete_task-runs id r e = (
    ground (
      arith,
      e,
      lookup-adjust x id (mark_completed r) g.nodes,
      lookup-refresh_nodes (set_insert id g.completed_ids) (adjust id (mark_completed r) g.nodes) x,
    ),
    ground (
      arith,
      e,
      lookup-adjust x id (mark_completed r) g.nodes,
      lookup-refresh_nodes (set_insert id g.completed_ids) (adjust id (mark_completed r) g.nodes) x,
    ),
  )

  pub fail_task-runs :
      (id error : String)
      → fail_task g id error ≡ ok h
      → (runs agent after ≡ (not (id == x) && runs agent before))
        × (retries_of after ≡ retries_of before)
  unfolding fail_task block_node is_pending
  fail_task-runs id error e = elim (Option-cases (lookup id g.nodes)) [
    | inl f ↦ ground (arith, e, f)
    | inr (n, f) ↦ (
      ground (
        arith,
        e,
        f,
        lookup-adjust x id (mark_failed error) g.nodes,
        lookup-block_all n.dependents (adjust id (mark_failed error) g.nodes) x,
      ),
      ground (
        arith,
        e,
        f,
        lookup-adjust x id (mark_failed error) g.nodes,
        lookup-block_all n.dependents (adjust id (mark_failed error) g.nodes) x,
      ),
    )
  ]

  pub retry_task-runs :
      (id : String)
      → retry_task g id ≡ ok h
      → (runs agent after ≡ runs agent before)
        × (retries_of after
            ≡ (if id == x then (retries_of before + 1) % 2 ^ 32 else retries_of before))
  unfolding retry_task refresh_ready_status refresh_node
  retry_task-runs id e = (
    ground (
      arith,
      e,
      lookup-adjust x id mark_retried g.nodes,
      lookup-refresh_nodes g.completed_ids (adjust id mark_retried g.nodes) x,
    ),
    ground (
      arith,
      e,
      lookup-adjust x id mark_retried g.nodes,
      lookup-refresh_nodes g.completed_ids (adjust id mark_retried g.nodes) x,
    ),
  )
