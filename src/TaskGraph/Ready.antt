-- ===== src/TaskGraph/Ready.antt =====
-- `ready_tasks` and `refresh_ready_status`.
use claude_pilot.Base.{
  String, ◌≡◌, refl, true, false, some, List, [], ◌∷◌, map, keep, contains, is_subset_intro,
  string_eq, arith, ◌==◌, set_insert, contains-set_insert,
}
use claude_pilot.Base.Assoc.{lookup, values, adjust, lookup-adjust}
use claude_pilot.TaskGraph.{
  TaskNode, TaskDag, DagTaskResult, pending, ready, ok, is_ready, ready_tasks, refresh_node,
  refresh_nodes, refresh_ready_status, complete_task, mark_completed,
}
use claude_pilot.TaskGraph.Lookup.{lookup-refresh_nodes}

refresh_node-twice :
    (done : List String) (n : TaskNode)
    → refresh_node done (refresh_node done n) ≡ refresh_node done n
unfolding refresh_node
refresh_node-twice done n = ground arith

is_ready-refresh_node :
    (done : List String) (n : TaskNode) → is_ready done (refresh_node done n) ≡ is_ready done n
unfolding refresh_node is_ready
is_ready-refresh_node done n = ground arith

keep-refresh_nodes :
    (done : List String) (m : List (String × TaskNode))
    → keep (is_ready done) (values (refresh_nodes done m))
      ≡ map (refresh_node done) (keep (is_ready done) (values m))
unfolding refresh_nodes
keep-refresh_nodes done [] = refl
keep-refresh_nodes done ((id, n) ∷ m) =
    ground (arith, is_ready-refresh_node done n, keep-refresh_nodes done m)

-- A refresh neither adds a task to `ready_tasks` nor takes one away.
pub ready_tasks-refresh_ready_status :
    (g : TaskDag)
    → ready_tasks (refresh_ready_status g) ≡ map (refresh_node g.completed_ids) (ready_tasks g)
unfolding ready_tasks refresh_ready_status
ready_tasks-refresh_ready_status g = keep-refresh_nodes g.completed_ids g.nodes

refresh_nodes-twice :
    (done : List String) (m : List (String × TaskNode))
    → refresh_nodes done (refresh_nodes done m) ≡ refresh_nodes done m
unfolding refresh_nodes
refresh_nodes-twice done [] = refl
refresh_nodes-twice done ((id, n) ∷ m) =
    ground (arith, refresh_node-twice done n, refresh_nodes-twice done m)

-- A second refresh changes nothing.
pub refresh_ready_status_twice :
    (g : TaskDag) → refresh_ready_status (refresh_ready_status g) ≡ refresh_ready_status g
unfolding refresh_ready_status
refresh_ready_status_twice g = ground (arith, refresh_nodes-twice g.completed_ids g.nodes)

-- When the last open prerequisite of a pending task completes, the task becomes ready in the same
-- call: every other prerequisite being completed, `complete_task` answers a graph in which the
-- task is ready and the finished task counts as completed.
complete_task_releases :
    (g : TaskDag) (id x : String) (r : DagTaskResult) (done n : TaskNode)
    → lookup id g.nodes ≡ some done
    → lookup x g.nodes ≡ some n
    → n.status ≡ pending
    → ((d : String) → contains n.dependencies d ≡ true → contains (id ∷ g.completed_ids) d ≡ true)
    → (id == x) ≡ false
    → (h : TaskDag) × (complete_task g id r ≡ ok h)
      × (lookup x h.nodes ≡ some (record n { status = ready }))
      × (contains h.completed_ids id ≡ true)
unfolding complete_task refresh_ready_status refresh_node
complete_task_releases g id x r done n found there p met apart = (
  refresh_ready_status (record g {
    nodes = adjust id (mark_completed r) g.nodes;
    completed_ids = set_insert id g.completed_ids;
  }),
  ground arith,
  ground (
    arith,
    lookup-refresh_nodes (set_insert id g.completed_ids) (adjust id (mark_completed r) g.nodes) x,
    lookup-adjust x id (mark_completed r) g.nodes,
    is_subset_intro n.dependencies (set_insert id g.completed_ids)
        (λ d i. ground (arith, met d i, contains-set_insert id d g.completed_ids)),
  ),
  ground (arith, contains-set_insert id id g.completed_ids),
)
