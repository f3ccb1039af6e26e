-- ===== src/TaskGraph/Failure.antt =====
-- `fail_task` and `retry_task`: what a failure blocks, and that nothing unblocks it.
use claude_pilot.Base.{
  contains-set_insert, String, ◌≡◌, Bool, true, false, Option, none, some, List, [], ◌∷◌, all,
  contains, string_eq, Option-cases, inl, inr, arith, ◌==◌, ◌&&◌, set_insert, set_remove, not,
  if◌then◌else◌,
}
use claude_pilot.Base.Assoc.{lookup, values, adjust, lookup-adjust, lookup-insert}
use claude_pilot.TaskGraph.{
  TaskNode, TaskDag, TaskDependency, DagTaskResult, NodeStatus, blocked, ok, is_pending,
  is_terminal, is_complete, add_task, new_node, add_dependency, start_task, complete_task,
  fail_task, retry_task, refresh_ready_status, refresh_node, block_node, block_all, mark_failed,
  mark_completed, mark_retried, mark_started, add_dependent, add_prerequisite,
}
use claude_pilot.TaskGraph.Calls.{
  Call, adds, links, refreshes, starts, completes, fails, retries, after, step, run,
}
use claude_pilot.TaskGraph.Lookup.{lookup-refresh_nodes, lookup-block_all}

-- A failure marks the task with the error and records its id, and of the other tasks it blocks
-- exactly the dependents that are pending or ready; every other task keeps its node.
pub fail_task_lem :
    (g : TaskDag) (id error x : String) (n m : TaskNode)
    → lookup id g.nodes ≡ some n
    → lookup x g.nodes ≡ some m
    → (id == x) ≡ false
    → (h : TaskDag) × (fail_task g id error ≡ ok h)
      × (lookup id h.nodes ≡ some (mark_failed error n))
      × (contains h.failed_ids id ≡ true)
      × (lookup x h.nodes
          ≡ some (
              if contains n.dependents x && is_pending m.status
              then record m { status = blocked }
              else m))
unfolding fail_task block_node is_pending
fail_task_lem g id error x n m found there apart = (
  record g {
    nodes = block_all n.dependents (adjust id (mark_failed error) g.nodes);
    failed_ids = set_insert id g.failed_ids;
  },
  ground arith,
  ground (
    arith,
    lookup-block_all n.dependents (adjust id (mark_failed error) g.nodes) id,
    lookup-adjust id id (mark_failed error) g.nodes,
  ),
  ground (arith, contains-set_insert id id g.failed_ids),
  ground (
    arith,
    lookup-block_all n.dependents (adjust id (mark_failed error) g.nodes) x,
    lookup-adjust x id (mark_failed error) g.nodes,
  ),
)

-- The call does not write the task itself.
abbrev pub spares : String → Call → Bool
spares x (adds info) = not (info.id == x)
spares x (completes id r) = not (id == x)
spares x (fails id error) = not (id == x)
spares x (links d) = true
spares x refreshes = true
spares x (starts id agent) = true
spares x (retries id) = true

abbrev pub status_at : TaskDag → String → Option NodeStatus
status_at g x = elim (lookup x g.nodes) [ none ↦ none | some n ↦ some n.status ]

refresh-blocked :
    (g : TaskDag) (x : String)
    → status_at g x ≡ some blocked
    → status_at (refresh_ready_status g) x ≡ some blocked
unfolding refresh_ready_status refresh_node
refresh-blocked g x b = ground (arith, lookup-refresh_nodes g.completed_ids g.nodes x)

links-blocked :
    (g : TaskDag) (d : TaskDependency) (x : String)
    → status_at g x ≡ some blocked
    → status_at (after g (add_dependency g d)) x ≡ some blocked
unfolding add_dependency
links-blocked g d x b = ground (
  arith,
  lookup-adjust x d.dependent (add_prerequisite d.prerequisite)
      (adjust d.prerequisite (add_dependent d.dependent) g.nodes),
  lookup-adjust x d.prerequisite (add_dependent d.dependent) g.nodes,
)

fails-blocked :
    (g : TaskDag) (id error x : String)
    → (id == x) ≡ false
    → status_at g x ≡ some blocked
    → status_at (after g (fail_task g id error)) x ≡ some blocked
unfolding fail_task block_node
fails-blocked g id error x apart b = elim (Option-cases (lookup id g.nodes)) [
  | inl e ↦ rw (e, fail_task) b
  | inr (n, e) ↦ ground (
    arith,
    lookup-block_all n.dependents (adjust id (mark_failed error) g.nodes) x,
    lookup-adjust x id (mark_failed error) g.nodes,
  )
]

completes-blocked :
    (g : TaskDag) (id x : String) (r : DagTaskResult)
    → (id == x) ≡ false
    → status_at g x ≡ some blocked
    → status_at (after g (complete_task g id r)) x ≡ some blocked
unfolding complete_task
completes-blocked g id x r apart b = ground (
  arith,
  lookup-adjust x id (mark_completed r) g.nodes,
  refresh-blocked
      (record g {
        nodes = adjust id (mark_completed r) g.nodes;
        completed_ids = set_insert id g.completed_ids;
      })
      x,
)

retries-blocked :
    (g : TaskDag) (id x : String)
    → status_at g x ≡ some blocked
    → status_at (after g (retry_task g id)) x ≡ some blocked
unfolding retry_task
retries-blocked g id x b = ground (
  arith,
  lookup-adjust x id mark_retried g.nodes,
  refresh-blocked
      (record g { nodes = adjust id mark_retried g.nodes; failed_ids = set_remove id g.failed_ids })
      x,
)

step-blocked :
    (g : TaskDag) (c : Call) (x : String)
    → spares x c ≡ true
    → status_at g x ≡ some blocked
    → status_at (step g c) x ≡ some blocked
unfolding step add_task start_task
step-blocked g (adds info) x s b = ground (arith, lookup-insert x info.id (new_node info) g.nodes)
step-blocked g (links d) x s b = links-blocked g d x b
step-blocked g refreshes x s b = refresh-blocked g x b
step-blocked g (starts id agent) x s b =
    ground (arith, lookup-adjust x id (mark_started agent) g.nodes)
step-blocked g (completes id r) x s b = completes-blocked g id x r (ground arith) b
step-blocked g (fails id error) x s b = fails-blocked g id error x (ground arith) b
step-blocked g (retries id) x s b = retries-blocked g id x b

run-blocked :
    (g : TaskDag) (cs : List Call) (x : String)
    → all (spares x) cs ≡ true
    → status_at g x ≡ some blocked
    → status_at (run g cs) x ≡ some blocked
unfolding run
run-blocked g [] x s b = b
run-blocked g (c ∷ cs) x s b =
    run-blocked (step g c) cs x (ground arith) (step-blocked g c x (ground arith) b)

blocked_not-all :
    (m : List (String × TaskNode)) (x : String) (n : TaskNode)
    → lookup x m ≡ some n
    → n.status ≡ blocked
    → all (λ k. is_terminal k.status) (values m) ≡ false
unfolding lookup is_terminal
blocked_not-all [] x n l b = cc
blocked_not-all ((id, k) ∷ m) x n l b = ground (arith, blocked_not-all m x n)

-- A blocked task stays blocked over every sequence of calls that does not complete, fail or
-- re-add the task itself, retries and completions of its prerequisites included, and the graph is
-- then never complete.
pub run_blocked_forever :
    (g : TaskDag) (cs : List Call) (x : String)
    → status_at g x ≡ some blocked
    → all (spares x) cs ≡ true
    → (status_at (run g cs) x ≡ some blocked) × (is_complete (run g cs) ≡ false)
unfolding is_complete
run_blocked_forever g cs x b s = (
  run-blocked g cs x s b,
  elim (Option-cases (lookup x (run g cs).nodes)) [
    | inl e ↦ ground (arith, run-blocked g cs x s b)
    | inr (n, e) ↦ ground (arith, run-blocked g cs x s b, blocked_not-all (run g cs).nodes x n)
  ],
)
