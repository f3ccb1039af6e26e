-- ===== src/TaskGraph/Start.antt =====
-- `start_task` and `complete_task`: when a task may start, and what a start and a completion change.
use claude_pilot.Base.{
  false, ◌==◌, String, ◌≡◌, inl, inr, true, some, contains, is_subset-contains, is_subset_intro,
  string_eq, Option-cases, arith,
}
use claude_pilot.Base.Assoc.{lookup, adjust, lookup-adjust}
use claude_pilot.TaskGraph.{TaskNode, TaskDag, ok, is_pending, start_task, mark_started}

-- Every prerequisite of the task is in the set of completed tasks.
abbrev pub PrerequisitesDone : TaskDag → TaskNode → Type 0
PrerequisitesDone g n =
    (d : String) → contains n.dependencies d ≡ true → contains g.completed_ids d ≡ true

-- A pending or ready task whose prerequisites are all completed starts: it is then in progress
-- with the agent that was given, and every other task keeps its node.
pub start_task_succeeds :
    (g : TaskDag) (id agent : String) (n : TaskNode)
    → lookup id g.nodes ≡ some n
    → is_pending n.status ≡ true
    → PrerequisitesDone g n
    → (h : TaskDag) × (start_task g id agent ≡ ok h)
      × (lookup id h.nodes ≡ some (mark_started agent n))
      × ((x : String) → (id == x) ≡ false → lookup x h.nodes ≡ lookup x g.nodes)
unfolding start_task is_pending
start_task_succeeds g id agent n e p done = (
  record g { nodes = adjust id (mark_started agent) g.nodes },
  ground (arith, is_subset_intro n.dependencies g.completed_ids done),
  ground (arith, lookup-adjust id id (mark_started agent) g.nodes),
  λ x apart. ground (arith, lookup-adjust x id (mark_started agent) g.nodes),
)

-- A task that starts was in the graph, pending or ready, with every prerequisite completed.
pub start_task_requires :
    (g h : TaskDag) (id agent : String)
    → start_task g id agent ≡ ok h
    → (n : TaskNode) × (lookup id g.nodes ≡ some n)
      × (is_pending n.status ≡ true)
      × PrerequisitesDone g n
unfolding start_task is_pending
start_task_requires g h id agent e = elim (Option-cases (lookup id g.nodes)) [
  | inl l ↦ ground arith
  | inr (n, l) ↦ (
    n,
    l,
    ground arith,
    λ d i. ground (arith, is_subset-contains n.dependencies g.completed_ids d),
  )
]
