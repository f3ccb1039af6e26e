-- ===== src/TaskGraph/Order.antt =====
-- Tasks begin in order: no task is ready or in progress before its prerequisites are completed.
use claude_pilot.Base.{
  String, ◌≡◌, ◌⊎◌, inl, inr, Bool, true, false, some, contains, contains-set_insert,
  is_subset-contains, set_remove, string_eq, Option-cases, arith,
}
use claude_pilot.Base.Assoc.{lookup, adjust, lookup-adjust, lookup-insert}
use claude_pilot.TaskGraph.{
  TaskNode, TaskDag, TaskInfo, DagTaskResult, new_node, NodeStatus, ready, in_progress, completed,
  is_pending, add_task, refresh_node, refresh_ready_status, start_task, complete_task, fail_task,
  retry_task, block_node, mark_started, mark_completed, mark_failed, mark_retried,
}
use claude_pilot.TaskGraph.Calls.{after}
use claude_pilot.TaskGraph.Lookup.{lookup-refresh_nodes, lookup-block_all}

abbrev pub has_begun : NodeStatus → Bool
has_begun ready = true
has_begun in_progress = true
has_begun _ = false

-- A task that is ready or in progress has every prerequisite among the completed tasks, and a
-- task with status `completed` is among them.
pub record IsOrdered (g : TaskDag) : Type 0 where
  pub begun :
      (x : String) (n : TaskNode) (d : String)
      → lookup x g.nodes ≡ some n
      → has_begun n.status ≡ true
      → contains n.dependencies d ≡ true
      → contains g.completed_ids d ≡ true
  pub recorded :
      (x : String) (n : TaskNode)
      → lookup x g.nodes ≡ some n
      → n.status ≡ completed
      → contains g.completed_ids x ≡ true

pub add_task-IsOrdered : (g : TaskDag) (info : TaskInfo) → IsOrdered g → IsOrdered (add_task g info)
unfolding add_task new_node
add_task-IsOrdered g info o = record {
  begun =
      λ x n d l b i. ground (arith, lookup-insert x info.id (new_node info) g.nodes, o.begun x n d);
  recorded =
      λ x n l c. ground (arith, lookup-insert x info.id (new_node info) g.nodes, o.recorded x n);
}

pub refresh-IsOrdered : (g : TaskDag) → IsOrdered g → IsOrdered (refresh_ready_status g)
unfolding refresh_ready_status refresh_node
refresh-IsOrdered g o = record {
  begun = λ x n d l b i. elim (Option-cases (lookup x g.nodes)) [
    | inl e ↦ ground (arith, lookup-refresh_nodes g.completed_ids g.nodes x)
    | inr (n', e) ↦ ground (
      arith,
      lookup-refresh_nodes g.completed_ids g.nodes x,
      o.begun x n' d,
      is_subset-contains n'.dependencies g.completed_ids d,
    )
  ];
  recorded = λ x n l c. elim (Option-cases (lookup x g.nodes)) [
    | inl e ↦ ground (arith, lookup-refresh_nodes g.completed_ids g.nodes x)
    | inr (n', e) ↦ ground (arith, lookup-refresh_nodes g.completed_ids g.nodes x, o.recorded x n')
  ];
}

pub start_task-IsOrdered :
    (g : TaskDag) (id agent : String) → IsOrdered g → IsOrdered (after g (start_task g id agent))
unfolding start_task
start_task-IsOrdered g id agent o = record {
  begun = λ x n d l b i. elim (Option-cases (lookup x g.nodes)) [
    | inl e ↦ ground (arith, lookup-adjust x id (mark_started agent) g.nodes)
    | inr (m, e) ↦ ground (
      arith,
      lookup-adjust x id (mark_started agent) g.nodes,
      o.begun x m d,
      is_subset-contains m.dependencies g.completed_ids d,
    )
  ];
  recorded = λ x n l c. elim (Option-cases (lookup x g.nodes)) [
    | inl e ↦ ground (arith, lookup-adjust x id (mark_started agent) g.nodes)
    | inr (m, e) ↦ ground (arith, lookup-adjust x id (mark_started agent) g.nodes, o.recorded x m)
  ];
}

pub complete_task-IsOrdered :
    (g : TaskDag) (id : String) (r : DagTaskResult)
    → IsOrdered g
    → IsOrdered (after g (complete_task g id r))
unfolding complete_task
complete_task-IsOrdered g id r o = elim (Option-cases (lookup id g.nodes)) [
  | inl e ↦ rw (e, complete_task) o
  | inr (n, e) ↦
      rw (e, complete_task)
        (refresh-IsOrdered _ (record {
          begun = λ x k d l b i. elim (Option-cases (lookup x g.nodes)) [
            | inl none_there ↦ ground (arith, lookup-adjust x id (mark_completed r) g.nodes)
            | inr (m, there) ↦ ground (
              arith,
              lookup-adjust x id (mark_completed r) g.nodes,
              o.begun x m d,
              contains-set_insert id d g.completed_ids,
            )
          ];
          recorded = λ x k l c. elim (Option-cases (lookup x g.nodes)) [
            | inl none_there ↦ ground (arith, lookup-adjust x id (mark_completed r) g.nodes)
            | inr (m, there) ↦ ground (
              arith,
              lookup-adjust x id (mark_completed r) g.nodes,
              o.recorded x m,
              contains-set_insert id x g.completed_ids,
            )
          ];
        }))
]

pub fail_task-IsOrdered :
    (g : TaskDag) (id error : String) → IsOrdered g → IsOrdered (after g (fail_task g id error))
unfolding fail_task block_node is_pending
fail_task-IsOrdered g id error o = elim (Option-cases (lookup id g.nodes)) [
  | inl e ↦ rw (e, fail_task) o
  | inr (k, e) ↦
      rw (e, fail_task)
        (record {
          begun = λ x n d l b i. elim (Option-cases (lookup x g.nodes)) [
            | inl none_there ↦ ground (
              arith,
              lookup-adjust x id (mark_failed error) g.nodes,
              lookup-block_all k.dependents (adjust id (mark_failed error) g.nodes) x,
            )
            | inr (m, there) ↦ ground (
              arith,
              lookup-adjust x id (mark_failed error) g.nodes,
              lookup-block_all k.dependents (adjust id (mark_failed error) g.nodes) x,
              o.begun x m d,
            )
          ];
          recorded = λ x n l c. elim (Option-cases (lookup x g.nodes)) [
            | inl none_there ↦ ground (
              arith,
              lookup-adjust x id (mark_failed error) g.nodes,
              lookup-block_all k.dependents (adjust id (mark_failed error) g.nodes) x,
            )
            | inr (m, there) ↦ ground (
              arith,
              lookup-adjust x id (mark_failed error) g.nodes,
              lookup-block_all k.dependents (adjust id (mark_failed error) g.nodes) x,
              o.recorded x m,
            )
          ];
        })
]

retry_task_cases :
    (g : TaskDag) (id : String)
    → (after g (retry_task g id) ≡ g)
      ⊎ (after g (retry_task g id)
          ≡ refresh_ready_status (record g {
            nodes = adjust id mark_retried g.nodes;
            failed_ids = set_remove id g.failed_ids;
          }))
unfolding retry_task
retry_task_cases g id = ground arith

pub retry_task-IsOrdered :
    (g : TaskDag) (id : String) → IsOrdered g → IsOrdered (after g (retry_task g id))
unfolding retry_task
retry_task-IsOrdered g id o = elim (retry_task_cases g id) [
  | inl e ↦ rw e o
  | inr e ↦ rw e (
      refresh-IsOrdered _ (record {
        begun = λ x k d l b i. elim (Option-cases (lookup x g.nodes)) [
          | inl none_there ↦ ground (arith, lookup-adjust x id mark_retried g.nodes)
          | inr (m, there) ↦ ground (arith, lookup-adjust x id mark_retried g.nodes, o.begun x m d)
        ];
        recorded = λ x k l c. elim (Option-cases (lookup x g.nodes)) [
          | inl none_there ↦ ground (arith, lookup-adjust x id mark_retried g.nodes)
          | inr (m, there) ↦ ground (arith, lookup-adjust x id mark_retried g.nodes, o.recorded x m)
        ];
      }))
]
