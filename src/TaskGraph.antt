-- ===== src/TaskGraph.antt =====
-- src/agent/multi/session/task_graph.rs: the task dependency graph of an orchestration session.
-- A method that mutates the graph returns the new graph, or an error with the arguments of the
-- message that the code formats. `HashSet` is a list without order and `HashMap` an association
-- list. The count of retries is 32 bits wide.
mod Node
pub mod Calls
pub mod Edges
pub mod Lookup
pub mod Order
pub mod InOrder
pub mod Search
pub mod Acyclic
pub mod Ready
pub mod Start
pub mod Failure
pub mod Stats
pub mod Tests
unfoldable pub use Node.*
use claude_pilot.Base.{
  ℕ, zero, suc, ◌+◌, String, Bool, true, false, ◌&&◌, ◌||◌, not, Option, none, some, List, [], ◌∷◌,
  ◌++◌, DecEq, ◌==◌, string_eq, contains, set_insert, set_remove, is_subset, is_some, eqb,
  if◌then◌else◌, keep, all, length,
}
use claude_pilot.Base.Assoc.{lookup, insert, adjust, keys, values}

pub record TaskDag : Type 0 where
  pub nodes : List (String × TaskNode)
  pub completed_ids : List String
  pub failed_ids : List String

pub data DagError : Type 0 where
  prerequisite_not_found dependent_not_found task_not_found task_not_failed : String → DagError
  would_cycle : String → String → DagError
  not_runnable : String → NodeStatus → DagError
  unmet : String → List String → DagError

pub data Result {ℓ} (A : Type ℓ) : Type ℓ where
  ok : A → Result A
  err : DagError → Result A

unfoldable pub new : TaskDag
new = record { nodes = []; completed_ids = []; failed_ids = [] }

unfoldable pub get : TaskDag → String → Option TaskNode
get g id = lookup id g.nodes

unfoldable pub add_task : TaskDag → TaskInfo → TaskDag
add_task g info = record g { nodes = insert info.id (new_node info) g.nodes }

abbrev pub dependents_of : List (String × TaskNode) → String → List String
dependents_of nodes id = elim (lookup id nodes) [ none ↦ [] | some n ↦ n.dependents ]

-- What the loop body pushes: the dependents of a node that was not visited before.
unfoldable pub enqueue : List (String × TaskNode) → List String → String → List String → List String
enqueue nodes visited current queue =
    if contains visited current then queue else queue ++ dependents_of nodes current

-- The loop of `would_create_cycle`; `none` means that the fuel ran out.
unfoldable pub search_from :
    ℕ → List (String × TaskNode) → String → List String → List String → Option Bool
search_from zero nodes from visited queue = none
search_from (suc fuel) nodes from visited [] = some false
search_from (suc fuel) nodes from visited (current ∷ queue) =
    let rest =
      search_from fuel nodes from (set_insert current visited)
        (enqueue nodes visited current queue) in
    if current == from then some true else rest

-- Every node is expanded at most once, so that many pops are enough.
unfoldable pub edge_count : List (String × TaskNode) → ℕ
edge_count [] = 0
edge_count ((id, n) ∷ m) = length n.dependents + edge_count m

unfoldable pub would_create_cycle : TaskDag → String → String → Bool
would_create_cycle g from to =
    elim (search_from (suc (suc (edge_count g.nodes))) g.nodes from [] (to ∷ [])) [
      | some found ↦ found
      | none ↦ false
    ]

unfoldable pub add_dependency : TaskDag → TaskDependency → Result TaskDag
add_dependency g d =
    if not (is_some (lookup d.prerequisite g.nodes))
    then err (prerequisite_not_found d.prerequisite)
    else if not (is_some (lookup d.dependent g.nodes))
    then err (dependent_not_found d.dependent)
    else if would_create_cycle g d.prerequisite d.dependent
    then err (would_cycle d.prerequisite d.dependent)
    else ok (record g {
      nodes =
          adjust d.dependent (add_prerequisite d.prerequisite)
            (adjust d.prerequisite (add_dependent d.dependent) g.nodes);
    })

unfoldable pub ready_tasks : TaskDag → List TaskNode
ready_tasks g = keep (is_ready g.completed_ids) (values g.nodes)

unfoldable pub ready_tasks_for_module : TaskDag → String → List TaskNode
ready_tasks_for_module g m = keep (λ n. n.info.target_module == m) (ready_tasks g)

unfoldable pub refresh_nodes : List String → List (String × TaskNode) → List (String × TaskNode)
refresh_nodes done [] = []
refresh_nodes done ((id, n) ∷ m) = (id, refresh_node done n) ∷ refresh_nodes done m

unfoldable pub refresh_ready_status : TaskDag → TaskDag
refresh_ready_status g = record g { nodes = refresh_nodes g.completed_ids g.nodes }

unfoldable pub start_task : TaskDag → String → String → Result TaskDag
unfolding has_unmet_dependencies is_runnable
start_task g id agent = elim (lookup id g.nodes) [
  | none ↦ err (task_not_found id)
  | some n ↦
      if not (is_runnable n.status) && not (same_status n.status pending)
      then err (not_runnable id n.status)
      else if has_unmet_dependencies n g.completed_ids
      then err (unmet id (unmet_dependencies n g.completed_ids))
      else ok (record g { nodes = adjust id (mark_started agent) g.nodes })
]

unfoldable pub complete_task : TaskDag → String → DagTaskResult → Result TaskDag
complete_task g id r = elim (lookup id g.nodes) [
  | none ↦ err (task_not_found id)
  | some n ↦ ok (
      refresh_ready_status (record g {
        nodes = adjust id (mark_completed r) g.nodes;
        completed_ids = set_insert id g.completed_ids;
      }))
]

-- The loop of `fail_task` over the dependents.
unfoldable pub block_all : List String → List (String × TaskNode) → List (String × TaskNode)
block_all [] nodes = nodes
block_all (d ∷ ds) nodes = block_all ds (adjust d block_node nodes)

unfoldable pub fail_task : TaskDag → String → String → Result TaskDag
fail_task g id error = elim (lookup id g.nodes) [
  | none ↦ err (task_not_found id)
  | some n ↦ ok (record g {
    nodes = block_all n.dependents (adjust id (mark_failed error) g.nodes);
    failed_ids = set_insert id g.failed_ids;
  })
]

unfoldable pub retry_task : TaskDag → String → Result TaskDag
retry_task g id = elim (lookup id g.nodes) [
  | none ↦ err (task_not_found id)
  | some n ↦
      if not (same_status n.status failed)
      then err (task_not_failed id)
      else ok (
          refresh_ready_status (record g {
            nodes = adjust id mark_retried g.nodes;
            failed_ids = set_remove id g.failed_ids;
          }))
]

unfoldable pub is_complete : TaskDag → Bool
unfolding is_terminal
is_complete g = all (λ n. is_terminal n.status) (values g.nodes)

unfoldable pub task_ids : TaskDag → List String
task_ids g = keys g.nodes
