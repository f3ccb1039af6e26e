-- ===== src/TaskGraph/Tests.antt =====
-- Runs of a small graph, in which `build` comes before `check` and `check` before `ship`, and the
-- theorems at these runs.
use claude_pilot.Base.{
  string_eq, String, ◌≡◌, refl, true, false, none, some, List, [], ◌∷◌, string_dec, decide_by,
  set_insert, set_remove,
}
use claude_pilot.Base.Assoc.{lookup, insert, adjust}
use claude_pilot.TaskGraph.{
  TaskNode, TaskDag, TaskInfo, TaskDependency, DagTaskResult, NodeStatus, pending, ready, blocked,
  completed, blocking, err, would_cycle, new, add_task, add_dependency, new_node, enqueue,
  search_from, edge_count, would_create_cycle, start_task, complete_task, fail_task, retry_task,
  refresh_nodes, refresh_node, refresh_ready_status, ready_tasks, is_ready, block_all, block_node,
  is_complete, is_pending, mark_started,
}
use claude_pilot.TaskGraph.Calls.{
  Call, adds, links, refreshes, starts, completes, fails, retries, step, run,
}
use claude_pilot.TaskGraph.Edges.{Reach, IsAcyclic}
use claude_pilot.TaskGraph.Search.{would_create_cycle_iff}
use claude_pilot.TaskGraph.Acyclic.{run-new-IsAcyclic}
use claude_pilot.TaskGraph.Failure.{run_blocked_forever, status_at}

abbrev info : String → TaskInfo
info id = record {
  id = id;
  description = "a task";
  target_module = "core";
  required_role = "coder";
  estimated_complexity = 1000;
  priority = 1;
  affected_files = [];
}

abbrev needs : String → String → TaskDependency
needs dependent prerequisite = record {
  prerequisite = prerequisite;
  dependent = dependent;
  dependency_type = blocking;
}

abbrev done : DagTaskResult
done = record { success = true; output = "done"; files_modified = []; artifacts = [] }

abbrev setup : List Call
setup =
    adds (info "build")
    ∷ adds (info "check")
    ∷ adds (info "ship")
    ∷ links (needs "check" "build")
    ∷ links (needs "ship" "check")
    ∷ []

abbrev pipeline : TaskDag
pipeline = run new setup

-- The names to see through in a run.
runs : String
unfolding run step new add_task add_dependency new_node would_create_cycle search_from edge_count
    enqueue start_task complete_task fail_task retry_task refresh_nodes refresh_node
    refresh_ready_status block_all block_node set_insert set_remove lookup insert adjust string_dec
    decide_by is_complete ready_tasks is_ready is_pending
runs = "runs"

cycle_is_refused : add_dependency pipeline (needs "build" "ship") ≡ err (would_cycle "ship" "build")
unfolding runs
cycle_is_refused = refl

abbrev started : List Call
started = refreshes ∷ starts "build" "coder-0" ∷ completes "build" done ∷ []

check_is_ready : status_at (run pipeline started) "check" ≡ some ready
unfolding runs
check_is_ready = refl

run-new-IsAcyclic_example : IsAcyclic (run new setup).nodes
run-new-IsAcyclic_example = run-new-IsAcyclic setup

would_create_cycle_iff_example :
    (would_create_cycle pipeline "ship" "build" ≡ true → Reach pipeline.nodes "build" "ship")
    × (Reach pipeline.nodes "build" "ship" → would_create_cycle pipeline "ship" "build" ≡ true)
would_create_cycle_iff_example = would_create_cycle_iff pipeline "ship" "build"

abbrev node : String → NodeStatus → List String → List String → TaskNode
node id status dependencies dependents = record {
  info = info id;
  status = status;
  assigned_to = none;
  dependencies = dependencies;
  dependents = dependents;
  result = none;
  retry_count = 0;
}

abbrev opened : TaskDag
opened = run pipeline (refreshes ∷ [])

abbrev build_node : TaskNode
build_node = node "build" ready [] ("check" ∷ [])

abbrev running : TaskDag
running = step opened (starts "build" "coder-0")

abbrev started_build : TaskNode
started_build = mark_started "coder-0" build_node

abbrev check_node : TaskNode
check_node = node "check" pending ("build" ∷ []) ("ship" ∷ [])

abbrev broken : TaskDag
broken = step running (fails "build" "no compiler")

-- The failed task is retried and completes.
abbrev recovery : List Call
recovery = retries "build" ∷ starts "build" "coder-1" ∷ completes "build" done ∷ []

run_blocked_forever_example :
    (status_at (run broken recovery) "check" ≡ some blocked)
    × (is_complete (run broken recovery) ≡ false)
unfolding runs
run_blocked_forever_example = run_blocked_forever broken recovery "check" refl refl

build_has_completed : status_at (run broken recovery) "build" ≡ some completed
unfolding runs
build_has_completed = refl
