-- ===== src/TaskGraph/Calls.antt =====
-- A session's calls on its task graph, one after the other. Every error of task_graph.rs is
-- returned before the graph is written.
use claude_pilot.Base.{String, List, [], ◌∷◌}
use claude_pilot.TaskGraph.{
  TaskDag, TaskDependency, TaskInfo, DagTaskResult, Result, ok, err, add_task, add_dependency,
  refresh_ready_status, start_task, complete_task, fail_task, retry_task,
}

pub data Call : Type 0 where
  adds : TaskInfo → Call
  links : TaskDependency → Call
  refreshes : Call
  starts : String → String → Call
  completes : String → DagTaskResult → Call
  fails : String → String → Call
  retries : String → Call

abbrev pub after : TaskDag → Result TaskDag → TaskDag
after g (ok h) = h
after g (err e) = g

unfoldable pub step : TaskDag → Call → TaskDag
step g (adds info) = add_task g info
step g (links d) = after g (add_dependency g d)
step g refreshes = refresh_ready_status g
step g (starts id agent) = after g (start_task g id agent)
step g (completes id r) = after g (complete_task g id r)
step g (fails id error) = after g (fail_task g id error)
step g (retries id) = after g (retry_task g id)

unfoldable pub run : TaskDag → List Call → TaskDag
run g [] = g
run g (c ∷ cs) = run (step g c) cs
