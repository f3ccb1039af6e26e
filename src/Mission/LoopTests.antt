-- ===== src/Mission/LoopTests.antt =====
-- Missions with few tasks, their loops, and the theorems at these runs.
use claude_pilot.Base.{
  ℕ, ◌*◌, String, ◌≡◌, refl, true, ◌||◌, Option, some, List, [], ◌∷◌, map, arith, string_eq,
  list_eq, nat_eq, contains, keep, if◌then◌else◌, decide_by, string_dec,
}
use claude_pilot.Events.TaskStatus.{TaskStatus, is_active}
use claude_pilot.Mission.Tasks.{
  Task, TaskResult, new_task, outcome, with_dependencies, has, can_start, can_retry, start_one,
  complete_one, skip_one, fail_one,
}
use claude_pilot.Mission.Loop.{
  Performed, processed, escalated, tasks_in, loop_end, escalation_required, Work,
  iterations_exceeded, is_satisfied, is_failed_for_good, all_tasks_done, permanently_failed_tasks,
  ids, next_tasks, tasks_blocked_by_failed_deps, active_tasks, update_task, skip_all, start_all,
  round, run_rounds, after_rounds, execute_loop, reset_task,
}
use claude_pilot.Mission.Rounds.{
  execute_loop_ends, execute_loop_stalled, round_satisfies, fail_again, fail_again_lem, HasEnded,
}

runs : String
unfolding string_dec decide_by is_active new_task can_start can_retry start_one complete_one
    skip_one fail_one all_tasks_done permanently_failed_tasks next_tasks
    tasks_blocked_by_failed_deps active_tasks update_task skip_all start_all round run_rounds
    after_rounds execute_loop reset_task fail_again
runs = "runs"

abbrev clock : ℕ → ℕ
clock i = 10 * i

abbrev text : List String → String
text failed = "Dependency failed permanently"

abbrev success : TaskResult
success = outcome true "done"

-- Every task that runs completes.
abbrev finish_all : ℕ → List Task → Performed
finish_all i ts =
    processed (map (λ t. if has TaskStatus.in_progress t then complete_one i success t else t) ts)

abbrev broken : Task
broken = fail_again ("a" ∷ "b" ∷ "c" ∷ "d" ∷ []) (new_task "build" "a task")

abbrev chain : List Task
chain =
    broken
    ∷ with_dependencies ("build" ∷ []) (new_task "check" "a task")
    ∷ with_dependencies ("check" ∷ []) (new_task "ship" "a task")
    ∷ []

-- The task that waits for the skipped one can start.
skipped_frees : ids (next_tasks (tasks_in (round 5 text (finish_all 0) chain))) ≡ "ship" ∷ []
unfolding runs
skipped_frees = refl

round_satisfies_example :
    contains (ids (keep is_satisfied (tasks_in (round 5 text (finish_all 0) chain)))) "check" ≡ true
unfolding runs
round_satisfies_example = round_satisfies 5 text (finish_all 0) chain "check" refl refl refl

abbrev lone : Work
lone = record { tasks = new_task "build" "a task" ∷ []; iteration = 0; max_iterations = 1 }

-- The first task that runs is escalated.
abbrev give_up : ℕ → List Task → Performed
give_up i ts = escalated "no way forward" ts

escalation_leaves :
    execute_loop clock text give_up lone
    ≡ some (
      record {
        tasks = start_one 0 (new_task "build" "a task") ∷ [];
        iteration = 1;
        max_iterations = 1;
      },
      escalation_required "no way forward",
    )
unfolding runs
escalation_leaves = refl

execute_loop_ends_example :
    (v : Work) × (why : Option String) × (execute_loop clock text give_up lone
      ≡ some (loop_end (v, why)))
    × HasEnded clock text give_up lone v why
    × (v.max_iterations ≡ 1)
execute_loop_ends_example = execute_loop_ends clock text give_up lone

abbrev waiting : Work
waiting = record {
  tasks = with_dependencies ("build" ∷ []) (new_task "build" "a task") ∷ [];
  iteration = 0;
  max_iterations = 100;
}

execute_loop_stalled_example :
    execute_loop clock text finish_all waiting
    ≡ some (record waiting { iteration = 100 }, iterations_exceeded)
unfolding runs
execute_loop_stalled_example = execute_loop_stalled clock text finish_all waiting refl (omega arith)

fail_again_lem_example :
    (broken.retry_count ≡ 4)
    × (has TaskStatus.failed broken ≡ true)
    × (is_failed_for_good broken ≡ has TaskStatus.failed broken)
    × ((has TaskStatus.failed broken || has TaskStatus.pending broken) ≡ true)
unfolding runs
fail_again_lem_example =
    fail_again_lem "a" ("b" ∷ "c" ∷ "d" ∷ []) (new_task "build" "a task") (omega arith)
