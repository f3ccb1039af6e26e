-- ===== src/Mission/Loop.antt =====
-- src/mission/types.rs: the tasks of a mission as its status queries see them, and
-- src/orchestrator/engine/execution.rs: the loop that runs them. What happens to the started tasks
-- (calls of agents, their verification and recovery) is a function on the tasks, which may also end in
-- an escalation that leaves the loop. The time-out, the signals, the context, the checkpoints and the
-- errors of the stores are left out.
use claude_pilot.Base.{
  ℕ, zero, suc, ◌+◌, ◌-◌, String, Bool, true, false, ◌&&◌, ◌||◌, not, Option, none, some, List, [],
  ◌∷◌, map, ◌==◌, string_eq, list_eq, nat_eq, contains, length, all, any, keep, is_empty, ltb, leb,
  if◌then◌else◌,
}
use claude_pilot.Events.TaskStatus.{TaskStatus, is_active}
use claude_pilot.Mission.Tasks.{Task, has, can_start, can_retry, start_one, skip_one}

-- Completed or skipped.
abbrev pub is_satisfied : Task → Bool
is_satisfied t = has TaskStatus.completed t || has TaskStatus.skipped t

abbrev pub is_failed_for_good : Task → Bool
is_failed_for_good t = has TaskStatus.failed t && not (can_retry t)

abbrev pub is_done : Task → Bool
is_done t = is_satisfied t || is_failed_for_good t

unfoldable pub all_tasks_done : List Task → Bool
all_tasks_done ts = not (is_empty ts) && all is_done ts

unfoldable pub permanently_failed_tasks : List Task → List Task
permanently_failed_tasks ts = keep is_failed_for_good ts

-- The counts of `progress`.
unfoldable pub progress_counts : List Task → ℕ × ℕ
progress_counts ts = (length (keep is_done ts), length ts)

abbrev pub ids : List Task → List String
ids ts = map (λ (t : Task). t.id) ts

unfoldable pub next_tasks : List Task → List Task
next_tasks ts = keep (can_start (ids (keep is_satisfied ts))) ts

-- A pending task with the dependencies that failed for good, which are not none.
abbrev pub is_blocked : List String → Task → Bool
is_blocked failed t = has TaskStatus.pending t && any (contains failed) t.dependencies

unfoldable pub tasks_blocked_by_failed_deps : List Task → List (Task × List String)
unfolding permanently_failed_tasks
tasks_blocked_by_failed_deps ts =
    let failed = ids (permanently_failed_tasks ts) in
    map (λ (t : Task). (t, keep (contains failed) t.dependencies)) (keep (is_blocked failed) ts)

unfoldable pub active_tasks : List Task → List Task
unfolding is_active
active_tasks ts = keep (λ t. is_active t.status) ts

-- `task_mut`: the first task with the identifier.
unfoldable pub update_task : String → (Task → Task) → List Task → List Task
update_task id f [] = []
update_task id f (t ∷ ts) = if t.id == id then f t ∷ ts else t ∷ update_task id f ts

-- The loop over the blocked tasks; `text` formats the reason.
unfoldable pub skip_all :
    ℕ → (List String → String) → List (Task × List String) → List Task → List Task
skip_all now text [] ts = ts
skip_all now text ((t, failed) ∷ bs) ts =
    skip_all now text bs (update_task t.id (skip_one now (text failed)) ts)

unfoldable pub start_all : ℕ → List Task → List Task → List Task
start_all now [] ts = ts
start_all now (t ∷ next) ts = start_all now next (update_task t.id (start_one now) ts)

-- What becomes of the tasks once the next ones are started: the results are all processed, or one of
-- them is escalated, with its reason, and the results after it are not processed.
pub data Performed : Type 0 where
  processed : List Task → Performed
  escalated : String → List Task → Performed

abbrev pub tasks_in : Performed → List Task
tasks_in (processed ts) = ts
tasks_in (escalated reason ts) = ts

-- One round.
unfoldable pub round : ℕ → (List String → String) → (List Task → Performed) → List Task → Performed
round now text perform ts =
    if is_empty (next_tasks ts)
    then processed (
        if is_empty (active_tasks ts)
        then skip_all now text (tasks_blocked_by_failed_deps ts) ts
        else ts)
    else perform (start_all now (next_tasks ts) ts)

pub record Work : Type 0 where
  pub tasks : List Task
  pub iteration : ℕ
  pub max_iterations : ℕ

-- The mission after a round.
abbrev pub worked : Work → Performed → Work
worked w done = record w { tasks = tasks_in done; iteration = w.iteration + 1 }

-- `Err(PilotError::EscalationRequired)` returns from the loop; otherwise the next round follows.
abbrev pub after_performed :
    Work → Performed → Option (Work × Option String) → Option (Work × Option String)
after_performed w (processed ts) next = next
after_performed w (escalated reason ts) next = some (worked w (escalated reason ts), some reason)

-- The loop, until a task is escalated, all tasks are done or the iterations are used up; with the
-- mission comes the reason of the escalation. `none` means that the fuel ran out. `clock` and `perform`
-- give the time and the work of each iteration.
unfoldable pub run_rounds :
    ℕ
    → (ℕ → ℕ)
    → (List String → String)
    → (ℕ → List Task → Performed)
    → Work
    → Option (Work × Option String)
run_rounds zero clock text perform w = none
run_rounds (suc fuel) clock text perform w =
    let done = round (clock w.iteration) text (perform w.iteration) w.tasks in
    let next = run_rounds fuel clock text perform (worked w done) in
    if not (all_tasks_done w.tasks) && ltb w.iteration w.max_iterations
    then after_performed w done next
    else some (w, none)

pub data LoopEnd : Type 0 where
  escalation_required : String → LoopEnd
  iterations_exceeded : LoopEnd
  tasks_failed : List String → LoopEnd
  finalizing : LoopEnd

-- What follows the loop when it is not left; the mission fails in the first and the last branch.
unfoldable pub after_rounds : Work → LoopEnd
after_rounds w =
    if leb w.max_iterations w.iteration
    then iterations_exceeded
    else if is_empty (permanently_failed_tasks w.tasks)
    then finalizing
    else tasks_failed (ids (permanently_failed_tasks w.tasks))

-- How the loop ended, and what follows it if it was not left.
abbrev pub loop_end : Work × Option String → Work × LoopEnd
loop_end (w, none) = (w, after_rounds w)
loop_end (w, some reason) = (w, escalation_required reason)

-- As many rounds as iterations are left, and one for the last test.
unfoldable pub execute_loop :
    (ℕ → ℕ) → (List String → String) → (ℕ → List Task → Performed) → Work → Option (Work × LoopEnd)
execute_loop clock text perform w =
    elim (run_rounds (suc (w.max_iterations - w.iteration)) clock text perform w) [
      | none ↦ none
      | some v ↦ some (loop_end v)
    ]

-- src/orchestrator/engine/lifecycle.rs: the tasks of a mission that is tried again, all of them or
-- those that failed or ran.
unfoldable pub reset_task : Bool → Task → Task
reset_task true t = record t { status = TaskStatus.pending; retry_count = 0 }
reset_task false t =
    if has TaskStatus.failed t || has TaskStatus.in_progress t
    then record t { status = TaskStatus.pending; retry_count = 0 }
    else t

abbrev pub reset_tasks : Bool → List Task → List Task
reset_tasks reset_all ts = map (reset_task reset_all) ts
