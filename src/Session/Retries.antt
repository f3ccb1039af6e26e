-- ===== src/Session/Retries.antt =====
-- src/agent/multi/session/orchestration.rs: no run of calls retries a task more often than configured.
use claude_pilot.Base.{
  ℕ, ◌+◌, ◌^◌, ◌<◌, ◌≤◌, String, ◌≡◌, refl, inl, inr, Bool, true, false, ◌&&◌, List, [], ◌∷◌, arith,
  string_eq, list_eq, nat_eq, some, leb, any, ◌==◌, if◌then◌else◌, Bool-cases, Option-cases,
}
use claude_pilot.Base.Assoc.{lookup}
use claude_pilot.TaskGraph.{
  TaskNode, TaskDag, add_dependency, start_task, complete_task, fail_task, retry_task, get, Result,
  ok, err,
}
use claude_pilot.Session.{
  OrchestrationSession, SessionResult, done, refused, add_session_task, add_task_dependency,
  assign_task, complete_session_task, fail_session_task, retry_session_task, register_participant,
  notify, ◌then_with◌,
}
use claude_pilot.Session.Calls.{
  SessionCall, step_session, run_session, or_same, is_aside, aside_lem, then_with_lem, registers,
  adds_task, links, assigns, completes_task, fails_task, retries,
}
use claude_pilot.Session.Nodes.{
  retries_of, add_task-runs, add_dependency-runs, start_task-runs, complete_task-runs,
  fail_task-runs, retry_task-runs,
}

abbrev pub is_accepted_call : SessionResult → Bool
is_accepted_call (done s) = true
is_accepted_call (refused e) = false

-- The call is a retry of this task that succeeds.
abbrev pub is_retried : String → SessionCall → OrchestrationSession → Bool
is_retried x (retries task) s = task == x && is_accepted_call (retry_session_task task s)
is_retried x _ s = false

-- How often calls retry a task with success, one call after the other.
unfoldable pub count_retries : (ℕ → ℕ → Bool) → String → List SessionCall → OrchestrationSession → ℕ
count_retries reaches x [] s = 0
count_retries reaches x (c ∷ cs) s =
    let later = count_retries reaches x cs (step_session reaches c s) in
    if is_retried x c s then 1 + later else later

-- The call adds this task, as a new one.
abbrev pub is_added : String → SessionCall → Bool
is_added x (adds_task info) = info.id == x
is_added x _ = false

-- The retries that a task has had.
abbrev pub retried : String → OrchestrationSession → ℕ
retried x s = retries_of (lookup x s.tasks.nodes)

-- What a call does to the count of a task: one more if it is retried, and never more than the limit.
abbrev Counted : String → Bool → OrchestrationSession → OrchestrationSession → Type 0
Counted x again s s' =
    (retried x s' ≡ (if again then retried x s + 1 else retried x s))
    × (retried x s' ≤ s.config.max_task_retries)
    × (s'.config.max_task_retries ≡ s.config.max_task_retries)

module _ (reaches : ℕ → ℕ → Bool) (x : String) where
  unchanged :
      (s : OrchestrationSession) → retried x s ≤ s.config.max_task_retries → Counted x false s s
  unchanged s bounded = (refl, bounded, refl)

  aside-Counted :
      (c : SessionCall) (s : OrchestrationSession)
      → is_aside c ≡ true
      → retried x s ≤ s.config.max_task_retries
      → Counted x false s (step_session reaches c s)
  aside-Counted c s aside bounded =
      let core = aside_lem reaches c s aside in rw (core.0, core.2) (refl, bounded, refl)

  retry-Counted :
      (task : String) (s : OrchestrationSession)
      → s.config.max_task_retries < 2 ^ 32
      → retried x s ≤ s.config.max_task_retries
      → Counted x (is_retried x (retries task) s) s (or_same s (retry_session_task task s))
  unfolding retry_session_task get
  retry-Counted task s small bounded = elim (Option-cases (lookup task s.tasks.nodes)) [
    | inl e ↦ rw (e, retry_session_task) (ground arith, bounded, refl)
    | inr (n, e) ↦ elim (Bool-cases (leb s.config.max_task_retries n.retry_count)) [
      | inl spent ↦ rw (e, spent, retry_session_task) (ground arith, bounded, refl)
      | inr left ↦
          rw (e, left, retry_session_task) (by_result (retry_task s.tasks task) refl n e left)
    ]
  ]
    where
      by_result :
          (r : Result TaskDag) (same : retry_task s.tasks task ≡ r) (n : TaskNode)
          → lookup task s.tasks.nodes ≡ some n
          → leb s.config.max_task_retries n.retry_count ≡ false
          → Counted x
              (task == x && is_accepted_call (r then_with λ g. record s { tasks = g }))
              s
              (or_same s (r then_with λ g. record s { tasks = g }))
      by_result (err error) same n e left = (ground arith, bounded, refl)
      by_result (ok g) same n e left =
          let one = (retry_task-runs "" x s.tasks g task same).1 in
          (ground (arith, one, small, left, e), ground (arith, one, bounded, small, left, e), refl)

  step_session-Counted :
      (c : SessionCall) (s : OrchestrationSession)
      → is_added x c ≡ false
      → s.config.max_task_retries < 2 ^ 32
      → retried x s ≤ s.config.max_task_retries
      → Counted x (is_retried x c s) s (step_session reaches c s)
  unfolding step_session register_participant notify add_session_task add_task_dependency
      assign_task complete_session_task fail_session_task is_aside
  step_session-Counted (registers now message p) s other small bounded = unchanged s bounded
  step_session-Counted (adds_task info) s other small bounded =
      let same = add_task-runs "" x s.tasks s.tasks info in
      (ground (arith, same, other), ground (arith, same, other, bounded), refl)
  step_session-Counted (links d) s other small bounded =
      then_with_lem (Counted x false s) s (add_dependency s.tasks d) _ (unchanged s bounded)
        (λ g h. rw ((add_dependency-runs "" x s.tasks g d h).1) (refl, bounded, refl))
  step_session-Counted (assigns now task agent) s other small bounded =
      then_with_lem (Counted x false s) s (start_task s.tasks task agent) _ (unchanged s bounded)
        (λ g h. rw ((start_task-runs "" x s.tasks g task agent h).1) (refl, bounded, refl))
  step_session-Counted (completes_task now task agent r) s other small bounded =
      then_with_lem (Counted x false s) s (complete_task s.tasks task r) _ (unchanged s bounded)
        (λ g h. rw ((complete_task-runs "" x s.tasks g task r h).1) (refl, bounded, refl))
  step_session-Counted (fails_task now task agent error) s other small bounded =
      then_with_lem (Counted x false s) s (fail_task s.tasks task error) _ (unchanged s bounded)
        (λ g h. rw ((fail_task-runs "" x s.tasks g task error h).1) (refl, bounded, refl))
  step_session-Counted (retries task) s other small bounded = retry-Counted task s small bounded
  step_session-Counted c s other small bounded = aside-Counted c s refl bounded

-- Over any calls that do not add the task again, refused ones included, the retries that a task had and
-- those that succeed are together what its node counts, and no more than the configuration allows, if
-- the first were no more and the limit fits in 32 bits.
pub count_retries_lem :
    (reaches : ℕ → ℕ → Bool) (x : String) (cs : List SessionCall) (s : OrchestrationSession)
    → any (is_added x) cs ≡ false
    → s.config.max_task_retries < 2 ^ 32
    → retried x s ≤ s.config.max_task_retries
    → (retried x s + count_retries reaches x cs s ≡ retried x (run_session reaches cs s))
      × (retried x s + count_retries reaches x cs s ≤ s.config.max_task_retries)
unfolding run_session count_retries
count_retries_lem reaches x [] s other small bounded = (omega arith, omega (arith, bounded))
count_retries_lem reaches x (c ∷ cs) s other small bounded =
    let one = step_session-Counted reaches x c s (ground (arith, other)) small bounded in
    let later =
      count_retries_lem reaches x cs (step_session reaches c s) (ground (arith, other))
        (omega (arith, one.2, small)) (omega (arith, one.1, one.2)) in
    (ground (arith, one.0, later.0), ground (arith, one.0, one.2, later.1))
