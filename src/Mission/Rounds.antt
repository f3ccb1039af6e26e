-- ===== src/Mission/Rounds.antt =====
-- src/orchestrator/engine/execution.rs and src/mission/task.rs: how the loop over the tasks ends, what
-- a skipped task lets start, and when a task that fails is failed for good.
use claude_pilot.Base.{
  ℕ, zero, suc, ◌+◌, ◌-◌, ◌^◌, ◌≤◌, ◌<◌, String, ◌≡◌, refl, ap, subst, inl, inr, Bool, true, false,
  ◌&&◌, ◌||◌, not, some, List, [], ◌∷◌, map, arith, Option, none, ◌==◌, string_eq, list_eq, nat_eq,
  contains, length, any, keep, is_empty, ltb, leb, Bool-cases,
}
use claude_pilot.Events.TaskStatus.{TaskStatus}
use claude_pilot.Mission.Tasks.{Task, has, can_retry, skip_one, fail_one}
use claude_pilot.Mission.Loop.{
  Performed, processed, escalated, tasks_in, worked, after_performed, start_all, loop_end, Work,
  iterations_exceeded, is_satisfied, is_failed_for_good, all_tasks_done, permanently_failed_tasks,
  ids, next_tasks, is_blocked, tasks_blocked_by_failed_deps, active_tasks, update_task, skip_all,
  round, run_rounds, after_rounds, execute_loop, reset_task, reset_tasks,
}

-- The loop is over.
abbrev pub has_stopped : Work → Bool
has_stopped w = all_tasks_done w.tasks || leb w.max_iterations w.iteration

module _ (clock : ℕ → ℕ) (text : List String → String) (perform : ℕ → List Task → Performed) where
  abbrev done_by : Work → Performed
  done_by w = round (clock w.iteration) text (perform w.iteration) w.tasks

  -- In a round from the first mission that is not over, what is performed once its next tasks are
  -- started is escalated with this reason, and leaves the second mission.
  abbrev pub IsEscalated : Work → String → Work → Type 0
  IsEscalated u reason v =
      (perform u.iteration (start_all (clock u.iteration) (next_tasks u.tasks) u.tasks)
        ≡ escalated reason v.tasks)
      × (has_stopped u ≡ false)
      × (v.iteration ≡ u.iteration + 1)

  abbrev after_round : Work → Work
  after_round w = worked w (done_by w)

  -- After as many rounds.
  abbrev rounds_in : ℕ → Work → Work
  rounds_in zero w = w
  rounds_in (suc k) w = rounds_in k (after_round w)

  -- After some rounds the loop is over, or is left in the next one for an escalation.
  abbrev pub HasEnded : Work → Work → Option String → Type 0
  HasEnded w v none = (k : ℕ) × (v ≡ rounds_in k w) × (has_stopped v ≡ true)
  HasEnded w v (some reason) = (k : ℕ) × IsEscalated (rounds_in k w) reason v

  one_before :
      (w v : Work) (why : Option String) → HasEnded (after_round w) v why → HasEnded w v why
  one_before w v none (k, at, stopped) = (suc k, at, stopped)
  one_before w v (some reason) (k, left) = (suc k, left)

  round_escalated :
      (u : Work) (reason : String) (ts : List Task)
      → done_by u ≡ escalated reason ts
      → perform u.iteration (start_all (clock u.iteration) (next_tasks u.tasks) u.tasks)
        ≡ escalated reason ts
  unfolding round
  round_escalated u reason ts h = elim (Bool-cases (is_empty (next_tasks u.tasks))) [
    | inl idle ↦ ground (arith, h, idle)
    | inr busy ↦ ground (arith, h, busy)
  ]

  abbrev Ended : Work → Option (Work × Option String) → Type 0
  Ended w result =
      (v : Work) × (why : Option String) × (result ≡ some (v, why))
      × HasEnded w v why
      × (v.max_iterations ≡ w.max_iterations)

  after_performed_ends :
      (w : Work) (done : Performed) (next : Option (Work × Option String))
      → done_by w ≡ done
      → has_stopped w ≡ false
      → Ended (after_round w) next
      → Ended w (after_performed w done next)
  after_performed_ends w (processed ts) next h going later =
      (later.0, later.1, later.2, one_before w later.0 later.1 later.3, later.4)
  after_performed_ends w (escalated reason ts) next h going later = (
    worked w (escalated reason ts),
    some reason,
    refl,
    (0, (round_escalated w reason ts h, going, refl)),
    refl,
  )

  run_rounds_ends :
      (fuel : ℕ) (w : Work)
      → w.max_iterations - w.iteration < fuel
      → Ended w (run_rounds fuel clock text perform w)
  unfolding run_rounds
  run_rounds_ends zero w h = ground (arith, h)
  run_rounds_ends (suc fuel) w h =
      elim (Bool-cases (not (all_tasks_done w.tasks) && ltb w.iteration w.max_iterations)) [
        | inl more ↦
            rw (more, run_rounds)
              (after_performed_ends w (done_by w) _ refl (ground (arith, more))
                (run_rounds_ends fuel (worked w (done_by w)) (ground (arith, h, more))))
        | inr stop ↦ (w, none, rw (stop, run_rounds) refl, (0, refl, ground (arith, stop)), refl)
      ]

  -- The loop ends, whatever becomes of the tasks. After some rounds it is over, with all of them done or
  -- the iterations used up; or, not over yet, it is left in the next round, in which what was performed
  -- was escalated, with the reason given there.
  pub execute_loop_ends :
      (w : Work)
      → (v : Work) × (why : Option String) × (execute_loop clock text perform w
          ≡ some (loop_end (v, why)))
        × HasEnded w v why
        × (v.max_iterations ≡ w.max_iterations)
  unfolding execute_loop
  execute_loop_ends w =
      let ended = run_rounds_ends (suc (w.max_iterations - w.iteration)) w (omega arith) in
      (ended.0, ended.1, rw (execute_loop, ended.2) refl, ended.3, ended.4)

  -- No task can start, runs, or waits for one that failed for good, and some are not done.
  abbrev pub is_stalled : List Task → Bool
  is_stalled ts =
      is_empty (next_tasks ts)
      && is_empty (active_tasks ts)
      && is_empty (tasks_blocked_by_failed_deps ts)
      && not (all_tasks_done ts)

  nothing_to_skip :
      (now : ℕ) (bs : List (Task × List String)) (ts : List Task)
      → is_empty bs ≡ true
      → skip_all now text bs ts ≡ ts
  unfolding skip_all
  nothing_to_skip now [] ts h = refl
  nothing_to_skip now (b ∷ bs) ts h = cc

  round_stalled :
      (now i : ℕ) (ts : List Task)
      → is_stalled ts ≡ true
      → round now text (perform i) ts ≡ processed ts
  unfolding round
  round_stalled now i ts h =
      ground (arith, h, nothing_to_skip now (tasks_blocked_by_failed_deps ts) ts)

  not_done : (ts : List Task) → is_stalled ts ≡ true → all_tasks_done ts ≡ false
  not_done ts h = ground (arith, h)

  run_rounds_stalled :
      (fuel : ℕ) (w : Work)
      → is_stalled w.tasks ≡ true
      → w.iteration ≤ w.max_iterations
      → w.max_iterations - w.iteration < fuel
      → run_rounds fuel clock text perform w
        ≡ some (record w { iteration = w.max_iterations }, none)
  unfolding run_rounds
  run_rounds_stalled zero w h le f = ground (arith, f)
  run_rounds_stalled (suc fuel) w h le f = elim (Bool-cases (ltb w.iteration w.max_iterations)) [
    | inl more ↦
        rw
          (
            more,
            not_done w.tasks h,
            run_rounds,
            round_stalled (clock w.iteration) w.iteration w.tasks h,
          )
          (run_rounds_stalled fuel (record w { iteration = w.iteration + 1 }) h
            (ground (arith, more)) (ground (arith, more, f)))
    | inr last ↦
        rw (last, not_done w.tasks h, run_rounds)
          (ap (λ i. some (record w { iteration = i }, none)) (ground (arith, last, le)))
  ]

  -- While no task can start, runs, or waits for one that failed for good, and some are not done, the
  -- loop uses up its iterations on tasks that do not change, and the mission ends as failed.
  pub execute_loop_stalled :
      (w : Work)
      → is_stalled w.tasks ≡ true
      → w.iteration ≤ w.max_iterations
      → execute_loop clock text perform w
        ≡ some (record w { iteration = w.max_iterations }, iterations_exceeded)
  unfolding execute_loop after_rounds
  execute_loop_stalled w h le =
      rw
        (
          execute_loop,
          run_rounds_stalled (suc (w.max_iterations - w.iteration)) w h le (omega arith),
        )
        (ground arith)

  last_round :
      (w : Work) (ts : List Task)
      → all_tasks_done w.tasks ≡ false
      → w.iteration + 1 ≡ w.max_iterations
      → done_by w ≡ processed ts
      → all_tasks_done ts ≡ true
      → run_rounds 2 clock text perform w ≡ some (worked w (processed ts), none)
  unfolding run_rounds
  last_round w ts before last done all_done =
      rw (run_rounds, done) (ground (arith, before, last, all_done))

  -- When the last iteration that is allowed finishes the tasks, the mission ends as failed with all of
  -- them done.
  execute_loop_last :
      (w : Work) (ts : List Task)
      → all_tasks_done w.tasks ≡ false
      → w.iteration + 1 ≡ w.max_iterations
      → done_by w ≡ processed ts
      → all_tasks_done ts ≡ true
      → execute_loop clock text perform w ≡ some (worked w (processed ts), iterations_exceeded)
  unfolding execute_loop after_rounds run_rounds
  execute_loop_last w ts before last done all_done =
      rw (execute_loop, one, last_round w ts before last done all_done) (ground (arith, last))
    where
      one : w.max_iterations - w.iteration ≡ 1
      one = omega (arith, last)

-- Skips, and what they satisfy.
ids-update_task :
    (i : String) (f : Task → Task) (ts : List Task)
    → ((t : Task) → (f t).id ≡ t.id)
    → ids (update_task i f ts) ≡ ids ts
unfolding update_task
ids-update_task i f [] same = refl
ids-update_task i f (t ∷ ts) same = ground (arith, same t, ids-update_task i f ts same)

satisfied-skip :
    (i d : String) (now : ℕ) (text : String) (ts : List Task)
    → contains (ids (keep is_satisfied (update_task i (skip_one now text) ts))) d
      ≡ (contains (ids (keep is_satisfied ts)) d || ((d == i) && contains (ids ts) d))
unfolding update_task skip_one
satisfied-skip i d now text [] = ground arith
satisfied-skip i d now text (t ∷ ts) = ground (arith, satisfied-skip i d now text ts)

satisfied-skip_all :
    (now : ℕ) (text : List String → String) (bs : List (Task × List String)) (ts : List Task)
    (d : String)
    → contains (ids (keep is_satisfied (skip_all now text bs ts))) d ≡ (
        contains (ids (keep is_satisfied ts)) d
        || (contains (map (λ (b : Task × List String). b.0.id) bs) d && contains (ids ts) d))
unfolding skip_all
satisfied-skip_all now text [] ts d = ground arith
satisfied-skip_all now text ((t, failed) ∷ bs) ts d =
    rw
      (
        satisfied-skip_all now text bs (update_task t.id (skip_one now (text failed)) ts) d,
        satisfied-skip t.id d now (text failed) ts,
        ids-update_task t.id (skip_one now (text failed)) ts (λ u. unfold skip_one in refl),
      )
      (ground arith)

contains-ids-keep :
    (p : Task → Bool) (ts : List Task) (d : String)
    → contains (ids (keep p ts)) d ≡ true
    → contains (ids ts) d ≡ true
contains-ids-keep p [] d h = cc
contains-ids-keep p (t ∷ ts) d h = ground (arith, h, contains-ids-keep p ts d)

ids-pairs :
    (f : Task → List String) (ts : List Task)
    → map (λ (b : Task × List String). b.0.id) (map (λ (t : Task). (t, f t)) ts) ≡ ids ts
ids-pairs f [] = refl
ids-pairs f (t ∷ ts) = ap (λ xs. t.id ∷ xs) (ids-pairs f ts)

blocked-ids :
    (ts : List Task) (d : String)
    → contains (map (λ (b : Task × List String). b.0.id) (tasks_blocked_by_failed_deps ts)) d ≡ true
    → contains (ids ts) d ≡ true
unfolding tasks_blocked_by_failed_deps
blocked-ids ts d h =
    let failed = ids (permanently_failed_tasks ts) in
    contains-ids-keep (is_blocked failed) ts d (
      subst (λ xs. contains xs d ≡ true)
        (ids-pairs (λ t. keep (contains failed) t.dependencies) (keep (is_blocked failed) ts)) h)

-- After a round in which nothing can start or runs, a task that was skipped because of a dependency that
-- failed for good counts as satisfied for the tasks that depend on it.
pub round_satisfies :
    (now : ℕ) (text : List String → String) (perform : List Task → Performed) (ts : List Task)
    (d : String)
    → is_empty (next_tasks ts) ≡ true
    → is_empty (active_tasks ts) ≡ true
    → contains (map (λ (b : Task × List String). b.0.id) (tasks_blocked_by_failed_deps ts)) d ≡ true
    → contains (ids (keep is_satisfied (tasks_in (round now text perform ts)))) d ≡ true
unfolding round
round_satisfies now text perform ts d idle free blocked =
    rw
      (
        round,
        idle,
        free,
        satisfied-skip_all now text (tasks_blocked_by_failed_deps ts) ts d,
        blocked,
        blocked-ids ts d blocked,
      )
      (ground arith)

-- A task that fails again and again.
unfoldable pub fail_again : List String → Task → Task
fail_again [] t = t
fail_again (e ∷ es) t = fail_again es (fail_one e t)

-- After fewer than 2^32 failures in all, the count of retries is their number; and after at least one
-- the task is failed when there were more than the retries that are allowed, and then for good, and
-- pending otherwise.
pub fail_again_lem :
    (e : String) (es : List String) (t : Task)
    → t.retry_count + length (e ∷ es) < 2 ^ 32
    → ((fail_again (e ∷ es) t).retry_count ≡ t.retry_count + length (e ∷ es))
      × (has TaskStatus.failed (fail_again (e ∷ es) t)
          ≡ ltb t.max_retries (t.retry_count + length (e ∷ es)))
      × (is_failed_for_good (fail_again (e ∷ es) t) ≡ has TaskStatus.failed (fail_again (e ∷ es) t))
      × ((has TaskStatus.failed (fail_again (e ∷ es) t)
            || has TaskStatus.pending (fail_again (e ∷ es) t))
          ≡ true)
unfolding fail_again fail_one can_retry
fail_again_lem e [] t h =
    (ground (arith, h), ground (arith, h), ground (arith, h), ground (arith, h))
fail_again_lem e (f ∷ es) t h =
    let next = fail_again_lem f es (fail_one e t) (ground (arith, h)) in
    (ground (arith, h, next.0), ground (arith, h, next.1), next.2, next.3)

-- When the failed tasks of a mission are tried again, none is failed any more, and those that were
-- completed or skipped are so still: they stay satisfied dependencies.
pub reset_tasks_lem :
    (ts : List Task)
    → (any (has TaskStatus.failed) (reset_tasks false ts) ≡ false)
      × (keep is_satisfied (reset_tasks false ts) ≡ keep is_satisfied ts)
unfolding reset_task
reset_tasks_lem [] = (refl, refl)
reset_tasks_lem (t ∷ ts) =
    let later = reset_tasks_lem ts in (ground (arith, later.0), ground (arith, later.1))
