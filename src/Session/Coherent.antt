-- ===== src/Session/Coherent.antt =====
-- src/agent/multi/session/orchestration.rs: the agents hold exactly the tasks that they run.
use claude_pilot.Base.{
  ℕ, String, ◌≡◌, refl, sym, ap, ◌∙◌, inl, inr, Bool, true, false, ◌&&◌, ◌||◌, not, some, List, [],
  ◌∷◌, arith, ◌==◌, string_eq, list_eq, nat_eq, contains, contains-append, any, keep, is_empty, leb,
  if◌then◌else◌, Bool-cases, and_left, and_right, Option-cases,
}
use claude_pilot.Base.Assoc.{lookup, values, lookup-insert, lookup-adjust}
use claude_pilot.TaskGraph.{
  DagTaskResult, TaskNode, in_progress, add_dependency, start_task, complete_task, fail_task,
  retry_task, get,
}
use claude_pilot.Session.Agents.{
  Participant, ParticipantRegistry, register, update_participant, assign_to, take_from,
}
use claude_pilot.Session.{
  OrchestrationSession, has_status, add_session_task, add_task_dependency, assign_task,
  complete_session_task, fail_session_task, retry_session_task, register_participant, notify,
}
use claude_pilot.Session.Calls.{
  SessionCall, step_session, run_session, or_same, is_aside, aside_lem, then_with_lem, registers,
  adds_task, links, assigns, completes_task, fails_task, retries,
}
use claude_pilot.Session.Nodes.{
  runs, add_task-runs, add_dependency-runs, start_task-runs, complete_task-runs, fail_task-runs,
  retry_task-runs,
}

abbrev pub IsCoherent : OrchestrationSession → Type 0
IsCoherent s =
    (agent x : String) (p : Participant)
    → lookup agent s.participants.participants ≡ some p
    → contains p.assigned_tasks x ≡ runs agent (lookup x s.tasks.nodes)

-- A task in progress is ended by the agent that runs it, and neither replaced nor given up to an agent
-- that registers anew.
abbrev pub ends_own : String → String → OrchestrationSession → Bool
ends_own task agent s =
    not (has_status in_progress (lookup task s.tasks.nodes))
    || runs agent (lookup task s.tasks.nodes)

unfoldable pub is_orderly : SessionCall → OrchestrationSession → Bool
is_orderly (registers now message p) s =
    is_empty p.assigned_tasks && not (any (λ n. runs p.id (some n)) (values s.tasks.nodes))
is_orderly (adds_task info) s = not (has_status in_progress (lookup info.id s.tasks.nodes))
is_orderly (completes_task now task agent r) s = ends_own task agent s
is_orderly (fails_task now task agent error) s = ends_own task agent s
is_orderly _ s = true

unfoldable pub are_orderly : (ℕ → ℕ → Bool) → List SessionCall → OrchestrationSession → Bool
are_orderly reaches [] s = true
are_orderly reaches (c ∷ cs) s =
    let later = are_orderly reaches cs (step_session reaches c s) in is_orderly c s && later

contains_none : (ts : List String) (x : String) → is_empty ts ≡ true → contains ts x ≡ false
contains_none [] x h = refl
contains_none (t ∷ ts) x h = cc

any-lookup :
    (agent x : String) (m : List (String × TaskNode))
    → any (λ n. runs agent (some n)) (values m) ≡ false
    → runs agent (lookup x m) ≡ false
unfolding lookup
any-lookup agent x [] h = refl
any-lookup agent x ((k, n) ∷ m) h = ground (arith, h, any-lookup agent x m)

contains-removed :
    (x task : String) (ts : List String)
    → contains (keep (λ t. not (t == task)) ts) x ≡ (contains ts x && not (x == task))
contains-removed x task [] = refl
contains-removed x task (t ∷ ts) = ground (arith, contains-removed x task ts)

take_from-tasks :
    (now : ℕ) (x task : String) (p : Participant)
    → contains (take_from now task p).assigned_tasks x
      ≡ (contains p.assigned_tasks x && not (x == task))
take_from-tasks now x task p = ground (arith, contains-removed x task p.assigned_tasks)

assign_to-tasks :
    (now : ℕ) (x task : String) (p : Participant)
    → contains (assign_to now task p).assigned_tasks x
      ≡ (contains p.assigned_tasks x || (x == task))
assign_to-tasks now x task p = ground (arith, contains-append x p.assigned_tasks (task ∷ []))

-- An agent's tasks after an update of one agent.
updated :
    (id agent : String) (f : Participant → Participant) (g : ParticipantRegistry) (q : Participant)
    → lookup agent (update_participant id f g).participants ≡ some q
    → (p : Participant) × (lookup agent g.participants ≡ some p)
      × (q ≡ (if id == agent then f p else p))
unfolding update_participant
updated id agent f g q h = elim (Option-cases (lookup agent g.participants)) [
  | inl e ↦ ground (arith, h, e, lookup-adjust agent id f g.participants)
  | inr (p, e) ↦ (p, e, ground (arith, h, e, lookup-adjust agent id f g.participants))
]

-- What a call on the graph and an update of one agent leave, where the tasks that the agent holds and
-- those that it runs change alike.
update_lem :
    (s t : OrchestrationSession) (id b x : String) (f : Participant → Participant) (q : Participant)
    → IsCoherent s
    → lookup b (update_participant id f s.participants).participants ≡ some q
    → ((p : Participant)
        → contains p.assigned_tasks x ≡ runs b (lookup x s.tasks.nodes)
        → contains (if id == b then f p else p).assigned_tasks x ≡ runs b (lookup x t.tasks.nodes))
    → contains q.assigned_tasks x ≡ runs b (lookup x t.tasks.nodes)
update_lem s t id b x f q held e next =
    let before = updated id b f s.participants q e in
    ap (λ (r : Participant). contains r.assigned_tasks x) before.2
    ∙ next before.0 (held b x before.0 before.1)

assign-IsCoherent :
    (now : ℕ) (task agent : String) (s : OrchestrationSession)
    → IsCoherent s
    → IsCoherent (or_same s (assign_task now task agent s))
unfolding assign_task notify
assign-IsCoherent now task agent s held =
    then_with_lem IsCoherent s (start_task s.tasks task agent) _ held (λ g h b x q e.
      update_lem s (record s { tasks = g }) agent b x (assign_to now task) q held e
        (λ p same.
          ground (
            arith,
            same,
            assign_to-tasks now x task p,
            start_task-runs b x s.tasks g task agent h,
          )))

own_runs :
    (task agent b : String) (s : OrchestrationSession)
    → ends_own task agent s ≡ true
    → (agent == b) ≡ false
    → runs b (lookup task s.tasks.nodes) ≡ false
own_runs task agent b s own other = ground (arith, own, other)

-- An end of a task that the agent runs, or nobody does.
end_lem :
    (now : ℕ) (task agent b x : String) (s t : OrchestrationSession) (q : Participant)
    → ends_own task agent s ≡ true
    → IsCoherent s
    → runs b (lookup x t.tasks.nodes) ≡ (not (task == x) && runs b (lookup x s.tasks.nodes))
    → lookup b (update_participant agent (take_from now task) s.participants).participants ≡ some q
    → contains q.assigned_tasks x ≡ runs b (lookup x t.tasks.nodes)
end_lem now task agent b x s t q own held ended e =
    update_lem s t agent b x (take_from now task) q held e (λ p same.
      elim (Bool-cases (agent == b)) [
        | inl mine ↦ rw (ended, mine, take_from-tasks now x task p, same) (ground arith)
        | inr other ↦ rw (ended, other, same) (ground (arith, own_runs task agent b s own other))
      ])

complete-IsCoherent :
    (now : ℕ) (task agent : String) (r : DagTaskResult) (s : OrchestrationSession)
    → ends_own task agent s ≡ true
    → IsCoherent s
    → IsCoherent (or_same s (complete_session_task now task agent r s))
unfolding complete_session_task notify
complete-IsCoherent now task agent r s own held =
    then_with_lem IsCoherent s (complete_task s.tasks task r) _ held (λ g h b x q e.
      end_lem now task agent b x s (record s { tasks = g }) q own held
        (complete_task-runs b x s.tasks g task r h).0 e)

fail-IsCoherent :
    (now : ℕ) (task agent error : String) (s : OrchestrationSession)
    → ends_own task agent s ≡ true
    → IsCoherent s
    → IsCoherent (or_same s (fail_session_task now task agent error s))
unfolding fail_session_task notify
fail-IsCoherent now task agent error s own held =
    then_with_lem IsCoherent s (fail_task s.tasks task error) _ held (λ g h b x q e.
      end_lem now task agent b x s (record s { tasks = g }) q own held
        (fail_task-runs b x s.tasks g task error h).0 e)

retry-IsCoherent :
    (task : String) (s : OrchestrationSession)
    → IsCoherent s
    → IsCoherent (or_same s (retry_session_task task s))
unfolding retry_session_task get
retry-IsCoherent task s held = elim (Option-cases (lookup task s.tasks.nodes)) [
  | inl e ↦ rw (e, retry_session_task) held
  | inr (n, e) ↦ elim (Bool-cases (leb s.config.max_task_retries n.retry_count)) [
    | inl spent ↦ rw (e, spent, retry_session_task) held
    | inr left ↦
        rw (e, left, retry_session_task)
          (then_with_lem IsCoherent s (retry_task s.tasks task) _ held
            (λ g h b x q known. held b x q known ∙ sym (retry_task-runs b x s.tasks g task h).0))
  ]
]

register-IsCoherent :
    (now : ℕ) (message : String) (p : Participant) (s : OrchestrationSession)
    → is_orderly (registers now message p) s ≡ true
    → IsCoherent s
    → IsCoherent (register_participant now message p s)
unfolding register_participant notify register is_orderly
register-IsCoherent now message p s orderly held b x q e = elim (Bool-cases (p.id == b)) [
  | inl new ↦ ground (
    arith,
    new,
    e,
    orderly,
    lookup-insert b p.id p s.participants.participants,
    contains_none p.assigned_tasks x,
    any-lookup p.id x s.tasks.nodes,
  )
  | inr old ↦
      held b x q (ground (arith, old, e, lookup-insert b p.id p s.participants.participants))
]

aside-IsCoherent :
    (reaches : ℕ → ℕ → Bool) (c : SessionCall) (s : OrchestrationSession)
    → is_aside c ≡ true
    → IsCoherent s
    → IsCoherent (step_session reaches c s)
aside-IsCoherent reaches c s aside held =
    let core = aside_lem reaches c s aside in rw (core.0, core.1) held

step_session-IsCoherent :
    (reaches : ℕ → ℕ → Bool) (c : SessionCall) (s : OrchestrationSession)
    → is_orderly c s ≡ true
    → IsCoherent s
    → IsCoherent (step_session reaches c s)
unfolding step_session is_aside add_session_task add_task_dependency is_orderly
step_session-IsCoherent reaches (registers now message p) s orderly held =
    register-IsCoherent now message p s orderly held
step_session-IsCoherent reaches (adds_task info) s orderly held =
    λ b x q e. ground (arith, held b x q, e, orderly, (add_task-runs b x s.tasks s.tasks info).0)
step_session-IsCoherent reaches (links d) s orderly held =
    then_with_lem IsCoherent s (add_dependency s.tasks d) _ held
      (λ g h b x q known. held b x q known ∙ sym (add_dependency-runs b x s.tasks g d h).0)
step_session-IsCoherent reaches (assigns now task agent) s orderly held =
    assign-IsCoherent now task agent s held
step_session-IsCoherent reaches (completes_task now task agent r) s orderly held =
    complete-IsCoherent now task agent r s orderly held
step_session-IsCoherent reaches (fails_task now task agent error) s orderly held =
    fail-IsCoherent now task agent error s orderly held
step_session-IsCoherent reaches (retries task) s orderly held = retry-IsCoherent task s held
step_session-IsCoherent reaches c s orderly held = aside-IsCoherent reaches c s refl held

-- Over calls that are orderly, each registered agent holds exactly the tasks that are in progress with
-- it, if it is so at first.
pub run_session-IsCoherent :
    (reaches : ℕ → ℕ → Bool) (cs : List SessionCall) (s : OrchestrationSession)
    → are_orderly reaches cs s ≡ true
    → IsCoherent s
    → IsCoherent (run_session reaches cs s)
unfolding run_session are_orderly
run_session-IsCoherent reaches [] s orderly held = held
run_session-IsCoherent reaches (c ∷ cs) s orderly held =
    run_session-IsCoherent reaches cs (step_session reaches c s) (and_right _ _ orderly)
      (step_session-IsCoherent reaches c s (and_left _ _ orderly) held)
