-- ===== src/Session/Calls.antt =====
-- src/agent/multi/session/orchestration.rs: every call that changes a session. One that is refused leaves
-- it as it was. `reaches` compares the budget in use with its threshold.
use claude_pilot.Base.{
  ℕ, String, ◌≡◌, refl, inl, inr, Bool, true, false, Option, none, some, List, [], ◌∷◌, arith, ◌==◌,
  string_eq, list_eq, nat_eq, Bool-cases,
}
use claude_pilot.Events.Kinds.{SessionPhase}
use claude_pilot.TaskGraph.{TaskDag, Result, ok, err, TaskInfo, TaskDependency, DagTaskResult}
use claude_pilot.Session.Notification.{NotificationType}
use claude_pilot.Session.Agents.{Participant}
use claude_pilot.Session.Checkpoint.{CheckpointReason}
use claude_pilot.Session.{
  OrchestrationSession, SessionResult, done, refused, start, advance_phase, set_phase, complete,
  fail, pause, resume, register_participant, add_session_task, add_task_dependency, assign_task,
  complete_session_task, fail_session_task, retry_session_task, notify, notify_conflict,
  acknowledge_notification, create_checkpoint, maybe_checkpoint, add_context_usage,
  reset_context_usage, SessionStatus, ◌then_with◌, enter_next, enter_phase, notify_phase_change,
  create_phase_checkpoint, phase_name, next_phase,
}

pub data SessionCall : Type 0 where
  starts : ℕ → SessionCall
  advances completes : String → ℕ → SessionCall
  sets_phase : String → ℕ → SessionPhase → SessionCall
  fails_session : String → SessionCall
  pauses resumes resets_usage : SessionCall
  registers : ℕ → String → Participant → SessionCall
  adds_task : TaskInfo → SessionCall
  links : TaskDependency → SessionCall
  assigns : ℕ → String → String → SessionCall
  completes_task : ℕ → String → String → DagTaskResult → SessionCall
  fails_task : ℕ → String → String → String → SessionCall
  retries : String → SessionCall
  notifies : ℕ → String → String → NotificationType → SessionCall
  notifies_conflict : ℕ → String → List String → List String → String → SessionCall
  acknowledges : ℕ → String → SessionCall
  checkpoints : String → ℕ → CheckpointReason → SessionCall
  maybe_checkpoints : String → ℕ → SessionCall
  uses_context : String → ℕ → ℕ → SessionCall

abbrev pub or_same : OrchestrationSession → SessionResult → OrchestrationSession
or_same s (done t) = t
or_same s (refused e) = s

unfoldable pub step_session :
    (ℕ → ℕ → Bool) → SessionCall → OrchestrationSession → OrchestrationSession
step_session reaches (starts now) s = start now s
step_session reaches (advances uuid now) s = advance_phase uuid now s
step_session reaches (completes uuid now) s = complete uuid now s
step_session reaches (sets_phase uuid now phase) s = set_phase uuid now phase s
step_session reaches (fails_session reason) s = fail reason s
step_session reaches pauses s = pause s
step_session reaches resumes s = resume s
step_session reaches resets_usage s = reset_context_usage s
step_session reaches (registers now message p) s = register_participant now message p s
step_session reaches (adds_task info) s = add_session_task info s
step_session reaches (links d) s = or_same s (add_task_dependency d s)
step_session reaches (assigns now task agent) s = or_same s (assign_task now task agent s)
step_session reaches (completes_task now task agent r) s =
    or_same s (complete_session_task now task agent r s)
step_session reaches (fails_task now task agent error) s =
    or_same s (fail_session_task now task agent error s)
step_session reaches (retries task) s = or_same s (retry_session_task task s)
step_session reaches (notifies now source target kind) s = notify now source target kind s
step_session reaches (notifies_conflict now id agents files description) s =
    notify_conflict now id agents files description s
step_session reaches (acknowledges id agent) s = acknowledge_notification id agent s
step_session reaches (checkpoints uuid now reason) s = create_checkpoint uuid now reason s
step_session reaches (maybe_checkpoints uuid now) s = maybe_checkpoint uuid now s
step_session reaches (uses_context uuid now tokens) s = add_context_usage reaches uuid now tokens s

unfoldable pub run_session :
    (ℕ → ℕ → Bool) → List SessionCall → OrchestrationSession → OrchestrationSession
run_session reaches [] s = s
run_session reaches (c ∷ cs) s = run_session reaches cs (step_session reaches c s)

-- The calls that touch neither the tasks nor the participants.
unfoldable pub is_aside : SessionCall → Bool
is_aside (registers _ _ _) = false
is_aside (adds_task _) = false
is_aside (links _) = false
is_aside (assigns _ _ _) = false
is_aside (completes_task _ _ _ _) = false
is_aside (fails_task _ _ _ _) = false
is_aside (retries _) = false
is_aside _ = true

abbrev pub SameCore : OrchestrationSession → OrchestrationSession → Type 0
SameCore t s = (t.tasks ≡ s.tasks) × (t.participants ≡ s.participants) × (t.config ≡ s.config)

enter_next-core :
    (uuid : String) (now : ℕ) (phase : Option SessionPhase) (s : OrchestrationSession)
    → SameCore (enter_next uuid now phase s) s
unfolding enter_next enter_phase notify_phase_change notify create_phase_checkpoint
enter_next-core uuid now none s = (refl, refl, refl)
enter_next-core uuid now (some phase) s = (refl, refl, refl)

set_phase-core :
    (uuid : String) (now : ℕ) (phase : SessionPhase) (s : OrchestrationSession)
    → SameCore (set_phase uuid now phase s) s
unfolding set_phase enter_phase notify_phase_change notify create_phase_checkpoint
set_phase-core uuid now phase s = elim (Bool-cases (phase_name s.phase == phase_name phase)) [
  | inl same ↦ rw (same, set_phase) (refl, refl, refl)
  | inr new ↦ rw (new, set_phase) (refl, refl, refl)
]

start-core : (now : ℕ) (s : OrchestrationSession) → SameCore (start now s) s
unfolding start notify_phase_change notify
start-core now s = (ground arith, ground arith, ground arith)

pause-core : (s : OrchestrationSession) → SameCore (pause s) s × SameCore (resume s) s
unfolding pause resume
pause-core s =
    ((ground arith, ground arith, ground arith), (ground arith, ground arith, ground arith))

add_context_usage-core :
    (reaches : ℕ → ℕ → Bool) (uuid : String) (now tokens : ℕ) (s : OrchestrationSession)
    → SameCore (add_context_usage reaches uuid now tokens s) s
unfolding add_context_usage
add_context_usage-core reaches uuid now tokens s = (ground arith, ground arith, ground arith)

-- What those leave.
pub aside_lem :
    (reaches : ℕ → ℕ → Bool) (c : SessionCall) (s : OrchestrationSession)
    → is_aside c ≡ true
    → SameCore (step_session reaches c s) s
unfolding step_session is_aside advance_phase complete fail notify notify_conflict
    acknowledge_notification create_checkpoint maybe_checkpoint reset_context_usage
aside_lem reaches (starts now) s aside = start-core now s
aside_lem reaches (advances uuid now) s aside = enter_next-core uuid now (next_phase s.phase) s
aside_lem reaches (completes uuid now) s aside =
    set_phase-core uuid now SessionPhase.finalization
      (record s { status = SessionStatus.completed })
aside_lem reaches (sets_phase uuid now phase) s aside = set_phase-core uuid now phase s
aside_lem reaches (fails_session reason) s aside = (refl, refl, refl)
aside_lem reaches pauses s aside = (pause-core s).0
aside_lem reaches resumes s aside = (pause-core s).1
aside_lem reaches resets_usage s aside = (refl, refl, refl)
aside_lem reaches (registers now message p) s aside = cc
aside_lem reaches (adds_task info) s aside = cc
aside_lem reaches (links d) s aside = cc
aside_lem reaches (assigns now task agent) s aside = cc
aside_lem reaches (completes_task now task agent r) s aside = cc
aside_lem reaches (fails_task now task agent error) s aside = cc
aside_lem reaches (retries task) s aside = cc
aside_lem reaches (notifies now source target kind) s aside = (refl, refl, refl)
aside_lem reaches (notifies_conflict now id agents files description) s aside = (refl, refl, refl)
aside_lem reaches (acknowledges id agent) s aside = (refl, refl, refl)
aside_lem reaches (checkpoints uuid now reason) s aside = (refl, refl, refl)
aside_lem reaches (maybe_checkpoints uuid now) s aside = (refl, refl, refl)
aside_lem reaches (uses_context uuid now tokens) s aside =
    add_context_usage-core reaches uuid now tokens s

-- What holds of the session before, and after the call if the graph accepts it, holds of the result.
pub then_with_lem :
    (Q : OrchestrationSession → Type 0) (s : OrchestrationSession) (r : Result TaskDag)
    (f : TaskDag → OrchestrationSession)
    → Q s
    → ((g : TaskDag) → r ≡ ok g → Q (f g))
    → Q (or_same s (r then_with f))
then_with_lem Q s (ok g) f before next = next g refl
then_with_lem Q s (err e) f before next = before
