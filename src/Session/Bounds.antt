-- ===== src/Session/Bounds.antt =====
-- src/agent/multi/session/orchestration.rs: how much a session keeps, whatever is called.
use claude_pilot.Base.{
  ℕ, ◌-◌, ◌^◌, ◌≤◌, ◌<◌, String, ◌≡◌, refl, inl, inr, Bool, Option, none, some, List, [], ◌∷◌,
  arith, ◌==◌, string_eq, list_eq, nat_eq, length, leb, Bool-cases, Option-cases,
}
use claude_pilot.Events.Kinds.{SessionPhase}
use claude_pilot.Session.Agents.{ParticipantRegistry}
use claude_pilot.TaskGraph.{
  DagTaskResult, failure, TaskDag, get, add_dependency, start_task, complete_task, fail_task,
  retry_task,
}
use claude_pilot.Base.Assoc.{lookup}
use claude_pilot.Session.Notification.{NotificationType, add, add_with_priority, acknowledge}
use claude_pilot.Session.Log.{
  cleanup-length, SameIds-le, acknowledge_first-SameIds, adjust_last-SameIds,
}
use claude_pilot.Session.Checkpoint.{
  SessionCheckpointManager, create_phase_transition, create_budget_threshold,
  maybe_create_scheduled, should_checkpoint_for_budget,
}
use claude_pilot.Session.Kept.{create-length}
use claude_pilot.Session.{
  OrchestrationSession, SessionStatus, enter_phase, enter_next, next_phase, phase_name, set_phase,
  start, pause, resume, advance_phase, complete, fail, notify, notify_phase_change, notify_conflict,
  acknowledge_notification, create_phase_checkpoint, create_checkpoint, maybe_checkpoint,
  add_context_usage, add_usage, reset_usage, reset_context_usage, register_participant,
  add_session_task, add_task_dependency, assign_task, complete_session_task, fail_session_task,
  retry_session_task,
}
use claude_pilot.Session.Calls.{
  SessionCall, step_session, run_session, or_same, then_with_lem, starts, advances, completes,
  sets_phase, fails_session, pauses, resumes, resets_usage, registers, adds_task, links, assigns,
  completes_task, fails_task, retries, notifies, notifies_conflict, acknowledges, checkpoints,
  maybe_checkpoints, uses_context,
}

-- The log and the checkpoints are within their limits, and the budget within its machine word.
pub record IsWithin (s : OrchestrationSession) : Type 0 where
  pub notified : length s.notifications.notifications ≤ s.notifications.max_entries
  pub checkpointed : length s.checkpoints.checkpoints ≤ s.checkpoints.max_checkpoints
  pub used : s.context_budget.used < 2 ^ 32

notify-IsWithin :
    (now : ℕ) (source target : String) (kind : NotificationType) (s : OrchestrationSession)
    → IsWithin s
    → IsWithin (notify now source target kind s)
unfolding notify add
notify-IsWithin now source target kind s w = record {
  notified = cleanup-length now _;
  checkpointed = w.checkpointed;
  used = w.used;
}

create-IsWithin :
    (s : OrchestrationSession) (m : SessionCheckpointManager)
    → length m.checkpoints ≤ m.max_checkpoints
    → IsWithin s
    → IsWithin (record s { checkpoints = m })
create-IsWithin s m fits w = record { notified = w.notified; checkpointed = fits; used = w.used }

enter_phase-IsWithin :
    (uuid : String) (now : ℕ) (phase : SessionPhase) (s : OrchestrationSession)
    → IsWithin s
    → IsWithin (enter_phase uuid now phase s)
unfolding enter_phase notify_phase_change create_phase_checkpoint create_phase_transition
enter_phase-IsWithin uuid now phase s w =
    notify-IsWithin now _ _ _ _ (record {
      notified = w.notified;
      checkpointed = create-length _ s.checkpoints;
      used = w.used;
    })

enter_next-IsWithin :
    (uuid : String) (now : ℕ) (phase : Option SessionPhase) (s : OrchestrationSession)
    → IsWithin s
    → IsWithin (enter_next uuid now phase s)
unfolding enter_next
enter_next-IsWithin uuid now none s w = w
enter_next-IsWithin uuid now (some phase) s w = enter_phase-IsWithin uuid now phase s w

set_phase-IsWithin :
    (uuid : String) (now : ℕ) (phase : SessionPhase) (s : OrchestrationSession)
    → IsWithin s
    → IsWithin (set_phase uuid now phase s)
unfolding set_phase
set_phase-IsWithin uuid now phase s w = elim (Bool-cases (phase_name s.phase == phase_name phase)) [
  | inl same ↦ rw (same, set_phase) w
  | inr new ↦ rw (new, set_phase) (enter_phase-IsWithin uuid now phase s w)
]

-- What changes neither the log, the checkpoints nor the budget.
abbrev SameStores : OrchestrationSession → OrchestrationSession → Type 0
SameStores t s =
    (t.notifications ≡ s.notifications)
    × (t.checkpoints ≡ s.checkpoints)
    × (t.context_budget ≡ s.context_budget)

same-IsWithin : (t s : OrchestrationSession) → SameStores t s → IsWithin s → IsWithin t
same-IsWithin t s same w = record {
  notified = rw (same.0) w.notified;
  checkpointed = rw (same.1) w.checkpointed;
  used = rw (same.2) w.used;
}

start-IsWithin : (now : ℕ) (s : OrchestrationSession) → IsWithin s → IsWithin (start now s)
unfolding start notify_phase_change
start-IsWithin now s w = starting s.status
  where
    starting :
        (st : SessionStatus)
        → IsWithin (elim st [
          | SessionStatus.initializing ↦
              notify_phase_change now "setup" "planning"
                (record s { status = SessionStatus.active })
          | _ ↦ s
        ])
    starting SessionStatus.initializing =
        notify-IsWithin now _ _ _ _
          (record { notified = w.notified; checkpointed = w.checkpointed; used = w.used })
    starting _ = w

pause-IsWithin : (s : OrchestrationSession) → IsWithin s → IsWithin (pause s) × IsWithin (resume s)
unfolding pause resume
pause-IsWithin s w = (
  same-IsWithin (pause s) s (ground arith, ground arith, ground arith) w,
  same-IsWithin (resume s) s (ground arith, ground arith, ground arith) w,
)

maybe_checkpoint-IsWithin :
    (uuid : String) (now : ℕ) (s : OrchestrationSession)
    → IsWithin s
    → IsWithin (maybe_checkpoint uuid now s)
unfolding maybe_checkpoint maybe_create_scheduled
maybe_checkpoint-IsWithin uuid now s w =
    elim (Bool-cases
      (leb s.checkpoints.auto_checkpoint_interval (now - s.checkpoints.last_auto_checkpoint))) [
        | inl due ↦
            rw (due, maybe_checkpoint, maybe_create_scheduled)
              (create-IsWithin s _ (create-length _ _) w)
        | inr early ↦ rw (early, maybe_checkpoint, maybe_create_scheduled) w
      ]

add_context_usage-IsWithin :
    (reaches : ℕ → ℕ → Bool) (uuid : String) (now tokens : ℕ) (s : OrchestrationSession)
    → IsWithin s
    → IsWithin (add_context_usage reaches uuid now tokens s)
unfolding add_context_usage create_budget_threshold add_usage
add_context_usage-IsWithin reaches uuid now tokens s w =
    elim (Bool-cases (
      should_checkpoint_for_budget reaches (add_usage tokens s.context_budget).used
        s.context_budget.total)) [
          | inl reached ↦
              rw (reached, add_context_usage)
                (create-IsWithin (record s { context_budget = add_usage tokens s.context_budget }) _
                  (create-length _ s.checkpoints) spent)
          | inr left ↦ rw (left, add_context_usage) spent
        ]
  where
    spent : IsWithin (record s { context_budget = add_usage tokens s.context_budget })
    spent = record {
      notified = w.notified;
      checkpointed = w.checkpointed;
      used = unfold add_usage in ground arith;
    }

conflict-IsWithin :
    (now : ℕ) (id : String) (agents files : List String) (description : String)
    (s : OrchestrationSession)
    → IsWithin s
    → IsWithin (notify_conflict now id agents files description s)
unfolding notify_conflict add_with_priority add
conflict-IsWithin now id agents files description s w = record {
  notified = SameIds-le _ _ _ (adjust_last-SameIds 100 _) (cleanup-length now _);
  checkpointed = w.checkpointed;
  used = w.used;
}

acknowledge-IsWithin :
    (id : ℕ) (agent : String) (s : OrchestrationSession)
    → IsWithin s
    → IsWithin (acknowledge_notification id agent s)
unfolding acknowledge_notification acknowledge
acknowledge-IsWithin id agent s w = record {
  notified = SameIds-le _ _ _ (acknowledge_first-SameIds id agent _) w.notified;
  checkpointed = w.checkpointed;
  used = w.used;
}

-- The calls on the tasks, which tell the agents.
task_call-IsWithin :
    (now : ℕ) (task agent error : String) (r : DagTaskResult) (s : OrchestrationSession)
    → IsWithin s
    → IsWithin (or_same s (assign_task now task agent s))
      × IsWithin (or_same s (complete_session_task now task agent r s))
      × IsWithin (or_same s (fail_session_task now task agent error s))
unfolding assign_task complete_session_task fail_session_task
task_call-IsWithin now task agent error r s w = (
  then_with_lem IsWithin s (start_task s.tasks task agent) _ w
      (λ g h. notify-IsWithin now _ _ _ _ kept),
  then_with_lem IsWithin s (complete_task s.tasks task r) _ w
      (λ g h. notify-IsWithin now _ _ _ _ kept),
  then_with_lem IsWithin s (fail_task s.tasks task error) _ w
      (λ g h. notify-IsWithin now _ _ _ _ kept),
)
  where
    kept :
        {g : TaskDag} {ps : ParticipantRegistry}
        → IsWithin (record s { tasks = g; participants = ps })
    kept = record { notified = w.notified; checkpointed = w.checkpointed; used = w.used }

retry-IsWithin :
    (task : String) (s : OrchestrationSession)
    → IsWithin s
    → IsWithin (or_same s (retry_session_task task s))
unfolding retry_session_task get
retry-IsWithin task s w = elim (Option-cases (lookup task s.tasks.nodes)) [
  | inl e ↦ rw (e, retry_session_task) w
  | inr (n, e) ↦ elim (Bool-cases (leb s.config.max_task_retries n.retry_count)) [
    | inl spent ↦ rw (e, spent, retry_session_task) w
    | inr left ↦
        rw (e, left, retry_session_task)
          (then_with_lem IsWithin s (retry_task s.tasks task) _ w
            (λ g h. record { notified = w.notified; checkpointed = w.checkpointed; used = w.used }))
  ]
]

step_session-IsWithin :
    (reaches : ℕ → ℕ → Bool) (c : SessionCall) (s : OrchestrationSession)
    → IsWithin s
    → IsWithin (step_session reaches c s)
unfolding step_session advance_phase complete fail reset_context_usage reset_usage
    register_participant add_session_task add_task_dependency create_checkpoint
step_session-IsWithin reaches (starts now) s w = start-IsWithin now s w
step_session-IsWithin reaches (advances uuid now) s w =
    enter_next-IsWithin uuid now (next_phase s.phase) s w
step_session-IsWithin reaches (completes uuid now) s w =
    set_phase-IsWithin uuid now _ _ (same-IsWithin _ s (refl, refl, refl) w)
step_session-IsWithin reaches (sets_phase uuid now phase) s w =
    set_phase-IsWithin uuid now phase s w
step_session-IsWithin reaches (fails_session reason) s w = same-IsWithin _ s (refl, refl, refl) w
step_session-IsWithin reaches pauses s w = (pause-IsWithin s w).0
step_session-IsWithin reaches resumes s w = (pause-IsWithin s w).1
step_session-IsWithin reaches resets_usage s w = record {
  notified = w.notified;
  checkpointed = w.checkpointed;
  used = omega arith;
}
step_session-IsWithin reaches (registers now message p) s w =
    notify-IsWithin now _ _ _ _ (same-IsWithin _ s (refl, refl, refl) w)
step_session-IsWithin reaches (adds_task info) s w = same-IsWithin _ s (refl, refl, refl) w
step_session-IsWithin reaches (links d) s w =
    then_with_lem IsWithin s (add_dependency s.tasks d) _ w
      (λ g h. same-IsWithin _ s (refl, refl, refl) w)
step_session-IsWithin reaches (assigns now task agent) s w =
    (task_call-IsWithin now task agent "" (failure "") s w).0
step_session-IsWithin reaches (completes_task now task agent r) s w =
    (task_call-IsWithin now task agent "" r s w).1
step_session-IsWithin reaches (fails_task now task agent error) s w =
    (task_call-IsWithin now task agent error (failure "") s w).2
step_session-IsWithin reaches (retries task) s w = retry-IsWithin task s w
step_session-IsWithin reaches (notifies now source target kind) s w =
    notify-IsWithin now source target kind s w
step_session-IsWithin reaches (notifies_conflict now id agents files description) s w =
    conflict-IsWithin now id agents files description s w
step_session-IsWithin reaches (acknowledges id agent) s w = acknowledge-IsWithin id agent s w
step_session-IsWithin reaches (checkpoints uuid now reason) s w =
    create-IsWithin s _ (create-length _ s.checkpoints) w
step_session-IsWithin reaches (maybe_checkpoints uuid now) s w =
    maybe_checkpoint-IsWithin uuid now s w
step_session-IsWithin reaches (uses_context uuid now tokens) s w =
    add_context_usage-IsWithin reaches uuid now tokens s w

-- Over any calls, refused ones included, the log and the checkpoints stay within their limits and the
-- context in use within 32 bits, if they were at first.
pub run_session-IsWithin :
    (reaches : ℕ → ℕ → Bool) (cs : List SessionCall) (s : OrchestrationSession)
    → IsWithin s
    → IsWithin (run_session reaches cs s)
unfolding run_session
run_session-IsWithin reaches [] s w = w
run_session-IsWithin reaches (c ∷ cs) s w =
    run_session-IsWithin reaches cs (step_session reaches c s) (step_session-IsWithin reaches c s w)
