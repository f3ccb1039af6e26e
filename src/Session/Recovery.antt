-- ===== src/Session/Recovery.antt =====
-- src/agent/multi/session/orchestration.rs: what a recovery reads off the latest checkpoint.
use claude_pilot.Base.{
  ℕ, ◌≤◌, ◌<◌, String, ◌≡◌, refl, Bool, true, ◌||◌, some, List, [], arith, string_eq, list_eq,
  nat_eq, contains, length, any, keep, ltb,
}
use claude_pilot.Base.Assoc.{lookup, keys, contains-keys, contains-keep}
use claude_pilot.Events.Kinds.{SessionPhase}
use claude_pilot.TaskGraph.{TaskNode, NodeStatus, task_ids, get}
use claude_pilot.Session.Notification.{latest_id}
use claude_pilot.Session.Checkpoint.{
  SessionCheckpoint, SessionCheckpointManager, RecoveryContext, is_lasting, from_checkpoint, create,
  latest, create_phase_transition, create_budget_threshold, create_recovery_context,
  should_checkpoint_for_budget, new_checkpoint, lasts,
}
use claude_pilot.Session.Kept.{latest-create, passes}
use claude_pilot.Session.{
  OrchestrationSession, has_status, task_id_lists, create_checkpoint_refs, create_phase_checkpoint,
  enter_phase, enter_next, next_phase, advance_phase, notify, notify_phase_change,
  add_context_usage, add_usage, recovery_context,
}

ids_with_status :
    (status : NodeStatus) (m : List (String × TaskNode)) (x : String)
    → contains (keep (λ id. has_status status (lookup id m)) (keys m)) x
      ≡ has_status status (lookup x m)
ids_with_status status m x =
    rw (contains-keep (λ id. has_status status (lookup id m)) (keys m) x, contains-keys m x)
      (ground arith)

-- The latest checkpoint of a manager that fits its limit, and what a recovery makes of it.
recovered :
    (cp : SessionCheckpoint) (m : SessionCheckpointManager)
    → length m.checkpoints ≤ m.max_checkpoints
    → 0 < m.max_checkpoints
    → (lasts cp || any passes m.checkpoints || ltb (length m.checkpoints) m.max_checkpoints) ≡ true
    → create_recovery_context (create cp m) ≡ some (from_checkpoint cp)
unfolding create_recovery_context
recovered cp m fits pos kept = rw (create_recovery_context, latest_is_new) refl
  where
    latest_is_new : latest (create cp m) ≡ some cp
    latest_is_new = rw (latest-create cp m fits pos, kept) refl

-- With checkpoints within their limit, a recovery after a session has advanced to a phase tries again
-- the tasks that were in progress, skips those that were completed, and reads the notifications from
-- the latest before.
pub advance_phase-recovery :
    (uuid : String) (now : ℕ) (s : OrchestrationSession) (phase : SessionPhase) (x : String)
    → next_phase s.phase ≡ some phase
    → length s.checkpoints.checkpoints ≤ s.checkpoints.max_checkpoints
    → 0 < s.checkpoints.max_checkpoints
    → (c : RecoveryContext) × (recovery_context (advance_phase uuid now s) ≡ some c)
      × (contains c.tasks_to_retry x ≡ has_status NodeStatus.in_progress (lookup x s.tasks.nodes))
      × (contains c.tasks_to_skip x ≡ has_status NodeStatus.completed (lookup x s.tasks.nodes))
      × (c.notification_start_id ≡ latest_id s.notifications)
unfolding advance_phase enter_phase enter_next notify_phase_change notify create_phase_checkpoint
    create_phase_transition recovery_context from_checkpoint task_id_lists task_ids get
    create_checkpoint_refs new_checkpoint is_lasting
advance_phase-recovery uuid now s phase x next fits pos =
    rw (next, enter_next)
      (
        _,
        recovered _ s.checkpoints fits pos refl,
        ids_with_status NodeStatus.in_progress s.tasks.nodes x,
        ids_with_status NodeStatus.completed s.tasks.nodes x,
        refl,
      )

-- When the use of context reaches its threshold, and there is room for the checkpoint or one that need
-- not last, a recovery tries no task again and skips none, whatever the tasks were.
pub add_context_usage-recovery :
    (reaches : ℕ → ℕ → Bool) (uuid : String) (now tokens : ℕ) (s : OrchestrationSession)
    → should_checkpoint_for_budget reaches
        (add_usage tokens s.context_budget).used
        s.context_budget.total
      ≡ true
    → length s.checkpoints.checkpoints ≤ s.checkpoints.max_checkpoints
    → 0 < s.checkpoints.max_checkpoints
    → (any passes s.checkpoints.checkpoints
        || ltb (length s.checkpoints.checkpoints) s.checkpoints.max_checkpoints)
      ≡ true
    → (c : RecoveryContext) × (recovery_context (add_context_usage reaches uuid now tokens s)
        ≡ some c)
      × (c.tasks_to_retry ≡ [])
      × (c.tasks_to_skip ≡ [])
unfolding add_context_usage recovery_context create_budget_threshold from_checkpoint new_checkpoint
    is_lasting add_usage
add_context_usage-recovery reaches uuid now tokens s reached fits pos room =
    rw (reached, add_context_usage) (_, recovered _ s.checkpoints fits pos room, refl, refl)
