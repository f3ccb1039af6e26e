-- ===== src/Session/Checkpoint.antt =====
-- src/agent/multi/session/checkpoint.rs: the checkpoints of a session, and what a recovery reads off the
-- latest. The identifier that `uuid` makes and the clock (in milliseconds) are arguments, and the test
-- of the budget, in floating point, is a parameter. No code sets a storage path, so nothing is written.
use claude_pilot.Base.{
  ℕ, zero, suc, ◌-◌, String, Bool, true, false, Option, none, some, List, [], ◌∷◌, ◌++◌, string_eq,
  list_eq, nat_eq, length, ltb, leb, eqb, if◌then◌else◌,
}
use claude_pilot.Base.Assoc.{insert}

pub data CheckpointReason : Type 0 where
  scheduled : CheckpointReason
  phase_transition : (from_phase : String) (to_phase : String) → CheckpointReason
  context_budget_threshold : (used : ℕ) (threshold : ℕ) → CheckpointReason
  manual : (description : String) → CheckpointReason
  pre_operation : (operation : String) → CheckpointReason
  milestone : (description : String) → CheckpointReason
  error_recovery : (error : String) → CheckpointReason

pub record FileSnapshot : Type 0 where
  pub path : String
  pub hash : String
  pub modified_at : ℕ
  pub size : ℕ

pub record CheckpointRef : Type 0 where
  pub notification_id : ℕ
  pub task_statuses : List (String × String)
  pub consensus_round : Option ℕ
  pub file_snapshots : List (String × FileSnapshot)

pub record ArchiveRef : Type 0 where
  pub archive_id : String
  pub snapshot_count : ℕ
  pub last_snapshot_seq : ℕ

pub record CompactedContext : Type 0 where
  pub work_summary : String
  pub decisions : List String
  pub focus_areas : List String
  pub token_count : ℕ

pub record SessionCheckpoint : Type 0 where
  pub id : String
  pub session_id : String
  pub reason : CheckpointReason
  pub refs : CheckpointRef
  pub phase : String
  pub completed_tasks : List String
  pub failed_tasks : List String
  pub in_progress_tasks : List String
  pub context_used : ℕ
  pub created_at : ℕ
  pub metadata : List (String × String)
  pub compacted_context : Option CompactedContext
  pub archive_ref : Option ArchiveRef

unfoldable pub new_checkpoint : String → ℕ → String → CheckpointReason → SessionCheckpoint
new_checkpoint uuid now session_id reason = record {
  id = uuid;
  session_id = session_id;
  reason = reason;
  refs = record {
    notification_id = 0;
    task_statuses = [];
    consensus_round = none;
    file_snapshots = [];
  };
  phase = "";
  completed_tasks = [];
  failed_tasks = [];
  in_progress_tasks = [];
  context_used = 0;
  created_at = now;
  metadata = [];
  compacted_context = none;
  archive_ref = none;
}

abbrev pub with_refs : CheckpointRef → SessionCheckpoint → SessionCheckpoint
with_refs refs cp = record cp { refs = refs }

abbrev pub with_phase : String → SessionCheckpoint → SessionCheckpoint
with_phase phase cp = record cp { phase = phase }

-- The completed, the failed and the running tasks.
abbrev pub TaskLists : Type 0
TaskLists = List String × List String × List String

abbrev pub with_tasks : TaskLists → SessionCheckpoint → SessionCheckpoint
with_tasks (completed, failed, in_progress) cp = record cp {
  completed_tasks = completed;
  failed_tasks = failed;
  in_progress_tasks = in_progress;
}

abbrev pub with_context_used : ℕ → SessionCheckpoint → SessionCheckpoint
with_context_used used cp = record cp { context_used = used }

abbrev pub with_metadata : String → String → SessionCheckpoint → SessionCheckpoint
with_metadata k v cp = record cp { metadata = insert k v cp.metadata }

pub record RecoveryContext : Type 0 where
  pub checkpoint : SessionCheckpoint
  pub tasks_to_retry : List String
  pub tasks_to_skip : List String
  pub replay_notifications : Bool
  pub notification_start_id : ℕ

unfoldable pub from_checkpoint : SessionCheckpoint → RecoveryContext
from_checkpoint cp = record {
  checkpoint = cp;
  tasks_to_retry = cp.in_progress_tasks;
  tasks_to_skip = cp.completed_tasks;
  replay_notifications = true;
  notification_start_id = cp.refs.notification_id;
}

pub record SessionCheckpointManager : Type 0 where
  pub session_id : String
  pub checkpoints : List SessionCheckpoint
  pub auto_checkpoint_interval : ℕ
  pub last_auto_checkpoint : ℕ
  pub max_checkpoints : ℕ

unfoldable pub new_manager : ℕ → String → SessionCheckpointManager
new_manager now session_id = record {
  session_id = session_id;
  checkpoints = [];
  auto_checkpoint_interval = 300000;
  last_auto_checkpoint = now;
  max_checkpoints = 50;
}

-- `PhaseTransition` and `ErrorRecovery`, which are kept longer.
unfoldable pub is_lasting : CheckpointReason → Bool
is_lasting (phase_transition _ _) = true
is_lasting (error_recovery _) = true
is_lasting _ = false

abbrev pub lasts : SessionCheckpoint → Bool
lasts cp = is_lasting cp.reason

-- `position(..)` of a checkpoint that need not last, and `remove` there.
unfoldable pub drop_passing : List SessionCheckpoint → Option (List SessionCheckpoint)
drop_passing [] = none
drop_passing (cp ∷ cps) =
    let later = drop_passing cps in
    if lasts cp then elim later [ none ↦ none | some kept ↦ some (cp ∷ kept) ] else some cps

abbrev pub rest : List SessionCheckpoint → List SessionCheckpoint
rest [] = []
rest (cp ∷ cps) = cps

abbrev pub or_rest :
    List SessionCheckpoint → Option (List SessionCheckpoint) → List SessionCheckpoint
or_rest cps none = rest cps
or_rest cps (some kept) = kept

unfoldable pub drop_one : List SessionCheckpoint → List SessionCheckpoint
drop_one cps = or_rest cps (drop_passing cps)

-- The loop of `cleanup_old_checkpoints`. Each round removes a checkpoint.
unfoldable pub cleanup_rounds : ℕ → ℕ → List SessionCheckpoint → List SessionCheckpoint
cleanup_rounds zero max cps = cps
cleanup_rounds (suc fuel) max cps =
    let later = cleanup_rounds fuel max (drop_one cps) in
    if ltb max (length cps) then later else cps

unfoldable pub cleanup_old_checkpoints : SessionCheckpointManager → SessionCheckpointManager
cleanup_old_checkpoints m = record m {
  checkpoints = cleanup_rounds (length m.checkpoints) m.max_checkpoints m.checkpoints;
}

unfoldable pub create : SessionCheckpoint → SessionCheckpointManager → SessionCheckpointManager
create cp m = cleanup_old_checkpoints (record m { checkpoints = m.checkpoints ++ cp ∷ [] })

unfoldable pub create_phase_transition :
    String
    → ℕ
    → String
    → String
    → CheckpointRef
    → TaskLists
    → SessionCheckpointManager
    → SessionCheckpointManager
create_phase_transition uuid now from_phase to_phase refs tasks m =
    create
      (with_tasks tasks (
        with_phase to_phase (
          with_refs refs
            (new_checkpoint uuid now m.session_id (phase_transition from_phase to_phase)))))
      m

unfoldable pub create_budget_threshold :
    String
    → ℕ
    → ℕ
    → ℕ
    → CheckpointRef
    → String
    → SessionCheckpointManager
    → SessionCheckpointManager
create_budget_threshold uuid now used threshold refs phase m =
    create
      (with_context_used used (
        with_phase phase (
          with_refs refs
            (new_checkpoint uuid now m.session_id (context_budget_threshold used threshold)))))
      m

unfoldable pub maybe_create_scheduled :
    String
    → ℕ
    → CheckpointRef
    → String
    → TaskLists
    → SessionCheckpointManager
    → SessionCheckpointManager × Bool
maybe_create_scheduled uuid now refs phase tasks m =
    if leb m.auto_checkpoint_interval (now - m.last_auto_checkpoint)
    then (
      create
          (with_tasks tasks
            (with_phase phase (with_refs refs (new_checkpoint uuid now m.session_id scheduled))))
          (record m { last_auto_checkpoint = now }),
      true,
    )
    else (m, false)

abbrev pub last : List SessionCheckpoint → Option SessionCheckpoint
last [] = none
last (cp ∷ []) = some cp
last (cp ∷ dp ∷ cps) = last (dp ∷ cps)

unfoldable pub latest : SessionCheckpointManager → Option SessionCheckpoint
latest m = last m.checkpoints

unfoldable pub create_recovery_context : SessionCheckpointManager → Option RecoveryContext
create_recovery_context m = elim (latest m) [ none ↦ none | some cp ↦ some (from_checkpoint cp) ]

-- `reaches` is the comparison of the ratio in floating point.
unfoldable pub should_checkpoint_for_budget : (ℕ → ℕ → Bool) → ℕ → ℕ → Bool
should_checkpoint_for_budget reaches used total = if eqb total 0 then false else reaches used total
