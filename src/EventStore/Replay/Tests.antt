-- ===== src/EventStore/Replay/Tests.antt =====
-- Two missions with the progress projection, its runs, and the theorems at these runs.
use claude_pilot.Base.{
  ℕ, String, ◌≡◌, refl, sym, ap, ◌∙◌, true, false, none, some, [], ◌∷◌, arith, string_eq, list_eq,
  nat_eq, decide_by, string_dec, list_dec,
}
use claude_pilot.Events.{DomainEvent, EventPayload, task_started, task_completed, mission_created}
use claude_pilot.EventStore.{
  Store, append_event, append_batch, write_event, write_batch, then_rest, archive_through,
  insert_row, insert_by, order_by, max_global_seq, max_version, clashes, reopen,
  query_aggregate_from_seq, query_aggregate_from_seq_until,
}
use claude_pilot.EventStore.Sequence.{ascending_from, all_below}
use claude_pilot.EventStore.Replay.{
  Projection, Serde, Replayer, replay, apply_idempotent, save, cleanup_old_snapshots,
  get_snapshots_ordered, take, order_snapshots, insert_snapshot, first_readable, load_latest,
  rebuild_projection, replay_from_checkpoint, saved, auto_archive_if_enabled, maybe_snapshot,
  unwrap_or,
}
use claude_pilot.EventStore.Replay.Rebuild.{
  IsLawful, IsValid, rebuild_projection_lem, replay_from_checkpoint_lem, replay_to, events_in,
}
use claude_pilot.EventStore.Replay.Archive.{saved-forgets}
use claude_pilot.Projections.{ProgressProjection, progress, progress_apply, progress_payload}

abbrev read_model : Projection ℕ ProgressProjection
read_model = progress

abbrev event : String → String → EventPayload ℕ → DomainEvent ℕ
event id a x = record {
  id = id;
  aggregate_id = a;
  version = 0;
  global_seq = 0;
  timestamp = 7;
  payload = x;
  causation_id = none;
  correlation_id = none;
}

abbrev store : Store ℕ
store =
    (append_batch
      (event "e-1" "m-2" (mission_created "port")
        ∷ event "e-2" "m-1" (task_started "t-1" "parse")
        ∷ event "e-3" "m-1" (task_completed "t-1" [] 5)
        ∷ [])
      (record { events = []; archived = []; next_seq = 1 })).0

-- The bytes of a snapshot are the projection itself.
abbrev plain : Serde ProgressProjection ProgressProjection
plain = record { serialize = λ p. p; deserialize = λ p. some p; compute_checksum = λ p. 0 }

abbrev fresh : Replayer ℕ ProgressProjection
fresh = record {
  event_store = store;
  snapshots = [];
  max_snapshots_per_aggregate = 3;
  snapshot_interval = 2;
  archive_after_snapshot = false;
  vacuum_interval_events = 100;
  archived_since_vacuum = 0;
}

-- A rebuild that has written its snapshot.
abbrev with_snapshot : Replayer ℕ ProgressProjection
with_snapshot = (rebuild_projection read_model plain "s-1" "m-1" fresh).0

abbrev at_three : ProgressProjection
at_three = (rebuild_projection read_model plain "s-1" "m-1" fresh).1

-- The names to see through in a run.
runs : String
unfolding string_dec decide_by list_dec write_event append_event write_batch append_batch
    archive_through insert_row insert_by then_rest order_by max_global_seq max_version clashes
    reopen query_aggregate_from_seq query_aggregate_from_seq_until ascending_from all_below replay
    apply_idempotent save cleanup_old_snapshots get_snapshots_ordered take order_snapshots
    insert_snapshot first_readable load_latest rebuild_projection replay_from_checkpoint saved
    auto_archive_if_enabled maybe_snapshot progress progress_apply progress_payload
runs = "runs"

one_completed : at_three.completed_tasks ≡ 1
unfolding runs
one_completed = refl

lawful : IsLawful read_model
unfolding runs
lawful = record { last-set = λ n p. refl; last-default = refl }

-- The snapshot of the first rebuild is valid.
with_snapshot-IsValid : IsValid read_model plain "m-1" with_snapshot
unfolding runs
with_snapshot-IsValid p n found = (
  ap (λ q. q.last_applied_seq) p_is ∙ sym n_is,
  p_is ∙ ap (λ k. replay_to read_model plain k "m-1" with_snapshot) (sym n_is),
)
  where
    p_is : p ≡ at_three
    p_is = ap (λ o. (unwrap_or {A = ProgressProjection × ℕ} (at_three, 3) o).0) (sym found)

    n_is : n ≡ 3
    n_is = ap (λ o. (unwrap_or {A = ProgressProjection × ℕ} (at_three, 3) o).1) (sym found)

rebuild_projection_lem_example :
    (rebuild_projection read_model plain "s-2" "m-1" with_snapshot).1
    ≡ replay read_model (events_in read_model plain "m-1" with_snapshot) read_model.default
unfolding runs
rebuild_projection_lem_example =
    rebuild_projection_lem read_model plain "s-2" "m-1" with_snapshot lawful
      (refl, refl, omega arith) with_snapshot-IsValid

replay_from_checkpoint_lem_example :
    replay_from_checkpoint read_model plain "m-1" 2 fresh ≡ replay_to read_model plain 2 "m-1" fresh
unfolding runs
replay_from_checkpoint_lem_example =
    replay_from_checkpoint_lem read_model plain "m-1" 2 fresh lawful (refl, refl, omega arith)
      (λ p n found. cc) (omega arith)

abbrev archiving : Replayer ℕ ProgressProjection
archiving = record fresh { archive_after_snapshot = true }

saved-forgets_example :
    (rebuild_projection read_model plain "s-2" "m-2"
      (saved read_model plain "s-1" "m-1" at_three archiving)).1
    ≡ read_model.default
unfolding runs
saved-forgets_example =
    saved-forgets read_model plain "s-1" "s-2" "m-1" "m-2" at_three archiving 3 lawful
      (refl, refl, omega arith) refl refl refl refl
