-- ===== src/Projections/Tests.antt =====
-- Projections at work on a few events, and the theorems at these runs.
use claude_pilot.Base.{
  List, ℕ, String, ◌≡◌, refl, none, [], ◌∷◌, arith, string_eq, list_eq, nat_eq, length, decide_by,
  string_dec, list_dec,
}
use claude_pilot.Base.Assoc.{lookup, insert, remove, adjust}
use claude_pilot.Events.{
  DomainEvent, EventPayload, task_started, task_completed, event_type, payload_type, payload_task,
  consensus_round_started,
}
use claude_pilot.EventStore.Replay.{replay, apply_idempotent}
use claude_pilot.EventStore.Sequence.{ascending_from}
use claude_pilot.Projections.{
  ProgressProjection, progress, progress_apply, progress_payload, new_progress, timeline,
  timeline_apply, push_bounded, TaskStatusProjection, new_tasks, task_statuses, tasks_apply,
  tasks_payload, start_task, make_room, restored_tasks, ConsensusProjection, consensus,
  consensus_apply, consensus_payload, new_consensus, push_recent, count_vote, restored_consensus,
}
use claude_pilot.Projections.Progress.{progress-completed}
use claude_pilot.Projections.TaskBound.{IsTracked}
use claude_pilot.Projections.ConsensusBound.{take_votes}

abbrev event : ℕ → EventPayload ℕ → DomainEvent ℕ
event n x = record {
  id = "e";
  aggregate_id = "m-1";
  version = n;
  global_seq = n;
  timestamp = 7;
  payload = x;
  causation_id = none;
  correlation_id = none;
}

abbrev starts : ℕ → String → DomainEvent ℕ
starts n t = event n (task_started t "work")

runs : String
unfolding ascending_from string_dec decide_by list_dec lookup insert remove adjust replay
    apply_idempotent progress progress_apply progress_payload timeline timeline_apply push_bounded
    event_type payload_type payload_task tasks_apply tasks_payload start_task make_room
    restored_tasks task_statuses consensus consensus_apply consensus_payload push_recent count_vote
    restored_consensus take_votes
runs = "runs"

-- With room for two tasks, a second start of the first one leaves three tasks in the end.
three_of_two :
    length
      (replay
        (task_statuses 2)
        (starts 1 "a" ∷ starts 2 "a" ∷ starts 3 "b" ∷ starts 4 "c" ∷ starts 5 "d" ∷ [])
        (new_tasks 2)).tasks
    ≡ 3
unfolding runs
three_of_two = refl

-- The completions; the first has been applied before.
abbrev completions : List (DomainEvent ℕ)
completions = event 1 (task_completed "a" [] 5) ∷ event 2 (task_completed "b" [] 5) ∷ []

abbrev after_first : ProgressProjection
after_first = record new_progress { last_applied_seq = 1; completed_tasks = 1 }

progress-completed_example :
    ((replay progress completions after_first).completed_tasks ≡ 2)
    × (replay progress completions (replay progress completions after_first)
        ≡ replay progress completions after_first)
unfolding runs
progress-completed_example = progress-completed completions 0 after_first (omega arith) refl

abbrev one_task : TaskStatusProjection
one_task = start_task 7 "a" "work" (new_tasks 2)

one_task-IsTracked : IsTracked one_task
unfolding runs
one_task-IsTracked = record {
  in_step = refl;
  once = refl;
  fits = omega arith;
  some_room = omega arith;
}

abbrev round_one : EventPayload ℕ
round_one = consensus_round_started 1 "h-1" ("a" ∷ "b" ∷ [])

abbrev in_round : ConsensusProjection ℕ
in_round = consensus_payload 7 round_one (new_consensus 20 50)
