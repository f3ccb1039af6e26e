-- ===== src/EventStore/Tests.antt =====
-- A table with two events of one mission, its runs, and the theorems at these runs.
use claude_pilot.Base.{
  ℕ, String, ◌≡◌, refl, none, some, [], ◌∷◌, arith, string_eq, list_eq, nat_eq, decide_by,
  string_dec, list_dec,
}
use claude_pilot.Events.{
  DomainEvent, EventPayload, any_event, event_type, matches, passes, payload_type, payload_task,
  task_started,
}
use claude_pilot.EventStore.{
  Store, concurrency_conflict, write_event, append_event, write_batch, append_batch,
  archive_through, insert_row, insert_by, then_rest, order_by, max_global_seq, max_version, clashes,
  reopen, limited, selected, query_filtered, query, query_aggregate_from_seq,
}
use claude_pilot.EventStore.Append.{
  append, process_command, process_command-IsOrdered, append_event-twice,
}
use claude_pilot.EventStore.Sequence.{IsOrdered, ascending_from, all_below}

abbrev event : String → String → EventPayload ℕ → DomainEvent ℕ
event id a x = record {
  id = id;
  aggregate_id = a;
  version = 0;
  global_seq = 0;
  timestamp = 7;
  payload = x;
  causation_id = none;
  correlation_id = none;
}

abbrev empty : Store ℕ
empty = record { events = []; archived = []; next_seq = 1 }

abbrev start_t1 : DomainEvent ℕ
start_t1 = event "e-1" "m-1" (task_started "t-1" "parse")

abbrev start_t2 : DomainEvent ℕ
start_t2 = event "e-2" "m-1" (task_started "t-2" "print")

abbrev two : Store ℕ
two = (append_batch (start_t1 ∷ start_t2 ∷ []) empty).0

-- The names to see through in a run.
runs : String
unfolding string_dec decide_by list_dec write_event append_event write_batch append_batch
    archive_through insert_row insert_by then_rest order_by max_global_seq max_version clashes
    reopen limited selected query_filtered matches passes event_type payload_type payload_task
    ascending_from all_below query query_aggregate_from_seq
runs = "runs"

batch_versions : (append_batch (start_t1 ∷ start_t2 ∷ []) empty).1 ≡ some (1 ∷ 2 ∷ [])
unfolding runs
batch_versions = refl

-- The same identifier twice: the rows are rolled back, the numbers are not.
batch_rolled_back :
    append_batch (start_t1 ∷ start_t1 ∷ []) empty
    ≡ (record { events = []; archived = []; next_seq = 3 }, none)
unfolding runs
batch_rolled_back = refl

-- The limit is spent on the first task, so the second is not found.
limit_before_task :
    query_filtered "m-1" (record any_event { task_id = some "t-2"; limit = some 1 }) two.events ≡ []
unfolding runs
limit_before_task = refl

process_command-IsOrdered_example : IsOrdered (process_command (append start_t1 (some 2)) two)
unfolding runs
process_command-IsOrdered_example =
    process_command-IsOrdered (append start_t1 (some 2)) two refl (refl, refl, omega arith)

append_event-twice_example :
    append_event start_t2 (some 0) (append_event start_t1 (some 0) empty).0
    ≡ ((append_event start_t1 (some 0) empty).0, concurrency_conflict 0 1)
unfolding runs
append_event-twice_example = append_event-twice start_t1 start_t2 empty 0 1 refl (omega arith) refl
