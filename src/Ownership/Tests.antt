-- ===== src/Ownership/Tests.antt =====
-- A manager with two modules and one dependency, its runs, and the theorems at these runs.
use claude_pilot.Base.{
  ℕ, String, ◌≡◌, refl, inl, true, false, none, some, List, [], ◌∷◌, string_eq, list_eq, nat_eq,
  set_insert, decide_by, string_dec, list_dec,
}
use claude_pilot.Base.Assoc.{lookup, insert, remove}
use claude_pilot.Ownership.{
  FilePath, exclusive, is_expired, remaining_time, queued, denied, is_conflict, WaitingEntry,
  Manager, new, live_module, queue_of, insert_some, waiting_modules, involved_modules,
  detect_cross_module_conflict, boundary_violation, may_share, blocking_owner, lease,
  grant_ownership, acquire, is_held_by, release_internal, drop_lease, drop_guard,
  release_and_get_deferred, position_from, front, told_position, acquire_with_fair_queue,
  acquire_each, acquire_ordered, sort_paths, insert_path, path_le, insert_waiter, is_waiting,
  add_to_wait_queue, current_owner, register_deferred_task, get_default_owner,
  is_same_or_allowed_module,
}
use claude_pilot.Ownership.{
  lease, with_module_map, find_prefix, starts_with, add_files, add_module_files, add_dependencies,
}
use claude_pilot.Ownership.Acquire.{
  acquire_exclusive_held, acquire_conflict_unchanged, acquire_over_reader, reader, writer,
}
use claude_pilot.Ownership.Release.{register_all, release_each}
use claude_pilot.Ownership.Queues.{AllFair, waits, step_queue, step_queue-AllFair}
use claude_pilot.Ownership.Ordered.{acquire_ordered_refused}

abbrev main_rs : FilePath
main_rs = "src" ∷ "main.rs" ∷ []

abbrev lib_rs : FilePath
lib_rs = "src" ∷ "lib.rs" ∷ []

-- The names to see through in a run.
runs : String
unfolding string_dec decide_by list_dec register_all release_each lookup insert remove new acquire
    detect_cross_module_conflict involved_modules insert_some live_module waiting_modules queue_of
    boundary_violation blocking_owner may_share is_expired grant_ownership is_conflict
    acquire_with_fair_queue front acquire_each acquire_ordered sort_paths insert_path path_le
    drop_guard drop_lease release_internal is_held_by current_owner insert_waiter is_waiting
    get_default_owner find_prefix starts_with with_module_map add_files add_module_files
    add_dependencies is_same_or_allowed_module set_insert remaining_time told_position position_from
    register_deferred_task release_and_get_deferred add_to_wait_queue step_queue
runs = "runs"

-- `agent-1` writes src/main.rs.
abbrev held : Manager
held = (acquire new 0 main_rs (writer "agent-1")).0

main_is_held : current_owner held 10 main_rs ≡ some "agent-1"
unfolding runs
main_is_held = refl

other_waits : (acquire held 10 main_rs (writer "agent-2")).1 ≡ queued 1 290
unfolding runs
other_waits = refl

boundary_is_kept :
    (acquire (with_module_map (("core", ("src" ∷ []) ∷ []) ∷ []) []) 0 main_rs (record {
      requester = "agent-1";
      requester_module = some "web";
      access = exclusive;
      reason = "edit";
    })).1
    ≡ denied "web" "core"
unfolding runs
boundary_is_kept = refl

abbrev both : List FilePath
both = main_rs ∷ lib_rs ∷ []

-- src/lib.rs, the first in order, is granted and given back, since src/main.rs is held.
abbrev after_refusal : Manager
after_refusal = (acquire_ordered held 10 both (writer "agent-2")).0

acquire_ordered_refused_example :
    current_owner after_refusal 10 lib_rs ≡ current_owner held 10 lib_rs
unfolding runs
acquire_ordered_refused_example =
    acquire_ordered_refused held after_refusal 10 both (writer "agent-2") (queued 1 290) refl refl
      lib_rs

abbrev after_success : Manager
after_success = (acquire_ordered new 0 both (writer "agent-1")).0

acquire_exclusive_held_example :
    (is_conflict (acquire held 10 main_rs (reader "agent-2")).1 ≡ true)
    × ((acquire held 10 main_rs (reader "agent-2")).0 ≡ held)
unfolding runs
acquire_exclusive_held_example =
    acquire_exclusive_held held 10 main_rs (reader "agent-2") _ refl refl (inl refl)

acquire_conflict_unchanged_example : (acquire held 10 main_rs (writer "agent-2")).0 ≡ held
unfolding runs
acquire_conflict_unchanged_example =
    acquire_conflict_unchanged held 10 main_rs (writer "agent-2") refl

abbrev shared : Manager
shared = (acquire new 0 main_rs (reader "agent-1")).0

abbrev one_reader_left : Manager
one_reader_left =
    drop_lease (acquire shared 0 main_rs (reader "agent-2")).0 (lease main_rs "agent-2" 1)

acquire_over_reader_example :
    is_conflict (acquire one_reader_left 0 main_rs (writer "agent-3")).1 ≡ false
unfolding runs
acquire_over_reader_example =
    (acquire_over_reader new 0 main_rs "agent-1" "agent-2" "agent-3" refl refl).2

-- `agent-2` tries in vain, and `agent-1` only under the right version.
abbrev tried : Manager × List String
tried =
    release_each main_rs (("agent-2", 0) ∷ ("agent-1", 1) ∷ [])
      (register_all main_rs ("t-1" ∷ "t-2" ∷ []) held)

abbrev waiter : String → ℕ → WaitingEntry
waiter r p = record { requester = r; waiter_module = none; requested_at = 0; priority = p }

abbrev line : List WaitingEntry
line = waiter "a" 5 ∷ waiter "b" 2 ∷ []

abbrev waited : Manager
waited = add_to_wait_queue new 0 main_rs "a" none 5

step_queue-AllFair_example : AllFair (step_queue waited (waits 3 main_rs "b" none 7)).wait_queues
unfolding runs
step_queue-AllFair_example =
    step_queue-AllFair waited (waits 3 main_rs "b" none 7) ((tt, refl, tt), tt)
