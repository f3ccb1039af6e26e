-- ===== src/Session/PartTests.antt =====
-- The log, the registry and the checkpoints of a session at small runs, and the theorems there.
use claude_pilot.Base.{
  String, ◌≡◌, refl, true, ◌||◌, not, some, [], ◌∷◌, arith, ◌==◌, string_eq, list_eq, nat_eq,
  set_insert, set_remove, decide_by, string_dec,
}
use claude_pilot.Base.Assoc.{lookup, insert, adjust}
use claude_pilot.TaskGraph.{
  new, new_node, add_task, refresh_ready_status, refresh_nodes, refresh_node, start_task,
  complete_task, fail_task, retry_task, get, task_ids, is_runnable, has_unmet_dependencies,
  unmet_dependencies, block_all, block_node, is_pending,
}
use claude_pilot.Session.Notification.{
  NotificationLog, text, new_log, add, add_with_priority, acknowledge, cleanup, drop_excess,
  drop_old, index_task, index_files, affected_task, affected_files, adjust_last, acknowledge_first,
  latest_id, query, matches_filter, sort_notifications, insert_sorted, goes_before, truncate,
  is_for_agent,
}
use claude_pilot.Session.Log.{
  IsLog, adds, adds_with_priority, step_log, step_log-IsLog, ids_from, ids_below,
}
use claude_pilot.Session.Delivery.{in_order}
use claude_pilot.Session.Agents.{
  Participant, ParticipantRegistry, new_registry, register, new_participant, with_capabilities,
  new_role, push_all, update_participant, remove_participant, remove_from_index, remove_all,
  get_all, by_module, by_role, find_candidate, is_available, has_capacity, current_load,
  can_fulfill_role, mark_ready,
}
use claude_pilot.Session.Indexed.{IsRegistry, new_registry-IsRegistry}
use claude_pilot.Session.Registry.{registers, readies, step_registry, step_registry-IsRegistry}
use claude_pilot.Session.Candidate.{find_candidate_lem, is_candidate}
use claude_pilot.Session.Checkpoint.{
  SessionCheckpointManager, new_manager, new_checkpoint, phase_transition, create,
  cleanup_old_checkpoints, cleanup_rounds, drop_one, drop_passing, is_lasting, latest,
  create_phase_transition, create_budget_threshold, create_recovery_context, from_checkpoint,
  should_checkpoint_for_budget,
}
use claude_pilot.Session.{
  new_session, with_config, default_config, default_budget, add_usage, advance_phase, enter_phase,
  enter_next, next_phase, notify, notify_phase_change, create_phase_checkpoint,
  create_checkpoint_refs, task_id_lists, statuses_of, debug_status, phase_name, add_session_task,
  assign_task, complete_session_task, fail_session_task, retry_session_task, register_participant,
  recovery_context, add_context_usage, start,
}
use claude_pilot.Session.Calls.{step_session, run_session}
use claude_pilot.Session.Coherent.{are_orderly, is_orderly}

runs : String
unfolding new add_task refresh_ready_status refresh_nodes refresh_node new_node start_task
    complete_task fail_task retry_task get task_ids is_runnable has_unmet_dependencies
    unmet_dependencies block_all block_node is_pending lookup insert adjust string_dec decide_by
    set_insert set_remove add add_with_priority acknowledge cleanup drop_excess drop_old index_task
    index_files affected_task affected_files adjust_last acknowledge_first latest_id query
    matches_filter sort_notifications insert_sorted goes_before truncate is_for_agent step_log
    ids_from ids_below in_order new_registry register new_participant push_all update_participant
    remove_participant remove_from_index remove_all get_all by_module by_role find_candidate
    is_available has_capacity current_load can_fulfill_role step_registry new_manager new_checkpoint
    create cleanup_old_checkpoints cleanup_rounds drop_one drop_passing is_lasting latest
    create_phase_transition create_budget_threshold create_recovery_context from_checkpoint
    should_checkpoint_for_budget new_session with_config default_config default_budget add_usage
    advance_phase enter_phase enter_next next_phase notify notify_phase_change
    create_phase_checkpoint create_checkpoint_refs task_id_lists statuses_of debug_status phase_name
    add_session_task assign_task complete_session_task fail_session_task retry_session_task
    register_participant recovery_context add_context_usage start step_session run_session
    are_orderly is_orderly
runs = "runs"

abbrev coder : String → String → Participant
coder id home =
    with_capabilities
      (record {
        roles = new_role "coder" ∷ [];
        max_concurrent_tasks = 2;
        context_budget = 1000;
        domains = [];
        languages = [];
      })
      (new_participant 1 id home "project")

abbrev ann : Participant
ann = coder "ann" "auth"

abbrev bob : Participant
bob = coder "bob" "core"

abbrev registry : ParticipantRegistry
registry =
    step_registry (readies 3 "bob")
      (step_registry (registers bob) (step_registry (registers ann) new_registry))

registry-IsRegistry : IsRegistry registry
unfolding runs
registry-IsRegistry = step_registry-IsRegistry (readies 3 "bob") _ refl (
    step_registry-IsRegistry (registers bob) _ refl
      (step_registry-IsRegistry (registers ann) new_registry refl new_registry-IsRegistry))

step_registry-IsRegistry_example : IsRegistry (step_registry (registers ann) new_registry)
unfolding runs
step_registry-IsRegistry_example =
    step_registry-IsRegistry (registers ann) new_registry refl new_registry-IsRegistry

-- Bob is not of the module, but the only one who is ready.
find_candidate_lem_example :
    (p : Participant) × (find_candidate "auth" "coder" registry ≡ some p)
    × (lookup p.id registry.participants ≡ some p)
    × (is_candidate "coder" p ≡ true)
    × ((not (bob.home == "auth") || (p.home == "auth")) ≡ true)
unfolding runs
find_candidate_lem_example =
    find_candidate_lem "auth" "coder" registry registry-IsRegistry (mark_ready 3 bob) "bob" refl
      refl

abbrev moved : Participant
moved = coder "ann" "core"

abbrev manager : SessionCheckpointManager
manager = record {
  session_id = "session-1";
  checkpoints = new_checkpoint "cp-1" 1 "session-1" (phase_transition "setup" "planning") ∷ [];
  auto_checkpoint_interval = 300000;
  last_auto_checkpoint = 0;
  max_checkpoints = 1;
}

abbrev log : NotificationLog
log =
    step_log (adds_with_priority 2 "bob" "ann" (text "again") 100)
      (step_log (adds 1 "ann" "*" (text "hello")) (new_log 2 1000))

new_log-IsLog : IsLog (new_log 2 1000)
unfolding runs
new_log-IsLog = record { growing = refl; below = refl; numbered = omega arith; fits = omega arith }

one_note-IsLog : IsLog (step_log (adds 1 "ann" "*" (text "hello")) (new_log 2 1000))
unfolding runs
one_note-IsLog =
    step_log-IsLog (adds 1 "ann" "*" (text "hello")) (new_log 2 1000) refl new_log-IsLog

log-IsLog : IsLog log
unfolding runs
log-IsLog =
    step_log-IsLog (adds_with_priority 2 "bob" "ann" (text "again") 100) _ refl one_note-IsLog
