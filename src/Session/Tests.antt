-- ===== src/Session/Tests.antt =====
-- A session with two agents and two tasks, its calls, and the theorems at these runs.
use claude_pilot.Base.{
  ◌+◌, ◌≤◌, String, ◌≡◌, refl, true, false, some, List, [], ◌∷◌, map, arith, string_eq, list_eq,
  nat_eq, contains, set_insert, set_remove, leb, decide_by, string_dec,
}
use claude_pilot.Base.Assoc.{lookup, insert, adjust, values}
use claude_pilot.Events.Kinds.{SessionPhase}
use claude_pilot.TaskGraph.{
  TaskInfo, DagTaskResult, new, new_node, add_task, refresh_ready_status, refresh_nodes,
  refresh_node, start_task, complete_task, fail_task, retry_task, get, task_ids, is_runnable,
  has_unmet_dependencies, unmet_dependencies, block_all, block_node, is_pending,
}
use claude_pilot.Session.Notification.{
  add, add_with_priority, acknowledge, cleanup, drop_excess, drop_old, index_task, index_files,
  affected_task, affected_files, adjust_last, acknowledge_first, latest_id, query, matches_filter,
  sort_notifications, insert_sorted, goes_before, truncate, is_for_agent,
}
use claude_pilot.Session.Log.{step_log, ids_from, ids_below}
use claude_pilot.Session.Delivery.{in_order}
use claude_pilot.Session.Agents.{
  Participant, new_registry, register, new_participant, with_capabilities, new_role, push_all,
  update_participant, remove_participant, remove_from_index, remove_all, get_all, by_module,
  by_role, find_candidate, is_available, has_capacity, current_load, can_fulfill_role,
}
use claude_pilot.Session.Registry.{step_registry}
use claude_pilot.Session.Checkpoint.{
  RecoveryContext, new_manager, new_checkpoint, create, cleanup_old_checkpoints, cleanup_rounds,
  drop_one, drop_passing, is_lasting, latest, create_phase_transition, create_budget_threshold,
  create_recovery_context, from_checkpoint, should_checkpoint_for_budget,
}
use claude_pilot.Session.{
  OrchestrationSession, new_session, with_config, default_config, default_budget, add_usage,
  advance_phase, enter_phase, enter_next, next_phase, notify, notify_phase_change,
  create_phase_checkpoint, create_checkpoint_refs, task_id_lists, statuses_of, debug_status,
  phase_name, add_session_task, assign_task, complete_session_task, fail_session_task,
  retry_session_task, register_participant, recovery_context, add_context_usage, start,
}
use claude_pilot.Session.Calls.{
  SessionCall, starts, registers as joins, adds_task, assigns, completes_task, fails_task, retries,
  step_session, run_session,
}
use claude_pilot.Session.Coherent.{IsCoherent, are_orderly, is_orderly, run_session-IsCoherent}
use claude_pilot.Session.Retries.{count_retries, retried, count_retries_lem}
use claude_pilot.Session.Bounds.{IsWithin, run_session-IsWithin}
use claude_pilot.Session.Recovery.{advance_phase-recovery, add_context_usage-recovery}

runs : String
unfolding count_retries new add_task refresh_ready_status refresh_nodes refresh_node new_node
    start_task complete_task fail_task retry_task get task_ids is_runnable has_unmet_dependencies
    unmet_dependencies block_all block_node is_pending lookup insert adjust string_dec decide_by
    set_insert set_remove add add_with_priority acknowledge cleanup drop_excess drop_old index_task
    index_files affected_task affected_files adjust_last acknowledge_first latest_id query
    matches_filter sort_notifications insert_sorted goes_before truncate is_for_agent step_log
    ids_from ids_below in_order new_registry register new_participant push_all update_participant
    remove_participant remove_from_index remove_all get_all by_module by_role find_candidate
    is_available has_capacity current_load can_fulfill_role step_registry new_manager new_checkpoint
    create cleanup_old_checkpoints cleanup_rounds drop_one drop_passing is_lasting latest
    create_phase_transition create_budget_threshold create_recovery_context from_checkpoint
    should_checkpoint_for_budget new_session with_config default_config default_budget add_usage
    advance_phase enter_phase enter_next next_phase notify notify_phase_change
    create_phase_checkpoint create_checkpoint_refs task_id_lists statuses_of debug_status phase_name
    add_session_task assign_task complete_session_task fail_session_task retry_session_task
    register_participant recovery_context add_context_usage start step_session run_session
    are_orderly is_orderly
runs = "runs"

abbrev info : String → TaskInfo
info id = record {
  id = id;
  description = "a task";
  target_module = "core";
  required_role = "coder";
  estimated_complexity = 1000;
  priority = 1;
  affected_files = [];
}

abbrev success : DagTaskResult
success = record { success = true; output = "done"; files_modified = []; artifacts = [] }

abbrev coder : String → String → Participant
coder id home =
    with_capabilities
      (record {
        roles = new_role "coder" ∷ [];
        max_concurrent_tasks = 2;
        context_budget = 1000;
        domains = [];
        languages = [];
      })
      (new_participant 1 id home "project")

abbrev fresh : OrchestrationSession
fresh = new_session "session-1" 0 "a mission" "/work"

abbrev calls : List SessionCall
calls =
    starts 1
    ∷ joins 2 "Participant registered: ann" (coder "ann" "auth")
    ∷ joins 3 "Participant registered: bob" (coder "bob" "core")
    ∷ adds_task (info "build")
    ∷ adds_task (info "check")
    ∷ assigns 4 "build" "ann"
    ∷ assigns 5 "check" "bob"
    ∷ fails_task 6 "check" "bob" "error"
    ∷ retries "check"
    ∷ assigns 7 "check" "ann"
    ∷ completes_task 8 "build" "ann" success
    ∷ []

abbrev busy : OrchestrationSession
busy = run_session (λ used total. leb 100 used) calls fresh

busy_holds :
    map (λ (p : Participant). p.assigned_tasks) (values busy.participants.participants)
    ≡ ("check" ∷ []) ∷ [] ∷ []
unfolding runs
busy_holds = refl

fresh-IsCoherent : IsCoherent fresh
unfolding runs
fresh-IsCoherent agent x p e = cc

run_session-IsCoherent_example : IsCoherent busy
unfolding runs
run_session-IsCoherent_example =
    run_session-IsCoherent (λ used total. leb 100 used) calls fresh refl fresh-IsCoherent

-- A session with one task, and calls that retry it once.
abbrev joined : OrchestrationSession
joined =
    run_session (λ used total. leb 100 used)
      (starts 1
        ∷ joins 2 "Participant registered: ann" (coder "ann" "auth")
        ∷ joins 3 "Participant registered: bob" (coder "bob" "core")
        ∷ adds_task (info "check")
        ∷ [])
      fresh

abbrev work_calls : List SessionCall
work_calls =
    assigns 5 "check" "bob"
    ∷ fails_task 6 "check" "bob" "error"
    ∷ retries "check"
    ∷ assigns 7 "check" "ann"
    ∷ []

count_retries_lem_example :
    (0 + 1 ≡ retried "check" (run_session (λ used total. leb 100 used) work_calls joined))
    × (0 + 1 ≤ 3)
unfolding runs
count_retries_lem_example =
    count_retries_lem (λ used total. leb 100 used) "check" work_calls joined refl (omega arith)
      (omega arith)

fresh-IsWithin : IsWithin fresh
unfolding runs
fresh-IsWithin = record { notified = omega arith; checkpointed = omega arith; used = omega arith }

run_session-IsWithin_example : IsWithin busy
run_session-IsWithin_example =
    run_session-IsWithin (λ used total. leb 100 used) calls fresh fresh-IsWithin

advance_phase-recovery_example :
    (c : RecoveryContext) × (recovery_context (advance_phase "cp-1" 9 busy) ≡ some c)
    × (contains c.tasks_to_retry "check" ≡ true)
    × (contains c.tasks_to_skip "check" ≡ false)
    × (c.notification_start_id ≡ 8)
unfolding runs
advance_phase-recovery_example =
    advance_phase-recovery "cp-1" 9 busy SessionPhase.planning "check" refl (omega arith)
      (omega arith)

add_context_usage-recovery_example :
    (c : RecoveryContext) × (recovery_context
        (add_context_usage (λ used total. leb 100 used) "cp-2" 10 200 busy)
      ≡ some c)
    × (c.tasks_to_retry ≡ [])
    × (c.tasks_to_skip ≡ [])
unfolding runs
add_context_usage-recovery_example =
    add_context_usage-recovery (λ used total. leb 100 used) "cp-2" 10 200 busy refl (omega arith)
      (omega arith) refl
