-- ===== src/Session/Strays.antt =====
-- src/agent/multi/session/orchestration.rs: a task that another agent than its own completes.
use claude_pilot.Base.{
  ℕ, String, ◌≡◌, refl, sym, ap, ◌∙◌, subst, true, false, some, arith, ◌==◌, string_eq, list_eq,
  nat_eq, set_insert,
}
use claude_pilot.Base.Assoc.{lookup, adjust, lookup-adjust}
use claude_pilot.TaskGraph.{
  TaskDag, DagTaskResult, NodeStatus, Result, ok, err, complete_task, refresh_ready_status,
  refresh_node, mark_completed,
}
use claude_pilot.TaskGraph.Lookup.{lookup-refresh_nodes}
use claude_pilot.Session.Agents.{Participant, update_participant, take_from}
use claude_pilot.Session.{
  OrchestrationSession, done, has_status, complete_session_task, notify, ◌then_with◌,
}

completed_status :
    (g h : TaskDag) (task : String) (r : DagTaskResult)
    → complete_task g task r ≡ ok h
    → has_status NodeStatus.completed (lookup task h.nodes) ≡ true
unfolding complete_task refresh_ready_status refresh_node
completed_status g h task r e = ground (
  arith,
  e,
  lookup-adjust task task (mark_completed r) g.nodes,
  lookup-refresh_nodes (set_insert task g.completed_ids) (adjust task (mark_completed r) g.nodes)
      task,
)

then_with_done :
    (r : Result TaskDag) (f : TaskDag → OrchestrationSession) (t : OrchestrationSession)
    → r then_with f ≡ done t
    → (g : TaskDag) × (r ≡ ok g) × (f g ≡ t)
then_with_done (ok g) f t e = (g, refl, cc)
then_with_done (err x) f t e = cc

-- When an agent completes a task, every other agent keeps what it had, so that one that holds the task
-- still holds it, with the task completed.
pub complete_by_other :
    (now : ℕ) (task a b : String) (r : DagTaskResult) (s t : OrchestrationSession) (p : Participant)
    → complete_session_task now task b r s ≡ done t
    → (b == a) ≡ false
    → lookup a s.participants.participants ≡ some p
    → (lookup a t.participants.participants ≡ some p)
      × (has_status NodeStatus.completed (lookup task t.tasks.nodes) ≡ true)
unfolding complete_session_task notify update_participant
complete_by_other now task a b r s t p e other known =
    let run = then_with_done (complete_task s.tasks task r) _ t e in
    (
      ap (λ (u : OrchestrationSession). lookup a u.participants.participants) (sym run.2)
          ∙ ground (
            arith,
            known,
            other,
            lookup-adjust a b (take_from now task) s.participants.participants,
          ),
      subst
          (λ (u : OrchestrationSession).
            has_status NodeStatus.completed (lookup task u.tasks.nodes) ≡ true)
          run.2 (completed_status s.tasks run.0 task r run.1),
    )
