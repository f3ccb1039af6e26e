-- ===== src/Events/Payload.antt =====
-- src/state/events.rs: the payload of an event. Floating point numbers are a parameter; an instant
-- is a number of nanoseconds.
use claude_pilot.Base.{ℕ, String, Bool, true, false, List, Option, some, none}
use claude_pilot.Events.Kinds.{
  SessionPhase, ConsensusOutcome, TierLevel, FixStrategy, IssueCategory, ConsensusStrategyKind,
  Severity, VoteDecision, RoundOutcome, EscalationLevel, RoleType, AgentMessageType, AgentStatus,
  ResolutionStrategy,
}
use claude_pilot.Events.MissionState.{MissionState}
use claude_pilot.Events.TaskStatus.{TaskStatus}

pub data EventPayload (F : Type 0) : Type 0 where
  mission_created : (description : String) → EventPayload F
  state_changed : (from : MissionState) (to : MissionState) (reason : String) → EventPayload F
  plan_generated : (task_count : ℕ) (phase_count : ℕ) → EventPayload F
  task_started : (task_id : String) (description : String) → EventPayload F
  task_completed :
      (task_id : String) (files_modified : List String) (duration_ms : ℕ) → EventPayload F
  task_failed : (task_id : String) (error : String) (retry_count : ℕ) → EventPayload F
  task_skipped : (task_id : String) (reason : String) → EventPayload F
  task_deferred : (task_id : String) (reason : String) (deferred_by : String) → EventPayload F
  task_status_changed : (task_id : String) (from : TaskStatus) (to : TaskStatus) → EventPayload F
  verification_round :
      (round : ℕ) (passed : Bool) (issue_count : ℕ) (duration_ms : ℕ) → EventPayload F
  issue_detected :
      (issue_id : String) (category : IssueCategory) (severity : Severity) (message : String)
      (file : Option String) (line : Option ℕ)
      → EventPayload F
  issue_resolved : (issue_id : String) (fix_strategy : FixStrategy) → EventPayload F
  convergence_achieved : (total_rounds : ℕ) (clean_rounds : ℕ) → EventPayload F
  fix_attempted : (issue_id : String) (strategy : FixStrategy) (success : Bool) → EventPayload F
  pattern_learned :
      (pattern_id : String) (category : IssueCategory) (strategy : FixStrategy) (success : Bool)
      → EventPayload F
  pattern_applied : (pattern_id : String) (issue_id : String) (confidence : F) → EventPayload F
  pattern_evolved : (pattern_id : String) (old_confidence : F) (new_confidence : F) → EventPayload F
  checkpoint_created : (checkpoint_id : String) (task_count : ℕ) → EventPayload F
  consensus_round_started :
      (round : ℕ) (proposal_hash : String) (participants : List String) → EventPayload F
  consensus_vote_received :
      (round : ℕ) (agent_id : String) (decision : VoteDecision) (score : F) → EventPayload F
  consensus_conflict_detected :
      (round : ℕ) (conflict_id : String) (agents : List String) (severity : Severity)
      → EventPayload F
  consensus_conflict_resolved :
      (conflict_id : String) (resolution_strategy : ResolutionStrategy) → EventPayload F
  consensus_round_completed :
      (round : ℕ) (outcome : RoundOutcome) (approval_ratio : F) → EventPayload F
  consensus_escalated : (level : EscalationLevel) (strategy : String) → EventPayload F
  consensus_completed :
      (rounds : ℕ) (respondent_count : ℕ) (outcome : ConsensusOutcome) → EventPayload F
  multi_agent_phase_completed :
      (phase : SessionPhase) (task_count : ℕ) (success_count : ℕ) (duration_ms : ℕ) → EventPayload F
  agent_message_sent :
      (from_agent : String) (to_agent : String) (message_type : AgentMessageType)
      (correlation_id : String)
      → EventPayload F
  agent_message_received :
      (from_agent : String) (to_agent : String) (message_type : AgentMessageType)
      (correlation_id : String)
      → EventPayload F
  agent_spawned : (agent_id : String) (role : RoleType) (persona : Option String) → EventPayload F
  agent_terminated : (agent_id : String) (reason : String) (tasks_completed : ℕ) → EventPayload F
  agent_status_changed :
      (agent_id : String) (previous_status : AgentStatus) (new_status : AgentStatus)
      → EventPayload F
  manifest_context_injected :
      (agent_id : String) (task_id : String) (module_ids : List String) → EventPayload F
  consensus_proposal_submitted :
      (round : ℕ) (proposer_agent : String) (proposal_hash : String)
      (affected_modules : List String)
      → EventPayload F
  consensus_module_vote :
      (round : ℕ) (agent_id : String) (module_id : String) (decision : VoteDecision)
      (confidence : F)
      → EventPayload F
  hierarchical_consensus_started :
      (session_id : String) (mission_id : String) (strategy : ConsensusStrategyKind)
      (participant_count : ℕ) (tier_count : ℕ)
      → EventPayload F
  tier_consensus_started :
      (session_id : String) (tier_level : TierLevel) (unit_id : String) (participants : List String)
      → EventPayload F
  tier_consensus_completed :
      (session_id : String) (tier_level : TierLevel) (unit_id : String) (synthesis_hash : String)
      (respondent_count : ℕ) (converged : Bool)
      → EventPayload F
  consensus_checkpoint_created :
      (session_id : String) (checkpoint_id : String) (round : ℕ) (tier_level : Option TierLevel)
      (state_hash : String)
      → EventPayload F
  session_recovery_started :
      (session_id : String) (checkpoint_id : String) (recovery_round : ℕ) → EventPayload F
  session_recovery_completed :
      (session_id : String) (checkpoint_id : String) (outcome : ConsensusOutcome)
      (recovered_rounds : ℕ) (duration_ms : ℕ)
      → EventPayload F
  session_recovery_failed :
      (session_id : Option String) (checkpoint_id : String) (reason : String) → EventPayload F
  hierarchical_consensus_completed :
      (session_id : String) (outcome : ConsensusOutcome) (total_tiers : ℕ) (total_rounds : ℕ)
      (duration_ms : ℕ)
      → EventPayload F

module _ {F : Type 0} where
  unfoldable pub payload_type : EventPayload F → String
  payload_type (mission_created _) = "mission_created"
  payload_type (state_changed _ _ _) = "state_changed"
  payload_type (plan_generated _ _) = "plan_generated"
  payload_type (task_started _ _) = "task_started"
  payload_type (task_completed _ _ _) = "task_completed"
  payload_type (task_failed _ _ _) = "task_failed"
  payload_type (task_skipped _ _) = "task_skipped"
  payload_type (task_deferred _ _ _) = "task_deferred"
  payload_type (task_status_changed _ _ _) = "task_status_changed"
  payload_type (verification_round _ _ _ _) = "verification_round"
  payload_type (issue_detected _ _ _ _ _ _) = "issue_detected"
  payload_type (issue_resolved _ _) = "issue_resolved"
  payload_type (convergence_achieved _ _) = "convergence_achieved"
  payload_type (fix_attempted _ _ _) = "fix_attempted"
  payload_type (pattern_learned _ _ _ _) = "pattern_learned"
  payload_type (pattern_applied _ _ _) = "pattern_applied"
  payload_type (pattern_evolved _ _ _) = "pattern_evolved"
  payload_type (checkpoint_created _ _) = "checkpoint_created"
  payload_type (consensus_round_started _ _ _) = "consensus_round_started"
  payload_type (consensus_vote_received _ _ _ _) = "consensus_vote_received"
  payload_type (consensus_conflict_detected _ _ _ _) = "consensus_conflict_detected"
  payload_type (consensus_conflict_resolved _ _) = "consensus_conflict_resolved"
  payload_type (consensus_round_completed _ _ _) = "consensus_round_completed"
  payload_type (consensus_escalated _ _) = "consensus_escalated"
  payload_type (consensus_completed _ _ _) = "consensus_completed"
  payload_type (multi_agent_phase_completed _ _ _ _) = "multi_agent_phase_completed"
  payload_type (agent_message_sent _ _ _ _) = "agent_message_sent"
  payload_type (agent_message_received _ _ _ _) = "agent_message_received"
  payload_type (agent_spawned _ _ _) = "agent_spawned"
  payload_type (agent_terminated _ _ _) = "agent_terminated"
  payload_type (agent_status_changed _ _ _) = "agent_status_changed"
  payload_type (manifest_context_injected _ _ _) = "manifest_context_injected"
  payload_type (consensus_proposal_submitted _ _ _ _) = "consensus_proposal_submitted"
  payload_type (consensus_module_vote _ _ _ _ _) = "consensus_module_vote"
  payload_type (hierarchical_consensus_started _ _ _ _ _) = "hierarchical_consensus_started"
  payload_type (tier_consensus_started _ _ _ _) = "tier_consensus_started"
  payload_type (tier_consensus_completed _ _ _ _ _ _) = "tier_consensus_completed"
  payload_type (consensus_checkpoint_created _ _ _ _ _) = "consensus_checkpoint_created"
  payload_type (session_recovery_started _ _ _) = "session_recovery_started"
  payload_type (session_recovery_completed _ _ _ _ _) = "session_recovery_completed"
  payload_type (session_recovery_failed _ _ _) = "session_recovery_failed"
  payload_type (hierarchical_consensus_completed _ _ _ _ _) = "hierarchical_consensus_completed"

  unfoldable pub is_terminal_event : EventPayload F → Bool
  is_terminal_event (state_changed _ MissionState.completed _) = true
  is_terminal_event (state_changed _ MissionState.failed _) = true
  is_terminal_event (state_changed _ MissionState.cancelled _) = true
  is_terminal_event _ = false

  unfoldable pub payload_task : EventPayload F → Option String
  payload_task (task_started t _) = some t
  payload_task (task_completed t _ _) = some t
  payload_task (task_failed t _ _) = some t
  payload_task (task_skipped t _) = some t
  payload_task (task_deferred t _ _) = some t
  payload_task (task_status_changed t _ _) = some t
  payload_task (manifest_context_injected _ t _) = some t
  payload_task _ = none
