-- ===== src/Events/Kinds.antt =====
-- src/domain/primitives.rs and the enums that events carry, each with its constructors.
use claude_pilot.Base.{String}

pub data SessionPhase : Type 0 where
  setup planning implementation verification finalization : SessionPhase
  custom : String → SessionPhase

pub data ConsensusOutcome : Type 0 where
  converged partial_convergence escalated timeout failed : ConsensusOutcome

pub data TierLevel : Type 0 where
  module_agent group domain workspace cross_workspace : TierLevel

pub data FixStrategy : Type 0 where
  direct_fix contextual_fix dependency_fix type_inference_fix refactor_fix rollback : FixStrategy

pub data IssueCategory : Type 0 where
  build_error test_failure lint_error type_check_error runtime_error logic_error security_issue
        performance_issue style_violation missing_file other :
      IssueCategory
  custom : String → IssueCategory

pub data ConsensusStrategyKind : Type 0 where
  direct flat hierarchical : ConsensusStrategyKind

pub data Severity : Type 0 where
  info warning error critical : Severity

pub data VoteDecision : Type 0 where
  approve approve_with_changes reject abstain : VoteDecision

pub data RoundOutcome : Type 0 where
  approved needs_more_rounds failed escalated : RoundOutcome

pub data EscalationLevel : Type 0 where
  retry scope_reduction architectural_mediation split_and_conquer human_escalation : EscalationLevel

-- `module_agent` is `Module`, a reserved word here.
pub data RoleType : Type 0 where
  research planning coder verifier reviewer architect workspace_coordinator
        cross_workspace_coordinator :
      RoleType
  module_agent : String → RoleType
  group_coordinator : String → RoleType
  domain_coordinator : String → RoleType

pub data AgentMessageType : Type 0 where
  task_assignment task_result conflict_alert consensus_request consensus_vote evidence_share
        review_feedback escalation_notice broadcast :
      AgentMessageType

pub data AgentStatus : Type 0 where
  registered ready busy completed failed removed : AgentStatus

pub data ResolutionStrategy : Type 0 where
  highest_score module_expert_priority compromise escalate : ResolutionStrategy
