-- ===== src/Consensus/Synthesis.antt =====
-- src/agent/multi/consensus/types.rs and conflict.rs: proposals, their synthesis and the answers of a
-- consensus. A text made for people (a summary) is kept as its kind and its numbers.
use claude_pilot.Base.{
  ℕ, String, Bool, Option, List, [], ◌∷◌, ◌++◌, ◌==◌, string_eq, list_eq, contains, if◌then◌else◌,
  is_none, ◌&&◌, true, false,
}
use claude_pilot.Events.Kinds.{Severity, ResolutionStrategy}
use claude_pilot.Session.Agents.{AgentRole}

pub record ConflictResolution : Type 0 where
  pub strategy : ResolutionStrategy
  pub chosen_position : String
  pub rationale : String

pub record Conflict : Type 0 where
  pub id : String
  pub agents : List String
  pub topic : String
  pub positions : List String
  pub severity : Severity
  pub resolution : Option ConflictResolution

pub data TaskPriority : Type 0 where
  low normal high critical : TaskPriority

pub data TaskComplexity : Type 0 where
  trivial low medium high complex : TaskComplexity

pub record AgentRequest : Type 0 where
  pub needed : String
  pub reason : String

-- The scores are floats.
pub record ConsensusTask (F : Type 0) : Type 0 where
  pub id : String
  pub description : String
  pub assigned_module : Option String
  pub dependencies : List String
  pub priority : TaskPriority
  pub estimated_complexity : TaskComplexity
  pub files_affected : List String
  pub priority_score : F

pub record ConsensusSynthesisOutput (F : Type 0) : Type 0 where
  pub consensus : String
  pub plan : String
  pub tasks : List (ConsensusTask F)
  pub conflicts : List Conflict
  pub dissents : List String
  pub agent_needed : List AgentRequest

pub record AgentProposalScore (F : Type 0) : Type 0 where
  pub agent_id : String
  pub module_relevance : F
  pub historical_accuracy : F
  pub evidence_strength : F
  pub confidence : F

pub record AgentProposal : Type 0 where
  pub agent_id : String
  pub role : AgentRole
  pub content : String

pub record ScoredProposal (F : Type 0) : Type 0 where
  pub proposal : AgentProposal
  pub score : AgentProposalScore F

pub record ScoredProposalRound (F : Type 0) : Type 0 where
  pub number : ℕ
  pub proposals : List (ScoredProposal F)
  pub synthesis : String
  pub converged : Bool
  pub conflicts : List Conflict
  pub agent_requests : List AgentRequest

-- Why there is no consensus.
pub data Summary : Type 0 where
  timeout_at_round timeout_before_synthesis : (round : ℕ) → Summary
  insufficient_participants : (respondents : ℕ) (wanted : ℕ) → Summary
  blocked_by : (conflicts : ℕ) → Summary
  no_rounds_completed max_rounds_reached : Summary

pub data ConsensusResult (F : Type 0) : Type 0 where
  agreed :
      (plan : String) (tasks : List (ConsensusTask F)) (rounds : ℕ) (respondent_count : ℕ)
      → ConsensusResult F
  partial_agreement :
      (plan : String) (tasks : List (ConsensusTask F)) (dissents : List String)
      (unresolved_conflicts : List Conflict) (respondent_count : ℕ)
      → ConsensusResult F
  no_consensus :
      (summary : Summary) (blocking_conflicts : List Conflict) (respondent_count : ℕ)
      → ConsensusResult F

-- `go_on` is `Continue`.
pub data RoundOutcomeResult (F : Type 0) : Type 0 where
  converged blocked : ConsensusResult F → RoundOutcomeResult F
  go_on : RoundOutcomeResult F

pub record ConsensusSession (F : Type 0) : Type 0 where
  pub participants : List String
  pub rounds : List (ScoredProposalRound F)
  pub previous_synthesis : String

module _ {F : Type 0} where
  unfoldable pub is_agreed : ConsensusSynthesisOutput F → Bool
  is_agreed o = o.consensus == "agreed"

  unfoldable pub is_partial_agreement : ConsensusSynthesisOutput F → Bool
  is_partial_agreement o = o.consensus == "partial_agreement"

  abbrev pub new_consensus_session : List String → ConsensusSession F
  new_consensus_session initial = record {
    participants = initial;
    rounds = [];
    previous_synthesis = "";
  }

  unfoldable pub add_participant : String → ConsensusSession F → ConsensusSession F
  add_participant id s =
      if contains s.participants id
      then s
      else record s { participants = s.participants ++ id ∷ [] }

abbrev pub is_critical : Severity → Bool
is_critical Severity.critical = true
is_critical _ = false

-- A conflict that no round goes past.
unfoldable pub is_blocking : Conflict → Bool
is_blocking c = is_critical c.severity && is_none c.resolution
