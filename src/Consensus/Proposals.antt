-- ===== src/Consensus/Proposals.antt =====
-- src/agent/multi/consensus/rounds.rs: the collection of proposals, and the events of votes and
-- conflicts. The pool of agents, what agents answer, the clock and the scores are parameters.
use claude_pilot.Base.{
  ℕ, ◌%◌, ◌^◌, String, Bool, Option, none, some, List, [], ◌∷◌, ◌++◌, map, string_eq, list_eq,
  nat_eq, if◌then◌else◌,
}
use claude_pilot.Events.{
  EventPayload, consensus_vote_received, consensus_conflict_detected, consensus_conflict_resolved,
  consensus_proposal_submitted, consensus_module_vote,
}
use claude_pilot.Events.Kinds.{VoteDecision}
use claude_pilot.Session.Agents.{AgentRole}
use claude_pilot.Consensus.Synthesis.{
  Conflict, ConflictResolution, AgentRequest, ConsensusSynthesisOutput, AgentProposalScore,
  ScoredProposal,
}
use claude_pilot.Consensus.Scoring.{Floats, ConsensusConfig, is_module, weighted_score}

-- The points of a round at which the clock is read or the pool is asked.
pub data Moment : Type 0 where
  before_round before_proposals before_synthesis before_micro_round : Moment

pub record Agent : Type 0 where
  pub id : String
  pub role : AgentRole

-- What a run calls: the clock, the pool, the agents (no answer is a failure or a time-out), the hash,
-- the synthesis by a language model (none is an error), the registration of agents, and `serde_json`.
pub record Surroundings (F : Type 0) : Type 0 where
  pub is_timed_out : ℕ → Moment → Bool
  pub select_by_qualified_id : ℕ → Moment → String → Option Agent
  pub select_by_id : ℕ → Moment → String → Option Agent
  pub execute : ℕ → String → Agent → Option String
  pub calculate_proposal_score : Agent → String → AgentProposalScore F
  pub compute_proposal_hash : String → ℕ → String
  pub extract_affected_modules : String → List String
  pub synthesize_with_scoring : ℕ → List (ScoredProposal F) → Option (ConsensusSynthesisOutput F)
  pub register_agents : List AgentRequest → List String
  pub to_string : ConsensusSynthesisOutput F → String
  pub to_string_pretty : ConsensusSynthesisOutput F → String
  pub from_str : String → Option (ConsensusSynthesisOutput F)

-- `as u32`
unfoldable pub as_u32 : ℕ → ℕ
as_u32 n = n % 2 ^ 32

module _ {ℓ} {A : Type ℓ} where
  abbrev pub or_else : Option A → Option A → Option A
  or_else none b = b
  or_else (some a) b = some a

module _ {F : Type 0} (w : Surroundings F) where
  abbrev pub answer : ℕ → String → Option Agent → Option (Agent × String)
  answer round previous none = none
  answer round previous (some a) = elim (w.execute round previous a) [
    | none ↦ none
    | some output ↦ some (a, output)
  ]

  abbrev pub push_answer : Option (Agent × String) → List (Agent × String) → List (Agent × String)
  push_answer none rest = rest
  push_answer (some a) rest = a ∷ rest

  -- The answers of the participants that the pool has, in their order.
  unfoldable pub results : ℕ → Moment → String → List String → List (Agent × String)
  results round now previous [] = []
  results round now previous (id ∷ ids) =
      push_answer
        (answer round previous
          (or_else (w.select_by_qualified_id round now id) (w.select_by_id round now id)))
        (results round now previous ids)

  abbrev pub scored : Agent × String → ScoredProposal F
  scored (a, output) = record {
    proposal = record { agent_id = a.id; role = a.role; content = output };
    score = w.calculate_proposal_score a output;
  }

  abbrev pub submitted : ℕ → Agent × String → EventPayload F
  submitted round (a, output) =
      consensus_proposal_submitted (as_u32 round) a.id
        (w.compute_proposal_hash output (as_u32 round)) (w.extract_affected_modules output)

  -- The proposals of a round, with the events they emit.
  unfoldable pub collect_scored_proposals :
      ℕ → Moment → String → List String → List (ScoredProposal F) × List (EventPayload F)
  collect_scored_proposals round now previous participants =
      let rs = results round now previous participants in
      if w.is_timed_out round now then ([], []) else (map scored rs, map (submitted round) rs)

module _ {F : Type 0} (fl : Floats F) (cfg : ConsensusConfig F) where
  unfoldable pub vote_decision : ScoredProposal F → VoteDecision
  vote_decision sp =
      if fl.reaches (weighted_score fl sp.score) cfg.approve_threshold
      then VoteDecision.approve
      else if fl.reaches (weighted_score fl sp.score) cfg.approve_with_changes_threshold
      then VoteDecision.approve_with_changes
      else VoteDecision.reject

  unfoldable pub module_vote : ℕ → ScoredProposal F → List (EventPayload F)
  module_vote round sp =
      if is_module sp.proposal.role
      then consensus_module_vote round sp.proposal.agent_id sp.proposal.role.id (vote_decision sp)
          sp.score.confidence
        ∷ []
      else []

  unfoldable pub emit_vote_events : ℕ → List (ScoredProposal F) → List (EventPayload F)
  emit_vote_events round [] = []
  emit_vote_events round (sp ∷ sps) =
      consensus_vote_received round sp.proposal.agent_id (vote_decision sp)
        (weighted_score fl sp.score)
      ∷ (module_vote round sp ++ emit_vote_events round sps)

module _ {F : Type 0} where
  unfoldable pub resolved_event : String → Option ConflictResolution → List (EventPayload F)
  resolved_event id none = []
  resolved_event id (some r) = consensus_conflict_resolved id r.strategy ∷ []

  unfoldable pub emit_conflict_events : ℕ → List Conflict → List (EventPayload F)
  emit_conflict_events round [] = []
  emit_conflict_events round (c ∷ cs) =
      consensus_conflict_detected round c.id c.agents c.severity
      ∷ (resolved_event c.id c.resolution ++ emit_conflict_events round cs)
