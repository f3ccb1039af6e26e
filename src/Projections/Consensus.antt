-- ===== src/Projections/Consensus.antt =====
-- src/state/projections.rs: the rounds, votes and conflicts of a consensus.
use claude_pilot.Base.{
  ℕ, String, Bool, true, false, not, Option, none, some, List, [], ◌∷◌, ◌++◌, ◌==◌, string_eq,
  list_eq, nat_eq, contains, length, keep, is_some, leb, eqb, if◌then◌else◌,
}
use claude_pilot.Events.{
  DomainEvent, EventPayload, consensus_round_started, consensus_vote_received,
  consensus_conflict_detected, consensus_conflict_resolved, consensus_round_completed,
  consensus_escalated, consensus_completed, multi_agent_phase_completed,
}
use claude_pilot.EventStore.Replay.{Projection}
use claude_pilot.Events.Kinds.{
  Severity, VoteDecision, ConsensusOutcome, SessionPhase, EscalationLevel,
}
use claude_pilot.Projections.Timeline.{pop_front}
use claude_pilot.Projections.Progress.{or_first}

-- `score` is a float.
pub record ReceivedVote (F : Type 0) : Type 0 where
  pub agent_id : String
  pub decision : VoteDecision
  pub score : F
  pub timestamp : ℕ

pub record CurrentRoundState (F : Type 0) : Type 0 where
  pub round_number : ℕ
  pub proposal_hash : String
  pub votes_received : List (ReceivedVote F)
  pub started_at : ℕ

pub record ActiveConflict : Type 0 where
  pub id : String
  pub agents : List String
  pub severity : Severity
  pub detected_at : ℕ

pub record PhaseResult : Type 0 where
  pub phase : SessionPhase
  pub task_count : ℕ
  pub success_count : ℕ
  pub duration_ms : ℕ

-- The escalation is kept as its level and its strategy, not as the text of both.
pub record ConsensusProjection (F : Type 0) : Type 0 where
  pub version : ℕ
  pub last_applied_seq : ℕ
  pub mission_id : Option String
  pub consensus_reached : Bool
  pub rounds : ℕ
  pub respondent_count : ℕ
  pub outcome : Option ConsensusOutcome
  pub phase_results : List PhaseResult
  pub timestamp : Option ℕ
  pub current_round : Option (CurrentRoundState F)
  pub pending_votes : List String
  pub active_conflicts : List ActiveConflict
  pub proposal_hashes : List String
  pub escalation_level : Option (EscalationLevel × String)
  pub max_proposal_history : ℕ
  pub max_active_conflicts : ℕ

-- `pop_front` at the limit, then `push_back`.
unfoldable pub push_recent {ℓ} : {A : Type ℓ} → ℕ → A → List A → List A
push_recent max x xs = (if leb max (length xs) then pop_front xs else xs) ++ x ∷ []

abbrev pub has_converged : ConsensusOutcome → Bool
has_converged ConsensusOutcome.converged = true
has_converged _ = false

module _ {F : Type 0} where
  abbrev pub new_consensus : ℕ → ℕ → ConsensusProjection F
  new_consensus max_proposals max_conflicts = record {
    version = 0;
    last_applied_seq = 0;
    mission_id = none;
    consensus_reached = false;
    rounds = 0;
    respondent_count = 0;
    outcome = none;
    phase_results = [];
    timestamp = none;
    current_round = none;
    pending_votes = [];
    active_conflicts = [];
    proposal_hashes = [];
    escalation_level = none;
    max_proposal_history = max_proposals;
    max_active_conflicts = max_conflicts;
  }

  -- A vote counts in the current round only.
  unfoldable pub count_vote :
      ℕ → ReceivedVote F → Option (CurrentRoundState F) → Option (CurrentRoundState F)
  count_vote round v none = none
  count_vote round v (some c) =
      if eqb c.round_number round
      then some (record c { votes_received = c.votes_received ++ v ∷ [] })
      else some c

  unfoldable pub close_round : ℕ → Option (CurrentRoundState F) → Option (CurrentRoundState F)
  close_round round none = none
  close_round round (some c) = if eqb c.round_number round then none else some c

  unfoldable pub consensus_payload :
      ℕ → EventPayload F → ConsensusProjection F → ConsensusProjection F
  consensus_payload now (consensus_round_started round hash participants) p = record p {
    current_round = some (record {
      round_number = round;
      proposal_hash = hash;
      votes_received = [];
      started_at = now;
    });
    pending_votes = participants;
    proposal_hashes = push_recent p.max_proposal_history hash p.proposal_hashes;
  }
  consensus_payload now (consensus_vote_received round agent decision score) p = record p {
    current_round =
        count_vote round
          (record { agent_id = agent; decision = decision; score = score; timestamp = now })
          p.current_round;
    pending_votes = keep (λ id. not (id == agent)) p.pending_votes;
  }
  consensus_payload now (consensus_conflict_detected _ conflict agents severity) p = record p {
    active_conflicts =
        push_recent p.max_active_conflicts
          (record { id = conflict; agents = agents; severity = severity; detected_at = now })
          p.active_conflicts;
  }
  consensus_payload now (consensus_conflict_resolved conflict _) p = record p {
    active_conflicts = keep (λ c. not (c.id == conflict)) p.active_conflicts;
  }
  consensus_payload now (consensus_round_completed round _ _) p = record p {
    current_round = close_round round p.current_round;
    rounds = round;
  }
  consensus_payload now (consensus_escalated level strategy) p = record p {
    escalation_level = some (level, strategy);
  }
  consensus_payload now (consensus_completed rounds respondents outcome) p = record p {
    rounds = rounds;
    respondent_count = respondents;
    outcome = some outcome;
    consensus_reached = has_converged outcome;
    timestamp = some now;
    current_round = none;
    pending_votes = [];
  }
  consensus_payload now (multi_agent_phase_completed phase tasks successes duration) p = record p {
    phase_results =
        p.phase_results
        ++ record {
          phase = phase;
          task_count = tasks;
          success_count = successes;
          duration_ms = duration;
        }
          ∷ [];
  }
  consensus_payload now _ p = p

  unfoldable pub consensus_apply : DomainEvent F → ConsensusProjection F → ConsensusProjection F
  consensus_apply e p =
      consensus_payload e.timestamp e.payload
        (record p { version = e.version; mission_id = or_first e.aggregate_id p.mission_id })

  unfoldable pub consensus : ℕ → ℕ → Projection F (ConsensusProjection F)
  consensus max_proposals max_conflicts = record {
    default = new_consensus max_proposals max_conflicts;
    apply = consensus_apply;
    last_applied_seq = λ p. p.last_applied_seq;
    set_last_applied_seq = λ n p. record p { last_applied_seq = n };
    schema_version = 1;
    projection_type = "ConsensusProjection";
  }

  unfoldable pub has_incomplete_round : ConsensusProjection F → Bool
  has_incomplete_round p = is_some p.current_round

  unfoldable pub pending_vote_count : ConsensusProjection F → ℕ
  pending_vote_count p = length p.pending_votes

  unfoldable pub has_oscillation : String → ConsensusProjection F → Bool
  has_oscillation hash p = contains p.proposal_hashes hash

  -- The two limits that serde skips come back as 0.
  unfoldable pub restored_consensus : ConsensusProjection F → ConsensusProjection F
  restored_consensus p = record p { max_proposal_history = 0; max_active_conflicts = 0 }
