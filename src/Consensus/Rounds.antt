-- ===== src/Consensus/Rounds.antt =====
-- src/agent/multi/consensus/rounds.rs: a round of a consensus, and the rounds of a run. A run carries its
-- session, the events it has emitted and the histories of the agents; an event that the store refuses is
-- only logged, and here every event is taken. The messages on the bus and the onboarding of agents that
-- join are left out.
use claude_pilot.Base.{
  ℕ, zero, suc, ◌-◌, ◌^◌, String, Option, none, some, List, [], ◌∷◌, ◌++◌, map, string_eq, list_eq,
  nat_eq, contains, length, keep, is_empty, ltb, leb, if◌then◌else◌,
}
use Prim.Native.String.{◌++◌ as joined_text}
use claude_pilot.Events.{
  EventPayload, consensus_round_started, consensus_round_completed, agent_spawned,
}
use claude_pilot.Events.Kinds.{RoundOutcome, RoleType}
use claude_pilot.Projections.{ConsensusProjection}
use claude_pilot.Consensus.Synthesis.{
  AgentRequest, ConsensusSynthesisOutput, ScoredProposal, ScoredProposalRound, ConsensusSession,
  ConsensusResult, agreed, partial_agreement, no_consensus, Summary, RoundOutcomeResult, converged,
  blocked, go_on, is_agreed, is_partial_agreement, new_consensus_session, add_participant,
  is_blocking,
}
use claude_pilot.Consensus.Scoring.{Floats, ConsensusConfig, Histories, update_agent_history}
use claude_pilot.Consensus.Proposals.{
  Moment, Surroundings, as_u32, collect_scored_proposals, emit_vote_events, emit_conflict_events,
}

pub record Course (F : Type 0) : Type 0 where
  pub session : ConsensusSession F
  pub events : List (EventPayload F)
  pub agent_history : Histories

abbrev pub u32_max : ℕ
u32_max = 2 ^ 32 - 1

-- `rounds.saturating_add(1).max(1)` of what the events of the mission project to, if there is a store.
unfoldable pub determine_start_round : {F : Type 0} → Option (ConsensusProjection F) → ℕ
determine_start_round none = 1
determine_start_round (some p) = if leb u32_max p.rounds then u32_max else suc p.rounds

unfoldable pub agent_id_of : String → String
agent_id_of name = joined_text "module-" name

module _ {F : Type 0} where
  unfoldable pub emit : List (EventPayload F) → Course F → Course F
  emit es c = record c { events = c.events ++ es }

  unfoldable pub add_participants : List String → ConsensusSession F → ConsensusSession F
  add_participants [] s = s
  add_participants (id ∷ ids) s = add_participants ids (add_participant id s)

  abbrev pub spawned : AgentRequest → EventPayload F
  spawned r = agent_spawned (agent_id_of r.needed) (RoleType.module_agent r.needed) none

  -- `rounds.last()`
  unfoldable pub last_round : List (ScoredProposalRound F) → Option (ScoredProposalRound F)
  last_round [] = none
  last_round (r ∷ []) = some r
  last_round (r ∷ s ∷ rs) = last_round (s ∷ rs)

  abbrev pub last_synthesis : Option (ScoredProposalRound F) → String
  last_synthesis none = ""
  last_synthesis (some r) = r.synthesis

  abbrev pub last_respondents : Option (ScoredProposalRound F) → ℕ
  last_respondents none = 0
  last_respondents (some r) = length r.proposals

module _ {F : Type 0} (fl : Floats F) (cfg : ConsensusConfig F) (w : Surroundings F)
    (topic : String) where
  -- The agents that registered join, and propose in a round of their own.
  unfoldable pub process_agent_requests :
      ℕ → List AgentRequest → Course F → Course F × List (ScoredProposal F)
  process_agent_requests n [] c = (c, [])
  process_agent_requests n (r ∷ rs) c =
      let registered = w.register_agents (r ∷ rs) in
      let joined : Course F =
        emit
          (map spawned
            (keep (λ (q : AgentRequest). contains registered (agent_id_of q.needed)) (r ∷ rs)))
          (record c { session = add_participants registered c.session }) in
      let got =
        collect_scored_proposals w n Moment.before_micro_round
          (last_synthesis (last_round c.session.rounds)) registered in
      if is_empty registered then (joined, []) else (emit got.1 joined, got.0)

  abbrev pub completed : ℕ → RoundOutcome → ℕ → Course F → Course F
  completed n outcome ratio c =
      emit (consensus_round_completed (as_u32 n) outcome (fl.hundredths ratio) ∷ []) c

  -- A conflict that blocks ends the consensus; else the next round builds on this synthesis.
  unfoldable pub check_blocking_conflicts :
      ℕ → ConsensusSynthesisOutput F → Course F → Course F × Option (RoundOutcomeResult F)
  check_blocking_conflicts n out c =
      let blocking = keep is_blocking out.conflicts in
      if is_empty blocking
      then (
        record (completed n RoundOutcome.needs_more_rounds 50 c) {
          session = record c.session { previous_synthesis = w.to_string out };
        },
        some go_on,
      )
      else (
        completed n RoundOutcome.failed 0 c,
        some (
            blocked (
              no_consensus (Summary.blocked_by (length blocking)) blocking
                (last_respondents (last_round c.session.rounds)))),
      )

  unfoldable pub push_round :
      ℕ → ConsensusSynthesisOutput F → List (ScoredProposal F) → Course F → Course F
  push_round n out proposals c = record c {
    session = record c.session {
      rounds =
          c.session.rounds
          ++ record {
            number = n;
            proposals = proposals;
            synthesis = w.to_string_pretty out;
            converged = is_agreed out;
            conflicts = out.conflicts;
            agent_requests = out.agent_needed;
          }
            ∷ [];
    };
  }

  -- The conflicts of a synthesis are reported, and the agents that it asks for join.
  abbrev pub joined_by :
      ℕ → ConsensusSynthesisOutput F → Course F → Course F × List (ScoredProposal F)
  joined_by n out c =
      process_agent_requests n out.agent_needed
        (emit (emit_conflict_events (as_u32 n) out.conflicts) c)

  abbrev pub all_proposals :
      ℕ → List (ScoredProposal F) → ConsensusSynthesisOutput F → Course F → List (ScoredProposal F)
  all_proposals n proposals out c = let joined = joined_by n out c in proposals ++ joined.1

  unfoldable pub take_synthesis :
      ℕ → List (ScoredProposal F) → ConsensusSynthesisOutput F → Course F → Course F
  take_synthesis n proposals out c =
      let joined = joined_by n out c in push_round n out (all_proposals n proposals out c) joined.0

  -- From the synthesis of a round on.
  unfoldable pub conclude_round :
      ℕ
      → List (ScoredProposal F)
      → Option (ConsensusSynthesisOutput F)
      → Course F
      → Course F × Option (RoundOutcomeResult F)
  conclude_round n proposals none c = (c, none)
  conclude_round n proposals (some out) c =
      let taken = take_synthesis n proposals out c in
      if is_agreed out
      then (
        record (completed n RoundOutcome.approved 100 taken) {
          agent_history = update_agent_history fl cfg taken.session.rounds taken.agent_history;
        },
        some (converged (agreed out.plan out.tasks n (length (all_proposals n proposals out c)))),
      )
      else check_blocking_conflicts n out taken

  -- The events of a round up to its votes.
  unfoldable pub opening_events : ℕ → ConsensusSession F → List (EventPayload F)
  opening_events n s =
      let got =
        collect_scored_proposals w n Moment.before_proposals s.previous_synthesis s.participants in
      consensus_round_started (as_u32 n) (w.compute_proposal_hash topic (as_u32 n)) s.participants
      ∷ (got.1 ++ emit_vote_events fl cfg (as_u32 n) got.0)

  abbrev pub proposals_of : ℕ → ConsensusSession F → List (ScoredProposal F)
  proposals_of n s =
      let got =
        collect_scored_proposals w n Moment.before_proposals s.previous_synthesis s.participants in
      got.0

  -- A round that is refused answers with the respondents it had, or none for a time-out.
  abbrev pub refuse : ℕ → Summary → ℕ → Course F → Course F × Option (RoundOutcomeResult F)
  refuse n why respondents c =
      (completed n RoundOutcome.failed 0 c, some (blocked (no_consensus why [] respondents)))

  -- No outcome is an error of the synthesis.
  unfoldable pub execute_round : ℕ → Course F → Course F × Option (RoundOutcomeResult F)
  execute_round n c =
      let proposals = proposals_of n c.session in
      let opened = emit (opening_events n c.session) c in
      if ltb (length proposals) cfg.min_participants
      then refuse n (Summary.insufficient_participants (length proposals) cfg.min_participants)
          (length proposals) opened
      else if w.is_timed_out n Moment.before_synthesis
      then refuse n (Summary.timeout_before_synthesis n) 0 opened
      else conclude_round n proposals (w.synthesize_with_scoring n proposals) opened

  -- What a synthesis that does not parse counts as.
  abbrev pub or_plain_text :
      ScoredProposalRound F → Option (ConsensusSynthesisOutput F) → ConsensusSynthesisOutput F
  or_plain_text r none = record {
    consensus = "partial_agreement";
    plan = r.synthesis;
    tasks = [];
    conflicts = r.conflicts;
    dissents = [];
    agent_needed = [];
  }
  or_plain_text r (some out) = out

  unfoldable pub final_result : Option (ScoredProposalRound F) → ConsensusResult F
  final_result none = no_consensus Summary.no_rounds_completed [] 0
  final_result (some r) =
      let out = or_plain_text r (w.from_str r.synthesis) in
      if is_partial_agreement out
      then partial_agreement out.plan out.tasks out.dissents out.conflicts (length r.proposals)
      else no_consensus Summary.max_rounds_reached out.conflicts (length r.proposals)

  unfoldable pub finalize_without_full_consensus : Course F → Course F × Option (ConsensusResult F)
  finalize_without_full_consensus c = (
    record c { agent_history = update_agent_history fl cfg c.session.rounds c.agent_history },
    some (final_result (last_round c.session.rounds)),
  )

  abbrev pub after_round :
      (Course F → Course F × Option (ConsensusResult F))
      → Course F × Option (RoundOutcomeResult F)
      → Course F × Option (ConsensusResult F)
  after_round rest (c, none) = (c, none)
  after_round rest (c, some (converged r)) = (c, some r)
  after_round rest (c, some (blocked r)) = (c, some r)
  after_round rest (c, some go_on) = rest c

  -- The rounds left, and the number of the next.
  unfoldable pub run_rounds : ℕ → ℕ → Course F → Course F × Option (ConsensusResult F)
  run_rounds zero n c = finalize_without_full_consensus c
  run_rounds (suc left) n c =
      let rest = run_rounds left (suc n) in
      if w.is_timed_out n Moment.before_round
      then (c, some (no_consensus (Summary.timeout_at_round n) [] 0))
      else after_round rest (execute_round n c)

  -- No answer is an error of the synthesis.
  unfoldable pub run_with_dynamic_joining :
      Option (ConsensusProjection F)
      → List String
      → Histories
      → Course F × Option (ConsensusResult F)
  run_with_dynamic_joining projection initial history =
      let start = determine_start_round projection in
      run_rounds (suc cfg.max_rounds - start) start
        (record { session = new_consensus_session initial; events = []; agent_history = history })
