-- ===== src/Consensus/Tests.antt =====
-- Consensus runs of few agents, and the theorems at these runs.
use claude_pilot.Base.{
  any, ◌||◌, ℕ, ◌+◌, ◌≤◌, String, ◌≡◌, refl, ap, subst, true, false, not, Option, none, some, List,
  [], ◌∷◌, ◌++◌, arith, string_eq, list_eq, nat_eq, contains, nodup, length, keep, decide_by,
  string_dec,
}
use claude_pilot.Base.Assoc.{lookup, insert, remove}
use claude_pilot.Projections.{
  consensus_apply, consensus_payload, new_consensus, has_incomplete_round,
}
use claude_pilot.Consensus.Synthesis.{
  ConsensusSynthesisOutput, agreed, no_consensus, Summary, RoundOutcomeResult, ScoredProposalRound,
  go_on, is_agreed, is_partial_agreement, new_consensus_session, add_participant, is_blocking,
}
use claude_pilot.Consensus.Scoring.{
  or_no_history, contribute, contribute_if, is_module, weighted_score, is_accepted, credit,
  credit_round, credit_rounds, insert_by_total, sort_by_total, skip, remove_keys,
  prune_agent_history, update_agent_history,
}
use claude_pilot.Consensus.Proposals.{
  as_u32, results, collect_scored_proposals, vote_decision, module_vote, emit_vote_events,
  resolved_event, emit_conflict_events,
}
use claude_pilot.Consensus.Rounds.{
  Course, determine_start_round, agent_id_of, emit, add_participants, last_round,
  process_agent_requests, check_blocking_conflicts, push_round, take_synthesis, conclude_round,
  opening_events, proposals_of, execute_round, final_result, finalize_without_full_consensus,
  run_rounds, run_with_dynamic_joining,
}
use claude_pilot.Consensus.View.{apply_all, load_projection, number_of}
use claude_pilot.Consensus.Watched.{proposed}
use claude_pilot.Consensus.Resume.{
  execute_round-completes, execute_round-interrupted, run_after_last_round,
}
use claude_pilot.Consensus.Verdicts.{synthesis_of, respondents}
use claude_pilot.Consensus.Answers.{run_agreed, WentOn}
use claude_pilot.Consensus.Prompted.{run_as_prompted, has_consensus, prompted_words}
use claude_pilot.Consensus.Histories.{
  update_agent_history-length, credit_rounds-counts, proposals_in, passed_in,
}
use claude_pilot.Consensus.Members.{run_participants, is_joiner}
use claude_pilot.Consensus.Samples.{
  hundredths, config, output, surroundings, second_time, initial, agreeing, first_course, in_part,
  stamped, failing,
}

runs : String
unfolding string_dec decide_by is_agreed is_partial_agreement add_participant is_blocking contribute
    contribute_if is_module weighted_score is_accepted credit credit_round credit_rounds
    insert_by_total sort_by_total skip remove_keys prune_agent_history update_agent_history as_u32
    results collect_scored_proposals vote_decision module_vote emit_vote_events resolved_event
    emit_conflict_events lookup insert remove determine_start_round agent_id_of emit
    add_participants last_round process_agent_requests check_blocking_conflicts push_round
    take_synthesis conclude_round opening_events execute_round final_result
    finalize_without_full_consensus run_rounds run_with_dynamic_joining apply_all load_projection
    consensus_apply consensus_payload
runs = "runs"

-- Hundredths in place of floats.
-- An agent for every name but one; an expert is asked for in the first round.
-- No agreement at first, with an expert asked for, and agreement in the second round.
second_time_agrees :
    (run_with_dynamic_joining hundredths config
      (surroundings second_time)
      "topic"
      none
      initial
      []).1
    ≡ some (agreed "plan" [] 2 3)
unfolding runs
second_time_agrees = refl

run_agreed_example :
    (k : ℕ) × (m : ℕ) × (d : Course ℕ) × (out : ConsensusSynthesisOutput ℕ) × (m
      ≡ determine_start_round {F = ℕ} none + k)
    × (m ≤ 3)
    × WentOn hundredths config agreeing "topic" k
        (determine_start_round {F = ℕ} none)
        first_course
        d
    × (synthesis_of hundredths config agreeing "topic" m d ≡ some out)
    × (is_agreed out ≡ true)
    × (2 ≤ length (proposals_of hundredths config agreeing "topic" m d.session))
    × (agreed "plan" [] 2 3
        ≡ agreed out.plan out.tasks m (respondents hundredths config agreeing "topic" m d out))
run_agreed_example =
    run_agreed hundredths config agreeing "topic" none initial [] "plan" [] 2 3 second_time_agrees

run_participants_example :
    let session =
      (run_with_dynamic_joining hundredths config agreeing "topic" none initial []).0.session in
    ((more : List String) × (session.participants ≡ initial ++ more))
    × (nodup session.participants ≡ true)
    × ((x : String)
        → contains session.participants x ≡ (
            contains initial x
            || any (is_joiner hundredths config agreeing "topic" x) session.rounds))
unfolding runs
run_participants_example = run_participants hundredths config agreeing "topic" none initial [] refl

-- Each round is answered with the word for a part.
abbrev word_of : Option (ConsensusSynthesisOutput ℕ) → String
word_of none = ""
word_of (some out) = out.consensus

in_part_follows :
    (out : ConsensusSynthesisOutput ℕ)
    → some (output "partial" []) ≡ some out
    → contains prompted_words out.consensus ≡ true
unfolding runs
in_part_follows out h = subst (λ s. contains prompted_words s ≡ true) (ap word_of h) refl

in_part_reads :
    (out : ConsensusSynthesisOutput ℕ)
    → some (output "partial" []) ≡ some out
    → some (output out.consensus []) ≡ some out
in_part_reads out h = subst (λ s. some (output s []) ≡ some out) (ap word_of h) h

run_as_prompted_example :
    has_consensus hundredths config in_part "topic"
      (run_with_dynamic_joining hundredths config in_part "topic" none initial []).1
    ≡ false
run_as_prompted_example =
    run_as_prompted hundredths config in_part "topic" (λ n sps out. in_part_follows out)
      (λ n sps out. in_part_reads out) none initial []

abbrev third : Course ℕ × Option (RoundOutcomeResult ℕ)
third = execute_round hundredths config in_part "topic" 3 first_course

execute_round-completes_example :
    (has_incomplete_round (apply_all (stamped third.0.events) (new_consensus 20 50)) ≡ false)
    × ((apply_all (stamped third.0.events) (new_consensus 20 50)).rounds ≡ as_u32 3)
unfolding runs
execute_round-completes_example =
    execute_round-completes hundredths config in_part "topic" 3 first_course go_on
      (stamped third.0.events) (new_consensus 20 50) refl refl

run_after_last_round_example :
    run_with_dynamic_joining hundredths config in_part "topic"
      (some (apply_all (stamped third.0.events) (new_consensus 20 50)))
      initial
      []
    ≡ (
      record {
        session = new_consensus_session initial;
        events = [];
        agent_history = update_agent_history hundredths config [] [];
      },
      some (no_consensus Summary.no_rounds_completed [] 0),
    )
unfolding runs
run_after_last_round_example =
    run_after_last_round hundredths config in_part "topic" 3 first_course go_on
      (stamped third.0.events) (new_consensus 20 50) initial [] refl refl (omega arith)
      (omega arith)

-- The synthesis fails.
abbrev failed : Course ℕ × Option (RoundOutcomeResult ℕ)
failed = execute_round hundredths config failing "topic" 1 first_course

execute_round-interrupted_example :
    (number_of (apply_all (stamped failed.0.events) (new_consensus 20 50)).current_round
      ≡ some (as_u32 1))
    × ((apply_all (stamped failed.0.events) (new_consensus 20 50)).pending_votes
        ≡ keep
            (λ id. not (
              proposed hundredths config
                (proposals_of hundredths config failing "topic" 1 (new_consensus_session initial))
                id))
            initial)
    × (determine_start_round (some (apply_all (stamped failed.0.events) (new_consensus 20 50)))
        ≡ determine_start_round (some (apply_all [] (new_consensus {F = ℕ} 20 50))))
unfolding runs
execute_round-interrupted_example =
    execute_round-interrupted hundredths config failing "topic" 1 first_course []
      (stamped failed.0.events) (new_consensus 20 50) refl refl refl

-- The vote that is awaited is that of the one who is not in the pool.
ghost_awaited :
    (apply_all (stamped failed.0.events) (new_consensus 20 50)).pending_votes ≡ "ghost" ∷ []
unfolding runs
ghost_awaited = refl

abbrev two_rounds : List (ScoredProposalRound ℕ)
two_rounds =
    (run_with_dynamic_joining hundredths config agreeing "topic" none initial []).0.session.rounds

-- Three agents proposed; one is left of them.
one_left : length (update_agent_history hundredths config two_rounds []) ≡ 1
unfolding runs
one_left = refl

update_agent_history-length_example :
    length (update_agent_history hundredths config two_rounds []) ≤ 2
unfolding runs
update_agent_history-length_example =
    update_agent_history-length hundredths config two_rounds [] (omega arith)

credit_rounds-counts_example :
    ((or_no_history (lookup "a" (credit_rounds hundredths config two_rounds []))).total_proposals
      ≡ 0 + proposals_in hundredths config "a" two_rounds)
    × ((or_no_history
          (lookup "a" (credit_rounds hundredths config two_rounds []))).accepted_proposals
        ≡ 0 + passed_in hundredths config "a" two_rounds)
unfolding runs
credit_rounds-counts_example =
    credit_rounds-counts hundredths config "a" two_rounds [] (omega arith) (omega arith)
