-- ===== src/Consensus/Answers.antt =====
-- src/agent/multi/consensus/rounds.rs: the answers of a run, from its rounds.
use claude_pilot.Base.{
  ℕ, zero, suc, ◌+◌, ◌-◌, ◌≤◌, ◌<◌, String, ◌≡◌, refl, sym, ap, ◌∙◌, inl, inr, Bool, true, false,
  Option, none, some, List, [], arith, string_eq, list_eq, nat_eq, length, Bool-cases,
}
use claude_pilot.Projections.{ConsensusProjection}
use claude_pilot.Consensus.Synthesis.{
  ConsensusTask, ConsensusSynthesisOutput, ScoredProposalRound, RoundOutcomeResult, converged,
  blocked, go_on, ConsensusResult, agreed, no_consensus, Summary, new_consensus_session, is_agreed,
  is_partial_agreement,
}
use claude_pilot.Consensus.Scoring.{Floats, ConsensusConfig, Histories}
use claude_pilot.Consensus.Proposals.{Moment, Surroundings}
use claude_pilot.Consensus.Rounds.{
  Course, determine_start_round, proposals_of, or_plain_text, last_round, execute_round,
  after_round, final_result, finalize_without_full_consensus, run_rounds, run_with_dynamic_joining,
}
use claude_pilot.Consensus.Verdicts.{synthesis_of, respondents, Verdict, execute_round-Verdict}

module _ {F : Type 0} (fl : Floats F) (cfg : ConsensusConfig F) (w : Surroundings F)
    (topic : String) where
  -- So many rounds, from the round `n`, in time and each to go on after.
  abbrev pub WentOn : ℕ → ℕ → Course F → Course F → Type 0
  WentOn zero n c e = c ≡ e
  WentOn (suc k) n c e =
      (d : Course F) × (w.is_timed_out n Moment.before_round ≡ false)
      × (execute_round fl cfg w topic n c ≡ (d, some go_on))
      × WentOn k (suc n) d e

  -- After `k` rounds that went on, the round `m` converged on this answer.
  abbrev Converged : ℕ → ℕ → ℕ → Course F → ConsensusResult F → Type 0
  Converged k n m c r =
      (d : Course F) × (out : ConsensusSynthesisOutput F) × WentOn k n c d
      × (synthesis_of fl cfg w topic m d ≡ some out)
      × (is_agreed out ≡ true)
      × (cfg.min_participants ≤ length (proposals_of fl cfg w topic m d.session))
      × (r ≡ agreed out.plan out.tasks m (respondents fl cfg w topic m d out))

  abbrev ConvergedWithin : ℕ → ℕ → Course F → ConsensusResult F → Type 0
  ConvergedWithin left n c r = (k : ℕ) × (m : ℕ) × (k < left) × (m ≡ n + k) × Converged k n m c r

  abbrev is_agreement : Option (ConsensusResult F) → Bool
  is_agreement (some (agreed _ _ _ _)) = true
  is_agreement _ = false

  final_result-differs :
      (o : Option (ScoredProposalRound F))
      → is_agreement (some (final_result fl cfg w topic o)) ≡ false
  unfolding final_result
  final_result-differs none = refl
  final_result-differs (some r) =
      elim (Bool-cases
        (is_partial_agreement (or_plain_text fl cfg w topic r (w.from_str r.synthesis)))) [
          | inl partial ↦ rw partial refl
          | inr none_ ↦ rw none_ refl
        ]

  pub run_rounds-in_time :
      (left n : ℕ) (c : Course F)
      → w.is_timed_out n Moment.before_round ≡ false
      → run_rounds fl cfg w topic (suc left) n c
        ≡ after_round fl cfg w topic
            (run_rounds fl cfg w topic left (suc n))
            (execute_round fl cfg w topic n c)
  unfolding run_rounds
  run_rounds-in_time left n c early = rw (early, run_rounds) refl

  pub run_rounds-late :
      (left n : ℕ) (c : Course F)
      → w.is_timed_out n Moment.before_round ≡ true
      → run_rounds fl cfg w topic (suc left) n c
        ≡ (c, some (no_consensus (Summary.timeout_at_round n) [] 0))
  unfolding run_rounds
  run_rounds-late left n c late = rw (late, run_rounds) refl

  -- The round `n` in time, and the rest of the run.
  first_or_later :
      (left n : ℕ) (c : Course F) (r : ConsensusResult F)
      (later : (d : Course F)
        → (run_rounds fl cfg w topic left (suc n) d).1 ≡ some r
        → ConvergedWithin left (suc n) d r)
      (o : Course F × Option (RoundOutcomeResult F))
      → is_agreement (some r) ≡ true
      → w.is_timed_out n Moment.before_round ≡ false
      → execute_round fl cfg w topic n c ≡ o
      → Verdict fl cfg w topic n c o
      → (after_round fl cfg w topic (run_rounds fl cfg w topic left (suc n)) o).1 ≡ some r
      → ConvergedWithin (suc left) n c r
  first_or_later left n c r later (d, none) agrees early same verdict h = cc
  first_or_later left n c r later (d, some (converged q)) agrees early same
        (out, said, agree, enough, answer) h =
      (0, n, ground arith, ground arith, (c, out, refl, said, agree, enough, (cc)))
  first_or_later left n c r later (d, some (blocked q)) agrees early same
        (why, cs, k, answer, all_block) h =
      ground (arith, h, answer, agrees)
  first_or_later left n c r later (d, some go_on) agrees early same verdict h =
      let (k, m, fits, at, (e, out, on, said, agree, enough, answer)) = later d h in
      (
        suc k,
        m,
        ground (arith, fits),
        ground (arith, at),
        (e, out, (d, early, same, on), said, agree, enough, answer),
      )

  run_rounds-agreed :
      (left n : ℕ) (c : Course F) (r : ConsensusResult F)
      → is_agreement (some r) ≡ true
      → (run_rounds fl cfg w topic left n c).1 ≡ some r
      → ConvergedWithin left n c r
  unfolding run_rounds finalize_without_full_consensus
  run_rounds-agreed zero n c r agrees h =
      ground (arith, agrees, h, final_result-differs (last_round c.session.rounds))
  run_rounds-agreed (suc left) n c r agrees h =
      elim (Bool-cases (w.is_timed_out n Moment.before_round)) [
        | inl late ↦ ground (arith, agrees, h, run_rounds-late left n c late)
        | inr early ↦
            first_or_later left n c r (λ d. run_rounds-agreed left (suc n) d r agrees)
              (execute_round fl cfg w topic n c) agrees early refl
              (execute_round-Verdict fl cfg w topic n c)
              (sym (
                  ap (λ (o : Course F × Option (ConsensusResult F)). o.1)
                    (run_rounds-in_time left n c early))
                ∙ h)
      ]

  abbrev new_course : List String → Histories → Course F
  new_course initial history = record {
    session = new_consensus_session initial;
    events = [];
    agent_history = history;
  }

  -- A run that answers with an agreement does so at a round `m`, from the start round to the maximum:
  -- the rounds before were in time and went on, and at `m` at least the minimum of participants
  -- proposed, the synthesis of their proposals says that they agreed and has the plan and the tasks, and the
  -- respondents are those of the round with those that joined in it.
  pub run_agreed :
      (o : Option (ConsensusProjection F)) (initial : List String) (history : Histories)
      (plan : String) (tasks : List (ConsensusTask F)) (rounds count : ℕ)
      → (run_with_dynamic_joining fl cfg w topic o initial history).1
        ≡ some (agreed plan tasks rounds count)
      → (k : ℕ) × (m : ℕ) × (d : Course F) × (out : ConsensusSynthesisOutput F) × (m
          ≡ determine_start_round o + k)
        × (m ≤ cfg.max_rounds)
        × WentOn k (determine_start_round o) (new_course initial history) d
        × (synthesis_of fl cfg w topic m d ≡ some out)
        × (is_agreed out ≡ true)
        × (cfg.min_participants ≤ length (proposals_of fl cfg w topic m d.session))
        × (agreed plan tasks rounds count
            ≡ agreed out.plan out.tasks m (respondents fl cfg w topic m d out))
  unfolding run_with_dynamic_joining
  run_agreed o initial history plan tasks rounds count h =
      let (k, m, fits, at, (d, out, on, said, agree, enough, answer)) =
        run_rounds-agreed (suc cfg.max_rounds - determine_start_round o) (determine_start_round o)
          (new_course initial history) (agreed plan tasks rounds count) refl h in
      (k, m, d, out, at, omega (arith, fits, at), on, said, agree, enough, answer)
