-- ===== src/Consensus/Prompted.antt =====
-- src/agent/multi/consensus/engine.rs and rounds.rs: a run whose syntheses use the words that their prompt
-- asks for.
use claude_pilot.Base.{
  ℕ, zero, suc, ◌-◌, String, ◌≡◌, refl, inl, inr, Bool, true, false, Option, none, some, List, [],
  ◌∷◌, ◌++◌, arith, ◌==◌, string_eq, list_eq, nat_eq, ==_iff, contains, Bool-cases, decide_by,
  string_dec,
}
use claude_pilot.Projections.{ConsensusProjection}
use claude_pilot.Consensus.Synthesis.{
  ConsensusSynthesisOutput, ScoredProposal, ScoredProposalRound, RoundOutcomeResult, converged,
  blocked, go_on, ConsensusSession, ConsensusResult, agreed, partial_agreement,
  new_consensus_session, is_agreed, is_partial_agreement,
}
use claude_pilot.Consensus.Scoring.{Floats, ConsensusConfig, Histories}
use claude_pilot.Consensus.Proposals.{Moment, Surroundings}
use claude_pilot.Consensus.Rounds.{
  Course, determine_start_round, take_synthesis, push_round, last_round, execute_round, after_round,
  final_result, finalize_without_full_consensus, run_rounds, run_with_dynamic_joining,
}
use claude_pilot.Consensus.Verdicts.{Verdict, execute_round-Verdict}
use claude_pilot.Consensus.Answers.{run_rounds-in_time, run_rounds-late}

-- The words that the prompt of a synthesis allows.
abbrev pub prompted_words : List String
prompted_words = "yes" ∷ "partial" ∷ "no" ∷ []

pub prompted_lem :
    (s : String)
    → contains prompted_words s ≡ true
    → ((s == "agreed") ≡ false) × ((s == "partial_agreement") ≡ false)
unfolding string_dec decide_by
prompted_lem s h = elim (Bool-cases (s == "yes")) [
  | inl a ↦ let e : s ≡ "yes" = (==_iff s "yes").0 a in rw e (refl, refl)
  | inr a ↦ elim (Bool-cases (s == "partial")) [
    | inl b ↦ let e : s ≡ "partial" = (==_iff s "partial").0 b in rw e (refl, refl)
    | inr b ↦ let e : s ≡ "no" = (==_iff s "no").0 (ground (arith, h, a, b)) in rw e (refl, refl)
  ]
]

last_round-append :
    {F : Type 0} (rs : List (ScoredProposalRound F)) (r : ScoredProposalRound F)
    → last_round (rs ++ r ∷ []) ≡ some r
unfolding last_round
last_round-append [] r = refl
last_round-append (q ∷ []) r = refl
last_round-append (q ∷ p ∷ rs) r = last_round-append (p ∷ rs) r

module _ {F : Type 0} (fl : Floats F) (cfg : ConsensusConfig F) (w : Surroundings F)
    (topic : String) where
  -- Each synthesis uses one of the words of its prompt.
  abbrev pub FollowsPrompt : Type 0
  FollowsPrompt =
      (n : ℕ) (sps : List (ScoredProposal F)) (out : ConsensusSynthesisOutput F)
      → w.synthesize_with_scoring n sps ≡ some out
      → contains prompted_words out.consensus ≡ true

  -- What `serde_json` prints of a synthesis it reads back.
  abbrev pub ReadsBack : Type 0
  ReadsBack =
      (n : ℕ) (sps : List (ScoredProposal F)) (out : ConsensusSynthesisOutput F)
      → w.synthesize_with_scoring n sps ≡ some out
      → w.from_str (w.to_string_pretty out) ≡ some out

  -- In full or in part.
  abbrev pub has_consensus : Option (ConsensusResult F) → Bool
  has_consensus (some (agreed _ _ _ _)) = true
  has_consensus (some (partial_agreement _ _ _ _ _)) = true
  has_consensus _ = false

  abbrev Unfinished : ConsensusSession F → Type 0
  Unfinished s = has_consensus (some (final_result fl cfg w topic (last_round s.rounds))) ≡ false

  final_result-Unfinished :
      (r : ScoredProposalRound F) (out : ConsensusSynthesisOutput F)
      → w.from_str r.synthesis ≡ some out
      → is_partial_agreement out ≡ false
      → has_consensus (some (final_result fl cfg w topic (some r))) ≡ false
  unfolding final_result
  final_result-Unfinished r out reads differs = rw (final_result, reads, differs) refl

  take_synthesis-Unfinished :
      (n : ℕ) (sps : List (ScoredProposal F)) (out : ConsensusSynthesisOutput F) (c : Course F)
      → w.from_str (w.to_string_pretty out) ≡ some out
      → is_partial_agreement out ≡ false
      → Unfinished (take_synthesis fl cfg w topic n sps out c).session
  unfolding take_synthesis push_round
  take_synthesis-Unfinished n sps out c reads differs =
      rw (last_round-append) (final_result-Unfinished _ out reads differs)

  start-Unfinished : (initial : List String) → Unfinished (new_consensus_session initial)
  unfolding final_result last_round
  start-Unfinished initial = refl

  module _ (follows : FollowsPrompt) (reads : ReadsBack) where
    first_or_later :
        (left n : ℕ) (c : Course F)
        (later : (d : Course F)
          → Unfinished d.session
          → has_consensus (run_rounds fl cfg w topic left (suc n) d).1 ≡ false)
        (o : Course F × Option (RoundOutcomeResult F))
        → Verdict fl cfg w topic n c o
        → has_consensus (after_round fl cfg w topic (run_rounds fl cfg w topic left (suc n)) o).1
          ≡ false
    unfolding is_agreed is_partial_agreement
    first_or_later left n c later (d, none) said = refl
    first_or_later left n c later (d, some (converged q)) (out, said, agree, enough, answer) =
        ground (arith, agree, prompted_lem out.consensus (follows n _ out said))
    first_or_later left n c later (d, some (blocked q)) (why, cs, k, answer, block) =
        ground (arith, answer)
    first_or_later left n c later (d, some go_on) (out, said, differ, same) =
        let next = prompted_lem out.consensus (follows n _ out said) in
        later d (rw same (take_synthesis-Unfinished n _ out _ (reads n _ out said) next.1))

    run_rounds-as_prompted :
        (left n : ℕ) (c : Course F)
        → Unfinished c.session
        → has_consensus (run_rounds fl cfg w topic left n c).1 ≡ false
    unfolding run_rounds finalize_without_full_consensus
    run_rounds-as_prompted zero n c open_ = open_
    run_rounds-as_prompted (suc left) n c open_ =
        elim (Bool-cases (w.is_timed_out n Moment.before_round)) [
          | inl late ↦ rw (run_rounds-late fl cfg w topic left n c late) refl
          | inr early ↦ rw (run_rounds-in_time fl cfg w topic left n c early) (
              first_or_later left n c (run_rounds-as_prompted left (suc n))
                (execute_round fl cfg w topic n c) (execute_round-Verdict fl cfg w topic n c))
        ]

  -- Where each synthesis uses one of the words that its prompt allows, and reads back from the JSON that
  -- it is printed as, no run answers with an agreement, in full or in part.
  pub run_as_prompted :
      FollowsPrompt
      → ReadsBack
      → (o : Option (ConsensusProjection F)) (initial : List String) (history : Histories)
      → has_consensus (run_with_dynamic_joining fl cfg w topic o initial history).1 ≡ false
  unfolding run_with_dynamic_joining
  run_as_prompted follows reads o initial history =
      run_rounds-as_prompted follows reads (suc cfg.max_rounds - determine_start_round o)
        (determine_start_round o) _ (start-Unfinished initial)
