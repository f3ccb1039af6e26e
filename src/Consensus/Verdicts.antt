-- ===== src/Consensus/Verdicts.antt =====
-- src/agent/multi/consensus/rounds.rs: what must have been for a run to answer as it does.
use claude_pilot.Base.{
  ℕ, ◌≤◌, String, ◌≡◌, refl, inl, inr, true, false, Option, none, some, List, [], ◌∷◌, arith,
  string_eq, list_eq, nat_eq, length, all, keep, is_empty, ltb, Bool-cases, and_intro,
}
use claude_pilot.Consensus.Synthesis.{
  Conflict, ConsensusSynthesisOutput, RoundOutcomeResult, converged, blocked, go_on, agreed,
  no_consensus, Summary, is_agreed, is_blocking,
}
use claude_pilot.Consensus.Scoring.{Floats, ConsensusConfig}
use claude_pilot.Consensus.Proposals.{Moment, Surroundings}
use claude_pilot.Consensus.Rounds.{
  Course, emit, opening_events, proposals_of, all_proposals, take_synthesis,
  check_blocking_conflicts, conclude_round, execute_round,
}

all-keep : (cs : List Conflict) → all is_blocking (keep is_blocking cs) ≡ true
all-keep [] = refl
all-keep (c ∷ cs) = elim (Bool-cases (is_blocking c)) [
  | inl b ↦ rw b (and_intro _ _ b (all-keep cs))
  | inr f ↦ rw f (all-keep cs)
]

module _ {F : Type 0} (fl : Floats F) (cfg : ConsensusConfig F) (w : Surroundings F)
    (topic : String) where
  -- What the synthesis of a round is asked about, and what it says.
  abbrev pub synthesis_of : ℕ → Course F → Option (ConsensusSynthesisOutput F)
  synthesis_of n c = w.synthesize_with_scoring n (proposals_of fl cfg w topic n c.session)

  abbrev opened : ℕ → Course F → Course F
  opened n c = emit (opening_events fl cfg w topic n c.session) c

  abbrev pub respondents : ℕ → Course F → ConsensusSynthesisOutput F → ℕ
  respondents n c out =
      length
        (all_proposals fl cfg w topic n (proposals_of fl cfg w topic n c.session) out (opened n c))

  -- What the outcome of a round says of its synthesis and its respondents.
  abbrev pub Verdict : ℕ → Course F → Course F × Option (RoundOutcomeResult F) → Type 0
  Verdict n c (d, none) = synthesis_of n c ≡ none
  Verdict n c (d, some (converged r)) =
      (out : ConsensusSynthesisOutput F) × (synthesis_of n c ≡ some out)
      × (is_agreed out ≡ true)
      × (cfg.min_participants ≤ length (proposals_of fl cfg w topic n c.session))
      × (r ≡ agreed out.plan out.tasks n (respondents n c out))
  Verdict n c (d, some (blocked r)) =
      (why : Summary) × (cs : List Conflict) × (k : ℕ) × (r ≡ no_consensus why cs k)
      × (all is_blocking cs ≡ true)
  Verdict n c (d, some go_on) =
      (out : ConsensusSynthesisOutput F) × (synthesis_of n c ≡ some out)
      × (is_agreed out ≡ false)
      × (d.session
          ≡ record (take_synthesis fl cfg w topic n (proposals_of fl cfg w topic n c.session) out
              (opened n c)).session { previous_synthesis = w.to_string out })

  conclude-Verdict :
      (n : ℕ) (c : Course F) (o : Option (ConsensusSynthesisOutput F))
      → synthesis_of n c ≡ o
      → cfg.min_participants ≤ length (proposals_of fl cfg w topic n c.session)
      → Verdict n c
          (conclude_round fl cfg w topic n (proposals_of fl cfg w topic n c.session) o (opened n c))
  unfolding conclude_round check_blocking_conflicts emit
  conclude-Verdict n c none said enough = said
  conclude-Verdict n c (some out) said enough = elim (Bool-cases (is_agreed out)) [
    | inl agree ↦ rw (agree, conclude_round) (out, said, agree, enough, refl)
    | inr differ ↦ elim (Bool-cases (is_empty (keep is_blocking out.conflicts))) [
      | inl free ↦
          rw (differ, free, conclude_round, check_blocking_conflicts) (out, said, differ, refl)
      | inr stuck ↦
          rw (differ, stuck, conclude_round, check_blocking_conflicts)
            (_, keep is_blocking out.conflicts, _, refl, all-keep out.conflicts)
    ]
  ]

  pub execute_round-Verdict :
      (n : ℕ) (c : Course F) → Verdict n c (execute_round fl cfg w topic n c)
  unfolding execute_round
  execute_round-Verdict n c =
      let sps = proposals_of fl cfg w topic n c.session in
      elim (Bool-cases (ltb (length sps) cfg.min_participants)) [
        | inl few ↦ rw (few, execute_round) (_, [], _, refl, refl)
        | inr enough ↦ elim (Bool-cases (w.is_timed_out n Moment.before_synthesis)) [
          | inl late ↦ rw (enough, late, execute_round) (_, [], _, refl, refl)
          | inr early ↦
              rw (enough, early, execute_round)
                (conclude-Verdict n c (synthesis_of n c) refl (ground (arith, enough)))
        ]
      ]
