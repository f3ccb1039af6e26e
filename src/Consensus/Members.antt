-- ===== src/Consensus/Members.antt =====
-- src/agent/multi/consensus/rounds.rs: who takes part in a run.
use claude_pilot.Base.{
  ℕ, zero, suc, ◌-◌, String, ◌≡◌, refl, sym, ◌∙◌, subst, inl, inr, true, Option, none, some, List,
  [], ◌∷◌, ◌++◌, string_eq, list_eq, nat_eq, contains, contains-append, any-append, any, ◌||◌,
  ==_iff, Bool, ap, arith, nodup, length, keep, is_empty, ltb, Bool-cases,
}
use mathlib.Core.List.{append-nil, append_assoc}
use claude_pilot.Base.Assoc.{nodup-append}
use claude_pilot.Projections.{ConsensusProjection}
use claude_pilot.Consensus.Proposals.{as_u32, emit_conflict_events}
use claude_pilot.Consensus.Synthesis.{
  ScoredProposalRound, AgentRequest, ConsensusSynthesisOutput, ScoredProposal, RoundOutcomeResult,
  converged, blocked, go_on, ConsensusSession, new_consensus_session, add_participant, is_agreed,
  is_blocking,
}
use claude_pilot.Consensus.Scoring.{Floats, ConsensusConfig, Histories}
use claude_pilot.Consensus.Proposals.{Moment, Surroundings}
use claude_pilot.Consensus.Rounds.{
  Course, emit, all_proposals, add_participants, determine_start_round, proposals_of,
  opening_events, process_agent_requests, push_round, take_synthesis, check_blocking_conflicts,
  conclude_round, execute_round, after_round, finalize_without_full_consensus, run_rounds,
  run_with_dynamic_joining,
}
use claude_pilot.Consensus.Answers.{run_rounds-in_time, run_rounds-late}

-- The first list goes on in the second, with nothing twice where nothing was.
abbrev Grown : List String → List String → Type 0
Grown xs ys = ((more : List String) × (ys ≡ xs ++ more)) × (nodup xs ≡ true → nodup ys ≡ true)

Grown-refl : (xs : List String) → Grown xs xs
Grown-refl xs = (([], sym (append-nil xs)), λ h. h)

Grown-trans : (xs ys zs : List String) → Grown xs ys → Grown ys zs → Grown xs zs
Grown-trans xs ys zs ((a, p), f) ((b, q), g) =
    ((a ++ b, q ∙ rw p (append_assoc xs a b)), λ h. g (f h))

module _ {F : Type 0} where
  add_participant-Grown :
      (id : String) (s : ConsensusSession F)
      → Grown s.participants (add_participant id s).participants
  unfolding add_participant
  add_participant-Grown id s = elim (Bool-cases (contains s.participants id)) [
    | inl old ↦ rw (old, add_participant) (Grown-refl s.participants)
    | inr new ↦
        rw (new, add_participant) ((id ∷ [], refl), λ h. nodup-append s.participants id h new)
  ]

  add_participants-Grown :
      (ids : List String) (s : ConsensusSession F)
      → Grown s.participants (add_participants ids s).participants
  unfolding add_participants
  add_participants-Grown [] s = Grown-refl s.participants
  add_participants-Grown (id ∷ ids) s =
      Grown-trans _ _ _ (add_participant-Grown id s)
        (add_participants-Grown ids (add_participant id s))

module _ {F : Type 0} where
  add_participants-joined :
      (ids : List String) (s : ConsensusSession F) (x : String)
      → (contains (add_participants ids s).participants x
          ≡ (contains s.participants x || contains ids x))
        × ((add_participants ids s).rounds ≡ s.rounds)
  unfolding add_participants add_participant
  add_participants-joined [] s x = (ground arith, refl)
  add_participants-joined (id ∷ ids) s x =
      let later = add_participants-joined ids (add_participant id s) x in
      elim (Bool-cases (contains s.participants id)) [
        | inl old ↦ (
          later.0 ∙ ground (arith, old, ==_iff x id, ==_iff id x, ap (contains s.participants)),
          later.1 ∙ ground (arith, old),
        )
        | inr new ↦ (
          later.0 ∙ ground (arith, new, contains-append x s.participants (id ∷ [])),
          later.1 ∙ ground (arith, new),
        )
      ]

module _ {F : Type 0} (fl : Floats F) (cfg : ConsensusConfig F) (w : Surroundings F)
    (topic : String) where
  -- Those that are registered for the requests of a round; nobody where there are none.
  abbrev joiners : List AgentRequest → List String
  joiners [] = []
  joiners (r ∷ rs) = w.register_agents (r ∷ rs)

  -- The agent was registered for the requests of this round.
  abbrev pub is_joiner : String → ScoredProposalRound F → Bool
  is_joiner x r = contains (joiners r.agent_requests) x

  -- From the first session to the second: those who take part, and the rounds for which they joined.
  abbrev Stepped : ConsensusSession F → ConsensusSession F → Type 0
  Stepped s t =
      Grown s.participants t.participants
      × ((rounds : List (ScoredProposalRound F)) × (t.rounds ≡ s.rounds ++ rounds)
          × ((x : String)
              → contains t.participants x
                ≡ (contains s.participants x || any (is_joiner x) rounds)))

  Stepped-refl : (s : ConsensusSession F) → Stepped s s
  Stepped-refl s = (Grown-refl s.participants, ([], sym (append-nil s.rounds), λ x. ground arith))

  Stepped-trans : (s t u : ConsensusSession F) → Stepped s t → Stepped t u → Stepped s u
  Stepped-trans s t u (g, (a, p, f)) (h, (b, q, k)) = (
    Grown-trans _ _ _ g h,
    (
      a ++ b,
      q ∙ rw p (append_assoc s.rounds a b),
      λ x. ground (arith, k x, f x, any-append (is_joiner x) a b),
    ),
  )

  process-session :
      (n : ℕ) (rs : List AgentRequest) (c : Course F)
      → (process_agent_requests fl cfg w topic n rs c).0.session
        ≡ add_participants (joiners rs) c.session
  unfolding process_agent_requests emit add_participants
  process-session n [] c = refl
  process-session n (r ∷ rs) c = elim (Bool-cases (is_empty (w.register_agents (r ∷ rs)))) [
    | inl alone ↦ rw (alone, process_agent_requests) refl
    | inr joined ↦ rw (joined, process_agent_requests) refl
  ]

  take_synthesis-Stepped :
      (n : ℕ) (sps : List (ScoredProposal F)) (out : ConsensusSynthesisOutput F) (c : Course F)
      → Stepped c.session (take_synthesis fl cfg w topic n sps out c).session
  unfolding take_synthesis push_round emit
  take_synthesis-Stepped n sps out c =
      let ids = joiners out.agent_needed in
      let same =
        process-session n out.agent_needed
          (emit (emit_conflict_events (as_u32 n) out.conflicts) c) in
      let pushed : List (ScoredProposalRound F) =
        record {
          number = n;
          proposals = all_proposals fl cfg w topic n sps out c;
          synthesis = w.to_string_pretty out;
          converged = is_agreed out;
          conflicts = out.conflicts;
          agent_requests = out.agent_needed;
        }
        ∷ [] in
      let members = ap (λ (t : ConsensusSession F). t.participants) same in
      (
        subst (Grown c.session.participants) (sym members) (add_participants-Grown ids c.session),
        (
          pushed,
          ap (λ (t : ConsensusSession F). t.rounds ++ pushed) same
              ∙ ap (λ rs. rs ++ pushed) (add_participants-joined ids c.session "").1,
          λ x.
              ap (λ xs. contains xs x) members
              ∙ ground (arith, (add_participants-joined ids c.session x).0),
        ),
      )

  conclude-Stepped :
      (n : ℕ) (sps : List (ScoredProposal F)) (o : Option (ConsensusSynthesisOutput F))
      (c : Course F)
      → Stepped c.session (conclude_round fl cfg w topic n sps o c).0.session
  unfolding conclude_round check_blocking_conflicts emit
  conclude-Stepped n sps none c = Stepped-refl c.session
  conclude-Stepped n sps (some out) c =
      let grown = take_synthesis-Stepped n sps out c in
      elim (Bool-cases (is_agreed out)) [
        | inl agree ↦ rw (agree, conclude_round) grown
        | inr differ ↦ elim (Bool-cases (is_empty (keep is_blocking out.conflicts))) [
          | inl free ↦ rw (differ, free, conclude_round, check_blocking_conflicts) grown
          | inr stuck ↦ rw (differ, stuck, conclude_round, check_blocking_conflicts) grown
        ]
      ]

  execute_round-Stepped :
      (n : ℕ) (c : Course F) → Stepped c.session (execute_round fl cfg w topic n c).0.session
  unfolding execute_round emit
  execute_round-Stepped n c =
      let sps = proposals_of fl cfg w topic n c.session in
      elim (Bool-cases (ltb (length sps) cfg.min_participants)) [
        | inl few ↦ rw (few, execute_round) (Stepped-refl c.session)
        | inr enough ↦ elim (Bool-cases (w.is_timed_out n Moment.before_synthesis)) [
          | inl late ↦ rw (enough, late, execute_round) (Stepped-refl c.session)
          | inr early ↦
              rw (enough, early, execute_round)
                (conclude-Stepped n sps (w.synthesize_with_scoring n sps)
                  (emit (opening_events fl cfg w topic n c.session) c))
        ]
      ]

  after_round-Stepped :
      (left n : ℕ) (s : ConsensusSession F) (o : Course F × Option (RoundOutcomeResult F))
      → Stepped s o.0.session
      → (later : (d : Course F)
          → Stepped d.session (run_rounds fl cfg w topic left (suc n) d).0.session)
      → Stepped s (after_round fl cfg w topic (run_rounds fl cfg w topic left (suc n)) o).0.session
  after_round-Stepped left n s (d, none) grown later = grown
  after_round-Stepped left n s (d, some (converged r)) grown later = grown
  after_round-Stepped left n s (d, some (blocked r)) grown later = grown
  after_round-Stepped left n s (d, some go_on) grown later =
      Stepped-trans s d.session (run_rounds fl cfg w topic left (suc n) d).0.session grown (later d)

  run_rounds-Stepped :
      (left n : ℕ) (c : Course F) → Stepped c.session (run_rounds fl cfg w topic left n c).0.session
  unfolding run_rounds finalize_without_full_consensus
  run_rounds-Stepped zero n c = Stepped-refl c.session
  run_rounds-Stepped (suc left) n c = elim (Bool-cases (w.is_timed_out n Moment.before_round)) [
    | inl late ↦ rw (run_rounds-late fl cfg w topic left n c late) (Stepped-refl c.session)
    | inr early ↦ rw (run_rounds-in_time fl cfg w topic left n c early) (
        after_round-Stepped left n c.session (execute_round fl cfg w topic n c)
          (execute_round-Stepped n c) (run_rounds-Stepped left (suc n)))
  ]

  -- Where nobody stands twice among those that a run starts with, those who take part are these and
  -- then those that joined: the agents that were registered for the requests of some round of the run.
  -- Nobody stands twice among them.
  pub run_participants :
      (o : Option (ConsensusProjection F)) (initial : List String) (history : Histories)
      → nodup initial ≡ true
      → let session = (run_with_dynamic_joining fl cfg w topic o initial history).0.session in
        ((more : List String) × (session.participants ≡ initial ++ more))
        × (nodup session.participants ≡ true)
        × ((x : String)
            → contains session.participants x
              ≡ (contains initial x || any (is_joiner x) session.rounds))
  unfolding run_with_dynamic_joining
  run_participants o initial history once =
      let start : Course F = record {
        session = new_consensus_session initial;
        events = [];
        agent_history = history;
      } in
      let (grown, (rounds, all_of, joined)) =
        run_rounds-Stepped (suc cfg.max_rounds - determine_start_round o) (determine_start_round o)
          start in
      (
        grown.0,
        grown.1 once,
        λ x. joined x ∙ ap (λ rs. contains initial x || any (is_joiner x) rs) (sym all_of),
      )
