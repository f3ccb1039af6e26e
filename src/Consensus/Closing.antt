-- ===== src/Consensus/Closing.antt =====
-- src/agent/multi/consensus/rounds.rs: the events that a round adds, and what they leave of it in the
-- projection.
use claude_pilot.Base.{
  ℕ, String, ◌≡◌, refl, sym, ◌∙◌, inl, inr, true, Option, none, some, List, [], ◌∷◌, ◌++◌, map,
  arith, string_eq, list_eq, nat_eq, contains, length, all, keep, is_empty, ltb, Bool-cases,
}
use mathlib.Core.List.{append-nil, append_assoc}
use claude_pilot.Events.{EventPayload, consensus_round_completed}
use claude_pilot.Events.Kinds.{RoundOutcome}
use claude_pilot.Consensus.Synthesis.{
  AgentRequest, ConsensusSynthesisOutput, ScoredProposal, RoundOutcomeResult, is_agreed,
  is_blocking,
}
use claude_pilot.Consensus.Scoring.{Floats, ConsensusConfig}
use claude_pilot.Consensus.Proposals.{
  Moment, Surroundings, as_u32, collect_scored_proposals, emit_conflict_events,
}
use claude_pilot.Consensus.Rounds.{
  Course, emit, spawned, agent_id_of, last_round, last_synthesis, process_agent_requests, completed,
  check_blocking_conflicts, push_round, conclude_round, take_synthesis, opening_events,
  proposals_of, execute_round,
}
use claude_pilot.Consensus.View.{RoundView, close, watch, watch_all, watch_all-append}
use claude_pilot.Consensus.Watched.{
  keeps_open, watch_all-keeps, all-append, conflicts-keep, spawned-keep, collected-keep,
}

close_same : (n : ℕ) (o : Option ℕ) → o ≡ some n → close n o ≡ none
close_same n o h = ground (arith, h)

module _ {F : Type 0} where
  -- The first course goes on to the second by events that keep a round open.
  abbrev Extended : Course F → Course F → Type 0
  Extended c d =
      (mid : List (EventPayload F)) × (all keeps_open mid ≡ true) × (d.events ≡ c.events ++ mid)

  -- And then by the end of a round.
  abbrev pub Closed : ℕ → Course F → Course F → Type 0
  Closed n c d =
      (mid : List (EventPayload F)) × (outcome : RoundOutcome) × (ratio : F) × (all keeps_open mid
        ≡ true)
      × (d.events ≡ c.events ++ (mid ++ consensus_round_completed (as_u32 n) outcome ratio ∷ []))

  -- With an outcome the round is closed; without one it stops after its votes.
  abbrev pub Ended : ℕ → Course F → Course F × Option (RoundOutcomeResult F) → Type 0
  Ended n opened (d, none) = d ≡ opened
  Ended n opened (d, some r) = Closed n opened d

  -- A closed round is the last of the view, and none is open.
  pub watch-Closed :
      (n : ℕ) (c d : Course F) (v : RoundView)
      → (watch_all c.events v).open_round ≡ some (as_u32 n)
      → Closed n c d
      → ((watch_all d.events v).open_round ≡ none) × ((watch_all d.events v).rounds ≡ as_u32 n)
  unfolding watch_all watch
  watch-Closed n c d v open_now (mid, outcome, ratio, keeps, same) =
      let kept = watch_all-keeps mid (watch_all c.events v) keeps in
      rw
        (
          same,
          watch_all-append c.events (mid ++ consensus_round_completed (as_u32 n) outcome ratio ∷ [])
              v,
          watch_all-append mid (consensus_round_completed (as_u32 n) outcome ratio ∷ [])
              (watch_all c.events v),
        )
        (close_same (as_u32 n) _ (kept.0 ∙ open_now), refl)

module _ {A : Type 0} where
  ended : (xs ys mid zs : List A) → ys ≡ xs ++ mid → ys ++ zs ≡ xs ++ (mid ++ zs)
  ended xs ys mid zs same = rw same (append_assoc xs mid zs)

module _ {F : Type 0} (fl : Floats F) (cfg : ConsensusConfig F) (w : Surroundings F)
    (topic : String) where
  process-Extended :
      (n : ℕ) (rs : List AgentRequest) (c : Course F)
      → Extended c (process_agent_requests fl cfg w topic n rs c).0
  unfolding process_agent_requests emit
  process-Extended n [] c = ([], refl, sym (append-nil c.events))
  process-Extended n (r ∷ rs) c =
      let registered = w.register_agents (r ∷ rs) in
      let known =
        keep (λ (q : AgentRequest). contains registered (agent_id_of q.needed)) (r ∷ rs) in
      let asked : List (EventPayload F) = map spawned known in
      elim (Bool-cases (is_empty registered)) [
        | inl alone ↦ (asked, spawned-keep F known, rw (alone, process_agent_requests) refl)
        | inr joined ↦
            let previous = last_synthesis (last_round c.session.rounds) in
            let got = collect_scored_proposals w n Moment.before_micro_round previous registered in
            (
              asked ++ got.1,
              all-append keeps_open asked got.1 (spawned-keep F known)
                  (collected-keep w n Moment.before_micro_round previous registered),
              rw (joined, process_agent_requests) (append_assoc c.events asked got.1),
            )
      ]

  blocking-Ended :
      (n : ℕ) (out : ConsensusSynthesisOutput F) (b c : Course F)
      → Extended b c
      → Ended n b (check_blocking_conflicts fl cfg w topic n out c)
  unfolding check_blocking_conflicts emit
  blocking-Ended n out b c (mid, keeps, same) =
      let by = ended b.events c.events mid in
      elim (Bool-cases (is_empty (keep is_blocking out.conflicts))) [
        | inl free ↦
            rw (free, check_blocking_conflicts)
              (mid, RoundOutcome.needs_more_rounds, fl.hundredths 50, keeps, by _ same)
        | inr stuck ↦
            rw (stuck, check_blocking_conflicts)
              (mid, RoundOutcome.failed, fl.hundredths 0, keeps, by _ same)
      ]

  take_synthesis-Extended :
      (n : ℕ) (sps : List (ScoredProposal F)) (out : ConsensusSynthesisOutput F) (c : Course F)
      → Extended c (take_synthesis fl cfg w topic n sps out c)
  unfolding take_synthesis push_round emit
  take_synthesis-Extended n sps out c =
      let found : List (EventPayload F) = emit_conflict_events (as_u32 n) out.conflicts in
      let more = process-Extended n out.agent_needed (emit found c) in
      (
        found ++ more.0,
        all-append keeps_open found more.0 (conflicts-keep F (as_u32 n) out.conflicts) more.1,
        more.2 ∙ append_assoc c.events found more.0,
      )

  concluded-Ended :
      (n : ℕ) (sps : List (ScoredProposal F)) (o : Option (ConsensusSynthesisOutput F))
      (c : Course F)
      → Ended n c (conclude_round fl cfg w topic n sps o c)
  unfolding conclude_round emit
  concluded-Ended n sps none c = refl
  concluded-Ended n sps (some out) c =
      let more = take_synthesis-Extended n sps out c in
      let taken = take_synthesis fl cfg w topic n sps out c in
      elim (Bool-cases (is_agreed out)) [
        | inl agree ↦
            rw (agree, conclude_round)
              (
                more.0,
                RoundOutcome.approved,
                fl.hundredths 100,
                more.1,
                ended c.events taken.events more.0 _ more.2,
              )
        | inr differ ↦ rw (differ, conclude_round) (blocking-Ended n out c taken more)
      ]

  pub execute_round-Ended :
      (n : ℕ) (c : Course F)
      → Ended n
          (emit (opening_events fl cfg w topic n c.session) c)
          (execute_round fl cfg w topic n c)
  unfolding execute_round emit
  execute_round-Ended n c =
      let opened = emit (opening_events fl cfg w topic n c.session) c in
      let sps = proposals_of fl cfg w topic n c.session in
      let refusal : Closed n opened (completed fl cfg w topic n RoundOutcome.failed 0 opened) =
        ([], RoundOutcome.failed, fl.hundredths 0, refl, refl) in
      elim (Bool-cases (ltb (length sps) cfg.min_participants)) [
        | inl few ↦ rw (few, execute_round) refusal
        | inr enough ↦ elim (Bool-cases (w.is_timed_out n Moment.before_synthesis)) [
          | inl late ↦ rw (enough, late, execute_round) refusal
          | inr early ↦
              rw (enough, early, execute_round)
                (concluded-Ended n sps (w.synthesize_with_scoring n sps) opened)
        ]
      ]
