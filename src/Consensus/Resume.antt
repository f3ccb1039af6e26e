-- ===== src/Consensus/Resume.antt =====
-- src/agent/multi/consensus/rounds.rs: where a consensus is taken up again, from the events of a round
-- that ended or that an error interrupted.
use claude_pilot.Base.{
  ℕ, suc, ◌-◌, ◌≤◌, ◌<◌, String, ◌≡◌, refl, sym, ap, ◌∙◌, inl, inr, false, not, Option, none, some,
  List, [], arith, string_eq, list_eq, nat_eq, keep, leb, if◌then◌else◌, Option-cases,
}
use claude_pilot.Events.{DomainEvent}
use claude_pilot.Projections.{ConsensusProjection, has_incomplete_round}
use claude_pilot.Consensus.Synthesis.{
  RoundOutcomeResult, ConsensusSession, no_consensus, Summary, new_consensus_session,
}
use claude_pilot.Consensus.Scoring.{Floats, ConsensusConfig, Histories, update_agent_history}
use claude_pilot.Consensus.Proposals.{
  Moment, Surroundings, as_u32, collect_scored_proposals, emit_vote_events,
}
use claude_pilot.Consensus.Rounds.{
  Course, emit, u32_max, determine_start_round, opening_events, proposals_of, execute_round,
  run_rounds, finalize_without_full_consensus, run_with_dynamic_joining, final_result, last_round,
}
use claude_pilot.Consensus.View.{
  RoundView, watch, watch_all, watch_all-append, apply_all, payloads, view, number_of,
  view-apply_all,
}
use claude_pilot.Consensus.Watched.{proposed, watch_all-collected, watch_all-votes}
use claude_pilot.Consensus.Closing.{Closed, Ended, watch-Closed, execute_round-Ended}

module _ {F : Type 0} (fl : Floats F) (cfg : ConsensusConfig F) (w : Surroundings F)
    (topic : String) where
  abbrev opened_view : ℕ → ConsensusSession F → RoundView → RoundView
  opened_view n s v = record {
    open_round = some (as_u32 n);
    rounds = v.rounds;
    pending =
        keep (λ id. not (proposed fl cfg (proposals_of fl cfg w topic n s) id)) s.participants;
  }

  watch_all-opening :
      (n : ℕ) (s : ConsensusSession F) (v : RoundView)
      → watch_all (opening_events fl cfg w topic n s) v ≡ opened_view n s v
  unfolding opening_events watch_all watch
  watch_all-opening n s v =
      let got =
        collect_scored_proposals w n Moment.before_proposals s.previous_synthesis s.participants in
      let started = record v { open_round = some (as_u32 n); pending = s.participants } in
      watch_all-append got.1 (emit_vote_events fl cfg (as_u32 n) got.0) started
      ∙ ap (watch_all (emit_vote_events fl cfg (as_u32 n) got.0)) (
          watch_all-collected w n Moment.before_proposals s.previous_synthesis s.participants
            started)
      ∙ watch_all-votes fl cfg (as_u32 n) got.0 started

  watch_all-opened :
      (n : ℕ) (c : Course F) (v : RoundView)
      → watch_all (emit (opening_events fl cfg w topic n c.session) c).events v
        ≡ opened_view n c.session (watch_all c.events v)
  unfolding emit
  watch_all-opened n c v =
      watch_all-append c.events (opening_events fl cfg w topic n c.session) v
      ∙ watch_all-opening n c.session (watch_all c.events v)

  -- By the cases of an outcome that is known.
  when_some :
      (n : ℕ) (b : Course F) (o : Course F × Option (RoundOutcomeResult F))
      (r : RoundOutcomeResult F)
      → o.1 ≡ some r
      → Ended n b o
      → Closed n b o.0
  when_some n b (d, none) r h ended = cc
  when_some n b (d, some q) r h ended = ended

  when_none :
      (n : ℕ) (b : Course F) (o : Course F × Option (RoundOutcomeResult F))
      → o.1 ≡ none
      → Ended n b o
      → o.0 ≡ b
  when_none n b (d, none) h ended = ended
  when_none n b (d, some q) h ended = cc

  is_none_open :
      (p : ConsensusProjection F)
      → number_of p.current_round ≡ none
      → has_incomplete_round p ≡ false
  unfolding has_incomplete_round
  is_none_open p h = elim (Option-cases p.current_round) [
    | inl e ↦ rw e refl
    | inr (q, e) ↦ ground (arith, e, h)
  ]

  -- Once a round has an outcome, the projection of its events has no open round, and the round is the
  -- last that it counts.
  pub execute_round-completes :
      (n : ℕ) (c : Course F) (r : RoundOutcomeResult F) (es : List (DomainEvent F))
      (p : ConsensusProjection F)
      → (execute_round fl cfg w topic n c).1 ≡ some r
      → payloads es ≡ (execute_round fl cfg w topic n c).0.events
      → (has_incomplete_round (apply_all es p) ≡ false) × ((apply_all es p).rounds ≡ as_u32 n)
  execute_round-completes n c r es p h same =
      let opened = emit (opening_events fl cfg w topic n c.session) c in
      let done = execute_round fl cfg w topic n c in
      let closed = when_some n opened done r h (execute_round-Ended fl cfg w topic n c) in
      let seen = view-apply_all es p ∙ ap (λ xs. watch_all xs (view p)) same in
      let now =
        watch-Closed n opened done.0 (view p)
          (ap (λ (v : RoundView). v.open_round) (watch_all-opened n c (view p))) closed in
      (
        is_none_open (apply_all es p) (ap (λ (v : RoundView). v.open_round) seen ∙ now.0),
        ap (λ (v : RoundView). v.rounds) seen ∙ now.1,
      )

  same_start :
      (p q : ConsensusProjection F)
      → p.rounds ≡ q.rounds
      → determine_start_round (some p) ≡ determine_start_round (some q)
  unfolding determine_start_round
  same_start p q h = ap (λ n. if leb u32_max n then u32_max else suc n) h

  -- When the synthesis of a round fails, its events leave the round open with the votes awaited of the
  -- participants that did not propose, and a run over them starts with the round that a run before them
  -- starts with.
  pub execute_round-interrupted :
      (n : ℕ) (c : Course F) (before es : List (DomainEvent F)) (p : ConsensusProjection F)
      → (execute_round fl cfg w topic n c).1 ≡ none
      → payloads before ≡ c.events
      → payloads es ≡ (execute_round fl cfg w topic n c).0.events
      → (number_of (apply_all es p).current_round ≡ some (as_u32 n))
        × ((apply_all es p).pending_votes
            ≡ keep
                (λ id. not (proposed fl cfg (proposals_of fl cfg w topic n c.session) id))
                c.session.participants)
        × (determine_start_round (some (apply_all es p))
            ≡ determine_start_round (some (apply_all before p)))
  execute_round-interrupted n c before es p h was same =
      let opened = emit (opening_events fl cfg w topic n c.session) c in
      let done = execute_round fl cfg w topic n c in
      let left = when_none n opened done h (execute_round-Ended fl cfg w topic n c) in
      let seen =
        view-apply_all es p
        ∙ ap (λ xs. watch_all xs (view p)) (same ∙ ap (λ (d : Course F). d.events) left)
        ∙ watch_all-opened n c (view p) in
      let earlier = view-apply_all before p ∙ ap (λ xs. watch_all xs (view p)) was in
      (
        ap (λ (v : RoundView). v.open_round) seen,
        ap (λ (v : RoundView). v.pending) seen,
        same_start (apply_all es p) (apply_all before p) (
            ap (λ (v : RoundView). v.rounds) seen ∙ sym (ap (λ (v : RoundView). v.rounds) earlier)),
      )

  as_u32-small : (n : ℕ) → n < u32_max → as_u32 n ≡ n
  unfolding as_u32
  as_u32-small n h = omega (arith, h)

  none_left :
      (n m : ℕ) (p : ConsensusProjection F)
      → p.rounds ≡ n
      → m ≤ n
      → n < u32_max
      → suc m - determine_start_round (some p) ≡ 0
  unfolding determine_start_round
  none_left n m p h le small = ground (arith, h, le, small)

  -- Over the events of a round with an outcome, its number the maximum or more and below 2^32 - 1, a run
  -- asks nobody: it emits nothing and answers that no round was completed.
  pub run_after_last_round :
      (n : ℕ) (c : Course F) (r : RoundOutcomeResult F) (es : List (DomainEvent F))
      (p : ConsensusProjection F) (initial : List String) (history : Histories)
      → (execute_round fl cfg w topic n c).1 ≡ some r
      → payloads es ≡ (execute_round fl cfg w topic n c).0.events
      → cfg.max_rounds ≤ n
      → n < u32_max
      → run_with_dynamic_joining fl cfg w topic (some (apply_all es p)) initial history ≡ (
        record {
          session = new_consensus_session initial;
          events = [];
          agent_history = update_agent_history fl cfg [] history;
        },
        some (no_consensus Summary.no_rounds_completed [] 0),
      )
  unfolding run_with_dynamic_joining run_rounds finalize_without_full_consensus final_result
      last_round
  run_after_last_round n c r es p initial history h same le small =
      let completed = execute_round-completes n c r es p h same in
      rw
        (
          run_with_dynamic_joining,
          none_left n cfg.max_rounds (apply_all es p) (completed.1 ∙ as_u32-small n small) le small,
        )
        refl
