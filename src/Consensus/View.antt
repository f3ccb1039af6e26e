-- ===== src/Consensus/View.antt =====
-- src/agent/multi/consensus/engine.rs and src/state/projections.rs: what the events of a mission say of
-- its consensus, and the part of it that the rounds determine.
use claude_pilot.Base.{
  ℕ, String, ◌≡◌, refl, ap, ◌∙◌, not, Option, none, some, List, [], ◌∷◌, ◌++◌, map, arith, ◌==◌,
  string_eq, list_eq, nat_eq, keep, eqb, if◌then◌else◌,
}
use claude_pilot.Events.{
  DomainEvent, EventPayload, consensus_round_started, consensus_vote_received,
  consensus_round_completed, consensus_completed, consensus_escalated, consensus_conflict_detected,
  consensus_conflict_resolved, multi_agent_phase_completed,
}
use claude_pilot.Projections.{
  ConsensusProjection, CurrentRoundState, ReceivedVote, new_consensus, consensus_payload,
  consensus_apply, count_vote, close_round,
}

module _ {F : Type 0} where
  unfoldable pub apply_all : List (DomainEvent F) → ConsensusProjection F → ConsensusProjection F
  apply_all [] p = p
  apply_all (e ∷ es) p = apply_all es (consensus_apply e p)

  -- The default limits: 20 proposals and 50 conflicts.
  unfoldable pub load_projection : List (DomainEvent F) → ConsensusProjection F
  load_projection es = apply_all es (new_consensus 20 50)

  abbrev pub payloads : List (DomainEvent F) → List (EventPayload F)
  payloads es = map (λ (e : DomainEvent F). e.payload) es

-- The open round, the last that was completed, and the votes that are awaited.
pub record RoundView : Type 0 where
  pub open_round : Option ℕ
  pub rounds : ℕ
  pub pending : List String

abbrev pub close : ℕ → Option ℕ → Option ℕ
close n none = none
close n (some m) = if eqb m n then none else some m

module _ {F : Type 0} where
  unfoldable pub watch : EventPayload F → RoundView → RoundView
  watch (consensus_round_started n _ participants) v = record v {
    open_round = some n;
    pending = participants;
  }
  watch (consensus_vote_received _ agent _ _) v = record v {
    pending = keep (λ id. not (id == agent)) v.pending;
  }
  watch (consensus_round_completed n _ _) v = record v {
    open_round = close n v.open_round;
    rounds = n;
  }
  watch (consensus_completed n _ _) v = record { open_round = none; rounds = n; pending = [] }
  watch _ v = v

  unfoldable pub watch_all : List (EventPayload F) → RoundView → RoundView
  watch_all [] v = v
  watch_all (x ∷ xs) v = watch_all xs (watch x v)

  pub watch_all-append :
      (xs ys : List (EventPayload F)) (v : RoundView)
      → watch_all (xs ++ ys) v ≡ watch_all ys (watch_all xs v)
  unfolding watch_all
  watch_all-append [] ys v = refl
  watch_all-append (x ∷ xs) ys v = watch_all-append xs ys (watch x v)

  abbrev pub number_of : Option (CurrentRoundState F) → Option ℕ
  number_of none = none
  number_of (some c) = some c.round_number

  abbrev pub view : ConsensusProjection F → RoundView
  view p = record {
    open_round = number_of p.current_round;
    rounds = p.rounds;
    pending = p.pending_votes;
  }

  number_of-count_vote :
      (n : ℕ) (v : ReceivedVote F) (o : Option (CurrentRoundState F))
      → number_of (count_vote n v o) ≡ number_of o
  unfolding count_vote
  number_of-count_vote n v none = refl
  number_of-count_vote n v (some c) = ground arith

  number_of-close_round :
      (n : ℕ) (o : Option (CurrentRoundState F))
      → number_of (close_round n o) ≡ close n (number_of o)
  unfolding close_round
  number_of-close_round n none = refl
  number_of-close_round n (some c) = ground arith

  view-payload :
      (now : ℕ) (x : EventPayload F) (p : ConsensusProjection F)
      → view (consensus_payload now x p) ≡ watch x (view p)
  unfolding consensus_payload watch
  view-payload now (consensus_round_started n hash ps) p = refl
  view-payload now (consensus_vote_received n a d s) p =
      rw
        (number_of-count_vote n (record { agent_id = a; decision = d; score = s; timestamp = now })
          p.current_round)
        refl
  view-payload now (consensus_round_completed n o r) p =
      rw (number_of-close_round n p.current_round) refl
  view-payload now (consensus_completed n r o) p = refl
  view-payload now (consensus_conflict_detected n c agents s) p = refl
  view-payload now (consensus_conflict_resolved c s) p = refl
  view-payload now (consensus_escalated l s) p = refl
  view-payload now (multi_agent_phase_completed a b c d) p = refl
  view-payload now _ p = refl

  -- The view of a projection follows the events.
  pub view-apply_all :
      (es : List (DomainEvent F)) (p : ConsensusProjection F)
      → view (apply_all es p) ≡ watch_all (payloads es) (view p)
  unfolding apply_all watch_all consensus_apply
  view-apply_all [] p = refl
  view-apply_all (e ∷ es) p =
      view-apply_all es (consensus_apply e p)
      ∙ ap (watch_all (payloads es)) (view-payload e.timestamp e.payload _)
