-- ===== src/Projections/ConsensusBound.antt =====
-- src/state/projections.rs: the bounds on a consensus, and its votes.
use claude_pilot.Base.{
  ℕ, ◌+◌, ◌≤◌, ◌<◌, String, ◌≡◌, refl, sym, ap, ◌∙◌, Bool, true, not, Option, none, some, List, [],
  ◌∷◌, ◌++◌, arith, ◌==◌, string_eq, list_eq, nat_eq, length, length-append, any, keep,
  length-keep-le,
}
use claude_pilot.Events.{
  DomainEvent, EventPayload, consensus_round_started, consensus_vote_received,
  consensus_conflict_detected, consensus_conflict_resolved,
}
use claude_pilot.EventStore.Replay.{replay}
use claude_pilot.EventStore.Replay.Invariant.{replay-invariant}
use claude_pilot.Events.Kinds.{VoteDecision}
use claude_pilot.Projections.Consensus.{
  ConsensusProjection, CurrentRoundState, ReceivedVote, push_recent, count_vote, consensus_payload,
  consensus_apply, consensus,
}

push_recent-length :
    {A : Type 0} (max n : ℕ) (x : A) (xs : List A)
    → max ≤ n
    → 0 < n
    → length xs ≤ n
    → length (push_recent max x xs) ≤ n
unfolding push_recent
push_recent-length max n x [] le pos h = ground arith
push_recent-length max n x (y ∷ ys) le pos h = ground (arith, length-append ys (x ∷ []))

keep-all : (ps : List String) → keep (λ id. true) ps ≡ ps
keep-all [] = refl
keep-all (p ∷ ps) = ap (λ qs. p ∷ qs) (keep-all ps)

module _ {F : Type 0} where
  -- The limits are `m` and `k` or less, and the lists hold to `m` and `k`.
  abbrev Bounded : ℕ → ℕ → ConsensusProjection F → Type 0
  Bounded m k p =
      (p.max_proposal_history ≤ m)
      × (length p.proposal_hashes ≤ m)
      × (p.max_active_conflicts ≤ k)
      × (length p.active_conflicts ≤ k)

  consensus_payload-Bounded :
      (now m k : ℕ) (x : EventPayload F) (p : ConsensusProjection F)
      → 0 < m
      → 0 < k
      → Bounded m k p
      → Bounded m k (consensus_payload now x p)
  unfolding consensus_payload
  consensus_payload-Bounded now m k (consensus_round_started round hash ps) p pos pos'
        (a, b, c, d) =
      (a, push_recent-length _ m hash p.proposal_hashes a pos b, c, d)
  consensus_payload-Bounded now m k (consensus_conflict_detected _ id agents severity) p pos pos'
        (a, b, c, d) =
      (a, b, c, push_recent-length _ k _ p.active_conflicts c pos' d)
  consensus_payload-Bounded now m k (consensus_conflict_resolved id _) p pos pos' (a, b, c, d) =
      (a, b, c, ground (arith, length-keep-le (λ c. not (c.id == id)) p.active_conflicts))
  consensus_payload-Bounded now m k _ p pos pos' (a, b, c, d) = (a, b, c, d)

  -- A replay of any events keeps at most `m` proposals and `k` conflicts, for positive `m` and `k` that
  -- the limits of the projection, and what it holds at the start, do not exceed. After a snapshot the
  -- limits are 0, so what the snapshot holds is then the bound, or 1.
  pub consensus-bounded :
      (a b m k : ℕ) (es : List (DomainEvent F)) (p : ConsensusProjection F)
      → 0 < m
      → 0 < k
      → p.max_proposal_history ≤ m
      → length p.proposal_hashes ≤ m
      → p.max_active_conflicts ≤ k
      → length p.active_conflicts ≤ k
      → (length (replay (consensus a b) es p).proposal_hashes ≤ m)
        × (length (replay (consensus a b) es p).active_conflicts ≤ k)
  unfolding consensus consensus_apply
  consensus-bounded a b m k es p pos pos' u v w x =
      let kept : Bounded m k (replay (consensus a b) es p) =
        replay-invariant (consensus a b) {Q = Bounded m k} es p
          (λ e q fits. consensus_payload-Bounded e.timestamp m k e.payload _ pos pos' fits)
          (u, v, w, x) in
      (kept.1, kept.3)

  -- Votes of one round, one event each.
  abbrev pub vote : ℕ → String × VoteDecision × F → EventPayload F
  vote round (agent, decision, score) = consensus_vote_received round agent decision score

  unfoldable pub take_votes :
      ℕ → ℕ → List (String × VoteDecision × F) → ConsensusProjection F → ConsensusProjection F
  take_votes now round [] p = p
  take_votes now round (v ∷ vs) p = take_votes now round vs (consensus_payload now (vote round v) p)

  abbrev pub has_voted : List (String × VoteDecision × F) → String → Bool
  has_voted vs agent = any (λ v. agent == v.0) vs

  keep-pending :
      (v : String × VoteDecision × F) (vs : List (String × VoteDecision × F)) (ps : List String)
      → keep (λ id. not (has_voted vs id)) (keep (λ id. not (id == v.0)) ps)
        ≡ keep (λ id. not (has_voted (v ∷ vs) id)) ps
  keep-pending v vs [] = refl
  keep-pending v vs (p ∷ ps) = ground (arith, keep-pending v vs ps)

  abbrev pub votes_of : Option (CurrentRoundState F) → ℕ
  votes_of none = 0
  votes_of (some c) = length c.votes_received

  -- After votes of the current round, those pending are the participants that have not voted, and
  -- the round holds one more vote for each vote cast.
  pub take_votes-pending :
      (now round : ℕ) (vs : List (String × VoteDecision × F)) (p : ConsensusProjection F)
      (c : CurrentRoundState F)
      → p.current_round ≡ some c
      → c.round_number ≡ round
      → ((take_votes now round vs p).pending_votes
          ≡ keep (λ id. not (has_voted vs id)) p.pending_votes)
        × (votes_of (take_votes now round vs p).current_round ≡ length c.votes_received + length vs)
  unfolding take_votes consensus_payload count_vote
  take_votes-pending now round [] p c open_round same =
      (sym (keep-all p.pending_votes), ground (arith, open_round))
  take_votes-pending now round ((agent, decision, score) ∷ vs) p c open_round same =
      let cast : ReceivedVote F = record {
        agent_id = agent;
        decision = decision;
        score = score;
        timestamp = now;
      } in
      let later =
        take_votes-pending now round vs _
          (record c { votes_received = c.votes_received ++ cast ∷ [] })
          (ground (arith, open_round, same)) same in
      (
        later.0 ∙ keep-pending (agent, decision, score) vs p.pending_votes,
        ground (arith, later.1, length-append c.votes_received (cast ∷ [])),
      )
