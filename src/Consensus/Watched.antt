-- ===== src/Consensus/Watched.antt =====
-- src/agent/multi/consensus/rounds.rs: what the events of a round do to the view of its consensus.
use claude_pilot.Base.{
  ℕ, String, ◌≡◌, refl, ap, ◌∙◌, inl, inr, Bool, true, false, not, Option, none, some, List, [],
  ◌∷◌, ◌++◌, map, arith, ◌==◌, string_eq, list_eq, nat_eq, all, any, keep, Bool-cases, and_left,
  and_right, and_intro,
}
use claude_pilot.Events.{
  EventPayload, consensus_round_started, consensus_vote_received, consensus_round_completed,
  consensus_completed,
}
use claude_pilot.Consensus.Synthesis.{Conflict, ConflictResolution, AgentRequest, ScoredProposal}
use claude_pilot.Consensus.Scoring.{Floats, ConsensusConfig, is_module}
use claude_pilot.Consensus.Proposals.{
  Moment, Agent, Surroundings, submitted, results, collect_scored_proposals, module_vote,
  emit_vote_events, resolved_event, emit_conflict_events,
}
use claude_pilot.Consensus.Rounds.{spawned}
use claude_pilot.Consensus.View.{RoundView, watch, watch_all, watch_all-append}

module _ {F : Type 0} where
  -- An event that neither opens a round nor closes one.
  abbrev pub keeps_open : EventPayload F → Bool
  keeps_open (consensus_round_started _ _ _) = false
  keeps_open (consensus_round_completed _ _ _) = false
  keeps_open (consensus_completed _ _ _) = false
  keeps_open _ = true

  watch-keeps :
      (x : EventPayload F) (v : RoundView)
      → keeps_open x ≡ true
      → ((watch x v).open_round ≡ v.open_round) × ((watch x v).rounds ≡ v.rounds)
  unfolding watch
  watch-keeps (consensus_round_started _ _ _) v h = cc
  watch-keeps (consensus_round_completed _ _ _) v h = cc
  watch-keeps (consensus_completed _ _ _) v h = cc
  watch-keeps (consensus_vote_received _ _ _ _) v h = (refl, refl)
  watch-keeps _ v h = (refl, refl)

  pub watch_all-keeps :
      (xs : List (EventPayload F)) (v : RoundView)
      → all keeps_open xs ≡ true
      → ((watch_all xs v).open_round ≡ v.open_round) × ((watch_all xs v).rounds ≡ v.rounds)
  unfolding watch_all
  watch_all-keeps [] v h = (refl, refl)
  watch_all-keeps (x ∷ xs) v h =
      let now = watch-keeps x v (and_left _ _ h) in
      let later = watch_all-keeps xs (watch x v) (and_right _ _ h) in
      (later.0 ∙ now.0, later.1 ∙ now.1)

  pub all-append :
      (p : EventPayload F → Bool) (xs ys : List (EventPayload F))
      → all p xs ≡ true
      → all p ys ≡ true
      → all p (xs ++ ys) ≡ true
  all-append p [] ys h k = k
  all-append p (x ∷ xs) ys h k =
      and_intro _ _ (and_left _ _ h) (all-append p xs ys (and_right _ _ h) k)

module _ (F : Type 0) where
  resolved_event-keeps :
      (id : String) (o : Option ConflictResolution)
      → all (keeps_open {F = F}) (resolved_event id o) ≡ true
  unfolding resolved_event
  resolved_event-keeps id none = refl
  resolved_event-keeps id (some r) = refl

  pub conflicts-keep :
      (n : ℕ) (cs : List Conflict) → all (keeps_open {F = F}) (emit_conflict_events n cs) ≡ true
  unfolding emit_conflict_events
  conflicts-keep n [] = refl
  conflicts-keep n (c ∷ cs) =
      all-append keeps_open (resolved_event c.id c.resolution) (emit_conflict_events n cs)
        (resolved_event-keeps c.id c.resolution) (conflicts-keep n cs)

  pub spawned-keep : (rs : List AgentRequest) → all (keeps_open {F = F}) (map spawned rs) ≡ true
  spawned-keep [] = refl
  spawned-keep (r ∷ rs) = spawned-keep rs

module _ {F : Type 0} (w : Surroundings F) where
  submitted-keep :
      (n : ℕ) (rs : List (Agent × String)) → all keeps_open (map (submitted w n) rs) ≡ true
  submitted-keep n [] = refl
  submitted-keep n ((a, output) ∷ rs) = submitted-keep n rs

  watch_all-submitted :
      (n : ℕ) (rs : List (Agent × String)) (v : RoundView)
      → watch_all (map (submitted w n) rs) v ≡ v
  unfolding watch_all watch
  watch_all-submitted n [] v = refl
  watch_all-submitted n ((a, output) ∷ rs) v = watch_all-submitted n rs v

  pub collected-keep :
      (n : ℕ) (now : Moment) (previous : String) (ids : List String)
      → all keeps_open (collect_scored_proposals w n now previous ids).1 ≡ true
  unfolding collect_scored_proposals
  collected-keep n now previous ids = elim (Bool-cases (w.is_timed_out n now)) [
    | inl late ↦ rw late refl
    | inr early ↦ rw early (submitted-keep n (results w n now previous ids))
  ]

  pub watch_all-collected :
      (n : ℕ) (now : Moment) (previous : String) (ids : List String) (v : RoundView)
      → watch_all (collect_scored_proposals w n now previous ids).1 v ≡ v
  unfolding collect_scored_proposals watch_all
  watch_all-collected n now previous ids v = elim (Bool-cases (w.is_timed_out n now)) [
    | inl late ↦ rw late refl
    | inr early ↦ rw early (watch_all-submitted n (results w n now previous ids) v)
  ]

module _ {F : Type 0} (fl : Floats F) (cfg : ConsensusConfig F) where
  abbrev pub proposed : List (ScoredProposal F) → String → Bool
  proposed sps id = any (λ (sp : ScoredProposal F). id == sp.proposal.agent_id) sps

  module_vote-keeps :
      (n : ℕ) (sp : ScoredProposal F) → all keeps_open (module_vote fl cfg n sp) ≡ true
  unfolding module_vote
  module_vote-keeps n sp = elim (Bool-cases (is_module sp.proposal.role)) [
    | inl yes_ ↦ rw yes_ refl
    | inr no_ ↦ rw no_ refl
  ]

  votes-keep :
      (n : ℕ) (sps : List (ScoredProposal F))
      → all keeps_open (emit_vote_events fl cfg n sps) ≡ true
  unfolding emit_vote_events
  votes-keep n [] = refl
  votes-keep n (sp ∷ sps) =
      all-append keeps_open (module_vote fl cfg n sp) (emit_vote_events fl cfg n sps)
        (module_vote-keeps n sp) (votes-keep n sps)

  watch_all-module_vote :
      (n : ℕ) (sp : ScoredProposal F) (v : RoundView) → watch_all (module_vote fl cfg n sp) v ≡ v
  unfolding module_vote watch_all watch
  watch_all-module_vote n sp v = elim (Bool-cases (is_module sp.proposal.role)) [
    | inl yes_ ↦ rw yes_ refl
    | inr no_ ↦ rw no_ refl
  ]

  keep-all : (xs : List String) → keep (λ id. true) xs ≡ xs
  keep-all [] = refl
  keep-all (x ∷ xs) = ap (λ ys. x ∷ ys) (keep-all xs)

  keep-proposed :
      (sp : ScoredProposal F) (sps : List (ScoredProposal F)) (ids : List String)
      → keep (λ id. not (proposed sps id)) (keep (λ id. not (id == sp.proposal.agent_id)) ids)
        ≡ keep (λ id. not (proposed (sp ∷ sps) id)) ids
  keep-proposed sp sps [] = refl
  keep-proposed sp sps (id ∷ ids) = ground (arith, keep-proposed sp sps ids)

  -- After the votes of proposals, the votes awaited are those of the agents that did not propose.
  pub watch_all-votes :
      (n : ℕ) (sps : List (ScoredProposal F)) (v : RoundView)
      → watch_all (emit_vote_events fl cfg n sps) v
        ≡ record v { pending = keep (λ id. not (proposed sps id)) v.pending }
  unfolding emit_vote_events watch_all watch
  watch_all-votes n [] v = rw (keep-all v.pending) refl
  watch_all-votes n (sp ∷ sps) v =
      let voted = record v { pending = keep (λ id. not (id == sp.proposal.agent_id)) v.pending } in
      watch_all-append (module_vote fl cfg n sp) (emit_vote_events fl cfg n sps) voted
      ∙ ap (watch_all (emit_vote_events fl cfg n sps)) (watch_all-module_vote n sp voted)
      ∙ watch_all-votes n sps voted
      ∙ ap (λ ids. record v { pending = ids }) (keep-proposed sp sps v.pending)
