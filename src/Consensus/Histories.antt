-- ===== src/Consensus/Histories.antt =====
-- src/agent/multi/consensus/scoring.rs: the histories of the agents count their proposals, and are pruned
-- to their bound.
use claude_pilot.Base.{
  ℕ, zero, suc, ◌+◌, ◌≤◌, String, ◌≡◌, refl, sym, ap, ◌∙◌, subst, inl, inr, Bool, true, false, ◌&&◌,
  ◌<◌, ◌^◌, not, List, [], ◌∷◌, arith, ◌==◌, string_eq, list_eq, nat_eq, ==_iff, contains,
  is_subset, is_subset_intro, length, keep, leb, Bool-cases, and_right,
}
use claude_pilot.Base.Assoc.{lookup, remove, keys, lookup-insert}
use claude_pilot.Consensus.Synthesis.{ScoredProposal, ScoredProposalRound}
use claude_pilot.Consensus.Scoring.{
  Floats, ConsensusConfig, AgentPerformanceHistory, Histories, or_no_history, is_accepted,
  weighted_score, insert_by_total, sort_by_total, skip, remove_keys, prune_agent_history, credit,
  credit_round, credit_rounds, update_agent_history,
}

-- What a removal of keys leaves.
abbrev stays : List String → String × AgentPerformanceHistory → Bool
stays ks e = not (contains ks e.0)

remove-keep :
    (k : String) (ks : List String) (m : Histories)
    → keep (stays ks) (remove k m) ≡ keep (stays (k ∷ ks)) m
unfolding remove
remove-keep k ks [] = refl
remove-keep k ks ((j, h) ∷ m) = ground (arith, remove-keep k ks m)

keep-all : (m : Histories) → keep (stays []) m ≡ m
keep-all [] = refl
keep-all (e ∷ m) = ap (λ es. e ∷ es) (keep-all m)

remove_keys-keep : (ks : List String) (m : Histories) → remove_keys ks m ≡ keep (stays ks) m
unfolding remove_keys
remove_keys-keep [] m = sym (keep-all m)
remove_keys-keep (k ∷ ks) m = remove_keys-keep ks (remove k m) ∙ remove-keep k ks m

module _ (p : String × AgentPerformanceHistory → Bool) where
  insert_by_total-keep :
      (e : String × AgentPerformanceHistory) (es : Histories)
      → length (keep p (insert_by_total e es)) ≡ length (keep p (e ∷ es))
  unfolding insert_by_total
  insert_by_total-keep e [] = refl
  insert_by_total-keep (k, h) ((j, g) ∷ es) = ground (arith, insert_by_total-keep (k, h) es)

  sort_by_total-keep : (m : Histories) → length (keep p (sort_by_total m)) ≡ length (keep p m)
  unfolding sort_by_total
  sort_by_total-keep [] = refl
  sort_by_total-keep (e ∷ m) =
      insert_by_total-keep e (sort_by_total m) ∙ ground (arith, sort_by_total-keep m)

  -- Nothing of what is skipped is kept.
  keep-skipped : (n : ℕ) (m : Histories) → keep p (skip n m) ≡ [] → length (keep p m) ≤ n
  unfolding skip
  keep-skipped zero m h = ground (arith, h)
  keep-skipped (suc n) [] h = omega arith
  keep-skipped (suc n) (e ∷ m) h = ground (arith, keep-skipped n m h)

stays-none :
    (ks : List String) (m : Histories) → is_subset (keys m) ks ≡ true → keep (stays ks) m ≡ []
stays-none ks [] h = refl
stays-none ks ((k, g) ∷ m) h =
    ground (arith, h, stays-none ks m (and_right (contains ks k) (is_subset (keys m) ks) h))

prune-length : (max : ℕ) (m : Histories) → length (prune_agent_history max m) ≤ max
unfolding prune_agent_history
prune-length max m = elim (Bool-cases (leb (length m) max)) [
  | inl few ↦ rw (few, prune_agent_history) (ground (arith, few))
  | inr many ↦
      let gone = keys (skip max (sort_by_total m)) in
      rw (many, prune_agent_history, remove_keys-keep gone m)
        (subst (λ n. n ≤ max) (sort_by_total-keep (stays gone) m)
          (keep-skipped (stays gone) max (sort_by_total m)
            (stays-none gone (skip max (sort_by_total m)) (is_subset_intro gone gone (λ a h. h)))))
]

-- Once the histories are updated there are no more agents than the threshold, where the number that
-- pruning leaves is no more than that.
pub update_agent_history-length :
    {F : Type 0} (fl : Floats F) (cfg : ConsensusConfig F) (rs : List (ScoredProposalRound F))
    (m : Histories)
    → cfg.max_agent_history_entries ≤ cfg.history_prune_threshold
    → length (update_agent_history fl cfg rs m) ≤ cfg.history_prune_threshold
unfolding update_agent_history
update_agent_history-length fl cfg rs m le =
    ground (arith, le, prune-length cfg.max_agent_history_entries (credit_rounds fl cfg rs m))

module _ {F : Type 0} (fl : Floats F) (cfg : ConsensusConfig F) where
  -- The proposals of an agent, and those among them that are accepted.
  abbrev pub count_of : (ScoredProposal F → Bool) → String → List (ScoredProposal F) → ℕ
  count_of p id sps =
      length (keep (λ (sp : ScoredProposal F). sp.proposal.agent_id == id && p sp) sps)

  abbrev total_of : String → Histories → ℕ
  total_of id m = (or_no_history (lookup id m)).total_proposals

  abbrev accepted_of : String → Histories → ℕ
  accepted_of id m = (or_no_history (lookup id m)).accepted_proposals

  -- The threshold of the settings for a round that converged or did not.
  abbrev threshold : Bool → F
  threshold true = cfg.convergence_threshold
  threshold false = cfg.partial_convergence_threshold

  -- The weighted score exceeds the threshold of its round.
  abbrev pub passes : Bool → ScoredProposal F → Bool
  passes converged sp = fl.exceeds (weighted_score fl sp.score) (threshold converged)

  is_accepted-passes :
      (converged : Bool) (sp : ScoredProposal F)
      → is_accepted fl cfg converged sp ≡ passes converged sp
  unfolding is_accepted
  is_accepted-passes true sp = ground arith
  is_accepted-passes false sp = ground arith

  credit_one :
      (converged : Bool) (id : String) (sp : ScoredProposal F) (m : Histories)
      → total_of id m + count_of (λ q. true) id (sp ∷ []) < 2 ^ 64
      → accepted_of id m + count_of (passes converged) id (sp ∷ []) < 2 ^ 64
      → (total_of id (credit_round fl cfg converged (sp ∷ []) m)
          ≡ total_of id m + count_of (λ q. true) id (sp ∷ []))
        × (accepted_of id (credit_round fl cfg converged (sp ∷ []) m)
            ≡ accepted_of id m + count_of (passes converged) id (sp ∷ []))
  unfolding credit_round credit
  credit_one converged id sp m h g =
      let key = sp.proposal.agent_id in
      let entry = credit fl cfg converged sp (or_no_history (lookup key m)) in
      let found = lookup-insert id key entry m in
      let total = ap (λ o. (or_no_history o).total_proposals) found in
      let accepted = ap (λ o. (or_no_history o).accepted_proposals) found in
      let test = is_accepted-passes converged sp in
      elim (Bool-cases (key == id)) [
        | inl same ↦
            let e : key ≡ id = (==_iff key id).0 same in
            (
              total ∙ ground (arith, h, same, ap (λ k. total_of k m) e),
              accepted ∙ ground (arith, g, test, same, ap (λ k. accepted_of k m) e),
            )
        | inr other ↦ (total ∙ ground (arith, other), accepted ∙ ground (arith, other))
      ]

  count_of-cons :
      (p : ScoredProposal F → Bool) (id : String) (sp : ScoredProposal F)
      (sps : List (ScoredProposal F))
      → count_of p id (sp ∷ sps) ≡ count_of p id (sp ∷ []) + count_of p id sps
  count_of-cons p id sp sps = ground arith

  credit_round-counts :
      (converged : Bool) (id : String) (sps : List (ScoredProposal F)) (m : Histories)
      → total_of id m + count_of (λ sp. true) id sps < 2 ^ 64
      → accepted_of id m + count_of (passes converged) id sps < 2 ^ 64
      → (total_of id (credit_round fl cfg converged sps m)
          ≡ total_of id m + count_of (λ sp. true) id sps)
        × (accepted_of id (credit_round fl cfg converged sps m)
            ≡ accepted_of id m + count_of (passes converged) id sps)
  unfolding credit_round
  credit_round-counts converged id [] m h g = (omega arith, omega arith)
  credit_round-counts converged id (sp ∷ sps) m h g =
      let all_of = count_of-cons (λ q. true) id sp sps in
      let passed = count_of-cons (passes converged) id sp sps in
      let now =
        credit_one converged id sp m (omega (arith, h, all_of)) (omega (arith, g, passed)) in
      let later =
        credit_round-counts converged id sps (credit_round fl cfg converged (sp ∷ []) m)
          (omega (arith, h, now.0, all_of)) (omega (arith, g, now.1, passed)) in
      (omega (arith, now.0, later.0, all_of), omega (arith, now.1, later.1, passed))

  -- Over rounds, the proposals of an agent, and those whose score exceeds the threshold of their round.
  abbrev pub proposals_in : String → List (ScoredProposalRound F) → ℕ
  proposals_in id [] = 0
  proposals_in id (r ∷ rs) = count_of (λ sp. true) id r.proposals + proposals_in id rs

  abbrev pub passed_in : String → List (ScoredProposalRound F) → ℕ
  passed_in id [] = 0
  passed_in id (r ∷ rs) = count_of (passes r.converged) id r.proposals + passed_in id rs

  -- Before any pruning, the rounds of a run add to the totals of each agent the number of its proposals
  -- in them, and to those accepted the number whose weighted score exceeds the threshold for agreement
  -- in a round that converged, and the one for partial agreement in another, if both counts stay below
  -- 2^64.
  pub credit_rounds-counts :
      (id : String) (rs : List (ScoredProposalRound F)) (m : Histories)
      → total_of id m + proposals_in id rs < 2 ^ 64
      → accepted_of id m + passed_in id rs < 2 ^ 64
      → (total_of id (credit_rounds fl cfg rs m) ≡ total_of id m + proposals_in id rs)
        × (accepted_of id (credit_rounds fl cfg rs m) ≡ accepted_of id m + passed_in id rs)
  unfolding credit_rounds
  credit_rounds-counts id [] m h g = (omega arith, omega arith)
  credit_rounds-counts id (r ∷ rs) m h g =
      let now =
        credit_round-counts r.converged id r.proposals m (omega (arith, h)) (omega (arith, g)) in
      let later =
        credit_rounds-counts id rs (credit_round fl cfg r.converged r.proposals m)
          (omega (arith, h, now.0)) (omega (arith, g, now.1)) in
      (omega (arith, now.0, later.0), omega (arith, now.1, later.1))
