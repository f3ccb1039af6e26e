-- ===== src/Consensus/Scoring.antt =====
-- src/agent/multi/consensus/scoring.rs and types.rs: the score of a proposal, and the history of an
-- agent over the consensus it took part in. The operations on floats are parameters; the counts are 64
-- bits wide.
use claude_pilot.Base.{
  ℕ, zero, suc, String, Bool, true, false, ◌&&◌, ◌||◌, not, Option, none, some, List, [], ◌∷◌,
  string_eq, list_eq, nat_eq, length, ltb, leb, if◌then◌else◌,
}
use claude_pilot.Base.Assoc.{lookup, insert, remove, keys}
use claude_pilot.Projections.{count_up}
use claude_pilot.Session.Agents.{AgentRole, RoleCategory}
use claude_pilot.Consensus.Synthesis.{AgentProposalScore, ScoredProposal, ScoredProposalRound}

-- `exceeds a b` is `a > b`, `reaches a b` is `a >= b`, and `hundredths n` the literal n / 100.
pub record Floats (F : Type 0) : Type 0 where
  pub plus : F → F → F
  pub times : F → F → F
  pub exceeds : F → F → Bool
  pub reaches : F → F → Bool
  pub hundredths : ℕ → F

-- The settings that a run reads, those of `scoring` among them.
pub record ConsensusConfig (F : Type 0) : Type 0 where
  pub max_rounds : ℕ
  pub min_participants : ℕ
  pub approve_threshold : F
  pub approve_with_changes_threshold : F
  pub convergence_threshold : F
  pub partial_convergence_threshold : F
  pub history_prune_threshold : ℕ
  pub max_agent_history_entries : ℕ

pub record AgentPerformanceHistory : Type 0 where
  pub total_proposals : ℕ
  pub accepted_proposals : ℕ
  pub module_contributions : List (String × ℕ)

abbrev pub no_history : AgentPerformanceHistory
no_history = record { total_proposals = 0; accepted_proposals = 0; module_contributions = [] }

-- The agents' histories by identifier.
abbrev pub Histories : Type 0
Histories = List (String × AgentPerformanceHistory)

abbrev is_module_category : RoleCategory → Bool
is_module_category RoleCategory.module_role = true
is_module_category _ = false

unfoldable pub is_module : AgentRole → Bool
is_module r = is_module_category r.category

-- `unwrap_or_default` and `or_insert(0)`.
abbrev pub or_no_history : Option AgentPerformanceHistory → AgentPerformanceHistory
or_no_history none = no_history
or_no_history (some h) = h

abbrev pub or_zero : Option ℕ → ℕ
or_zero none = 0
or_zero (some n) = n

unfoldable pub contribute : String → List (String × ℕ) → List (String × ℕ)
contribute role m = insert role (count_up (or_zero (lookup role m))) m

unfoldable pub contribute_if : Bool → String → List (String × ℕ) → List (String × ℕ)
contribute_if true role m = contribute role m
contribute_if false role m = m

-- `sort_by` of the totals, the highest first; it keeps the order of equals.
unfoldable pub insert_by_total : String × AgentPerformanceHistory → Histories → Histories
insert_by_total e [] = e ∷ []
insert_by_total (k, h) ((j, g) ∷ es) =
    let rest = insert_by_total (k, h) es in
    if leb g.total_proposals h.total_proposals then (k, h) ∷ (j, g) ∷ es else (j, g) ∷ rest

unfoldable pub sort_by_total : Histories → Histories
sort_by_total [] = []
sort_by_total (e ∷ es) = insert_by_total e (sort_by_total es)

unfoldable pub skip {ℓ} : {A : Type ℓ} → ℕ → List A → List A
skip zero xs = xs
skip (suc n) [] = []
skip (suc n) (x ∷ xs) = skip n xs

unfoldable pub remove_keys : List String → Histories → Histories
remove_keys [] m = m
remove_keys (k ∷ ks) m = remove_keys ks (remove k m)

unfoldable pub prune_agent_history : ℕ → Histories → Histories
prune_agent_history max m =
    if leb (length m) max then m else remove_keys (keys (skip max (sort_by_total m))) m

module _ {F : Type 0} (fl : Floats F) where
  unfoldable pub weighted_score : AgentProposalScore F → F
  weighted_score s =
      fl.plus
        (fl.plus
          (fl.plus (fl.times s.module_relevance (fl.hundredths 35))
            (fl.times s.historical_accuracy (fl.hundredths 25)))
          (fl.times s.evidence_strength (fl.hundredths 25)))
        (fl.times s.confidence (fl.hundredths 15))

  -- The test by which a proposal counts as accepted.
  unfoldable pub is_accepted : ConsensusConfig F → Bool → ScoredProposal F → Bool
  is_accepted cfg converged sp =
      (converged && fl.exceeds (weighted_score sp.score) cfg.convergence_threshold)
      || (not converged && fl.exceeds (weighted_score sp.score) cfg.partial_convergence_threshold)

  unfoldable pub credit :
      ConsensusConfig F
      → Bool
      → ScoredProposal F
      → AgentPerformanceHistory
      → AgentPerformanceHistory
  credit cfg converged sp h = record h {
    total_proposals = count_up h.total_proposals;
    accepted_proposals =
        if is_accepted cfg converged sp
        then count_up h.accepted_proposals
        else h.accepted_proposals;
    module_contributions =
        contribute_if (is_module sp.proposal.role) sp.proposal.role.id h.module_contributions;
  }

  unfoldable pub credit_round :
      ConsensusConfig F → Bool → List (ScoredProposal F) → Histories → Histories
  credit_round cfg converged [] m = m
  credit_round cfg converged (sp ∷ sps) m = credit_round cfg converged sps (
      insert sp.proposal.agent_id
        (credit cfg converged sp (or_no_history (lookup sp.proposal.agent_id m))) m)

  unfoldable pub credit_rounds :
      ConsensusConfig F → List (ScoredProposalRound F) → Histories → Histories
  credit_rounds cfg [] m = m
  credit_rounds cfg (r ∷ rs) m = credit_rounds cfg rs (credit_round cfg r.converged r.proposals m)

  unfoldable pub update_agent_history :
      ConsensusConfig F → List (ScoredProposalRound F) → Histories → Histories
  update_agent_history cfg rs m =
      let credited = credit_rounds cfg rs m in
      if ltb cfg.history_prune_threshold (length credited)
      then prune_agent_history cfg.max_agent_history_entries credited
      else credited
