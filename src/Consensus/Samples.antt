-- ===== src/Consensus/Samples.antt =====
-- Agents, answers and settings for runs of a consensus in tests.
use claude_pilot.Base.{
  ℕ, ◌+◌, ◌*◌, String, false, Option, none, some, List, [], ◌∷◌, map, ◌==◌, string_eq, list_eq,
  nat_eq, ltb, leb, eqb, if◌then◌else◌,
}
use Prim.Native.String.{◌++◌ as joined_text}
use claude_pilot.Events.{DomainEvent, EventPayload}
use claude_pilot.Session.Agents.{RoleCategory}
use claude_pilot.Consensus.Synthesis.{
  AgentRequest, ConsensusSynthesisOutput, ScoredProposal, new_consensus_session,
}
use claude_pilot.Consensus.Scoring.{Floats, ConsensusConfig}
use claude_pilot.Consensus.Proposals.{Surroundings}
use claude_pilot.Consensus.Rounds.{Course}

abbrev pub hundredths : Floats ℕ
hundredths = record {
  plus = λ a b. a + b;
  times = λ a b. a * b;
  exceeds = λ a b. ltb b a;
  reaches = λ a b. leb b a;
  hundredths = λ n. n;
}

abbrev pub config : ConsensusConfig ℕ
config = record {
  max_rounds = 3;
  min_participants = 2;
  approve_threshold = 70;
  approve_with_changes_threshold = 40;
  convergence_threshold = 60;
  partial_convergence_threshold = 50;
  history_prune_threshold = 2;
  max_agent_history_entries = 1;
}

abbrev pub output : String → List AgentRequest → ConsensusSynthesisOutput ℕ
output word needed = record {
  consensus = word;
  plan = "plan";
  tasks = [];
  conflicts = [];
  dissents = [];
  agent_needed = needed;
}

abbrev pub surroundings :
    (ℕ → List (ScoredProposal ℕ) → Option (ConsensusSynthesisOutput ℕ)) → Surroundings ℕ
surroundings synthesize = record {
  is_timed_out = λ n now. false;
  select_by_qualified_id = λ n now id. none;
  select_by_id = λ n now id.
      if id == "ghost"
      then none
      else some
          (record { id = id; role = record { id = id; category = RoleCategory.module_role } });
  execute = λ n previous a. some a.id;
  calculate_proposal_score = λ a out. record {
    agent_id = a.id;
    module_relevance = 1;
    historical_accuracy = 1;
    evidence_strength = 1;
    confidence = 0;
  };
  compute_proposal_hash = λ content n. content;
  extract_affected_modules = λ out. [];
  synthesize_with_scoring = synthesize;
  register_agents = λ rs. map (λ (r : AgentRequest). joined_text "module-" r.needed) rs;
  to_string = λ out. out.consensus;
  to_string_pretty = λ out. out.consensus;
  from_str = λ s. some (output s []);
}

abbrev pub expert : AgentRequest
expert = record { needed = "db"; reason = "storage" }

abbrev pub second_time : ℕ → List (ScoredProposal ℕ) → Option (ConsensusSynthesisOutput ℕ)
second_time n sps = if eqb n 1 then some (output "no" (expert ∷ [])) else some (output "agreed" [])

abbrev pub initial : List String
initial = "a" ∷ "b" ∷ "ghost" ∷ []

abbrev pub agreeing : Surroundings ℕ
agreeing = surroundings second_time

abbrev pub first_course : Course ℕ
first_course = record { session = new_consensus_session initial; events = []; agent_history = [] }

abbrev pub in_part : Surroundings ℕ
in_part = surroundings (λ n sps. some (output "partial" []))

abbrev pub stamped : List (EventPayload ℕ) → List (DomainEvent ℕ)
stamped xs =
    map
      (λ x. record {
        id = "e";
        aggregate_id = "m";
        version = 1;
        global_seq = 1;
        timestamp = 5;
        payload = x;
        causation_id = none;
        correlation_id = none;
      })
      xs

abbrev pub failing : Surroundings ℕ
failing = surroundings (λ n sps. none)
