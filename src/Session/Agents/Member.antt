-- ===== src/Session/Agents/Member.antt =====
-- src/agent/multi/session/participant.rs: an agent of a session, with its role, what it can do and what
-- it works on. The clock is an argument, in milliseconds. The domains of an agent, which are compared
-- without case, are kept and not asked for.
use claude_pilot.Base.{
  ℕ, ◌%◌, ◌^◌, String, Bool, true, false, not, Option, none, some, List, [], ◌∷◌, ◌++◌, ◌==◌,
  string_eq, list_eq, nat_eq, length, any, keep, is_empty, ltb, if◌then◌else◌,
}
use claude_pilot.Events.Kinds.{AgentStatus}

unfoldable pub is_available : AgentStatus → Bool
is_available AgentStatus.ready = true
is_available _ = false

unfoldable pub is_active : AgentStatus → Bool
is_active AgentStatus.ready = true
is_active AgentStatus.busy = true
is_active _ = false

unfoldable pub is_final : AgentStatus → Bool
is_final AgentStatus.completed = true
is_final AgentStatus.failed = true
is_final AgentStatus.removed = true
is_final _ = false

-- `module_role` and `architecture` keep the source's order.
pub data RoleCategory : Type 0 where
  core module_role reviewer architecture advisor : RoleCategory

pub record AgentRole : Type 0 where
  pub id : String
  pub category : RoleCategory

abbrev pub new_role : String → AgentRole
new_role id = record { id = id; category = core }

pub record AgentCapabilities : Type 0 where
  pub roles : List AgentRole
  pub max_concurrent_tasks : ℕ
  pub context_budget : ℕ
  pub domains : List String
  pub languages : List String

abbrev pub no_capabilities : AgentCapabilities
no_capabilities = record {
  roles = [];
  max_concurrent_tasks = 0;
  context_budget = 0;
  domains = [];
  languages = [];
}

unfoldable pub can_fulfill_role : AgentRole → AgentCapabilities → Bool
can_fulfill_role role c = any (λ r. r.id == role.id) c.roles

pub record Participant : Type 0 where
  pub id : String
  pub home : String
  pub group : Option String
  pub workspace : String
  pub status : AgentStatus
  pub capabilities : AgentCapabilities
  pub assigned_tasks : List String
  pub registered_at : Option ℕ
  pub last_activity : Option ℕ

unfoldable pub new_participant : ℕ → String → String → String → Participant
new_participant now id home workspace = record {
  id = id;
  home = home;
  group = none;
  workspace = workspace;
  status = AgentStatus.registered;
  capabilities = no_capabilities;
  assigned_tasks = [];
  registered_at = some now;
  last_activity = some now;
}

abbrev pub with_group : String → Participant → Participant
with_group group p = record p { group = some group }

abbrev pub with_capabilities : AgentCapabilities → Participant → Participant
with_capabilities c p = record p { capabilities = c }

abbrev pub mark : AgentStatus → ℕ → Participant → Participant
mark status now p = record p { status = status; last_activity = some now }

abbrev pub mark_ready : ℕ → Participant → Participant
mark_ready now p = mark AgentStatus.ready now p

abbrev pub mark_busy : ℕ → Participant → Participant
mark_busy now p = mark AgentStatus.busy now p

abbrev pub mark_completed : ℕ → Participant → Participant
mark_completed now p = mark AgentStatus.completed now p

abbrev pub mark_failed : ℕ → Participant → Participant
mark_failed now p = mark AgentStatus.failed now p

abbrev pub assign_to : ℕ → String → Participant → Participant
assign_to now task p = mark_busy now (record p { assigned_tasks = p.assigned_tasks ++ task ∷ [] })

-- `mark_ready` when no task is left.
abbrev pub settle : ℕ → Participant → Participant
settle now p = if is_empty p.assigned_tasks then mark_ready now p else p

abbrev pub take_from : ℕ → String → Participant → Participant
take_from now task p =
    settle now (record p { assigned_tasks = keep (λ t. not (t == task)) p.assigned_tasks })

-- `as u32`
unfoldable pub current_load : Participant → ℕ
current_load p = length p.assigned_tasks % 2 ^ 32

unfoldable pub has_capacity : Participant → Bool
has_capacity p = ltb (current_load p) p.capabilities.max_concurrent_tasks
