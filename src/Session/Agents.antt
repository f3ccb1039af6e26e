-- ===== src/Session/Agents.antt =====
-- src/agent/multi/session/participant.rs: the registry that indexes the agents of a session by module,
-- group, workspace and role.
mod Member
unfoldable pub use Member.*
use claude_pilot.Base.{
  ℕ, zero, suc, ◌+◌, ◌-◌, ◌*◌, ◌/◌, ◌%◌, ◌^◌, ◌≤◌, ◌<◌, String, ◌≡◌, refl, sym, ap, ◌∙◌, subst, ◌≢◌,
  ◌↔◌, ◌⊎◌, inl, inr, ite, Bool, true, false, ◌&&◌, ◌||◌, not, Option, none, some, List, [], ◌∷◌,
  ◌++◌, map, arith, DecEq, ◌==◌, string_eq, list_eq, nat_eq, eq_refl, ==_iff, contains, is_subset,
  contains-set_insert, contains-append, set_insert, set_remove, length, length-append, all, any,
  keep, find, is_empty, is_some, is_none, ltb, leb, eqb, if◌then◌else◌, Bool-cases, and_left,
  and_right, and_intro, Option-cases, decide_by, string_dec, list_dec, ltb→lt, lt→ltb,
  length-keep-le, length-map,
}
use claude_pilot.Base.Assoc.{lookup, insert, remove, adjust, values}
use claude_pilot.Events.Kinds.{AgentStatus, TierLevel}
use claude_pilot.Session.Notification.{push_entry}

abbrev pub Index : Type 0
Index = List (String × List String)

pub record ParticipantRegistry : Type 0 where
  pub participants : List (String × Participant)
  pub module_index : Index
  pub group_index : Index
  pub workspace_index : Index
  pub role_index : Index

unfoldable pub new_registry : ParticipantRegistry
new_registry = record {
  participants = [];
  module_index = [];
  group_index = [];
  workspace_index = [];
  role_index = [];
}

-- The indices as a list of keys under which an identifier is pushed, or from which it is removed.
unfoldable pub push_all : String → List String → Index → Index
push_all id [] m = m
push_all id (k ∷ ks) m = push_all id ks (push_entry k id m)

-- A list that is left empty is dropped.
unfoldable pub remove_from_index : String → String → Index → Index
remove_from_index k id m = elim (lookup k m) [
  | none ↦ m
  | some ids ↦
      let kept = keep (λ i. not (i == id)) ids in
      if is_empty kept then remove k m else insert k kept m
]

unfoldable pub remove_all : String → List String → Index → Index
remove_all id [] m = m
remove_all id (k ∷ ks) m = remove_all id ks (remove_from_index k id m)

abbrev pub group_keys : Participant → List String
group_keys p = elim p.group [ none ↦ [] | some g ↦ g ∷ [] ]

abbrev pub role_keys : Participant → List String
role_keys p = map (λ (r : AgentRole). r.id) p.capabilities.roles

unfoldable pub register : Participant → ParticipantRegistry → ParticipantRegistry
register p g = record {
  module_index = push_entry p.home p.id g.module_index;
  group_index = push_all p.id (group_keys p) g.group_index;
  workspace_index = push_entry p.workspace p.id g.workspace_index;
  role_index = push_all p.id (role_keys p) g.role_index;
  participants = insert p.id p g.participants;
}

-- What is removed is returned too, marked as removed.
unfoldable pub remove_participant :
    String → ParticipantRegistry → ParticipantRegistry × Option Participant
remove_participant id g = elim (lookup id g.participants) [
  | none ↦ (g, none)
  | some p ↦ (
    record {
      participants = remove id g.participants;
      module_index = remove_from_index p.home id g.module_index;
      group_index = remove_all id (group_keys p) g.group_index;
      workspace_index = remove_from_index p.workspace id g.workspace_index;
      role_index = remove_all id (role_keys p) g.role_index;
    },
    some (record p { status = AgentStatus.removed }),
  )
]

-- `participant_mut`, and what the caller does to it.
unfoldable pub update_participant :
    String → (Participant → Participant) → ParticipantRegistry → ParticipantRegistry
update_participant id f g = record g { participants = adjust id f g.participants }

-- `unwrap_or_default`
abbrev pub or_empty {ℓ} : {A : Type ℓ} → Option (List A) → List A
or_empty none = []
or_empty (some xs) = xs

abbrev pub ids_under : String → Index → List String
ids_under k m = or_empty (lookup k m)

-- `filter_map(|id| self.participants.get(id))`
unfoldable pub get_all : List String → List (String × Participant) → List Participant
get_all [] m = []
get_all (id ∷ ids) m =
    let rest = get_all ids m in elim (lookup id m) [ none ↦ rest | some p ↦ p ∷ rest ]

unfoldable pub by_module : String → ParticipantRegistry → List Participant
by_module k g = get_all (ids_under k g.module_index) g.participants

unfoldable pub by_group : String → ParticipantRegistry → List Participant
by_group k g = get_all (ids_under k g.group_index) g.participants

unfoldable pub by_workspace : String → ParticipantRegistry → List Participant
by_workspace k g = get_all (ids_under k g.workspace_index) g.participants

unfoldable pub by_role : String → ParticipantRegistry → List Participant
by_role k g = get_all (ids_under k g.role_index) g.participants

unfoldable pub available : ParticipantRegistry → List Participant
available g = keep (λ p. is_available p.status) (values g.participants)

unfoldable pub active : ParticipantRegistry → List Participant
active g = keep (λ p. is_active p.status) (values g.participants)

unfoldable pub planning_agents : ParticipantRegistry → List Participant
planning_agents g = keep (λ p. is_active p.status) (by_role "planning" g)

unfoldable pub coder_agents : ParticipantRegistry → List Participant
coder_agents g = keep (λ p. is_active p.status) (by_role "coder" g)

unfoldable pub spans_multiple_workspaces : ParticipantRegistry → Bool
spans_multiple_workspaces g = ltb 1 (length g.workspace_index)

-- One participant of each workspace: the first.
unfoldable pub representatives : List String → List Participant → List Participant
representatives seen [] = []
representatives seen (p ∷ ps) =
    let later = representatives (p.workspace ∷ seen) ps in
    let other = representatives seen ps in if contains seen p.workspace then other else p ∷ later

unfoldable pub at_tier : TierLevel → ParticipantRegistry → List Participant
at_tier TierLevel.module_agent g = values g.participants
at_tier TierLevel.group g = keep (λ p. is_some p.group) (values g.participants)
at_tier TierLevel.domain g = keep (λ p. is_some p.group) (values g.participants)
at_tier TierLevel.workspace g = representatives [] (values g.participants)
at_tier TierLevel.cross_workspace g =
    if spans_multiple_workspaces g
    then keep (λ p. is_active p.status) (by_role "coordinator" g)
    else []

abbrev pub may_take : Participant → Bool
may_take p = is_available p.status && has_capacity p

-- In the module an agent with the role, and anywhere else otherwise.
unfoldable pub find_candidate : String → String → ParticipantRegistry → Option Participant
find_candidate home role g =
    let local =
      find (λ p. may_take p && can_fulfill_role (new_role role) p.capabilities)
        (by_module home g) in
    elim local [ some p ↦ some p | none ↦ find may_take (by_role role g) ]

pub record ParticipantSummary : Type 0 where
  pub id : String
  pub home : String
  pub roles : List String
  pub domains : List String
  pub status : AgentStatus

abbrev pub summary_of : Participant → ParticipantSummary
summary_of p = record {
  id = p.id;
  home = p.home;
  roles = role_keys p;
  domains = p.capabilities.domains;
  status = p.status;
}

unfoldable pub summaries : ParticipantRegistry → List ParticipantSummary
summaries g = map summary_of (active g)
