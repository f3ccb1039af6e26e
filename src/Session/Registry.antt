-- ===== src/Session/Registry.antt =====
-- src/agent/multi/session/participant.rs: the calls on the registry, and what its queries by key find.
use claude_pilot.Base.{
  ℕ, String, ◌≡◌, refl, Bool, true, arith, string_eq, list_eq, nat_eq, contains, is_none,
}
use claude_pilot.Base.Assoc.{lookup}
use claude_pilot.Events.Kinds.{AgentStatus}
use claude_pilot.Session.Agents.{
  Participant, ParticipantRegistry, group_keys, role_keys, assign_to, take_from, mark, mark_ready,
  mark_busy, mark_completed, mark_failed, register, remove_participant, update_participant,
  by_module, by_group, by_workspace, by_role,
}
use claude_pilot.Session.Indexed.{
  IsRegistry, IsUpdate, has_key, home_keys, workspace_keys, names, listed_keys, register-IsRegistry,
  remove_participant-IsRegistry, update_participant-IsRegistry,
}

pub data RegistryCall : Type 0 where
  registers : Participant → RegistryCall
  removes : String → RegistryCall
  readies busies finishes breaks : ℕ → String → RegistryCall
  assigns takes : ℕ → String → String → RegistryCall

unfoldable pub step_registry : RegistryCall → ParticipantRegistry → ParticipantRegistry
step_registry (registers p) g = register p g
step_registry (removes id) g = (remove_participant id g).0
step_registry (readies now id) g = update_participant id (mark_ready now) g
step_registry (busies now id) g = update_participant id (mark_busy now) g
step_registry (finishes now id) g = update_participant id (mark_completed now) g
step_registry (breaks now id) g = update_participant id (mark_failed now) g
step_registry (assigns now id task) g = update_participant id (assign_to now task) g
step_registry (takes now id task) g = update_participant id (take_from now task) g

-- A registration is under a name that is not in use.
abbrev pub is_fresh : RegistryCall → ParticipantRegistry → Bool
is_fresh (registers p) g = is_none (lookup p.id g.participants)
is_fresh _ g = true

marked-IsUpdate : (status : AgentStatus) (now : ℕ) → IsUpdate (mark status now)
marked-IsUpdate status now = record {
  id = λ p. refl;
  home = λ p. refl;
  group = λ p. refl;
  workspace = λ p. refl;
  roles = λ p. refl;
}

assign_to-IsUpdate : (now : ℕ) (task : String) → IsUpdate (assign_to now task)
assign_to-IsUpdate now task = record {
  id = λ p. refl;
  home = λ p. refl;
  group = λ p. refl;
  workspace = λ p. refl;
  roles = λ p. refl;
}

take_from-IsUpdate : (now : ℕ) (task : String) → IsUpdate (take_from now task)
take_from-IsUpdate now task = record {
  id = λ p. ground arith;
  home = λ p. ground arith;
  group = λ p. ground arith;
  workspace = λ p. ground arith;
  roles = λ p. ground arith;
}

-- Every call on the registry, where a registration is under a name that is not in use, leaves each
-- index with exactly the participants that have the key.
pub step_registry-IsRegistry :
    (c : RegistryCall) (g : ParticipantRegistry)
    → is_fresh c g ≡ true
    → IsRegistry g
    → IsRegistry (step_registry c g)
unfolding step_registry
step_registry-IsRegistry (registers p) g fresh ok =
    register-IsRegistry p g (ground (arith, fresh)) ok
step_registry-IsRegistry (removes id) g fresh ok = remove_participant-IsRegistry id g ok
step_registry-IsRegistry (readies now id) g fresh ok =
    update_participant-IsRegistry id _ g (marked-IsUpdate AgentStatus.ready now) ok
step_registry-IsRegistry (busies now id) g fresh ok =
    update_participant-IsRegistry id _ g (marked-IsUpdate AgentStatus.busy now) ok
step_registry-IsRegistry (finishes now id) g fresh ok =
    update_participant-IsRegistry id _ g (marked-IsUpdate AgentStatus.completed now) ok
step_registry-IsRegistry (breaks now id) g fresh ok =
    update_participant-IsRegistry id _ g (marked-IsUpdate AgentStatus.failed now) ok
step_registry-IsRegistry (assigns now id task) g fresh ok =
    update_participant-IsRegistry id _ g (assign_to-IsUpdate now task) ok
step_registry-IsRegistry (takes now id task) g fresh ok =
    update_participant-IsRegistry id _ g (take_from-IsUpdate now task) ok

-- In a registry whose indices agree, the queries by module, group, workspace and role find under a key
-- the registered participants that have it and no others.
pub by_key_lem :
    (g : ParticipantRegistry) (k id : String)
    → IsRegistry g
    → (contains (names (by_module k g)) id ≡ has_key home_keys k (lookup id g.participants))
      × (contains (names (by_group k g)) id ≡ has_key group_keys k (lookup id g.participants))
      × (contains (names (by_workspace k g)) id
          ≡ has_key workspace_keys k (lookup id g.participants))
      × (contains (names (by_role k g)) id ≡ has_key role_keys k (lookup id g.participants))
unfolding by_module by_group by_workspace by_role
by_key_lem g k id ok = (
  listed_keys home_keys g g.module_index k id ok ok.homes,
  listed_keys group_keys g g.group_index k id ok ok.groups,
  listed_keys workspace_keys g g.workspace_index k id ok ok.workspaces,
  listed_keys role_keys g g.role_index k id ok ok.roles,
)
