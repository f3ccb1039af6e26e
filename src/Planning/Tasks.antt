-- ===== src/Planning/Tasks.antt =====
-- src/planning/artifacts.rs and src/planning/validation/rules.rs: the tasks of a plan, the names they are
-- given, and the check that they can be executed. `label` is the formatting of the new identifiers; a
-- text made for people is kept as its kind and what it names.
use claude_pilot.Base.{
  ℕ, suc, String, Bool, Option, none, some, List, [], ◌∷◌, ◌++◌, map, ◌==◌, string_eq, list_eq,
  nat_eq, length, all, any, keep, is_empty, is_some, ltb, if◌then◌else◌,
}
use claude_pilot.Base.Assoc.{lookup, insert}
use claude_pilot.Planning.Graph.{Dependencies, detect_cycle}

pub record PlannedTask : Type 0 where
  pub id : String
  pub description : String
  pub user_story : Option String
  pub parallel : Bool
  pub dependencies : List String
  pub affected_files : List String
  pub test_patterns : List String

pub record TaskPhase : Type 0 where
  pub id : String
  pub name : String
  pub purpose : String
  pub tasks : List PlannedTask
  pub checkpoint : Option String

pub record TasksArtifact : Type 0 where
  pub phases : List TaskPhase

pub record DroppedDependency : Type 0 where
  pub task_id : String
  pub invalid_dep : String

-- `flat_map(|p| &p.tasks)`
unfoldable pub tasks_of : List TaskPhase → List PlannedTask
tasks_of [] = []
tasks_of (p ∷ ps) = p.tasks ++ tasks_of ps

unfoldable pub parallel_tasks : TasksArtifact → ℕ
parallel_tasks a = length (keep (λ (t : PlannedTask). t.parallel) (tasks_of a.phases))

unfoldable pub collect_dependencies : List PlannedTask → Dependencies → Dependencies
collect_dependencies [] m = m
collect_dependencies (t ∷ ts) m = collect_dependencies ts (insert t.id t.dependencies m)

unfoldable pub to_dependency_map : TasksArtifact → Dependencies
to_dependency_map a = collect_dependencies (tasks_of a.phases) []

-- The new identifiers by the old.
abbrev pub IdMap : Type 0
IdMap = List (String × String)

module _ (label : ℕ → ℕ → String) where
  -- Phases and tasks are counted from 1.
  unfoldable pub rename_tasks : ℕ → ℕ → List PlannedTask → List PlannedTask
  rename_tasks p t [] = []
  rename_tasks p t (x ∷ xs) = record x { id = label p t } ∷ rename_tasks p (suc t) xs

  unfoldable pub map_tasks : ℕ → ℕ → List PlannedTask → IdMap → IdMap
  map_tasks p t [] m = m
  map_tasks p t (x ∷ xs) m = map_tasks p (suc t) xs (insert x.id (label p t) m)

  unfoldable pub rename_phases : ℕ → List TaskPhase → List TaskPhase
  rename_phases p [] = []
  rename_phases p (x ∷ xs) =
      record x { tasks = rename_tasks p 1 x.tasks } ∷ rename_phases (suc p) xs

  unfoldable pub map_phases : ℕ → List TaskPhase → IdMap → IdMap
  map_phases p [] m = m
  map_phases p (x ∷ xs) m = map_phases (suc p) xs (map_tasks p 1 x.tasks m)

abbrev pub put_valid : Option String → List String → List String
put_valid none rest = rest
put_valid (some id) rest = id ∷ rest

abbrev pub put_dropped :
    String → String → Option String → List DroppedDependency → List DroppedDependency
put_dropped task dep none rest = record { task_id = task; invalid_dep = dep } ∷ rest
put_dropped task dep (some id) rest = rest

unfoldable pub valid_deps : IdMap → List String → List String
valid_deps m [] = []
valid_deps m (d ∷ ds) = put_valid (lookup d m) (valid_deps m ds)

unfoldable pub dropped_deps : IdMap → String → List String → List DroppedDependency
dropped_deps m task [] = []
dropped_deps m task (d ∷ ds) = put_dropped task d (lookup d m) (dropped_deps m task ds)

abbrev pub keep_valid : IdMap → PlannedTask → PlannedTask
keep_valid m t = record t { dependencies = valid_deps m t.dependencies }

unfoldable pub keep_valid_phases : IdMap → List TaskPhase → List TaskPhase
keep_valid_phases m [] = []
keep_valid_phases m (p ∷ ps) =
    record p { tasks = map (keep_valid m) p.tasks } ∷ keep_valid_phases m ps

unfoldable pub dropped_of : IdMap → List PlannedTask → List DroppedDependency
dropped_of m [] = []
dropped_of m (t ∷ ts) = dropped_deps m t.id t.dependencies ++ dropped_of m ts

unfoldable pub normalize_task_ids :
    (ℕ → ℕ → String) → TasksArtifact → TasksArtifact × List DroppedDependency
normalize_task_ids label a =
    let renamed = rename_phases label 1 a.phases in
    let ids = map_phases label 1 a.phases [] in
    (record { phases = keep_valid_phases ids renamed }, dropped_of ids (tasks_of renamed))

pub data Finding : Type 0 where
  circular_dependency : (path : List String) → Finding
  missing_dependency : (task : String) (dep : String) → Finding
  have_checkpoints missing_checkpoints : Finding
  can_run_in_parallel : (count : ℕ) → Finding

pub data CheckDetail : Type 0 where
  info warning error : Finding → CheckDetail

pub data QualityTier : Type 0 where
  green yellow red : QualityTier

pub record ValidationCheckResult : Type 0 where
  pub passed : Bool
  pub tier : QualityTier
  pub details : List CheckDetail

abbrev pub has_task : List PlannedTask → String → Bool
has_task ts dep = any (λ (t : PlannedTask). t.id == dep) ts

unfoldable pub missing_of : List PlannedTask → PlannedTask → List String → List CheckDetail
missing_of all_tasks t [] = []
missing_of all_tasks t (d ∷ ds) =
    let rest = missing_of all_tasks t ds in
    if has_task all_tasks d then rest else error (missing_dependency t.id d) ∷ rest

unfoldable pub all_missing : List PlannedTask → List PlannedTask → List CheckDetail
all_missing all_tasks [] = []
all_missing all_tasks (t ∷ ts) = missing_of all_tasks t t.dependencies ++ all_missing all_tasks ts

abbrev pub of_cycle : Option (List String) → List CheckDetail
of_cycle none = []
of_cycle (some path) = error (circular_dependency path) ∷ []

-- Each error is a test that did not pass.
unfoldable pub feasibility_of : TasksArtifact → Option (List String) → ValidationCheckResult
feasibility_of a cycle =
    let errors = of_cycle cycle ++ all_missing (tasks_of a.phases) (tasks_of a.phases) in
    let checkpoints = all (λ (p : TaskPhase). is_some p.checkpoint) a.phases in
    record {
      passed = is_empty errors;
      tier = if is_empty errors then green else red;
      details =
          errors
          ++ ((if checkpoints then info have_checkpoints else warning missing_checkpoints)
              ∷ (if ltb 0 (parallel_tasks a)
                  then info (can_run_in_parallel (parallel_tasks a)) ∷ []
                  else []));
    }

abbrev pub with_cycle : TasksArtifact → Option (Option (List String)) → Option ValidationCheckResult
with_cycle a none = none
with_cycle a (some cycle) = some (feasibility_of a cycle)

unfoldable pub check_execution_feasibility : TasksArtifact → Option ValidationCheckResult
check_execution_feasibility a = with_cycle a (detect_cycle (to_dependency_map a))
