-- ===== src/Planning/Tests.antt =====
-- Plans of few tasks, their cycles, and the theorems at these plans.
use claude_pilot.Base.{
  Bool, Option, ℕ, zero, suc, String, ◌≡◌, refl, ◌↔◌, true, false, none, some, List, [], ◌∷◌,
  string_eq, list_eq, nat_eq, set_insert, set_remove, decide_by, string_dec,
}
use Prim.Native.String.{◌∷◌ as strokes}
use Prim.Native.Char.{Char}
use claude_pilot.Base.Assoc.{lookup, insert}
use claude_pilot.Planning.Graph.{
  Dependencies, deps_of, pop, enter, leave, visit_all, dfs_cycle, detect_cycle,
}
use claude_pilot.Planning.Cycle.{Detected, detect_cycle_lem}
use claude_pilot.Planning.Tasks.{
  PlannedTask, TasksArtifact, tasks_of, parallel_tasks, collect_dependencies, to_dependency_map,
  rename_tasks, map_tasks, rename_phases, map_phases, valid_deps, dropped_deps, keep_valid_phases,
  dropped_of, normalize_task_ids, ValidationCheckResult, missing_of, all_missing, feasibility_of,
  check_execution_feasibility,
}
use claude_pilot.Planning.Places.{task_at}
use claude_pilot.Planning.Renamed.{all_known}
use claude_pilot.Planning.Feasible.{DependsOn, check_execution_feasibility_iff}

runs : String
unfolding string_dec decide_by task_at lookup insert deps_of pop enter leave set_insert set_remove
    visit_all dfs_cycle detect_cycle tasks_of parallel_tasks collect_dependencies to_dependency_map
    rename_tasks map_tasks rename_phases map_phases valid_deps dropped_deps keep_valid_phases
    dropped_of normalize_task_ids missing_of all_missing feasibility_of check_execution_feasibility
runs = "runs"

abbrev diamond : Dependencies
diamond = ("A", "B" ∷ "C" ∷ []) ∷ ("B", "D" ∷ []) ∷ ("C", "D" ∷ []) ∷ ("D", []) ∷ []

no_cycle : detect_cycle diamond ≡ some none
unfolding runs
no_cycle = refl

-- The tasks that lead to the cycle stand before it.
abbrev tail_cycle : Dependencies
tail_cycle = ("A", "B" ∷ []) ∷ ("B", "C" ∷ []) ∷ ("C", "B" ∷ []) ∷ []

cycle_after_lead : detect_cycle tail_cycle ≡ some (some ("A" ∷ "B" ∷ "C" ∷ "B" ∷ []))
unfolding runs
cycle_after_lead = refl

detect_cycle_lem_example : Detected diamond (detect_cycle diamond)
detect_cycle_lem_example = detect_cycle_lem diamond

abbrev task : String → List String → PlannedTask
task id deps = record {
  id = id;
  description = "a task";
  user_story = none;
  parallel = false;
  dependencies = deps;
  affected_files = [];
  test_patterns = [];
}

abbrev plan : TasksArtifact
plan = record {
  phases =
      record {
        id = "Phase1";
        name = "Setup";
        purpose = "";
        tasks = task "T001" [] ∷ task "T002" ("T001" ∷ "T009" ∷ []) ∷ [];
        checkpoint = none;
      }
      ∷ record {
        id = "Phase2";
        name = "Rest";
        purpose = "";
        tasks = task "T003" ("T002" ∷ []) ∷ [];
        checkpoint = some "done";
      }
      ∷ [];
}

check_execution_feasibility_iff_example :
    (r : ValidationCheckResult) × (check_execution_feasibility plan ≡ some r)
    × ((r.passed ≡ true) ↔ (
        ((x : String) → ¬ DependsOn (tasks_of plan.phases) x x)
        × (all_known (tasks_of plan.phases) (tasks_of plan.phases) ≡ true)))
unfolding runs
check_execution_feasibility_iff_example = check_execution_feasibility_iff plan refl

-- With one identifier twice, a task that lists itself passes: the map forgets the first of the two.
abbrev twice : TasksArtifact
twice = record {
  phases =
      record {
        id = "Phase1";
        name = "Setup";
        purpose = "";
        tasks = task "T001" ("T001" ∷ []) ∷ task "T001" [] ∷ [];
        checkpoint = none;
      }
      ∷ [];
}

abbrev has_passed : Option ValidationCheckResult → Bool
has_passed none = false
has_passed (some r) = r.passed

twice_passes : has_passed (check_execution_feasibility twice) ≡ true
unfolding runs
twice_passes = refl

-- As many strokes, and then a text.
line : ℕ → String → String
line zero s = s
line (suc n) s = strokes "|" (line n s)

abbrev label : ℕ → ℕ → String
label p t = line p (strokes "T" (line t ""))

abbrev relabelled : PlannedTask
relabelled = record (task "T002" ("T001" ∷ "T009" ∷ [])) {
  id = label 1 2;
  dependencies = label 1 1 ∷ [];
}

one_dropped :
    (normalize_task_ids label plan).1 ≡ record { task_id = label 1 2; invalid_dep = "T009" } ∷ []
unfolding runs
one_dropped = refl
