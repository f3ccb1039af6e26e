-- ===== src/Planning/Normal.antt =====
-- src/planning/artifacts.rs and src/planning/validation/rules.rs: the tasks of a plan after the renaming,
-- and when a plan can be executed.
use claude_pilot.Base.{ℕ, String, List, [], ◌∷◌, ◌++◌, map, string_eq, list_eq, nat_eq, keep, not}
use claude_pilot.Planning.Tasks.{
  DroppedDependency, has_task, PlannedTask, TaskPhase, tasks_of, IdMap, rename_phases, map_phases,
}

-- The dependencies of the first tasks that no task of the plan has the name of, each with the new name of
-- the task that lists it.
abbrev pub unknown_deps :
    List PlannedTask → List PlannedTask → List PlannedTask → List DroppedDependency
unknown_deps all_tasks [] us = []
unknown_deps all_tasks (t ∷ ts) [] = []
unknown_deps all_tasks (t ∷ ts) (u ∷ us) =
    map (λ (d : String). record { task_id = u.id; invalid_dep = d })
      (keep (λ d. not (has_task all_tasks d)) t.dependencies)
    ++ unknown_deps all_tasks ts us

module _ (label : ℕ → ℕ → String) (ps : List TaskPhase) where
  abbrev ids_of : IdMap
  ids_of = map_phases label 1 ps []

  abbrev renamed : List PlannedTask
  renamed = tasks_of (rename_phases label 1 ps)
