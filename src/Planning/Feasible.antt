-- ===== src/Planning/Feasible.antt =====
-- src/planning/validation/rules.rs: the check that a plan can be executed passes exactly the plans that
-- can.
use claude_pilot.Base.{
  String, ◌≡◌, refl, sym, ap, ◌∙◌, ◌↔◌, true, ◌&&◌, Option, none, some, List, [], ◌∷◌, arith,
  string_eq, list_eq, nat_eq, is_empty-append, all, is_empty, any, Bool, contains, nodup, ◌==◌,
  ==_iff, if◌then◌else◌, Bool-cases, inl, inr, false, subst, and_right,
}
use claude_pilot.Base.Assoc.{lookup, insert, lookup-insert}
use claude_pilot.Planning.Graph.{detect_cycle, Dependencies, deps_of}
use claude_pilot.Planning.Walks.{Leads, step, next}
use claude_pilot.Planning.Cycle.{Detected, detect_cycle_lem}
use claude_pilot.Planning.Tasks.{
  PlannedTask, TasksArtifact, tasks_of, to_dependency_map, ValidationCheckResult, has_task,
  missing_of, all_missing, collect_dependencies, of_cycle, feasibility_of, with_cycle,
  check_execution_feasibility,
}
use claude_pilot.Planning.Renamed.{all_known, names}

is_empty-missing_of :
    (ts : List PlannedTask) (t : PlannedTask) (ds : List String)
    → is_empty (missing_of ts t ds) ≡ all (has_task ts) ds
unfolding missing_of
is_empty-missing_of ts t [] = refl
is_empty-missing_of ts t (d ∷ ds) = ground (arith, is_empty-missing_of ts t ds)

is_empty-all_missing : (ts us : List PlannedTask) → is_empty (all_missing ts us) ≡ all_known ts us
unfolding all_missing
is_empty-all_missing ts [] = refl
is_empty-all_missing ts (u ∷ us) =
    is_empty-append (missing_of ts u u.dependencies) (all_missing ts us)
    ∙ ground (arith, is_empty-missing_of ts u u.dependencies, is_empty-all_missing ts us)

-- A task with the first identifier lists the second.
abbrev pub lists_dep : List PlannedTask → String → String → Bool
lists_dep ts x y = any (λ (t : PlannedTask). t.id == x && contains t.dependencies y) ts

-- A task with the first identifier depends on the second, through any number of others.
pub data DependsOn (ts : List PlannedTask) : String → String → Type 0 where
  directly : {x y : String} → lists_dep ts x y ≡ true → DependsOn ts x y
  through : {x y z : String} → lists_dep ts x y ≡ true → DependsOn ts y z → DependsOn ts x z

lists_dep-absent :
    (ts : List PlannedTask) (x y : String)
    → contains (names ts) x ≡ false
    → lists_dep ts x y ≡ false
lists_dep-absent [] x y h = refl
lists_dep-absent (t ∷ ts) x y h =
    ground (arith, h, ==_iff x t.id, ==_iff t.id x, lists_dep-absent ts x y)

collect_dependencies-lists :
    (ts : List PlannedTask) (m : Dependencies) (x y : String)
    → nodup (names ts) ≡ true
    → contains (deps_of (collect_dependencies ts m) x) y
      ≡ (if contains (names ts) x then lists_dep ts x y else contains (deps_of m x) y)
unfolding collect_dependencies deps_of
collect_dependencies-lists [] m x y once = refl
collect_dependencies-lists (t ∷ ts) m x y once =
    collect_dependencies-lists ts (insert t.id t.dependencies m) x y (and_right _ _ once)
    ∙ elim (Bool-cases (t.id == x)) [
      | inl same ↦
          let e : t.id ≡ x = (==_iff t.id x).0 same in
          let absent : contains (names ts) x ≡ false =
            subst (λ z. contains (names ts) z ≡ false) e (ground (arith, once)) in
          ground (
            arith,
            same,
            absent,
            lists_dep-absent ts x y absent,
            lookup-insert x t.id t.dependencies m,
            ==_iff x t.id,
            sym e,
          )
      | inr other ↦
          ground (arith, other, lookup-insert x t.id t.dependencies m, ==_iff x t.id, ==_iff t.id x)
    ]

module _ (a : TasksArtifact) (once : nodup (names (tasks_of a.phases)) ≡ true) where
  abbrev planned : List PlannedTask
  planned = tasks_of a.phases

  edges : (x y : String) → contains (deps_of (to_dependency_map a) x) y ≡ lists_dep planned x y
  unfolding to_dependency_map deps_of lookup
  edges x y =
      collect_dependencies-lists planned [] x y once
      ∙ elim (Bool-cases (contains (names planned) x)) [
        | inl there ↦ ground (arith, there)
        | inr absent ↦ ground (arith, absent, lists_dep-absent planned x y absent)
      ]

  DependsOn-Leads : {x y : String} → DependsOn planned x y → Leads (to_dependency_map a) x y
  DependsOn-Leads (directly e) = step (edges _ _ ∙ e)
  DependsOn-Leads (through e w) = next (edges _ _ ∙ e) (DependsOn-Leads w)

  Leads-DependsOn : {x y : String} → Leads (to_dependency_map a) x y → DependsOn planned x y
  Leads-DependsOn (step e) = directly (sym (edges _ _) ∙ e)
  Leads-DependsOn (next e w) = through (sym (edges _ _) ∙ e) (Leads-DependsOn w)

-- No edges of the map lead from a task to itself, and every dependency is a task of the plan.
abbrev CanRun : TasksArtifact → Type 0
CanRun a =
    ((x : String) → ¬ Leads (to_dependency_map a) x x)
    × (all_known (tasks_of a.phases) (tasks_of a.phases) ≡ true)

feasibility_of-passed :
    (a : TasksArtifact) (cycle : Option (List String))
    → (feasibility_of a cycle).passed
      ≡ (is_empty (of_cycle cycle) && all_known (tasks_of a.phases) (tasks_of a.phases))
unfolding feasibility_of
feasibility_of-passed a cycle =
    is_empty-append (of_cycle cycle) (all_missing (tasks_of a.phases) (tasks_of a.phases))
    ∙ ap (λ b. is_empty (of_cycle cycle) && b)
        (is_empty-all_missing (tasks_of a.phases) (tasks_of a.phases))

feasible :
    (a : TasksArtifact) (o : Option (Option (List String)))
    → Detected (to_dependency_map a) o
    → (r : ValidationCheckResult) × (with_cycle a o ≡ some r) × ((r.passed ≡ true) ↔ CanRun a)
feasible a none never = cc
feasible a (some none) none_leads = (
  feasibility_of a none,
  refl,
  (
    (λ passed. (none_leads, sym (feasibility_of-passed a none) ∙ passed)),
    (λ can. feasibility_of-passed a none ∙ can.1),
  ),
)
feasible a (some (some path)) (xs, z, shape, walk, back, loop) = (
  feasibility_of a (some path),
  refl,
  (
    (λ passed. let never = sym (feasibility_of-passed a (some path)) ∙ passed in cc),
    (λ can. elim (can.0 z loop) [ ]),
  ),
)

-- Where no two tasks of a plan have one identifier, the check always answers, and it passes exactly when
-- no task depends on itself, through any number of others, and every dependency is a task of the plan.
pub check_execution_feasibility_iff :
    (a : TasksArtifact)
    → nodup (names (tasks_of a.phases)) ≡ true
    → (r : ValidationCheckResult) × (check_execution_feasibility a ≡ some r)
      × ((r.passed ≡ true) ↔ (
          ((x : String) → ¬ DependsOn (tasks_of a.phases) x x)
          × (all_known (tasks_of a.phases) (tasks_of a.phases) ≡ true)))
unfolding check_execution_feasibility
check_execution_feasibility_iff a once =
    let found =
      feasible a (detect_cycle (to_dependency_map a)) (detect_cycle_lem (to_dependency_map a)) in
    (
      found.0,
      found.1,
      (
        (λ passed.
            let can = found.2.0 passed in ((λ x w. can.0 x (DependsOn-Leads a once w)), can.1)),
        (λ can. found.2.1 ((λ x w. can.0 x (Leads-DependsOn a once w)), can.1)),
      ),
    )
