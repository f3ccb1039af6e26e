-- ===== src/Planning/Renamed.antt =====
-- src/planning/artifacts.rs and src/planning/validation/rules.rs: what the renaming of the tasks of a plan
-- makes sure of, and when a plan can be executed.
use claude_pilot.Base.{
  ℕ, suc, String, ◌≡◌, refl, sym, ap, ◌∙◌, inl, inr, Bool, true, some, List, [], ◌∷◌, ◌++◌, map,
  arith, ◌==◌, string_eq, list_eq, nat_eq, eq_refl, all-append, all-weaken, all, Bool-cases,
  and_left, and_right, and_intro, Option-cases,
}
use mathlib.Core.List.{map-append}
use claude_pilot.Base.Assoc.{lookup, insert, lookup-insert}
use claude_pilot.Planning.Tasks.{
  PlannedTask, TaskPhase, tasks_of, IdMap, rename_tasks, map_tasks, rename_phases, map_phases,
  valid_deps, keep_valid, keep_valid_phases, has_task,
}

abbrev pub names : List PlannedTask → List String
names ts = map (λ (t : PlannedTask). t.id) ts

-- Every dependency of the second tasks is one of the first.
abbrev pub all_known : List PlannedTask → List PlannedTask → Bool
all_known ts us = all (λ (u : PlannedTask). all (has_task ts) u.dependencies) us

-- Each of the tasks is one of them.
pub all_named : (ts : List PlannedTask) → all (λ (t : PlannedTask). has_task ts t.id) ts ≡ true
all_named [] = refl
all_named (t ∷ ts) = and_intro _ _ (ground (arith, eq_refl t.id)) (
    all-weaken (λ (u : PlannedTask). has_task ts u.id) (λ (u : PlannedTask). has_task (t ∷ ts) u.id)
      ts (λ u h. ground (arith, h)) (all_named ts))

-- The new identifiers are those of these tasks.
abbrev pub Known : IdMap → List PlannedTask → Type 0
Known m ts = (d new : String) → lookup d m ≡ some new → has_task ts new ≡ true

insert-Known :
    (old new : String) (m : IdMap) (ts : List PlannedTask)
    → Known m ts
    → has_task ts new ≡ true
    → Known (insert old new m) ts
insert-Known old new m ts known h d x found = elim (Bool-cases (old == d)) [
  | inl same ↦ ground (arith, lookup-insert d old new m, same, found, h)
  | inr other ↦ known d x (ground (arith, lookup-insert d old new m, other, found))
]

valid_deps-Known :
    (m : IdMap) (ts : List PlannedTask) (ds : List String)
    → Known m ts
    → all (has_task ts) (valid_deps m ds) ≡ true
unfolding valid_deps
valid_deps-Known m ts [] known = refl
valid_deps-Known m ts (d ∷ ds) known = elim (Option-cases (lookup d m)) [
  | inl e ↦ rw (e, valid_deps) (valid_deps-Known m ts ds known)
  | inr (new, e) ↦
      rw (e, valid_deps) (and_intro _ _ (known d new e) (valid_deps-Known m ts ds known))
]

module _ (label : ℕ → ℕ → String) (ts : List PlannedTask) where
  map_tasks-Known :
      (p t : ℕ) (xs : List PlannedTask) (m : IdMap)
      → Known m ts
      → all (λ (x : PlannedTask). has_task ts x.id) (rename_tasks label p t xs) ≡ true
      → Known (map_tasks label p t xs m) ts
  unfolding map_tasks rename_tasks
  map_tasks-Known p t [] m known h = known
  map_tasks-Known p t (x ∷ xs) m known h =
      map_tasks-Known p (suc t) xs (insert x.id (label p t) m)
        (insert-Known x.id (label p t) m ts known (and_left _ _ h)) (and_right _ _ h)

  pub map_phases-Known :
      (p : ℕ) (xs : List TaskPhase) (m : IdMap)
      → Known m ts
      → all (λ (x : PlannedTask). has_task ts x.id) (tasks_of (rename_phases label p xs)) ≡ true
      → Known (map_phases label p xs m) ts
  unfolding map_phases rename_phases tasks_of
  map_phases-Known p [] m known h = known
  map_phases-Known p (x ∷ xs) m known h =
      let named = λ (x : PlannedTask). has_task ts x.id in
      let both =
        sym (
          all-append named (rename_tasks label p 1 x.tasks)
            (tasks_of (rename_phases label (suc p) xs)))
        ∙ h in
      map_phases-Known (suc p) xs (map_tasks label p 1 x.tasks m)
        (map_tasks-Known p 1 x.tasks m known (and_left _ _ both)) (and_right _ _ both)

-- To keep the valid dependencies renames nothing.
has_task-keep_valid :
    (m : IdMap) (d : String) (ts : List PlannedTask)
    → has_task (map (keep_valid m) ts) d ≡ has_task ts d
has_task-keep_valid m d [] = refl
has_task-keep_valid m d (t ∷ ts) = ground (arith, has_task-keep_valid m d ts)

pub tasks_of-keep_valid :
    (m : IdMap) (ps : List TaskPhase)
    → tasks_of (keep_valid_phases m ps) ≡ map (keep_valid m) (tasks_of ps)
unfolding tasks_of keep_valid_phases
tasks_of-keep_valid m [] = refl
tasks_of-keep_valid m (p ∷ ps) =
    ap (λ ts. map (keep_valid m) p.tasks ++ ts) (tasks_of-keep_valid m ps)
    ∙ sym (map-append (keep_valid m) p.tasks (tasks_of ps))

pub all_known-keep_valid :
    (m : IdMap) (ts us : List PlannedTask)
    → Known m ts
    → all_known (map (keep_valid m) ts) (map (keep_valid m) us) ≡ true
all_known-keep_valid m ts [] known = refl
all_known-keep_valid m ts (u ∷ us) known =
    and_intro _ _
      (all-weaken (has_task ts) (has_task (map (keep_valid m) ts)) (valid_deps m u.dependencies)
        (λ d h. has_task-keep_valid m d ts ∙ h) (valid_deps-Known m ts u.dependencies known))
      (all_known-keep_valid m ts us known)

pub names-keep_valid :
    (m : IdMap) (ts : List PlannedTask) → names (map (keep_valid m) ts) ≡ names ts
names-keep_valid m [] = refl
names-keep_valid m (t ∷ ts) = ap (λ xs. t.id ∷ xs) (names-keep_valid m ts)

pub empty-Known : (ts : List PlannedTask) → Known [] ts
unfolding lookup
empty-Known ts d new found = cc
