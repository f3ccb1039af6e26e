-- ===== src/Planning/Places.antt =====
-- src/planning/artifacts.rs: the renaming of the tasks of a plan, place by place.
use claude_pilot.Base.{
  ℕ, zero, suc, String, ◌≡◌, refl, ap, ◌∙◌, Bool, false, ◌&&◌, ◌||◌, Option, none, some, List, [],
  ◌∷◌, ◌++◌, arith, ◌==◌, string_eq, list_eq, nat_eq, is_some,
}
use claude_pilot.Base.Assoc.{lookup, insert, lookup-insert}
use claude_pilot.Planning.Tasks.{
  PlannedTask, TaskPhase, tasks_of, IdMap, rename_tasks, map_tasks, rename_phases, map_phases,
  has_task,
}
use claude_pilot.Planning.Renamed.{names}

-- The task at a place, counted from 0.
unfoldable pub task_at : ℕ → List PlannedTask → Option PlannedTask
task_at i [] = none
task_at zero (t ∷ ts) = some t
task_at (suc i) (t ∷ ts) = task_at i ts

-- These tasks under these names, as far as both go.
unfoldable pub relabel : List PlannedTask → List String → List PlannedTask
relabel [] ns = []
relabel (t ∷ ts) [] = []
relabel (t ∷ ts) (n ∷ ns) = record t { id = n } ∷ relabel ts ns

-- One of the places has the first name in the first list and the second in the second.
unfoldable pub is_paired : List String → List String → String → String → Bool
is_paired [] ys a b = false
is_paired (x ∷ xs) [] a b = false
is_paired (x ∷ xs) (y ∷ ys) a b = (x == a && y == b) || is_paired xs ys a b

unfoldable pub insert_all : List String → List String → IdMap → IdMap
insert_all [] ys m = m
insert_all (x ∷ xs) [] m = m
insert_all (x ∷ xs) (y ∷ ys) m = insert_all xs ys (insert x y m)

module _ (label : ℕ → ℕ → String) where
  relabel-rename_tasks :
      (p t : ℕ) (xs ts us : List PlannedTask)
      → us ≡ relabel ts (names us)
      → rename_tasks label p t xs ++ us
        ≡ relabel (xs ++ ts) (names (rename_tasks label p t xs ++ us))
  unfolding rename_tasks relabel
  relabel-rename_tasks p t [] ts us h = h
  relabel-rename_tasks p t (x ∷ xs) ts us h =
      ap (λ vs. record x { id = label p t } ∷ vs) (relabel-rename_tasks p (suc t) xs ts us h)

  pub relabel-rename_phases :
      (p : ℕ) (ps : List TaskPhase)
      → tasks_of (rename_phases label p ps)
        ≡ relabel (tasks_of ps) (names (tasks_of (rename_phases label p ps)))
  unfolding rename_phases tasks_of relabel
  relabel-rename_phases p [] = refl
  relabel-rename_phases p (x ∷ xs) =
      relabel-rename_tasks p 1 x.tasks (tasks_of xs) (tasks_of (rename_phases label (suc p) xs))
        (relabel-rename_phases (suc p) xs)

  insert_all-map_tasks :
      (p t : ℕ) (xs ts us : List PlannedTask) (m : IdMap)
      → insert_all (names (xs ++ ts)) (names (rename_tasks label p t xs ++ us)) m
        ≡ insert_all (names ts) (names us) (map_tasks label p t xs m)
  unfolding rename_tasks map_tasks insert_all
  insert_all-map_tasks p t [] ts us m = refl
  insert_all-map_tasks p t (x ∷ xs) ts us m =
      insert_all-map_tasks p (suc t) xs ts us (insert x.id (label p t) m)

  pub insert_all-map_phases :
      (p : ℕ) (ps : List TaskPhase) (m : IdMap)
      → insert_all (names (tasks_of ps)) (names (tasks_of (rename_phases label p ps))) m
        ≡ map_phases label p ps m
  unfolding rename_phases tasks_of map_phases insert_all
  insert_all-map_phases p [] m = refl
  insert_all-map_phases p (x ∷ xs) m =
      insert_all-map_tasks p 1 x.tasks (tasks_of xs) (tasks_of (rename_phases label (suc p) xs)) m
      ∙ insert_all-map_phases (suc p) xs (map_tasks label p 1 x.tasks m)

  known-map_tasks :
      (p t : ℕ) (xs : List PlannedTask) (m : IdMap) (d : String)
      → is_some (lookup d (map_tasks label p t xs m)) ≡ (has_task xs d || is_some (lookup d m))
  unfolding map_tasks
  known-map_tasks p t [] m d = refl
  known-map_tasks p t (x ∷ xs) m d =
      known-map_tasks p (suc t) xs (insert x.id (label p t) m) d
      ∙ ground (arith, lookup-insert d x.id (label p t) m)

  has_task-append :
      (xs ys : List PlannedTask) (d : String)
      → has_task (xs ++ ys) d ≡ (has_task xs d || has_task ys d)
  has_task-append [] ys d = refl
  has_task-append (x ∷ xs) ys d = ground (arith, has_task-append xs ys d)

  pub known-map_phases :
      (p : ℕ) (ps : List TaskPhase) (m : IdMap) (d : String)
      → is_some (lookup d (map_phases label p ps m))
        ≡ (has_task (tasks_of ps) d || is_some (lookup d m))
  unfolding map_phases tasks_of
  known-map_phases p [] m d = refl
  known-map_phases p (x ∷ xs) m d =
      known-map_phases (suc p) xs (map_tasks label p 1 x.tasks m) d
      ∙ ground (arith, known-map_tasks p 1 x.tasks m d, has_task-append x.tasks (tasks_of xs) d)
