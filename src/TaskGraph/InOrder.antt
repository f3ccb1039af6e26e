-- ===== src/TaskGraph/InOrder.antt =====
-- Tasks begin in order over every sequence of calls.
use claude_pilot.Base.{
  String, ◌≡◌, ◌⊎◌, inl, inr, false, some, List, [], ◌∷◌, string_eq, Option-cases, ◌==◌,
  if◌then◌else◌, arith,
}
use claude_pilot.Base.Assoc.{lookup, adjust, lookup-adjust}
use claude_pilot.TaskGraph.{
  TaskNode, TaskDag, TaskDependency, add_dependency, add_dependent, add_prerequisite,
}
use claude_pilot.TaskGraph.Calls.{
  Call, adds, links, refreshes, starts, completes, fails, retries, after, step,
}
use claude_pilot.TaskGraph.Lookup.{on_node}
use claude_pilot.TaskGraph.Order.{
  has_begun, IsOrdered, add_task-IsOrdered, refresh-IsOrdered, start_task-IsOrdered,
  complete_task-IsOrdered, fail_task-IsOrdered, retry_task-IsOrdered,
}

-- A new prerequisite is given only to a task that has not begun.
abbrev pub LinksEarly : TaskDag → Call → Type 0
LinksEarly g (links d) =
    (n : TaskNode) → lookup d.dependent g.nodes ≡ some n → has_begun n.status ≡ false
LinksEarly g (adds info) = Unit {0}
LinksEarly g refreshes = Unit {0}
LinksEarly g (starts id agent) = Unit {0}
LinksEarly g (completes id r) = Unit {0}
LinksEarly g (fails id error) = Unit {0}
LinksEarly g (retries id) = Unit {0}

linked : TaskDag → TaskDependency → TaskDag
linked g d = record g {
  nodes =
      adjust d.dependent (add_prerequisite d.prerequisite)
        (adjust d.prerequisite (add_dependent d.dependent) g.nodes);
}

-- The two writes of `add_dependency`, read back.
outer :
    (g : TaskDag) (d : TaskDependency) (x : String)
    → lookup x (linked g d).nodes ≡ (
        if d.dependent == x
        then on_node
            (add_prerequisite d.prerequisite)
            (lookup x (adjust d.prerequisite (add_dependent d.dependent) g.nodes))
        else lookup x (adjust d.prerequisite (add_dependent d.dependent) g.nodes))
unfolding linked
outer g d x = ground (
  arith,
  lookup-adjust x d.dependent (add_prerequisite d.prerequisite)
      (adjust d.prerequisite (add_dependent d.dependent) g.nodes),
)

inner :
    (g : TaskDag) (d : TaskDependency) (x : String)
    → lookup x (adjust d.prerequisite (add_dependent d.dependent) g.nodes) ≡ (
        if d.prerequisite == x
        then on_node (add_dependent d.dependent) (lookup x g.nodes)
        else lookup x g.nodes)
inner g d x = ground (arith, lookup-adjust x d.prerequisite (add_dependent d.dependent) g.nodes)

linked-IsOrdered :
    (g : TaskDag) (d : TaskDependency)
    → LinksEarly g (links d)
    → IsOrdered g
    → IsOrdered (linked g d)
unfolding linked
linked-IsOrdered g d early o = record {
  begun = λ x n e l b i. elim (Option-cases (lookup x g.nodes)) [
    | inl none_there ↦ ground (arith, outer g d x, inner g d x)
    | inr (m, there) ↦ ground (arith, outer g d x, inner g d x, o.begun x m e, early m)
  ];
  recorded = λ x n l c. elim (Option-cases (lookup x g.nodes)) [
    | inl none_there ↦ ground (arith, outer g d x, inner g d x)
    | inr (m, there) ↦ ground (arith, outer g d x, inner g d x, o.recorded x m)
  ];
}

add_dependency_cases :
    (g : TaskDag) (d : TaskDependency)
    → (after g (add_dependency g d) ≡ g) ⊎ (after g (add_dependency g d) ≡ linked g d)
unfolding add_dependency linked
add_dependency_cases g d = ground arith

-- Every call keeps the order, if new prerequisites are given only to tasks that have not begun.
pub step-IsOrdered : (g : TaskDag) (c : Call) → LinksEarly g c → IsOrdered g → IsOrdered (step g c)
unfolding step
step-IsOrdered g (adds info) early o = add_task-IsOrdered g info o
step-IsOrdered g (links d) early o = elim (add_dependency_cases g d) [
  | inl e ↦ rw e o
  | inr e ↦ rw e (linked-IsOrdered g d early o)
]
step-IsOrdered g refreshes early o = refresh-IsOrdered g o
step-IsOrdered g (starts id agent) early o = start_task-IsOrdered g id agent o
step-IsOrdered g (completes id r) early o = complete_task-IsOrdered g id r o
step-IsOrdered g (fails id error) early o = fail_task-IsOrdered g id error o
step-IsOrdered g (retries id) early o = retry_task-IsOrdered g id o

-- Each call of the list is early when its turn comes.
abbrev pub AllEarly : TaskDag → List Call → Type 0
AllEarly g [] = Unit {0}
AllEarly g (c ∷ cs) = LinksEarly g c × AllEarly (step g c) cs
