-- ===== src/TaskGraph/Acyclic.antt =====
-- No sequence of calls closes a cycle of dependencies.
use mathlib.Core.Bool.{false≢true}
use claude_pilot.Base.{
  String, ◌≡◌, refl, sym, subst, ◌∙◌, set_insert, ◌⊎◌, inl, inr, true, false, List, [], ◌∷◌,
  contains, contains-set_insert, string_eq, Option-cases, arith,
}
use claude_pilot.Base.Assoc.{lookup, adjust, lookup-adjust, lookup-insert}
use claude_pilot.TaskGraph.{
  TaskNode, TaskDag, TaskDependency, TaskInfo, DagTaskResult, dependents_of, new, add_task,
  add_dependency, would_create_cycle, refresh_nodes, refresh_node, refresh_ready_status, start_task,
  complete_task, fail_task, retry_task, block_all, block_node, new_node, mark_started,
  mark_completed, mark_failed, mark_retried, add_prerequisite, add_dependent,
}
use claude_pilot.TaskGraph.Calls.{
  Call, adds, links, refreshes, starts, completes, fails, retries, after, step, run,
}
use claude_pilot.TaskGraph.Edges.{Edge, Reach, here, next, Reach-trans, IsAcyclic}
use claude_pilot.TaskGraph.Search.{would_create_cycle_iff}

-- `new` has no edge that `old` has not.
abbrev Shrinks : List (String × TaskNode) → List (String × TaskNode) → Type 0
Shrinks after before = (x y : String) → Edge after x y → Edge before x y

Reach-Shrinks :
    {m m' : List (String × TaskNode)} {x y : String} → Shrinks m' m → Reach m' x y → Reach m x y
Reach-Shrinks s here = here
Reach-Shrinks s (next {x = a} {y = b} d r) = next (s a b d) (Reach-Shrinks s r)

IsAcyclic-Shrinks : {m m' : List (String × TaskNode)} → Shrinks m' m → IsAcyclic m → IsAcyclic m'
IsAcyclic-Shrinks s a x y d r = a x y (s x y d) (Reach-Shrinks s r)

-- Writing other fields of a node leaves the edges.
dependents_of-adjust :
    (id : String) (f : TaskNode → TaskNode) (m : List (String × TaskNode)) (x : String)
    → ((n : TaskNode) → (f n).dependents ≡ n.dependents)
    → dependents_of (adjust id f m) x ≡ dependents_of m x
dependents_of-adjust id f m x same = elim (Option-cases (lookup x m)) [
  | inl e ↦ ground (arith, lookup-adjust x id f m)
  | inr (n, e) ↦ ground (arith, lookup-adjust x id f m, same n)
]

dependents_of-refresh_nodes :
    (done : List String) (m : List (String × TaskNode)) (x : String)
    → dependents_of (refresh_nodes done m) x ≡ dependents_of m x
unfolding refresh_nodes refresh_node lookup
dependents_of-refresh_nodes done [] x = refl
dependents_of-refresh_nodes done ((id, n) ∷ m) x =
    ground (arith, dependents_of-refresh_nodes done m x)

block_node-dependents : (n : TaskNode) → (block_node n).dependents ≡ n.dependents
unfolding block_node
block_node-dependents n = ground arith

dependents_of-block_all :
    (ds : List String) (m : List (String × TaskNode)) (x : String)
    → dependents_of (block_all ds m) x ≡ dependents_of m x
unfolding block_all
dependents_of-block_all [] m x = refl
dependents_of-block_all (d ∷ ds) m x = ground (
  arith,
  dependents_of-block_all ds (adjust d block_node m) x,
  dependents_of-adjust d block_node m x block_node-dependents,
)

Shrinks-eq :
    (m m' : List (String × TaskNode))
    → ((x : String) → dependents_of m' x ≡ dependents_of m x)
    → Shrinks m' m
Shrinks-eq m m' same x y d = subst (λ ds. contains ds y ≡ true) (same x) d

add_task-Shrinks : (g : TaskDag) (info : TaskInfo) → Shrinks (add_task g info).nodes g.nodes
unfolding add_task new_node
add_task-Shrinks g info x y d = ground (arith, lookup-insert x info.id (new_node info) g.nodes)

start_task-Shrinks :
    (g : TaskDag) (id agent : String) → Shrinks (after g (start_task g id agent)).nodes g.nodes
unfolding start_task
start_task-Shrinks g id agent =
    Shrinks-eq _ _
      λ x. ground (arith, dependents_of-adjust id (mark_started agent) g.nodes x (λ n. refl))

refresh-Shrinks : (g : TaskDag) → Shrinks (refresh_ready_status g).nodes g.nodes
unfolding refresh_ready_status
refresh-Shrinks g = Shrinks-eq _ _ (dependents_of-refresh_nodes g.completed_ids g.nodes)

complete_task-Shrinks :
    (g : TaskDag) (id : String) (r : DagTaskResult)
    → Shrinks (after g (complete_task g id r)).nodes g.nodes
unfolding complete_task refresh_ready_status
complete_task-Shrinks g id r = Shrinks-eq _ _ λ x. ground (
  arith,
  dependents_of-refresh_nodes (set_insert id g.completed_ids) (adjust id (mark_completed r) g.nodes)
      x,
  dependents_of-adjust id (mark_completed r) g.nodes x (λ n. refl),
)

fail_task-Shrinks :
    (g : TaskDag) (id error : String) → Shrinks (after g (fail_task g id error)).nodes g.nodes
unfolding fail_task
fail_task-Shrinks g id error = Shrinks-eq _ _ λ x. elim (Option-cases (lookup id g.nodes)) [
  | inl e ↦ rw (e, fail_task) refl
  | inr (n, e) ↦
      rw (e, fail_task)
        (dependents_of-block_all n.dependents (adjust id (mark_failed error) g.nodes) x
          ∙ dependents_of-adjust id (mark_failed error) g.nodes x (λ n. refl))
]

retry_task-Shrinks : (g : TaskDag) (id : String) → Shrinks (after g (retry_task g id)).nodes g.nodes
unfolding retry_task refresh_ready_status
retry_task-Shrinks g id = Shrinks-eq _ _ λ x. ground (
  arith,
  dependents_of-refresh_nodes g.completed_ids (adjust id mark_retried g.nodes) x,
  dependents_of-adjust id mark_retried g.nodes x (λ n. refl),
)

-- The one new edge of `add_dependency`.
linked_nodes : TaskDag → TaskDependency → List (String × TaskNode)
linked_nodes g d =
    adjust d.dependent (add_prerequisite d.prerequisite)
      (adjust d.prerequisite (add_dependent d.dependent) g.nodes)

linked_nodes-Edge :
    (g : TaskDag) (d : TaskDependency) (x y : String)
    → Edge (linked_nodes g d) x y
    → Edge g.nodes x y ⊎ ((x ≡ d.prerequisite) × (y ≡ d.dependent))
unfolding linked_nodes
linked_nodes-Edge g d x y e = elim (Option-cases (lookup x g.nodes)) [
  | inl h ↦ ground (
    arith,
    dependents_of-adjust d.dependent (add_prerequisite d.prerequisite)
        (adjust d.prerequisite (add_dependent d.dependent) g.nodes) x (λ n. refl),
    lookup-adjust x d.prerequisite (add_dependent d.dependent) g.nodes,
  )
  | inr (n, h) ↦ ground (
    arith,
    dependents_of-adjust d.dependent (add_prerequisite d.prerequisite)
        (adjust d.prerequisite (add_dependent d.dependent) g.nodes) x (λ n. refl),
    lookup-adjust x d.prerequisite (add_dependent d.dependent) g.nodes,
    contains-set_insert d.dependent y n.dependents,
  )
]

-- A path of the larger graph is a path of the old one, or goes through the new edge.
Detour : TaskDag → TaskDependency → String → String → Type 0
Detour g d x y = Reach g.nodes x d.prerequisite × Reach g.nodes d.dependent y

Reach-linked_nodes :
    (g : TaskDag) (d : TaskDependency) {x y : String}
    → Reach (linked_nodes g d) x y
    → Reach g.nodes x y ⊎ Detour g d x y
unfolding Detour
Reach-linked_nodes g d here = inl here
Reach-linked_nodes g d (next {x = a} {y = b} {z = c} e r) =
    join (linked_nodes-Edge g d a b e) (Reach-linked_nodes g d r)
  where
    join :
        Edge g.nodes a b ⊎ ((a ≡ d.prerequisite) × (b ≡ d.dependent))
        → Reach g.nodes b c ⊎ Detour g d b c
        → Reach g.nodes a c ⊎ Detour g d a c
    join (inl e) (inl q) = inl (next e q)
    join (inl e) (inr q) = inr (next e q.0, q.1)
    join (inr e) (inl q) = inr (
      subst (λ t. Reach g.nodes t d.prerequisite) (sym e.0) here,
      subst (λ t. Reach g.nodes t c) e.1 q,
    )
    join (inr e) (inr q) = inr (subst (λ t. Reach g.nodes t d.prerequisite) (sym e.0) here, q.1)

linked_nodes-IsAcyclic :
    (g : TaskDag) (d : TaskDependency)
    → ¬ Reach g.nodes d.dependent d.prerequisite
    → IsAcyclic g.nodes
    → IsAcyclic (linked_nodes g d)
unfolding Detour
linked_nodes-IsAcyclic g d open_way a x y e r =
    clash (linked_nodes-Edge g d x y e) (Reach-linked_nodes g d r)
  where
    clash :
        Edge g.nodes x y ⊎ ((x ≡ d.prerequisite) × (y ≡ d.dependent))
        → Reach g.nodes y x ⊎ Detour g d y x
        → ⊥
    clash (inl e) (inl q) = a x y e q
    clash (inl e) (inr q) = open_way (Reach-trans q.1 (next e q.0))
    clash (inr e) (inl q) =
        open_way (subst (λ t. Reach g.nodes t d.prerequisite) e.1 (subst (Reach g.nodes y) e.0 q))
    clash (inr e) (inr q) = open_way (subst (λ t. Reach g.nodes t d.prerequisite) e.1 q.0)

-- A dependency is added only where the search found no path back.
add_dependency_cases :
    (g : TaskDag) (d : TaskDependency)
    → ((after g (add_dependency g d)).nodes ≡ g.nodes)
      ⊎ (((after g (add_dependency g d)).nodes ≡ linked_nodes g d)
          × (would_create_cycle g d.prerequisite d.dependent ≡ false))
unfolding add_dependency linked_nodes
add_dependency_cases g d = ground arith

-- `add_dependency` keeps the graph acyclic, whatever it answers.
add_dependency-IsAcyclic :
    (g : TaskDag) (d : TaskDependency)
    → IsAcyclic g.nodes
    → IsAcyclic (after g (add_dependency g d)).nodes
add_dependency-IsAcyclic g d a = elim (add_dependency_cases g d) [
  | inl e ↦ subst IsAcyclic (sym e) a
  | inr (e, h) ↦ subst IsAcyclic (sym e) (
      linked_nodes-IsAcyclic g d
        (λ r. false≢true (sym h ∙ (would_create_cycle_iff g d.prerequisite d.dependent).1 r)) a)
]

-- Every call keeps the graph acyclic.
pub step-IsAcyclic : (g : TaskDag) (c : Call) → IsAcyclic g.nodes → IsAcyclic (step g c).nodes
unfolding step
step-IsAcyclic g (adds info) a = IsAcyclic-Shrinks (add_task-Shrinks g info) a
step-IsAcyclic g (links d) a = add_dependency-IsAcyclic g d a
step-IsAcyclic g refreshes a = IsAcyclic-Shrinks (refresh-Shrinks g) a
step-IsAcyclic g (starts id agent) a = IsAcyclic-Shrinks (start_task-Shrinks g id agent) a
step-IsAcyclic g (completes id r) a = IsAcyclic-Shrinks (complete_task-Shrinks g id r) a
step-IsAcyclic g (fails id error) a = IsAcyclic-Shrinks (fail_task-Shrinks g id error) a
step-IsAcyclic g (retries id) a = IsAcyclic-Shrinks (retry_task-Shrinks g id) a

run-IsAcyclic : (g : TaskDag) (cs : List Call) → IsAcyclic g.nodes → IsAcyclic (run g cs).nodes
unfolding run
run-IsAcyclic g [] a = a
run-IsAcyclic g (c ∷ cs) a = run-IsAcyclic (step g c) cs (step-IsAcyclic g c a)

new-IsAcyclic : IsAcyclic new.nodes
unfolding new lookup
new-IsAcyclic x y e r = cc

-- After any calls on a new graph, no path of dependents comes back to where it began.
pub run-new-IsAcyclic : (cs : List Call) → IsAcyclic (run new cs).nodes
run-new-IsAcyclic cs = run-IsAcyclic new cs new-IsAcyclic
