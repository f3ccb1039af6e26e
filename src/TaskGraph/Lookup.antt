-- ===== src/TaskGraph/Lookup.antt =====
-- What the methods leave at each task: every write of the graph, read back by `lookup`.
use claude_pilot.Base.{
  String, ◌≡◌, refl, Option, none, some, List, [], ◌∷◌, contains, string_eq, if◌then◌else◌,
  Option-cases, inl, inr, arith,
}
use claude_pilot.Base.Assoc.{lookup, adjust, lookup-adjust}
use claude_pilot.TaskGraph.{
  TaskNode, refresh_nodes, refresh_node, block_all, block_node, is_pending,
}

abbrev pub on_node : (TaskNode → TaskNode) → Option TaskNode → Option TaskNode
on_node f none = none
on_node f (some n) = some (f n)

pub lookup-refresh_nodes :
    (done : List String) (m : List (String × TaskNode)) (x : String)
    → lookup x (refresh_nodes done m) ≡ on_node (refresh_node done) (lookup x m)
unfolding lookup refresh_nodes
lookup-refresh_nodes done [] x = refl
lookup-refresh_nodes done ((id, n) ∷ m) x = ground (arith, lookup-refresh_nodes done m x)

block_node_twice : (n : TaskNode) → block_node (block_node n) ≡ block_node n
unfolding block_node is_pending
block_node_twice n = ground arith

pub lookup-block_all :
    (ds : List String) (m : List (String × TaskNode)) (x : String)
    → lookup x (block_all ds m)
      ≡ (if contains ds x then on_node block_node (lookup x m) else lookup x m)
unfolding block_all
lookup-block_all [] m x = refl
lookup-block_all (d ∷ ds) m x = elim (Option-cases (lookup x m)) [
  | inl e ↦
      ground (arith, lookup-block_all ds (adjust d block_node m) x, lookup-adjust x d block_node m)
  | inr (n, e) ↦ ground (
    arith,
    lookup-block_all ds (adjust d block_node m) x,
    lookup-adjust x d block_node m,
    block_node_twice n,
  )
]
