-- ===== src/Planning/Graph.antt =====
-- src/planning/graph.rs: the search for a cycle among dependencies. The fuel bounds the depth of the
-- calls; no result is that it did not suffice.
use claude_pilot.Base.{
  ℕ, zero, suc, String, Bool, true, false, Option, none, some, List, [], ◌∷◌, ◌++◌, string_eq,
  list_eq, nat_eq, contains, set_insert, set_remove, length, if◌then◌else◌,
}
use claude_pilot.Base.Assoc.{lookup, keys}

-- The dependencies of each task.
abbrev pub Dependencies : Type 0
Dependencies = List (String × List String)

pub record Search : Type 0 where
  pub visited : List String
  pub rec_stack : List String
  pub path : List String

abbrev or_nothing : Option (List String) → List String
or_nothing none = []
or_nothing (some ds) = ds

unfoldable pub deps_of : Dependencies → String → List String
deps_of graph node = or_nothing (lookup node graph)

-- `Vec::pop`
unfoldable pub pop : List String → List String
pop [] = []
pop (x ∷ []) = []
pop (x ∷ y ∷ xs) = x ∷ pop (y ∷ xs)

unfoldable pub enter : String → Search → Search
enter node s = record {
  visited = set_insert node s.visited;
  rec_stack = set_insert node s.rec_stack;
  path = s.path ++ node ∷ [];
}

unfoldable pub leave : String → Search → Search
leave node s = record s { rec_stack = set_remove node s.rec_stack; path = pop s.path }

-- The search goes on where no cycle was found.
abbrev pub unless_found :
    Option (Bool × Search) → (Search → Option (Bool × Search)) → Option (Bool × Search)
unless_found none rest = none
unless_found (some (true, s)) rest = some (true, s)
unless_found (some (false, s)) rest = rest s

unfoldable pub visit_all :
    (String → Search → Option (Bool × Search)) → List String → Search → Option (Bool × Search)
visit_all visit [] s = some (false, s)
visit_all visit (node ∷ nodes) s = unless_found (visit node s) (visit_all visit nodes)

unfoldable pub dfs_cycle : ℕ → Dependencies → String → Search → Option (Bool × Search)
dfs_cycle zero graph node s = none
dfs_cycle (suc fuel) graph node s =
    let below = dfs_cycle fuel graph in
    if contains s.rec_stack node
    then some (true, record s { path = s.path ++ node ∷ [] })
    else if contains s.visited node
    then some (false, s)
    else unless_found (visit_all below (deps_of graph node) (enter node s))
        (λ t. some (false, leave node t))

abbrev pub new_search : Search
new_search = record { visited = []; rec_stack = []; path = [] }

abbrev pub path_found : Option (Bool × Search) → Option (Option (List String))
path_found none = none
path_found (some (true, s)) = some (some s.path)
path_found (some (false, s)) = some none

unfoldable pub detect_cycle : Dependencies → Option (Option (List String))
detect_cycle graph =
    path_found (visit_all (dfs_cycle (suc (length graph)) graph) (keys graph) new_search)
