-- ===== src/TaskGraph/Edges.antt =====
-- The graph of `dependents`, on which `would_create_cycle` walks: its edges and its paths.
use claude_pilot.Base.{String, ◌≡◌, true, List, contains, string_eq}
use claude_pilot.TaskGraph.{TaskNode, dependents_of}

-- The first task must complete before the second.
abbrev pub Edge : List (String × TaskNode) → String → String → Type 0
Edge nodes x y = contains (dependents_of nodes x) y ≡ true

pub data Reach (nodes : List (String × TaskNode)) : String → String → Type 0 where
  here : {x : String} → Reach nodes x x
  next : {x y z : String} → Edge nodes x y → Reach nodes y z → Reach nodes x z

pub Reach-snoc :
    {nodes : List (String × TaskNode)} {x y z : String}
    → Reach nodes x y
    → Edge nodes y z
    → Reach nodes x z
Reach-snoc here e = next e here
Reach-snoc (next d r) e = next d (Reach-snoc r e)

pub Reach-trans :
    {nodes : List (String × TaskNode)} {x y z : String}
    → Reach nodes x y
    → Reach nodes y z
    → Reach nodes x z
Reach-trans here q = q
Reach-trans (next d r) q = next d (Reach-trans r q)

-- A set that edges do not leave holds all that is reached from it.
pub Reach-contains :
    {nodes : List (String × TaskNode)} {x y : String} (w : List String)
    → ((a b : String) → contains w a ≡ true → Edge nodes a b → contains w b ≡ true)
    → Reach nodes x y
    → contains w x ≡ true
    → contains w y ≡ true
Reach-contains w closed here h = h
Reach-contains w closed (next {x = a} {y = b} d r) h = Reach-contains w closed r (closed a b h d)

-- No path of one or more edges comes back to where it began.
abbrev pub IsAcyclic : List (String × TaskNode) → Type 0
IsAcyclic nodes = (x y : String) → Edge nodes x y → ¬ Reach nodes y x
