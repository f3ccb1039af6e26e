-- ===== src/Planning/Fuel.antt =====
-- src/planning/graph.rs: the tasks that a search has still to enter, by which its depth is bounded.
use claude_pilot.Base.{
  ℕ, ◌+◌, ◌≤◌, ◌<◌, String, ◌≡◌, ap, inl, inr, true, false, List, [], ◌∷◌, arith, ◌==◌, string_eq,
  list_eq, nat_eq, ==_iff, contains, contains-set_insert, set_insert, length, is_some,
  if◌then◌else◌, Bool-cases,
}
use claude_pilot.Base.Assoc.{lookup}
use claude_pilot.Planning.Graph.{Dependencies}

-- The tasks with dependencies that were not visited.
pub open_keys : Dependencies → List String → ℕ
open_keys [] visited = 0
open_keys ((k, ds) ∷ graph) visited =
    (if contains visited k then 0 else 1) + open_keys graph visited

abbrev pub Grows : List String → List String → Type 0
Grows xs ys = (x : String) → contains xs x ≡ true → contains ys x ≡ true

pub open_keys-Grows :
    (graph : Dependencies) (xs ys : List String)
    → Grows xs ys
    → open_keys graph ys ≤ open_keys graph xs
unfolding open_keys
open_keys-Grows [] xs ys more = omega arith
open_keys-Grows ((k, ds) ∷ graph) xs ys more =
    ground (arith, more k, open_keys-Grows graph xs ys more)

pub Grows-set_insert : (node : String) (xs : List String) → Grows xs (set_insert node xs)
Grows-set_insert node xs x h = ground (arith, h, contains-set_insert node x xs)

pub open_keys-enter :
    (graph : Dependencies) (node : String) (visited : List String)
    → is_some (lookup node graph) ≡ true
    → contains visited node ≡ false
    → open_keys graph (set_insert node visited) < open_keys graph visited
unfolding open_keys lookup
open_keys-enter [] node visited known fresh = cc
open_keys-enter ((k, ds) ∷ graph) node visited known fresh = elim (Bool-cases (k == node)) [
  | inl same ↦
      let e : k ≡ node = (==_iff k node).0 same in
      ground (
        arith,
        same,
        fresh,
        ap (contains visited) e,
        contains-set_insert node k visited,
        open_keys-Grows graph visited (set_insert node visited) (Grows-set_insert node visited),
      )
  | inr other ↦ ground (
    arith,
    other,
    contains-set_insert node k visited,
    open_keys-enter graph node visited (ground (arith, known, other)) fresh,
  )
]

pub open_keys-length : (g : Dependencies) → open_keys g [] ≤ length g
unfolding open_keys
open_keys-length [] = omega arith
open_keys-length ((k, ds) ∷ g) = ground (arith, open_keys-length g)
