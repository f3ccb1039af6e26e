-- ===== src/TaskGraph/Search.antt =====
-- `would_create_cycle`: the walk ends within its fuel, and decides reachability.
use claude_pilot.Base.{
  ℕ, zero, suc, ◌+◌, ◌≤◌, ◌<◌, String, ◌≡◌, refl, ◌∙◌, ap, ◌⊎◌, inl, inr, Bool, true, false, some,
  List, [], ◌∷◌, ◌==◌, ==_iff, subst, string_eq, contains, contains-append, contains-set_insert,
  set_insert, if◌then◌else◌, length, length-append, Bool-cases, arith,
}
use claude_pilot.Base.Assoc.{lookup}
use claude_pilot.TaskGraph.{
  TaskNode, TaskDag, dependents_of, enqueue, search_from, edge_count, would_create_cycle,
}
use claude_pilot.TaskGraph.Edges.{Edge, Reach, here, Reach-snoc, Reach-contains}

-- The edges out of nodes that were not visited.
open_edges : List (String × TaskNode) → List String → ℕ
open_edges [] visited = 0
open_edges ((id, n) ∷ m) visited =
    (if contains visited id then 0 else length n.dependents) + open_edges m visited

set_insert-old : (c : String) (xs : List String) → contains xs c ≡ true → set_insert c xs ≡ xs
unfolding set_insert
set_insert-old c xs h = rw h

open_edges-set_insert-le :
    (m : List (String × TaskNode)) (c : String) (visited : List String)
    → open_edges m (set_insert c visited) ≤ open_edges m visited
unfolding open_edges
open_edges-set_insert-le [] c visited = omega arith
open_edges-set_insert-le ((id, n) ∷ m) c visited =
    ground (arith, contains-set_insert c id visited, open_edges-set_insert-le m c visited)

-- Visiting a node pays for what it pushes.
open_edges-visit :
    (m : List (String × TaskNode)) (c : String) (visited : List String)
    → contains visited c ≡ false
    → open_edges m (set_insert c visited) + length (dependents_of m c) ≤ open_edges m visited
unfolding open_edges lookup
open_edges-visit [] c visited h = omega arith
open_edges-visit ((id, n) ∷ m) c visited h = ground (
  arith,
  contains-set_insert c id visited,
  open_edges-visit m c visited h,
  open_edges-set_insert-le m c visited,
)

enqueue_measure :
    (m : List (String × TaskNode)) (visited queue : List String) (c : String)
    → length (enqueue m visited c queue) + open_edges m (set_insert c visited)
      ≤ length queue + open_edges m visited
unfolding enqueue
enqueue_measure m visited queue c = elim (Bool-cases (contains visited c)) [
  | inl old ↦ rw (old, set_insert-old c visited old) (omega arith)
  | inr fresh ↦
      rw (fresh, length-append queue (dependents_of m c))
        (omega (arith, open_edges-visit m c visited fresh))
]

-- The fuel is enough where it exceeds the queue and the edges still to be pushed.
search_from_total :
    (fuel : ℕ) (m : List (String × TaskNode)) (from : String) (visited queue : List String)
    → length queue + open_edges m visited < fuel
    → (b : Bool) × (search_from fuel m from visited queue ≡ some b)
unfolding search_from
search_from_total zero m from visited queue h = absurd (omega arith)
search_from_total (suc fuel) m from visited [] h = (false, refl)
search_from_total (suc fuel) m from visited (c ∷ queue) h = elim (Bool-cases (c == from)) [
  | inl e ↦ (true, rw e)
  | inr e ↦ rw e (
      search_from_total fuel m from (set_insert c visited) (enqueue m visited c queue)
        (omega (arith, enqueue_measure m visited queue c)))
]

contains-enqueue :
    (m : List (String × TaskNode)) (visited queue : List String) (c x : String)
    → contains (enqueue m visited c queue) x ≡ true
    → (contains queue x ≡ true) ⊎ Edge m c x
unfolding enqueue
contains-enqueue m visited queue c x h = ground (arith, contains-append x queue (dependents_of m c))

contains-enqueue_of_queue :
    (m : List (String × TaskNode)) (visited queue : List String) (c x : String)
    → contains queue x ≡ true
    → contains (enqueue m visited c queue) x ≡ true
unfolding enqueue
contains-enqueue_of_queue m visited queue c x h =
    ground (arith, contains-append x queue (dependents_of m c))

-- What the walk answers `true` for is reached.
search_from_sound :
    (fuel : ℕ) (m : List (String × TaskNode)) (start from : String) (visited queue : List String)
    → ((x : String) → contains queue x ≡ true → Reach m start x)
    → search_from fuel m from visited queue ≡ some true
    → Reach m start from
unfolding search_from
search_from_sound zero m start from visited queue reached h = cc
search_from_sound (suc fuel) m start from visited [] reached h = cc
search_from_sound (suc fuel) m start from visited (c ∷ queue) reached h =
    elim (Bool-cases (c == from)) [
      | inl e ↦ subst (Reach m start) ((==_iff c from).0 e) (reached c (ground arith))
      | inr e ↦
          search_from_sound fuel m start from (set_insert c visited) (enqueue m visited c queue)
            (λ x i. reached_next x (contains-enqueue m visited queue c x i)) (ground arith)
    ]
  where
    reached_next : (x : String) → (contains queue x ≡ true) ⊎ Edge m c x → Reach m start x
    reached_next x (inl i) = reached x (ground arith)
    reached_next x (inr d) = Reach-snoc (reached c (ground arith)) d

-- The edges out of visited nodes lead to what was visited or waits in the queue.
abbrev Frontier : List (String × TaskNode) → List String → List String → Type 0
Frontier m visited queue =
    (x y : String)
    → contains visited x ≡ true
    → Edge m x y
    → (contains visited y ≡ true) ⊎ (contains queue y ≡ true)

-- A set that holds the visited and the queued tasks, that edges do not leave, and without `from`.
record Barrier (m : List (String × TaskNode)) (from : String) (visited queue : List String)
    : Type 0 where
  region : List String
  holds_visited : (x : String) → contains visited x ≡ true → contains region x ≡ true
  holds_queue : (x : String) → contains queue x ≡ true → contains region x ≡ true
  closed : (x y : String) → contains region x ≡ true → Edge m x y → contains region y ≡ true
  misses : contains region from ≡ false

Frontier-visit :
    (m : List (String × TaskNode)) (visited queue : List String) (c : String)
    → Frontier m visited (c ∷ queue)
    → Frontier m (set_insert c visited) (enqueue m visited c queue)
unfolding enqueue
Frontier-visit m visited queue c f x y v d = ground (
  arith,
  contains-set_insert c x visited,
  contains-set_insert c y visited,
  contains-append y queue (dependents_of m c),
  f x y,
)

search_from-Barrier :
    (fuel : ℕ) (m : List (String × TaskNode)) (from : String) (visited queue : List String)
    → Frontier m visited queue
    → contains visited from ≡ false
    → search_from fuel m from visited queue ≡ some false
    → Barrier m from visited queue
unfolding search_from
search_from-Barrier zero m from visited queue f fresh h = cc
search_from-Barrier (suc fuel) m from visited [] f fresh h = record {
  region = visited;
  holds_visited = λ x i. i;
  holds_queue = λ x i. cc;
  closed = λ x y i d. ground (arith, f x y i d);
  misses = fresh;
}
search_from-Barrier (suc fuel) m from visited (c ∷ queue) f fresh h = widen (
    search_from-Barrier fuel m from (set_insert c visited) (enqueue m visited c queue)
      (Frontier-visit m visited queue c f) (ground (arith, contains-set_insert c from visited))
      (ground arith))
  where
    widen :
        Barrier m from (set_insert c visited) (enqueue m visited c queue)
        → Barrier m from visited (c ∷ queue)
    widen b = record {
      region = b.region;
      holds_visited = λ x i. b.holds_visited x (ground (arith, contains-set_insert c x visited));
      holds_queue = λ x i. ground (
        arith,
        b.holds_visited x,
        b.holds_queue x,
        contains-set_insert c x visited,
        contains-enqueue_of_queue m visited queue c x,
      );
      closed = b.closed;
      misses = b.misses;
    }

open_edges-nil : (m : List (String × TaskNode)) → open_edges m [] ≡ edge_count m
unfolding open_edges edge_count
open_edges-nil [] = refl
open_edges-nil ((id, n) ∷ m) = omega (arith, open_edges-nil m)

-- The walk of `would_create_cycle` always ends with an answer, within the fuel that the graph's
-- number of edges gives it, and that answer is what the function returns.
pub search_from-would_create_cycle :
    (g : TaskDag) (from to : String)
    → search_from (suc (suc (edge_count g.nodes))) g.nodes from [] (to ∷ [])
      ≡ some (would_create_cycle g from to)
unfolding would_create_cycle
search_from-would_create_cycle g from to =
    let (b, e) =
      search_from_total (suc (suc (edge_count g.nodes))) g.nodes from [] (to ∷ [])
        (omega (arith, open_edges-nil g.nodes)) in
    rw (e, would_create_cycle)

would_create_cycle-Reach :
    (g : TaskDag) (from to : String) → would_create_cycle g from to ≡ true → Reach g.nodes to from
would_create_cycle-Reach g from to h =
    search_from_sound (suc (suc (edge_count g.nodes))) g.nodes to from [] (to ∷ [])
      (λ x i. subst (Reach g.nodes to) (ground arith) here)
      (search_from-would_create_cycle g from to ∙ ap some h)

not-would_create_cycle :
    (g : TaskDag) (from to : String)
    → would_create_cycle g from to ≡ false
    → ¬ Reach g.nodes to from
not-would_create_cycle g from to h r = unreached (
    search_from-Barrier (suc (suc (edge_count g.nodes))) g.nodes from [] (to ∷ []) (λ x y i d. cc)
      refl (search_from-would_create_cycle g from to ∙ ap some h))
  where
    unreached : Barrier g.nodes from [] (to ∷ []) → ⊥
    unreached b =
        ground
          (arith, b.misses, Reach-contains b.region b.closed r (b.holds_queue to (ground arith)))

-- The check answers `true` exactly when a path of dependents leads from the second task to the
-- first: it neither misses a cycle nor refuses a dependency that closes none.
pub would_create_cycle_iff :
    (g : TaskDag) (from to : String)
    → (would_create_cycle g from to ≡ true → Reach g.nodes to from)
      × (Reach g.nodes to from → would_create_cycle g from to ≡ true)
would_create_cycle_iff g from to = (
  would_create_cycle-Reach g from to,
  λ r. elim (Bool-cases (would_create_cycle g from to)) [
    | inl h ↦ h
    | inr h ↦ absurd (not-would_create_cycle g from to h r)
  ],
)
