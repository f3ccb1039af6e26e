-- ===== src/Planning/Cycle.antt =====
-- src/planning/graph.rs: the search ends, finds only cycles, and finds one where there is one.
use claude_pilot.Base.{
  ℕ, zero, suc, String, ◌≡◌, refl, sym, ap, ◌∙◌, subst, inl, inr, Bool, true, false, Option, none,
  some, List, [], ◌∷◌, ◌++◌, arith, ◌==◌, string_eq, list_eq, nat_eq, eq_refl, ==_iff, contains,
  contains-set_insert, contains-append, set_insert, set_remove, length, is_some, Bool-cases,
  Option-cases,
}
use mathlib.Core.Bool.{true≢false}
use claude_pilot.Base.Assoc.{lookup, keys, contains-keys}
use claude_pilot.Planning.Graph.{
  Dependencies, Search, deps_of, pop, enter, leave, unless_found, visit_all, dfs_cycle, new_search,
  path_found, detect_cycle,
}
use claude_pilot.Planning.Walks.{
  Edge, Leads, Safe, safe, Safe-ends, is_walk, is_walk-snoc, is_walk-Leads, pop-snoc,
  set_remove-absent,
}
use claude_pilot.Planning.Fuel.{Grows-set_insert, open_keys-enter, open_keys-length}
use claude_pilot.Planning.Visits.{Done, Ends, Back, Ready, Back-refl, visit_all-Ends}

module _ (graph : Dependencies) where
  no_deps : (node : String) → is_some (lookup node graph) ≡ false → deps_of graph node ≡ []
  unfolding deps_of
  no_deps node h = elim (Option-cases (lookup node graph)) [
    | inl e ↦ rw (e, deps_of) refl
    | inr (ds, e) ↦ ground (arith, e, h)
  ]

  enter-Done : (node : String) (s : Search) → Done graph s → Done graph (enter node s)
  unfolding enter
  enter-Done node s d x v o =
      d x
        (ground (
          arith,
          v,
          o,
          contains-set_insert node x s.visited,
          contains-set_insert node x s.rec_stack,
        ))
        (ground (arith, o, contains-set_insert node x s.rec_stack))

  -- Below a node that is new, with its dependencies to visit.
  enter-Ready :
      (fuel : ℕ) (node : String) (s : Search)
      → Ready graph (suc fuel) (node ∷ []) s
      → contains s.visited node ≡ false
      → is_some (lookup node graph) ≡ true
      → Ready graph fuel (deps_of graph node) (enter node s)
  unfolding enter
  enter-Ready fuel node s r fresh known = record {
    finished = enter-Done node s r.finished;
    on_path = λ x h. ground (
      arith,
      h,
      r.on_path x,
      contains-set_insert node x s.rec_stack,
      contains-append x s.path (node ∷ []),
    );
    walks = λ d e. is_walk-snoc graph s.path node d (r.walks node (ground (arith, eq_refl node))) e;
    fits = ground (arith, r.fits, open_keys-enter graph node s.visited known fresh);
  }

  visit_all-nobody :
      (visit : String → Search → Option (Bool × Search)) (nodes : List String) (s : Search)
      → nodes ≡ []
      → Done graph s
      → Ends graph nodes s (visit_all visit nodes s)
  unfolding visit_all
  visit_all-nobody visit [] s none_ d = (Back-refl graph s d, λ y h. cc)
  visit_all-nobody visit (node ∷ nodes) s none_ d = cc

  only : (node y : String) → contains (node ∷ []) y ≡ true → node ≡ y
  only node y h = sym ((==_iff y node).0 (ground (arith, h)))

  put_and_taken :
      (node : String) (xs : List String)
      → contains xs node ≡ false
      → set_remove node (set_insert node xs) ≡ xs
  unfolding set_insert set_remove
  put_and_taken node xs off = ground (arith, off, eq_refl node, set_remove-absent node xs off)

  left-Back :
      (node : String) (s t : Search)
      → contains s.rec_stack node ≡ false
      → Back graph (enter node s) t
      → Safe graph node
      → Back graph s (leave node t)
  unfolding enter leave
  left-Back node s t off b safe_node =
      let stack = ap (set_remove node) b.same_stack ∙ put_and_taken node s.rec_stack off in
      record {
        same_stack = stack;
        same_path = ap pop b.same_path ∙ pop-snoc s.path node;
        grows = λ x h. b.grows x (Grows-set_insert node s.visited x h);
        finished = λ x v o. elim (Bool-cases (x == node)) [
          | inl same ↦ subst (Safe graph) (sym ((==_iff x node).0 same)) safe_node
          | inr other ↦ b.finished x v (
              ground (
                arith,
                o,
                other,
                ap (λ xs. contains xs x) stack,
                ap (λ xs. contains xs x) b.same_stack,
                contains-set_insert node x s.rec_stack,
              ))
        ];
      }

  left-Ends :
      (node : String) (s : Search) (o : Option (Bool × Search))
      → contains s.rec_stack node ≡ false
      → Done graph s
      → Ends graph (deps_of graph node) (enter node s) o
      → Ends graph (node ∷ []) s (unless_found o (λ t. some (false, leave node t)))
  left-Ends node s none off d e = e
  left-Ends node s (some (true, t)) off d e = e
  left-Ends node s (some (false, t)) off d (b, below) =
      let safe_node = safe below in
      (left-Back node s t off b safe_node, λ y h. subst (Safe graph) (only node y h) safe_node)

  dfs_cycle-Ends :
      (fuel : ℕ) (node : String) (s : Search)
      → Ready graph fuel (node ∷ []) s
      → Ends graph (node ∷ []) s (dfs_cycle fuel graph node s)
  unfolding dfs_cycle
  dfs_cycle-Ends zero node s r = ground (arith, r.fits)
  dfs_cycle-Ends (suc fuel) node s r = elim (Bool-cases (contains s.rec_stack node)) [
    | inl on ↦
        rw (on, dfs_cycle)
          (s.path, node, refl, r.walks node (ground (arith, eq_refl node)), r.on_path node on)
    | inr off ↦ elim (Bool-cases (contains s.visited node)) [
      | inl old ↦
          rw (off, old, dfs_cycle)
            (
              Back-refl graph s r.finished,
              λ y h. subst (Safe graph) (only node y h) (r.finished node old off),
            )
      | inr fresh ↦
          let visit = dfs_cycle fuel graph in
          let below : Ends graph (deps_of graph node) (enter node s)
              (visit_all visit (deps_of graph node) (enter node s)) =
            elim (Bool-cases (is_some (lookup node graph))) [
              | inl known ↦
                  visit_all-Ends graph fuel visit (dfs_cycle-Ends fuel) (deps_of graph node)
                    (enter node s) (enter-Ready fuel node s r fresh known)
              | inr unknown ↦
                  visit_all-nobody visit (deps_of graph node) (enter node s) (no_deps node unknown)
                    (enter-Done node s r.finished)
            ] in
          rw (off, fresh, dfs_cycle) (left-Ends node s _ off r.finished below)
    ]
  ]

  ready : Ready graph (suc (length graph)) (keys graph) new_search
  ready = record {
    finished = λ x v o. cc;
    on_path = λ x h. h;
    walks = λ d h. refl;
    fits = omega (arith, open_keys-length graph);
  }

  Edge-known : (x y : String) → is_some (lookup x graph) ≡ false → Edge graph x y → false ≡ true
  Edge-known x y unknown e = subst (λ ds. contains ds y ≡ true) (no_deps x unknown) e

  -- Tasks with no dependencies are safe, so all are when those with dependencies are.
  Safe-unless_keyed :
      ((y : String) → contains (keys graph) y ≡ true → Safe graph y) → (x : String) → Safe graph x
  Safe-unless_keyed known x = elim (Bool-cases (is_some (lookup x graph))) [
    | inl key ↦ known x (contains-keys graph x ∙ key)
    | inr other ↦ safe (λ y e. let never = Edge-known x y other e in cc)
  ]

  -- What an answer of the search says: none is that its fuel did not suffice.
  abbrev pub Detected : Option (Option (List String)) → Type 0
  Detected none = true ≡ false
  Detected (some none) = (x : String) → ¬ Leads graph x x
  Detected (some (some path)) =
      (xs : List String) × (z : String) × (path ≡ xs ++ z ∷ [])
      × (is_walk graph path ≡ true)
      × (contains xs z ≡ true)
      × Leads graph z z

  path_found-Detected :
      (o : Option (Bool × Search)) → Ends graph (keys graph) new_search o → Detected (path_found o)
  path_found-Detected none e = e
  path_found-Detected (some (true, t)) (xs, z, shape, walk, back) = (
    xs,
    z,
    shape,
    walk,
    back,
    is_walk-Leads graph xs z (subst (λ p. is_walk graph p ≡ true) shape walk) back,
  )
  path_found-Detected (some (false, t)) (b, known) =
      λ x loop. true≢false (Safe-ends (Safe-unless_keyed known x) loop)

-- The search for a cycle always answers. Where it answers with none, no task depends on itself, through
-- any number of others; else it answers with tasks each of which depends on the next, of which the last
-- stands among those before it, and so depends on itself.
pub detect_cycle_lem : (graph : Dependencies) → Detected graph (detect_cycle graph)
unfolding detect_cycle
detect_cycle_lem graph = path_found-Detected graph _ (
    visit_all-Ends graph (suc (length graph)) (dfs_cycle (suc (length graph)) graph)
      (dfs_cycle-Ends graph (suc (length graph))) (keys graph) new_search (ready graph))
