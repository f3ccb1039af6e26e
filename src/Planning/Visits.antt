-- ===== src/Planning/Visits.antt =====
-- src/planning/graph.rs: what a search keeps over the nodes that it visits.
use claude_pilot.Base.{
  ℕ, ◌<◌, String, ◌≡◌, refl, sym, ◌∙◌, subst, inl, inr, Bool, true, false, Option, none, some, List,
  [], ◌∷◌, ◌++◌, arith, ◌==◌, string_eq, list_eq, nat_eq, contains, Bool-cases,
}
use claude_pilot.Planning.Graph.{Dependencies, Search, unless_found, visit_all}
use claude_pilot.Planning.Walks.{Safe, is_walk}
use claude_pilot.Planning.Fuel.{open_keys, Grows, open_keys-Grows}

module _ (graph : Dependencies) where
  -- What was visited, and is left, is safe.
  abbrev pub Done : Search → Type 0
  Done s =
      (x : String) → contains s.visited x ≡ true → contains s.rec_stack x ≡ false → Safe graph x

  pub record Back (s t : Search) : Type 0 where
    pub same_stack : t.rec_stack ≡ s.rec_stack
    pub same_path : t.path ≡ s.path
    pub grows : Grows s.visited t.visited
    pub finished : Done t

  -- A walk whose last task stands earlier on it.
  abbrev pub Closes : List String → Type 0
  Closes p =
      (xs : List String) × (z : String) × (p ≡ xs ++ z ∷ [])
      × (is_walk graph p ≡ true)
      × (contains xs z ≡ true)

  -- The outcome of a visit of these nodes.
  abbrev pub Ends : List String → Search → Option (Bool × Search) → Type 0
  Ends nodes s none = true ≡ false
  Ends nodes s (some (true, t)) = Closes t.path
  Ends nodes s (some (false, t)) =
      Back s t × ((y : String) → contains nodes y ≡ true → Safe graph y)

  pub record Ready (fuel : ℕ) (nodes : List String) (s : Search) : Type 0 where
    pub finished : Done s
    pub on_path : Grows s.rec_stack s.path
    pub walks : (d : String) → contains nodes d ≡ true → is_walk graph (s.path ++ d ∷ []) ≡ true
    pub fits : open_keys graph s.visited < fuel

  pub Back-refl : (s : Search) → Done s → Back s s
  Back-refl s d = record { same_stack = refl; same_path = refl; grows = λ x h. h; finished = d }

  Back-trans : (s t u : Search) → Back s t → Back t u → Back s u
  Back-trans s t u p q = record {
    same_stack = q.same_stack ∙ p.same_stack;
    same_path = q.same_path ∙ p.same_path;
    grows = λ x h. q.grows x (p.grows x h);
    finished = q.finished;
  }

  -- A search that came back is ready for other nodes.
  Back-Ready :
      (fuel : ℕ) (nodes : List String) (s t : Search)
      → Ready fuel nodes s
      → Back s t
      → Ready fuel nodes t
  Back-Ready fuel nodes s t r b = record {
    finished = b.finished;
    on_path = λ x h.
        subst (λ p. contains p x ≡ true) (sym b.same_path)
          (r.on_path x (subst (λ p. contains p x ≡ true) b.same_stack h));
    walks = λ d h. subst (λ p. is_walk graph (p ++ d ∷ []) ≡ true) (sym b.same_path) (r.walks d h);
    fits = ground (arith, r.fits, open_keys-Grows graph s.visited t.visited b.grows);
  }

  Ready-head :
      (fuel : ℕ) (node : String) (nodes : List String) (s : Search)
      → Ready fuel (node ∷ nodes) s
      → Ready fuel (node ∷ []) s
  Ready-head fuel node nodes s r = record {
    finished = r.finished;
    on_path = r.on_path;
    walks = λ d h. r.walks d (ground (arith, h));
    fits = r.fits;
  }

  Ready-tail :
      (fuel : ℕ) (node : String) (nodes : List String) (s : Search)
      → Ready fuel (node ∷ nodes) s
      → Ready fuel nodes s
  Ready-tail fuel node nodes s r = record {
    finished = r.finished;
    on_path = r.on_path;
    walks = λ d h. r.walks d (ground (arith, h));
    fits = r.fits;
  }

  -- The rest of the nodes, after the outcome of the first.
  rest-Ends :
      (fuel : ℕ) (node : String) (nodes : List String) (s : Search)
      (rest : Search → Option (Bool × Search)) (o : Option (Bool × Search))
      → Ready fuel (node ∷ nodes) s
      → Ends (node ∷ []) s o
      → ((t : Search) → Ready fuel nodes t → Ends nodes t (rest t))
      → Ends (node ∷ nodes) s (unless_found o rest)
  rest-Ends fuel node nodes s rest none r e later = e
  rest-Ends fuel node nodes s rest (some (true, t)) r e later = e
  rest-Ends fuel node nodes s rest (some (false, t)) r (back, safe_head) later =
      both (rest t) (later t (Back-Ready fuel nodes s t (Ready-tail fuel node nodes s r) back))
    where
      both : (u : Option (Bool × Search)) → Ends nodes t u → Ends (node ∷ nodes) s u
      both none e = e
      both (some (true, u)) e = e
      both (some (false, u)) (back2, safe_rest) = (
        Back-trans s t u back back2,
        λ y h. elim (Bool-cases (y == node)) [
          | inl same ↦ safe_head y (ground (arith, same))
          | inr other ↦ safe_rest y (ground (arith, h, other))
        ],
      )

  pub visit_all-Ends :
      (fuel : ℕ) (visit : String → Search → Option (Bool × Search))
      → ((node : String) (s : Search)
          → Ready fuel (node ∷ []) s
          → Ends (node ∷ []) s (visit node s))
      → (nodes : List String) (s : Search) → Ready fuel nodes s
      → Ends nodes s (visit_all visit nodes s)
  unfolding visit_all
  visit_all-Ends fuel visit ends [] s r = (Back-refl s r.finished, λ y h. cc)
  visit_all-Ends fuel visit ends (node ∷ nodes) s r =
      rest-Ends fuel node nodes s (visit_all visit nodes) (visit node s) r
        (ends node s (Ready-head fuel node nodes s r)) (visit_all-Ends fuel visit ends nodes)
