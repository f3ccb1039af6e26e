-- ===== src/Planning/Walks.antt =====
-- src/planning/graph.rs: dependencies as edges, walks along them, and tasks from which no walk goes on for
-- ever.
use claude_pilot.Base.{
  String, ◌≡◌, refl, sym, ap, subst, inl, inr, Bool, true, false, ◌&&◌, List, [], ◌∷◌, ◌++◌, arith,
  ◌==◌, string_eq, list_eq, nat_eq, ==_iff, contains, set_remove, Bool-cases, and_left, and_right,
  and_intro,
}
use claude_pilot.Planning.Graph.{Dependencies, deps_of, pop}

abbrev pub Edge : Dependencies → String → String → Type 0
Edge graph x y = contains (deps_of graph x) y ≡ true

-- One edge or more.
pub data Leads (graph : Dependencies) : String → String → Type 0 where
  step : {x y : String} → Edge graph x y → Leads graph x y
  next : {x y z : String} → Edge graph x y → Leads graph y z → Leads graph x z

-- No walk from here goes on for ever.
pub data Safe (graph : Dependencies) : String → Type 0 where
  safe : {x : String} → ((y : String) → Edge graph x y → Safe graph y) → Safe graph x

Leads-snoc :
    {graph : Dependencies} {x y z : String} → Leads graph x y → Edge graph y z → Leads graph x z
Leads-snoc (step e) f = next e (step f)
Leads-snoc (next e w) f = next e (Leads-snoc w f)

pub Safe-ends : {graph : Dependencies} {x : String} → Safe graph x → Leads graph x x → true ≡ false
Safe-ends (safe below) (step e) = Safe-ends (below _ e) (step e)
Safe-ends (safe below) (next e w) = Safe-ends (below _ e) (Leads-snoc w e)

module _ (graph : Dependencies) where
  -- Each task depends on the one after it.
  abbrev pub is_walk : List String → Bool
  is_walk [] = true
  is_walk (x ∷ []) = true
  is_walk (x ∷ y ∷ xs) = let rest = is_walk (y ∷ xs) in contains (deps_of graph x) y && rest

  pub is_walk-snoc :
      (xs : List String) (a b : String)
      → is_walk (xs ++ a ∷ []) ≡ true
      → Edge graph a b
      → is_walk ((xs ++ a ∷ []) ++ b ∷ []) ≡ true
  is_walk-snoc [] a b h e = and_intro _ _ e refl
  is_walk-snoc (x ∷ []) a b h e = and_intro _ _ (and_left _ _ h) (and_intro _ _ e refl)
  is_walk-snoc (x ∷ y ∷ xs) a b h e =
      and_intro _ _ (and_left _ _ h) (is_walk-snoc (y ∷ xs) a b (and_right _ _ h) e)

  head-Leads :
      (x : String) (xs : List String) (z : String)
      → is_walk (x ∷ (xs ++ z ∷ [])) ≡ true
      → Leads graph x z
  head-Leads x [] z h = step (and_left _ _ h)
  head-Leads x (y ∷ xs) z h = next (and_left _ _ h) (head-Leads y xs z (and_right _ _ h))

  is_walk-tail : (x : String) (xs : List String) → is_walk (x ∷ xs) ≡ true → is_walk xs ≡ true
  is_walk-tail x [] h = refl
  is_walk-tail x (y ∷ xs) h = and_right _ _ h

  -- A walk whose last task stands earlier on it leads from this task back to it.
  pub is_walk-Leads :
      (xs : List String) (z : String)
      → is_walk (xs ++ z ∷ []) ≡ true
      → contains xs z ≡ true
      → Leads graph z z
  is_walk-Leads [] z h i = cc
  is_walk-Leads (x ∷ xs) z h i = elim (Bool-cases (z == x)) [
    | inl same ↦ subst (λ a. Leads graph a z) (sym ((==_iff z x).0 same)) (head-Leads x xs z h)
    | inr other ↦ is_walk-Leads xs z (is_walk-tail x (xs ++ z ∷ []) h) (ground (arith, i, other))
  ]

pub pop-snoc : (xs : List String) (a : String) → pop (xs ++ a ∷ []) ≡ xs
unfolding pop
pop-snoc [] a = refl
pop-snoc (x ∷ []) a = refl
pop-snoc (x ∷ y ∷ xs) a = ap (λ ys. x ∷ ys) (pop-snoc (y ∷ xs) a)

pub set_remove-absent :
    (a : String) (xs : List String) → contains xs a ≡ false → set_remove a xs ≡ xs
unfolding set_remove
set_remove-absent a [] h = refl
set_remove-absent a (x ∷ xs) h = ground (arith, h, set_remove-absent a xs)
