-- ===== src/Planning/Partners.antt =====
-- src/planning/artifacts.rs: the old and the new names of the tasks of a plan, and their dependencies
-- under the new ones.
use claude_pilot.Base.{
  ℕ, zero, suc, String, ◌≡◌, refl, sym, ap, ◌∙◌, ◌⊎◌, subst, inl, inr, true, false, ◌&&◌, some,
  List, [], ◌∷◌, map, arith, ◌==◌, string_eq, list_eq, nat_eq, ==_iff, contains, nodup, Bool-cases,
  Option-cases, and_right,
}
use claude_pilot.Base.Assoc.{lookup, insert, lookup-insert}
use claude_pilot.Planning.Tasks.{PlannedTask, IdMap, valid_deps}
use claude_pilot.Planning.Places.{task_at, relabel, is_paired, insert_all}
use claude_pilot.Planning.Renamed.{names}

is_paired-contains :
    (xs ys : List String) (a b : String)
    → is_paired xs ys a b ≡ true
    → (contains xs a ≡ true) × (contains ys b ≡ true)
unfolding is_paired
is_paired-contains [] ys a b h = cc
is_paired-contains (x ∷ xs) [] a b h = cc
is_paired-contains (x ∷ xs) (y ∷ ys) a b h = elim (Bool-cases (x == a && y == b)) [
  | inl here ↦
      (ground (arith, here, ==_iff x a, ==_iff a x), ground (arith, here, ==_iff y b, ==_iff b y))
  | inr there ↦
      let later = is_paired-contains xs ys a b (ground (arith, h, there)) in
      (ground (arith, later.0), ground (arith, later.1))
]

-- Of names that stand once, the partner is one.
is_paired-left :
    (xs ys : List String) (a c b : String)
    → nodup ys ≡ true
    → is_paired xs ys a b ≡ true
    → is_paired xs ys c b ≡ true
    → a ≡ c
unfolding is_paired
is_paired-left [] ys a c b once h k = cc
is_paired-left (x ∷ xs) [] a c b once h k = cc
is_paired-left (x ∷ xs) (y ∷ ys) a c b once h k = elim (Bool-cases (y == b)) [
  | inl same ↦
      let e : y ≡ b = (==_iff y b).0 same in
      let absent : contains ys b ≡ false =
        subst (λ z. contains ys z ≡ false) e (ground (arith, once)) in
      let first : (d : String) → is_paired (x ∷ xs) (y ∷ ys) d b ≡ true → x ≡ d = λ d q.
        elim (Bool-cases (x == d)) [
          | inl one ↦ (==_iff x d).0 one
          | inr other ↦
              let below = (is_paired-contains xs ys d b (ground (arith, q, other))).1 in cc
        ] in
      sym (first a h) ∙ first c k
  | inr other ↦
      is_paired-left xs ys a c b (and_right _ _ once) (ground (arith, h, other))
        (ground (arith, k, other))
]

lookup-absent :
    (xs ys : List String) (m : IdMap) (a : String)
    → contains xs a ≡ false
    → lookup a (insert_all xs ys m) ≡ lookup a m
unfolding insert_all
lookup-absent [] ys m a h = refl
lookup-absent (x ∷ xs) [] m a h = refl
lookup-absent (x ∷ xs) (y ∷ ys) m a h =
    lookup-absent xs ys (insert x y m) a (ground (arith, h))
    ∙ ground (arith, h, ==_iff x a, ==_iff a x, lookup-insert a x y m)

lookup-paired :
    (xs ys : List String) (m : IdMap) (a b : String)
    → nodup xs ≡ true
    → is_paired xs ys a b ≡ true
    → lookup a (insert_all xs ys m) ≡ some b
unfolding insert_all is_paired
lookup-paired [] ys m a b once h = cc
lookup-paired (x ∷ xs) [] m a b once h = cc
lookup-paired (x ∷ xs) (y ∷ ys) m a b once h = elim (Bool-cases (x == a && y == b)) [
  | inl here ↦
      let e : x ≡ a = (==_iff x a).0 (ground (arith, here)) in
      let f : y ≡ b = (==_iff y b).0 (ground (arith, here)) in
      let absent : contains xs a ≡ false =
        subst (λ z. contains xs z ≡ false) e (ground (arith, once)) in
      lookup-absent xs ys (insert x y m) a absent
      ∙ ground (arith, here, lookup-insert a x y m)
      ∙ ap some f
  | inr there ↦
      lookup-paired xs ys (insert x y m) a b (and_right _ _ once) (ground (arith, h, there))
]

lookup-back :
    (xs ys : List String) (m : IdMap) (a b : String)
    → lookup a (insert_all xs ys m) ≡ some b
    → (is_paired xs ys a b ≡ true) ⊎ (lookup a m ≡ some b)
unfolding insert_all is_paired
lookup-back [] ys m a b h = inr h
lookup-back (x ∷ xs) [] m a b h = inr h
lookup-back (x ∷ xs) (y ∷ ys) m a b h = elim (lookup-back xs ys (insert x y m) a b h) [
  | inl later ↦ inl (ground (arith, later))
  | inr now ↦ elim (Bool-cases (x == a)) [
    | inl same ↦
        let e : some y ≡ some b = sym (ground (arith, same, lookup-insert a x y m)) ∙ now in
        let f : y ≡ b = cc in inl (ground (arith, same, (==_iff y b).1 f))
    | inr other ↦ inr (sym (ground (arith, other, lookup-insert a x y m)) ∙ now)
  ]
]

module _ (xs ys : List String) (xs_once : nodup xs ≡ true) (ys_once : nodup ys ≡ true) where
  abbrev ids : IdMap
  ids = insert_all xs ys []

  back : (a b : String) → lookup a ids ≡ some b → is_paired xs ys a b ≡ true
  unfolding lookup
  back a b h = elim (lookup-back xs ys [] a b h) [ inl paired ↦ paired | inr found ↦ cc ]

  pub contains-valid_deps :
      (a b : String) (ds : List String)
      → is_paired xs ys a b ≡ true
      → contains (valid_deps ids ds) b ≡ contains ds a
  unfolding valid_deps
  contains-valid_deps a b [] h = refl
  contains-valid_deps a b (d ∷ ds) h =
      let mine = lookup-paired xs ys [] a b xs_once h in
      let later = contains-valid_deps a b ds h in
      elim (Option-cases (lookup d ids)) [
        | inl e ↦
            let other : (d == a) ≡ false = elim (Bool-cases (d == a)) [
              | inl same ↦
                  let p : d ≡ a = (==_iff d a).0 same in
                  let found : lookup d ids ≡ some b =
                    subst (λ z. lookup z ids ≡ some b) (sym p) mine in
                  cc
              | inr no_ ↦ no_
            ] in
            rw (e, valid_deps) (ground (arith, later, other, ==_iff a d, ==_iff d a))
        | inr (n, e) ↦ elim (Bool-cases (d == a)) [
          | inl same ↦
              let p : d ≡ a = (==_iff d a).0 same in
              let found : lookup d ids ≡ some b = subst (λ z. lookup z ids ≡ some b) (sym p) mine in
              let q : n ≡ b = cc in
              rw (e, valid_deps) (ground (arith, later, same, ==_iff a d, ==_iff b n, p, q))
          | inr other ↦
              let apart : (n == b) ≡ false = elim (Bool-cases (n == b)) [
                | inl one ↦
                    let q : n ≡ b = (==_iff n b).0 one in
                    let p : d ≡ a =
                      is_paired-left xs ys d a b ys_once
                        (subst (λ z. is_paired xs ys d z ≡ true) q (back d n e)) h in
                    let never = (==_iff d a).1 p in cc
                | inr no_ ↦ no_
              ] in
              rw (e, valid_deps)
                (ground
                  (arith, later, other, apart, ==_iff a d, ==_iff d a, ==_iff b n, ==_iff n b))
        ]
      ]

pub task_at-map :
    (f : PlannedTask → PlannedTask) (i : ℕ) (ts : List PlannedTask) (u : PlannedTask)
    → task_at i (map f ts) ≡ some u
    → (v : PlannedTask) × (task_at i ts ≡ some v) × (u ≡ f v)
unfolding task_at
task_at-map f i [] u h = cc
task_at-map f zero (t ∷ ts) u h = (t, refl, cc)
task_at-map f (suc i) (t ∷ ts) u h = task_at-map f i ts u h

pub task_at-relabel :
    (i : ℕ) (ts : List PlannedTask) (ns : List String) (t v : PlannedTask)
    → task_at i ts ≡ some t
    → task_at i (relabel ts ns) ≡ some v
    → (v ≡ record t { id = v.id }) × (is_paired (names ts) ns t.id v.id ≡ true)
unfolding task_at relabel is_paired
task_at-relabel i [] ns t v h k = cc
task_at-relabel zero (x ∷ ts) [] t v h k = cc
task_at-relabel (suc i) (x ∷ ts) [] t v h k = cc
task_at-relabel zero (x ∷ ts) (n ∷ ns) t v h k =
    let p : x ≡ t = cc in
    let q : record x { id = n } ≡ v = cc in
    let r : n ≡ v.id = ap (λ (w : PlannedTask). w.id) q in
    (
      sym q ∙ ap (λ (w : PlannedTask). record w { id = n }) p ∙ ap (λ m. record t { id = m }) r,
      ground (arith, (==_iff x.id t.id).1 (ap (λ (w : PlannedTask). w.id) p), (==_iff n v.id).1 r),
    )
task_at-relabel (suc i) (x ∷ ts) (n ∷ ns) t v h k =
    let later = task_at-relabel i ts ns t v h k in (later.0, ground (arith, later.1))
