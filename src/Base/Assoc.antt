-- ===== src/Base/Assoc.antt =====
-- A map with decidable keys (`HashMap`, `DashMap`) as an association list. The order of the
-- entries is the iteration order, on which no theorem depends.
use Prim.Native.String.{String}
use mathlib.Core.Path.{◌≡◌, refl, ap}
use mathlib.Core.Logic.{inl, inr}
use mathlib.Core.Bool.{Bool, true, false, ◌&&◌}
use mathlib.Core.List.{List, [], ◌∷◌, ◌++◌}
use mathlib.Core.Option.{Option, none, some}
use native.Mathlib.Omega.{arith}
use claude_pilot.Base.Tests.{if◌then◌else◌, is_some, Bool-cases}
use claude_pilot.Base.Lists.{keep}
use claude_pilot.Base.Keys.{DecEq, ◌==◌, string_eq, ==_iff, contains, nodup, contains-append}

module _ {ℓ κ} {K : Type ℓ} {V : Type κ} where
  abbrev pub keys : List (K × V) → List K
  keys [] = []
  keys ((k, v) ∷ m) = k ∷ keys m

  abbrev pub values : List (K × V) → List V
  values [] = []
  values ((k, v) ∷ m) = v ∷ values m

module _ {ℓ κ} {K : Type ℓ} {V : Type κ} ⦃e : DecEq K⦄ where
  unfoldable pub lookup : K → List (K × V) → Option V
  lookup k [] = none
  lookup k ((j, v) ∷ m) = if j == k then some v else lookup k m

  -- A new key goes to the end.
  unfoldable pub insert : K → V → List (K × V) → List (K × V)
  insert k v [] = (k, v) ∷ []
  insert k v ((j, w) ∷ m) = if j == k then (k, v) ∷ m else (j, w) ∷ insert k v m

  unfoldable pub remove : K → List (K × V) → List (K × V)
  remove k [] = []
  remove k ((j, w) ∷ m) = if j == k then remove k m else (j, w) ∷ remove k m

  -- `if let Some(v) = map.get_mut(k) { *v = f(v) }`
  unfoldable pub adjust : K → (V → V) → List (K × V) → List (K × V)
  adjust k f [] = []
  adjust k f ((j, w) ∷ m) = if j == k then (j, f w) ∷ m else (j, w) ∷ adjust k f m

  pub lookup-insert :
      (j k : K) (v : V) (m : List (K × V))
      → lookup j (insert k v m) ≡ (if k == j then some v else lookup j m)
  unfolding lookup insert
  lookup-insert j k v [] = refl
  lookup-insert j k v ((i, w) ∷ m) = ground (arith, lookup-insert j k v m)

  pub lookup-remove :
      (j k : K) (m : List (K × V)) → lookup j (remove k m) ≡ (if k == j then none else lookup j m)
  unfolding lookup remove
  lookup-remove j k [] = ground arith
  lookup-remove j k ((i, w) ∷ m) = ground (arith, lookup-remove j k m)

  pub lookup-adjust :
      (j k : K) (f : V → V) (m : List (K × V))
      → lookup j (adjust k f m)
        ≡ (if k == j then elim (lookup j m) [ none ↦ none | some v ↦ some (f v) ] else lookup j m)
  unfolding lookup adjust
  lookup-adjust j k f [] = ground arith
  lookup-adjust j k f ((i, w) ∷ m) = ground (arith, lookup-adjust j k f m)

module _ {ℓ} {V : Type ℓ} where
  -- Every key is found, and nothing else.
  pub contains-keys :
      (m : List (String × V)) (x : String) → contains (keys m) x ≡ is_some (lookup x m)
  unfolding lookup
  contains-keys [] x = refl
  contains-keys ((k, v) ∷ m) x = ground (arith, contains-keys m x)

pub contains-keep :
    (p : String → Bool) (xs : List String) (x : String)
    → contains (keep p xs) x ≡ (contains xs x && p x)
contains-keep p [] x = refl
contains-keep p (y ∷ ys) x = elim (Bool-cases (x == y)) [
  | inl same ↦ ground (arith, contains-keep p ys x, ap p ((==_iff x y).0 same))
  | inr other ↦ ground (arith, contains-keep p ys x, other)
]

pub nodup-append :
    (xs : List String) (x : String)
    → nodup xs ≡ true
    → contains xs x ≡ false
    → nodup (xs ++ x ∷ []) ≡ true
nodup-append [] x h absent = refl
nodup-append (y ∷ ys) x h absent = ground (arith, nodup-append ys x, contains-append y ys (x ∷ []))
