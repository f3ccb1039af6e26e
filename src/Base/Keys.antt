-- ===== src/Base/Keys.antt =====
-- Decidable equality as an interface: `==` on the program's identifiers and paths.
use Prim.Native.Nat.{ℕ}
use Prim.Native.String.{String}
use mathlib.Core.Path.{◌≡◌, refl, ap₂}
use mathlib.Core.Logic.{◌↔◌, ite, inl, inr}
use mathlib.Core.List.{List, [], ◌∷◌, ◌++◌}
use mathlib.Core.Bool.{Bool, true, false, not, ◌||◌, ◌&&◌, false≢true}
use text.Mathlib.Text.{◌==◌ as str_test}
use text.Mathlib.TextEquality.{eq_iff}
use native.Mathlib.Omega.{arith}
use claude_pilot.Base.Tests.{if◌then◌else◌, Bool-cases}
use native.Mathlib.Decide.{ℕ_discrete}

pub record DecEq {ℓ} (A : Type ℓ) : Type ℓ where
  pub dec : Discrete A

infix 50 ◌==◌
abbrev pub ◌==◌ {ℓ} : {A : Type ℓ} ⦃e : DecEq A⦄ → A → A → Bool
◌==◌ ⦃e⦄ a b = ite (e.dec a b) true false

unfoldable pub decide_by {ℓ} : {P : Type ℓ} (b : Bool) → (b ≡ true) ↔ P → Dec P
decide_by true h = yes (h.0 refl)
decide_by false h = no (λ p. false≢true (h.1 p))

unfoldable pub string_dec : Discrete String
unfolding decide_by
string_dec a b = decide_by (str_test a b) (eq_iff a b)

instance abbrev pub string_eq : DecEq String
string_eq = record { dec = string_dec }

instance abbrev pub nat_eq : DecEq ℕ
nat_eq = record { dec = ℕ_discrete }

module _ {ℓ} {A : Type ℓ} ⦃e : DecEq A⦄ where
  ∷_dec : (x y : A) (xs ys : List A) → Dec (x ≡ y) → Dec (xs ≡ ys) → Dec (x ∷ xs ≡ y ∷ ys)
  ∷_dec x y xs ys (yes p) (yes q) = yes (ap₂ ◌∷◌ p q)
  ∷_dec x y xs ys (yes p) (no q) = no (λ r. q (cc))
  ∷_dec x y xs ys (no p) q = no (λ r. p (cc))

  unfoldable pub list_dec : (xs ys : List A) → Dec (xs ≡ ys)
  unfolding ∷_dec
  list_dec [] [] = yes refl
  list_dec [] (y ∷ ys) = no (λ p. cc)
  list_dec (x ∷ xs) [] = no (λ p. cc)
  list_dec (x ∷ xs) (y ∷ ys) = ∷_dec x y xs ys (e.dec x y) (list_dec xs ys)

  instance abbrev pub list_eq : DecEq (List A)
  list_eq = record { dec = list_dec }

  pub eq_refl : (a : A) → (a == a) ≡ true
  eq_refl a = ground arith

  pub ==_iff : (a b : A) → ((a == b) ≡ true) ↔ (a ≡ b)
  ==_iff a b = ground arith

  -- `contains` of a slice or of a set.
  abbrev pub contains : List A → A → Bool
  contains [] a = false
  contains (x ∷ xs) a = a == x || contains xs a

-- A `HashSet`, as a list with no order of its own. `insert` of an element that is there does nothing.
module _ {ℓ} {A : Type ℓ} ⦃e : DecEq A⦄ where
  unfoldable pub set_insert : A → List A → List A
  set_insert a xs = if contains xs a then xs else a ∷ xs

  unfoldable pub set_remove : A → List A → List A
  set_remove a [] = []
  set_remove a (x ∷ xs) = if a == x then set_remove a xs else x ∷ set_remove a xs

  abbrev pub is_subset : List A → List A → Bool
  is_subset [] ys = true
  is_subset (x ∷ xs) ys = contains ys x && is_subset xs ys

  -- No element stands twice.
  abbrev pub nodup : List A → Bool
  nodup [] = true
  nodup (x ∷ xs) = let rest = nodup xs in not (contains xs x) && rest

  pub contains-set_insert :
      (a b : A) (xs : List A) → contains (set_insert a xs) b ≡ (b == a || contains xs b)
  unfolding set_insert
  contains-set_insert a b xs = elim (Bool-cases (contains xs a)) [
    | inl h ↦ rw h (ground arith)
    | inr h ↦ rw h
  ]

  pub contains-append :
      (a : A) (xs ys : List A) → contains (xs ++ ys) a ≡ (contains xs a || contains ys a)
  contains-append a [] ys = refl
  contains-append a (x ∷ xs) ys = ground (arith, contains-append a xs ys)

  -- A subset is contained point by point.
  pub is_subset-contains :
      (xs ys : List A) (a : A)
      → is_subset xs ys ≡ true
      → contains xs a ≡ true
      → contains ys a ≡ true
  is_subset-contains [] ys a h i = cc
  is_subset-contains (x ∷ xs) ys a h i = ground (arith, is_subset-contains xs ys a)

  pub is_subset_intro :
      (xs ys : List A)
      → ((a : A) → contains xs a ≡ true → contains ys a ≡ true)
      → is_subset xs ys ≡ true
  is_subset_intro [] ys h = refl
  is_subset_intro (x ∷ xs) ys h =
      ground (arith, h x, is_subset_intro xs ys (λ a i. h a (ground arith)))
