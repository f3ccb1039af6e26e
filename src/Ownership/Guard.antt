-- ===== src/Ownership/Guard.antt =====
-- A `LeaseGuard`: leases that are held, and what their drop frees.
use claude_pilot.Base.{
  ℕ, String, ◌≡◌, refl, true, false, ◌||◌, none, some, List, [], ◌∷◌, ◌++◌, arith, ◌==◌, string_eq,
  list_eq, nat_eq, contains, all, is_some, if◌then◌else◌,
}
use claude_pilot.Base.Assoc.{lookup, lookup-remove}
use claude_pilot.Ownership.{
  FilePath, FileLease, Manager, new, is_held_by, release_internal, drop_lease, drop_guard,
  current_owner,
}

unfoldable pub files : List FileLease → List FilePath
files [] = []
files (l ∷ ls) = l.file ∷ files ls

-- The lease is the one under which its file is owned now.
unfoldable pub IsHeld : Manager → ℕ → FileLease → Type 0
IsHeld m now l =
    (l.released ≡ false)
    × (is_held_by l.owner l.version (lookup l.file m.ownership) ≡ true)
    × (current_owner m now l.file ≡ some l.owner)

-- Each lease of the guard is held, on files that are all different.
unfoldable pub HeldAll : Manager → ℕ → List FileLease → Type 0
HeldAll m now [] = Unit {0}
HeldAll m now (l ∷ ls) = IsHeld m now l × (contains (files ls) l.file ≡ false) × HeldAll m now ls

abbrev pub SameAt : Manager → Manager → FilePath → Type 0
SameAt m m' x = lookup x m'.ownership ≡ lookup x m.ownership

IsHeld-SameAt :
    (m m' : Manager) (now : ℕ) (l : FileLease)
    → SameAt m m' l.file
    → IsHeld m now l
    → IsHeld m' now l
unfolding IsHeld current_owner
IsHeld-SameAt m m' now l same h = ground arith

pub HeldAll-SameAt :
    (m m' : Manager) (now : ℕ) (ls : List FileLease)
    → ((x : FilePath) → contains (files ls) x ≡ true → SameAt m m' x)
    → HeldAll m now ls
    → HeldAll m' now ls
unfolding HeldAll files
HeldAll-SameAt m m' now [] same h = tt
HeldAll-SameAt m m' now (l ∷ ls) same h = (
  IsHeld-SameAt m m' now l (same l.file (ground arith)) h.0,
  h.1,
  HeldAll-SameAt m m' now ls (λ x i. same x (ground arith)) h.2,
)

lookup-drop_lease :
    (m : Manager) (now : ℕ) (l : FileLease) (x : FilePath)
    → IsHeld m now l
    → lookup x (drop_lease m l).ownership ≡ (if l.file == x then none else lookup x m.ownership)
unfolding drop_lease release_internal IsHeld
lookup-drop_lease m now l x h = ground (arith, lookup-remove x l.file m.ownership)

-- A dropped guard frees its own files and no other.
pub lookup-drop_guard :
    (m : Manager) (now : ℕ) (ls : List FileLease) (x : FilePath)
    → HeldAll m now ls
    → lookup x (drop_guard m ls).ownership
      ≡ (if contains (files ls) x then none else lookup x m.ownership)
unfolding drop_guard HeldAll files
lookup-drop_guard m now [] x h = refl
lookup-drop_guard m now (l ∷ ls) x h = ground (
  arith,
  lookup-drop_lease m now l x h.0,
  lookup-drop_guard (drop_lease m l) now ls x (
      HeldAll-SameAt m (drop_lease m l) now ls
        (λ y i. ground (arith, lookup-drop_lease m now l y h.0)) h.2),
)

pub HeldAll-current :
    (m : Manager) (now : ℕ) (ls : List FileLease) (x : FilePath)
    → HeldAll m now ls
    → contains (files ls) x ≡ true
    → is_some (current_owner m now x) ≡ true
unfolding HeldAll files IsHeld
HeldAll-current m now [] x h i = cc
HeldAll-current m now (l ∷ ls) x h i = ground (arith, HeldAll-current m now ls x)

pub contains-files-snoc :
    (ls : List FileLease) (l : FileLease) (x : FilePath)
    → contains (files (ls ++ l ∷ [])) x ≡ (contains (files ls) x || x == l.file)
unfolding files
contains-files-snoc [] l x = ground arith
contains-files-snoc (k ∷ ls) l x = ground (arith, contains-files-snoc ls l x)

pub HeldAll-snoc :
    (m : Manager) (now : ℕ) (ls : List FileLease) (l : FileLease)
    → HeldAll m now ls
    → IsHeld m now l
    → contains (files ls) l.file ≡ false
    → HeldAll m now (ls ++ l ∷ [])
unfolding HeldAll files
HeldAll-snoc m now [] l h held new = (held, refl, tt)
HeldAll-snoc m now (k ∷ ls) l h held new = (
  h.0,
  ground (arith, contains-files-snoc ls l k.file),
  HeldAll-snoc m now ls l h.2 held (ground arith),
)

abbrev pub AllBy : String → List FileLease → Type 0
AllBy r ls = all (λ l. l.owner == r) ls ≡ true

pub AllBy-snoc :
    (r : String) (ls : List FileLease) (l : FileLease)
    → AllBy r ls
    → (l.owner == r) ≡ true
    → AllBy r (ls ++ l ∷ [])
AllBy-snoc r [] l h k = ground arith
AllBy-snoc r (m ∷ ls) l h k = ground (arith, AllBy-snoc r ls l)

-- Whoever owns the leases of a held guard owns their files.
pub HeldAll-owner :
    (m : Manager) (now : ℕ) (r : String) (ls : List FileLease) (x : FilePath)
    → HeldAll m now ls
    → AllBy r ls
    → contains (files ls) x ≡ true
    → current_owner m now x ≡ some r
unfolding HeldAll files IsHeld
HeldAll-owner m now r [] x h b i = cc
HeldAll-owner m now r (l ∷ ls) x h b i = ground (arith, HeldAll-owner m now r ls x)
