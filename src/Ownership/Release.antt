-- ===== src/Ownership/Release.antt =====
-- Releases: who may release a file, and which deferred tasks come back.
use claude_pilot.Base.{
  ℕ, String, ◌≡◌, false, ◌&&◌, none, some, List, [], ◌∷◌, ◌++◌, arith, ◌==◌, string_eq, list_eq,
  nat_eq, if◌then◌else◌,
}
use claude_pilot.Base.Assoc.{lookup, lookup-remove}
use claude_pilot.Ownership.{
  FilePath, Manager, is_held_by, release, release_and_get_deferred, register_deferred_task,
}

-- The current owner under the current version, and nobody else, releases a file; the file is then
-- free and every other file keeps its owner. Any other release changes nothing.
pub release_lem :
    (m : Manager) (f x : FilePath) (owner : String) (version : ℕ)
    → ((release m f owner version).1 ≡ is_held_by owner version (lookup f m.ownership))
      × (lookup x (release m f owner version).0.ownership
          ≡ (if f == x && (release m f owner version).1 then none else lookup x m.ownership))
      × ((release m f owner version).1 ≡ false → (release m f owner version).0 ≡ m)
unfolding release
release_lem m f x owner version =
    (ground arith, ground (arith, lookup-remove x f m.ownership), λ h. ground arith)

abbrev pub registered : Manager → FilePath → List String
registered m f = elim (lookup f m.deferred_tasks) [ none ↦ [] | some ts ↦ ts ]

-- Tasks deferred on a file, one after the other.
unfoldable pub register_all : FilePath → List String → Manager → Manager
register_all f [] m = m
register_all f (t ∷ ts) m = register_all f ts (register_deferred_task m f t)

-- Somebody asks for the release of a file: an owner and a version.
abbrev pub Claim : Type 0
Claim = String × ℕ

-- The claims one after the other; the tasks that came back to any of them.
unfoldable pub release_each : FilePath → List Claim → Manager → Manager × List String
release_each f [] m = (m, [])
release_each f ((owner, version) ∷ cs) m =
    let first = release_and_get_deferred m f owner version in
    let later = release_each f cs first.0 in (later.0, first.1 ++ later.1)
