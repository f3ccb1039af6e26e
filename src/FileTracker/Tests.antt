-- ===== src/FileTracker/Tests.antt =====
-- A task that changes one file, makes one and removes one, and the theorems at this run.
use claude_pilot.Base.{
  ℕ, String, ◌≡◌, refl, some, List, [], ◌∷◌, string_eq, list_eq, nat_eq, decide_by, string_dec,
}
use claude_pilot.Base.Assoc.{lookup}
use claude_pilot.FileTracker.{
  FileTracker, FileState, new, capture_before, capture_after, changes, is_created, is_modified,
  is_deleted, is_within_execution_window, was_recently_active,
}
use claude_pilot.FileTracker.Changes.{KeepsElements, times_listed, changes_once}

runs : String
unfolding string_dec decide_by lookup new capture_before capture_after changes is_created
    is_modified is_deleted is_within_execution_window was_recently_active
runs = "runs"

abbrev state : ℕ → ℕ → FileState
state time size = record { modified_time = some time; size = size }

-- Each list has one path or none, so that there is nothing to sort.
abbrev as_it_is : List String → List String
as_it_is xs = xs

as_it_is-KeepsElements : KeepsElements as_it_is
as_it_is-KeepsElements xs x = refl

abbrev tracker : FileTracker
tracker =
    capture_after 12000
      (("main.rs", state 11000 70) ∷ ("lib.rs", state 11500 10) ∷ ("copied.rs", state 500 30) ∷ [])
      (capture_before 10000 (("main.rs", state 900 60) ∷ ("old.rs", state 800 20) ∷ []) new)

all_changes :
    changes as_it_is tracker
    ≡ record { created = "lib.rs" ∷ []; modified = "main.rs" ∷ []; deleted = "old.rs" ∷ [] }
unfolding runs
all_changes = refl

changes_once_example : times_listed as_it_is as_it_is-KeepsElements tracker "main.rs" ≡ 1
unfolding runs
changes_once_example = changes_once as_it_is as_it_is-KeepsElements tracker "main.rs" refl refl
