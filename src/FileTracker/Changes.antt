-- ===== src/FileTracker/Changes.antt =====
-- src/verification/file_tracker.rs: each path is in the list that its two states ask for.
use claude_pilot.Base.{
  ℕ, ◌+◌, String, ◌≡◌, Bool, true, false, Option, none, some, List, arith, string_eq, list_eq,
  nat_eq, contains, if◌then◌else◌,
}
use claude_pilot.Base.Assoc.{lookup, keys, contains-keys, contains-keep}
use claude_pilot.FileTracker.{
  FileTracker, FileState, same_state, is_created, is_modified, is_deleted, changes,
  is_within_execution_window,
}

abbrev count : Bool → ℕ
count b = if b then 1 else 0

-- The state is the same, or absent twice.
abbrev pub same_states : Option FileState → Option FileState → Bool
same_states none none = true
same_states (some a) (some b) = same_state a b
same_states _ _ = false

-- A state, if any, falls into the window.
abbrev pub in_window : FileTracker → Option FileState → Bool
in_window t none = true
in_window t (some a) = is_within_execution_window t a

-- What `sort` has to do with its list.
abbrev pub KeepsElements : (List String → List String) → Type 0
KeepsElements sort = (xs : List String) (x : String) → contains (sort xs) x ≡ contains xs x

module _ (sort : List String → List String) (keeps : KeepsElements sort) (t : FileTracker)
    (p : String) where
  abbrev before : Option FileState
  before = lookup p t.before_snapshot

  abbrev after : Option FileState
  after = lookup p t.after_snapshot

  -- Each list holds a path as the two states that the snapshots have of it say.
  changes_lem :
      (contains (changes sort t).created p ≡ is_created t before after)
      × (contains (changes sort t).modified p ≡ is_modified t before after)
      × (contains (changes sort t).deleted p ≡ is_deleted t p before after)
  unfolding changes is_created is_modified is_deleted
  changes_lem = (
    rw
        (
          keeps,
          contains-keep (λ q. is_created t (lookup q t.before_snapshot) (lookup q t.after_snapshot))
              (keys t.after_snapshot) p,
          contains-keys t.after_snapshot p,
        )
        (ground arith),
    rw
        (
          keeps,
          contains-keep
              (λ q. is_modified t (lookup q t.before_snapshot) (lookup q t.after_snapshot))
              (keys t.before_snapshot) p,
          contains-keys t.before_snapshot p,
        )
        (ground arith),
    rw
        (
          keeps,
          contains-keep
              (λ q. is_deleted t q (lookup q t.before_snapshot) (lookup q t.after_snapshot))
              (keys t.before_snapshot) p,
          contains-keys t.before_snapshot p,
        )
        (ground arith),
  )

  abbrev pub times_listed : ℕ
  times_listed =
      count (contains (changes sort t).created p)
      + count (contains (changes sort t).modified p)
      + count (contains (changes sort t).deleted p)

  -- For a task that runs alone, a path whose state after it, if any, falls into the window of the task is
  -- in exactly one of the three lists when its state changed, and in none when not.
  pub changes_once :
      t.parallel_mode ≡ false
      → in_window t after ≡ true
      → times_listed ≡ (if same_states before after then 0 else 1)
  unfolding is_created is_modified is_deleted
  changes_once alone window =
      rw (changes_lem.0, changes_lem.1, changes_lem.2) (ground (arith, alone, window))

  -- A path whose state after the task is out of the window is in none of the lists, whether it is new or
  -- changed, and whether or not tasks run in parallel.
  changes_out_of_window :
      (a : FileState) → after ≡ some a → is_within_execution_window t a ≡ false → times_listed ≡ 0
  unfolding is_created is_modified is_deleted
  changes_out_of_window a e out =
      rw (changes_lem.0, changes_lem.1, changes_lem.2) (ground (arith, e, out))
