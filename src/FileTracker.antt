-- ===== src/FileTracker.antt =====
-- src/verification/file_tracker.rs: which files a task changed, by two snapshots of the directory. A
-- snapshot is what walking the directory gave, and an instant is a number of milliseconds from the
-- earliest one; the rules for files to ignore are left out. `sort` is `slice::sort` on paths.
mod Changes
mod Tests
use claude_pilot.Base.{
  ℕ, zero, suc, ◌+◌, ◌-◌, ◌*◌, ◌/◌, ◌%◌, ◌^◌, ◌≤◌, ◌<◌, String, ◌≡◌, refl, sym, ap, ◌∙◌, subst, ◌≢◌,
  ◌↔◌, ◌⊎◌, inl, inr, ite, Bool, true, false, ◌&&◌, ◌||◌, not, Option, none, some, List, [], ◌∷◌,
  ◌++◌, map, arith, DecEq, ◌==◌, string_eq, list_eq, nat_eq, eq_refl, ==_iff, contains, is_subset,
  contains-set_insert, contains-append, set_insert, set_remove, length, length-append, all, any,
  keep, find, is_empty, is_some, is_none, ltb, leb, eqb, if◌then◌else◌, Bool-cases, and_left,
  and_right, and_intro, Option-cases, decide_by, string_dec, list_dec, ltb→lt, lt→ltb,
  length-keep-le, length-map,
}
use claude_pilot.Base.Assoc.{lookup, keys}

pub record FileState : Type 0 where
  pub modified_time : Option ℕ
  pub size : ℕ

abbrev pub same_time : Option ℕ → Option ℕ → Bool
same_time none none = true
same_time (some a) (some b) = eqb a b
same_time _ _ = false

-- The derived `==`.
abbrev pub same_state : FileState → FileState → Bool
same_state a b = same_time a.modified_time b.modified_time && eqb a.size b.size

abbrev pub FileStates : Type 0
FileStates = List (String × FileState)

pub record FileTracker : Type 0 where
  pub before_snapshot : FileStates
  pub after_snapshot : FileStates
  pub capture_start : Option ℕ
  pub capture_end : Option ℕ
  pub parallel_mode : Bool
  pub explicit_deletions : List String
  pub recency_threshold : ℕ

pub record TrackedFileChanges : Type 0 where
  pub created : List String
  pub modified : List String
  pub deleted : List String

unfoldable pub new : FileTracker
new = record {
  before_snapshot = [];
  after_snapshot = [];
  capture_start = none;
  capture_end = none;
  parallel_mode = false;
  explicit_deletions = [];
  recency_threshold = 5000;
}

abbrev pub with_parallel_mode : Bool → FileTracker → FileTracker
with_parallel_mode parallel t = record t { parallel_mode = parallel }

abbrev pub with_recency_threshold : ℕ → FileTracker → FileTracker
with_recency_threshold secs t = record t { recency_threshold = 1000 * secs }

unfoldable pub capture_before : ℕ → FileStates → FileTracker → FileTracker
capture_before now snapshot t = record t { capture_start = some now; before_snapshot = snapshot }

unfoldable pub capture_after : ℕ → FileStates → FileTracker → FileTracker
capture_after now snapshot t = record t { after_snapshot = snapshot; capture_end = some now }

unfoldable pub track_deletion : String → FileTracker → FileTracker
track_deletion path t = record t { explicit_deletions = set_insert path t.explicit_deletions }

unfoldable pub track_deletions : List String → FileTracker → FileTracker
track_deletions [] t = t
track_deletions (p ∷ ps) t = track_deletions ps (track_deletion p t)

unfoldable pub reset : FileTracker → FileTracker
reset t = record t {
  before_snapshot = [];
  after_snapshot = [];
  capture_start = none;
  capture_end = none;
  explicit_deletions = [];
}

-- `checked_sub(..).unwrap_or(..)`
abbrev pub back_from : ℕ → ℕ → ℕ
back_from start by = if ltb start by then start else start - by

abbrev pub within : Option ℕ → Option ℕ → Option ℕ → Bool
within (some start) (some end) (some modified) =
    leb (back_from start 1000) modified && leb modified (end + 1000)
within _ _ _ = true

unfoldable pub is_within_execution_window : FileTracker → FileState → Bool
is_within_execution_window t state = within t.capture_start t.capture_end state.modified_time

abbrev pub since : ℕ → Option ℕ → Option ℕ → Bool
since by (some start) (some modified) = leb (back_from start by) modified
since by _ _ = true

unfoldable pub was_recently_active : FileTracker → FileState → Bool
was_recently_active t state = since t.recency_threshold t.capture_start state.modified_time

-- The three tests, on what the snapshots hold of a path.
unfoldable pub is_created : FileTracker → Option FileState → Option FileState → Bool
is_created t none (some a) = is_within_execution_window t a
is_created t _ _ = false

unfoldable pub is_modified : FileTracker → Option FileState → Option FileState → Bool
is_modified t (some b) (some a) = not (same_state b a) && is_within_execution_window t a
is_modified t _ _ = false

unfoldable pub is_deleted : FileTracker → String → Option FileState → Option FileState → Bool
is_deleted t p (some b) none =
    not t.parallel_mode || contains t.explicit_deletions p || was_recently_active t b
is_deleted t p _ _ = false

unfoldable pub changes : (List String → List String) → FileTracker → TrackedFileChanges
changes sort t = record {
  created = sort (
      keep (λ p. is_created t (lookup p t.before_snapshot) (lookup p t.after_snapshot))
        (keys t.after_snapshot));
  modified = sort (
      keep (λ p. is_modified t (lookup p t.before_snapshot) (lookup p t.after_snapshot))
        (keys t.before_snapshot));
  deleted = sort (
      keep (λ p. is_deleted t p (lookup p t.before_snapshot) (lookup p t.after_snapshot))
        (keys t.before_snapshot));
}
