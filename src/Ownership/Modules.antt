-- ===== src/Ownership/Modules.antt =====
-- src/agent/multi/ownership/mod.rs and tracking.rs: a new manager, and the modules that own files.
use claude_pilot.Base.{
  ℕ, String, Bool, true, false, Option, none, some, List, [], ◌∷◌, ◌==◌, string_eq, list_eq,
  contains, set_insert, leb, if◌then◌else◌, length,
}
use claude_pilot.Base.Assoc.{lookup, insert}
use claude_pilot.Ownership.Types.{FilePath, starts_with, is_expired, WaitingEntry, Manager}

unfoldable pub new : Manager
new = record {
  ownership = [];
  wait_queues = [];
  module_defaults = [];
  module_dependencies = [];
  version_counter = 0;
  default_lease_duration = 300;
  deferred_tasks = [];
}

-- The loops of `add_modules`, over the entries of its two maps.
unfoldable pub add_files :
    String → List FilePath → List (FilePath × String) → List (FilePath × String)
add_files owner [] defaults = defaults
add_files owner (f ∷ fs) defaults = add_files owner fs (insert f owner defaults)

unfoldable pub add_module_files :
    List (String × List FilePath) → List (FilePath × String) → List (FilePath × String)
add_module_files [] defaults = defaults
add_module_files ((owner, files) ∷ rest) defaults =
    add_module_files rest (add_files owner files defaults)

unfoldable pub add_dependencies :
    List (String × List String) → List (String × List String) → List (String × List String)
add_dependencies [] known = known
add_dependencies ((owner, deps) ∷ rest) known = add_dependencies rest (insert owner deps known)

unfoldable pub add_modules :
    Manager → List (String × List FilePath) → List (String × List String) → Manager
add_modules m files deps = record m {
  module_defaults = add_module_files files m.module_defaults;
  module_dependencies = add_dependencies deps m.module_dependencies;
}

unfoldable pub with_module_map :
    List (String × List FilePath) → List (String × List String) → Manager
unfolding new add_modules
with_module_map files deps = add_modules new files deps

unfoldable pub find_prefix : FilePath → List (FilePath × String) → Option String
find_prefix file [] = none
find_prefix file ((p, owner) ∷ rest) =
    if starts_with file p then some owner else find_prefix file rest

unfoldable pub get_default_owner : Manager → FilePath → Option String
get_default_owner m file = elim (lookup file m.module_defaults) [
  | some owner ↦ some owner
  | none ↦ find_prefix file m.module_defaults
]

unfoldable pub is_same_or_allowed_module : Manager → String → String → Bool
is_same_or_allowed_module m requester owner =
    if requester == owner then true else elim (lookup requester m.module_dependencies) [
      | some deps ↦ contains deps owner
      | none ↦ false
    ]

unfoldable pub insert_some : Option String → List String → List String
insert_some none xs = xs
insert_some (some x) xs = set_insert x xs

unfoldable pub waiting_modules : List WaitingEntry → List String → List String
waiting_modules [] xs = xs
waiting_modules (e ∷ es) xs = waiting_modules es (insert_some e.waiter_module xs)

-- The module that holds the file now.
unfoldable pub live_module : Manager → ℕ → FilePath → Option String
live_module m now file = elim (lookup file m.ownership) [
  | none ↦ none
  | some o ↦ if is_expired now o then none else o.owner_module
]

unfoldable pub queue_of : Manager → FilePath → List WaitingEntry
queue_of m file = elim (lookup file m.wait_queues) [ none ↦ [] | some q ↦ q ]

unfoldable pub involved_modules : Manager → ℕ → FilePath → Option String → List String
involved_modules m now file requester_module =
    insert_some requester_module
      (waiting_modules (queue_of m file) (insert_some (live_module m now file) []))

unfoldable pub detect_cross_module_conflict :
    Manager → ℕ → FilePath → Option String → Option (List String)
detect_cross_module_conflict m now file requester_module =
    let involved = involved_modules m now file requester_module in
    if leb 3 (length involved) then some involved else none

-- The two modules of a boundary violation: the requester's and the owner's.
unfoldable pub boundary_violation : Manager → FilePath → Option String → Option (String × String)
boundary_violation m file none = none
boundary_violation m file (some requester) = elim (get_default_owner m file) [
  | none ↦ none
  | some owner ↦
      if is_same_or_allowed_module m requester owner then none else some (requester, owner)
]
