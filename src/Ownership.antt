-- ===== src/Ownership.antt =====
-- src/agent/multi/ownership: leases on files, wait queues and module boundaries. Each method is
-- one step: the interleaving of two calls inside a method is not modelled. A method that reads the
-- clock takes the instant as its argument `now`.
mod Types
mod Modules
mod Waiters
unfoldable pub use Types.*
unfoldable pub use Modules.*
unfoldable pub use Waiters.*
pub mod Acquire
pub mod Release
pub mod Guard
pub mod Ordered
pub mod Queue
pub mod Queues
pub mod Tests
use claude_pilot.Base.{
  ℕ, zero, suc, ◌+◌, ◌*◌, ◌%◌, ◌^◌, String, Bool, true, false, ◌&&◌, ◌||◌, not, Option, none, some,
  List, [], ◌∷◌, ◌++◌, DecEq, ◌==◌, string_eq, list_eq, contains, set_insert, is_some, eqb, ltb,
  leb, is_empty, if◌then◌else◌, keep, any, length,
}
use claude_pilot.Base.Assoc.{lookup, insert, remove}

abbrev pub same_module : Option String → Option String → Bool
same_module (some a) (some b) = a == b
same_module none b = true
same_module (some a) none = true

-- The `match` of `acquire`: whether a second access may join a live one.
unfoldable pub may_share : AccessType → AccessType → Option String → Option String → Bool
may_share shared_read shared_read a b = true
may_share collaborative collaborative a b = same_module a b
may_share _ _ a b = false

-- The live ownership that a request has to wait for.
unfoldable pub blocking_owner : Manager → ℕ → FilePath → Request → Option FileOwnership
blocking_owner m now file q = elim (lookup file m.ownership) [
  | none ↦ none
  | some o ↦
      if is_expired now o
      then none
      else if may_share o.access q.access q.requester_module o.owner_module
      then none
      else some o
]

abbrev pub new_ownership : Manager → ℕ → Request → FileOwnership
new_ownership m now q = record {
  owner = q.requester;
  access = q.access;
  expires_at = now + m.default_lease_duration;
  reason = q.reason;
  version = m.version_counter;
  owner_module = q.requester_module;
}

abbrev pub lease : FilePath → String → ℕ → FileLease
lease f owner version = record { file = f; owner = owner; version = version; released = false }

-- `fetch_add` on a `u64` wraps.
unfoldable pub grant_ownership : Manager → ℕ → FilePath → Request → Manager × AcquisitionResult
grant_ownership m now file q = (
  record m {
    ownership = insert file (new_ownership m now q) m.ownership;
    version_counter = (m.version_counter + 1) % 2 ^ 64;
  },
  granted (lease file q.requester m.version_counter),
)

unfoldable pub acquire : Manager → ℕ → FilePath → Request → Manager × AcquisitionResult
acquire m now file q = elim (detect_cross_module_conflict m now file q.requester_module) [
  | some modules ↦ (m, needs_negotiation modules)
  | none ↦ elim (boundary_violation m file q.requester_module) [
    | some (requester, owner) ↦ (m, denied requester owner)
    | none ↦ elim (blocking_owner m now file q) [
      | some o ↦ (m, queued 1 (remaining_time now o))
      | none ↦ grant_ownership m now file q
    ]
  ]
]

-- `DashMap::remove_if` under the test of `release`.
unfoldable pub is_held_by : String → ℕ → Option FileOwnership → Bool
is_held_by owner version none = false
is_held_by owner version (some o) = o.owner == owner && eqb o.version version

unfoldable pub release : Manager → FilePath → String → ℕ → Manager × Bool
release m file owner version =
    if is_held_by owner version (lookup file m.ownership)
    then (record m { ownership = remove file m.ownership }, true)
    else (m, false)

unfoldable pub release_internal : Manager → FilePath → String → ℕ → Manager
unfolding release
release_internal m file owner version = (release m file owner version).0

-- `Drop for FileLease`.
unfoldable pub drop_lease : Manager → FileLease → Manager
drop_lease m l = if l.released then m else release_internal m l.file l.owner l.version

-- The leases of a guard are dropped from the first to the last.
unfoldable pub drop_guard : Manager → List FileLease → Manager
drop_guard m [] = m
drop_guard m (l ∷ ls) = drop_guard (drop_lease m l) ls

unfoldable pub release_and_get_deferred : Manager → FilePath → String → ℕ → Manager × List String
release_and_get_deferred m file owner version =
    if is_held_by owner version (lookup file m.ownership)
    then (
      record m {
        ownership = remove file m.ownership;
        deferred_tasks = remove file m.deferred_tasks;
      },
      elim (lookup file m.deferred_tasks) [ none ↦ [] | some tasks ↦ tasks ],
    )
    else (m, [])

-- `LeaseGuard::release_and_get_deferred`.
unfoldable pub release_guard : Manager → List FileLease → Manager × List String
release_guard m [] = (m, [])
release_guard m (l ∷ ls) =
    let (m', tasks) =
      if l.released then (m, []) else release_and_get_deferred m l.file l.owner l.version in
    let (m'', more) = release_guard m' ls in (m'', tasks ++ more)

unfoldable pub acquire_with_fair_queue :
    Manager → ℕ → FilePath → Request → Manager × AcquisitionResult
acquire_with_fair_queue m now file q = elim (front (queue_of m file)) [
  | none ↦ acquire m now file q
  | some first ↦ if first.requester == q.requester then acquire m now file q else (
    m,
    queued (told_position q.requester (queue_of m file))
        (30 * told_position q.requester (queue_of m file)),
  )
]

-- The loop of `acquire_ordered`; an early return drops the guard.
unfoldable pub acquire_each :
    Manager → ℕ → List FilePath → Request → List FileLease → Manager × OrderedResult
acquire_each m now [] q guard = (m, acquired guard)
acquire_each m now (f ∷ fs) q guard =
    let (m', r) = acquire_with_fair_queue m now f q in
    elim r [
      | granted lease ↦ acquire_each m' now fs q (guard ++ lease ∷ [])
      | queued p w ↦ (drop_guard m' guard, refused (queued p w))
      | denied a b ↦ (drop_guard m' guard, refused (denied a b))
      | needs_negotiation ms ↦ (drop_guard m' guard, refused (needs_negotiation ms))
    ]

-- The test for an empty list is in the first clause of `acquire_each`.
unfoldable pub acquire_ordered : Manager → ℕ → List FilePath → Request → Manager × OrderedResult
unfolding acquire_each
acquire_ordered m now files q = acquire_each m now (sort_paths files) q []

unfoldable pub cleanup_expired : Manager → ℕ → Manager
cleanup_expired m now = record m {
  ownership = retain_live now m.ownership;
  wait_queues = retain_recent now m.wait_queues;
}

unfoldable pub current_owner : Manager → ℕ → FilePath → Option String
current_owner m now file = elim (lookup file m.ownership) [
  | none ↦ none
  | some o ↦ if is_expired now o then none else some o.owner
]

unfoldable pub register_deferred_task : Manager → FilePath → String → Manager
register_deferred_task m file task = record m {
  deferred_tasks =
      insert file
        (elim (lookup file m.deferred_tasks) [ none ↦ task ∷ [] | some ts ↦ ts ++ task ∷ [] ])
        m.deferred_tasks;
}
