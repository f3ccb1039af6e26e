-- ===== src/Ownership/Types.antt =====
-- src/agent/multi/ownership/mod.rs: the data of the file ownership manager. A path is the list of
-- its components, an instant and a duration are numbers of seconds.
use Prim.Native.String.{compare}
use Prim.Native.Nat.{Ordering}
use claude_pilot.Base.{
  ℕ, ◌-◌, String, Bool, true, false, Option, List, [], ◌∷◌, ltb, ◌&&◌, ◌==◌, string_eq, list_eq,
  if◌then◌else◌,
}

abbrev pub FilePath : Type 0
FilePath = List String

-- `Path::starts_with`: whole components.
unfoldable pub starts_with : FilePath → FilePath → Bool
starts_with p [] = true
starts_with [] (c ∷ cs) = false
starts_with (b ∷ bs) (c ∷ cs) = b == c && starts_with bs cs

-- The order of paths, component by component.
unfoldable pub path_le : FilePath → FilePath → Bool
path_le [] q = true
path_le (b ∷ bs) [] = false
path_le (b ∷ bs) (c ∷ cs) =
    let rest = path_le bs cs in
    elim (compare b c) [ Ordering.lt ↦ true | Ordering.eq ↦ rest | Ordering.gt ↦ false ]

unfoldable pub insert_path : FilePath → List FilePath → List FilePath
insert_path p [] = p ∷ []
insert_path p (q ∷ qs) = if path_le p q then p ∷ q ∷ qs else q ∷ insert_path p qs

-- `slice::sort`.
unfoldable pub sort_paths : List FilePath → List FilePath
sort_paths [] = []
sort_paths (p ∷ ps) = insert_path p (sort_paths ps)

pub data AccessType : Type 0 where
  exclusive shared_read collaborative : AccessType

pub record FileOwnership : Type 0 where
  pub owner : String
  pub access : AccessType
  pub expires_at : ℕ
  pub reason : String
  pub version : ℕ
  pub owner_module : Option String

unfoldable pub is_expired : ℕ → FileOwnership → Bool
is_expired now o = ltb o.expires_at now

-- Subtraction saturates, in the code as here.
unfoldable pub remaining_time : ℕ → FileOwnership → ℕ
remaining_time now o = o.expires_at - now

-- `released` is the flag by which a lease is released once.
pub record FileLease : Type 0 where
  pub file : FilePath
  pub owner : String
  pub version : ℕ
  pub released : Bool

-- `denied` holds the two module names of the message.
pub data AcquisitionResult : Type 0 where
  granted : FileLease → AcquisitionResult
  queued : ℕ → ℕ → AcquisitionResult
  denied : String → String → AcquisitionResult
  needs_negotiation : List String → AcquisitionResult

unfoldable pub is_conflict : AcquisitionResult → Bool
is_conflict (granted l) = false
is_conflict (queued p w) = true
is_conflict (denied a b) = true
is_conflict (needs_negotiation ms) = true

pub record WaitingEntry : Type 0 where
  pub requester : String
  pub waiter_module : Option String
  pub requested_at : ℕ
  pub priority : ℕ

pub record Manager : Type 0 where
  pub ownership : List (FilePath × FileOwnership)
  pub wait_queues : List (FilePath × List WaitingEntry)
  pub module_defaults : List (FilePath × String)
  pub module_dependencies : List (String × List String)
  pub version_counter : ℕ
  pub default_lease_duration : ℕ
  pub deferred_tasks : List (FilePath × List String)

-- The arguments that `acquire` and its callers pass on.
pub record Request : Type 0 where
  pub requester : String
  pub requester_module : Option String
  pub access : AccessType
  pub reason : String

-- A `LeaseGuard` is the list of its leases.
pub data OrderedResult : Type 0 where
  acquired : List FileLease → OrderedResult
  refused : AcquisitionResult → OrderedResult
