-- ===== src/Session/Notification.antt =====
-- src/agent/multi/session/notification.rs: the log of notifications that the agents of a session
-- read. The clock is an argument, in milliseconds, as the durations are. The text for a language
-- model is left out.
use claude_pilot.Base.{
  ℕ, zero, suc, ◌+◌, ◌-◌, ◌%◌, ◌^◌, String, Bool, true, false, ◌&&◌, ◌||◌, not, Option, none, some,
  List, [], ◌∷◌, ◌++◌, ◌==◌, string_eq, list_eq, nat_eq, contains, set_insert, length, any, keep,
  ltb, leb, eqb, if◌then◌else◌,
}
use claude_pilot.Base.Assoc.{lookup, insert}

pub data NotificationType : Type 0 where
  task_assigned : (task_id : String) (agent_id : String) → NotificationType
  task_completed :
      (task_id : String) (agent_id : String) (files_modified : List String) → NotificationType
  task_failed : (task_id : String) (agent_id : String) (error : String) → NotificationType
  conflict_detected :
      (conflict_id : String) (agents : List String) (files : List String) (description : String)
      → NotificationType
  conflict_resolved : (conflict_id : String) (resolution : String) → NotificationType
  progress_update :
      (agent_id : String) (task_id : String) (progress_percent : ℕ) (message : String)
      → NotificationType
  lock_acquired lock_released : (resource : String) (holder : String) → NotificationType
  coordination_request :
      (request_id : String) (requester : String) (coordination_type : String) (payload : String)
      → NotificationType
  phase_changed : (from_phase : String) (to_phase : String) → NotificationType
  checkpoint_created : (checkpoint_id : String) (reason : String) → NotificationType
  text : (message : String) → NotificationType

unfoldable pub is_conflict_related : NotificationType → Bool
is_conflict_related (conflict_detected _ _ _ _) = true
is_conflict_related (conflict_resolved _ _) = true
is_conflict_related _ = false

unfoldable pub is_task_related : NotificationType → Bool
is_task_related (task_assigned _ _) = true
is_task_related (task_completed _ _ _) = true
is_task_related (task_failed _ _ _) = true
is_task_related (progress_update _ _ _ _) = true
is_task_related _ = false

unfoldable pub is_lock_related : NotificationType → Bool
is_lock_related (lock_acquired _ _) = true
is_lock_related (lock_released _ _) = true
is_lock_related _ = false

unfoldable pub is_phase_change : NotificationType → Bool
is_phase_change (phase_changed _ _) = true
is_phase_change _ = false

unfoldable pub affected_task : NotificationType → Option String
affected_task (task_assigned t _) = some t
affected_task (task_completed t _ _) = some t
affected_task (task_failed t _ _) = some t
affected_task (progress_update _ t _ _) = some t
affected_task _ = none

unfoldable pub affected_files : NotificationType → List String
affected_files (task_completed _ _ files) = files
affected_files (conflict_detected _ _ files _) = files
affected_files _ = []

pub record Notification : Type 0 where
  pub id : ℕ
  pub timestamp : ℕ
  pub source : String
  pub target : String
  pub notification_type : NotificationType
  pub priority : ℕ
  pub acknowledged_by : List String

unfoldable pub is_for_agent : String → Notification → Bool
is_for_agent agent n = (n.target == "*") || (n.target == agent)

abbrev pub acknowledge_by : String → Notification → Notification
acknowledge_by agent n = record n { acknowledged_by = set_insert agent n.acknowledged_by }

pub data NotificationTypeFilter : Type 0 where
  task_related conflict_related lock_related phase_change all_types : NotificationTypeFilter

pub record NotificationFilter : Type 0 where
  pub for_agent : Option String
  pub after_id : Option ℕ
  pub max_age : Option ℕ
  pub types : Option (List NotificationTypeFilter)
  pub related_tasks : Option (List String)
  pub related_files : Option (List String)
  pub limit : Option ℕ
  pub exclude_acknowledged : Bool

abbrev pub new_filter : NotificationFilter
new_filter = record {
  for_agent = none;
  after_id = none;
  max_age = none;
  types = none;
  related_tasks = none;
  related_files = none;
  limit = none;
  exclude_acknowledged = false;
}

pub record NotificationLog : Type 0 where
  pub notifications : List Notification
  pub next_id : ℕ
  pub max_entries : ℕ
  pub max_age : ℕ
  pub by_task : List (String × List ℕ)
  pub by_file : List (String × List ℕ)

abbrev pub new_log : ℕ → ℕ → NotificationLog
new_log max_entries max_age = record {
  notifications = [];
  next_id = 1;
  max_entries = max_entries;
  max_age = max_age;
  by_task = [];
  by_file = [];
}

-- `entry(k).or_default().push(id)`
abbrev pub push_entry {ℓ} :
    {A : Type ℓ} → String → A → List (String × List A) → List (String × List A)
push_entry k id m = insert k (elim (lookup k m) [ none ↦ id ∷ [] | some ids ↦ ids ++ id ∷ [] ]) m

unfoldable pub index_task : ℕ → Option String → List (String × List ℕ) → List (String × List ℕ)
index_task id none m = m
index_task id (some t) m = push_entry t id m

unfoldable pub index_files : ℕ → List String → List (String × List ℕ) → List (String × List ℕ)
index_files id [] m = m
index_files id (f ∷ fs) m = index_files id fs (push_entry f id m)

-- The two loops of `cleanup`.
unfoldable pub drop_excess : ℕ → List Notification → List Notification
drop_excess max [] = []
drop_excess max (n ∷ ns) = if ltb max (length (n ∷ ns)) then drop_excess max ns else n ∷ ns

unfoldable pub drop_old : ℕ → ℕ → List Notification → List Notification
drop_old now age [] = []
drop_old now age (n ∷ ns) = if ltb age (now - n.timestamp) then drop_old now age ns else n ∷ ns

unfoldable pub cleanup : ℕ → NotificationLog → NotificationLog
cleanup now log = record log {
  notifications = drop_old now log.max_age (drop_excess log.max_entries log.notifications);
}

abbrev pub notification : ℕ → ℕ → String → String → NotificationType → Notification
notification id now source target kind = record {
  id = id;
  timestamp = now;
  source = source;
  target = target;
  notification_type = kind;
  priority = 0;
  acknowledged_by = [];
}

-- Returns the identifier too.
unfoldable pub add : ℕ → String → String → NotificationType → NotificationLog → NotificationLog × ℕ
add now source target kind log = (
  cleanup now (record log {
    next_id = (log.next_id + 1) % 2 ^ 64;
    by_task = index_task log.next_id (affected_task kind) log.by_task;
    by_file = index_files log.next_id (affected_files kind) log.by_file;
    notifications = log.notifications ++ notification log.next_id now source target kind ∷ [];
  }),
  log.next_id,
)

-- `back_mut`
unfoldable pub adjust_last {ℓ} : {A : Type ℓ} → (A → A) → List A → List A
adjust_last f [] = []
adjust_last f (x ∷ []) = f x ∷ []
adjust_last f (x ∷ y ∷ ys) = x ∷ adjust_last f (y ∷ ys)

unfoldable pub add_with_priority :
    ℕ → String → String → NotificationType → ℕ → NotificationLog → NotificationLog × ℕ
add_with_priority now source target kind priority log =
    let added = add now source target kind log in
    (
      record (added.0) {
        notifications = adjust_last (λ n. record n { priority = priority }) added.0.notifications;
      },
      added.1,
    )

abbrev pub given {ℓ} : {A : Type ℓ} → (A → Bool) → Option A → Bool
given p none = true
given p (some a) = p a

unfoldable pub is_of_type : Notification → NotificationTypeFilter → Bool
is_of_type n task_related = is_task_related n.notification_type
is_of_type n conflict_related = is_conflict_related n.notification_type
is_of_type n lock_related = is_lock_related n.notification_type
is_of_type n phase_change = is_phase_change n.notification_type
is_of_type n all_types = true

abbrev pub is_related_task : List String → Option String → Bool
is_related_task ts none = false
is_related_task ts (some t) = contains ts t

abbrev pub is_unread : Option String → Notification → Bool
is_unread none n = true
is_unread (some agent) n = not (contains n.acknowledged_by agent)

unfoldable pub matches_filter : ℕ → NotificationFilter → Notification → Bool
matches_filter now f n =
    given (λ agent. is_for_agent agent n) f.for_agent
    && given (λ id. ltb id n.id) f.after_id
    && given (λ age. leb (now - n.timestamp) age) f.max_age
    && given (λ ts. any (is_of_type n) ts) f.types
    && given (λ ts. is_related_task ts (affected_task n.notification_type)) f.related_tasks
    && given (λ fs. any (contains (affected_files n.notification_type)) fs) f.related_files
    && (not f.exclude_acknowledged || is_unread f.for_agent n)

-- Higher priority first, then the lower identifier.
unfoldable pub goes_before : Notification → Notification → Bool
goes_before a b = ltb b.priority a.priority || (eqb a.priority b.priority && leb a.id b.id)

unfoldable pub insert_sorted : Notification → List Notification → List Notification
insert_sorted n [] = n ∷ []
insert_sorted n (m ∷ ms) = if goes_before n m then n ∷ m ∷ ms else m ∷ insert_sorted n ms

-- `slice::sort_by`
unfoldable pub sort_notifications : List Notification → List Notification
sort_notifications [] = []
sort_notifications (n ∷ ns) = insert_sorted n (sort_notifications ns)

unfoldable pub truncate : Option ℕ → List Notification → List Notification
truncate none ns = ns
truncate (some zero) ns = []
truncate (some (suc k)) [] = []
truncate (some (suc k)) (n ∷ ns) = n ∷ truncate (some k) ns

unfoldable pub query : ℕ → NotificationFilter → NotificationLog → List Notification
query now f log =
    truncate f.limit (sort_notifications (keep (matches_filter now f) log.notifications))

unfoldable pub for_agent : ℕ → String → ℕ → NotificationLog → List Notification
for_agent now agent limit log =
    query now (record new_filter { for_agent = some agent; limit = some limit }) log

unfoldable pub acknowledge_first : ℕ → String → List Notification → List Notification
acknowledge_first id agent [] = []
acknowledge_first id agent (n ∷ ns) =
    if eqb n.id id then acknowledge_by agent n ∷ ns else n ∷ acknowledge_first id agent ns

unfoldable pub acknowledge : ℕ → String → NotificationLog → NotificationLog
acknowledge id agent log = record log {
  notifications = acknowledge_first id agent log.notifications;
}

unfoldable pub latest_id : NotificationLog → ℕ
latest_id log = log.next_id - 1
