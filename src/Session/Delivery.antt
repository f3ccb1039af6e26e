-- ===== src/Session/Delivery.antt =====
-- src/agent/multi/session/notification.rs: what a query returns, and what becomes of a new notification.
use claude_pilot.Base.{
  ℕ, zero, suc, ◌-◌, ◌≤◌, ◌<◌, String, ◌≡◌, refl, ap, ◌∙◌, inl, inr, Bool, true, false, ◌&&◌,
  Option, none, some, List, [], ◌∷◌, ◌++◌, arith, string_eq, list_eq, nat_eq, eq_refl,
  contains-set_insert, length, all, keep, ltb, if◌then◌else◌, Bool-cases, and_left, and_right,
  and_intro,
}
use mathlib.Core.List.{Perm}
use mathlib.Core.List.Perm
use claude_pilot.Session.Notification.{
  Notification, NotificationType, NotificationFilter, NotificationLog, acknowledge_by, new_filter,
  drop_excess, drop_old, cleanup, notification, add, matches_filter, goes_before, insert_sorted,
  is_for_agent, sort_notifications, truncate, query, acknowledge_first, acknowledge, latest_id,
}
use claude_pilot.Session.Log.{IsLog, ids_below, IsEnd, ids_below-append}

-- Each goes before its successor, and so before all that follow.
unfoldable pub in_order : List Notification → Bool
in_order [] = true
in_order (n ∷ ns) = let rest = in_order ns in all (goes_before n) ns && rest

goes_before_trans :
    (a b c : Notification)
    → goes_before a b ≡ true
    → goes_before b c ≡ true
    → goes_before a c ≡ true
unfolding goes_before
goes_before_trans a b c h k = ground arith

goes_before_or : (a b : Notification) → goes_before a b ≡ false → goes_before b a ≡ true
unfolding goes_before
goes_before_or a b h = ground arith

all-goes_before :
    (a b : Notification) (ns : List Notification)
    → goes_before a b ≡ true
    → all (goes_before b) ns ≡ true
    → all (goes_before a) ns ≡ true
all-goes_before a b [] h k = refl
all-goes_before a b (n ∷ ns) h k = ground (arith, goes_before_trans a b n, all-goes_before a b ns)

all-insert_sorted :
    (a n : Notification) (ns : List Notification)
    → goes_before a n ≡ true
    → all (goes_before a) ns ≡ true
    → all (goes_before a) (insert_sorted n ns) ≡ true
unfolding insert_sorted
all-insert_sorted a n [] h k = ground arith
all-insert_sorted a n (m ∷ ms) h k = ground (arith, all-insert_sorted a n ms)

insert_sorted-in_order :
    (n : Notification) (ns : List Notification)
    → in_order ns ≡ true
    → in_order (insert_sorted n ns) ≡ true
unfolding insert_sorted in_order
insert_sorted-in_order n [] h = refl
insert_sorted-in_order n (m ∷ ms) h = elim (Bool-cases (goes_before n m)) [
  | inl first ↦ ground (arith, all-goes_before n m ms)
  | inr later ↦
      ground (arith, goes_before_or n m, insert_sorted-in_order n ms, all-insert_sorted m n ms)
]

sort-in_order : (ns : List Notification) → in_order (sort_notifications ns) ≡ true
unfolding sort_notifications in_order
sort-in_order [] = refl
sort-in_order (n ∷ ns) = insert_sorted-in_order n (sort_notifications ns) (sort-in_order ns)

insert_sorted-perm :
    (n : Notification) (ns : List Notification) → Perm (insert_sorted n ns) (n ∷ ns)
unfolding insert_sorted
insert_sorted-perm n [] = Perm.rfl
insert_sorted-perm n (m ∷ ms) = elim (Bool-cases (goes_before n m)) [
  | inl first ↦ rw (first, insert_sorted) Perm.rfl
  | inr later ↦
      rw (later, insert_sorted)
        (Perm.trans (Perm.cons m (insert_sorted-perm n ms)) (Perm.swap n m ms))
]

sort-perm : (ns : List Notification) → Perm (sort_notifications ns) ns
unfolding sort_notifications
sort-perm [] = Perm.rfl
sort-perm (n ∷ ns) =
    Perm.trans (insert_sorted-perm n (sort_notifications ns)) (Perm.cons n (sort-perm ns))

all-truncate :
    (p : Notification → Bool) (k : Option ℕ) (ns : List Notification)
    → all p ns ≡ true
    → all p (truncate k ns) ≡ true
unfolding truncate
all-truncate p none ns h = h
all-truncate p (some zero) ns h = refl
all-truncate p (some (suc k)) [] h = refl
all-truncate p (some (suc k)) (n ∷ ns) h = ground (arith, all-truncate p (some k) ns)

truncate-in_order :
    (k : Option ℕ) (ns : List Notification) → in_order ns ≡ true → in_order (truncate k ns) ≡ true
unfolding truncate in_order
truncate-in_order none ns h = h
truncate-in_order (some zero) ns h = refl
truncate-in_order (some (suc k)) [] h = refl
truncate-in_order (some (suc k)) (n ∷ ns) h =
    and_intro _ _ (all-truncate (goes_before n) (some k) ns (and_left _ _ h))
      (truncate-in_order (some k) ns (and_right _ _ h))

-- A query answers a beginning of an arrangement of the matching notifications, as long as the limit
-- allows, by falling priority and then by age; and without a limit all of them.
query_lem :
    (now : ℕ) (f : NotificationFilter) (log : NotificationLog)
    → (in_order (query now f log) ≡ true)
      × ((ranked : List Notification) × Perm ranked (keep (matches_filter now f) log.notifications)
          × (in_order ranked ≡ true)
          × (query now f log ≡ truncate f.limit ranked))
      × Perm
          (query now (record f { limit = none }) log)
          (keep (matches_filter now f) log.notifications)
unfolding query matches_filter
query_lem now f log = (
  truncate-in_order f.limit _ (sort-in_order matching),
  (sort_notifications matching, sort-perm matching, sort-in_order matching, refl),
  unlimited matching,
)
  where
    matching : List Notification
    matching = keep (matches_filter now f) log.notifications

    unlimited : (ns : List Notification) → Perm (truncate none (sort_notifications ns)) ns
    unlimited ns = unfold truncate in sort-perm ns

-- What an agent asks for: the notifications after an identifier that it has not acknowledged.
abbrev pub unread_after : ℕ → String → NotificationFilter
unread_after id agent = record new_filter {
  for_agent = some agent;
  after_id = some id;
  exclude_acknowledged = true;
}

keep_last :
    (p : Notification → Bool) (k : ℕ) (ns : List Notification) (n : Notification)
    → ((m : Notification) → p m ≡ true → k ≤ m.id)
    → ids_below k ns ≡ true
    → keep p (ns ++ n ∷ []) ≡ (if p n then n ∷ [] else [])
unfolding ids_below
keep_last p k [] n late below = refl
keep_last p k (m ∷ ms) n late below = ground (arith, late m, keep_last p k ms n late)

-- The newest notification survives both loops.
survives_excess :
    (max : ℕ) (ns : List Notification) (n : Notification)
    → 0 < max
    → (ms : List Notification) × IsEnd ms ns × (drop_excess max (ns ++ n ∷ []) ≡ ms ++ n ∷ [])
unfolding drop_excess
survives_excess max [] n pos = ([], ([], refl), ground arith)
survives_excess max (m ∷ ms) n pos = elim (Bool-cases (ltb max (length (m ∷ ms ++ n ∷ [])))) [
  | inl over ↦
      let rest = survives_excess max ms n pos in
      (rest.0, (m ∷ rest.1.0, ap (λ xs. m ∷ xs) rest.1.1), rw (over, drop_excess) rest.2)
  | inr fits ↦ (m ∷ ms, ([], refl), rw (fits, drop_excess) refl)
]

survives_age :
    (now age : ℕ) (ns : List Notification) (n : Notification)
    → n.timestamp ≡ now
    → (ms : List Notification) × IsEnd ms ns × (drop_old now age (ns ++ n ∷ []) ≡ ms ++ n ∷ [])
unfolding drop_old
survives_age now age [] n fresh = ([], ([], refl), ground arith)
survives_age now age (m ∷ ms) n fresh = elim (Bool-cases (ltb age (now - m.timestamp))) [
  | inl old ↦
      let rest = survives_age now age ms n fresh in
      (rest.0, (m ∷ rest.1.0, ap (λ xs. m ∷ xs) rest.1.1), rw (old, drop_old) rest.2)
  | inr young ↦ (m ∷ ms, ([], refl), rw (young, drop_old) refl)
]

module _ (now : ℕ) (source target : String) (kind : NotificationType) (log : NotificationLog) where
  abbrev newest : Notification
  newest = notification log.next_id now source target kind

  abbrev pub added : NotificationLog
  added = (add now source target kind log).0

  added_last :
      IsLog log
      → 0 < log.max_entries
      → (ms : List Notification) × (ids_below log.next_id ms ≡ true)
        × (added.notifications ≡ ms ++ newest ∷ [])
  unfolding add cleanup
  added_last ok pos =
      let recent = survives_excess log.max_entries log.notifications newest pos in
      let young = survives_age now log.max_age recent.0 newest refl in
      (
        young.0,
        ids_below-append log.next_id young.1.0 _
            (rw young.1.1 (ids_below-append log.next_id recent.1.0 _ (rw recent.1.1 ok.below))),
        ap (drop_old now log.max_age) recent.2 ∙ young.2,
      )

  acknowledge_last :
      (agent : String) (ms : List Notification)
      → ids_below log.next_id ms ≡ true
      → acknowledge_first log.next_id agent (ms ++ newest ∷ [])
        ≡ ms ++ acknowledge_by agent newest ∷ []
  unfolding acknowledge_first ids_below
  acknowledge_last agent [] below = ground arith
  acknowledge_last agent (m ∷ ms) below = ground (arith, acknowledge_last agent ms)

  late :
      (agent : String) (m : Notification)
      → matches_filter now (unread_after (latest_id log) agent) m ≡ true
      → 0 < log.next_id
      → log.next_id ≤ m.id
  unfolding matches_filter latest_id
  late agent m h pos = ground arith

  -- In a log with room for an entry, a new notification is what its addressee finds when it asks for
  -- those after the latest before, and nothing else; once acknowledged, it is not found again.
  added-query :
      (agent : String)
      → IsLog log
      → 0 < log.max_entries
      → is_for_agent agent newest ≡ true
      → (query now (unread_after (latest_id log) agent) added ≡ newest ∷ [])
        × (query now (unread_after (latest_id log) agent) (acknowledge log.next_id agent added)
            ≡ [])
  unfolding query acknowledge truncate sort_notifications insert_sorted matches_filter latest_id
  added-query agent ok pos mine =
      let last = added_last ok pos in
      (
        rw
            (
              last.2,
              keep_last _ log.next_id last.0 newest (λ m h. late agent m h ok.numbered) last.1,
            )
            (ground (arith, mine, ok)),
        rw
            (
              last.2,
              acknowledge_last agent last.0 last.1,
              keep_last _ log.next_id last.0 (acknowledge_by agent newest)
                  (λ m h. late agent m h ok.numbered) last.1,
            )
            (ground (arith, eq_refl agent, contains-set_insert agent agent [])),
      )
