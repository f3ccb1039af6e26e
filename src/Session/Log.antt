-- ===== src/Session/Log.antt =====
-- src/agent/multi/session/notification.rs: what every call on the log keeps, and what a query returns.
use claude_pilot.Base.{
  ℕ, ◌+◌, ◌-◌, ◌%◌, ◌^◌, ◌≤◌, ◌<◌, String, ◌≡◌, refl, ap, subst, inl, inr, Bool, true, ◌&&◌, List,
  [], ◌∷◌, ◌++◌, map, arith, string_eq, list_eq, nat_eq, length, length-append, all, ltb,
  Bool-cases, length-map,
}
use claude_pilot.Session.Notification.{
  Notification, NotificationType, NotificationLog, drop_excess, drop_old, cleanup, notification,
  add, adjust_last, add_with_priority, acknowledge_first, acknowledge,
}

-- Identifiers grow along the list, from above a bound.
unfoldable pub ids_from : ℕ → List Notification → Bool
ids_from k [] = true
ids_from k (n ∷ ns) = let rest = ids_from n.id ns in ltb k n.id && rest

unfoldable pub ids_below : ℕ → List Notification → Bool
ids_below k ns = all (λ n. ltb n.id k) ns

pub record IsLog (log : NotificationLog) : Type 0 where
  pub growing : ids_from 0 log.notifications ≡ true
  pub below : ids_below log.next_id log.notifications ≡ true
  pub numbered : 0 < log.next_id
  pub fits : length log.notifications ≤ log.max_entries

ids_from-weaken :
    (j k : ℕ) (ns : List Notification) → j ≤ k → ids_from k ns ≡ true → ids_from j ns ≡ true
unfolding ids_from
ids_from-weaken j k [] le h = refl
ids_from-weaken j k (n ∷ ns) le h = ground arith

-- What the two loops of `cleanup` keep is an end of the list.
abbrev pub IsEnd : List Notification → List Notification → Type 0
IsEnd ns ms = (front : List Notification) × (front ++ ns ≡ ms)

pub drop_excess-IsEnd : (max : ℕ) (ns : List Notification) → IsEnd (drop_excess max ns) ns
unfolding drop_excess
drop_excess-IsEnd max [] = ([], refl)
drop_excess-IsEnd max (n ∷ ns) = elim (Bool-cases (ltb max (length (n ∷ ns)))) [
  | inl over ↦
      rw (over, drop_excess)
        (n ∷ (drop_excess-IsEnd max ns).0, ap (λ ms. n ∷ ms) (drop_excess-IsEnd max ns).1)
  | inr fits ↦ rw (fits, drop_excess) ([], refl)
]

pub drop_old-IsEnd : (now age : ℕ) (ns : List Notification) → IsEnd (drop_old now age ns) ns
unfolding drop_old
drop_old-IsEnd now age [] = ([], refl)
drop_old-IsEnd now age (n ∷ ns) = elim (Bool-cases (ltb age (now - n.timestamp))) [
  | inl old ↦
      rw (old, drop_old)
        (n ∷ (drop_old-IsEnd now age ns).0, ap (λ ms. n ∷ ms) (drop_old-IsEnd now age ns).1)
  | inr young ↦ rw (young, drop_old) ([], refl)
]

ids_from-append :
    (k : ℕ) (ms ns : List Notification) → ids_from k (ms ++ ns) ≡ true → ids_from k ns ≡ true
unfolding ids_from
ids_from-append k [] ns h = h
ids_from-append k (m ∷ ms) ns h =
    ids_from-weaken k m.id ns (ground arith) (ids_from-append m.id ms ns (ground arith))

pub ids_below-append :
    (k : ℕ) (ms ns : List Notification) → ids_below k (ms ++ ns) ≡ true → ids_below k ns ≡ true
unfolding ids_below
ids_below-append k [] ns h = h
ids_below-append k (m ∷ ms) ns h = ids_below-append k ms ns (ground arith)

drop_excess-length : (max : ℕ) (ns : List Notification) → length (drop_excess max ns) ≤ max
unfolding drop_excess
drop_excess-length max [] = omega arith
drop_excess-length max (n ∷ ns) = ground (arith, drop_excess-length max ns)

end_length : (ns ms : List Notification) → IsEnd ns ms → length ns ≤ length ms
end_length ns ms (front, e) = ground (arith, length-append front ns, ap length e)

pub cleanup-length :
    (now : ℕ) (log : NotificationLog)
    → length (cleanup now log).notifications ≤ (cleanup now log).max_entries
unfolding cleanup
cleanup-length now log = ground (
  arith,
  end_length _ _ (drop_old-IsEnd now log.max_age (drop_excess log.max_entries log.notifications)),
  drop_excess-length log.max_entries log.notifications,
)

-- Cleaning keeps an end of the list that fits.
cleanup-IsLog :
    (now : ℕ) (log : NotificationLog)
    → ids_from 0 log.notifications ≡ true
    → ids_below log.next_id log.notifications ≡ true
    → 0 < log.next_id
    → IsLog (cleanup now log)
unfolding cleanup
cleanup-IsLog now log up below pos = record {
  growing =
      ids_from-append 0 young.0 _ (rw young.1 (ids_from-append 0 recent.0 _ (rw recent.1 up)));
  below =
      ids_below-append log.next_id young.0 _
        (rw young.1 (ids_below-append log.next_id recent.0 _ (rw recent.1 below)));
  numbered = pos;
  fits = ground (arith, end_length _ _ young, drop_excess-length log.max_entries log.notifications);
}
  where
    recent : IsEnd (drop_excess log.max_entries log.notifications) log.notifications
    recent = drop_excess-IsEnd log.max_entries log.notifications

    young :
        IsEnd
          (drop_old now log.max_age (drop_excess log.max_entries log.notifications))
          (drop_excess log.max_entries log.notifications)
    young = drop_old-IsEnd now log.max_age (drop_excess log.max_entries log.notifications)

pub ids_from-snoc :
    (j k : ℕ) (ns : List Notification) (n : Notification)
    → j < k
    → n.id ≡ k
    → ids_from j ns ≡ true
    → ids_below k ns ≡ true
    → ids_from j (ns ++ n ∷ []) ≡ true
unfolding ids_from ids_below
ids_from-snoc j k [] n lt same h b = ground arith
ids_from-snoc j k (m ∷ ms) n lt same h b = ground (arith, ids_from-snoc m.id k ms n)

ids_below-snoc :
    (k : ℕ) (ns : List Notification) (n : Notification)
    → n.id ≡ k
    → ids_below k ns ≡ true
    → ids_below (k + 1) (ns ++ n ∷ []) ≡ true
unfolding ids_below
ids_below-snoc k [] n same b = ground arith
ids_below-snoc k (m ∷ ms) n same b = ground (arith, ids_below-snoc k ms n)

-- Identifiers do not wrap below 2^64.
abbrev pub may_add : NotificationLog → Bool
may_add log = ltb (log.next_id + 1) (2 ^ 64)

pub add-IsLog :
    (now : ℕ) (source target : String) (kind : NotificationType) (log : NotificationLog)
    → may_add log ≡ true
    → IsLog log
    → IsLog (add now source target kind log).0
unfolding add
add-IsLog now source target kind log room ok =
    cleanup-IsLog now _
      (ids_from-snoc 0 log.next_id log.notifications _ ok.numbered refl ok.growing ok.below)
      (subst
        (λ k.
          ids_below k (log.notifications ++ notification log.next_id now source target kind ∷ [])
          ≡ true)
        wide (ids_below-snoc log.next_id log.notifications _ refl ok.below))
      (ground (arith, room))
  where
    wide : log.next_id + 1 ≡ (log.next_id + 1) % 2 ^ 64
    wide = ground (arith, room)

-- A change of one notification that leaves its identifier leaves the invariant.
abbrev pub SameIds : List Notification → List Notification → Type 0
SameIds ns ms = map (λ (n : Notification). n.id) ns ≡ map (λ (n : Notification). n.id) ms

pub SameIds-le : (k : ℕ) (ns ms : List Notification) → SameIds ns ms → length ms ≤ k → length ns ≤ k
SameIds-le k ns ms same h = ground (
  arith,
  h,
  ap length same,
  length-map (λ (n : Notification). n.id) ns,
  length-map (λ (n : Notification). n.id) ms,
)

pub acknowledge_first-SameIds :
    (id : ℕ) (agent : String) (ns : List Notification) → SameIds (acknowledge_first id agent ns) ns
unfolding acknowledge_first
acknowledge_first-SameIds id agent [] = refl
acknowledge_first-SameIds id agent (n ∷ ns) = ground (arith, acknowledge_first-SameIds id agent ns)

pub adjust_last-SameIds :
    (p : ℕ) (ns : List Notification) → SameIds (adjust_last (λ n. record n { priority = p }) ns) ns
unfolding adjust_last
adjust_last-SameIds p [] = refl
adjust_last-SameIds p (n ∷ []) = refl
adjust_last-SameIds p (n ∷ m ∷ ms) = ap (λ ids. n.id ∷ ids) (adjust_last-SameIds p (m ∷ ms))

ids_from-SameIds :
    (k : ℕ) (ns ms : List Notification)
    → SameIds ns ms
    → ids_from k ms ≡ true
    → ids_from k ns ≡ true
unfolding ids_from
ids_from-SameIds k [] ms same h = refl
ids_from-SameIds k (n ∷ ns) [] same h = ground arith
ids_from-SameIds k (n ∷ ns) (m ∷ ms) same h = ground (arith, ids_from-SameIds m.id ns ms)

ids_below-SameIds :
    (k : ℕ) (ns ms : List Notification)
    → SameIds ns ms
    → ids_below k ms ≡ true
    → ids_below k ns ≡ true
unfolding ids_below
ids_below-SameIds k [] ms same h = refl
ids_below-SameIds k (n ∷ ns) [] same h = ground arith
ids_below-SameIds k (n ∷ ns) (m ∷ ms) same h = ground (arith, ids_below-SameIds k ns ms)

SameIds-IsLog :
    (log : NotificationLog) (ns : List Notification)
    → SameIds ns log.notifications
    → IsLog log
    → IsLog (record log { notifications = ns })
SameIds-IsLog log ns same ok = record {
  growing = ids_from-SameIds 0 ns log.notifications same ok.growing;
  below = ids_below-SameIds log.next_id ns log.notifications same ok.below;
  numbered = ok.numbered;
  fits = ground (
    arith,
    ap length same,
    ok.fits,
    length-map (λ (n : Notification). n.id) ns,
    length-map (λ (n : Notification). n.id) log.notifications,
  );
}

pub data LogCall : Type 0 where
  adds : ℕ → String → String → NotificationType → LogCall
  adds_with_priority : ℕ → String → String → NotificationType → ℕ → LogCall
  acknowledges : ℕ → String → LogCall

unfoldable pub step_log : LogCall → NotificationLog → NotificationLog
step_log (adds now source target kind) log = (add now source target kind log).0
step_log (adds_with_priority now source target kind p) log =
    (add_with_priority now source target kind p log).0
step_log (acknowledges id agent) log = acknowledge id agent log

-- Below 2^64 notifications, every call on the log leaves it with identifiers that grow from the oldest
-- to the newest, all below the next one, and with no more entries than its limit.
pub step_log-IsLog :
    (c : LogCall) (log : NotificationLog) → may_add log ≡ true → IsLog log → IsLog (step_log c log)
unfolding step_log add_with_priority acknowledge
step_log-IsLog (adds now source target kind) log room ok =
    add-IsLog now source target kind log room ok
step_log-IsLog (adds_with_priority now source target kind p) log room ok =
    SameIds-IsLog (add now source target kind log).0 _
      (adjust_last-SameIds p (add now source target kind log).0.notifications)
      (add-IsLog now source target kind log room ok)
step_log-IsLog (acknowledges id agent) log room ok =
    SameIds-IsLog log _ (acknowledge_first-SameIds id agent log.notifications) ok
