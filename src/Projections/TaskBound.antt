-- ===== src/Projections/TaskBound.antt =====
-- src/state/projections.rs: the bound on the tasks that are tracked, and what breaks it.
use claude_pilot.Base.{
  ℕ, suc, ◌≤◌, ◌<◌, String, ◌≡◌, refl, sym, ap, ◌∙◌, subst, inl, inr, Bool, true, false, not, none,
  List, [], ◌∷◌, ◌++◌, arith, ◌==◌, string_eq, list_eq, nat_eq, eq_refl, contains, nodup, length,
  length-append, leb, Bool-cases,
}
use claude_pilot.Base.Assoc.{
  lookup, insert, remove, adjust, keys, lookup-insert, lookup-remove, nodup-append,
}
use claude_pilot.Events.{
  DomainEvent, EventPayload, task_started, task_completed, task_failed, task_skipped, task_deferred,
  task_status_changed,
}
use claude_pilot.Projections.Timeline.{pop_front}
use claude_pilot.Projections.Tasks.{
  TaskState, TaskStatusProjection, started, evict, make_room, start_task, adjust_task,
  tasks_payload, tasks_apply, restored_tasks,
}

module _ {V : Type 0} where
  keys-insert_new :
      (k : String) (v : V) (m : List (String × V))
      → contains (keys m) k ≡ false
      → keys (insert k v m) ≡ keys m ++ k ∷ []
  unfolding insert
  keys-insert_new k v [] absent = refl
  keys-insert_new k v ((j, w) ∷ m) absent = ground (arith, keys-insert_new k v m)

  length-insert_old :
      (k : String) (v : V) (m : List (String × V))
      → contains (keys m) k ≡ true
      → length (insert k v m) ≡ length m
  unfolding insert
  length-insert_old k v [] old = ground arith
  length-insert_old k v ((j, w) ∷ m) old = ground (arith, length-insert_old k v m)

  keys-adjust : (k : String) (f : V → V) (m : List (String × V)) → keys (adjust k f m) ≡ keys m
  unfolding adjust
  keys-adjust k f [] = refl
  keys-adjust k f ((j, w) ∷ m) = ground (arith, keys-adjust k f m)

  length-keys : (m : List (String × V)) → length (keys m) ≡ length m
  length-keys [] = refl
  length-keys ((j, w) ∷ m) = omega (arith, length-keys m)

  remove-absent :
      (k : String) (m : List (String × V)) → contains (keys m) k ≡ false → remove k m ≡ m
  unfolding remove
  remove-absent k [] absent = refl
  remove-absent k ((j, w) ∷ m) absent = ground (arith, remove-absent k m)

  keys-pop : (m : List (String × V)) → keys (pop_front m) ≡ pop_front (keys m)
  keys-pop [] = refl
  keys-pop (x ∷ m) = refl

evict_first :
    (m : List (String × TaskState)) → nodup (keys m) ≡ true → evict (keys m) m ≡ pop_front m
unfolding remove
evict_first [] h = refl
evict_first ((j, w) ∷ m) h = ground (arith, eq_refl j, remove-absent j m)

nodup-pop : (xs : List String) → nodup xs ≡ true → nodup (pop_front xs) ≡ true
nodup-pop [] h = refl
nodup-pop (x ∷ xs) h = ground arith

absent-pop :
    (xs : List String) (x : String) → contains xs x ≡ false → contains (pop_front xs) x ≡ false
absent-pop [] x h = refl
absent-pop (y ∷ ys) x h = ground arith

-- The order lists the tracked tasks, each once, and there are at most as many as the limit.
pub record IsTracked (p : TaskStatusProjection) : Type 0 where
  pub in_step : keys p.tasks ≡ p.task_order
  pub once : nodup (keys p.tasks) ≡ true
  pub fits : length p.tasks ≤ p.max_tracked_tasks
  pub some_room : 0 < p.max_tracked_tasks

insert_new-IsTracked :
    (p : TaskStatusProjection) (t : String) (v : TaskState)
    → IsTracked p
    → length p.tasks < p.max_tracked_tasks
    → contains (keys p.tasks) t ≡ false
    → IsTracked (record p { task_order = p.task_order ++ t ∷ []; tasks = insert t v p.tasks })
insert_new-IsTracked p t v ok room absent = record {
  in_step = grown ∙ ap (λ o. o ++ t ∷ []) ok.in_step;
  once = rw grown (nodup-append (keys p.tasks) t ok.once absent);
  fits = ground (
    arith,
    length-keys (insert t v p.tasks),
    ap length grown,
    length-append (keys p.tasks) (t ∷ []),
    length-keys p.tasks,
  );
  some_room = ok.some_room;
}
  where
    grown : keys (insert t v p.tasks) ≡ keys p.tasks ++ t ∷ []
    grown = keys-insert_new t v p.tasks absent

length-pop :
    (m : List (String × TaskState)) (n : ℕ) → 0 < n → length m ≤ n → length (pop_front m) < n
length-pop [] n pos le = pos
length-pop (x ∷ m) n pos le = ground arith

popped-IsTracked :
    (p : TaskStatusProjection)
    → IsTracked p
    → IsTracked (record p { tasks = pop_front p.tasks; task_order = pop_front p.task_order })
popped-IsTracked p ok = record {
  in_step = keys-pop p.tasks ∙ ap pop_front ok.in_step;
  once = rw (keys-pop p.tasks) (nodup-pop (keys p.tasks) ok.once);
  fits = ground (arith, length-pop p.tasks p.max_tracked_tasks ok.some_room ok.fits);
  some_room = ok.some_room;
}

-- There is room for one more, and the newcomer is still new.
abbrev Ready : String → TaskStatusProjection → TaskStatusProjection → Type 0
Ready t p q =
    IsTracked q × (length q.tasks < q.max_tracked_tasks) × (contains (keys q.tasks) t ≡ false)

make_room-Ready :
    (p : TaskStatusProjection) (t : String)
    → IsTracked p
    → contains (keys p.tasks) t ≡ false
    → Ready t p (make_room p)
unfolding make_room
make_room-Ready p t ok absent = elim (Bool-cases (leb p.max_tracked_tasks (length p.tasks))) [
  | inl full ↦
      rw (full, make_room, sym (ap (λ o. evict o p.tasks) ok.in_step) ∙ evict_first p.tasks ok.once)
        (
          popped-IsTracked p ok,
          length-pop p.tasks p.max_tracked_tasks ok.some_room ok.fits,
          subst (λ ks. contains ks t ≡ false) (sym (keys-pop p.tasks))
              (absent-pop (keys p.tasks) t absent),
        )
  | inr free ↦ rw (free, make_room) (ok, ground (arith, free), absent)
]

adjust-IsTracked :
    (p : TaskStatusProjection) (t : String) (f : TaskState → TaskState)
    → IsTracked p
    → IsTracked (adjust_task t f p)
adjust-IsTracked p t f ok = record {
  in_step = same ∙ ok.in_step;
  once = rw same ok.once;
  fits =
      ground
        (arith, length-keys (adjust t f p.tasks), ap length same, length-keys p.tasks, ok.fits);
  some_room = ok.some_room;
}
  where
    same : keys (adjust t f p.tasks) ≡ keys p.tasks
    same = keys-adjust t f p.tasks

start_task-IsTracked :
    (now : ℕ) (t d : String) (p : TaskStatusProjection)
    → IsTracked p
    → contains (keys p.tasks) t ≡ false
    → IsTracked (start_task now t d p)
unfolding start_task
start_task-IsTracked now t d p ok absent =
    let ready = make_room-Ready p t ok absent in
    insert_new-IsTracked (make_room p) t (started now t d) ready.0 ready.1 ready.2

module _ {F : Type 0} where
  -- The event does not start a task that is tracked.
  abbrev pub starts_new : EventPayload F → List String → Bool
  starts_new (task_started t _) ks = not (contains ks t)
  starts_new _ ks = true

  tasks_payload-IsTracked :
      (now : ℕ) (x : EventPayload F) (p : TaskStatusProjection)
      → IsTracked p
      → starts_new x (keys p.tasks) ≡ true
      → IsTracked (tasks_payload now x p)
  unfolding tasks_payload
  tasks_payload-IsTracked now (task_started t d) p ok new =
      start_task-IsTracked now t d p ok (ground (arith, new))
  tasks_payload-IsTracked now (task_completed t files _) p ok new = adjust-IsTracked p t _ ok
  tasks_payload-IsTracked now (task_failed t _ _) p ok new = adjust-IsTracked p t _ ok
  tasks_payload-IsTracked now (task_skipped t _) p ok new = adjust-IsTracked p t _ ok
  tasks_payload-IsTracked now (task_deferred t _ _) p ok new = adjust-IsTracked p t _ ok
  tasks_payload-IsTracked now (task_status_changed t _ _) p ok new = adjust-IsTracked p t _ ok
  tasks_payload-IsTracked now _ p ok new = ok

  -- An event that does not start a tracked task again leaves the order in step with the tasks, each
  -- once, and as many as the limit at most: starting one more evicts the oldest.
  tasks_apply-IsTracked :
      (e : DomainEvent F) (p : TaskStatusProjection)
      → IsTracked p
      → starts_new e.payload (keys p.tasks) ≡ true
      → IsTracked (tasks_apply e p)
  unfolding tasks_apply
  tasks_apply-IsTracked e p ok new =
      tasks_payload-IsTracked e.timestamp e.payload _
        (record { in_step = ok.in_step; once = ok.once; fits = ok.fits; some_room = ok.some_room })
        new

-- A tracked task that is started again while there is room, as after a retry, has a second entry in
-- the order: the order is longer than the tasks, and no longer says which task is the oldest.
pub start_task-again :
    (now : ℕ) (t d : String) (p : TaskStatusProjection)
    → IsTracked p
    → length p.tasks < p.max_tracked_tasks
    → contains (keys p.tasks) t ≡ true
    → length (start_task now t d p).task_order ≡ suc (length (start_task now t d p).tasks)
unfolding start_task make_room
start_task-again now t d p ok room tracked = ground (
  arith,
  room,
  ok,
  length-insert_old t (started now t d) p.tasks tracked,
  length-append p.task_order (t ∷ []),
  length-keys p.tasks,
  ap length ok.in_step,
)

-- A projection that comes back from a snapshot has lost its limit and its order: of two tasks that it
-- sees starting, one after the other, it forgets the first.
pub restored_tasks-forgets :
    (now now' : ℕ) (t t' d d' : String) (p : TaskStatusProjection)
    → (t' == t) ≡ false
    → lookup t (start_task now' t' d' (start_task now t d (restored_tasks p))).tasks ≡ none
unfolding start_task make_room restored_tasks
restored_tasks-forgets now now' t t' d d' p other = ground (
  arith,
  other,
  eq_refl t,
  lookup-insert t t' (started now' t' d') (remove t (insert t (started now t d) p.tasks)),
  lookup-remove t t (insert t (started now t d) p.tasks),
)
