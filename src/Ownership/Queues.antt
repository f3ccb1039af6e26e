-- ===== src/Ownership/Queues.antt =====
-- The map of wait queues over the calls that write it.
use claude_pilot.Base.{
  ℕ, ◌+◌, String, ◌≡◌, subst, inl, inr, Option, some, List, [], ◌∷◌, arith, ◌==◌, string_eq,
  list_eq, nat_eq, keep, is_empty, ltb, Bool-cases, Option-cases,
}
use claude_pilot.Base.Assoc.{lookup, insert}
use claude_pilot.Ownership.{
  FilePath, WaitingEntry, Manager, queue_of, is_waiting, add_to_wait_queue, remove_from_wait_queue,
  retain_recent, cleanup_expired,
}
use claude_pilot.Ownership.Queue.{IsFair, insert_waiter-IsFair, keep-IsFair}

-- Every queue of the map is fair.
abbrev pub AllFair : List (FilePath × List WaitingEntry) → Type 0
AllFair [] = Unit {0}
AllFair ((f, q) ∷ rest) = IsFair q × AllFair rest

AllFair-lookup :
    (f : FilePath) (qs : List (FilePath × List WaitingEntry)) (q : List WaitingEntry)
    → AllFair qs
    → lookup f qs ≡ some q
    → IsFair q
unfolding lookup
AllFair-lookup f [] q a h = cc
AllFair-lookup f ((g, r) ∷ rest) q a h = elim (Bool-cases (g == f)) [
  | inl e ↦ subst IsFair (ground arith) a.0
  | inr e ↦ AllFair-lookup f rest q a.1 (ground arith)
]

queue_of-IsFair : (m : Manager) (f : FilePath) → AllFair m.wait_queues → IsFair (queue_of m f)
unfolding queue_of
queue_of-IsFair m f a = elim (Option-cases (lookup f m.wait_queues)) [
  | inl e ↦ rw (e, queue_of) tt
  | inr (q, e) ↦ rw (e, queue_of) (AllFair-lookup f m.wait_queues q a e)
]

AllFair-insert :
    (f : FilePath) (q : List WaitingEntry) (qs : List (FilePath × List WaitingEntry))
    → IsFair q
    → AllFair qs
    → AllFair (insert f q qs)
unfolding insert
AllFair-insert f q [] h a = (h, tt)
AllFair-insert f q ((g, r) ∷ rest) h a = elim (Bool-cases (g == f)) [
  | inl e ↦ rw e (h, a.1)
  | inr e ↦ rw e (a.0, AllFair-insert f q rest h a.1)
]

AllFair-retain_recent :
    (now : ℕ) (qs : List (FilePath × List WaitingEntry))
    → AllFair qs
    → AllFair (retain_recent now qs)
unfolding retain_recent
AllFair-retain_recent now [] a = tt
AllFair-retain_recent now ((f, q) ∷ rest) a =
    elim (Bool-cases (is_empty (keep (λ e. ltb now (e.requested_at + 300)) q))) [
      | inl e ↦ rw e (AllFair-retain_recent now rest a.1)
      | inr e ↦ rw e (keep-IsFair _ q a.0, AllFair-retain_recent now rest a.1)
    ]

-- The calls that write wait queues.
pub data QueueCall : Type 0 where
  waits : ℕ → FilePath → String → Option String → ℕ → QueueCall
  leaves : FilePath → String → QueueCall
  cleans : ℕ → QueueCall

unfoldable pub step_queue : Manager → QueueCall → Manager
step_queue m (waits now f r waiter_module p) = add_to_wait_queue m now f r waiter_module p
step_queue m (leaves f r) = remove_from_wait_queue m f r
step_queue m (cleans now) = cleanup_expired m now

waits-AllFair :
    (m : Manager) (now : ℕ) (f : FilePath) (r : String) (waiter_module : Option String) (p : ℕ)
    → AllFair m.wait_queues
    → AllFair (add_to_wait_queue m now f r waiter_module p).wait_queues
unfolding add_to_wait_queue
waits-AllFair m now f r waiter_module p a = elim (Bool-cases (is_waiting r (queue_of m f))) [
  | inl e ↦ rw e (AllFair-insert f (queue_of m f) m.wait_queues (queue_of-IsFair m f a) a)
  | inr e ↦ rw e (
      AllFair-insert f _ m.wait_queues
        (insert_waiter-IsFair _ (queue_of m f) e (queue_of-IsFair m f a)) a)
]

leaves-AllFair :
    (m : Manager) (f : FilePath) (r : String)
    → AllFair m.wait_queues
    → AllFair (remove_from_wait_queue m f r).wait_queues
unfolding remove_from_wait_queue
leaves-AllFair m f r a = elim (Option-cases (lookup f m.wait_queues)) [
  | inl e ↦ rw (e, remove_from_wait_queue) a
  | inr (q, e) ↦
      rw (e, remove_from_wait_queue)
        (AllFair-insert f _ m.wait_queues (keep-IsFair _ q (AllFair-lookup f m.wait_queues q a e))
          a)
]

-- Every call that writes the wait queues keeps each of them ordered by priority, the highest first,
-- with no requester twice.
pub step_queue-AllFair :
    (m : Manager) (c : QueueCall) → AllFair m.wait_queues → AllFair (step_queue m c).wait_queues
unfolding step_queue cleanup_expired
step_queue-AllFair m (waits now f r waiter_module p) a = waits-AllFair m now f r waiter_module p a
step_queue-AllFair m (leaves f r) a = leaves-AllFair m f r a
step_queue-AllFair m (cleans now) a = AllFair-retain_recent now m.wait_queues a
