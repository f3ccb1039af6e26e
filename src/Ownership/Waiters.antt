-- ===== src/Ownership/Waiters.antt =====
-- src/agent/multi/ownership/lease.rs and tracking.rs: the wait queue of a file.
use claude_pilot.Base.{
  ℕ, suc, ◌+◌, String, Bool, false, not, Option, none, some, List, [], ◌∷◌, ◌==◌, string_eq,
  list_eq, ltb, is_empty, if◌then◌else◌, keep, any, length,
}
use claude_pilot.Base.Assoc.{lookup, insert}
use claude_pilot.Ownership.Types.{FilePath, FileOwnership, is_expired, WaitingEntry, Manager}
use claude_pilot.Ownership.Modules.{queue_of}

-- `Iterator::position`, from a count of the entries before.
unfoldable pub position_from : ℕ → (WaitingEntry → Bool) → List WaitingEntry → Option ℕ
position_from i p [] = none
position_from i p (e ∷ es) = if p e then some i else position_from (suc i) p es

unfoldable pub front : List WaitingEntry → Option WaitingEntry
front [] = none
front (e ∷ es) = some e

-- The position that a requester is told where somebody else is first.
unfoldable pub told_position : String → List WaitingEntry → ℕ
told_position requester q = elim (position_from 0 (λ e. e.requester == requester) q) [
  | some i ↦ i
  | none ↦ length q
]

-- Before the first entry of lower priority.
unfoldable pub insert_waiter : WaitingEntry → List WaitingEntry → List WaitingEntry
insert_waiter w [] = w ∷ []
insert_waiter w (e ∷ es) = if ltb e.priority w.priority then w ∷ e ∷ es else e ∷ insert_waiter w es

unfoldable pub is_waiting : String → List WaitingEntry → Bool
is_waiting requester q = any (λ e. e.requester == requester) q

unfoldable pub add_to_wait_queue : Manager → ℕ → FilePath → String → Option String → ℕ → Manager
add_to_wait_queue m now file requester waiter_module priority =
    if is_waiting requester (queue_of m file)
    then record m { wait_queues = insert file (queue_of m file) m.wait_queues }
    else record m {
      wait_queues =
          insert file
            (insert_waiter
              (record {
                requester = requester;
                waiter_module = waiter_module;
                requested_at = now;
                priority = priority;
              })
              (queue_of m file))
            m.wait_queues;
    }

unfoldable pub remove_from_wait_queue : Manager → FilePath → String → Manager
remove_from_wait_queue m file requester = elim (lookup file m.wait_queues) [
  | none ↦ m
  | some q ↦ record m {
    wait_queues = insert file (keep (λ e. not (e.requester == requester)) q) m.wait_queues;
  }
]

unfoldable pub queue_position : Manager → FilePath → String → Option ℕ
queue_position m file requester = elim (lookup file m.wait_queues) [
  | none ↦ none
  | some q ↦ position_from 0 (λ e. e.requester == requester) q
]

unfoldable pub is_next_in_queue : Manager → FilePath → String → Bool
is_next_in_queue m file requester = elim (front (queue_of m file)) [
  | none ↦ false
  | some first ↦ first.requester == requester
]

-- `retain` on the ownership map.
unfoldable pub retain_live : ℕ → List (FilePath × FileOwnership) → List (FilePath × FileOwnership)
retain_live now [] = []
retain_live now ((f, o) ∷ rest) =
    if is_expired now o then retain_live now rest else (f, o) ∷ retain_live now rest

-- `retain` on the queues: entries at most as old as the cutoff, `now` less 300 seconds, go.
unfoldable pub retain_recent :
    ℕ → List (FilePath × List WaitingEntry) → List (FilePath × List WaitingEntry)
retain_recent now [] = []
retain_recent now ((f, q) ∷ rest) =
    let recent = keep (λ e. ltb now (e.requested_at + 300)) q in
    if is_empty recent then retain_recent now rest else (f, recent) ∷ retain_recent now rest
