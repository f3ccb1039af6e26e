-- ===== src/Ownership/Queue.antt =====
-- The wait queues: by priority, then by arrival, and each requester once.
use claude_pilot.Base.{
  ℕ, suc, ◌*◌, ◌≤◌, ◌<◌, String, ◌≡◌, refl, inl, inr, Bool, false, ◌||◌, some, List, [], ◌∷◌, ◌++◌,
  arith, ◌==◌, string_eq, list_eq, nat_eq, keep, ltb, leb, Option-cases,
}
use claude_pilot.Ownership.{
  FilePath, queued, WaitingEntry, Manager, Request, new, queue_of, position_from, front,
  told_position, acquire_with_fair_queue, insert_waiter, is_waiting,
}

-- No entry has a higher priority than the bound.
abbrev AtMost : ℕ → List WaitingEntry → Type 0
AtMost p [] = Unit {0}
AtMost p (e ∷ es) = (e.priority ≤ p) × AtMost p es

-- Higher priorities stand first, and no requester waits twice.
abbrev pub IsFair : List WaitingEntry → Type 0
IsFair [] = Unit {0}
IsFair (e ∷ es) = AtMost e.priority es × (is_waiting e.requester es ≡ false) × IsFair es

AtMost-mono : (p q : ℕ) (es : List WaitingEntry) → p ≤ q → AtMost p es → AtMost q es
AtMost-mono p q [] h a = tt
AtMost-mono p q (e ∷ es) h a = (omega arith, AtMost-mono p q es h a.1)

AtMost-insert_waiter :
    (p : ℕ) (w : WaitingEntry) (es : List WaitingEntry)
    → w.priority ≤ p
    → AtMost p es
    → AtMost p (insert_waiter w es)
unfolding insert_waiter
AtMost-insert_waiter p w [] h a = (h, tt)
AtMost-insert_waiter p w (e ∷ es) h a = ground (arith, AtMost-insert_waiter p w es)

is_waiting-insert_waiter :
    (r : String) (w : WaitingEntry) (es : List WaitingEntry)
    → is_waiting r (insert_waiter w es) ≡ (w.requester == r || is_waiting r es)
unfolding insert_waiter is_waiting
is_waiting-insert_waiter r w [] = refl
is_waiting-insert_waiter r w (e ∷ es) = ground (arith, is_waiting-insert_waiter r w es)

pub insert_waiter-IsFair :
    (w : WaitingEntry) (es : List WaitingEntry)
    → is_waiting w.requester es ≡ false
    → IsFair es
    → IsFair (insert_waiter w es)
unfolding insert_waiter is_waiting
insert_waiter-IsFair w [] new f = (tt, refl, tt)
insert_waiter-IsFair w (e ∷ es) new f = ground (
  arith,
  insert_waiter-IsFair w es,
  AtMost-insert_waiter e.priority w es,
  AtMost-mono e.priority w.priority es,
  is_waiting-insert_waiter e.requester w es,
)

AtMost-keep :
    (p : ℕ) (test : WaitingEntry → Bool) (es : List WaitingEntry)
    → AtMost p es
    → AtMost p (keep test es)
AtMost-keep p test [] a = tt
AtMost-keep p test (e ∷ es) a = ground (arith, AtMost-keep p test es)

is_waiting-keep :
    (r : String) (test : WaitingEntry → Bool) (es : List WaitingEntry)
    → is_waiting r es ≡ false
    → is_waiting r (keep test es) ≡ false
unfolding is_waiting
is_waiting-keep r test [] h = refl
is_waiting-keep r test (e ∷ es) h = ground (arith, is_waiting-keep r test es)

pub keep-IsFair :
    (test : WaitingEntry → Bool) (es : List WaitingEntry) → IsFair es → IsFair (keep test es)
keep-IsFair test [] f = tt
keep-IsFair test (e ∷ es) f = ground (
  arith,
  keep-IsFair test es,
  AtMost-keep e.priority test es,
  is_waiting-keep e.requester test es,
)

keep_above :
    (p q : ℕ) (es : List WaitingEntry)
    → AtMost q es
    → q < p
    → (keep (λ e. leb p e.priority) es ≡ []) × (keep (λ e. ltb e.priority p) es ≡ es)
keep_above p q [] a h = (refl, refl)
keep_above p q (e ∷ es) a h = ground (arith, keep_above p q es)

-- In a fair queue a new entry goes behind all that wait with its priority or a higher one, and
-- before all others: equal priorities keep the order of arrival.
pub insert_waiter_lem :
    (w : WaitingEntry) (es : List WaitingEntry)
    → IsFair es
    → insert_waiter w es
      ≡ keep (λ e. leb w.priority e.priority) es ++ w ∷ keep (λ e. ltb e.priority w.priority) es
unfolding insert_waiter
insert_waiter_lem w [] f = refl
insert_waiter_lem w (e ∷ es) f =
    ground (arith, insert_waiter_lem w es, keep_above w.priority e.priority es)

position_from-le :
    (i j : ℕ) (p : WaitingEntry → Bool) (es : List WaitingEntry)
    → position_from i p es ≡ some j
    → i ≤ j
unfolding position_from
position_from-le i j p [] h = cc
position_from-le i j p (e ∷ es) h = ground (arith, position_from-le (suc i) j p es)

told_position_pos :
    (r : String) (first : WaitingEntry) (es : List WaitingEntry)
    → (first.requester == r) ≡ false
    → 0 < told_position r (first ∷ es)
unfolding told_position position_from
told_position_pos r first es h = elim (Option-cases (position_from 1 (λ e. e.requester == r) es)) [
  | inl e ↦ ground arith
  | inr (j, e) ↦ ground (arith, position_from-le 1 j (λ e. e.requester == r) es e)
]

-- While somebody else stands first in the queue of a file, a fair acquisition grants nothing,
-- changes nothing, and answers a position that is not the first.
pub acquire_with_fair_queue_behind :
    (m : Manager) (now : ℕ) (f : FilePath) (q : Request) (first : WaitingEntry)
    (es : List WaitingEntry)
    → queue_of m f ≡ first ∷ es
    → (first.requester == q.requester) ≡ false
    → (p : ℕ) × (acquire_with_fair_queue m now f q ≡ (m, queued p (30 * p))) × (0 < p)
unfolding acquire_with_fair_queue front
acquire_with_fair_queue_behind m now f q first es e other = (
  told_position q.requester (first ∷ es),
  ground arith,
  told_position_pos q.requester first es other,
)
