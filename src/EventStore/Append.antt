-- ===== src/EventStore/Append.antt =====
-- src/state/writer.rs: what the writer's commands keep of the order of the rows, and the check of
-- the expected version.
use claude_pilot.Base.{
  ℕ, suc, ◌+◌, ◌^◌, ◌≤◌, ◌<◌, String, ◌≡◌, refl, inl, inr, Bool, true, Option, none, some, List, [],
  ◌∷◌, ◌++◌, arith, ◌==◌, string_eq, list_eq, nat_eq, eq_refl, length, any, keep, ltb, eqb,
  Bool-cases, Option-cases,
}
use claude_pilot.Events.{DomainEvent}
use claude_pilot.EventStore.{
  Store, AppendResult, appended, concurrency_conflict, insert_failed, write_event, append_event,
  write_batch, then_rest, append_batch, archive_through, insert_row, numbered, allocated, seq_to,
  seq_after, max_global_seq, max_version, or_zero, reopen,
}
use claude_pilot.EventStore.Sequence.{
  IsOrdered, all_below, ascending-append, all_below-append, all_below-weaken, all_below-keep,
  ascending-keep,
}

-- The commands of the writer thread without their answers, and a restart of it.
pub data WriteCommand (F : Type 0) : Type 0 where
  append : DomainEvent F → Option ℕ → WriteCommand F
  batch : List (DomainEvent F) → WriteCommand F
  archive : ℕ → WriteCommand F
  compact shutdown restart : WriteCommand F

module _ {F : Type 0} where
  -- The numbers do not wrap below this many allocations.
  abbrev pub has_room : ℕ → Store F → Bool
  has_room k s = ltb (s.next_seq + k) (2 ^ 63)

  insert_row-some :
      (e : DomainEvent F) (rows rows' : List (DomainEvent F))
      → insert_row e rows ≡ some rows'
      → rows' ≡ rows ++ e ∷ []
  unfolding insert_row
  insert_row-some e rows rows' h = ground arith

  allocated-IsOrdered : (s : Store F) → has_room 1 s ≡ true → IsOrdered s → IsOrdered (allocated s)
  allocated-IsOrdered s room (up, below, pos) =
      (up, all_below-weaken s.next_seq _ s.events (ground arith) below, ground arith)

  pub write_event-IsOrdered :
      (e : DomainEvent F) (s : Store F)
      → has_room 1 s ≡ true
      → IsOrdered s
      → IsOrdered (write_event e s).0
  unfolding write_event
  write_event-IsOrdered e s room (up, below, pos) =
      elim (Option-cases (insert_row (numbered s e) s.events)) [
        | inl gone ↦ rw (gone, write_event) (allocated-IsOrdered s room (up, below, pos))
        | inr (rows, yes_row) ↦
            rw (yes_row, write_event, insert_row-some _ _ _ yes_row)
              (
                ascending-append 0 s.next_seq s.events (numbered s e) pos refl up below,
                all_below-append s.next_seq _ s.events (numbered s e) (ground arith) refl below,
                ground arith,
              )
      ]

  write_event-next :
      (e : DomainEvent F) (s : Store F)
      → has_room 1 s ≡ true
      → (write_event e s).0.next_seq ≡ s.next_seq + 1
  unfolding write_event
  write_event-next e s room = ground arith

  pub append_event-IsOrdered :
      (e : DomainEvent F) (expected : Option ℕ) (s : Store F)
      → has_room 1 s ≡ true
      → IsOrdered s
      → IsOrdered (append_event e expected s).0
  unfolding append_event
  append_event-IsOrdered e none s room ok = write_event-IsOrdered e s room ok
  append_event-IsOrdered e (some v) s room ok =
      elim (Bool-cases (eqb (or_zero (max_version e.aggregate_id s.events)) v)) [
        | inl same ↦ rw same (write_event-IsOrdered e s room ok)
        | inr other ↦ rw other ok
      ]

  -- Between `s.next_seq` and `k` more are allocated.
  abbrev Grown : ℕ → Store F → Store F → Type 0
  Grown k s t = IsOrdered t × (s.next_seq ≤ t.next_seq) × (t.next_seq ≤ s.next_seq + k)

  then_rest-Grown :
      (k : ℕ) (r : AppendResult) (s t : Store F) (rest : Store F × Option (List ℕ))
      → t.next_seq ≡ s.next_seq + 1
      → IsOrdered t
      → Grown k t rest.0
      → Grown (suc k) s (then_rest r t rest).0
  unfolding then_rest
  then_rest-Grown k (appended v) s t rest next ok (ok', low, high) =
      (ok', ground arith, ground arith)
  then_rest-Grown k (concurrency_conflict m n) s t rest next ok g = (ok, ground arith, ground arith)
  then_rest-Grown k insert_failed s t rest next ok g = (ok, ground arith, ground arith)

  write_batch-Grown :
      (es : List (DomainEvent F)) (s : Store F)
      → has_room (length es) s ≡ true
      → IsOrdered s
      → Grown (length es) s (write_batch es s).0
  unfolding write_batch
  write_batch-Grown [] s room ok = (ok, ground arith, ground arith)
  write_batch-Grown (e ∷ es) s room ok =
      then_rest-Grown (length es) _ s (write_event e s).0 _ next ok'
        (write_batch-Grown es (write_event e s).0 (ground (arith, next)) ok')
    where
      next : (write_event e s).0.next_seq ≡ s.next_seq + 1
      next = write_event-next e s (ground arith)

      ok' : IsOrdered (write_event e s).0
      ok' = write_event-IsOrdered e s (ground arith) ok

  append_batch-IsOrdered :
      (es : List (DomainEvent F)) (s : Store F)
      → has_room (length es) s ≡ true
      → IsOrdered s
      → IsOrdered (append_batch es s).0
  unfolding append_batch
  append_batch-IsOrdered es s room ok = elim (Option-cases (write_batch es s).1) [
    | inl gone ↦
        rw (gone, append_batch)
          (
            ok.0,
            all_below-weaken s.next_seq _ s.events (write_batch-Grown es s room ok).1 ok.1,
            (write_batch-Grown es s room ok).0.2,
          )
    | inr (vs, yes_vs) ↦ rw (yes_vs, append_batch) (write_batch-Grown es s room ok).0
  ]

  pub archive_through-IsOrdered :
      (n : ℕ) (s : Store F) → IsOrdered s → IsOrdered (archive_through n s).0
  unfolding archive_through
  archive_through-IsOrdered n s (up, below, pos) =
      elim (Bool-cases (any (λ e. any (λ r. r.id == e.id) s.archived) (keep (seq_to n) s.events))) [
        | inl twice ↦ rw twice (up, below, pos)
        | inr once ↦ rw once (
          ascending-keep (seq_after n) 0 s.events up,
          all_below-keep s.next_seq (seq_after n) s.events below,
          pos,
        )
      ]

  max_global_seq-le :
      (n : ℕ) (es : List (DomainEvent F)) → 0 < n → all_below n es ≡ true → max_global_seq es < n
  unfolding max_global_seq all_below
  max_global_seq-le n [] pos b = pos
  max_global_seq-le n (e ∷ es) pos b = ground (arith, max_global_seq-le n es pos)

  below_max_global_seq :
      (k : ℕ) (es : List (DomainEvent F)) → max_global_seq es < k → all_below k es ≡ true
  unfolding max_global_seq all_below
  below_max_global_seq k [] lt = refl
  below_max_global_seq k (e ∷ es) lt = ground (arith, below_max_global_seq k es)

  reopen-IsOrdered : (s : Store F) → has_room 0 s ≡ true → IsOrdered s → IsOrdered (reopen s)
  unfolding reopen
  reopen-IsOrdered s room (up, below, pos) =
      (up, below_max_global_seq _ s.events (ground (arith, small)), ground (arith, small))
    where
      small : max_global_seq s.events < s.next_seq
      small = max_global_seq-le s.next_seq s.events pos below

  unfoldable pub process_command : WriteCommand F → Store F → Store F
  process_command (append e expected) s = (append_event e expected s).0
  process_command (batch es) s = (append_batch es s).0
  process_command (archive n) s = (archive_through n s).0
  process_command compact s = s
  process_command shutdown s = s
  process_command restart s = reopen s

  abbrev pub allocations : WriteCommand F → ℕ
  allocations (append e expected) = 1
  allocations (batch es) = length es
  allocations (archive n) = 0
  allocations compact = 0
  allocations shutdown = 0
  allocations restart = 0

  -- Below 2^63 sequence numbers, every command of the writer, whether it succeeds or is rolled back, and
  -- a restart of the writer, keep the rows in the order of their sequence numbers, all below the next one.
  pub process_command-IsOrdered :
      (c : WriteCommand F) (s : Store F)
      → has_room (allocations c) s ≡ true
      → IsOrdered s
      → IsOrdered (process_command c s)
  unfolding process_command
  process_command-IsOrdered (append e expected) s room ok =
      append_event-IsOrdered e expected s room ok
  process_command-IsOrdered (batch es) s room ok = append_batch-IsOrdered es s room ok
  process_command-IsOrdered (archive n) s room ok = archive_through-IsOrdered n s ok
  process_command-IsOrdered compact s room ok = ok
  process_command-IsOrdered shutdown s room ok = ok
  process_command-IsOrdered restart s room ok = reopen-IsOrdered s room ok

  max_version-append :
      (a : String) (es : List (DomainEvent F)) (e : DomainEvent F) (n : ℕ)
      → or_zero (max_version a es) < n
      → e.aggregate_id ≡ a
      → e.version ≡ n
      → max_version a (es ++ e ∷ []) ≡ some n
  unfolding max_version
  max_version-append a [] e n lt mine same = rw mine (ground (arith, eq_refl a))
  max_version-append a (r ∷ rs) e n lt mine same = elim (Option-cases (max_version a rs)) [
    | inl gone ↦ ground (arith, max_version-append a rs e n)
    | inr (m, yes_m) ↦ ground (arith, max_version-append a rs e n)
  ]

  write_event-version :
      (e : DomainEvent F) (s : Store F) (v w : ℕ)
      → or_zero (max_version e.aggregate_id s.events) ≡ v
      → v + 1 < 2 ^ 32
      → (write_event e s).1 ≡ appended w
      → max_version e.aggregate_id (write_event e s).0.events ≡ some (v + 1)
  unfolding write_event
  write_event-version e s v w current room h =
      elim (Option-cases (insert_row (numbered s e) s.events)) [
        | inl gone ↦ ground (arith, gone)
        | inr (rows, yes_row) ↦
            rw (yes_row, write_event, insert_row-some _ _ _ yes_row)
              (max_version-append e.aggregate_id s.events (numbered s e) (v + 1) (ground arith) refl
                (ground arith))
      ]

  -- Of two appends to one aggregate that expect the same version the second is refused, and
  -- changes nothing, when the first was written (and its version number did not wrap).
  pub append_event-twice :
      (e e' : DomainEvent F) (s : Store F) (v w : ℕ)
      → e'.aggregate_id ≡ e.aggregate_id
      → v + 1 < 2 ^ 32
      → (append_event e (some v) s).1 ≡ appended w
      → append_event e' (some v) (append_event e (some v) s).0
        ≡ ((append_event e (some v) s).0, concurrency_conflict v (v + 1))
  unfolding append_event
  append_event-twice e e' s v w same room h =
      elim (Bool-cases (eqb (or_zero (max_version e.aggregate_id s.events)) v)) [
        | inl current ↦ ground (arith, again current)
        | inr other ↦ ground (arith, other)
      ]
    where
      again :
          eqb (or_zero (max_version e.aggregate_id s.events)) v ≡ true
          → max_version e.aggregate_id (write_event e s).0.events ≡ some (v + 1)
      again current = write_event-version e s v w (ground arith) room (ground (arith, h, current))
