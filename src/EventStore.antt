-- ===== src/EventStore.antt =====
-- src/state/writer.rs and src/state/event_store.rs: the table of events, what its writer thread
-- does with it, and the queries. A refused statement rolls its transaction back; other SQL errors
-- are not modelled. The clock, the identifiers and the JSON text are the caller's.
use claude_pilot.Base.{
  ℕ, zero, suc, ◌+◌, ◌-◌, ◌*◌, ◌/◌, ◌%◌, ◌^◌, ◌≤◌, ◌<◌, String, ◌≡◌, refl, sym, ap, ◌∙◌, subst, ◌≢◌,
  ◌↔◌, ◌⊎◌, inl, inr, ite, Bool, true, false, ◌&&◌, ◌||◌, not, Option, none, some, List, [], ◌∷◌,
  ◌++◌, map, arith, DecEq, ◌==◌, string_eq, list_eq, nat_eq, eq_refl, ==_iff, contains, is_subset,
  contains-set_insert, contains-append, set_insert, set_remove, length, length-append, all, any,
  keep, find, is_empty, is_some, is_none, ltb, leb, eqb, if◌then◌else◌, Bool-cases, Option-cases,
  decide_by, string_dec, list_dec, ltb→lt, lt→ltb, length-keep-le, length-map,
}
use claude_pilot.Events.{DomainEvent, EventFilter, event_type, passes, payload_task, is_task}
pub mod Sequence
pub mod Append
pub mod Query
mod Tests
pub mod Replay

pub record Store (F : Type 0) : Type 0 where
  pub events : List (DomainEvent F)
  pub archived : List (DomainEvent F)
  pub next_seq : ℕ

pub data AppendResult : Type 0 where
  appended : ℕ → AppendResult
  concurrency_conflict : ℕ → ℕ → AppendResult
  insert_failed : AppendResult

abbrev pub max_of : ℕ → Option ℕ → Option ℕ
max_of n none = some n
max_of n (some m) = some (if ltb m n then n else m)

abbrev pub or_zero : Option ℕ → ℕ
or_zero none = 0
or_zero (some n) = n

module _ {F : Type 0} where
  abbrev pub of_aggregate : String → DomainEvent F → Bool
  of_aggregate a e = e.aggregate_id == a

  -- `SELECT MAX(version) … WHERE aggregate_id = ?1`
  unfoldable pub max_version : String → List (DomainEvent F) → Option ℕ
  max_version a [] = none
  max_version a (e ∷ es) =
      let rest = max_version a es in if of_aggregate a e then max_of e.version rest else rest

  -- The primary key and the two unique indexes of the table.
  unfoldable pub clashes : DomainEvent F → DomainEvent F → Bool
  clashes e r =
      (r.id == e.id)
      || (of_aggregate e.aggregate_id r && eqb r.version e.version)
      || (ltb 0 e.global_seq && eqb r.global_seq e.global_seq)

  unfoldable pub insert_row : DomainEvent F → List (DomainEvent F) → Option (List (DomainEvent F))
  insert_row e rows = if any (clashes e) rows then none else some (rows ++ e ∷ [])

  abbrev pub next_version : String → List (DomainEvent F) → ℕ
  next_version a rows = elim (max_version a rows) [ none ↦ 1 | some v ↦ (v + 1) % 2 ^ 32 ]

  abbrev pub numbered : Store F → DomainEvent F → DomainEvent F
  numbered s e = record e {
    version = next_version e.aggregate_id s.events;
    global_seq = s.next_seq;
  }

  -- `SequenceAllocator::next`, which no rollback undoes.
  abbrev pub allocated : Store F → Store F
  allocated s = record s { next_seq = (s.next_seq + 1) % 2 ^ 64 }

  unfoldable pub write_event : DomainEvent F → Store F → Store F × AppendResult
  write_event e s = elim (insert_row (numbered s e) s.events) [
    | none ↦ (allocated s, insert_failed)
    | some rows ↦
        (record (allocated s) { events = rows }, appended (next_version e.aggregate_id s.events))
  ]

  unfoldable pub append_event : DomainEvent F → Option ℕ → Store F → Store F × AppendResult
  append_event e none s = write_event e s
  append_event e (some expected) s =
      let actual = or_zero (max_version e.aggregate_id s.events) in
      if eqb actual expected then write_event e s else (s, concurrency_conflict expected actual)

  -- The loop of a batch: the rows so far, and the versions given. It ends at the first failure.
  unfoldable pub then_rest :
      AppendResult → Store F → Store F × Option (List ℕ) → Store F × Option (List ℕ)
  then_rest (appended v) s rest = (rest.0, elim rest.1 [ none ↦ none | some vs ↦ some (v ∷ vs) ])
  then_rest (concurrency_conflict m n) s rest = (s, none)
  then_rest insert_failed s rest = (s, none)

  unfoldable pub write_batch : List (DomainEvent F) → Store F → Store F × Option (List ℕ)
  write_batch [] s = (s, some [])
  write_batch (e ∷ es) s =
      let done = write_event e s in let rest = write_batch es done.0 in then_rest done.1 done.0 rest

  -- A failure rolls the rows back, not the numbers allocated.
  unfoldable pub append_batch : List (DomainEvent F) → Store F → Store F × Option (List ℕ)
  append_batch es s =
      let done = write_batch es s in
      elim done.1 [
        | none ↦ (record (done.0) { events = s.events }, none)
        | some vs ↦ (done.0, some vs)
      ]

  abbrev pub seq_to : ℕ → DomainEvent F → Bool
  seq_to n e = leb e.global_seq n

  abbrev pub seq_after : ℕ → DomainEvent F → Bool
  seq_after n e = ltb n e.global_seq

  -- Rows of every aggregate are moved; the number of rows deleted is returned. An identifier that is
  -- archived already makes the insertion fail.
  unfoldable pub archive_through : ℕ → Store F → Store F × Option ℕ
  archive_through n s =
      let moved = keep (seq_to n) s.events in
      if any (λ e. any (λ r. r.id == e.id) s.archived) moved then (s, none) else (
        record s { events = keep (seq_after n) s.events; archived = s.archived ++ moved },
        some (length moved),
      )

  unfoldable pub max_global_seq : List (DomainEvent F) → ℕ
  max_global_seq [] = 0
  max_global_seq (e ∷ es) =
      let rest = max_global_seq es in if ltb rest e.global_seq then e.global_seq else rest

  -- The writer thread starts: `EventWriter::with_config`.
  unfoldable pub reopen : Store F → Store F
  reopen s = record s { next_seq = (max_global_seq s.events + 1) % 2 ^ 64 }

  unfoldable pub insert_by :
      (DomainEvent F → ℕ) → DomainEvent F → List (DomainEvent F) → List (DomainEvent F)
  insert_by key e [] = e ∷ []
  insert_by key e (r ∷ rs) = if leb (key e) (key r) then e ∷ r ∷ rs else r ∷ insert_by key e rs

  -- `ORDER BY … ASC`
  unfoldable pub order_by : (DomainEvent F → ℕ) → List (DomainEvent F) → List (DomainEvent F)
  order_by key [] = []
  order_by key (e ∷ es) = insert_by key e (order_by key es)

  abbrev pub seq_of : DomainEvent F → ℕ
  seq_of e = e.global_seq

  unfoldable pub limited : Option ℕ → List (DomainEvent F) → List (DomainEvent F)
  limited none es = es
  limited (some zero) es = []
  limited (some (suc n)) [] = []
  limited (some (suc n)) (e ∷ es) = e ∷ limited (some n) es

  -- From a version on, by version.
  unfoldable pub query : String → ℕ → List (DomainEvent F) → List (DomainEvent F)
  query a v rows = order_by (λ e. e.version) (keep (λ e. of_aggregate a e && leb v e.version) rows)

  unfoldable pub query_aggregate_from_seq : String → ℕ → List (DomainEvent F) → List (DomainEvent F)
  query_aggregate_from_seq a n rows =
      order_by seq_of (keep (λ e. of_aggregate a e && seq_after n e) rows)

  unfoldable pub query_aggregate_from_seq_until :
      String → ℕ → ℕ → List (DomainEvent F) → List (DomainEvent F)
  query_aggregate_from_seq_until a n m rows =
      order_by seq_of (keep (λ e. of_aggregate a e && seq_after n e && seq_to m e) rows)

  -- What the SQL text selects: everything but the task.
  unfoldable pub selected : String → EventFilter → DomainEvent F → Bool
  selected a f e =
      of_aggregate a e
      && passes (λ ts. contains ts (event_type e)) f.event_types
      && passes (λ t. leb t e.timestamp) f.from_time
      && passes (λ t. leb e.timestamp t) f.to_time
      && passes (λ n. leb n e.global_seq) f.from_seq

  -- The limit is part of the SQL text, the task is looked at in the rows that come back.
  unfoldable pub query_filtered : String → EventFilter → List (DomainEvent F) → List (DomainEvent F)
  query_filtered a f rows =
      keep (λ e. passes (λ t. is_task t (payload_task e.payload)) f.task_id)
        (limited f.limit (order_by seq_of (keep (selected a f) rows)))
