-- ===== src/EventStore/Replay/Archive.antt =====
-- src/state/replay.rs and src/state/writer.rs: what archiving after a snapshot does to the rest of the
-- table, and to a writer that starts again.
use claude_pilot.Base.{
  ℕ, ◌<◌, String, ◌≡◌, refl, sym, ap, ◌∙◌, subst, true, none, some, List, [], ◌∷◌, arith, string_eq,
  list_eq, nat_eq, all, keep,
}
use claude_pilot.Events.{DomainEvent}
use claude_pilot.EventStore.{
  Store, seq_to, seq_after, archive_through, append_event, reopen, max_global_seq, write_event,
  insert_row, query_aggregate_from_seq, order_by, insert_by,
}
use claude_pilot.EventStore.Append.{archive_through-IsOrdered}
use claude_pilot.EventStore.Sequence.{IsOrdered}
use claude_pilot.EventStore.Query.{events_of}
use claude_pilot.EventStore.Replay.{
  Projection, Serde, Replayer, replay, load_latest, rebuild_projection, saved,
  auto_archive_if_enabled,
}
use claude_pilot.EventStore.Replay.Rebuild.{IsLawful, rebuild_projection_lem}

module _ {F : Type 0} where
  archived_gone :
      (n : ℕ) (es : List (DomainEvent F)) → all (seq_to n) es ≡ true → keep (seq_after n) es ≡ []
  archived_gone n [] h = refl
  archived_gone n (e ∷ es) h = ground (arith, archived_gone n es)

  archived_others :
      (n : ℕ) (b : String) (es : List (DomainEvent F))
      → all (seq_to n) (events_of b es) ≡ true
      → events_of b (keep (seq_after n) es) ≡ []
  archived_others n b [] h = refl
  archived_others n b (e ∷ es) h = ground (arith, archived_others n b es)

  archive_through-events :
      (n k : ℕ) (s : Store F)
      → (archive_through n s).1 ≡ some k
      → (archive_through n s).0.events ≡ keep (seq_after n) s.events
  unfolding archive_through
  archive_through-events n k s h = ground arith

module _ {F P D : Type 0} (proj : Projection F P) (serde : Serde P D) where
  saved-store :
      (id a : String) (p : P) (r : Replayer F D) (k : ℕ)
      → r.archive_after_snapshot ≡ true
      → (archive_through (proj.last_applied_seq p) r.event_store).1 ≡ some k
      → (saved proj serde id a p r).event_store
        ≡ (archive_through (proj.last_applied_seq p) r.event_store).0
  unfolding saved auto_archive_if_enabled
  saved-store id a p r k on done = rw (on, done) refl

  -- When archiving after a snapshot is on, and works, a snapshot of one aggregate takes the events of
  -- all the others with it: one whose events are all numbered up to that snapshot, and that has no
  -- snapshot itself, is rebuilt as if nothing had happened to it.
  pub saved-forgets :
      (id id' a b : String) (p : P) (r : Replayer F D) (k : ℕ)
      → IsLawful proj
      → IsOrdered r.event_store
      → r.archive_after_snapshot ≡ true
      → (archive_through (proj.last_applied_seq p) r.event_store).1 ≡ some k
      → all (seq_to (proj.last_applied_seq p)) (events_of b r.event_store.events) ≡ true
      → load_latest proj serde b (saved proj serde id a p r) ≡ none
      → (rebuild_projection proj serde id' b (saved proj serde id a p r)).1 ≡ proj.default
  unfolding replay
  saved-forgets id id' a b p r k law ok on done old gone =
      rebuild_projection_lem proj serde id' b r' law
        (subst IsOrdered (sym store) (archive_through-IsOrdered n r.event_store ok))
        (λ q m found. ground (arith, gone, found))
      ∙ ap (λ es. replay proj es proj.default)
          (ap (λ s. events_of b s.events) store
            ∙ ap (events_of b) (archive_through-events n k r.event_store done)
            ∙ archived_others n b r.event_store.events old)
    where
      n : ℕ
      n = proj.last_applied_seq p

      r' : Replayer F D
      r' = saved proj serde id a p r

      store : r'.event_store ≡ (archive_through n r.event_store).0
      store = saved-store id a p r k on done

-- The writer starts again, and an event is appended.
abbrev pub after_restart : {F : Type 0} → DomainEvent F → Store F → Store F
after_restart e s = (append_event e none (reopen s)).0

restart_unseen :
    {F : Type 0} (a : String) (n : ℕ) (e : DomainEvent F) (s : Store F)
    → 0 < n
    → s.events ≡ []
    → query_aggregate_from_seq a n (after_restart e s).events ≡ []
unfolding append_event write_event reopen query_aggregate_from_seq order_by insert_by insert_row
    max_global_seq
restart_unseen a n e s pos empty = rw empty (ground arith)

module _ {F P D : Type 0} (proj : Projection F P) (serde : Serde P D) where
  -- Once every event is archived behind a snapshot, a writer that starts again numbers from 1: the next
  -- event is not after the snapshot, and a rebuild does not see it.
  pub rebuild_after_restart :
      (id a : String) (e : DomainEvent F) (p : P) (n k : ℕ) (r : Replayer F D)
      → 0 < n
      → (archive_through n r.event_store).1 ≡ some k
      → all (seq_to n) r.event_store.events ≡ true
      → load_latest proj serde a r ≡ some (p, n)
      → (rebuild_projection proj serde id a
          (record r { event_store = after_restart e (archive_through n r.event_store).0 })).1
        ≡ p
  unfolding rebuild_projection replay load_latest
  rebuild_after_restart id a e p n k r pos done old found =
      rw
        (
          found,
          restart_unseen a n e (archive_through n r.event_store).0 pos (
              archive_through-events n k r.event_store done
              ∙ archived_gone n r.event_store.events old),
        )
        refl
