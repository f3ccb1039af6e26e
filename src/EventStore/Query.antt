-- ===== src/EventStore/Query.antt =====
-- src/state/event_store.rs: the filtered query against `EventFilter::matches`.
use claude_pilot.Base.{
  ℕ, String, ◌≡◌, refl, sym, ap, ◌∙◌, Bool, ◌&&◌, none, List, [], ◌∷◌, arith, string_eq, list_eq,
  nat_eq, keep,
}
use claude_pilot.Events.{DomainEvent, EventFilter, passes, payload_task, is_task, matches}
use claude_pilot.EventStore.{
  Store, of_aggregate, limited, selected, query_filtered, seq_to, seq_after,
  query_aggregate_from_seq, query_aggregate_from_seq_until,
}
use claude_pilot.EventStore.Sequence.{IsOrdered, ascending-keep, order_by-ascending}

module _ {F : Type 0} where
  -- All the events of an aggregate.
  abbrev pub events_of : String → List (DomainEvent F) → List (DomainEvent F)
  events_of a rows = keep (of_aggregate a) rows

  keep-keep :
      (p q r : DomainEvent F → Bool) (es : List (DomainEvent F))
      → ((e : DomainEvent F) → r e ≡ (q e && p e))
      → keep p (keep q es) ≡ keep r es
  keep-keep p q r [] same = refl
  keep-keep p q r (e ∷ es) same = ground (arith, same e, keep-keep p q r es same)

  selected-matches :
      (a : String) (f : EventFilter) (e : DomainEvent F)
      → (of_aggregate a e && matches f e)
        ≡ (selected a f e && passes (λ t. is_task t (payload_task e.payload)) f.task_id)
  unfolding matches selected passes
  selected-matches a f e = ground arith

  -- Without a limit, the filtered query of an ordered table returns those events of the aggregate
  -- that the filter matches, in the order in which they were appended.
  query_filtered-matches :
      (a : String) (f : EventFilter) (s : Store F)
      → IsOrdered s
      → f.limit ≡ none
      → query_filtered a f s.events ≡ keep (matches f) (events_of a s.events)
  unfolding query_filtered limited matches
  query_filtered-matches a f s (up, below, pos) free =
      rw (free, limited)
        (ap (keep _) (order_by-ascending 0 _ (ascending-keep (selected a f) 0 s.events up))
          ∙ keep-keep _ _ (λ e. of_aggregate a e && matches f e) s.events (selected-matches a f)
          ∙ sym (keep-keep _ _ _ s.events (λ e. refl)))

  pub from_seq_lem :
      (a : String) (n : ℕ) (s : Store F)
      → IsOrdered s
      → query_aggregate_from_seq a n s.events ≡ keep (seq_after n) (events_of a s.events)
  unfolding query_aggregate_from_seq
  from_seq_lem a n s (up, below, pos) =
      order_by-ascending 0 _ (ascending-keep _ 0 s.events up)
      ∙ sym (keep-keep _ _ _ s.events (λ e. refl))

  pub from_seq_until_lem :
      (a : String) (n m : ℕ) (s : Store F)
      → IsOrdered s
      → query_aggregate_from_seq_until a n m s.events
        ≡ keep (seq_to m) (keep (seq_after n) (events_of a s.events))
  unfolding query_aggregate_from_seq_until
  from_seq_until_lem a n m s (up, below, pos) =
      order_by-ascending 0 _ (ascending-keep _ 0 s.events up)
      ∙ sym (keep-keep _ _ _ s.events (λ e. ground arith))
      ∙ ap (keep (seq_to m))
          (sym (keep-keep _ _ (λ e. of_aggregate a e && seq_after n e) s.events (λ e. refl)))
