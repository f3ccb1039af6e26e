-- ===== src/EventStore/Replay/Rebuild.antt =====
-- src/state/replay.rs: what a rebuild from a snapshot has to do with a replay of all events.
use claude_pilot.Base.{
  ℕ, ◌≤◌, String, ◌≡◌, refl, sym, ap, ◌∙◌, inl, inr, Bool, true, false, some, List, [], ◌∷◌, ◌++◌,
  arith, string_eq, list_eq, nat_eq, keep, ltb, leb, Bool-cases, Option-cases,
}
use claude_pilot.Events.{DomainEvent}
use claude_pilot.EventStore.{of_aggregate, seq_to, seq_after, query_aggregate_from_seq_until}
use claude_pilot.EventStore.Sequence.{
  IsOrdered, ascending_from, ascending-keep, split_at_seq, all_seq_after, none_seq_to,
}
use claude_pilot.EventStore.Query.{events_of, from_seq_lem, from_seq_until_lem}
use claude_pilot.EventStore.Replay.{
  Projection, Serde, Replayer, apply_idempotent, replay, load_latest, starting_point,
  rebuild_projection, replay_from_checkpoint,
}

-- What the implementations of the trait do with the sequence number: it is a field of theirs, which
-- starts at 0.
pub record IsLawful {F P : Type 0} (proj : Projection F P) : Type 0 where
  pub last-set : (n : ℕ) (p : P) → proj.last_applied_seq (proj.set_last_applied_seq n p) ≡ n
  pub last-default : proj.last_applied_seq proj.default ≡ 0

module _ {F P : Type 0} (proj : Projection F P) where
  abbrev run : List (DomainEvent F) → P → P
  run = replay proj

  run-append : (xs ys : List (DomainEvent F)) (p : P) → run (xs ++ ys) p ≡ run ys (run xs p)
  unfolding replay
  run-append [] ys p = refl
  run-append (x ∷ xs) ys p = run-append xs ys _

  -- A second replay of events that a projection has seen changes nothing.
  run-seen :
      (n c : ℕ) (xs : List (DomainEvent F)) (p : P)
      → c ≤ n
      → proj.last_applied_seq p ≡ n
      → run (keep (seq_to c) xs) p ≡ p
  unfolding replay apply_idempotent
  run-seen n c [] p le last = refl
  run-seen n c (x ∷ xs) p le last = elim (Bool-cases (leb x.global_seq c)) [
    | inl seen ↦ ground (arith, run-seen n c xs p, seen)
    | inr unseen ↦ ground (arith, run-seen n c xs p, unseen)
  ]

  -- The events up to a number, then those after it.
  run-resume :
      (n : ℕ) (es : List (DomainEvent F)) (p : P)
      → ascending_from 0 es ≡ true
      → run (keep (seq_after n) es) (run (keep (seq_to n) es) p) ≡ run es p
  run-resume n es p up = sym (run-append _ _ p) ∙ ap (λ xs. run xs p) (split_at_seq 0 n es up)

keep_comm : {A : Type 0} (p q : A → Bool) (xs : List A) → keep p (keep q xs) ≡ keep q (keep p xs)
keep_comm p q [] = refl
keep_comm p q (x ∷ xs) = ground (arith, keep_comm p q xs)

keep_within :
    {F : Type 0} (n c : ℕ) (es : List (DomainEvent F))
    → n ≤ c
    → keep (seq_to n) (keep (seq_to c) es) ≡ keep (seq_to n) es
keep_within n c [] le = refl
keep_within n c (e ∷ es) le = ground (arith, keep_within n c es)

module _ {F P D : Type 0} (proj : Projection F P) (serde : Serde P D) where
  abbrev pub events_in : String → Replayer F D → List (DomainEvent F)
  events_in a r = events_of a r.event_store.events

  -- Of the events up to a sequence number, from the start.
  abbrev pub replay_to : ℕ → String → Replayer F D → P
  replay_to n a r = replay proj (keep (seq_to n) (events_in a r)) proj.default

  -- The latest snapshot, if there is one, is the replay of the events up to its sequence number.
  abbrev pub IsValid : String → Replayer F D → Type 0
  IsValid a r =
      (p : P) (n : ℕ)
      → load_latest proj serde a r ≡ some (p, n)
      → (proj.last_applied_seq p ≡ n) × (p ≡ replay_to n a r)

  abbrev pub start_of : String → Replayer F D → P × ℕ
  start_of = starting_point proj serde

  events_in-ascending :
      (a : String) (r : Replayer F D)
      → IsOrdered r.event_store
      → ascending_from 0 (events_in a r) ≡ true
  events_in-ascending a r (up, below, pos) =
      ascending-keep (of_aggregate a) 0 r.event_store.events up

  start-IsValid :
      (a : String) (r : Replayer F D)
      → IsLawful proj
      → IsOrdered r.event_store
      → IsValid a r
      → (proj.last_applied_seq (start_of a r).0 ≡ (start_of a r).1)
        × ((start_of a r).0 ≡ replay_to (start_of a r).1 a r)
  unfolding replay
  start-IsValid a r law ok valid = elim (Option-cases (load_latest proj serde a r)) [
    | inl gone ↦ rw gone (
      law.last-default,
      sym (
          ap (λ es. replay proj es proj.default)
            (none_seq_to 0 0 (events_in a r) (ground arith) (events_in-ascending a r ok))),
    )
    | inr ((p, n), found) ↦ rw found (valid p n found)
  ]

  -- On an ordered table, with a valid snapshot or none, a rebuilt projection is the replay of all the
  -- events of the aggregate from the start.
  pub rebuild_projection_lem :
      (id a : String) (r : Replayer F D)
      → IsLawful proj
      → IsOrdered r.event_store
      → IsValid a r
      → (rebuild_projection proj serde id a r).1 ≡ replay proj (events_in a r) proj.default
  unfolding rebuild_projection
  rebuild_projection_lem id a r law ok valid =
      ap (λ es. replay proj es (start_of a r).0) (from_seq_lem a (start_of a r).1 r.event_store ok)
      ∙ ap (replay proj _) (start-IsValid a r law ok valid).1
      ∙ run-resume proj (start_of a r).1 _ _ (events_in-ascending a r ok)

  -- All events are numbered above 0.
  from_start :
      (a : String) (c : ℕ) (r : Replayer F D)
      → IsOrdered r.event_store
      → query_aggregate_from_seq_until a 0 c r.event_store.events ≡ keep (seq_to c) (events_in a r)
  from_start a c r ok =
      from_seq_until_lem a 0 c r.event_store ok
      ∙ ap (keep (seq_to c))
          (all_seq_after 0 0 (events_in a r) (ground arith) (events_in-ascending a r ok))

  -- On an ordered table, with a valid snapshot that is not ahead of the checkpoint or none, a replay to
  -- a checkpoint is the replay of the events up to it from the start.
  pub replay_from_checkpoint_lem :
      (a : String) (c : ℕ) (r : Replayer F D)
      → IsLawful proj
      → IsOrdered r.event_store
      → IsValid a r
      → (start_of a r).1 ≤ c
      → replay_from_checkpoint proj serde a c r ≡ replay_to c a r
  unfolding replay_from_checkpoint
  replay_from_checkpoint_lem a c r law ok valid le = elim (Bool-cases (ltb (start_of a r).1 c)) [
    | inl behind ↦ rw behind (
        ap (λ es. replay proj es (start_of a r).0)
          (from_seq_until_lem a (start_of a r).1 c r.event_store ok ∙ keep_comm _ _ (events_in a r))
        ∙ ap (replay proj _) (
            (start-IsValid a r law ok valid).1
            ∙ ap (λ es. replay proj es proj.default)
                (sym (keep_within (start_of a r).1 c (events_in a r) le)))
        ∙ run-resume proj (start_of a r).1 _ _
            (ascending-keep (seq_to c) 0 (events_in a r) (events_in-ascending a r ok)))
    | inr level ↦ rw level (
        ap (λ es. replay proj es (start_of a r).0) (from_start a c r ok)
        ∙ run-seen proj _ c (events_in a r) _ (ground (arith, level))
            (start-IsValid a r law ok valid).0
        ∙ (start-IsValid a r law ok valid).1
        ∙ ap (λ n. replay_to n a r) (ground (arith, level)))
  ]

  -- On an ordered table, a replay to a checkpoint that is not behind the latest valid snapshot answers
  -- the state of that snapshot, which holds the events after the checkpoint too.
  replay_from_checkpoint_early :
      (a : String) (c n : ℕ) (p : P) (r : Replayer F D)
      → IsOrdered r.event_store
      → IsValid a r
      → load_latest proj serde a r ≡ some (p, n)
      → c ≤ n
      → replay_from_checkpoint proj serde a c r ≡ p
  unfolding replay_from_checkpoint
  replay_from_checkpoint_early a c n p r ok valid found le =
      rw (found, ahead)
        (ap (λ es. replay proj es p) (from_start a c r ok)
          ∙ run-seen proj n c (events_in a r) p le (valid p n found).0)
    where
      ahead : ltb n c ≡ false
      ahead = ground arith
