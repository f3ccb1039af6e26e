-- ===== src/EventStore/Replay/Invariant.antt =====
-- src/state/projections.rs: what every application of an event keeps, a replay keeps.
use claude_pilot.Base.{inl, inr, List, [], ◌∷◌, string_eq, list_eq, nat_eq, leb, Bool-cases}
use claude_pilot.Events.{DomainEvent}
use claude_pilot.EventStore.Replay.{Projection, replay, apply_idempotent}

module _ {F P : Type 0} (proj : Projection F P) where
  abbrev pub applied : DomainEvent F → P → P
  applied e p = proj.set_last_applied_seq e.global_seq (proj.apply e p)

  pub replay-invariant :
      {Q : P → Type 0} (es : List (DomainEvent F)) (p : P)
      → ((e : DomainEvent F) (q : P) → Q q → Q (applied e q))
      → Q p
      → Q (replay proj es p)
  unfolding replay apply_idempotent
  replay-invariant [] p step q = q
  replay-invariant (e ∷ es) p step q =
      elim (Bool-cases (leb e.global_seq (proj.last_applied_seq p))) [
        | inl seen ↦ rw (seen, replay, apply_idempotent) (replay-invariant es p step q)
        | inr unseen ↦
            rw (unseen, replay, apply_idempotent) (replay-invariant es _ step (step e p q))
      ]
