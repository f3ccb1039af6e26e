-- ===== src/Projections/Timeline.antt =====
-- src/state/projections.rs: the timeline. The text of a summary is a parameter.
use claude_pilot.Base.{
  ℕ, ◌≤◌, String, ◌≡◌, refl, subst, Option, List, [], ◌∷◌, ◌++◌, arith, string_eq, list_eq, nat_eq,
  length, length-append, ltb, if◌then◌else◌,
}
use claude_pilot.Events.{DomainEvent, event_type, payload_task}
use claude_pilot.EventStore.Replay.Invariant.{replay-invariant}
use claude_pilot.EventStore.Replay.{Projection, replay}

pub record TimelineEntry : Type 0 where
  pub timestamp : ℕ
  pub event_type : String
  pub summary : String
  pub task_id : Option String

pub record TimelineProjection : Type 0 where
  pub version : ℕ
  pub last_applied_seq : ℕ
  pub entries : List TimelineEntry
  pub max_entries : ℕ

abbrev pub new_timeline : ℕ → TimelineProjection
new_timeline max = record { version = 0; last_applied_seq = 0; entries = []; max_entries = max }

abbrev pub pop_front {ℓ} : {A : Type ℓ} → List A → List A
pop_front [] = []
pop_front (x ∷ xs) = xs

-- `push_back`, then `pop_front` past the limit.
unfoldable pub push_bounded : ℕ → TimelineEntry → List TimelineEntry → List TimelineEntry
push_bounded max x xs =
    let pushed = xs ++ x ∷ [] in if ltb max (length pushed) then pop_front pushed else pushed

module _ {F : Type 0} (summary : DomainEvent F → String) where
  abbrev pub entry : DomainEvent F → TimelineEntry
  entry e = record {
    timestamp = e.timestamp;
    event_type = event_type e;
    summary = summary e;
    task_id = payload_task e.payload;
  }

  unfoldable pub timeline_apply : DomainEvent F → TimelineProjection → TimelineProjection
  timeline_apply e p = record p {
    version = e.version;
    entries = push_bounded p.max_entries (entry e) p.entries;
  }

  unfoldable pub timeline : Projection F TimelineProjection
  timeline = record {
    default = new_timeline 0;
    apply = timeline_apply;
    last_applied_seq = λ p. p.last_applied_seq;
    set_last_applied_seq = λ n p. record p { last_applied_seq = n };
    schema_version = 1;
    projection_type = "TimelineProjection";
  }

  push_bounded-length :
      (max : ℕ) (x : TimelineEntry) (xs : List TimelineEntry)
      → length xs ≤ max
      → length (push_bounded max x xs) ≤ max
  unfolding push_bounded
  push_bounded-length max x [] le = ground arith
  push_bounded-length max x (y ∷ ys) le = ground (arith, length-append ys (x ∷ []))

  -- A replay of any events keeps a timeline within its limit, and keeps the limit.
  pub timeline-bounded :
      (es : List (DomainEvent F)) (p : TimelineProjection)
      → length p.entries ≤ p.max_entries
      → (length (replay timeline es p).entries ≤ p.max_entries)
        × ((replay timeline es p).max_entries ≡ p.max_entries)
  unfolding timeline timeline_apply
  timeline-bounded es p le =
      replay-invariant timeline
        {Q = λ q. (length q.entries ≤ p.max_entries) × (q.max_entries ≡ p.max_entries)} es p
        (λ e q fits. (
          subst (λ m. length (push_bounded q.max_entries (entry e) q.entries) ≤ m) fits.1
              (push_bounded-length q.max_entries (entry e) q.entries (ground (arith, fits))),
          fits.1,
        ))
        (le, refl)

  -- A timeline that is rebuilt without a snapshot stays empty: it starts with a limit of 0 entries.
  pub timeline-rebuilt_empty :
      (es : List (DomainEvent F)) → (replay timeline es timeline.default).entries ≡ []
  unfolding timeline timeline_apply push_bounded
  timeline-rebuilt_empty es =
      (replay-invariant timeline {Q = λ q. (q.entries ≡ []) × (q.max_entries ≡ 0)} es
        timeline.default (λ e q kept. (ground (arith, kept), kept.1)) (refl, refl)).0
