-- ===== src/Events.antt =====
-- src/state/events.rs: an event of a mission, and the filters on events.
use claude_pilot.Base.{
  ℕ, String, Bool, true, false, ◌&&◌, not, Option, none, some, List, string_eq, ◌==◌, contains, ltb,
}
pub mod MissionState
pub mod TaskStatus
pub mod Kinds
mod Payload
unfoldable pub use Payload.*

pub record DomainEvent (F : Type 0) : Type 0 where
  pub id : String
  pub aggregate_id : String
  pub version : ℕ
  pub global_seq : ℕ
  pub timestamp : ℕ
  pub payload : EventPayload F
  pub causation_id : Option String
  pub correlation_id : Option String

pub record EventFilter : Type 0 where
  pub event_types : Option (List String)
  pub from_time : Option ℕ
  pub to_time : Option ℕ
  pub task_id : Option String
  pub from_seq : Option ℕ
  pub limit : Option ℕ

abbrev pub any_event : EventFilter
any_event = record {
  event_types = none;
  from_time = none;
  to_time = none;
  task_id = none;
  from_seq = none;
  limit = none;
}

abbrev pub is_task : String → Option String → Bool
is_task t none = false
is_task t (some u) = u == t

-- Each part of a filter that is not given lets every event pass.
unfoldable pub passes {ℓ} : {A : Type ℓ} → (A → Bool) → Option A → Bool
passes p none = true
passes p (some a) = p a

module _ {F : Type 0} where
  unfoldable pub event_type : DomainEvent F → String
  event_type e = payload_type e.payload

  unfoldable pub matches : EventFilter → DomainEvent F → Bool
  matches f e =
      passes (λ ts. contains ts (event_type e)) f.event_types
      && passes (λ t. not (ltb e.timestamp t)) f.from_time
      && passes (λ t. not (ltb t e.timestamp)) f.to_time
      && passes (λ t. is_task t (payload_task e.payload)) f.task_id
      && passes (λ n. not (ltb e.global_seq n)) f.from_seq
