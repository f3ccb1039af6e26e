-- ===== src/Mission.antt =====
-- src/orchestrator/engine/mod.rs: the transitions of a mission, with the history that they leave and
-- the events that they emit. The stores are left out but for whether they take what they are given.
use claude_pilot.Base.{
  ℕ, zero, suc, ◌+◌, ◌-◌, ◌*◌, ◌/◌, ◌%◌, ◌^◌, ◌≤◌, ◌<◌, String, ◌≡◌, refl, sym, ap, ◌∙◌, subst, ◌≢◌,
  ◌↔◌, ◌⊎◌, inl, inr, ite, Bool, true, false, ◌&&◌, ◌||◌, not, Option, none, some, List, [], ◌∷◌,
  ◌++◌, map, arith, DecEq, ◌==◌, string_eq, list_eq, nat_eq, eq_refl, ==_iff, contains, is_subset,
  contains-set_insert, contains-append, set_insert, set_remove, length, length-append, all, any,
  keep, find, is_empty, is_some, is_none, ltb, leb, eqb, if◌then◌else◌, Bool-cases, Option-cases,
  decide_by, string_dec, list_dec, ltb→lt, lt→ltb, length-keep-le, length-map,
}
use claude_pilot.Events.{EventPayload, state_changed}
use claude_pilot.Events.MissionState.{MissionState, pending, StateTransition, can_transition_to}
mod Tasks
mod Loop
mod Rounds
mod LoopTests
mod History
mod Tests

-- `rest` is all the other fields, which this code does not touch.
pub record Mission (R : Type 0) : Type 0 where
  pub id : String
  pub status : MissionState
  pub state_history : List StateTransition
  pub rest : R

abbrev pub new_mission : {R : Type 0} → String → R → Mission R
new_mission id rest = record { id = id; status = pending; state_history = []; rest = rest }

pub record Request : Type 0 where
  pub target : MissionState
  pub reason : String
  pub at : ℕ

abbrev pub transition : {R : Type 0} → Mission R → Request → StateTransition
transition m q = record { from = m.status; to = q.target; reason = q.reason; at = q.at }

-- What becomes of the calls of the stores in a transition: the mission is saved, and there is an event
-- store, which takes the event.
pub record Storage : Type 0 where
  pub saved : Bool
  pub appended : Bool

pub data TransitionResult : Type 0 where
  -- `Ok(())`.
  made : TransitionResult
  -- `MissionError::InvalidState`.
  invalid_state : TransitionResult
  -- The error of `store.save`.
  not_saved : TransitionResult

module _ {F R : Type 0} where
  -- What follows the save, after the status has changed: its error returns, and that of the append is
  -- only logged.
  unfoldable pub emit_state_change :
      Storage → EventPayload F → Mission R → Mission R × List (EventPayload F) × TransitionResult
  emit_state_change s x m =
      if s.saved then (m, (if s.appended then x ∷ [] else []), made) else (m, [], not_saved)

  -- The mission, the events that the event store takes, and the result.
  unfoldable pub transition_state :
      Storage → Request → Mission R → Mission R × List (EventPayload F) × TransitionResult
  transition_state s q m =
      if can_transition_to m.status q.target
      then emit_state_change s (state_changed m.status q.target q.reason)
          (record m { status = q.target; state_history = m.state_history ++ transition m q ∷ [] })
      else (m, [], invalid_state)

  abbrev pub after_request :
      Mission R × List (EventPayload F) × TransitionResult
      → (Mission R → Mission R × List (EventPayload F))
      → Mission R × List (EventPayload F)
  after_request (m, xs, result) next = ((next m).0, xs ++ (next m).1)

  -- Requests one after the other, each with what becomes of its calls of the stores.
  unfoldable pub run_requests :
      List (Storage × Request) → Mission R → Mission R × List (EventPayload F)
  run_requests [] m = (m, [])
  run_requests ((s, q) ∷ qs) m = after_request (transition_state s q m) (run_requests qs)
