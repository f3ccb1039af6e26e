-- ===== src/Mission/Tests.antt =====
-- A mission and its requests, and the theorems at these runs.
use claude_pilot.Base.{ℕ, true, false, String, ◌≡◌, refl, List, [], ◌∷◌, string_eq, list_eq, nat_eq}
use claude_pilot.Events.MissionState.{
  running, planning, verifying, completed, can_transition_to, allowed_transitions, is_terminal,
}
use claude_pilot.Mission.{
  emit_state_change, Mission, Request, Storage, new_mission, transition_state, run_requests,
}
use claude_pilot.Mission.History.{
  IsChain, follow, run_requests-IsChain, fold_progress, run_requests-progress, request, is_made,
}
use claude_pilot.Projections.{new_progress, progress_payload}

-- The names to see through in a run.
runs : String
unfolding transition_state emit_state_change run_requests can_transition_to allowed_transitions
    is_terminal follow fold_progress progress_payload
runs = "runs"

abbrev first : Mission String
first = new_mission "m-1" "rest"

abbrev stored : Storage
stored = record { saved = true; appended = true }

-- The second request is refused.
abbrev requests : List (Storage × Request)
requests =
    request running
    ∷ request completed
    ∷ (record stored { appended = false }, (request planning).1)
    ∷ []

refused_stays : (run_requests {F = ℕ} requests first).0.status ≡ running
unfolding runs
refused_stays = refl

-- A mission that is not saved has changed, and nobody is told.
unsaved_changes :
    (run_requests {F = ℕ}
      ((record stored { saved = false }, (request running).1) ∷ [])
      first).0.status
    ≡ running
unfolding runs
unsaved_changes = refl

run_requests-IsChain_example : IsChain (run_requests {F = ℕ} requests first).0
unfolding runs
run_requests-IsChain_example = run_requests-IsChain ℕ requests first refl

abbrev begun : List (Storage × Request)
begun = request running ∷ request completed ∷ []

run_requests-progress_example :
    let before = run_requests {F = ℕ} begun first in
    let seen = fold_progress before.1 new_progress in
    let unheard = record stored { appended = false } in
    let result = transition_state {F = ℕ} unheard (request verifying).1 before.0 in
    (seen.state ≡ before.0.status)
    × (result.0.status ≡ verifying)
    × ((fold_progress result.1 seen).state ≡ running)
    × (is_made result.2 ≡ true)
unfolding runs
run_requests-progress_example =
    run_requests-progress ℕ begun (record stored { appended = false }) (request verifying).1 first
      new_progress refl refl
