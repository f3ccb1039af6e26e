-- ===== src/Events/MissionState.antt =====
-- src/state/machine.rs: the states of a mission, and the transitions that are allowed.
use claude_pilot.Base.{ℕ, String, Bool, true, false, not, any, eqb, List, [], ◌∷◌}

pub data MissionState : Type 0 where
  pending planning running paused verifying escalated completed failed cancelled : MissionState

abbrev pub discriminant : MissionState → ℕ
discriminant pending = 0
discriminant planning = 1
discriminant running = 2
discriminant paused = 3
discriminant verifying = 4
discriminant escalated = 5
discriminant completed = 6
discriminant failed = 7
discriminant cancelled = 8

-- The derived `==`.
abbrev pub same_state : MissionState → MissionState → Bool
same_state a b = eqb (discriminant a) (discriminant b)

unfoldable pub allowed_transitions : MissionState → List MissionState
allowed_transitions pending = planning ∷ running ∷ failed ∷ cancelled ∷ []
allowed_transitions planning = running ∷ failed ∷ cancelled ∷ escalated ∷ []
allowed_transitions running = verifying ∷ failed ∷ paused ∷ cancelled ∷ escalated ∷ []
allowed_transitions verifying = completed ∷ running ∷ failed ∷ escalated ∷ []
allowed_transitions paused = running ∷ failed ∷ cancelled ∷ []
allowed_transitions escalated = running ∷ paused ∷ failed ∷ cancelled ∷ []
allowed_transitions completed = []
allowed_transitions failed = []
allowed_transitions cancelled = []

unfoldable pub can_transition_to : MissionState → MissionState → Bool
can_transition_to s target = any (same_state target) (allowed_transitions s)

unfoldable pub is_terminal : MissionState → Bool
is_terminal completed = true
is_terminal failed = true
is_terminal cancelled = true
is_terminal _ = false

unfoldable pub is_active : MissionState → Bool
is_active planning = true
is_active running = true
is_active verifying = true
is_active _ = false

unfoldable pub is_suspended : MissionState → Bool
is_suspended paused = true
is_suspended escalated = true
is_suspended _ = false

unfoldable pub can_resume : MissionState → Bool
can_resume paused = true
can_resume escalated = true
can_resume _ = false

unfoldable pub can_create_retry_mission : MissionState → Bool
can_create_retry_mission failed = true
can_create_retry_mission cancelled = true
can_create_retry_mission _ = false

unfoldable pub can_cancel : MissionState → Bool
can_cancel s = not (is_terminal s)

unfoldable pub requires_human_input : MissionState → Bool
requires_human_input escalated = true
requires_human_input _ = false

pub record StateTransition : Type 0 where
  pub from : MissionState
  pub to : MissionState
  pub reason : String
  pub at : ℕ
