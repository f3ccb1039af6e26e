-- ===== src/Mission/History.antt =====
-- src/orchestrator/engine/mod.rs and src/state/machine.rs: what a history of transitions looks like.
use claude_pilot.Base.{
  String, ◌≡◌, refl, subst, ◌⊎◌, inl, inr, true, false, ◌&&◌, all, Bool, Option, none, some, List,
  [], ◌∷◌, ◌++◌, arith, string_eq, list_eq, nat_eq, if◌then◌else◌, Bool-cases,
}
use claude_pilot.Events.{EventPayload}
use claude_pilot.Events.MissionState.{
  MissionState, pending, planning, running, paused, verifying, escalated, completed, failed,
  cancelled, StateTransition, can_transition_to, allowed_transitions, is_terminal, same_state,
}
use claude_pilot.Mission.{
  Mission, Request, Storage, TransitionResult, made, transition, emit_state_change,
  transition_state, run_requests,
}
use claude_pilot.Projections.{ProgressProjection, progress_payload}

same_state_refl : (s : MissionState) → same_state s s ≡ true
same_state_refl pending = refl
same_state_refl _ = refl

-- Where a chain of allowed transitions ends that starts in a state; `none` if it is not one.
unfoldable pub follow : List StateTransition → MissionState → Option MissionState
follow [] s = some s
follow (t ∷ ts) s =
    let rest = follow ts t.to in
    if same_state t.from s && can_transition_to t.from t.to then rest else none

follow-append :
    (ts : List StateTransition) (t : StateTransition) (s : MissionState)
    → follow ts s ≡ some t.from
    → can_transition_to t.from t.to ≡ true
    → follow (ts ++ t ∷ []) s ≡ some t.to
unfolding follow
follow-append [] t s h ok =
    subst (λ x. follow (t ∷ []) x ≡ some t.to) at_end (ground (arith, same_state_refl t.from))
  where
    at_end : t.from ≡ s
    at_end = cc
follow-append (u ∷ ts) t s h ok = ground (arith, follow-append ts t u.to)

-- The history is a chain from `pending` to the status.
abbrev pub IsChain : {R : Type 0} → Mission R → Type 0
IsChain m = follow m.state_history pending ≡ some m.status

-- Whatever is requested of a mission whose history is a chain of allowed transitions from pending to
-- its status, and whatever the stores take of it, its history stays such a chain: refused requests
-- leave no trace in it.
pub run_requests-IsChain :
    {R : Type 0} (F : Type 0) (qs : List (Storage × Request)) (m : Mission R)
    → IsChain m
    → IsChain (run_requests {F = F} qs m).0
unfolding run_requests transition_state emit_state_change
run_requests-IsChain F [] m ok = ok
run_requests-IsChain F ((s, q) ∷ qs) m ok =
    elim (Bool-cases (can_transition_to m.status q.target)) [
      | inl allowed ↦
          let more =
            run_requests-IsChain F qs
              (record m {
                status = q.target;
                state_history = m.state_history ++ transition m q ∷ [];
              })
              (follow-append m.state_history (transition m q) pending ok allowed) in
          elim (Bool-cases s.saved) [
            | inl kept ↦ rw (allowed, run_requests, transition_state, kept) more
            | inr lost ↦ rw (allowed, run_requests, transition_state, lost) more
          ]
      | inr refused ↦ rw (refused, run_requests, transition_state) (run_requests-IsChain F qs m ok)
    ]

-- Both stores take what they are given.
abbrev pub is_recorded : Storage → Bool
is_recorded s = s.saved && s.appended

module _ {F : Type 0} where
  unfoldable pub fold_progress : List (EventPayload F) → ProgressProjection → ProgressProjection
  fold_progress [] p = p
  fold_progress (x ∷ xs) p = fold_progress xs (progress_payload 0 x p)

fold_progress-append :
    {F : Type 0} (xs ys : List (EventPayload F)) (p : ProgressProjection)
    → fold_progress (xs ++ ys) p ≡ fold_progress ys (fold_progress xs p)
unfolding fold_progress
fold_progress-append [] ys p = refl
fold_progress-append (x ∷ xs) ys p = fold_progress-append xs ys (progress_payload 0 x p)

abbrev pub is_made : TransitionResult → Bool
is_made made = true
is_made _ = false

one_request-progress :
    {R : Type 0} (F : Type 0) (s : Storage) (q : Request) (m : Mission R) (p : ProgressProjection)
    → p.state ≡ m.status
    → let allowed = can_transition_to m.status q.target in
      let result = transition_state {F = F} s q m in
      (result.0.status ≡ (if allowed then q.target else m.status))
      × ((fold_progress result.1 p).state
          ≡ (if allowed && is_recorded s then q.target else m.status))
      × (is_made result.2 ≡ (allowed && s.saved))
unfolding transition_state emit_state_change fold_progress progress_payload
one_request-progress F s q m p same = elim (Bool-cases (can_transition_to m.status q.target)) [
  | inl allowed ↦ elim (Bool-cases s.saved) [
    | inl kept ↦ elim (Bool-cases s.appended) [
      | inl taken ↦ rw (allowed, kept, taken, transition_state) (refl, refl, refl)
      | inr dropped ↦ rw (allowed, kept, dropped, transition_state) (refl, same, refl)
    ]
    | inr lost ↦ rw (allowed, lost, transition_state) (refl, same, refl)
  ]
  | inr refused ↦ rw (refused, transition_state) (refl, same, refl)
]

recorded-progress :
    {R : Type 0} (F : Type 0) (qs : List (Storage × Request)) (m : Mission R)
    (p : ProgressProjection)
    → p.state ≡ m.status
    → all (λ (r : Storage × Request). is_recorded r.0) qs ≡ true
    → (fold_progress {F = F} (run_requests qs m).1 p).state ≡ (run_requests {F = F} qs m).0.status
unfolding run_requests fold_progress
recorded-progress F [] m p same ok = same
recorded-progress F ((s, q) ∷ qs) m p same ok =
    let one = one_request-progress F s q m p same in
    let result = transition_state {F = F} s q m in
    rw (fold_progress-append result.1 (run_requests {F = F} qs result.0).1 p) (
      recorded-progress F qs result.0 (fold_progress result.1 p) (ground (arith, one.0, one.1, ok))
        (ground (arith, ok)))

-- A progress projection that has the state of a mission has it again after the events of any requests
-- that the stores take. Of one more request, an allowed one changes the status of the mission, but the
-- state of the projection only if the mission is saved and the event appended; it succeeds whenever the
-- mission is saved.
pub run_requests-progress :
    {R : Type 0} (F : Type 0) (qs : List (Storage × Request)) (s : Storage) (q : Request)
    (m : Mission R) (p : ProgressProjection)
    → p.state ≡ m.status
    → all (λ (r : Storage × Request). is_recorded r.0) qs ≡ true
    → let before = run_requests {F = F} qs m in
      let seen = fold_progress before.1 p in
      let allowed = can_transition_to before.0.status q.target in
      let result = transition_state {F = F} s q before.0 in
      (seen.state ≡ before.0.status)
      × (result.0.status ≡ (if allowed then q.target else before.0.status))
      × ((fold_progress result.1 seen).state
          ≡ (if allowed && is_recorded s then q.target else before.0.status))
      × (is_made result.2 ≡ (allowed && s.saved))
run_requests-progress F qs s q m p same ok =
    let kept = recorded-progress F qs m p same ok in
    let one = one_request-progress F s q (run_requests {F = F} qs m).0 _ kept in
    (kept, one.0, one.1, one.2)

abbrev pub request : MissionState → Storage × Request
request s =
    (record { saved = true; appended = true }, record { target = s; reason = "finish"; at = 0 })

-- The way to completion.
abbrev pub finish : MissionState → List (Storage × Request)
finish verifying = request completed ∷ []
finish running = request verifying ∷ request completed ∷ []
finish _ = request running ∷ request verifying ∷ request completed ∷ []

no_exit : (s target : MissionState) → is_terminal s ≡ true → can_transition_to s target ≡ false
unfolding is_terminal can_transition_to allowed_transitions
no_exit completed target h = refl
no_exit failed target h = refl
no_exit cancelled target h = refl
no_exit _ target h = ground arith

run_requests-terminal :
    {R : Type 0} (F : Type 0) (qs : List (Storage × Request)) (m : Mission R)
    → is_terminal m.status ≡ true
    → run_requests {F = F} qs m ≡ (m, [])
unfolding run_requests transition_state emit_state_change
run_requests-terminal F [] m h = refl
run_requests-terminal F ((s, q) ∷ qs) m h =
    rw (no_exit m.status q.target h, run_requests, transition_state)
      (run_requests-terminal F qs m h)

run_requests-finish :
    {R : Type 0} (F : Type 0) (s : MissionState) (id : String) (ts : List StateTransition)
    (rest : R)
    → is_terminal s ≡ false
    → (run_requests {F = F}
        (finish s)
        (record { id = id; status = s; state_history = ts; rest = rest })).0.status
      ≡ completed
unfolding run_requests transition_state emit_state_change can_transition_to allowed_transitions
    is_terminal
run_requests-finish F verifying id ts rest h = refl
run_requests-finish F pending id ts rest h = refl
run_requests-finish F planning id ts rest h = refl
run_requests-finish F running id ts rest h = refl
run_requests-finish F paused id ts rest h = refl
run_requests-finish F escalated id ts rest h = refl
run_requests-finish F _ id ts rest h = ground arith

-- A mission in a terminal state keeps it, and its history, whatever is requested, and no event is
-- emitted; from every other state some requests complete it.
terminal_or_finish :
    {R : Type 0} (F : Type 0) (m : Mission R)
    → ((is_terminal m.status ≡ true)
        × ((qs : List (Storage × Request)) → run_requests {F = F} qs m ≡ (m, [])))
      ⊎ ((is_terminal m.status ≡ false)
          × ((run_requests {F = F} (finish m.status) m).0.status ≡ completed))
terminal_or_finish F m = elim (Bool-cases (is_terminal m.status)) [
  | inl ended ↦ inl (ended, λ qs. run_requests-terminal F qs m ended)
  | inr going ↦ inr (going, run_requests-finish F m.status m.id m.state_history m.rest going)
]
