-- ===== src/Projections/Progress.antt =====
-- src/state/projections.rs: the progress of a mission. The state of the percentage, a float, is left out.
use claude_pilot.Base.{
  ℕ, ◌+◌, ◌%◌, ◌^◌, ◌<◌, String, ◌≡◌, refl, inl, inr, Bool, true, false, Option, none, some, List,
  [], ◌∷◌, arith, string_eq, list_eq, nat_eq, leb, ltb, length, keep, all, ◌&&◌, ◌≤◌, if◌then◌else◌,
  Bool-cases,
}
use claude_pilot.Events.{
  DomainEvent, EventPayload, mission_created, state_changed, plan_generated, task_started,
  task_completed, task_failed, task_deferred, verification_round, issue_detected, issue_resolved,
}
use claude_pilot.EventStore.Sequence.{ascending_from}
use claude_pilot.EventStore.Replay.{Projection, replay, apply_idempotent}
use claude_pilot.Events.MissionState.{MissionState}

pub record ProgressProjection : Type 0 where
  pub version : ℕ
  pub last_applied_seq : ℕ
  pub mission_id : Option String
  pub state : MissionState
  pub total_tasks : ℕ
  pub completed_tasks : ℕ
  pub failed_tasks : ℕ
  pub deferred_tasks : ℕ
  pub current_task : Option String
  pub current_verification_round : ℕ
  pub total_issues_detected : ℕ
  pub total_issues_resolved : ℕ
  pub started_at : Option ℕ
  pub last_activity : Option ℕ

abbrev pub new_progress : ProgressProjection
new_progress = record {
  version = 0;
  last_applied_seq = 0;
  mission_id = none;
  state = MissionState.pending;
  total_tasks = 0;
  completed_tasks = 0;
  failed_tasks = 0;
  deferred_tasks = 0;
  current_task = none;
  current_verification_round = 0;
  total_issues_detected = 0;
  total_issues_resolved = 0;
  started_at = none;
  last_activity = none;
}

-- `if id.is_none() { id = Some(a) }`
abbrev pub or_first : String → Option String → Option String
or_first a none = some a
or_first a (some b) = some b

-- `usize` addition.
abbrev pub count_up : ℕ → ℕ
count_up n = (n + 1) % 2 ^ 64

unfoldable pub is_healthy : ProgressProjection → Bool
is_healthy p = elim p.state [
  | MissionState.failed ↦ false
  | MissionState.cancelled ↦ false
  | _ ↦ true
]

module _ {F : Type 0} where
  unfoldable pub progress_payload : ℕ → EventPayload F → ProgressProjection → ProgressProjection
  progress_payload now (mission_created _) p = record p { started_at = some now }
  progress_payload now (state_changed _ to _) p = record p { state = to }
  progress_payload now (task_started t _) p = record p { current_task = some t }
  progress_payload now (task_completed _ _ _) p = record p {
    completed_tasks = count_up p.completed_tasks;
    current_task = none;
  }
  progress_payload now (task_failed _ _ _) p = record p { failed_tasks = count_up p.failed_tasks }
  progress_payload now (task_deferred _ _ _) p = record p {
    deferred_tasks = count_up p.deferred_tasks;
  }
  progress_payload now (plan_generated n _) p = record p { total_tasks = n }
  progress_payload now (verification_round n _ _ _) p = record p { current_verification_round = n }
  progress_payload now (issue_detected _ _ _ _ _ _) p = record p {
    total_issues_detected = count_up p.total_issues_detected;
  }
  progress_payload now (issue_resolved _ _) p = record p {
    total_issues_resolved = count_up p.total_issues_resolved;
  }
  progress_payload now _ p = p

  abbrev pub touched : DomainEvent F → ProgressProjection → ProgressProjection
  touched e p = record p {
    version = e.version;
    last_activity = some e.timestamp;
    mission_id = or_first e.aggregate_id p.mission_id;
  }

  unfoldable pub progress_apply : DomainEvent F → ProgressProjection → ProgressProjection
  progress_apply e p = progress_payload e.timestamp e.payload (touched e p)

  unfoldable pub progress : Projection F ProgressProjection
  progress = record {
    default = new_progress;
    apply = progress_apply;
    last_applied_seq = λ p. p.last_applied_seq;
    set_last_applied_seq = λ n p. record p { last_applied_seq = n };
    schema_version = 1;
    projection_type = "ProgressProjection";
  }

  abbrev pub completes : EventPayload F → Bool
  completes (task_completed _ _ _) = true
  completes _ = false

  progress_payload-completed :
      (now : ℕ) (x : EventPayload F) (p : ProgressProjection)
      → (progress_payload now x p).completed_tasks
        ≡ (if completes x then count_up p.completed_tasks else p.completed_tasks)
  unfolding progress_payload
  progress_payload-completed now (task_completed _ _ _) p = refl
  progress_payload-completed now _ p = refl

  -- The completions of a list with a greater number than this one.
  abbrev pub completions_after : ℕ → List (DomainEvent F) → ℕ
  completions_after n es =
      length (keep (λ (e : DomainEvent F). completes e.payload && ltb n e.global_seq) es)

  completions-ascending :
      (n k : ℕ) (es : List (DomainEvent F))
      → n ≤ k
      → ascending_from k es ≡ true
      → completions_after n es ≡ completions_after k es
  unfolding ascending_from
  completions-ascending n k [] le up = refl
  completions-ascending n k (e ∷ es) le up = ground (
    arith,
    le,
    up,
    completions-ascending n e.global_seq es (ground (arith, le, up)) (ground (arith, up)),
    completions-ascending k e.global_seq es (ground (arith, up)) (ground (arith, up)),
  )

  -- Where the replay of a list leaves the projection.
  replay-last :
      (es : List (DomainEvent F)) (p : ProgressProjection)
      → (p.last_applied_seq ≤ (replay progress es p).last_applied_seq)
        × (all (λ (e : DomainEvent F). leb e.global_seq (replay progress es p).last_applied_seq) es
            ≡ true)
  unfolding replay apply_idempotent progress progress_apply
  replay-last [] p = (omega arith, refl)
  replay-last (e ∷ es) p = elim (Bool-cases (leb e.global_seq p.last_applied_seq)) [
    | inl seen ↦
        let later = replay-last es p in
        (ground (arith, seen, later.0), ground (arith, seen, later.0, later.1))
    | inr unseen ↦
        let later =
          replay-last es (record (progress_apply e p) { last_applied_seq = e.global_seq }) in
        (ground (arith, unseen, later.0), ground (arith, unseen, later.0, later.1))
  ]

  replay-seen :
      (es : List (DomainEvent F)) (p : ProgressProjection)
      → all (λ (e : DomainEvent F). leb e.global_seq p.last_applied_seq) es ≡ true
      → replay progress es p ≡ p
  unfolding replay apply_idempotent progress
  replay-seen [] p h = refl
  replay-seen (e ∷ es) p h = ground (arith, h, replay-seen es p)

  replay-completed :
      (es : List (DomainEvent F)) (k : ℕ) (p : ProgressProjection)
      → p.completed_tasks < 2 ^ 64
      → ascending_from k es ≡ true
      → (replay progress es p).completed_tasks
        ≡ (p.completed_tasks + completions_after p.last_applied_seq es) % 2 ^ 64
  unfolding replay apply_idempotent progress progress_apply ascending_from
  replay-completed [] k p small up = ground arith
  replay-completed (e ∷ es) k p small up = elim (Bool-cases (leb e.global_seq p.last_applied_seq)) [
    | inl seen ↦ ground (arith, seen, replay-completed es e.global_seq p small (ground (arith, up)))
    | inr unseen ↦ ground (
      arith,
      unseen,
      progress_payload-completed e.timestamp e.payload (touched e p),
      completions-ascending p.last_applied_seq e.global_seq es (ground (arith, unseen))
          (ground (arith, up)),
      replay-completed es e.global_seq
          (record (progress_apply e p) { last_applied_seq = e.global_seq }),
      up,
    )
  ]

  -- Of events in ascending order of their numbers, the completions with a greater number than the last
  -- one applied are counted, each once, and no other event is: the number of completed tasks is the one
  -- before and their count, modulo 2^64. When the same events are replayed again nothing changes.
  pub progress-completed :
      (es : List (DomainEvent F)) (k : ℕ) (p : ProgressProjection)
      → p.completed_tasks < 2 ^ 64
      → ascending_from k es ≡ true
      → let q = replay progress es p in
        (q.completed_tasks ≡ (p.completed_tasks + completions_after p.last_applied_seq es) % 2 ^ 64)
        × (replay progress es q ≡ q)
  progress-completed es k p small up =
      (replay-completed es k p small up, replay-seen es (replay progress es p) (replay-last es p).1)
