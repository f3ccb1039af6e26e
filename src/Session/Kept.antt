-- ===== src/Session/Kept.antt =====
-- src/agent/multi/session/checkpoint.rs: which checkpoints are kept, and which is the latest.
use claude_pilot.Base.{
  ℕ, zero, suc, ◌+◌, ◌-◌, ◌≤◌, ◌<◌, ◌≡◌, refl, sym, ap, ◌∙◌, inl, inr, Bool, true, false, ◌||◌, not,
  none, some, List, [], ◌∷◌, ◌++◌, arith, string_eq, list_eq, nat_eq, length, length-append, any,
  keep, ltb, if◌then◌else◌, Bool-cases, Option-cases,
}
use claude_pilot.Session.Checkpoint.{
  SessionCheckpoint, SessionCheckpointManager, lasts, drop_passing, rest, drop_one, cleanup_rounds,
  cleanup_old_checkpoints, create, last, latest,
}

drop_passing-length :
    (cps kept : List SessionCheckpoint)
    → drop_passing cps ≡ some kept
    → suc (length kept) ≡ length cps
unfolding drop_passing
drop_passing-length [] kept h = cc
drop_passing-length (cp ∷ cps) kept h = elim (Option-cases (drop_passing cps)) [
  | inl e ↦ ground (arith, h, e)
  | inr (later, e) ↦ ground (arith, h, e, drop_passing-length cps later)
]

drop_one-length : (cps : List SessionCheckpoint) → length (drop_one cps) ≡ length cps - 1
unfolding drop_one
drop_one-length cps = elim (Option-cases (drop_passing cps)) [
  | inl e ↦ rw (e, drop_one) (rest_length cps)
  | inr (kept, e) ↦ rw (e, drop_one) (ground (arith, drop_passing-length cps kept e))
]
  where
    rest_length : (cs : List SessionCheckpoint) → length (rest cs) ≡ length cs - 1
    rest_length [] = omega arith
    rest_length (c ∷ cs) = omega arith

cleanup_rounds-length :
    (fuel max : ℕ) (cps : List SessionCheckpoint)
    → length cps ≤ fuel + max
    → length (cleanup_rounds fuel max cps) ≤ max
unfolding cleanup_rounds
cleanup_rounds-length zero max cps h = ground (arith, h)
cleanup_rounds-length (suc fuel) max cps h =
    ground (arith, h, drop_one-length cps, cleanup_rounds-length fuel max (drop_one cps))

-- After a checkpoint is created, at most the allowed number are kept: the loop ends.
pub create-length :
    (cp : SessionCheckpoint) (m : SessionCheckpointManager)
    → length (create cp m).checkpoints ≤ (create cp m).max_checkpoints
unfolding create cleanup_old_checkpoints
create-length cp m =
    cleanup_rounds-length (length (m.checkpoints ++ cp ∷ [])) m.max_checkpoints
      (m.checkpoints ++ cp ∷ []) (omega arith)

cleanup_rounds_fitting :
    (fuel max : ℕ) (cps : List SessionCheckpoint)
    → length cps ≤ max
    → cleanup_rounds fuel max cps ≡ cps
unfolding cleanup_rounds
cleanup_rounds_fitting zero max cps h = refl
cleanup_rounds_fitting (suc fuel) max cps h = ground (arith, h)

length_snoc :
    (cps : List SessionCheckpoint) (cp : SessionCheckpoint)
    → length (cps ++ cp ∷ []) ≡ suc (length cps)
length_snoc cps cp = omega (arith, length-append cps (cp ∷ []))

-- Below the limit nothing is removed, and at it one checkpoint is.
create_lem :
    (cp : SessionCheckpoint) (m : SessionCheckpointManager)
    → length m.checkpoints ≤ m.max_checkpoints
    → (create cp m).checkpoints ≡ (
        if ltb (length m.checkpoints) m.max_checkpoints
        then m.checkpoints ++ cp ∷ []
        else drop_one (m.checkpoints ++ cp ∷ []))
unfolding create cleanup_old_checkpoints cleanup_rounds
create_lem cp m h =
    rw (length_snoc m.checkpoints cp, cleanup_rounds, length_snoc m.checkpoints cp)
      (rw
        (cleanup_rounds_fitting (length m.checkpoints) m.max_checkpoints
          (drop_one (m.checkpoints ++ cp ∷ []))
          (omega
            (arith, h, drop_one-length (m.checkpoints ++ cp ∷ []), length_snoc m.checkpoints cp)))
        (ground (arith, h)))

abbrev pub passes : SessionCheckpoint → Bool
passes cp = not (lasts cp)

none_to_drop :
    (cps : List SessionCheckpoint) (cp : SessionCheckpoint)
    → any passes cps ≡ false
    → lasts cp ≡ true
    → drop_passing (cps ++ cp ∷ []) ≡ none
unfolding drop_passing
none_to_drop [] cp h k = ground arith
none_to_drop (c ∷ cs) cp h k = ground (arith, h, k, none_to_drop cs cp)

drop_passing_earlier :
    (cps : List SessionCheckpoint) (cp : SessionCheckpoint)
    → any passes cps ≡ true
    → (kept : List SessionCheckpoint) × (drop_passing cps ≡ some kept)
      × (drop_passing (cps ++ cp ∷ []) ≡ some (kept ++ cp ∷ []))
      × (keep lasts kept ≡ keep lasts cps)
unfolding drop_passing
drop_passing_earlier [] cp h = cc
drop_passing_earlier (c ∷ cs) cp h = elim (Bool-cases (lasts c)) [
  | inl long ↦
      let later = drop_passing_earlier cs cp (ground (arith, h, long)) in
      (
        c ∷ later.0,
        ground (arith, long, later.1),
        ground (arith, long, later.2),
        ground (arith, long, later.3),
      )
  | inr short ↦ (cs, ground (arith, short), ground (arith, short), ground (arith, short))
]

drop_passing_last :
    (cps : List SessionCheckpoint) (cp : SessionCheckpoint)
    → any passes cps ≡ false
    → lasts cp ≡ false
    → drop_passing (cps ++ cp ∷ []) ≡ some cps
unfolding drop_passing
drop_passing_last [] cp h k = ground arith
drop_passing_last (c ∷ cs) cp h k = ground (arith, h, k, drop_passing_last cs cp)

last-append :
    (cps : List SessionCheckpoint) (cp : SessionCheckpoint) → last (cps ++ cp ∷ []) ≡ some cp
last-append [] cp = refl
last-append (c ∷ []) cp = refl
last-append (c ∷ d ∷ cs) cp = last-append (d ∷ cs) cp

last-rest :
    (cps : List SessionCheckpoint) (cp : SessionCheckpoint)
    → 0 < length cps
    → last (rest (cps ++ cp ∷ [])) ≡ some cp
last-rest [] cp h = ground (arith, h)
last-rest (c ∷ cs) cp h = last-append cs cp

last-drop_one :
    (cps : List SessionCheckpoint) (cp : SessionCheckpoint)
    → 0 < length cps
    → last (drop_one (cps ++ cp ∷ [])) ≡ (if lasts cp || any passes cps then some cp else last cps)
unfolding drop_one
last-drop_one cps cp h = elim (Bool-cases (any passes cps)) [
  | inl earlier ↦
      let dropped = drop_passing_earlier cps cp earlier in
      rw (drop_one, dropped.2, earlier) (ground (arith, last-append dropped.0 cp))
  | inr all_last ↦ elim (Bool-cases (lasts cp)) [
    | inl long ↦ rw (drop_one, none_to_drop cps cp all_last long, long) (last-rest cps cp h)
    | inr short ↦ rw (drop_one, drop_passing_last cps cp all_last short, short, all_last) refl
  ]
]

-- With room for a checkpoint, and no more than allowed before: the latest is the new one, unless it need
-- not last, the limit is reached and all kept ones last; then it is the one that was latest before.
pub latest-create :
    (cp : SessionCheckpoint) (m : SessionCheckpointManager)
    → length m.checkpoints ≤ m.max_checkpoints
    → 0 < m.max_checkpoints
    → latest (create cp m) ≡ (
        if lasts cp || any passes m.checkpoints || ltb (length m.checkpoints) m.max_checkpoints
        then some cp
        else latest m)
unfolding latest drop_one
latest-create cp m fits pos = elim (Bool-cases (ltb (length m.checkpoints) m.max_checkpoints)) [
  | inl room ↦ rw (create_lem cp m fits, room) (ground (arith, last-append m.checkpoints cp))
  | inr full ↦
      rw (create_lem cp m fits, full)
        (ground (arith, last-drop_one m.checkpoints cp (ground (arith, full, pos))))
]

keep-append :
    (xs ys : List SessionCheckpoint) → keep lasts (xs ++ ys) ≡ keep lasts xs ++ keep lasts ys
keep-append [] ys = refl
keep-append (x ∷ xs) ys = ground (arith, keep-append xs ys)

keep_snoc :
    (xs ys : List SessionCheckpoint) (cp : SessionCheckpoint)
    → keep lasts xs ≡ keep lasts ys
    → keep lasts (xs ++ cp ∷ []) ≡ keep lasts (ys ++ cp ∷ [])
keep_snoc xs ys cp h =
    keep-append xs (cp ∷ [])
    ∙ ap (λ zs. zs ++ keep lasts (cp ∷ [])) h
    ∙ sym (keep-append ys (cp ∷ []))

keep_short :
    (xs : List SessionCheckpoint) (cp : SessionCheckpoint)
    → lasts cp ≡ false
    → keep lasts xs ≡ keep lasts (xs ++ cp ∷ [])
keep_short [] cp h = ground (arith, h)
keep_short (x ∷ xs) cp h = ground (arith, h, keep_short xs cp h)

lasts-drop_one :
    (cps : List SessionCheckpoint) (cp : SessionCheckpoint)
    → (any passes cps || passes cp) ≡ true
    → keep lasts (drop_one (cps ++ cp ∷ [])) ≡ keep lasts (cps ++ cp ∷ [])
unfolding drop_one
lasts-drop_one cps cp h = elim (Bool-cases (any passes cps)) [
  | inl earlier ↦
      let dropped = drop_passing_earlier cps cp earlier in
      rw (drop_one, dropped.2) (keep_snoc dropped.0 cps cp dropped.3)
  | inr all_last ↦
      rw (drop_one, drop_passing_last cps cp all_last (ground (arith, h, all_last)))
        (keep_short cps cp (ground (arith, h, all_last)))
]

-- As long as there is room or some checkpoint need not last, every one that lasts is kept, in order.
pub lasts-create :
    (cp : SessionCheckpoint) (m : SessionCheckpointManager)
    → length m.checkpoints ≤ m.max_checkpoints
    → (ltb (length m.checkpoints) m.max_checkpoints || any passes m.checkpoints || passes cp) ≡ true
    → keep lasts (create cp m).checkpoints ≡ keep lasts (m.checkpoints ++ cp ∷ [])
lasts-create cp m fits h = elim (Bool-cases (ltb (length m.checkpoints) m.max_checkpoints)) [
  | inl room ↦ rw (create_lem cp m fits, room) refl
  | inr full ↦
      rw (create_lem cp m fits, full) (lasts-drop_one m.checkpoints cp (ground (arith, h, full)))
]
