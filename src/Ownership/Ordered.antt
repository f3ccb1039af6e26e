-- ===== src/Ownership/Ordered.antt =====
-- `acquire_ordered`: all the files or none.
use claude_pilot.Base.{
  ℕ, String, ◌≡◌, refl, sym, subst, ◌⊎◌, inl, inr, true, false, ◌||◌, none, some, List, [], ◌∷◌,
  ◌++◌, arith, ◌==◌, string_eq, list_eq, nat_eq, eq_refl, contains, if◌then◌else◌, Bool-cases,
}
use claude_pilot.Base.Assoc.{lookup-insert}
use claude_pilot.Ownership.{
  FilePath, exclusive, is_expired, FileLease, AcquisitionResult, is_conflict, Manager, Request,
  OrderedResult, acquired, refused, may_share, blocking_owner, new_ownership, lease,
  grant_ownership, acquire, is_held_by, drop_guard, acquire_with_fair_queue, acquire_each,
  acquire_ordered, sort_paths, insert_path, current_owner,
}
use claude_pilot.Ownership.Acquire.{
  acquire-grant_ownership, acquire_conflict_unchanged, acquire_grants_iff,
}
use claude_pilot.Ownership.Guard.{
  files, IsHeld, HeldAll, SameAt, HeldAll-SameAt, lookup-drop_guard, HeldAll-current,
  contains-files-snoc, HeldAll-snoc, AllBy, AllBy-snoc, HeldAll-owner,
}

-- What holds before each turn of the loop, `start` being the manager before the first.
record Progress (start m : Manager) (now : ℕ) (r : String) (guard : List FileLease) : Type 0 where
  held : HeldAll m now guard
  mine : AllBy r guard
  was_free : (x : FilePath) → contains (files guard) x ≡ true → current_owner start now x ≡ none
  same : (x : FilePath) → contains (files guard) x ≡ false → SameAt start m x

fair_cases :
    (m : Manager) (now : ℕ) (f : FilePath) (q : Request)
    → (((acquire_with_fair_queue m now f q).0 ≡ m)
        × (is_conflict (acquire_with_fair_queue m now f q).1 ≡ true))
      ⊎ ((acquire_with_fair_queue m now f q ≡ grant_ownership m now f q)
          × (blocking_owner m now f q ≡ none))
unfolding acquire_with_fair_queue is_conflict
fair_cases m now f q = elim (Bool-cases (is_conflict (acquire m now f q).1)) [
  | inl e ↦ ground (arith, acquire_conflict_unchanged m now f q e)
  | inr e ↦
      ground (arith, acquire-grant_ownership m now f q e, ((acquire_grants_iff m now f q).0 e).2)
]

exclusive_free :
    (m : Manager) (now : ℕ) (f : FilePath) (q : Request)
    → q.access ≡ exclusive
    → blocking_owner m now f q ≡ none
    → current_owner m now f ≡ none
unfolding blocking_owner current_owner may_share
exclusive_free m now f q e free = ground arith

grant-IsHeld :
    (m : Manager) (now : ℕ) (f : FilePath) (q : Request)
    → IsHeld (grant_ownership m now f q).0 now (lease f q.requester m.version_counter)
unfolding IsHeld grant_ownership current_owner is_expired is_held_by
grant-IsHeld m now f q = (
  refl,
  ground (arith, lookup-insert f f (new_ownership m now q) m.ownership),
  ground (arith, lookup-insert f f (new_ownership m now q) m.ownership),
)

grant-SameAt :
    (m : Manager) (now : ℕ) (f x : FilePath) (q : Request)
    → (f == x) ≡ false
    → SameAt m (grant_ownership m now f q).0 x
unfolding grant_ownership
grant-SameAt m now f x q apart =
    ground (arith, lookup-insert x f (new_ownership m now q) m.ownership)

current_owner-SameAt :
    (m m' : Manager) (now : ℕ) (x : FilePath)
    → SameAt m m' x
    → current_owner m' now x ≡ current_owner m now x
unfolding current_owner
current_owner-SameAt m m' now x same = ground arith

Progress-grant :
    (start m : Manager) (now : ℕ) (f : FilePath) (q : Request) (guard : List FileLease)
    → q.access ≡ exclusive
    → blocking_owner m now f q ≡ none
    → Progress start m now q.requester guard
    → Progress start
        (grant_ownership m now f q).0
        now
        q.requester
        (guard ++ lease f q.requester m.version_counter ∷ [])
Progress-grant start m now f q guard e free p = record {
  held =
      HeldAll-snoc _ now guard l
        (HeldAll-SameAt m _ now guard (λ x i. grant-SameAt m now f x q (ground (arith, fresh)))
          p.held)
        (grant-IsHeld m now f q) fresh;
  mine = AllBy-snoc q.requester guard l p.mine (eq_refl q.requester);
  was_free = λ x i. ground (
    arith,
    contains-files-snoc guard l x,
    p.was_free x,
    current_owner-SameAt start m now f (p.same f fresh),
    exclusive_free m now f q e free,
  );
  same = λ x i. ground (arith, contains-files-snoc guard l x, p.same x, grant-SameAt m now f x q);
}
  where
    l : FileLease
    l = lease f q.requester m.version_counter

    fresh : contains (files guard) f ≡ false
    fresh = ground (arith, HeldAll-current m now guard f p.held, exclusive_free m now f q e free)

-- What a run of the loop over `fs` owes to the manager before it.
abbrev Outcome :
    Manager → ℕ → List FilePath → String → List FileLease → Manager × OrderedResult → Type 0
Outcome start now fs r guard (m, acquired leases) =
    Progress start m now r leases
    × ((x : FilePath) → contains (files leases) x ≡ (contains (files guard) x || contains fs x))
Outcome start now fs r guard (m, refused answer) =
    (x : FilePath) → current_owner m now x ≡ current_owner start now x

drop_guard-Progress :
    (start m : Manager) (now : ℕ) (r : String) (guard : List FileLease)
    → Progress start m now r guard
    → (x : FilePath) → current_owner (drop_guard m guard) now x ≡ current_owner start now x
unfolding current_owner
drop_guard-Progress start m now r guard p x =
    ground (arith, lookup-drop_guard m now guard x p.held, p.was_free x, p.same x)

acquire_each-conflict :
    (m : Manager) (now : ℕ) (f : FilePath) (fs : List FilePath) (q : Request)
    (guard : List FileLease)
    → is_conflict (acquire_with_fair_queue m now f q).1 ≡ true
    → acquire_each m now (f ∷ fs) q guard ≡ (
      drop_guard (acquire_with_fair_queue m now f q).0 guard,
      refused (acquire_with_fair_queue m now f q).1,
    )
unfolding acquire_each is_conflict
acquire_each-conflict m now f fs q guard h = ground arith

acquire_each-grant :
    (m : Manager) (now : ℕ) (f : FilePath) (fs : List FilePath) (q : Request)
    (guard : List FileLease)
    → acquire_with_fair_queue m now f q ≡ grant_ownership m now f q
    → acquire_each m now (f ∷ fs) q guard
      ≡ acquire_each
          (grant_ownership m now f q).0
          now
          fs
          q
          (guard ++ lease f q.requester m.version_counter ∷ [])
unfolding acquire_each grant_ownership
acquire_each-grant m now f fs q guard e = ground arith

Outcome-grow :
    (start : Manager) (now : ℕ) (f : FilePath) (fs : List FilePath) (r : String)
    (guard : List FileLease) (l : FileLease) (result : Manager × OrderedResult)
    → l.file ≡ f
    → Outcome start now fs r (guard ++ l ∷ []) result
    → Outcome start now (f ∷ fs) r guard result
Outcome-grow start now f fs r guard l (m, acquired leases) e o =
    (o.0, λ x. ground (arith, o.1 x, contains-files-snoc guard l x))
Outcome-grow start now f fs r guard l (m, refused answer) e o = o

acquire_each-Outcome :
    (start m : Manager) (now : ℕ) (fs : List FilePath) (q : Request) (guard : List FileLease)
    → q.access ≡ exclusive
    → Progress start m now q.requester guard
    → Outcome start now fs q.requester guard (acquire_each m now fs q guard)
unfolding acquire_each
acquire_each-Outcome start m now [] q guard e p = (p, λ x. ground arith)
acquire_each-Outcome start m now (f ∷ fs) q guard e p = elim (fair_cases m now f q) [
  | inl (same, h) ↦
      subst (Outcome start now (f ∷ fs) q.requester guard)
        (sym (acquire_each-conflict m now f fs q guard h))
        (λ x. rw same (drop_guard-Progress start m now q.requester guard p x))
  | inr (granted_now, free) ↦
      subst (Outcome start now (f ∷ fs) q.requester guard)
        (sym (acquire_each-grant m now f fs q guard granted_now))
        (Outcome-grow start now f fs q.requester guard (lease f q.requester m.version_counter) _
          refl
          (acquire_each-Outcome start (grant_ownership m now f q).0 now fs q
            (guard ++ lease f q.requester m.version_counter ∷ []) e
            (Progress-grant start m now f q guard e free p)))
]

contains-insert_path :
    (p : FilePath) (ps : List FilePath) (x : FilePath)
    → contains (insert_path p ps) x ≡ contains (p ∷ ps) x
unfolding insert_path
contains-insert_path p [] x = refl
contains-insert_path p (y ∷ ps) x = ground (arith, contains-insert_path p ps x)

contains-sort_paths :
    (fs : List FilePath) (x : FilePath) → contains (sort_paths fs) x ≡ contains fs x
unfolding sort_paths
contains-sort_paths [] x = refl
contains-sort_paths (f ∷ fs) x =
    ground (arith, contains-insert_path f (sort_paths fs) x, contains-sort_paths fs x)

start-Progress : (m : Manager) (now : ℕ) (r : String) → Progress m m now r []
unfolding HeldAll files
start-Progress m now r = record { held = tt; mine = refl; was_free = λ x i. cc; same = λ x i. refl }

-- An exclusive acquisition of several files that is refused leaves every file with the owner that
-- it had: the leases taken on the way are given back.
pub acquire_ordered_refused :
    (m n : Manager) (now : ℕ) (fs : List FilePath) (q : Request) (r : AcquisitionResult)
    → q.access ≡ exclusive
    → acquire_ordered m now fs q ≡ (n, refused r)
    → (x : FilePath) → current_owner n now x ≡ current_owner m now x
unfolding acquire_ordered
acquire_ordered_refused m n now fs q r e h =
    subst (Outcome m now (sort_paths fs) q.requester []) h
      (acquire_each-Outcome m m now (sort_paths fs) q [] e (start-Progress m now q.requester))

owned_after :
    (m n : Manager) (now : ℕ) (fs : List FilePath) (r : String) (leases : List FileLease)
    (x : FilePath)
    → Outcome m now (sort_paths fs) r [] (n, acquired leases)
    → current_owner n now x ≡ (if contains fs x then some r else current_owner m now x)
unfolding files
owned_after m n now fs r leases x o = ground (
  arith,
  o.1 x,
  contains-sort_paths fs x,
  HeldAll-owner n now r leases x o.0.held o.0.mine,
  o.0.same x,
  current_owner-SameAt m n now x,
)

-- An exclusive acquisition of several files that succeeds makes the requester the owner of each of
-- them, and of no other file.
pub acquire_ordered_acquired :
    (m n : Manager) (now : ℕ) (fs : List FilePath) (q : Request) (leases : List FileLease)
    → q.access ≡ exclusive
    → acquire_ordered m now fs q ≡ (n, acquired leases)
    → (x : FilePath)
    → current_owner n now x ≡ (if contains fs x then some q.requester else current_owner m now x)
unfolding acquire_ordered
acquire_ordered_acquired m n now fs q leases e h x = owned_after m n now fs q.requester leases x (
    subst (Outcome m now (sort_paths fs) q.requester []) h
      (acquire_each-Outcome m m now (sort_paths fs) q [] e (start-Progress m now q.requester)))
