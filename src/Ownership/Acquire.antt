-- ===== src/Ownership/Acquire.antt =====
-- `acquire`: when a file is granted, and what a grant or a refusal changes.
use claude_pilot.Base.{
  ℕ, ◌+◌, ◌%◌, ◌^◌, ◌<◌, String, ◌≡◌, refl, ap, ◌∙◌, ◌↔◌, ◌⊎◌, inl, inr, true, false, none, some,
  [], arith, ◌==◌, string_eq, list_eq, nat_eq, if◌then◌else◌, Option-cases,
}
use claude_pilot.Base.Assoc.{lookup, insert, lookup-insert, lookup-remove}
use claude_pilot.Ownership.{
  new_ownership, lease, FilePath, exclusive, shared_read, FileOwnership, is_expired, FileLease,
  granted, is_conflict, Manager, Request, live_module, queue_of, insert_some, waiting_modules,
  involved_modules, detect_cross_module_conflict, boundary_violation, may_share, blocking_owner,
  grant_ownership, acquire, is_held_by, release_internal, drop_lease,
}

-- A refusal, for whatever reason, leaves the manager as it was.
pub acquire_conflict_unchanged :
    (m : Manager) (now : ℕ) (f : FilePath) (q : Request)
    → is_conflict (acquire m now f q).1 ≡ true
    → (acquire m now f q).0 ≡ m
unfolding acquire is_conflict grant_ownership
acquire_conflict_unchanged m now f q h = ground arith

-- A grant is made exactly where no negotiation is due, no module boundary is crossed, and no live
-- ownership blocks it.
pub acquire_grants_iff :
    (m : Manager) (now : ℕ) (f : FilePath) (q : Request)
    → (is_conflict (acquire m now f q).1 ≡ false) ↔ (
        (detect_cross_module_conflict m now f q.requester_module ≡ none)
        × (boundary_violation m f q.requester_module ≡ none)
        × (blocking_owner m now f q ≡ none))
unfolding acquire is_conflict grant_ownership
acquire_grants_iff m now f q = (λ h. ground arith, λ h. ground arith)

pub acquire-grant_ownership :
    (m : Manager) (now : ℕ) (f : FilePath) (q : Request)
    → is_conflict (acquire m now f q).1 ≡ false
    → acquire m now f q ≡ grant_ownership m now f q
unfolding acquire is_conflict
acquire-grant_ownership m now f q h = ground arith

-- A grant records the requester as the owner of the file under a fresh version until the lease
-- duration is over, and writes no other file.
pub acquire_grants :
    (m : Manager) (now : ℕ) (f x : FilePath) (q : Request)
    → is_conflict (acquire m now f q).1 ≡ false
    → ((acquire m now f q).1 ≡ granted (lease f q.requester m.version_counter))
      × (lookup x (acquire m now f q).0.ownership
          ≡ (if f == x then some (new_ownership m now q) else lookup x m.ownership))
      × ((acquire m now f q).0.version_counter ≡ (m.version_counter + 1) % 2 ^ 64)
unfolding grant_ownership
acquire_grants m now f x q h =
    rw (acquire-grant_ownership m now f q h)
      (refl, lookup-insert x f (new_ownership m now q) m.ownership, refl)

-- While an ownership is live, and it or the request is exclusive, nothing is granted and nothing
-- changes.
pub acquire_exclusive_held :
    (m : Manager) (now : ℕ) (f : FilePath) (q : Request) (o : FileOwnership)
    → lookup f m.ownership ≡ some o
    → is_expired now o ≡ false
    → (o.access ≡ exclusive) ⊎ (q.access ≡ exclusive)
    → (is_conflict (acquire m now f q).1 ≡ true) × ((acquire m now f q).0 ≡ m)
unfolding acquire is_conflict grant_ownership blocking_owner may_share
acquire_exclusive_held m now f q o held live e = ground arith

-- A lease of an earlier version is powerless over a later grant: its drop leaves the manager with
-- the new owner.
drop_lease_stale :
    (m : Manager) (now : ℕ) (f : FilePath) (q : Request) (l : FileLease)
    → l.version < m.version_counter
    → is_conflict (acquire m now f q).1 ≡ false
    → l.file ≡ f
    → drop_lease (acquire m now f q).0 l ≡ (acquire m now f q).0
unfolding drop_lease release_internal is_held_by
drop_lease_stale m now f q l older free same = ground (arith, acquire_grants m now f l.file q free)

abbrev pub reader : String → Request
reader a = record { requester = a; requester_module = none; access = shared_read; reason = "read" }

abbrev pub writer : String → Request
writer a = record { requester = a; requester_module = none; access = exclusive; reason = "write" }

-- Nobody waits for the file, and readers and writers name no module, so that nothing stands
-- against a grant but a live ownership.
free_grant :
    (m : Manager) (now : ℕ) (f : FilePath) (q : Request)
    → q.requester_module ≡ none
    → queue_of m f ≡ []
    → live_module m now f ≡ none
    → blocking_owner m now f q ≡ none
    → acquire m now f q ≡ grant_ownership m now f q
unfolding acquire detect_cross_module_conflict involved_modules boundary_violation insert_some
    waiting_modules
free_grant m now f q modless quiet unowned open_way = ground arith

-- A reader without a module joins a reader without a module.
abbrev Readable : Manager → FilePath → Type 0
Readable m f =
    (queue_of m f ≡ [])
    × ((o : FileOwnership)
        → lookup f m.ownership ≡ some o
        → (o.access ≡ shared_read) × (o.owner_module ≡ none))

reader_granted :
    (m : Manager) (now : ℕ) (f : FilePath) (a : String)
    → Readable m f
    → acquire m now f (reader a) ≡ grant_ownership m now f (reader a)
unfolding live_module blocking_owner may_share
reader_granted m now f a h = elim (Option-cases (lookup f m.ownership)) [
  | inl e ↦ free_grant m now f (reader a) refl h.0 (ground arith) (ground arith)
  | inr (o, e) ↦
      free_grant m now f (reader a) refl h.0 (ground (arith, h.1 o e)) (ground (arith, h.1 o e))
]

writer_granted :
    (m : Manager) (now : ℕ) (f : FilePath) (w : String)
    → queue_of m f ≡ []
    → lookup f m.ownership ≡ none
    → acquire m now f (writer w) ≡ grant_ownership m now f (writer w)
unfolding live_module blocking_owner
writer_granted m now f w quiet free =
    free_grant m now f (writer w) refl quiet (ground arith) (ground arith)

grant-Readable :
    (m : Manager) (now : ℕ) (f : FilePath) (a : String)
    → queue_of m f ≡ []
    → Readable (grant_ownership m now f (reader a)).0 f
unfolding grant_ownership queue_of
grant-Readable m now f a quiet =
    (quiet, λ o e. ground (arith, lookup-insert f f (new_ownership m now (reader a)) m.ownership))

drop-grant :
    (m : Manager) (now : ℕ) (f : FilePath) (b : String)
    → let dropped =
        drop_lease (grant_ownership m now f (reader b)).0 (lease f b m.version_counter) in
      (lookup f dropped.ownership ≡ none) × (queue_of dropped f ≡ queue_of m f)
unfolding grant_ownership drop_lease release_internal is_held_by queue_of
drop-grant m now f b = ground (
  arith,
  lookup-insert f f (new_ownership m now (reader b)) m.ownership,
  lookup-remove f f (insert f (new_ownership m now (reader b)) m.ownership),
)

grant_lem :
    (m : Manager) (now : ℕ) (f : FilePath) (q : Request)
    → (grant_ownership m now f q).1 ≡ granted (lease f q.requester m.version_counter)
unfolding grant_ownership
grant_lem m now f q = refl

granted-is_conflict : (l : FileLease) → is_conflict (granted l) ≡ false
unfolding is_conflict
granted-is_conflict l = refl

writer_follows :
    (m : Manager) (now : ℕ) (f : FilePath) (b w : String)
    → queue_of m f ≡ []
    → let dropped =
        drop_lease (grant_ownership m now f (reader b)).0 (lease f b m.version_counter) in
      is_conflict (acquire dropped now f (writer w)).1 ≡ false
writer_follows m now f b w quiet =
    let (free, same) = drop-grant m now f b in
    rw (writer_granted _ now f w (same ∙ quiet) free)
      (ap is_conflict (grant_lem _ now f (writer w)) ∙ granted-is_conflict _)

-- The manager remembers one reader of a file. When two readers share a file and the second
-- drops its lease, a writer is granted the file at once, though the first reader's lease is
-- neither dropped nor expired.
pub acquire_over_reader :
    (m : Manager) (now : ℕ) (f : FilePath) (a b w : String)
    → lookup f m.ownership ≡ none
    → queue_of m f ≡ []
    → let first = acquire m now f (reader a) in
      let second = acquire first.0 now f (reader b) in
      let dropped = drop_lease second.0 (lease f b first.0.version_counter) in
      (first.1 ≡ granted (lease f a m.version_counter))
      × (second.1 ≡ granted (lease f b first.0.version_counter))
      × (is_conflict (acquire dropped now f (writer w)).1 ≡ false)
acquire_over_reader m now f a b w free quiet =
    rw
      (
        reader_granted m now f a (quiet, λ o e. cc),
        reader_granted (grant_ownership m now f (reader a)).0 now f b
            (grant-Readable m now f a quiet),
      )
      (
        grant_lem m now f (reader a),
        grant_lem (grant_ownership m now f (reader a)).0 now f (reader b),
        writer_follows (grant_ownership m now f (reader a)).0 now f b w
            (grant-Readable m now f a quiet).0,
      )
