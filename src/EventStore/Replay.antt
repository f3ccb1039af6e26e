-- ===== src/EventStore/Replay.antt =====
-- src/state/replay.rs, src/state/snapshots.rs and the trait of src/state/projections.rs: a projection
-- rebuilt from its latest snapshot and the events after it. The bytes of a snapshot, their checksum,
-- and the two directions of serde are parameters; a refused snapshot is the next older one's turn.
use claude_pilot.Base.{
  ℕ, zero, suc, ◌+◌, ◌-◌, ◌*◌, ◌/◌, ◌%◌, ◌^◌, ◌≤◌, ◌<◌, String, ◌≡◌, refl, sym, ap, ◌∙◌, subst, ◌≢◌,
  ◌↔◌, ◌⊎◌, inl, inr, ite, Bool, true, false, ◌&&◌, ◌||◌, not, Option, none, some, List, [], ◌∷◌,
  ◌++◌, map, arith, DecEq, ◌==◌, string_eq, list_eq, nat_eq, eq_refl, ==_iff, contains, is_subset,
  contains-set_insert, contains-append, set_insert, set_remove, length, length-append, all, any,
  keep, find, is_empty, is_some, is_none, ltb, leb, eqb, if◌then◌else◌, Bool-cases, Option-cases,
  decide_by, string_dec, list_dec, ltb→lt, lt→ltb, length-keep-le, length-map,
}
use claude_pilot.Events.{DomainEvent}
use claude_pilot.EventStore.{
  Store, of_aggregate, order_by, seq_of, seq_to, seq_after, archive_through,
  query_aggregate_from_seq, query_aggregate_from_seq_until,
}
pub mod Invariant
mod Rebuild
mod Archive
mod Tests

-- The trait `Projection`.
pub record Projection (F : Type 0) (P : Type 0) : Type 0 where
  pub default : P
  pub apply : DomainEvent F → P → P
  pub last_applied_seq : P → ℕ
  pub set_last_applied_seq : ℕ → P → P
  pub schema_version : ℕ
  pub projection_type : String

pub record Snapshot (D : Type 0) : Type 0 where
  pub id : String
  pub aggregate_id : String
  pub global_seq : ℕ
  pub projection_type : String
  pub schema_version : ℕ
  pub contents : D
  pub checksum : ℕ

pub record Serde (P D : Type 0) : Type 0 where
  pub serialize : P → D
  pub deserialize : D → Option P
  pub compute_checksum : D → ℕ

pub record Replayer (F D : Type 0) : Type 0 where
  pub event_store : Store F
  pub snapshots : List (Snapshot D)
  pub max_snapshots_per_aggregate : ℕ
  pub snapshot_interval : ℕ
  pub archive_after_snapshot : Bool
  pub vacuum_interval_events : ℕ
  pub archived_since_vacuum : ℕ

abbrev pub unwrap_or {ℓ} : {A : Type ℓ} → A → Option A → A
unwrap_or a none = a
unwrap_or a (some b) = b

module _ {D : Type 0} where
  unfoldable pub insert_snapshot :
      (Snapshot D → Snapshot D → Bool) → Snapshot D → List (Snapshot D) → List (Snapshot D)
  insert_snapshot before x [] = x ∷ []
  insert_snapshot before x (y ∷ ys) =
      if before x y then x ∷ y ∷ ys else y ∷ insert_snapshot before x ys

  unfoldable pub order_snapshots :
      (Snapshot D → Snapshot D → Bool) → List (Snapshot D) → List (Snapshot D)
  order_snapshots before [] = []
  order_snapshots before (x ∷ xs) = insert_snapshot before x (order_snapshots before xs)

  abbrev pub oldest_first : Snapshot D → Snapshot D → Bool
  oldest_first x y = leb x.global_seq y.global_seq

  abbrev pub newest_first : Snapshot D → Snapshot D → Bool
  newest_first x y = leb y.global_seq x.global_seq

  unfoldable pub take : ℕ → List (Snapshot D) → List (Snapshot D)
  take zero xs = []
  take (suc n) [] = []
  take (suc n) (x ∷ xs) = x ∷ take n xs

  abbrev pub of_projection : String → String → Snapshot D → Bool
  of_projection a type x = (x.aggregate_id == a) && (x.projection_type == type)

  unfoldable pub cleanup_old_snapshots : ℕ → String → String → List (Snapshot D) → List (Snapshot D)
  cleanup_old_snapshots max a type xs =
      let mine = keep (of_projection a type) xs in
      let dropped = take (length mine - max) (order_snapshots oldest_first mine) in
      if ltb max (length mine) then keep (λ x. not (any (λ y. y.id == x.id) dropped)) xs else xs

  unfoldable pub get_snapshots_ordered :
      ℕ → String → String → ℕ → List (Snapshot D) → List (Snapshot D)
  get_snapshots_ordered max a type version xs = take max (
      order_snapshots newest_first
        (keep (λ x. of_projection a type x && eqb x.schema_version version) xs))

module _ {F P : Type 0} (proj : Projection F P) where
  unfoldable pub apply_idempotent : DomainEvent F → P → P
  apply_idempotent e p =
      if leb e.global_seq (proj.last_applied_seq p)
      then p
      else proj.set_last_applied_seq e.global_seq (proj.apply e p)

  unfoldable pub replay : List (DomainEvent F) → P → P
  replay [] p = p
  replay (e ∷ es) p = replay es (apply_idempotent e p)

module _ {F P D : Type 0} (proj : Projection F P) (serde : Serde P D) where
  -- The identifier is a fresh UUID.
  unfoldable pub save : String → String → P → ℕ → List (Snapshot D) → List (Snapshot D)
  save id a p max xs = cleanup_old_snapshots max a proj.projection_type (
      xs
      ++ record {
        id = id;
        aggregate_id = a;
        global_seq = proj.last_applied_seq p;
        projection_type = proj.projection_type;
        schema_version = proj.schema_version;
        contents = serde.serialize p;
        checksum = serde.compute_checksum (serde.serialize p);
      }
        ∷ [])

  -- The newest that is whole and that can be read.
  unfoldable pub first_readable : List (Snapshot D) → Option (P × ℕ)
  first_readable [] = none
  first_readable (x ∷ xs) =
      let older = first_readable xs in
      if eqb (serde.compute_checksum x.contents) x.checksum
      then elim (serde.deserialize x.contents) [ none ↦ older | some p ↦ some (p, x.global_seq) ]
      else older

  unfoldable pub load_latest : String → Replayer F D → Option (P × ℕ)
  load_latest a r = first_readable (
      get_snapshots_ordered r.max_snapshots_per_aggregate a proj.projection_type proj.schema_version
        r.snapshots)

  -- Archived rows are counted; when they are enough, the database is compacted, which changes no row.
  unfoldable pub auto_archive_if_enabled : ℕ → Replayer F D → Replayer F D
  auto_archive_if_enabled n r =
      let done = archive_through n r.event_store in
      if r.archive_after_snapshot
      then elim done.1 [
        | none ↦ r
        | some k ↦ record r {
          event_store = done.0;
          archived_since_vacuum =
              (if leb r.vacuum_interval_events ((r.archived_since_vacuum + k) % 2 ^ 64)
                then 0
                else (r.archived_since_vacuum + k) % 2 ^ 64);
        }
      ]
      else r

  abbrev pub starting_point : String → Replayer F D → P × ℕ
  starting_point a r = unwrap_or (proj.default, 0) (load_latest a r)

  unfoldable pub saved : String → String → P → Replayer F D → Replayer F D
  saved id a p r =
      auto_archive_if_enabled (proj.last_applied_seq p)
        (record r { snapshots = save id a p r.max_snapshots_per_aggregate r.snapshots })

  -- `id` is the identifier of the snapshot that is written if there are enough events.
  unfoldable pub rebuild_projection : String → String → Replayer F D → Replayer F D × P
  rebuild_projection id a r =
      let start = starting_point a r in
      let events = query_aggregate_from_seq a start.1 r.event_store.events in
      let p = replay proj events start.0 in
      (if leb r.snapshot_interval (length events) then saved id a p r else r, p)

  unfoldable pub replay_from_checkpoint : String → ℕ → Replayer F D → P
  replay_from_checkpoint a checkpoint r =
      let start = starting_point a r in
      let from = if ltb start.1 checkpoint then start.1 else 0 in
      replay proj (query_aggregate_from_seq_until a from checkpoint r.event_store.events) start.0

  -- `u64` subtraction: it wraps when the snapshot is ahead.
  abbrev since_snapshot : Option (P × ℕ) → ℕ → ℕ → Bool
  since_snapshot none n interval = leb interval n
  since_snapshot (some (q, last)) n interval = leb interval ((n + 2 ^ 64 - last) % 2 ^ 64)

  unfoldable pub maybe_snapshot : String → String → P → Replayer F D → Replayer F D × Bool
  maybe_snapshot id a p r =
      let n = proj.last_applied_seq p in
      if since_snapshot (load_latest a r) n r.snapshot_interval
      then (saved id a p r, true)
      else (r, false)
