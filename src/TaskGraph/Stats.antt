-- ===== src/TaskGraph/Stats.antt =====
-- `stats`, and its agreement with `is_complete`.
use claude_pilot.Base.{
  ℕ, ◌+◌, String, ◌≡◌, refl, true, false, List, [], ◌∷◌, all, length, arith, Bool-cases, inl, inr,
  ◌≤◌, ◌<◌, ◌↔◌,
}
use claude_pilot.Base.Assoc.{values}
use claude_pilot.TaskGraph.{
  TaskNode, TaskDag, NodeStatus, is_terminal, is_complete, pending, ready, in_progress, completed,
  failed, cancelled, blocked, deferred,
}

pub record TaskStats : Type 0 where
  pub total : ℕ
  pub pending_count : ℕ
  pub ready_count : ℕ
  pub in_progress_count : ℕ
  pub completed_count : ℕ
  pub failed_count : ℕ
  pub cancelled_count : ℕ
  pub blocked_count : ℕ

abbrev pub default_stats : TaskStats
default_stats = record {
  total = 0;
  pending_count = 0;
  ready_count = 0;
  in_progress_count = 0;
  completed_count = 0;
  failed_count = 0;
  cancelled_count = 0;
  blocked_count = 0;
}

-- The `match` of `stats`.
unfoldable pub count_status : NodeStatus → TaskStats → TaskStats
count_status pending s = record s { pending_count = s.pending_count + 1 }
count_status deferred s = record s { pending_count = s.pending_count + 1 }
count_status ready s = record s { ready_count = s.ready_count + 1 }
count_status in_progress s = record s { in_progress_count = s.in_progress_count + 1 }
count_status completed s = record s { completed_count = s.completed_count + 1 }
count_status failed s = record s { failed_count = s.failed_count + 1 }
count_status cancelled s = record s { cancelled_count = s.cancelled_count + 1 }
count_status blocked s = record s { blocked_count = s.blocked_count + 1 }

unfoldable pub count_nodes : List TaskNode → TaskStats → TaskStats
count_nodes [] s = s
count_nodes (n ∷ ns) s = count_nodes ns (count_status n.status s)

unfoldable pub stats : TaskDag → TaskStats
unfolding count_nodes
stats g = record (count_nodes (values g.nodes) default_stats) { total = length g.nodes }

-- The tasks that no terminal status ends.
abbrev pub open_count : TaskStats → ℕ
open_count s = s.pending_count + s.ready_count + s.in_progress_count + s.blocked_count

abbrev pub counted : TaskStats → ℕ
counted s = open_count s + s.completed_count + s.failed_count + s.cancelled_count

count_status-counted : (t : NodeStatus) (s : TaskStats) → counted (count_status t s) ≡ counted s + 1
unfolding count_status
count_status-counted t s = ground arith

count_nodes-counted :
    (ns : List TaskNode) (s : TaskStats) → counted (count_nodes ns s) ≡ counted s + length ns
unfolding count_nodes
count_nodes-counted [] s = omega arith
count_nodes-counted (n ∷ ns) s =
    omega (arith, count_nodes-counted ns (count_status n.status s), count_status-counted n.status s)

length-values : (m : List (String × TaskNode)) → length (values m) ≡ length m
length-values [] = refl
length-values ((id, n) ∷ m) = omega (arith, length-values m)

-- The counters of `stats` add up to its total: every task is counted once.
pub stats_total : (g : TaskDag) → counted (stats g) ≡ (stats g).total
unfolding stats
stats_total g =
    omega (arith, count_nodes-counted (values g.nodes) default_stats, length-values g.nodes)

count_status-open :
    (t : NodeStatus) (s : TaskStats)
    → (is_terminal t ≡ true → open_count (count_status t s) ≡ open_count s)
      × (is_terminal t ≡ false → open_count (count_status t s) ≡ open_count s + 1)
unfolding count_status is_terminal
count_status-open t s = (λ h. ground arith, λ h. ground arith)

count_nodes-open-le :
    (ns : List TaskNode) (s : TaskStats) → open_count s ≤ open_count (count_nodes ns s)
unfolding count_nodes
count_nodes-open-le [] s = omega arith
count_nodes-open-le (n ∷ ns) s = elim (Bool-cases (is_terminal n.status)) [
  | inl h ↦
      omega (
        arith,
        (count_status-open n.status s).0 h,
        count_nodes-open-le ns (count_status n.status s),
      )
  | inr h ↦
      omega (
        arith,
        (count_status-open n.status s).1 h,
        count_nodes-open-le ns (count_status n.status s),
      )
]

count_nodes_complete :
    (ns : List TaskNode) (s : TaskStats)
    → all (λ n. is_terminal n.status) ns ≡ true
    → open_count (count_nodes ns s) ≡ open_count s
unfolding count_nodes
count_nodes_complete [] s h = refl
count_nodes_complete (n ∷ ns) s h =
    ground
      (arith, (count_status-open n.status s).0, count_nodes_complete ns (count_status n.status s))

count_nodes_incomplete :
    (ns : List TaskNode) (s : TaskStats)
    → all (λ n. is_terminal n.status) ns ≡ false
    → open_count s < open_count (count_nodes ns s)
unfolding count_nodes
count_nodes_incomplete [] s h = cc
count_nodes_incomplete (n ∷ ns) s h = ground (
  arith,
  (count_status-open n.status s),
  count_nodes_incomplete ns (count_status n.status s),
  count_nodes-open-le ns (count_status n.status s),
)

-- `is_complete` answers `true` exactly when the statistics count no pending, deferred, ready,
-- running or blocked task.
pub is_complete_iff : (g : TaskDag) → (is_complete g ≡ true) ↔ (open_count (stats g) ≡ 0)
unfolding is_complete stats
is_complete_iff g = (
  λ h. ground (arith, count_nodes_complete (values g.nodes) default_stats),
  λ h. elim (Bool-cases (all (λ n. is_terminal n.status) (values g.nodes))) [
    | inl e ↦ e
    | inr e ↦ absurd (omega (arith, count_nodes_incomplete (values g.nodes) default_stats e))
  ],
)
