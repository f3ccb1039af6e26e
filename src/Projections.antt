-- ===== src/Projections.antt =====
-- src/state/projections.rs: the read models that are folded from the events.
mod Progress
mod Timeline
mod Tasks
mod Consensus
mod TaskBound
mod ConsensusBound
mod Tests
unfoldable pub use Progress.*
unfoldable pub use Timeline.*
unfoldable pub use Tasks.*
unfoldable pub use Consensus.*
