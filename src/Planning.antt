-- ===== src/Planning.antt =====
-- src/planning: the checks of a plan's tasks that walk their dependencies.
mod Graph
mod Walks
mod Fuel
mod Visits
mod Cycle
mod Tasks
mod Renamed
mod Places
mod Partners
mod Normal
mod Feasible
mod Tests
