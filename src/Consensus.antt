-- ===== src/Consensus.antt =====
-- src/agent/multi/consensus: rounds in which agents propose, vote and are brought to one plan.
mod Synthesis
mod Scoring
mod Proposals
mod Rounds
mod View
mod Watched
mod Closing
mod Resume
mod Verdicts
mod Answers
mod Prompted
mod Histories
mod Members
mod Samples
mod Tests
