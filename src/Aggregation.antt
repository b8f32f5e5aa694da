-- ===== src/Aggregation.antt =====
-- endure/aggregation: the consensus of a round from its bundles.
pub mod Consensus
pub mod AssessmentConsensus
mod Examples
