-- ===== src/Scoring.antt =====
-- endure/scoring: which hotkeys are scored, and how the votes of a validator are planned.
pub mod Eligibility
pub mod Network
pub mod OwnerVote
pub mod Burn
pub mod Duplicates
pub mod Deviation
pub mod Weights
pub mod Orchestrator
pub mod WeightProcessing
mod Examples
