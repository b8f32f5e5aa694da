-- ===== src/Storage.antt =====
-- endure/storage/repository.py and endure/storage/tables.py: the durable state of the validator,
-- its tables for rounds, universes, submissions and consensus snapshots, and their operations.
pub mod Tables
pub mod Rounds
pub mod Submissions
pub mod Consensus
pub mod Ops
pub mod Steps
pub mod Caps
pub mod Past
pub mod Frozen
pub mod Recorded
pub mod Published
pub mod Emission
pub mod Terminal
pub mod Scores
mod Examples
