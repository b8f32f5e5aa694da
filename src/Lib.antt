-- ===== src/Lib.antt =====
-- A model of the Endure subnet's validator, with the theorems that make its rounds correct.
--
-- In each round a miner commits to the hash of a bundle of assessments, and reveals the bundle
-- after the commit window. The axon's handlers take both messages, the verdicts judge them, and the
-- repository records them; at the close of a round the accepted bundles are frozen, a consensus is
-- published and the miners are scored. Weights then go to the chain as time-locked commitments.
--
-- Parts, with the code that each models:
--   * Protocol/RoundEngine (endure/protocol/round_engine.py): `WindowOffsets`, `RoundWindows`,
--     `phase_at`; `windows_around` is what `compute_windows` and `compute_fixed_utc_windows` share.
--     Phases has its theorems.
--   * Protocol/Synapses (endure/protocol/synapses.py): the messages and the rejection codes.
--   * Protocol/Canonical and Protocol/Validation (endure/protocol/canonical.py, validation.py):
--     `commit_hash`, `validate_commit` and `validate_reveal`, each helper a function of its name.
--     Verdicts, Codes and Binding have the theorems.
--   * Protocol/Calls and Protocol/Handlers (endure/protocol/handlers.py): `handle_commit` and
--     `handle_reveal` as sequences of calls to the store. Every call is one transaction, and before
--     each of them any operations of other callers may run, so an interleaving is any
--     order of whole transactions.
--   * Storage (endure/storage/repository.py, tables.py): Tables has the rows, Rounds, Submissions
--     and Consensus have the methods under their names, Ops has the operations as data and their
--     runs. Steps says what an operation does to a row; Terminal, Caps, Past, Frozen, Recorded
--     and Published have the theorems.
--   * Storage/Emission (the same files): `resolve_weight_emission_confirmations` on one batch with
--     `_direct_weight_resolution`, `_cr4_weight_resolution` and `_apply_weight_resolution` (Resolve),
--     `transition_weight_emission_attempt` (Transitions, with its lemmas in Guards and Deadlines),
--     and the scan of blocks for a reveal (Scan, Blocks); Lifecycle has the theorems on the states
--     of a vote, Evidence those on its confirmation, and Scan its own.
--   * Cr4 (endure/base/cr4_schedule.py): the deadline of a weight commitment, under the source's
--     names; Bounds and Deadline have the theorems.
--   * Scoring/Eligibility (endure/scoring/eligibility.py): `DeregistrationTracker` and its methods;
--     Generations has the theorems.
--   * Scoring/Network and Scoring/OwnerVote (endure/protocol/consensus_policy.py,
--     endure/scoring/emission_policy.py): `resolve_owner_vote_uid`, `submission_due`,
--     `recheck_owner_vote` and `_recheck_owner_burn_share`, and in State `recheck_owner_state`;
--     Recheck, Due and State have the theorems.
--   * Scoring/Burn (endure/scoring/emission_policy.py): `burn_commitment_text` and
--     `parse_burn_rate`, the text of the owner's burn rate; RoundTrip has the theorems.
--   * Scoring/Duplicates (endure/scoring/duplicates.py): `duplicate_pools`, and in Forecasts
--     `identical_forecast_groups`; Assigned says which group a hotkey is assigned to, Pools which
--     hotkeys share a pool, Overlap how many it is in, and Forecasts/Grouped who is in one group.
--   * Decimal (endure/scoring/context.py): the numbers of Python's `decimal` under `TR_CONTEXT`;
--     Rounding and Order have the lemmas on rounding, Laws those on the operations.
--   * Scoring/Deviation (endure/scoring/assessment_orchestrator.py,
--     endure/assessment/schemas/wire.py): `deviation_score`, `score_output` and
--     `validate_parameter_bounds`; Monotone has the theorem.
--   * Assessment/Coordinates (endure/assessment/coordinates.py): the coordinate of a target, its
--     order and its checks, and the rows that carry one.
--   * Aggregation/Consensus and Aggregation/AssessmentConsensus (endure/aggregation/consensus.py,
--     assessment_consensus.py): `weighted_median`, `aggregate_cell` and
--     `compute_assessment_consensus`; Median, Cells and Rows have the lemmas and theorems.
--   * Storage/Scores (endure/storage/repository.py, tables.py): the tables of scores with
--     `record_assessment_scoring_pass`; Writes has the other methods on them, the reads and the runs
--     of writes; First, Forever and Averages have the theorems.
--   * Scoring/Weights (endure/scoring/weights.py): `ema_update`; Bounds has the theorem.
--   * Scoring/WeightProcessing (endure/scoring/weight_processing.py):
--     `convert_weights_and_uids_for_emit` and `_group_positions`; Remainders has the lemmas on
--     rounding, Bounds and Top have the theorems.
--   * Scoring/Orchestrator (endure/scoring/assessment_orchestrator.py): `resolve_and_score`, with
--     `_resolve_targets` in Resolve, the inner loop in Score, and the pass that is recorded, with
--     `_fully_decayed_hotkeys`, in Pass; Fresh and Known have the lemmas and Once the theorem.
--   * Protocol/Vertical (endure/protocol/vertical.py): `AssessmentRoundProgram.resolve_due`, a tick
--     over a round, which runs the orchestrator on the tables of Storage/Scores and sets the state
--     of the round in Storage; Closing and Kept have the theorems.
--   * Prelude: Boolean tests, lists, sets, integers, equality, dictionaries and results.
--
-- Choices: an instant is a natural number (microseconds from the first that `datetime` can hold),
-- so are block numbers, and a length of time that may be negative is an integer; a text is a
-- `String` and its UTF-8 bytes are computed; a table is an association list under its primary key.
-- SQLite's transactions are taken to be serializable, and a transaction that raises is rolled
-- back. The loop of cr4_schedule.py is recursion on the rounds that are left, with the source's
-- own bound; the digits of a number n are written on n + 1 as fuel, and it has no more.
--
-- A `Decimal` is a coefficient over a power of ten and not negative, as all scores and weights are;
-- the least and greatest exponents of the context are out of reach. A search for the digits of a
-- quotient has as many steps as any quotient needs.
--
-- Arguments of the model: the hash (blake2b), the JSON reader with the schema models (json,
-- pydantic), the hash of a vote's intent, the function that computes a consensus from bundles, the
-- power of 2 in a moving average (decimal), the resolvers of targets, the readings of the clock.
--
-- Not modelled: the exchange calendar and the schedulers' search over days, the normalization of
-- weights with its caps and the seeds of ties, the planning of a vote and its decimal weights, the
-- recording of a weight emission and its health summary, the order of ties in a pool, the HTTP
-- interface, process start-up, and the chain client.
pub mod Prelude
pub mod Decimal
pub mod Cr4
pub mod Assessment
pub mod Protocol
pub mod Storage
pub mod Scoring
pub mod Aggregation
