-- ===== src/Storage/Examples.antt =====
-- The theorems on repository.py at a round with one miner.
use endure_subnet.Prelude.{
  length, ℕ, ◌≤◌, String, ◌≡◌, refl, true, false, Option, none, some, List, [], ◌∷◌, arith,
}
use endure_subnet.Prelude.Eq.{string_eq, pair_eq, triple_eq}
use endure_subnet.Prelude.Dict.{lookup, insert}
use endure_subnet.Protocol.RoundEngine.{RoundWindows}
use endure_subnet.Protocol.Synapses.{RejectionCode-discrete}
use endure_subnet.Storage.Tables.{
  Storage, SubmissionRow, SnapshotRow, RoundRow, empty, revealed, accepted, closed, opened,
  ConsensusRow, SubmissionVerdict-discrete,
}
use endure_subnet.Storage.Rounds.{open_round, insert_round, round_state}
use endure_subnet.Storage.Submissions.{
  record_commit, commit_row, record_reveal_attempt, attempt_row, record_reveal, reveal_row, Reveal,
}
use endure_subnet.Storage.Consensus.{
  Bundle, scoring_bundles, publish_from_accepted_bundles_and_reveal,
  snapshot_consensus_bundles_if_open, snapshot_if_open, consensus_bundles_of, accepted_bundles_of,
  accepted_rows, snapshot_rows, insert_snapshots, order_by_hotkey, insert_by_hotkey,
}
use endure_subnet.Storage.Published.{publish-scoring_bundles}
use endure_subnet.Storage.Ops.{
  StorageOp, open_op, commit_op, attempt_op, reveal_op, state_op, apply, run,
}
use endure_subnet.Storage.Caps.{RowIsValid, run-RowIsValid}
use endure_subnet.Storage.Terminal.{accepted_terminal}
use endure_subnet.Storage.Frozen.{closed_round_frozen}

abbrev windows : RoundWindows
windows = record {
  round_id = "2026-01-05";
  commit_open = 10;
  commit_close = 20;
  t0_close = 25;
  reveal_open = 30;
  reveal_close = 40;
}

abbrev reveal : Reveal
reveal = record {
  revealed_at = 31;
  bundle_json = "bundle";
  nonce_hex = "nonce";
  accepted = true;
  rejection_code = none;
}

abbrev one_round : List StorageOp
one_round =
    open_op windows "risk" none 5 none
    ∷ commit_op "2026-01-05" "risk" "miner" "hash" 11 (some 10)
    ∷ attempt_op "2026-01-05" "risk" "miner" (some 10)
    ∷ reveal_op "2026-01-05" "risk" "miner" reveal
    ∷ []

abbrev revealed_row : SubmissionRow
revealed_row = record {
  commit_hash = some "hash";
  commit_count = 1;
  reveal_count = 1;
  nonce_hex = some "nonce";
  committed_at = some 11;
  revealed_at = some 31;
  bundle_json = some "bundle";
  verdict = accepted;
  rejection_code = none;
}

abbrev revealed_round : RoundRow
revealed_round = record {
  state = revealed;
  universe_stale = true;
  degraded = false;
  commit_open_at = 10;
  commit_close_at = 20;
  reveal_open_at = 30;
  reveal_close_at = 40;
  publication_available_at = 40;
  t0_close_at = 25;
  created_at = 5;
  updated_at = 41;
}

abbrev snapshot : SnapshotRow
snapshot = record { bundle_json = some "bundle"; snapshotted_at = 41 }

abbrev revealed_store : Storage
revealed_store = record empty {
  rounds = (("2026-01-05", "risk"), revealed_round) ∷ [];
  submissions = (("2026-01-05", "risk", "miner"), revealed_row) ∷ [];
  consensus_bundle_snapshots = (("2026-01-05", "risk", "miner"), snapshot) ∷ [];
}

-- Another commitment, a second reveal and the close of the round.
abbrev later : List StorageOp
later =
    commit_op "2026-01-05" "risk" "miner" "other" 50 (some 10)
    ∷ reveal_op "2026-01-05" "risk" "miner" (record reveal { bundle_json = "other" })
    ∷ state_op "2026-01-05" "risk" closed 60
    ∷ []

-- The same row while its round is still open, and two attempts to reveal something else
abbrev accepted_store : Storage
accepted_store = record revealed_store {
  rounds = (("2026-01-05", "risk"), record revealed_round { state = opened }) ∷ [];
  consensus_bundle_snapshots = [];
}

abbrev attempts : List StorageOp
attempts =
    attempt_op "2026-01-05" "risk" "miner" (some 10)
    ∷ reveal_op "2026-01-05" "risk" "miner" (record reveal { bundle_json = "other" })
    ∷ attempt_op "2026-01-05" "risk" "miner" none
    ∷ later

accepted_terminal_example :
    (n : ℕ) × (lookup ("2026-01-05", "risk", "miner") (run attempts accepted_store).submissions
      ≡ some (record revealed_row { reveal_count = n }))
    × (1 ≤ n)
unfolding lookup
accepted_terminal_example =
    accepted_terminal revealed_row refl ("2026-01-05", "risk", "miner") attempts accepted_store refl

run-RowIsValid_example : RowIsValid 10 10 revealed_row
unfolding lookup insert run apply open_round insert_round record_commit commit_row
    record_reveal_attempt attempt_row record_reveal reveal_row round_state
    SubmissionVerdict-discrete RejectionCode-discrete
run-RowIsValid_example =
    run-RowIsValid 10 10 (omega arith) one_round ("2026-01-05", "risk", "miner") revealed_row
      (tt, (refl, (refl, (tt, tt)))) refl

closed_round_frozen_example :
    ((h : String)
      → lookup ("2026-01-05", "risk", h) (run later revealed_store).submissions
        ≡ lookup ("2026-01-05", "risk", h) revealed_store.submissions)
    × ((limit : Option ℕ) (offset : ℕ)
        → scoring_bundles "2026-01-05" "risk" limit offset (run later revealed_store)
          ≡ scoring_bundles "2026-01-05" "risk" limit offset revealed_store)
unfolding round_state lookup
closed_round_frozen_example =
    closed_round_frozen "2026-01-05" "risk" later revealed_store (tt, (tt, (refl, tt))) refl

abbrev open_store : Storage
open_store = record revealed_store {
  rounds = (("2026-01-05", "risk"), record revealed_round { state = opened }) ∷ [];
  consensus_bundle_snapshots = [];
}

abbrev one_value : List Bundle → List ConsensusRow
one_value bundles =
    record {
      coordinate = "alpha";
      value_text = "1";
      dispersion_text = "0";
      n_submitters = length bundles;
    }
    ∷ []

publish-scoring_bundles_example :
    let p = publish_from_accepted_bundles_and_reveal "2026-01-05" "risk" one_value 41 open_store in
    (p.1 ≡ one_value p.0) × (scoring_bundles "2026-01-05" "risk" none 0 (run later p.2) ≡ p.0)
unfolding round_state lookup
publish-scoring_bundles_example =
    publish-scoring_bundles "2026-01-05" "risk" 41 one_value opened open_store later refl
      (tt, (tt, (refl, tt)))

-- The bundle of the one accepted row is what that close publishes.
published_bundles :
    (publish_from_accepted_bundles_and_reveal "2026-01-05" "risk" one_value 41 open_store).0
    ≡ ("miner", some "bundle") ∷ []
unfolding publish_from_accepted_bundles_and_reveal snapshot_consensus_bundles_if_open
    snapshot_if_open consensus_bundles_of accepted_bundles_of accepted_rows snapshot_rows
    insert_snapshots order_by_hotkey insert_by_hotkey round_state lookup insert
published_bundles = refl
