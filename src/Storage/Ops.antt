-- ===== src/Storage/Ops.antt =====
-- The operations of repository.py on rounds and submissions as data, and runs of them: each is one
-- transaction, and the axon's handlers and the validator's loop make them in any order.
use endure_subnet.Prelude.{ℕ, String, Option, List, [], ◌∷◌, Result, ok, err}
use endure_subnet.Protocol.RoundEngine.{RoundWindows}
use endure_subnet.Storage.Tables.{Storage, RoundState, ConsensusRow}
use endure_subnet.Storage.Rounds.{UniverseSnapshot, OpenRoundError, open_round}
use endure_subnet.Storage.Submissions.{Reveal, record_commit, record_reveal_attempt, record_reveal}
use endure_subnet.Storage.Consensus.{
  Bundle, set_round_state, publish_from_accepted_bundles_and_reveal,
  publish_assessment_consensus_and_reveal,
}

pub data StorageOp : Type 0 where
  open_op : RoundWindows → String → Option UniverseSnapshot → ℕ → Option ℕ → StorageOp
  commit_op : String → String → String → String → ℕ → Option ℕ → StorageOp
  attempt_op : String → String → String → Option ℕ → StorageOp
  reveal_op : String → String → String → Reveal → StorageOp
  publish_op : String → String → (List Bundle → List ConsensusRow) → ℕ → StorageOp
  publish_rows_op : String → String → List ConsensusRow → ℕ → StorageOp
  state_op : String → String → RoundState → ℕ → StorageOp

-- A transaction that raises is rolled back.
abbrev pub or_rolled_back : Result OpenRoundError Storage → Storage → Storage
or_rolled_back (ok s') s = s'
or_rolled_back (err _) s = s

unfoldable pub apply : StorageOp → Storage → Storage
apply (open_op w c u now p) s = or_rolled_back (open_round w c u now p s) s
apply (commit_op r c h hash now cap) s = (record_commit r c h hash now cap s).1
apply (attempt_op r c h cap) s = (record_reveal_attempt r c h cap s).1
apply (reveal_op r c h reveal) s = (record_reveal r c h reveal s).1
apply (publish_op r c f now) s = (publish_from_accepted_bundles_and_reveal r c f now s).2
apply (publish_rows_op r c rows now) s = publish_assessment_consensus_and_reveal r c rows now s
apply (state_op r c st now) s = set_round_state r c st now s

unfoldable pub run : List StorageOp → Storage → Storage
run [] s = s
run (op ∷ ops) s = run ops (apply op s)

-- A property that each operation keeps holds after every run.
module _ {κ} {P : Storage → Type κ}
    (step : (op : StorageOp) (s : Storage) → P s → P (apply op s)) where
  pub run_keeps : (ops : List StorageOp) (s : Storage) → P s → P (run ops s)
  unfolding run
  run_keeps [] s h = h
  run_keeps (op ∷ ops) s h = run_keeps ops (apply op s) (step op s h)
