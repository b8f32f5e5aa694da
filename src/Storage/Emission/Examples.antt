-- ===== src/Storage/Emission/Examples.antt =====
-- The theorems on weight emissions at one direct vote.
use endure_subnet.Prelude.{
  ℕ, length, ◌+◌, ◌-◌, ◌*◌, min, max, leb, ◌||◌, ◌↔◌, ok, ◌≤◌, String, true, false, ◌≡◌, refl, none,
  some, List, [], ◌∷◌, arith,
}
use endure_subnet.Prelude.Eq.{nat_eq, string_eq}
use endure_subnet.Storage.Emission.{
  submitted_status, error_status, prepared, submitted, direct, WeightEmissionChainSnapshot, Batch,
}
use endure_subnet.Storage.Emission.Resolve.{IntentHash}
use endure_subnet.Storage.Emission.Blocks.{blocks_from}
use endure_subnet.Storage.Emission.Scan.{
  start_after, cursor_after, blocks_scanned, is_completed, cr4_reveal_scan_batch_blocks,
  cr4_reveal_scan_window, advance_cr4_reveal_scan_cursor, cursor_after-progress,
}
use endure_subnet.Storage.Emission.Transitions.{
  Transition, transition_weight_emission_attempt, Agrees, Metadata, Becomes,
}
use endure_subnet.Storage.Emission.Lifecycle.{
  stage, EmissionOp, transition_op, resolve_op, run_ops, run_ops-forward, transition-ok,
}

abbrev intent : String
intent = "00112233445566778899aabbccddeeff00112233445566778899aabbccddeeff"

abbrev intent_hash_of : IntentHash
intent_hash_of version chain netuid uid hotkey targets = intent

abbrev batch : Batch
batch = record {
  schema_id = "risk";
  status = submitted_status;
  confirmation_state = submitted;
  submission_block = some 100;
  baseline_last_update_block = some 90;
  period_blocks = 16;
  confirmation_deadline_block = some 130;
  cr4_reveal_deadline_block = none;
  chain_identity = "chain";
  netuid = 30;
  validator_uid = 3;
  validator_hotkey = "validator";
  submission_mode = direct;
  intent_hash = intent;
  commitment_hash = none;
  reveal_round = none;
  commitment_observed_block = none;
  commitment_observed_last_update_block = none;
  targets = (1, "miner", 65535) ∷ [];
  confirmed_at = none;
  emitted = false;
}

abbrev snapshot : WeightEmissionChainSnapshot
snapshot = record {
  chain_identity = "chain";
  netuid = 30;
  validator_uid = 3;
  validator_hotkey = "validator";
  block = 140;
  last_update_block = 105;
  weights = (1, 65535) ∷ [];
  commitments = [];
  reveals = [];
  hotkeys = (1, "miner") ∷ [];
  reveal_scan_complete = true;
}

-- Passes while the chain goes on from block 190 to block 330, up to the deadline
abbrev passes : List ℕ
passes = 190 ∷ 190 ∷ 190 ∷ 200 ∷ 230 ∷ 330 ∷ 330 ∷ 330 ∷ []

cursor_after-progress_example :
    let stop = start_after 100 (cursor_after 100 300 passes none) in
    (blocks_scanned 100 300 passes none ≡ blocks_from 100 (stop - 100))
    × (stop ≤ 100 + length passes * cr4_reveal_scan_batch_blocks)
    × (stop ≤ max 100 (min 330 300 + 1))
    × (min (min 190 300 + 1) (100 + length passes * cr4_reveal_scan_batch_blocks) ≤ stop)
    × (leb 301 stop ≡ (leb 301 100 || is_completed 100 300 passes none))
cursor_after-progress_example =
    cursor_after-progress 100 300 190 330 passes none (omega arith) (omega arith)

-- What these passes scan, from the definitions
passes_run :
    (start_after 100 (cursor_after 100 300 passes none) ≡ 301)
    × (length (blocks_scanned 100 300 passes none) ≡ 201)
unfolding cr4_reveal_scan_window advance_cr4_reveal_scan_cursor
passes_run = (refl, refl)

abbrev sent : Transition
sent = record {
  status = submitted_status;
  confirmation_state = submitted;
  submission_mode = direct;
  commitment_hash = none;
  reveal_round = none;
  confirmation_deadline_block = some 150;
  cr4_reveal_deadline_block = none;
}

abbrev prepared_batch : Batch
prepared_batch = record batch { status = error_status; confirmation_state = prepared }

abbrev ops : List EmissionOp
ops = transition_op sent ∷ resolve_op intent_hash_of snapshot 8 "risk" 500 ∷ []

run_ops-forward_example :
    (stage prepared_batch.confirmation_state
      ≤ stage (run_ops ops prepared_batch).confirmation_state)
    × (stage prepared_batch.confirmation_state ≡ 2 → run_ops ops prepared_batch ≡ prepared_batch)
run_ops-forward_example = run_ops-forward ops prepared_batch

-- The vote that is sent, with a later deadline
abbrev sent_batch : Batch
sent_batch = record prepared_batch {
  status = submitted_status;
  confirmation_state = submitted;
  confirmation_deadline_block = some 150;
}

transition-ok_example : (transition_weight_emission_attempt sent prepared_batch ≡ ok sent_batch) ↔ (
    Agrees submitted submitted_status
    × Metadata direct none none none
    × (prepared_batch.confirmation_state ≡ prepared)
    × Becomes sent prepared_batch sent_batch)
transition-ok_example = transition-ok sent prepared_batch sent_batch

transition_run : transition_weight_emission_attempt sent prepared_batch ≡ ok sent_batch
unfolding transition_weight_emission_attempt
transition_run = refl
