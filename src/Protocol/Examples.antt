-- ===== src/Protocol/Examples.antt =====
-- The theorems on the verdicts and the handlers at one miner's commit and reveal.
use endure_subnet.Prelude.{
  ℕ, ◌≤◌, ◌<◌, String, ◌≡◌, ◌↔◌, refl, true, false, none, some, [], ◌∷◌, arith, some_of,
}
use endure_subnet.Prelude.Eq.{string_eq, nat_eq, pair_eq, triple_eq}
use endure_subnet.Prelude.Dict.{lookup, insert}
use endure_subnet.Protocol.RoundEngine.{
  WindowOffsets, RoundPhase, RoundWindows, window_offsets, phase_at, as_datetime, windows_around,
}
use endure_subnet.Prelude.Int.{pos, negsuc, ◌+ℤ◌, ◌-ℤ◌, ◌≤ℤ◌}
use endure_subnet.Protocol.RoundEngine.Phases.{phase_at-windows}
use endure_subnet.Protocol.Synapses.{SubmitCommit, SubmitReveal, RejectionCode-discrete}
use endure_subnet.Protocol.Canonical.{
  code_points, utf8, utf8_of, fromhex, hex_digit, is_space, commit_hash, commit_preimage,
  fromisoformat, isoformat, digit, is_date,
}
use endure_subnet.Protocol.Validation.{
  SchemaRegistry, SchemaRegistryEntry, bundle_model, is_canonical_round_id, is_hex_digest,
  validate_commit, validate_reveal, reveal_payload_rejection, nonce_verdict, validate_reveal_bundle,
  bundle_verdict,
}
use endure_subnet.Protocol.Validation.Verdicts.{RevealIsDue, RevealOpens, validate_reveal-accepted}
use endure_subnet.Protocol.Validation.Binding.{IsAscii, validate_reveal-hotkey}
use endure_subnet.Protocol.Calls.{World, quiet}
use endure_subnet.Protocol.Handlers.{SubmissionHandlers}
use endure_subnet.Protocol.Handlers.HandleCommit.{
  handle_commit, in_round, is_idempotent_retry, record_if_accepted, settle_commit,
}
use endure_subnet.Protocol.Handlers.HandleReveal.{
  handle_reveal, early_rejection, in_reveal_round, admit_unless_retry, admit_reveal, if_charged,
  validated, record_verdict, confirm,
}
use endure_subnet.Protocol.Handlers.Commits.{handle_commit-committed}
use endure_subnet.Protocol.Handlers.Reveals.{handle_reveal-HoldsReveal}
use endure_subnet.Storage.Tables.{
  Storage, RoundRow, SubmissionRow, UniverseRow, empty, opened, committed,
  SubmissionVerdict-discrete,
}
use endure_subnet.Storage.Rounds.{round_windows, universe_for, round_state}
use endure_subnet.Storage.Submissions.{
  committed_hash, commit_count, record_commit, commit_row, accepted_reveal, retry_identity,
  record_reveal_attempt, attempt_row, record_reveal, reveal_row,
}
use endure_subnet.Storage.Ops.{run}
use endure_subnet.Storage.Recorded.{HoldsReveal}

abbrev entry : SchemaRegistryEntry
entry = record {
  model_validate = λ text. bundle_model (record {
    round_id = "2026-01-05";
    schema_id = "risk";
    canonical_bytes = utf8 (code_points text);
  });
  bundle_membership_valid = none;
}

abbrev registry : SchemaRegistry
registry = ("risk", entry) ∷ []

abbrev bundle_hash : String
bundle_hash = "00112233445566778899aabbccddeeff00112233445566778899aabbccddeeff"

abbrev nonce : String
nonce = "00112233445566778899aabbccddeeff"

abbrev handlers : SubmissionHandlers
handlers = record {
  schema_id = "risk";
  max_commits = 10;
  max_reveals = 10;
  registry = registry;
  digest = λ bytes. bundle_hash;
}

abbrev round : RoundRow
round = record {
  state = opened;
  universe_stale = false;
  degraded = false;
  commit_open_at = 10;
  commit_close_at = 20;
  reveal_open_at = 30;
  reveal_close_at = 40;
  publication_available_at = 40;
  t0_close_at = 25;
  created_at = 5;
  updated_at = 5;
}

abbrev universe : UniverseRow
universe = record { tickers = []; source_hash = "source"; fetched_at = 5 }

abbrev open_store : Storage
open_store = record empty {
  rounds = (("2026-01-05", "risk"), round) ∷ [];
  universe_snapshots = (("2026-01-05", "risk"), universe) ∷ [];
}

abbrev committed_row : SubmissionRow
committed_row = record {
  commit_hash = some bundle_hash;
  commit_count = 1;
  reveal_count = 0;
  nonce_hex = none;
  committed_at = some 11;
  revealed_at = none;
  bundle_json = none;
  verdict = committed;
  rejection_code = none;
}

abbrev committed_store : Storage
committed_store = record open_store {
  submissions = (("2026-01-05", "risk", "miner"), committed_row) ∷ [];
}

abbrev commit : SubmitCommit
commit = record {
  round_id = "2026-01-05";
  schema_id = "risk";
  spec_version = 2044;
  bundle_hash = bundle_hash;
  accepted = false;
  rejection_code = none;
}

abbrev reveal : SubmitReveal
reveal = record {
  round_id = "2026-01-05";
  schema_id = "risk";
  spec_version = 2044;
  bundle_json = "{}";
  nonce_hex = nonce;
  accepted = false;
  rejection_code = none;
}

canonical_date : is_canonical_round_id "2026-01-05" ≡ true
unfolding is_canonical_round_id fromisoformat isoformat digit is_date
canonical_date = refl

validate_reveal-accepted_example :
    ((validate_reveal handlers.digest "2026-01-05" "risk" 2044 "{}" nonce
        (some bundle_hash)
        "miner"
        31
        30
        40
        []
        registry).accepted
      ≡ true)
    ↔ (RevealIsDue handlers.digest "2026-01-05" "risk" 2044 "{}" nonce
          (some bundle_hash)
          "miner"
          31
          30
          40
          []
          registry
        × RevealOpens handlers.digest "2026-01-05" "risk" 2044 "{}" nonce
            (some bundle_hash)
            "miner"
            31
            30
            40
            []
            registry)
validate_reveal-accepted_example =
    validate_reveal-accepted handlers.digest "2026-01-05" "risk" 2044 "{}" nonce (some bundle_hash)
      "miner" 31 30 40 [] registry

reveal_is_accepted :
    (validate_reveal handlers.digest "2026-01-05" "risk" 2044 "{}" nonce
      (some bundle_hash)
      "miner"
      31
      30
      40
      []
      registry).accepted
    ≡ true
unfolding validate_reveal is_canonical_round_id fromisoformat isoformat digit is_date lookup
    reveal_payload_rejection nonce_verdict validate_reveal_bundle bundle_verdict utf8 utf8_of
    fromhex hex_digit is_space commit_hash
reveal_is_accepted = refl

abbrev miner : String
miner = "miner"

miner-IsAscii : IsAscii (code_points miner)
miner-IsAscii = (omega arith, (omega arith, (omega arith, (omega arith, (omega arith, tt)))))

validate_reveal-hotkey_example : miner ≡ miner
unfolding commit_preimage fromhex
validate_reveal-hotkey_example =
    validate_reveal-hotkey handlers.digest "{}" "{}" nonce nonce bundle_hash miner miner
      "2026-01-05" "risk" "2026-01-05" "risk" 2044 2044 31 30 40 31 30 40 [] [] registry registry
      (λ n n' e e' h. rw (some_of e) (rw (some_of e') refl)) miner-IsAscii miner-IsAscii refl
      reveal_is_accepted reveal_is_accepted

abbrev world : Storage → World
world s = record { calls = 0; storage = s }

handle_commit-committed_example :
    committed_hash "2026-01-05" "risk" "miner"
      (handle_commit handlers commit "miner" 11 quiet (world open_store)).1.storage
    ≡ some bundle_hash
unfolding handle_commit in_round is_idempotent_retry record_if_accepted settle_commit
    is_canonical_round_id fromisoformat isoformat digit is_date round_windows commit_count
    validate_commit is_hex_digest fromhex hex_digit is_space record_commit commit_row round_state
    lookup insert run
handle_commit-committed_example =
    handle_commit-committed handlers commit "miner" 11 quiet (world open_store) refl

handle_reveal-HoldsReveal_example :
    HoldsReveal "2026-01-05" "risk" "miner" "{}" nonce
      (run [] (handle_reveal handlers reveal "miner" 31 quiet (world committed_store)).1.storage)
unfolding handle_reveal early_rejection in_reveal_round admit_unless_retry admit_reveal if_charged
    validated record_verdict confirm validate_reveal is_canonical_round_id fromisoformat isoformat
    digit is_date lookup insert reveal_payload_rejection nonce_verdict validate_reveal_bundle
    bundle_verdict utf8 utf8_of fromhex hex_digit is_space commit_hash round_windows universe_for
    accepted_reveal retry_identity committed_hash record_reveal_attempt attempt_row record_reveal
    reveal_row round_state run SubmissionVerdict-discrete RejectionCode-discrete
handle_reveal-HoldsReveal_example =
    handle_reveal-HoldsReveal handlers reveal "miner" 31 quiet (world committed_store) [] refl

-- `bytes.fromhex` skips white space, so this text of 64 characters passes for a digest.
spaced_digest :
    is_hex_digest "00 11 22 33 44 55 66 77 88 99 aa bb cc dd ee ff 00 11 22 33 44  " ≡ true
unfolding is_hex_digest fromhex hex_digit is_space
spaced_digest = refl

-- Offsets whose commit window closes after the close
abbrev offsets : WindowOffsets
offsets = record {
  commit_open_before_close = pos 540;
  commit_close_before_close = negsuc 9;
  reveal_open_after_close = pos 30;
  reveal_close_after_close = pos 240;
}

abbrev laid : RoundWindows
laid = record {
  round_id = "2026-01-05";
  commit_open = 460;
  commit_close = 1010;
  t0_close = 1000;
  reveal_open = 1030;
  reveal_close = 1240;
}

phase_at-windows_example :
    ◌≡◌ {A = ℕ} 1000 1000
    × (460 < 1010)
    × (1030 < 1240)
    × ((1010 ≤ 1000) ↔ (pos 0 ≤ℤ negsuc 9))
    × ((1000 ≤ 1030) ↔ (pos 0 ≤ℤ pos 30))
    × ((phase_at 1100 laid ≡ RoundPhase.pre_open) ↔ (1100 < 460))
    × ((phase_at 1100 laid ≡ RoundPhase.commit) ↔ ((460 ≤ 1100) × (1100 ≤ 1010)))
    × ((phase_at 1100 laid ≡ RoundPhase.awaiting_close) ↔ ((1010 < 1100) × (1100 < 1030)))
    × ((phase_at 1100 laid ≡ RoundPhase.reveal) ↔ ((1010 < 1100) × (1030 ≤ 1100) × (1100 ≤ 1240)))
    × ((phase_at 1100 laid ≡ RoundPhase.closed) ↔ ((1010 < 1100) × (1240 < 1100)))
unfolding window_offsets windows_around as_datetime ◌+ℤ◌ ◌-ℤ◌
phase_at-windows_example = phase_at-windows "2026-01-05" 1000 1100 offsets laid refl refl
