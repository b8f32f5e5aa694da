-- ===== src/Storage/Submissions.antt =====
-- repository.py, "commits" and "reveals": one row for each round, schema and miner, written by
-- atomic transactions. A cap that is `None` is not checked.
use endure_subnet.Prelude.{
  ℕ, ◌+◌, String, Bool, true, false, not, ◌&&◌, ◌||◌, Option, none, some, ltb, if◌then◌else◌,
  is_some,
}
use endure_subnet.Prelude.Eq.{◌==◌, string_eq, option_eq, pair_eq, triple_eq}
use endure_subnet.Prelude.Dict.{lookup, insert}
use endure_subnet.Protocol.Synapses.{RejectionCode, RejectionCode-discrete, code_eq}
use endure_subnet.Storage.Tables.{
  Storage, SubmissionRow, SubmissionKey, SnapshotRow, SubmissionVerdict, committed, accepted,
  rejected, is_accepted, is_opened, RoundState, SubmissionVerdict-discrete, verdict_eq,
}
use endure_subnet.Storage.Rounds.{round_state, is_open_state}

abbrev pub below_cap : Option ℕ → ℕ → Bool
below_cap none count = true
below_cap (some cap) count = ltb count cap

abbrev pub is_open : String → String → Storage → Bool
is_open round_id schema_id s = is_open_state (round_state round_id schema_id s)

abbrev pub put_row : SubmissionKey → SubmissionRow → Storage → Storage
put_row key row s = record s { submissions = insert key row s.submissions }

abbrev pub row_at : String → String → String → Storage → Option SubmissionRow
row_at round_id schema_id miner_hotkey s = lookup (round_id, schema_id, miner_hotkey) s.submissions

-- The row that the final `INSERT` of `record_commit` makes.
abbrev pub first_commit : String → ℕ → SubmissionRow
first_commit bundle_hash now_iso = record {
  commit_hash = some bundle_hash;
  commit_count = 1;
  reveal_count = 0;
  nonce_hex = none;
  committed_at = some now_iso;
  revealed_at = none;
  bundle_json = none;
  verdict = committed;
  rejection_code = none;
}

abbrev pub recommit : String → ℕ → SubmissionRow → SubmissionRow
recommit bundle_hash now_iso row = record row {
  commit_hash = some bundle_hash;
  committed_at = some now_iso;
  commit_count = row.commit_count + 1;
  verdict = committed;
}

-- The `WHERE` of the update in `record_commit`.
abbrev pub may_recommit : String → Option ℕ → SubmissionRow → Bool
may_recommit bundle_hash max_commits row =
    not (row.commit_hash == some bundle_hash)
    && (not (is_accepted row.verdict) && below_cap max_commits row.commit_count)

unfoldable pub commit_row :
    SubmissionKey → String → ℕ → Option ℕ → Option SubmissionRow → Storage → Bool × Storage
commit_row key bundle_hash now_iso max_commits none s =
    (true, put_row key (first_commit bundle_hash now_iso) s)
commit_row key bundle_hash now_iso max_commits (some row) s =
    if may_recommit bundle_hash max_commits row
    then (true, put_row key (recommit bundle_hash now_iso row) s)
    else (row.commit_hash == some bundle_hash, s)

unfoldable pub record_commit :
    String → String → String → String → ℕ → Option ℕ → Storage → Bool × Storage
unfolding commit_row
record_commit round_id schema_id miner_hotkey bundle_hash now_iso max_commits s =
    if is_open round_id schema_id s
    then commit_row (round_id, schema_id, miner_hotkey) bundle_hash now_iso max_commits
        (row_at round_id schema_id miner_hotkey s) s
    else (false, s)

abbrev pub hash_of : Option SubmissionRow → Option String
hash_of none = none
hash_of (some row) = row.commit_hash

unfoldable pub committed_hash : String → String → String → Storage → Option String
committed_hash round_id schema_id miner_hotkey s =
    hash_of (row_at round_id schema_id miner_hotkey s)

unfoldable pub commit_count : String → String → String → Storage → ℕ
commit_count round_id schema_id miner_hotkey s = elim (row_at round_id schema_id miner_hotkey s) [
  | none ↦ 0
  | some row ↦ row.commit_count
]

unfoldable pub attempt_row :
    SubmissionKey → Bool → Option ℕ → Option SubmissionRow → Storage → Bool × Storage
attempt_row key round_open max_reveals none s = (false, s)
attempt_row key round_open max_reveals (some row) s =
    if is_some row.commit_hash && (round_open && below_cap max_reveals row.reveal_count)
    then (true, put_row key (record row { reveal_count = row.reveal_count + 1 }) s)
    else (false, s)

unfoldable pub record_reveal_attempt :
    String → String → String → Option ℕ → Storage → Bool × Storage
unfolding attempt_row
record_reveal_attempt round_id schema_id miner_hotkey max_reveals s =
    attempt_row (round_id, schema_id, miner_hotkey) (is_open round_id schema_id s) max_reveals
      (row_at round_id schema_id miner_hotkey s) s

unfoldable pub reveal_count : String → String → String → Storage → ℕ
reveal_count round_id schema_id miner_hotkey s = elim (row_at round_id schema_id miner_hotkey s) [
  | none ↦ 0
  | some row ↦ row.reveal_count
]

-- A snapshot row of the miner that holds the bundle of its submission.
abbrev pub is_frozen : Option String → Option SnapshotRow → Bool
is_frozen bundle_json none = false
is_frozen bundle_json (some snapshot) = snapshot.bundle_json == bundle_json

abbrev pub reveal_pair : Option String → Option String → Option (String × String)
reveal_pair (some bundle_json) (some nonce_hex) = some (bundle_json, nonce_hex)
reveal_pair _ _ = none

-- The query of `accepted_reveal`, on the rows that its joins bring together.
unfoldable pub retry_identity :
    Option RoundState → Option SubmissionRow → Option SnapshotRow → Option (String × String)
retry_identity none row snapshot = none
retry_identity (some state) none snapshot = none
retry_identity (some state) (some row) snapshot =
    if is_accepted row.verdict && (is_opened state || is_frozen row.bundle_json snapshot)
    then reveal_pair row.bundle_json row.nonce_hex
    else none

unfoldable pub accepted_reveal : String → String → String → Storage → Option (String × String)
unfolding retry_identity
accepted_reveal round_id schema_id miner_hotkey s =
    retry_identity (round_state round_id schema_id s) (row_at round_id schema_id miner_hotkey s)
      (lookup (round_id, schema_id, miner_hotkey) s.consensus_bundle_snapshots)

-- The columns that `record_reveal` writes.
pub record Reveal : Type 0 where
  pub revealed_at : ℕ
  pub bundle_json : String
  pub nonce_hex : String
  pub accepted : Bool
  pub rejection_code : Option RejectionCode

abbrev pub verdict_of : Bool → SubmissionVerdict
verdict_of true = accepted
verdict_of false = rejected

abbrev pub revealed_row : Reveal → SubmissionRow → SubmissionRow
revealed_row r row = record row {
  revealed_at = some r.revealed_at;
  bundle_json = some r.bundle_json;
  nonce_hex = some r.nonce_hex;
  verdict = verdict_of r.accepted;
  rejection_code = r.rejection_code;
}

-- The defaults of the columns that an `INSERT` without a commit leaves out.
abbrev pub uncommitted_row : SubmissionRow
uncommitted_row = record {
  commit_hash = none;
  commit_count = 0;
  reveal_count = 0;
  nonce_hex = none;
  committed_at = none;
  revealed_at = none;
  bundle_json = none;
  verdict = rejected;
  rejection_code = none;
}

abbrev pub same_reveal : Reveal → SubmissionRow → Bool
same_reveal r row =
    row.verdict == verdict_of r.accepted
    && (row.bundle_json == some r.bundle_json
        && (row.nonce_hex == some r.nonce_hex && row.rejection_code == r.rejection_code))

unfoldable pub reveal_row : SubmissionKey → Reveal → Option SubmissionRow → Storage → Bool × Storage
unfolding SubmissionVerdict-discrete RejectionCode-discrete
reveal_row key r none s = (true, put_row key (revealed_row r uncommitted_row) s)
reveal_row key r (some row) s =
    if is_accepted row.verdict
    then (false, s)
    else if same_reveal r row
    then (false, s)
    else (true, put_row key (revealed_row r row) s)

unfoldable pub record_reveal : String → String → String → Reveal → Storage → Bool × Storage
unfolding reveal_row
record_reveal round_id schema_id miner_hotkey r s =
    if is_open round_id schema_id s
    then reveal_row (round_id, schema_id, miner_hotkey) r (row_at round_id schema_id miner_hotkey s)
        s
    else (false, s)
