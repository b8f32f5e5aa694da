-- ===== src/Storage/Tables.antt =====
-- endure/storage/tables.py: the rows of the tables. Timestamps are instants in microseconds where
-- the columns hold their ISO text. A table with a unique key is a dictionary under that key.
use endure_subnet.Prelude.{ℕ, String, Bool, Option, List, []}
use endure_subnet.Prelude.Eq.{Eq, eq_by}
use endure_subnet.Prelude.Dict.{Dict}
use endure_subnet.Protocol.Synapses.{RejectionCode}

-- The column `rounds.state`; `opened` is the text "open".
pub data RoundState : Type 0 where
  opened revealed partially_scored closed : RoundState

-- The column `submissions.verdict`.
pub data SubmissionVerdict : Type 0 where
  committed accepted rejected : SubmissionVerdict

pub record RoundRow : Type 0 where
  pub state : RoundState
  pub universe_stale : Bool
  pub degraded : Bool
  pub commit_open_at : ℕ
  pub commit_close_at : ℕ
  pub reveal_open_at : ℕ
  pub reveal_close_at : ℕ
  pub publication_available_at : ℕ
  pub t0_close_at : ℕ
  pub created_at : ℕ
  pub updated_at : ℕ

pub record UniverseRow : Type 0 where
  pub tickers : List String
  pub source_hash : String
  pub fetched_at : ℕ

pub record SubmissionRow : Type 0 where
  pub commit_hash : Option String
  pub commit_count : ℕ
  pub reveal_count : ℕ
  pub nonce_hex : Option String
  pub committed_at : Option ℕ
  pub revealed_at : Option ℕ
  pub bundle_json : Option String
  pub verdict : SubmissionVerdict
  pub rejection_code : Option RejectionCode

pub record SnapshotRow : Type 0 where
  pub bundle_json : Option String
  pub snapshotted_at : ℕ

-- A row of `assessment_consensus`; the numbers are stored as text.
pub record ConsensusRow : Type 0 where
  pub coordinate : String
  pub value_text : String
  pub dispersion_text : String
  pub n_submitters : ℕ

abbrev pub RoundKey : Type 0
RoundKey = String × String

abbrev pub SubmissionKey : Type 0
SubmissionKey = String × String × String

pub record Storage : Type 0 where
  pub rounds : Dict RoundKey RoundRow
  pub universe_snapshots : Dict RoundKey UniverseRow
  pub submissions : Dict SubmissionKey SubmissionRow
  pub consensus_bundle_snapshots : Dict SubmissionKey SnapshotRow
  pub assessment_consensus : List (RoundKey × ConsensusRow)

abbrev pub empty : Storage
empty = record {
  rounds = [];
  universe_snapshots = [];
  submissions = [];
  consensus_bundle_snapshots = [];
  assessment_consensus = [];
}

-- `rounds.c.state == ROUND_STATE_OPEN`
abbrev pub is_opened : RoundState → Bool
is_opened opened = Bool.true
is_opened _ = Bool.false

abbrev pub is_accepted : SubmissionVerdict → Bool
is_accepted accepted = Bool.true
is_accepted _ = Bool.false

unfoldable pub SubmissionVerdict-discrete : Discrete SubmissionVerdict
SubmissionVerdict-discrete = hlevel

instance abbrev pub verdict_eq : Eq SubmissionVerdict
verdict_eq = eq_by SubmissionVerdict-discrete
