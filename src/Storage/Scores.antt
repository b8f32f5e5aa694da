-- ===== src/Storage/Scores.antt =====
-- repository.py, the tables of scores: realized targets, the scores of outputs, the moving averages,
-- their history, and the markers of the horizons that are resolved. A number that a column holds as
-- text is that number. The foreign keys on `rounds` are checked, and a call that raises is rolled back.
pub mod Writes
pub mod First
pub mod Forever
pub mod Averages
mod Examples
use endure_subnet.Prelude.{
  ℕ, ◌+◌, String, Bool, true, false, not, ◌&&◌, ◌||◌, Option, none, some, List, [], ◌∷◌,
  if◌then◌else◌, is_some, any, all, Result, ok, err, ◌>>◌, raise_if,
}
use endure_subnet.Prelude.Eq.{Eq, ◌==◌, nat_eq, string_eq, pair_eq, triple_eq}
use endure_subnet.Prelude.Dict.{Dict, lookup, insert_rows, upsert_rows, erase_where}
use endure_subnet.Prelude.Sets.{mem}
use endure_subnet.Decimal.{Decimal}
use endure_subnet.Assessment.Coordinates.{
  AssessmentCoordinate, AssessmentRealizedTarget, AssessmentOutputScore, AssessmentEmaState,
  AssessmentScoreHistoryRow, coordinate_eq,
}
use endure_subnet.Storage.Tables.{Storage, RoundKey, SubmissionKey, RoundRow, RoundState, closed}
use endure_subnet.Storage.Rounds.{round_state}

pub record TargetRow : Type 0 where
  pub value_text : Option Decimal
  pub status : String
  pub provider_payload_hash : Option String
  pub fetched_at : ℕ

pub record OutputScoreRow : Type 0 where
  pub error_text : Option Decimal
  pub score_text : Decimal
  pub scored_at : ℕ

pub record ScoreStateRow : Type 0 where
  pub ema_text : Decimal
  pub resolved_rounds : ℕ
  pub updated_at : ℕ

pub record ScoreHistoryRow : Type 0 where
  pub round_score_text : Decimal
  pub ema_after_text : Decimal
  pub scored_at : ℕ

-- The unique keys: a round with a horizon or a coordinate, a submission with a coordinate, and the
-- hotkey and schema of a moving average with its coordinate
abbrev pub HorizonKey : Type 0
HorizonKey = RoundKey × ℕ

abbrev pub TargetKey : Type 0
TargetKey = RoundKey × AssessmentCoordinate

abbrev pub ScoreKey : Type 0
ScoreKey = SubmissionKey × AssessmentCoordinate

abbrev pub EmaKey : Type 0
EmaKey = (String × String) × AssessmentCoordinate

pub record ScoreTables : Type 0 where
  pub assessment_realized_targets : Dict TargetKey TargetRow
  pub assessment_horizon_resolutions : Dict HorizonKey ℕ
  pub assessment_output_scores : Dict ScoreKey OutputScoreRow
  pub assessment_miner_score_state : Dict EmaKey ScoreStateRow
  pub assessment_score_history : Dict ScoreKey ScoreHistoryRow

abbrev pub target_row : RoundKey → ℕ → AssessmentRealizedTarget → TargetKey × TargetRow
target_row key now_iso row = (
  (key, row.coordinate),
  record {
    value_text = row.value;
    status = row.status;
    provider_payload_hash = row.provider_payload_hash;
    fetched_at = now_iso;
  },
)

abbrev pub output_score_row : RoundKey → ℕ → AssessmentOutputScore → ScoreKey × OutputScoreRow
output_score_row key now_iso row = (
  ((key.0, key.1, row.miner_hotkey), row.coordinate),
  record { error_text = row.error; score_text = row.score; scored_at = now_iso },
)

abbrev pub score_state_row : String → ℕ → AssessmentEmaState → EmaKey × ScoreStateRow
score_state_row schema_id now_iso row = (
  ((row.miner_hotkey, schema_id), row.coordinate),
  record { ema_text = row.ema; resolved_rounds = row.resolved_rounds; updated_at = now_iso },
)

abbrev pub score_history_row : RoundKey → ℕ → AssessmentScoreHistoryRow → ScoreKey × ScoreHistoryRow
score_history_row key now_iso row = (
  ((key.0, key.1, row.miner_hotkey), row.coordinate),
  record {
    round_score_text = row.round_score;
    ema_after_text = row.ema_after;
    scored_at = now_iso;
  },
)

-- The `WHERE` of the two deletions
abbrev pub is_archived : String → ℕ → List String → EmaKey → Bool
is_archived schema_id horizon_value hotkeys ((hotkey, schema), coordinate) =
    schema == schema_id && (mem hotkey hotkeys && coordinate.horizon_value == horizon_value)

abbrev pub in_coordinates : Option (List AssessmentCoordinate) → AssessmentCoordinate → Bool
in_coordinates none coordinate = true
in_coordinates (some coordinates) coordinate = any (λ c. c == coordinate) coordinates

abbrev pub is_pruned : String → List String → Option (List AssessmentCoordinate) → EmaKey → Bool
is_pruned schema_id hotkeys coordinates ((hotkey, schema), coordinate) =
    schema == schema_id && (mem hotkey hotkeys && in_coordinates coordinates coordinate)

pub record ScoringPass : Type 0 where
  pub horizon_value : ℕ
  pub realized_targets : List AssessmentRealizedTarget
  pub output_scores : List AssessmentOutputScore
  pub ema_updates : List AssessmentEmaState
  pub score_history : List AssessmentScoreHistoryRow
  pub complete : Bool
  pub archive_hotkeys : List String
  pub pruned_hotkeys : List String
  pub pruned_coordinates : Option (List AssessmentCoordinate)

pub data ScoringPassError : Type 0 where
  empty_active_coordinates foreign_key_failed : ScoringPassError

abbrev pub has_none {ℓ} : {A : Type ℓ} → List A → Bool
has_none [] = true
has_none (_ ∷ _) = false

-- `pruned_coordinates is not None and not pruned_coordinates`
abbrev pub is_empty_set : Option (List AssessmentCoordinate) → Bool
is_empty_set none = false
is_empty_set (some coordinates) = has_none coordinates

-- Whether the pass inserts a row that refers to its round
abbrev pub needs_round : ScoringPass → Bool
needs_round pass =
    not (has_none pass.realized_targets)
    || (not (has_none pass.output_scores) || (not (has_none pass.score_history) || pass.complete))

-- The moving averages of a pass
abbrev pub updated_averages :
    String → ℕ → ScoringPass → Dict EmaKey ScoreStateRow → Dict EmaKey ScoreStateRow
updated_averages schema_id now_iso pass averages =
    erase_where (is_pruned schema_id pass.pruned_hotkeys pass.pruned_coordinates) (
      erase_where (is_archived schema_id pass.horizon_value pass.archive_hotkeys)
        (upsert_rows (score_state_row schema_id now_iso) pass.ema_updates averages))

abbrev pub horizon_marker : RoundKey → ScoringPass → ℕ → List HorizonKey
horizon_marker key pass now_iso = if pass.complete then (key, pass.horizon_value) ∷ [] else []

-- The writes of a pass
unfoldable pub write_pass : RoundKey → ScoringPass → ℕ → ScoreTables → ScoreTables
write_pass key pass now_iso t = record {
  assessment_realized_targets =
      insert_rows (target_row key now_iso) pass.realized_targets t.assessment_realized_targets;
  assessment_horizon_resolutions =
      insert_rows (λ k. (k, now_iso)) (horizon_marker key pass now_iso)
        t.assessment_horizon_resolutions;
  assessment_output_scores =
      insert_rows (output_score_row key now_iso) pass.output_scores t.assessment_output_scores;
  assessment_miner_score_state = updated_averages key.1 now_iso pass t.assessment_miner_score_state;
  assessment_score_history =
      insert_rows (score_history_row key now_iso) pass.score_history t.assessment_score_history;
}

unfoldable pub has_assessment_resolution_marker : String → String → ℕ → ScoreTables → Bool
has_assessment_resolution_marker round_id schema_id horizon_value t =
    is_some (lookup ((round_id, schema_id), horizon_value) t.assessment_horizon_resolutions)

unfoldable pub record_assessment_scoring_pass :
    String → String → ScoringPass → ℕ → Storage → ScoreTables → Result ScoringPassError ScoreTables
unfolding has_assessment_resolution_marker
record_assessment_scoring_pass round_id schema_id pass now_iso s t = do
  raise_if (is_empty_set pass.pruned_coordinates) empty_active_coordinates
  if has_assessment_resolution_marker round_id schema_id pass.horizon_value t
      then ok t
      else if needs_round pass && not (is_some (lookup (round_id, schema_id) s.rounds))
      then err foreign_key_failed
      else ok (write_pass (round_id, schema_id) pass now_iso t)
