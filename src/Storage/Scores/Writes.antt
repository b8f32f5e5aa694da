-- ===== src/Storage/Scores/Writes.antt =====
-- repository.py, the tables of scores: the other writes, the reads, and runs of all the writes while
-- rounds open in between.
use Prim.Native.String.{compare}
use endure_subnet.Prelude.{
  ℕ, String, Bool, true, false, not, ◌&&◌, List, [], ◌∷◌, if◌then◌else◌, is_some, Result, ok, err,
  any, insert_by,
}
use endure_subnet.Prelude.Eq.{◌==◌, nat_eq, string_eq, pair_eq, triple_eq}
use endure_subnet.Prelude.Dict.{Dict, lookup, insert, insert_rows, erase_where}
use endure_subnet.Prelude.Sets.{unique}
use endure_subnet.Assessment.Coordinates.{
  AssessmentCoordinate, AssessmentRealizedTarget, AssessmentOutputScore, AssessmentEmaState,
  AssessmentScoreHistoryRow, coordinate_eq, coordinate_order, goes_after, is_gt, then_by,
}
use endure_subnet.Storage.Tables.{
  Storage, RoundKey, SubmissionKey, SubmissionRow, RoundRow, RoundState, closed, is_accepted,
}
use endure_subnet.Storage.Scores.{
  ScoreTables, TargetKey, TargetRow, EmaKey, ScoreStateRow, ScoringPass, ScoringPassError,
  foreign_key_failed, target_row, output_score_row, score_state_row, score_history_row, is_archived,
  has_none, has_assessment_resolution_marker, record_assessment_scoring_pass,
}

-- The rows of a call refer to a round, unless there are none.
abbrev pub refers :
    Bool → String → String → Storage → ScoreTables → Result ScoringPassError ScoreTables
refers no_rows round_id schema_id s t =
    if not no_rows && not (is_some (lookup (round_id, schema_id) s.rounds))
    then err foreign_key_failed
    else ok t

unfoldable pub record_assessment_realized_targets :
    String
    → String
    → List AssessmentRealizedTarget
    → ℕ
    → Storage
    → ScoreTables
    → Result ScoringPassError ScoreTables
record_assessment_realized_targets round_id schema_id rows now_iso s t =
    refers (has_none rows) round_id schema_id s (record t {
      assessment_realized_targets =
          insert_rows (target_row (round_id, schema_id) now_iso) rows t.assessment_realized_targets;
    })

unfoldable pub record_assessment_output_scores :
    String
    → String
    → List AssessmentOutputScore
    → ℕ
    → Storage
    → ScoreTables
    → Result ScoringPassError ScoreTables
record_assessment_output_scores round_id schema_id rows now_iso s t =
    refers (has_none rows) round_id schema_id s (record t {
      assessment_output_scores =
          insert_rows (output_score_row (round_id, schema_id) now_iso) rows
            t.assessment_output_scores;
    })

unfoldable pub record_assessment_score_history :
    String
    → String
    → List AssessmentScoreHistoryRow
    → ℕ
    → Storage
    → ScoreTables
    → Result ScoringPassError ScoreTables
record_assessment_score_history round_id schema_id rows now_iso s t =
    refers (has_none rows) round_id schema_id s (record t {
      assessment_score_history =
          insert_rows (score_history_row (round_id, schema_id) now_iso) rows
            t.assessment_score_history;
    })

unfoldable pub upsert_assessment_ema : String → AssessmentEmaState → ℕ → ScoreTables → ScoreTables
upsert_assessment_ema schema_id row now_iso t = record t {
  assessment_miner_score_state =
      insert (score_state_row schema_id now_iso row).0 (score_state_row schema_id now_iso row).1
        t.assessment_miner_score_state;
}

-- Whether a row is deleted, and the tables after it
unfoldable pub archive_assessment_ema_horizon :
    String → ℕ → List String → ScoreTables → Bool × ScoreTables
archive_assessment_ema_horizon schema_id horizon_value miner_hotkeys t =
    let archived = is_archived schema_id horizon_value miner_hotkeys in
    (
      any (λ (k, _). archived k) t.assessment_miner_score_state,
      record t {
        assessment_miner_score_state = erase_where archived t.assessment_miner_score_state;
      },
    )

-- The reads, with the order of their rows
abbrev pub target_of : AssessmentCoordinate → TargetRow → AssessmentRealizedTarget
target_of coordinate row = record {
  coordinate = coordinate;
  value = row.value_text;
  status = row.status;
  provider_payload_hash = row.provider_payload_hash;
}

unfoldable pub targets_at : RoundKey → ℕ → Dict TargetKey TargetRow → List AssessmentRealizedTarget
targets_at key horizon_value [] = []
targets_at key horizon_value (((k, coordinate), row) ∷ rows) =
    let rest = targets_at key horizon_value rows in
    if k == key && coordinate.horizon_value == horizon_value
    then insert_by (λ a b. goes_after a.coordinate b.coordinate) (target_of coordinate row) rest
    else rest

unfoldable pub assessment_realized_targets_for_horizon :
    String → String → ℕ → ScoreTables → List AssessmentRealizedTarget
unfolding targets_at
assessment_realized_targets_for_horizon round_id schema_id horizon_value t =
    targets_at (round_id, schema_id) horizon_value t.assessment_realized_targets

abbrev pub average_of : String → AssessmentCoordinate → ScoreStateRow → AssessmentEmaState
average_of hotkey coordinate row = record {
  miner_hotkey = hotkey;
  coordinate = coordinate;
  ema = row.ema_text;
  resolved_rounds = row.resolved_rounds;
}

abbrev pub comes_after : AssessmentEmaState → AssessmentEmaState → Bool
comes_after a b =
    is_gt
      (then_by (compare a.miner_hotkey b.miner_hotkey) (coordinate_order a.coordinate b.coordinate))

unfoldable pub averages_in : String → Dict EmaKey ScoreStateRow → List AssessmentEmaState
averages_in schema_id [] = []
averages_in schema_id ((((hotkey, schema), coordinate), row) ∷ rows) =
    let rest = averages_in schema_id rows in
    if schema == schema_id
    then insert_by comes_after (average_of hotkey coordinate row) rest
    else rest

unfoldable pub assessment_ema_states : String → ScoreTables → List AssessmentEmaState
unfolding averages_in
assessment_ema_states schema_id t = averages_in schema_id t.assessment_miner_score_state

-- Hotkeys with an accepted reveal of the round or of one before it
abbrev pub is_eligible : String → String → SubmissionKey × SubmissionRow → Bool
is_eligible schema_id round_id ((round, schema, hotkey), row) =
    schema == schema_id && (is_accepted row.verdict && not (is_gt (compare round round_id)))

unfoldable pub eligible_in : String → String → Dict SubmissionKey SubmissionRow → List String
eligible_in schema_id round_id [] = []
eligible_in schema_id round_id (((round, schema, hotkey), row) ∷ rows) =
    let rest = eligible_in schema_id round_id rows in
    if is_eligible schema_id round_id ((round, schema, hotkey), row) then hotkey ∷ rest else rest

unfoldable pub assessment_hotkeys_eligible_for_round : String → String → Storage → List String
unfolding eligible_in
assessment_hotkeys_eligible_for_round schema_id round_id s =
    unique (eligible_in schema_id round_id s.submissions)

-- `rounds.state` of a round other than "closed", and a marker missing
abbrev pub is_closed : RoundState → Bool
is_closed closed = true
is_closed _ = false

abbrev pub lacks_marker : String → ℕ → ScoreTables → RoundKey × RoundRow → Bool
lacks_marker schema_id horizon_value t ((round_id, schema), row) =
    schema == schema_id
    && (not (is_closed row.state)
        && not (has_assessment_resolution_marker round_id schema horizon_value t))

unfoldable pub all_unfinished_assessment_rounds_have_resolution_marker :
    String → ℕ → Storage → ScoreTables → Bool
all_unfinished_assessment_rounds_have_resolution_marker schema_id horizon_value s t =
    not (any (lacks_marker schema_id horizon_value t) s.rounds)

pub data ScoreOp : Type 0 where
  pass_op : String → String → ScoringPass → ℕ → ScoreOp
  targets_op : String → String → List AssessmentRealizedTarget → ℕ → ScoreOp
  scores_op : String → String → List AssessmentOutputScore → ℕ → ScoreOp
  history_op : String → String → List AssessmentScoreHistoryRow → ℕ → ScoreOp
  ema_op : String → AssessmentEmaState → ℕ → ScoreOp
  archive_op : String → ℕ → List String → ScoreOp

abbrev pub or_unchanged : Result ScoringPassError ScoreTables → ScoreTables → ScoreTables
or_unchanged (ok t') t = t'
or_unchanged (err _) t = t

unfoldable pub apply_scores : ScoreOp → Storage → ScoreTables → ScoreTables
apply_scores (pass_op r c pass now) s t =
    or_unchanged (record_assessment_scoring_pass r c pass now s t) t
apply_scores (targets_op r c rows now) s t =
    or_unchanged (record_assessment_realized_targets r c rows now s t) t
apply_scores (scores_op r c rows now) s t =
    or_unchanged (record_assessment_output_scores r c rows now s t) t
apply_scores (history_op r c rows now) s t =
    or_unchanged (record_assessment_score_history r c rows now s t) t
apply_scores (ema_op c row now) s t = upsert_assessment_ema c row now t
apply_scores (archive_op c horizon hotkeys) s t =
    (archive_assessment_ema_horizon c horizon hotkeys t).1

-- Each write finds the rounds and submissions as they are then.
unfoldable pub run_scores : List (Storage × ScoreOp) → ScoreTables → ScoreTables
run_scores [] t = t
run_scores ((s, op) ∷ ops) t = run_scores ops (apply_scores op s t)
