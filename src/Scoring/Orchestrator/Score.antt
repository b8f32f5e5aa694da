-- ===== src/Scoring/Orchestrator/Score.antt =====
-- assessment_orchestrator.py, `resolve_and_score` and `_fully_decayed_hotkeys`.
use endure_subnet.Prelude.{
  ℕ, ◌+◌, ◌/◌, ◌^◌, String, Option, none, some, List, [], ◌∷◌, if◌then◌else◌, or_else, Result, ok,
  err, ◌>>=◌, is_some,
}
use endure_subnet.Prelude.Int.{ℤ, pos, ◌-ℤ◌}
use endure_subnet.Prelude.Eq.{◌==◌, string_eq, pair_eq}
use endure_subnet.Prelude.Dict.{Dict, lookup, upsert_rows}
use endure_subnet.Decimal.{Decimal, of_int}
use endure_subnet.Assessment.Coordinates.{
  AssessmentCoordinate, AssessmentOutputScore, AssessmentEmaState, AssessmentScoreHistoryRow,
  coordinate_eq,
}
use endure_subnet.Storage.Scores.{ScoringPassError}
use endure_subnet.Scoring.Deviation.{ScoringSpec, NotScoredLive, abs, score_output}
use endure_subnet.Scoring.Weights.{HalfLifeError, ema_update}
use endure_subnet.Scoring.Orchestrator.{
  AssessmentScoringConfig, ScoredOutputConfig, OrchestratorError, unknown_output, not_scored_live,
  half_life_not_positive, empty_active_coordinates, foreign_key_failed,
}

abbrev pub live_or_raise : {A : Type 0} → Result NotScoredLive A → Result OrchestratorError A
live_or_raise (ok a) = ok a
live_or_raise (err _) = err not_scored_live

abbrev pub half_life_or_raise : {A : Type 0} → Result HalfLifeError A → Result OrchestratorError A
half_life_or_raise (ok a) = ok a
half_life_or_raise (err _) = err half_life_not_positive

abbrev pub pass_error : ScoringPassError → OrchestratorError
pass_error ScoringPassError.empty_active_coordinates = empty_active_coordinates
pass_error ScoringPassError.foreign_key_failed = foreign_key_failed

abbrev pub pass_or_raise : {A : Type 0} → Result ScoringPassError A → Result OrchestratorError A
pass_or_raise (ok a) = ok a
pass_or_raise (err e) = err (pass_error e)

-- `output_by_name[...]`: the last output of the name
abbrev pub output_by_name : String → List ScoredOutputConfig → Option ScoredOutputConfig
output_by_name name [] = none
output_by_name name (output ∷ outputs) =
    let rest = output_by_name name outputs in
    if is_some rest then rest else if output.output == name then some output else none

abbrev pub output_or_raise : Option ScoredOutputConfig → Result OrchestratorError ScoredOutputConfig
output_or_raise none = err unknown_output
output_or_raise (some output) = ok output

-- `int(value)`
abbrev pub truncated : Decimal → ℤ
truncated value = pos (value.coefficient / 10 ^ value.scale)

-- The score and the error of a value that may not have been submitted
abbrev pub score_of :
    Option ℤ → ℤ → ScoringSpec → Result OrchestratorError (Decimal × Option Decimal)
score_of none target spec = ok (of_int 0, none)
score_of (some submitted) target spec = do
  score ← live_or_raise (score_output submitted target spec)
  ok (score, some (of_int (abs (submitted -ℤ target))))

abbrev pub PreviousEmas : Type 0
PreviousEmas = Dict (String × AssessmentCoordinate) AssessmentEmaState

abbrev pub previous_emas : List AssessmentEmaState → PreviousEmas
previous_emas states =
    upsert_rows (λ (state : AssessmentEmaState). ((state.miner_hotkey, state.coordinate), state))
      states []

abbrev pub ema_of : Option AssessmentEmaState → Option Decimal
ema_of none = none
ema_of (some state) = some state.ema

abbrev pub rounds_of : Option AssessmentEmaState → ℕ
rounds_of none = 0
rounds_of (some state) = state.resolved_rounds

-- What one step of the inner loop appends
pub record ScoredCell : Type 0 where
  pub output_score : AssessmentOutputScore
  pub ema_row : AssessmentEmaState
  pub history_row : AssessmentScoreHistoryRow

module _ (config : AssessmentScoringConfig) (decay : ℕ → Decimal) (half_life : ℕ) where
  unfoldable pub score_cell :
      String
      → Dict AssessmentCoordinate ℤ
      → PreviousEmas
      → AssessmentCoordinate
      → Decimal
      → Result OrchestratorError ScoredCell
  score_cell hotkey per_coordinate previous coordinate target_value = do
    output_config ← output_or_raise (output_by_name coordinate.output config.outputs)
    scored ← score_of (lookup coordinate per_coordinate) (truncated target_value) output_config.spec
    ema ←
        half_life_or_raise
          (ema_update decay (ema_of (lookup (hotkey, coordinate) previous)) scored.0 half_life)
    ok (record {
      output_score = record {
        miner_hotkey = hotkey;
        coordinate = coordinate;
        score = scored.0;
        error = scored.1;
      };
      ema_row = record {
        miner_hotkey = hotkey;
        coordinate = coordinate;
        ema = ema;
        resolved_rounds = rounds_of (lookup (hotkey, coordinate) previous) + 1;
      };
      history_row = record {
        miner_hotkey = hotkey;
        coordinate = coordinate;
        round_score = scored.0;
        ema_after = ema;
      };
    })

  unfoldable pub score_cells :
      String
      → Dict AssessmentCoordinate ℤ
      → PreviousEmas
      → List (AssessmentCoordinate × Decimal)
      → Result OrchestratorError (List ScoredCell)
  unfolding score_cell
  score_cells hotkey per_coordinate previous [] = ok []
  score_cells hotkey per_coordinate previous ((coordinate, value) ∷ resolved) = do
    cell ← score_cell hotkey per_coordinate previous coordinate value
    cells ← score_cells hotkey per_coordinate previous resolved
    ok (cell ∷ cells)

  unfoldable pub score_hotkeys :
      Dict String (Dict AssessmentCoordinate ℤ)
      → PreviousEmas
      → List (AssessmentCoordinate × Decimal)
      → List String
      → Result OrchestratorError (List (String × List ScoredCell))
  unfolding score_cells
  score_hotkeys accepted previous resolved [] = ok []
  score_hotkeys accepted previous resolved (hotkey ∷ hotkeys) = do
    cells ← score_cells hotkey (or_else (lookup hotkey accepted) []) previous resolved
    rest ← score_hotkeys accepted previous resolved hotkeys
    ok ((hotkey, cells) ∷ rest)
