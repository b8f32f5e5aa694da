-- ===== src/Scoring/Orchestrator/Pass.antt =====
-- assessment_orchestrator.py, `resolve_and_score` and `_fully_decayed_hotkeys`: one pass.
use endure_subnet.Prelude.{
  ℕ, suc, String, Bool, false, not, ◌&&◌, ◌||◌, Option, none, some, List, [], ◌∷◌, ◌++◌, map, all,
  ltb, length, if◌then◌else◌, Result, ok, err, ◌>>=◌, sort_by,
}
use endure_subnet.Prelude.Eq.{◌==◌, string_eq, pair_eq}
use endure_subnet.Prelude.Dict.{Dict, insert}
use endure_subnet.Prelude.Sets.{mem, unique, sorted, filter, keys}
use endure_subnet.Decimal.{Decimal, of_int, add, div, below}
use endure_subnet.Assessment.Coordinates.{
  AssessmentCoordinate, AssessmentRealizedTarget, AssessmentEmaState, coordinate_eq, goes_after,
}
use endure_subnet.Storage.Tables.{Storage}
use endure_subnet.Storage.Rounds.{UniverseSnapshot, universe_for}
use endure_subnet.Storage.Scores.{
  ScoreTables, ScoringPass, has_assessment_resolution_marker, record_assessment_scoring_pass,
}
use endure_subnet.Storage.Scores.Writes.{
  assessment_realized_targets_for_horizon, assessment_ema_states,
  assessment_hotkeys_eligible_for_round,
}
use endure_subnet.Aggregation.Consensus.{max_decimal}
use endure_subnet.Scoring.Orchestrator.{
  AssessmentScoringConfig, ResolutionBudget, exhausted, OrchestratorError, not_one_horizon,
  no_stored_universe, AssetOutput, cells_of, coordinates_of, round_coordinates, is_in,
  eligible_coordinate,
}
use endure_subnet.Scoring.Orchestrator.Resolve.{resolve_targets, resolved_from}
use endure_subnet.Scoring.Orchestrator.Score.{
  ScoredCell, previous_emas, pass_or_raise, score_hotkeys,
}

-- 0.01
abbrev pub archive_epsilon : Decimal
archive_epsilon = record { coefficient = 1; scale = 2 }

abbrev pub Emas : Type 0
Emas = Dict AssessmentCoordinate Decimal

-- The averages of one absent hotkey, the previous ones and then the updates
unfoldable pub post_update :
    String → (AssessmentCoordinate → Bool) → List AssessmentEmaState → Emas → Emas
post_update hotkey eligible [] emas = emas
post_update hotkey eligible (state ∷ states) emas = post_update hotkey eligible states (
    if state.miner_hotkey == hotkey && eligible state.coordinate
    then insert state.coordinate state.ema emas
    else emas)

-- `emas and max(emas.values()) < ARCHIVE_EPSILON`
abbrev pub max_of : Decimal → Emas → Decimal
max_of most [] = most
max_of most ((_, ema) ∷ emas) = max_of (max_decimal most ema) emas

abbrev pub is_decayed : Emas → Bool
is_decayed [] = false
is_decayed ((_, ema) ∷ emas) = below (max_of ema emas) archive_epsilon

unfoldable pub fully_decayed_hotkeys :
    List String
    → List AssessmentEmaState
    → List AssessmentEmaState
    → (AssessmentCoordinate → Bool)
    → List String
unfolding post_update
fully_decayed_hotkeys absent previous updates eligible =
    filter (λ hotkey. is_decayed (post_update hotkey eligible (previous ++ updates) [])) absent

abbrev pub cells_in : List (String × List ScoredCell) → List ScoredCell
cells_in [] = []
cells_in ((_, cells) ∷ scored) = cells ++ cells_in scored

-- `previously_active`
abbrev pub active_hotkeys :
    AssessmentScoringConfig → List AssessmentCoordinate → List AssessmentEmaState → List String
active_hotkeys config of_round [] = []
active_hotkeys config of_round (state ∷ states) =
    let rest = active_hotkeys config of_round states in
    if eligible_coordinate config state.coordinate || is_in state.coordinate of_round
    then state.miner_hotkey ∷ rest
    else rest

abbrev pub hotkeys_to_score :
    AssessmentScoringConfig
    → List AssessmentCoordinate
    → List AssessmentEmaState
    → List String
    → List String
    → List String
hotkeys_to_score config of_round states eligible accepted =
    unique
      (filter (λ hotkey. mem hotkey eligible) (active_hotkeys config of_round states) ++ accepted)

-- `sorted(resolved.items())`: no coordinate is there twice
abbrev pub sorted_items : Dict AssessmentCoordinate Decimal → List (AssessmentCoordinate × Decimal)
sorted_items items = sort_by (λ a b. goes_after a.0 b.0) items

abbrev pub absent_hotkeys :
    AssessmentScoringConfig → List String → List AssessmentEmaState → List String
absent_hotkeys config accepted [] = []
absent_hotkeys config accepted (row ∷ rows) =
    let rest = absent_hotkeys config accepted rows in
    if eligible_coordinate config row.coordinate && not (mem row.miner_hotkey accepted)
    then row.miner_hotkey ∷ rest
    else rest

abbrev pub coordinates_in : List AssessmentRealizedTarget → List AssessmentCoordinate
coordinates_in targets = map (λ (target : AssessmentRealizedTarget). target.coordinate) targets

-- `round_scores`: the means of the scores, for the hotkeys with any
abbrev pub sum_of : Decimal → List ScoredCell → Decimal
sum_of total [] = total
sum_of total (cell ∷ cells) = sum_of (add total cell.output_score.score) cells

abbrev pub round_scores : List (String × List ScoredCell) → Dict String Decimal
round_scores [] = []
round_scores ((hotkey, []) ∷ scored) = round_scores scored
round_scores ((hotkey, cell ∷ cells) ∷ scored) =
    (hotkey, div (sum_of (of_int 0) (cell ∷ cells)) (of_int (length (cell ∷ cells))))
    ∷ round_scores scored

-- The pass that is recorded
abbrev pub pass_of :
    AssessmentScoringConfig
    → ℕ
    → List AssetOutput
    → List AssessmentCoordinate
    → List AssessmentEmaState
    → List String
    → List String
    → List AssessmentRealizedTarget
    → List ScoredCell
    → ScoringPass
pass_of config horizon cells existing states accepted archive_hotkeys targets scored =
    let ema_updates = map (λ (cell : ScoredCell). cell.ema_row) scored in
    record {
      horizon_value = horizon;
      realized_targets = targets;
      output_scores = map (λ (cell : ScoredCell). cell.output_score) scored;
      ema_updates = ema_updates;
      score_history = map (λ (cell : ScoredCell). cell.history_row) scored;
      complete =
          all (λ c. is_in c (existing ++ coordinates_in targets))
            (coordinates_of config horizon cells);
      archive_hotkeys = archive_hotkeys;
      pruned_hotkeys = sorted (
          fully_decayed_hotkeys (unique (absent_hotkeys config accepted ema_updates)) states
            ema_updates (eligible_coordinate config));
      pruned_coordinates = config.active_coordinates;
    }

abbrev pub horizon_or_raise : Option ℕ → List ℕ → Result OrchestratorError ℕ
horizon_or_raise (some horizon) horizons = ok horizon
horizon_or_raise none (horizon ∷ []) = ok horizon
horizon_or_raise none _ = err not_one_horizon

-- The scores of the round, and the tables after the pass
abbrev pub Scored : Type 0
Scored = Dict String Decimal × ScoreTables

module _ (config : AssessmentScoringConfig) (decay : ℕ → Decimal) (half_life : ℕ) where
  -- From the targets on
  unfoldable pub score_targets :
      String
      → ℕ
      → List AssetOutput
      → List AssessmentCoordinate
      → ℕ
      → List String
      → Storage
      → ScoreTables
      → List AssessmentRealizedTarget
      → Result OrchestratorError Scored
  unfolding fully_decayed_hotkeys
  score_targets round_id horizon cells existing now_iso archive_hotkeys s t targets = do
    let accepted = config.accepted_values round_id
    let states = assessment_ema_states config.schema_id t
    let hotkeys = sorted (
        hotkeys_to_score config (round_coordinates config cells config.horizons) states
          (assessment_hotkeys_eligible_for_round config.schema_id round_id s) (keys accepted))
    scored ←
        score_hotkeys config decay half_life accepted (previous_emas states)
          (sorted_items (resolved_from targets [])) hotkeys
    t' ← pass_or_raise (
        record_assessment_scoring_pass round_id config.schema_id
          (pass_of config horizon cells existing states (keys accepted) archive_hotkeys targets
            (cells_in scored))
          now_iso s t)
    ok (round_scores scored, t')

  -- With the universe of the round
  unfoldable pub score_universe :
      String
      → ℕ
      → ℕ
      → List String
      → ResolutionBudget
      → Storage
      → ScoreTables
      → ℕ
      → UniverseSnapshot
      → ℕ × Result OrchestratorError Scored
  unfolding score_targets resolve_targets
  score_universe round_id horizon now_iso archive_hotkeys budget s t reading universe =
      let netuids = sort_by (λ a b. ltb b a) (config.universe_members universe.tickers) in
      let cells = cells_of netuids config.outputs in
      let existing =
        coordinates_in
          (assessment_realized_targets_for_horizon round_id config.schema_id horizon t) in
      let found = resolve_targets config horizon existing budget cells reading in
      (
        found.0,
        found.1 >>= score_targets round_id horizon cells existing now_iso archive_hotkeys s t,
      )

  abbrev pub with_universe :
      (ℕ → UniverseSnapshot → ℕ × Result OrchestratorError Scored)
      → ℕ
      → Option UniverseSnapshot
      → ℕ × Result OrchestratorError Scored
  with_universe score reading none = (reading, err no_stored_universe)
  with_universe score reading (some universe) = score reading universe

  unfoldable pub score_horizon :
      String
      → ℕ
      → ℕ
      → List String
      → ResolutionBudget
      → Storage
      → ScoreTables
      → ℕ
      → ℕ × Result OrchestratorError Scored
  unfolding score_universe
  score_horizon round_id horizon now_iso archive_hotkeys budget s t reading =
      if has_assessment_resolution_marker round_id config.schema_id horizon t
      then (reading, ok ([], t))
      else if exhausted budget reading
      then (suc reading, ok ([], t))
      else with_universe (score_universe round_id horizon now_iso archive_hotkeys budget s t)
          (suc reading) (universe_for round_id config.schema_id s)

  unfoldable pub resolve_and_score :
      String
      → Option ℕ
      → ℕ
      → List String
      → ResolutionBudget
      → Storage
      → ScoreTables
      → ℕ
      → ℕ × Result OrchestratorError Scored
  unfolding score_horizon
  resolve_and_score round_id horizon now_iso archive_hotkeys budget s t reading =
      elim (horizon_or_raise horizon config.horizons) [
        | err e ↦ (reading, err e)
        | ok scoring_horizon ↦
            score_horizon round_id scoring_horizon now_iso archive_hotkeys budget s t reading
      ]
