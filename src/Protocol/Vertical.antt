-- ===== src/Protocol/Vertical.antt =====
-- endure/protocol/vertical.py, `AssessmentRoundProgram.resolve_due`: the horizons of a round that are
-- due, one pass for each. The orchestrator is an argument; `assessment_scorer` is the one of
-- endure/scoring. An instant is in microseconds.
pub mod Closing
pub mod Kept
mod Examples
use endure_subnet.Prelude.{
  ℕ, suc, ◌+◌, ◌*◌, String, Bool, true, false, ◌&&◌, Option, none, some, List, [], ◌∷◌, all, leb,
  if◌then◌else◌, or_else, Result, ok, err,
}
use endure_subnet.Prelude.Eq.{nat_eq}
use endure_subnet.Prelude.Dict.{Dict, lookup}
use endure_subnet.Decimal.{Decimal}
use endure_subnet.Protocol.RoundEngine.{RoundWindows}
use endure_subnet.Storage.Tables.{Storage, RoundState, closed, partially_scored}
use endure_subnet.Storage.Consensus.{set_round_state}
use endure_subnet.Storage.Scores.{ScoreTables, has_assessment_resolution_marker}
use endure_subnet.Scoring.Orchestrator.{
  AssessmentScoringConfig, ResolutionBudget, exhausted, OrchestratorError, not_one_horizon,
  no_stored_universe, resolver_raised, unknown_output, not_scored_live, half_life_not_positive,
  empty_active_coordinates, foreign_key_failed,
}
use endure_subnet.Scoring.Orchestrator.Pass.{Scored, resolve_and_score}

pub record AssessmentRoundProgram : Type 0 where
  pub schema_id : String
  pub horizons : List ℕ
  pub due_seconds_by_horizon : Dict ℕ ℕ

-- How a pass ends: with its tables, with a deadline that is exceeded, or with an exception
pub data Outcome : Type 0 where
  scored : ScoreTables → Outcome
  deadline_reached : Outcome
  failed : String → Outcome

-- A pass for a horizon, from the tables and the next reading of the clock
abbrev pub Scorer : Type 0
Scorer = ℕ → ScoreTables → ℕ → ℕ × Outcome

-- `type(error).__name__`
abbrev pub error_name : OrchestratorError → String
error_name not_one_horizon = "ValueError"
error_name no_stored_universe = "ValueError"
error_name resolver_raised = "Exception"
error_name unknown_output = "KeyError"
error_name not_scored_live = "NotImplementedError"
error_name half_life_not_positive = "ValueError"
error_name empty_active_coordinates = "ValueError"
error_name foreign_key_failed = "IntegrityError"

abbrev pub outcome_of : ℕ × Result OrchestratorError Scored → ℕ × Outcome
outcome_of (reading, ok (scores, t)) = (reading, scored t)
outcome_of (reading, err e) = (reading, failed (error_name e))

unfoldable pub assessment_scorer :
    AssessmentScoringConfig → (ℕ → Decimal) → ℕ → String → ℕ → ResolutionBudget → Storage → Scorer
assessment_scorer config decay half_life round_id now budget s horizon t reading =
    outcome_of
      (resolve_and_score config decay half_life round_id (some horizon) now [] budget s t reading)

-- The variables of the loop, with the tables and the next reading of the clock
pub record Progress : Type 0 where
  pub all_resolved : Bool
  pub scored_this_round : Bool
  pub last_error : Option String
  pub tables : ScoreTables
  pub reading : ℕ

-- The instant up to which a horizon is not due
abbrev pub horizon_due_at : AssessmentRoundProgram → RoundWindows → ℕ → ℕ
horizon_due_at program windows horizon =
    windows.reveal_close
    + or_else (lookup horizon program.due_seconds_by_horizon) horizon * 1_000_000

abbrev pub put_off : Progress → ℕ → Progress
put_off p reading = record p { all_resolved = false; reading = reading }

module _ (program : AssessmentRoundProgram) (scorer : Scorer) (round_id : String)
    (windows : RoundWindows) (now : ℕ) (budget : ResolutionBudget) where
  abbrev pub is_marked : ℕ → ScoreTables → Bool
  is_marked horizon t = has_assessment_resolution_marker round_id program.schema_id horizon t

  -- `next` is the loop over the horizons that are left.
  abbrev pub after_pass : (Progress → Progress) → Progress → ℕ × Outcome → Progress
  after_pass next p (reading, scored t) =
      next (record p { scored_this_round = true; tables = t; reading = reading })
  after_pass next p (reading, deadline_reached) = put_off p reading
  after_pass next p (reading, failed name) =
      next (record p { all_resolved = false; last_error = some name; reading = reading })

  unfoldable pub pass_over : List ℕ → Progress → Progress
  pass_over [] p = p
  pass_over (horizon ∷ horizons) p =
      let rest = pass_over horizons in
      if is_marked horizon p.tables
      then rest p
      else if leb now (horizon_due_at program windows horizon)
      then rest (put_off p p.reading)
      else if exhausted budget p.reading
      then put_off p (suc p.reading)
      else after_pass rest p (scorer horizon p.tables (suc p.reading))

  -- The state that the round is set to at the end, if any
  abbrev pub state_after : Progress → Option RoundState
  state_after p =
      if p.all_resolved && all (λ horizon. is_marked horizon p.tables) program.horizons
      then some closed
      else if p.scored_this_round
      then some partially_scored
      else none

  abbrev pub set_state : Option RoundState → Storage → Storage
  set_state none s = s
  set_state (some state) s = set_round_state round_id program.schema_id state now s

  unfoldable pub resolve_due : Storage → ScoreTables → ℕ → Progress × Storage
  unfolding pass_over
  resolve_due s t reading =
      let p = pass_over program.horizons (record {
        all_resolved = true;
        scored_this_round = false;
        last_error = none;
        tables = t;
        reading = reading;
      }) in
      (p, set_state (state_after p) s)
