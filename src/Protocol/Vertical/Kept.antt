-- ===== src/Protocol/Vertical/Kept.antt =====
-- vertical.py, `resolve_due`, with the orchestrator of endure/scoring: what a tick leaves as it is.
use endure_subnet.Prelude.{
  ℕ, suc, String, Bool, true, false, ◌≡◌, refl, subst, Option, none, some, List, [], ◌∷◌, sort_by,
  ltb, leb, if◌then◌else◌, Result, ok, err, bind_ok,
}
use endure_subnet.Prelude.Sets.{keys, sorted}
use endure_subnet.Decimal.{Decimal}
use endure_subnet.Assessment.Coordinates.{AssessmentCoordinate, AssessmentRealizedTarget}
use endure_subnet.Protocol.RoundEngine.{RoundWindows}
use endure_subnet.Storage.Tables.{Storage}
use endure_subnet.Storage.Rounds.{UniverseSnapshot, universe_for}
use endure_subnet.Storage.Scores.{
  ScoreTables, TargetKey, ScoreKey, HorizonKey, has_assessment_resolution_marker,
  record_assessment_scoring_pass,
}
use endure_subnet.Storage.Scores.Writes.{
  assessment_realized_targets_for_horizon, assessment_ema_states,
  assessment_hotkeys_eligible_for_round, or_unchanged,
}
use endure_subnet.Storage.Scores.First.{IsKept, IsKept-refl, IsKept-trans, pass-IsKept}
use endure_subnet.Scoring.Orchestrator.{
  AssessmentScoringConfig, ResolutionBudget, exhausted, OrchestratorError, AssetOutput, cells_of,
  round_coordinates,
}
use endure_subnet.Scoring.Orchestrator.Resolve.{resolve_targets, resolved_from}
use endure_subnet.Scoring.Orchestrator.Score.{pass_or_raise, previous_emas, score_hotkeys}
use endure_subnet.Scoring.Orchestrator.Pass.{
  coordinates_in, cells_in, sorted_items, hotkeys_to_score, pass_of, Scored, score_targets,
  score_universe, score_horizon, with_universe, resolve_and_score,
}
use endure_subnet.Scoring.Orchestrator.Known.{ok_eq}
use endure_subnet.Scoring.Orchestrator.Once.{pass_or_raise_ok}
use endure_subnet.Protocol.Vertical.{
  AssessmentRoundProgram, Outcome, scored, deadline_reached, failed, Scorer, Progress,
  horizon_due_at, put_off, is_marked, after_pass, pass_over, outcome_of, assessment_scorer,
  resolve_due,
}

module _ (target : TargetKey) (score : ScoreKey) (marker : HorizonKey) where
  abbrev KeptBy : ScoreTables → Outcome → Type 0
  KeptBy t (scored t') = IsKept target score marker t t'
  KeptBy t _ = Unit

  module _ (config : AssessmentScoringConfig) (decay : ℕ → Decimal) (half_life : ℕ)
      (round_id : String) (now : ℕ) (budget : ResolutionBudget) (s : Storage) where
    score_targets-IsKept :
        (horizon : ℕ) (cells : List AssetOutput) (existing : List AssessmentCoordinate)
        (t : ScoreTables) (targets : List AssessmentRealizedTarget) {result : Scored}
        → score_targets config decay half_life round_id horizon cells existing now [] s t targets
          ≡ ok result
        → IsKept target score marker t result.1
    unfolding score_targets
    score_targets-IsKept horizon cells existing t targets e =
        let accepted = config.accepted_values round_id in
        let states = assessment_ema_states config.schema_id t in
        let hotkeys = sorted (
          hotkeys_to_score config (round_coordinates config cells config.horizons) states
            (assessment_hotkeys_eligible_for_round config.schema_id round_id s) (keys accepted)) in
        let found =
          bind_ok
            (score_hotkeys config decay half_life accepted (previous_emas states)
              (sorted_items (resolved_from targets [])) hotkeys)
            _ e in
        let pass =
          pass_of config horizon cells existing states (keys accepted) [] targets
            (cells_in found.0) in
        let written =
          bind_ok
            (pass_or_raise (record_assessment_scoring_pass round_id config.schema_id pass now s t))
            _ found.2 in
        subst (λ (x : Scored). IsKept target score marker t x.1) (ok_eq written.2)
          (subst (λ m. IsKept target score marker t (or_unchanged m t))
            (pass_or_raise_ok
              (record_assessment_scoring_pass round_id config.schema_id pass now s t) written.1)
            (pass-IsKept target score marker round_id config.schema_id pass now s t))

    outcome-KeptBy :
        (t : ScoreTables) (m : ℕ × Result OrchestratorError Scored)
        → ((result : Scored) → m.1 ≡ ok result → IsKept target score marker t result.1)
        → KeptBy t (outcome_of m).1
    outcome-KeptBy t (reading, ok result) h = h result refl
    outcome-KeptBy t (reading, err e) h = tt

    score_horizon-IsKept :
        (horizon : ℕ) (t : ScoreTables) (reading : ℕ) (result : Scored)
        → (score_horizon config decay half_life round_id horizon now [] budget s t reading).1
          ≡ ok result
        → IsKept target score marker t result.1
    unfolding score_horizon score_universe
    score_horizon-IsKept horizon t reading result e =
        cases (has_assessment_resolution_marker round_id config.schema_id horizon t)
          (exhausted budget reading) (universe_for round_id config.schema_id s) e
      where
        unchanged :
            ◌≡◌ {A = Result OrchestratorError Scored} (ok ([], t)) (ok result)
            → IsKept target score marker t result.1
        unchanged e =
            subst (λ (x : Scored). IsKept target score marker t x.1) (ok_eq e)
              (IsKept-refl target score marker t)

        cases :
            (marked spent : Bool) (universe : Option UniverseSnapshot)
            → (if marked
                then (reading, ok ([], t))
                else if spent
                then (suc reading, ok ([], t))
                else with_universe config decay half_life
                    (score_universe config decay half_life round_id horizon now [] budget s t)
                    (suc reading)
                    universe).1
              ≡ ok result
            → IsKept target score marker t result.1
        cases true spent universe e = unchanged e
        cases false true universe e = unchanged e
        cases false false none e = absurd (cc)
        cases false false (some universe) e =
            let cells =
              cells_of (sort_by (λ a b. ltb b a) (config.universe_members universe.tickers))
                config.outputs in
            let existing =
              coordinates_in
                (assessment_realized_targets_for_horizon round_id config.schema_id horizon t) in
            let found =
              bind_ok (resolve_targets config horizon existing budget cells (suc reading)).1
                (score_targets config decay half_life round_id horizon cells existing now [] s t)
                e in
            score_targets-IsKept horizon cells existing t found.0 found.2

    assessment_scorer-KeptBy :
        (horizon : ℕ) (t : ScoreTables) (reading : ℕ)
        → KeptBy t
            (assessment_scorer config decay half_life round_id now budget s horizon t reading).1
    unfolding assessment_scorer resolve_and_score
    assessment_scorer-KeptBy horizon t reading =
        outcome-KeptBy t
          (score_horizon config decay half_life round_id horizon now [] budget s t reading)
          (score_horizon-IsKept horizon t reading)

  module _ (program : AssessmentRoundProgram) (scorer : Scorer) (r : String)
      (windows : RoundWindows) (now : ℕ) (budget : ResolutionBudget)
      (keeps : (h : ℕ) (t : ScoreTables) (n : ℕ) → KeptBy t (scorer h t n).1) where
    pass_over-IsKept :
        (hs : List ℕ) (p : Progress)
        → IsKept target score marker p.tables
            (pass_over program scorer r windows now budget hs p).tables
    unfolding pass_over
    pass_over-IsKept [] p = IsKept-refl target score marker p.tables
    pass_over-IsKept (h ∷ hs) p =
        kept_if (is_marked program scorer r windows now budget h p.tables) p.tables _ _
          (pass_over-IsKept hs p)
          (kept_if (leb now (horizon_due_at program windows h)) p.tables _ _
            (pass_over-IsKept hs (put_off p p.reading))
            (kept_if (exhausted budget p.reading) p.tables _ _
              (IsKept-refl target score marker p.tables)
              (after p (scorer h p.tables (suc p.reading))
                (pass_over program scorer r windows now budget hs)
                (keeps h p.tables (suc p.reading)) (λ q. pass_over-IsKept hs q))))
      where
        kept_if :
            (b : Bool) (t : ScoreTables) (x y : Progress)
            → IsKept target score marker t x.tables
            → IsKept target score marker t y.tables
            → IsKept target score marker t (if b then x else y).tables
        kept_if true t x y h k = h
        kept_if false t x y h k = k

        after :
            (p : Progress) (out : ℕ × Outcome) (next : Progress → Progress)
            → KeptBy p.tables out.1
            → ((q : Progress) → IsKept target score marker q.tables (next q).tables)
            → IsKept target score marker p.tables
                (after_pass program scorer r windows now budget next p out).tables
        after p (reading, scored t') next k again =
            let q : Progress = record p {
              scored_this_round = true;
              tables = t';
              reading = reading;
            } in
            IsKept-trans target score marker p.tables t' (next q).tables k (again q)
        after p (reading, deadline_reached) next k again = IsKept-refl target score marker p.tables
        after p (reading, failed name) next k again =
            again (record p { all_resolved = false; last_error = some name; reading = reading })

-- A tick over a round leaves every realized target, score, row of the history and marker that is there
-- as it is, whatever is due, scored, put off or failing in it.
pub resolve_due-IsKept :
    (program : AssessmentRoundProgram) (config : AssessmentScoringConfig) (decay : ℕ → Decimal)
    (half_life : ℕ) (r : String) (windows : RoundWindows) (now : ℕ) (budget : ResolutionBudget)
    (s : Storage) (t : ScoreTables) (reading : ℕ) (target : TargetKey) (score : ScoreKey)
    (marker : HorizonKey)
    → IsKept target score marker t
        (resolve_due program
          (assessment_scorer config decay half_life r now budget s)
          r
          windows
          now
          budget
          s
          t
          reading).0.tables
unfolding resolve_due
resolve_due-IsKept program config decay half_life r windows now budget s t reading target score
      marker =
    pass_over-IsKept target score marker program
      (assessment_scorer config decay half_life r now budget s) r windows now budget
      (assessment_scorer-KeptBy target score marker config decay half_life r now budget s)
      program.horizons _
