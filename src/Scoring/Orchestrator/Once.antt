-- ===== src/Scoring/Orchestrator/Once.antt =====
-- assessment_orchestrator.py, `resolve_and_score`: a coordinate counts once for a round.
use endure_subnet.Prelude.{
  ℕ, suc, String, Bool, true, false, ◌≡◌, refl, sym, ap, ◌∙◌, subst, Option, none, some, List, [],
  any-sort_by, sort_by, ltb, if◌then◌else◌, Result, ok, err, bind_ok, is_some, inl, inr, ◌⊎◌, All,
}
use endure_subnet.Prelude.Eq.{◌==◌, string_eq, pair_eq, nat_eq}
use endure_subnet.Prelude.Dict.{lookup, first_of}
use endure_subnet.Prelude.Sets.{sorted, keys}
use endure_subnet.Decimal.{Decimal}
use endure_subnet.Assessment.Coordinates.{
  AssessmentCoordinate, AssessmentRealizedTarget, coordinate_eq, goes_after,
}
use endure_subnet.Storage.Tables.{Storage}
use endure_subnet.Storage.Rounds.{UniverseSnapshot, universe_for}
use endure_subnet.Storage.Scores.{
  ScoreTables, EmaKey, ScoreStateRow, ScoringPassError, has_assessment_resolution_marker,
  record_assessment_scoring_pass,
}
use endure_subnet.Storage.Scores.Writes.{
  assessment_realized_targets_for_horizon, assessment_ema_states,
  assessment_hotkeys_eligible_for_round,
}
use endure_subnet.Storage.Scores.Averages.{record_assessment_scoring_pass-averages}
use endure_subnet.Scoring.Orchestrator.{
  AssessmentScoringConfig, ResolutionBudget, exhausted, OrchestratorError, AssetOutput, cells_of,
  is_in, round_coordinates,
}
use endure_subnet.Scoring.Orchestrator.Resolve.{resolve_targets, resolved_from}
use endure_subnet.Scoring.Orchestrator.Score.{pass_or_raise, previous_emas, score_hotkeys}
use endure_subnet.Scoring.Orchestrator.Pass.{
  coordinates_in, cells_in, sorted_items, hotkeys_to_score, pass_of, horizon_or_raise, Scored,
  score_targets, score_universe, score_horizon, with_universe, resolve_and_score,
}
use endure_subnet.Scoring.Orchestrator.Fresh.{
  OutputAnswers, answers_everywhere, Avoids, resolve_targets-Avoids, has_entry-resolved_from,
}
use endure_subnet.Scoring.Orchestrator.Known.{
  score_hotkeys-touches, no_row, known_there, is_in-coordinates_in, ok_eq,
}

pub pass_or_raise_ok :
    (m : Result ScoringPassError ScoreTables) {t : ScoreTables} → pass_or_raise m ≡ ok t → m ≡ ok t
pass_or_raise_ok (ok x) e = cc
pass_or_raise_ok (err x) e = absurd (cc)

-- A row as before, or none
abbrev IsUntouched : EmaKey → ScoreTables → ScoreTables → Type 0
IsUntouched k t t' =
    (lookup k t'.assessment_miner_score_state ≡ none)
    ⊎ (lookup k t'.assessment_miner_score_state ≡ lookup k t.assessment_miner_score_state)

without_update :
    (b p : Bool) {r o x : Option ScoreStateRow}
    → x ≡ (if b then o else if p then none else first_of r o)
    → r ≡ none
    → (x ≡ none) ⊎ (x ≡ o)
without_update true p e no_update = inr e
without_update false true e no_update = inl e
without_update false false {o = o} e no_update = inr (e ∙ ap (λ r. first_of r o) no_update)

module _ (config : AssessmentScoringConfig) (decay : ℕ → Decimal) (half_life : ℕ) where
  score_targets_once :
      (round_id : String) (horizon : ℕ) (cells : List AssetOutput)
      (existing : List AssessmentCoordinate) (now : ℕ) (archive : List String) (s : Storage)
      (t : ScoreTables) (targets : List AssessmentRealizedTarget) {result : Scored}
      → score_targets config decay half_life round_id horizon cells existing now archive s t targets
        ≡ ok result
      → (c : AssessmentCoordinate) → is_in c (coordinates_in targets) ≡ false
      → (hotkey : String) → IsUntouched ((hotkey, config.schema_id), c) t result.1
  unfolding score_targets
  score_targets_once round_id horizon cells existing now archive s t targets e c fresh hotkey =
      let accepted = config.accepted_values round_id in
      let states = assessment_ema_states config.schema_id t in
      let items = sorted_items (resolved_from targets []) in
      let hotkeys = sorted (
        hotkeys_to_score config (round_coordinates config cells config.horizons) states
          (assessment_hotkeys_eligible_for_round config.schema_id round_id s) (keys accepted)) in
      let scored =
        bind_ok (score_hotkeys config decay half_life accepted (previous_emas states) items hotkeys)
          _ e in
      let pass =
        pass_of config horizon cells existing states (keys accepted) archive targets
          (cells_in scored.0) in
      let written =
        bind_ok
          (pass_or_raise (record_assessment_scoring_pass round_id config.schema_id pass now s t)) _
          scored.2 in
      let no_item =
        any-sort_by (λ ((d, _) : AssessmentCoordinate × Decimal). d == c)
          (λ a b. goes_after a.0 b.0) (resolved_from targets [])
        ∙ has_entry-resolved_from c targets [] fresh refl in
      let untouched =
        score_hotkeys-touches config decay half_life c accepted (previous_emas states) items hotkeys
          no_item scored.1 in
      subst (λ (x : Scored). IsUntouched ((hotkey, config.schema_id), c) t x.1) (ok_eq written.2)
        (without_update _ _
          (record_assessment_scoring_pass-averages round_id config.schema_id pass now s t
            (pass_or_raise_ok
              (record_assessment_scoring_pass round_id config.schema_id pass now s t) written.1)
            hotkey config.schema_id c)
          (no_row config.schema_id hotkey config.schema_id now c (cells_in scored.0) untouched))

  score_universe_once :
      (round_id : String) (now : ℕ) (archive : List String) (budget : ResolutionBudget)
      (s : Storage) (t : ScoreTables) (reading : ℕ) (universe : UniverseSnapshot)
      (c : AssessmentCoordinate) {result : Scored}
      → All (OutputAnswers config c.horizon_value) config.outputs
      → (score_universe config decay half_life round_id c.horizon_value now archive budget s t
          reading universe).1
        ≡ ok result
      → is_some (lookup ((round_id, config.schema_id), c) t.assessment_realized_targets) ≡ true
      → (hotkey : String) → IsUntouched ((hotkey, config.schema_id), c) t result.1
  unfolding score_universe assessment_realized_targets_for_horizon
  score_universe_once round_id now archive budget s t reading universe c answers e known hotkey =
      let netuids = sort_by (λ a b. ltb b a) (config.universe_members universe.tickers) in
      let cells = cells_of netuids config.outputs in
      let targets =
        assessment_realized_targets_for_horizon round_id config.schema_id c.horizon_value t in
      let existing = coordinates_in targets in
      let resolved = resolve_targets config c.horizon_value existing budget cells reading in
      let found =
        bind_ok resolved.1
          (score_targets config decay half_life round_id c.horizon_value cells existing now archive
            s t)
          e in
      let there =
        is_in-coordinates_in c targets
        ∙ known_there (round_id, config.schema_id) c t.assessment_realized_targets known in
      score_targets_once round_id c.horizon_value cells existing now archive s t found.0 found.2 c
        (subst (Avoids c) found.1 (
          resolve_targets-Avoids config c.horizon_value c existing budget cells
            (answers_everywhere config c.horizon_value netuids config.outputs answers) there
            reading))
        hotkey

  score_horizon_once :
      (round_id : String) (now : ℕ) (archive : List String) (budget : ResolutionBudget)
      (s : Storage) (t : ScoreTables) (reading : ℕ) (c : AssessmentCoordinate) {result : Scored}
      → All (OutputAnswers config c.horizon_value) config.outputs
      → (score_horizon config decay half_life round_id c.horizon_value now archive budget s t
          reading).1
        ≡ ok result
      → is_some (lookup ((round_id, config.schema_id), c) t.assessment_realized_targets) ≡ true
      → (hotkey : String) → IsUntouched ((hotkey, config.schema_id), c) t result.1
  unfolding score_horizon
  score_horizon_once round_id now archive budget s t reading c answers e known hotkey =
      cases (has_assessment_resolution_marker round_id config.schema_id c.horizon_value t)
        (exhausted budget reading) (universe_for round_id config.schema_id s) e
    where
      unchanged :
          {result : Scored}
          → ◌≡◌ {A = Result OrchestratorError Scored} (ok ([], t)) (ok result)
          → IsUntouched ((hotkey, config.schema_id), c) t result.1
      unchanged e = inr (
          ap
            (λ (x : Scored).
              lookup ((hotkey, config.schema_id), c) x.1.assessment_miner_score_state)
            (sym (ok_eq e)))

      cases :
          (marked spent : Bool) (universe : Option UniverseSnapshot) {result : Scored}
          → (if marked
              then (reading, ok ([], t))
              else if spent
              then (suc reading, ok ([], t))
              else with_universe config decay half_life
                  (score_universe config decay half_life round_id c.horizon_value now archive budget
                    s t)
                  (suc reading)
                  universe).1
            ≡ ok result
          → IsUntouched ((hotkey, config.schema_id), c) t result.1
      cases true spent universe e = unchanged e
      cases false true universe e = unchanged e
      cases false false none e = absurd (cc)
      cases false false (some universe) e =
          score_universe_once round_id now archive budget s t (suc reading) universe c answers e
            known hotkey

-- Where every resolver returns the target of the coordinate it is asked for: a coordinate that has its
-- realized target before a pass over the round and horizon that returns keeps every moving average as
-- it was, with its count of rounds, unless the pass removes that average.
pub resolve_and_score_once :
    (config : AssessmentScoringConfig) (decay : ℕ → Decimal) (half_life : ℕ) (round_id : String)
    (horizon : Option ℕ) (now : ℕ) (archive : List String) (budget : ResolutionBudget) (s : Storage)
    (t : ScoreTables) (reading : ℕ) (c : AssessmentCoordinate) {result : Scored}
    → All (OutputAnswers config c.horizon_value) config.outputs
    → (resolve_and_score config decay half_life round_id horizon now archive budget s t reading).1
      ≡ ok result
    → horizon_or_raise horizon config.horizons ≡ ok c.horizon_value
    → is_some (lookup ((round_id, config.schema_id), c) t.assessment_realized_targets) ≡ true
    → (hotkey : String)
    → (lookup ((hotkey, config.schema_id), c) result.1.assessment_miner_score_state ≡ none)
      ⊎ (lookup ((hotkey, config.schema_id), c) result.1.assessment_miner_score_state
          ≡ lookup ((hotkey, config.schema_id), c) t.assessment_miner_score_state)
unfolding resolve_and_score
resolve_and_score_once config decay half_life round_id horizon now archive budget s t reading c
      {result} answers e at known hotkey =
    score_horizon_once config decay half_life round_id now archive budget s t reading c answers
      (subst (λ m. (resolve_from m).1 ≡ ok result) at e) known hotkey
  where
    resolve_from : Result OrchestratorError ℕ → ℕ × Result OrchestratorError Scored
    resolve_from (err x) = (reading, err x)
    resolve_from (ok h) =
        score_horizon config decay half_life round_id h now archive budget s t reading
