-- ===== src/Storage/Scores/Averages.antt =====
-- repository.py, the tables of scores: the moving averages after a pass.
use endure_subnet.Prelude.{
  ℕ, String, Bool, ◌&&◌, ◌||◌, ◌≡◌, sym, ap, ◌∙◌, Option, none, if◌then◌else◌, ok, arith, inl, inr,
}
use endure_subnet.Prelude.Eq.{◌==◌, nat_eq, string_eq, pair_eq}
use endure_subnet.Prelude.Sets.{mem}
use endure_subnet.Prelude.Dict.{
  Dict, lookup, first_of, last_row, lookup-upsert_rows, lookup-erase_where, upsert_rows,
  erase_where,
}
use endure_subnet.Assessment.Coordinates.{AssessmentCoordinate, coordinate_eq}
use endure_subnet.Storage.Tables.{Storage}
use endure_subnet.Storage.Scores.{
  ScoreTables, EmaKey, ScoreStateRow, ScoringPass, score_state_row, is_archived, is_pruned,
  in_coordinates, updated_averages, write_pass, has_assessment_resolution_marker,
  record_assessment_scoring_pass,
}
use endure_subnet.Storage.Scores.Forever.{pass_cases}

two_erasures :
    (p q : Bool) (o : Option ScoreStateRow)
    → (if p then none else if q then none else o) ≡ (if p || q then none else o)
two_erasures p q o = ground arith

lookup-updated_averages :
    (schema_id : String) (now : ℕ) (pass : ScoringPass) (d : Dict EmaKey ScoreStateRow) (k : EmaKey)
    → lookup k (updated_averages schema_id now pass d) ≡ (
        if is_pruned schema_id pass.pruned_hotkeys pass.pruned_coordinates k
          || is_archived schema_id pass.horizon_value pass.archive_hotkeys k
        then none
        else first_of (last_row (score_state_row schema_id now) k pass.ema_updates) (lookup k d))
lookup-updated_averages schema_id now pass d k =
    let pruned = is_pruned schema_id pass.pruned_hotkeys pass.pruned_coordinates in
    let archived = is_archived schema_id pass.horizon_value pass.archive_hotkeys in
    let updated = upsert_rows (score_state_row schema_id now) pass.ema_updates d in
    rw
      (
        lookup-erase_where pruned k (erase_where archived updated),
        lookup-erase_where archived k updated,
        lookup-upsert_rows (score_state_row schema_id now) k pass.ema_updates d,
      )
      (two_erasures (pruned k) (archived k)
        (first_of (last_row (score_state_row schema_id now) k pass.ema_updates) (lookup k d)))

-- The moving average of a hotkey at a coordinate after a pass that returns. A pass whose horizon is
-- resolved leaves it. Else it is gone if the hotkey is pruned and the coordinate one of those given, or
-- all of them where none are given, or if the hotkey is archived and the coordinate is of the horizon,
-- both in the schema of the pass only; else it is the last one that the pass has for it, or as before.
pub record_assessment_scoring_pass-averages :
    (r c : String) (pass : ScoringPass) (now : ℕ) (s : Storage) (t : ScoreTables) {t' : ScoreTables}
    → record_assessment_scoring_pass r c pass now s t ≡ ok t'
    → (hotkey schema : String) (at : AssessmentCoordinate)
    → lookup ((hotkey, schema), at) t'.assessment_miner_score_state ≡ (
        let before = lookup ((hotkey, schema), at) t.assessment_miner_score_state in
        if has_assessment_resolution_marker r c pass.horizon_value t
        then before
        else if schema == c
            && (mem hotkey pass.pruned_hotkeys && in_coordinates pass.pruned_coordinates at
                || mem hotkey pass.archive_hotkeys && at.horizon_value == pass.horizon_value)
        then none
        else first_of
            (last_row (score_state_row c now) ((hotkey, schema), at) pass.ema_updates)
            before)
unfolding write_pass
record_assessment_scoring_pass-averages r c pass now s t {t'} e hotkey schema at =
    elim (pass_cases r c pass now s t e) [
      | inl (found, same) ↦ rw found (
          ap (λ (x : ScoreTables). lookup ((hotkey, schema), at) x.assessment_miner_score_state)
            (sym same))
      | inr (missing, written) ↦ rw missing (
          ap (λ (x : ScoreTables). lookup ((hotkey, schema), at) x.assessment_miner_score_state)
            (sym written)
          ∙ lookup-updated_averages c now pass t.assessment_miner_score_state ((hotkey, schema), at)
          ∙ ap
              (λ b.
                if b
                then none
                else first_of
                    (last_row (score_state_row c now) ((hotkey, schema), at) pass.ema_updates)
                    (lookup ((hotkey, schema), at) t.assessment_miner_score_state))
              (ground arith))
    ]
