-- ===== src/Storage/Scores/Examples.antt =====
-- The tables of scores at small inputs.
use endure_subnet.Prelude.{
  String, true, false, ◌&&◌, ◌||◌, ◌≡◌, refl, some, none, List, [], ◌∷◌, if◌then◌else◌, ok, err,
}
use endure_subnet.Prelude.Eq.{◌==◌, nat_eq, string_eq, pair_eq, triple_eq}
use endure_subnet.Prelude.Sets.{mem}
use endure_subnet.Prelude.Dict.{lookup, insert, insert_rows, first_of, last_row}
use endure_subnet.Decimal.{Decimal, of_int}
use endure_subnet.Assessment.Coordinates.{
  AssessmentCoordinate, subnet_asset, seconds, coordinate_eq,
}
use endure_subnet.Storage.Tables.{Storage, RoundRow, empty, revealed}
use endure_subnet.Storage.Scores.{
  ScoreTables, ScoringPass, empty_active_coordinates, foreign_key_failed, write_pass,
  record_assessment_scoring_pass, has_assessment_resolution_marker, score_state_row, in_coordinates,
}
use endure_subnet.Storage.Scores.Writes.{
  ScoreOp, archive_op, run_scores, all_unfinished_assessment_rounds_have_resolution_marker,
}
use endure_subnet.Storage.Scores.First.{IsKept, run_scores-IsKept}
use endure_subnet.Storage.Scores.Forever.{record_assessment_scoring_pass-once}
use endure_subnet.Storage.Scores.Averages.{record_assessment_scoring_pass-averages}

abbrev no_scores : ScoreTables
no_scores = record {
  assessment_realized_targets = [];
  assessment_horizon_resolutions = [];
  assessment_output_scores = [];
  assessment_miner_score_state = [];
  assessment_score_history = [];
}

abbrev revealed_round : RoundRow
revealed_round = record {
  state = revealed;
  universe_stale = false;
  degraded = false;
  commit_open_at = 0;
  commit_close_at = 1;
  reveal_open_at = 2;
  reveal_close_at = 3;
  publication_available_at = 3;
  t0_close_at = 1;
  created_at = 0;
  updated_at = 3;
}

abbrev with_round : Storage
with_round = record empty { rounds = (("day", "risk"), revealed_round) ∷ [] }

abbrev price : AssessmentCoordinate
price = record {
  target_kind = subnet_asset;
  target_id = "3";
  horizon_kind = seconds;
  horizon_value = 60;
  output = "price";
}

abbrev half : Decimal
half = record { coefficient = 5; scale = 1 }

abbrev first_pass : ScoringPass
first_pass = record {
  horizon_value = 60;
  realized_targets =
      (record {
        coordinate = price;
        value = some (of_int 7);
        status = "resolved";
        provider_payload_hash = none;
      })
      ∷ [];
  output_scores =
      (record { miner_hotkey = "miner"; coordinate = price; score = half; error = none }) ∷ [];
  ema_updates =
      (record { miner_hotkey = "miner"; coordinate = price; ema = half; resolved_rounds = 1 }) ∷ [];
  score_history =
      (record { miner_hotkey = "miner"; coordinate = price; round_score = half; ema_after = half })
      ∷ [];
  complete = true;
  archive_hotkeys = [];
  pruned_hotkeys = [];
  pruned_coordinates = none;
}

abbrev other_pass : ScoringPass
other_pass = record first_pass { ema_updates = []; pruned_coordinates = some (price ∷ []) }

abbrev after_first : ScoreTables
after_first = write_pass ("day", "risk") first_pass 9 no_scores

first_pass-writes :
    record_assessment_scoring_pass "day" "risk" first_pass 9 with_round no_scores ≡ ok after_first
unfolding record_assessment_scoring_pass lookup
first_pass-writes = refl

unknown_round :
    record_assessment_scoring_pass "other" "risk" first_pass 9 with_round no_scores
    ≡ err foreign_key_failed
unfolding record_assessment_scoring_pass lookup
unknown_round = refl

no_active_coordinates :
    record_assessment_scoring_pass "day" "risk"
      (record first_pass { pruned_coordinates = some [] })
      9
      with_round
      no_scores
    ≡ err empty_active_coordinates
unfolding record_assessment_scoring_pass
no_active_coordinates = refl

all_marked :
    all_unfinished_assessment_rounds_have_resolution_marker "risk" 60 with_round after_first ≡ true
unfolding all_unfinished_assessment_rounds_have_resolution_marker has_assessment_resolution_marker
    write_pass insert_rows lookup insert
all_marked = refl

abbrev archive_later : List (Storage × ScoreOp)
archive_later = (with_round, archive_op "risk" 60 ("miner" ∷ [])) ∷ []

record_assessment_scoring_pass-once_example :
    record_assessment_scoring_pass "day" "risk" other_pass 20 empty
      (run_scores archive_later after_first)
    ≡ ok (run_scores archive_later after_first)
record_assessment_scoring_pass-once_example =
    record_assessment_scoring_pass-once "day" "risk" first_pass other_pass 9 20 with_round empty
      no_scores archive_later refl first_pass-writes refl refl

run_scores-IsKept_example :
    IsKept
      (("day", "risk"), price)
      (("day", "risk", "miner"), price)
      (("day", "risk"), 60)
      after_first
      (run_scores archive_later after_first)
run_scores-IsKept_example =
    run_scores-IsKept archive_later after_first (("day", "risk"), price)
      (("day", "risk", "miner"), price) (("day", "risk"), 60)

record_assessment_scoring_pass-averages_example :
    lookup (("miner", "risk"), price) after_first.assessment_miner_score_state ≡ (
      let before = lookup (("miner", "risk"), price) no_scores.assessment_miner_score_state in
      if has_assessment_resolution_marker "day" "risk" 60 no_scores
      then before
      else if ◌==◌ {X = String} "risk" "risk"
          && (mem "miner" [] && in_coordinates none price
              || mem "miner" [] && price.horizon_value == 60)
      then none
      else first_of
          (last_row (score_state_row "risk" 9) (("miner", "risk"), price) first_pass.ema_updates)
          before)
record_assessment_scoring_pass-averages_example =
    record_assessment_scoring_pass-averages "day" "risk" first_pass 9 with_round no_scores
      first_pass-writes "miner" "risk" price
