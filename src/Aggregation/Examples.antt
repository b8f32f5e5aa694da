-- ===== src/Aggregation/Examples.antt =====
-- The consensus of a round at small inputs.
use endure_subnet.Prelude.{ℕ, String, ◌≡◌, refl, List, [], ◌∷◌, ok}
use mathlib.Core.List.{Perm}
use endure_subnet.Prelude.Int.{pos, ◌-ℤ◌}
use endure_subnet.Prelude.Dict.{insert, lookup}
use endure_subnet.Decimal.{Decimal, of_int, div, add, round_ratio, limit, half_even, digits_after}
use endure_subnet.Assessment.Coordinates.{
  subnet_coordinate, AssessmentCoordinate, subnet_asset, seconds, str, AssessmentConsensusRow,
  TargetKind-discrete, HorizonKind-discrete,
}
use endure_subnet.Aggregation.Consensus.{
  Sample, sort_samples, sum_from, weighted_median, aggregate_cell, consensus_weight,
}
use endure_subnet.Aggregation.Consensus.Median.{IsOrdered, IsReachedAt, weighted_median-ok}
use endure_subnet.Aggregation.AssessmentConsensus.{
  AssessmentBundle, compute_assessment_consensus, sort_bundles,
}
use endure_subnet.Aggregation.AssessmentConsensus.Cells.{samples_for}
use endure_subnet.Aggregation.AssessmentConsensus.Rows.{
  IsConsensus, find_row, compute_assessment_consensus-rows,
}

abbrev tenths : ℕ → Decimal
tenths n = record { coefficient = n; scale = 1 }

abbrev three_samples : List Sample
three_samples = (pos 500, tenths 2) ∷ (pos 100, tenths 3) ∷ (pos 300, tenths 4) ∷ []

weighted_median-three_samples : weighted_median three_samples ≡ ok (pos 300)
unfolding weighted_median add round_ratio limit half_even digits_after div
weighted_median-three_samples = refl

weighted_median-ok_example :
    Perm (sort_samples three_samples) three_samples
    × IsOrdered (sort_samples three_samples)
    × IsReachedAt
        (div (sum_from (of_int 0) (sort_samples three_samples)) (of_int 2))
        (of_int 0)
        (sort_samples three_samples)
        (pos 300)
unfolding add round_ratio limit half_even digits_after
weighted_median-ok_example =
    weighted_median-ok three_samples (pos 300) weighted_median-three_samples
      (unfold sort_samples sum_from in refl)

abbrev two_bundles : List (String × AssessmentBundle)
two_bundles =
    (
      "second",
      record {
        netuid = pos 3;
        outputs = record { horizon_seconds = 60; output = "price"; value = pos 20 } ∷ [];
      }
          ∷ [],
    )
    ∷ (
      "first",
      record {
        netuid = pos 3;
        outputs = record { horizon_seconds = 60; output = "price"; value = pos 10 } ∷ [];
      }
          ∷ [],
    )
    ∷ []

abbrev price : AssessmentCoordinate
price = record {
  target_kind = subnet_asset;
  target_id = "3";
  horizon_kind = seconds;
  horizon_value = 60;
  output = "price";
}

abbrev price_row : AssessmentConsensusRow
price_row = record { coordinate = price; value = pos 20; dispersion = pos 0; n_submitters = 2 }

two_bundles-rows :
    compute_assessment_consensus two_bundles (("second", tenths 9) ∷ []) ≡ ok (price_row ∷ [])
unfolding compute_assessment_consensus subnet_coordinate str insert TargetKind-discrete
    HorizonKind-discrete aggregate_cell lookup ◌-ℤ◌ add round_ratio consensus_weight limit half_even
    digits_after div
two_bundles-rows = refl

compute_assessment_consensus-rows_example :
    IsConsensus
      (samples_for price (("second", tenths 9) ∷ []) (sort_bundles two_bundles))
      (find_row price (price_row ∷ []))
compute_assessment_consensus-rows_example =
    compute_assessment_consensus-rows two_bundles (("second", tenths 9) ∷ []) two_bundles-rows price
