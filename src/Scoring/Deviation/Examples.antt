-- ===== src/Scoring/Deviation/Examples.antt =====
-- The scores of single forecasts, at small inputs.
use endure_subnet.Prelude.{true, ◌≡◌, refl, ok, err, arith, none}
use endure_subnet.Prelude.Int.{pos, ◌-ℤ◌}
use endure_subnet.Decimal.{
  of_int, limit, ◌≼◌, mul, div, sub, round_ratio, half_even, digits_after, digits_dropped,
}
use endure_subnet.Scoring.Deviation.{
  ScoringSpec, ParameterBounds, higher, relative, deviation_score, score_output,
  validate_parameter_bounds, cutoff_in_grace_band,
}
use endure_subnet.Scoring.Deviation.Monotone.{deviation_score_mono}

abbrev spec : ScoringSpec
spec = record {
  grace_band = 100;
  cutoff = 1_100;
  aggressive_direction = higher;
  lenient_multiplier = record { coefficient = 15; scale = 1 };
  deviation_mode = relative;
  scored_live = true;
}

-- 6 % too high, of which 1 % is for free
score_high :
    score_output (pos 1_060) (pos 1_000) spec
    ≡ ok (record { coefficient = 5_000_000_000_000_000_000_000_000_000; scale = 28 })
unfolding score_output deviation_score ◌-ℤ◌ mul div sub round_ratio limit half_even digits_after
    digits_dropped
score_high = refl

-- A cutoff inside the grace band
abbrev bounds : ParameterBounds
bounds = record {
  scoring_weight_positive = true;
  grace_band = pos 100;
  cutoff = pos 100;
  lenient_multiplier_at_least_one = true;
  confidence_floor_bps = pos 0;
  max_confidence_bps = pos 0;
  min_value = pos 0;
  max_value = none;
}

bounds_refused : validate_parameter_bounds bounds ≡ err cutoff_in_grace_band
unfolding validate_parameter_bounds
bounds_refused = refl

deviation_score_mono_example :
    (deviation_score (pos 1_060) (pos 1_000) spec ≼ deviation_score (pos 970) (pos 1_000) spec)
    × (deviation_score (pos 970) (pos 1_000) spec ≼ of_int 1)
unfolding ◌-ℤ◌ limit
deviation_score_mono_example =
    deviation_score_mono spec (pos 1_000) (pos 970) (pos 1_060) (omega arith) (omega arith)
      (omega arith) (omega arith) (λ h. absurd (cc))
