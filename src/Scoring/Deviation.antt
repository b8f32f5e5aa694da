-- ===== src/Scoring/Deviation.antt =====
-- endure/scoring/assessment_orchestrator.py, `deviation_score`, with the bands of
-- endure/assessment/schemas/wire.py: how far a forecast may be from what came true.
pub mod Monotone
mod Examples
use endure_subnet.Prelude.{
  ℕ, ◌+◌, Bool, true, false, ◌&&◌, ◌||◌, not, Option, none, some, ltb, leb, if◌then◌else◌, Result,
  ok, err, ◌>>◌, raise_if,
}
use endure_subnet.Prelude.Int.{ℤ, pos, negsuc, pos_part, neg_part, ◌-ℤ◌, ltb_ℤ}
use endure_subnet.Prelude.Eq.{◌==◌, nat_eq}
use endure_subnet.Decimal.{Decimal, of_int, sub, mul, div, round_ratio, at_most}

pub data AggressiveDirection : Type 0 where
  higher lower : AggressiveDirection

pub data DeviationMode : Type 0 where
  absolute relative : DeviationMode

pub record ScoringSpec : Type 0 where
  pub grace_band : ℕ
  pub cutoff : ℕ
  pub aggressive_direction : AggressiveDirection
  pub lenient_multiplier : Decimal
  pub deviation_mode : DeviationMode
  pub scored_live : Bool

-- `abs`, of an int
abbrev pub abs : ℤ → ℕ
abs n = pos_part n + neg_part n

abbrev pub on_aggressive_side : AggressiveDirection → ℤ → Bool
on_aggressive_side higher deviation = ltb_ℤ (pos 0) deviation
on_aggressive_side lower deviation = ltb_ℤ deviation (pos 0)

abbrev pub effective_cutoff : ScoringSpec → Bool → Decimal
effective_cutoff spec true = of_int spec.cutoff
effective_cutoff spec false = mul (of_int spec.cutoff) spec.lenient_multiplier

-- The last three returns, from the magnitude and the cutoff
unfoldable pub banded : ℕ → Decimal → Decimal → Decimal
banded grace_band cutoff magnitude =
    if at_most magnitude (of_int grace_band)
    then of_int 1
    else if at_most cutoff magnitude
    then of_int 0
    else sub (of_int 1) (div (sub magnitude (of_int grace_band)) (sub cutoff (of_int grace_band)))

-- `abs(Decimal(n))`, which the context rounds
abbrev pub rounded : ℕ → Decimal
rounded n = round_ratio n 1

abbrev pub magnitude : DeviationMode → ℕ → ℕ → Decimal
magnitude relative deviation target = mul (div (rounded deviation) (rounded target)) (of_int 10_000)
magnitude absolute deviation target = of_int deviation

abbrev pub is_relative : DeviationMode → Bool
is_relative relative = true
is_relative absolute = false

unfoldable pub deviation_score : ℤ → ℤ → ScoringSpec → Decimal
unfolding banded
deviation_score submitted target spec =
    let deviation = submitted -ℤ target in
    if is_relative spec.deviation_mode && abs target == 0
    then (if abs deviation == 0 then of_int 1 else of_int 0)
    else banded spec.grace_band
        (effective_cutoff spec (on_aggressive_side spec.aggressive_direction deviation))
        (magnitude spec.deviation_mode (abs deviation) (abs target))

pub data NotScoredLive : Type 0 where
  not_scored_live : NotScoredLive

unfoldable pub score_output : ℤ → ℤ → ScoringSpec → Result NotScoredLive Decimal
score_output submitted target spec =
    if spec.scored_live then ok (deviation_score submitted target spec) else err not_scored_live

pub record ParameterBounds : Type 0 where
  pub scoring_weight_positive : Bool
  pub grace_band : ℤ
  pub cutoff : ℤ
  pub lenient_multiplier_at_least_one : Bool
  pub confidence_floor_bps : ℤ
  pub max_confidence_bps : ℤ
  pub min_value : ℤ
  pub max_value : Option ℤ

pub data BoundsError : Type 0 where
  weight_not_positive negative_grace_band cutoff_in_grace_band : BoundsError
  multiplier_below_one confidence_floor_outside negative_min_value : BoundsError
  max_below_min : BoundsError

abbrev pub is_below : Option ℤ → ℤ → Bool
is_below none bound = false
is_below (some value) bound = ltb_ℤ value bound

unfoldable pub validate_parameter_bounds : ParameterBounds → Result BoundsError Unit
validate_parameter_bounds bounds = do
  raise_if (not bounds.scoring_weight_positive) weight_not_positive
  raise_if (ltb_ℤ bounds.grace_band (pos 0)) negative_grace_band
  raise_if (not (ltb_ℤ bounds.grace_band bounds.cutoff)) cutoff_in_grace_band
  raise_if (not bounds.lenient_multiplier_at_least_one) multiplier_below_one
  raise_if
      (ltb_ℤ bounds.confidence_floor_bps (pos 0)
        || ltb_ℤ bounds.max_confidence_bps bounds.confidence_floor_bps)
      confidence_floor_outside
  raise_if (ltb_ℤ bounds.min_value (pos 0)) negative_min_value
  raise_if (is_below bounds.max_value bounds.min_value) max_below_min
