-- ===== src/Aggregation/Consensus.antt =====
-- endure/aggregation/consensus.py: the weighted median of the forecasts of one cell. A `Decimal` that
-- is made of an int is the int.
pub mod Median
use endure_subnet.Prelude.{
  ℕ, ◌+◌, ◌-◌, ◌/◌, String, Bool, ◌&&◌, ◌||◌, not, Option, none, some, List, [], ◌∷◌, map, length,
  if◌then◌else◌, or_else, Result, ok, err, ◌>>=◌, get_elem?,
}
use endure_subnet.Prelude.Int.{ℤ, pos, pos_part, neg_part, ◌-ℤ◌, ltb_ℤ}
use endure_subnet.Prelude.Eq.{string_eq}
use endure_subnet.Prelude.Dict.{Dict, lookup}
use endure_subnet.Decimal.{Decimal, of_int, add, div, at_most, below}

abbrev pub Sample : Type 0
Sample = ℤ × Decimal

-- Epsilon weight for miners without resolved history
abbrev pub min_consensus_weight : Decimal
min_consensus_weight = record { coefficient = 1; scale = 2 }

-- `a < b`, of tuples
abbrev pub is_less : Sample → Sample → Bool
is_less (v, w) (v', w') = ltb_ℤ v v' || not (ltb_ℤ v' v) && below w w'

unfoldable pub insert_sample : Sample → List Sample → List Sample
insert_sample x [] = x ∷ []
insert_sample x (y ∷ ys) =
    let rest = insert_sample x ys in if is_less y x then y ∷ rest else x ∷ y ∷ ys

unfoldable pub sort_samples : List Sample → List Sample
unfolding insert_sample
sort_samples [] = []
sort_samples (x ∷ xs) = insert_sample x (sort_samples xs)

-- `sum`, from a start
unfoldable pub sum_from : Decimal → List Sample → Decimal
sum_from total [] = total
sum_from total ((_, weight) ∷ xs) = sum_from (add total weight) xs

-- The loop over the ordered samples; `last` is what follows it.
unfoldable pub reach : Decimal → Decimal → List Sample → ℤ → ℤ
reach half cumulative [] last = last
reach half cumulative ((value, weight) ∷ xs) last =
    let rest = reach half (add cumulative weight) xs last in
    if at_most half (add cumulative weight) then value else rest

-- `ordered[-1][0]`
abbrev pub last_value : ℤ → List Sample → ℤ
last_value value [] = value
last_value _ ((value, _) ∷ xs) = last_value value xs

-- `ordered[(len(ordered) - 1) // 2][0]`
abbrev pub value_at : Option Sample → ℤ → ℤ
value_at none value = value
value_at (some (value, _)) _ = value

abbrev pub middle : ℤ → List Sample → ℤ
middle first ordered = value_at (get_elem? ordered ((length ordered - 1) / 2)) first

unfoldable pub median_of : Decimal → List Sample → ℤ → ℤ
unfolding reach
median_of total ordered first =
    if at_most total (of_int 0)
    then middle first ordered
    else reach (div total (of_int 2)) (of_int 0) ordered (last_value first ordered)

pub data NoSamples : Type 0 where
  no_samples : NoSamples

unfoldable pub weighted_median : List Sample → Result NoSamples ℤ
unfolding sort_samples sum_from median_of
weighted_median [] = err no_samples
weighted_median ((value, weight) ∷ values) =
    let ordered = sort_samples ((value, weight) ∷ values) in
    ok (median_of (sum_from (of_int 0) ordered) ordered value)

-- `(abs(value - median_value), weight)`
abbrev pub deviation_from : ℤ → Sample → Sample
deviation_from median (value, weight) =
    (pos (pos_part (value -ℤ median) + neg_part (value -ℤ median)), weight)

unfoldable pub weighted_mad : List Sample → ℤ → Result NoSamples ℤ
unfolding weighted_median
weighted_mad values median = weighted_median (map (deviation_from median) values)

abbrev pub max_decimal : Decimal → Decimal → Decimal
max_decimal x y = if below x y then y else x

unfoldable pub consensus_weight : Dict String Decimal → String → Decimal
consensus_weight blends hotkey =
    max_decimal (or_else (lookup hotkey blends) (of_int 0)) min_consensus_weight

unfoldable pub aggregate_cell : List Sample → Result NoSamples (ℤ × ℤ × ℕ)
unfolding weighted_median weighted_mad
aggregate_cell entries = do
  median ← weighted_median entries
  dispersion ← weighted_mad entries median
  ok (median, dispersion, length entries)
