-- ===== src/Scoring/WeightProcessing.antt =====
-- endure/scoring/weight_processing.py, `convert_weights_and_uids_for_emit`: the weights of a vote as
-- the chain takes them, in 16 bits. UIDs and weights are not negative, so the checks that refuse such
-- ones are left out. A position is that in the list of UIDs.
pub mod Remainders
pub mod Bounds
pub mod Top
mod Examples
use endure_subnet.Prelude.{
  ℕ, zero, suc, ◌+◌, ◌*◌, ◌/◌, ◌^◌, Bool, true, false, not, ◌&&◌, ◌||◌, Option, none, some, List,
  [], ◌∷◌, ◌++◌, map, any, length, get_elem?, sort_by, ltb, if◌then◌else◌, or_else, Result, ok, err,
  ◌>>=◌, ◌>>◌, raise_if,
}
use endure_subnet.Prelude.Eq.{◌==◌, ◌/=◌, nat_eq}
use endure_subnet.Decimal.{Decimal, of_int, add, sub, mul, div, below}
use endure_subnet.Aggregation.Consensus.{max_decimal}

pub data EmitError : Type 0 where
  lengths_differ uids_not_distinct uid_in_two_groups : EmitError

abbrev pub u16_max_decimal : Decimal
u16_max_decimal = of_int 65_535

-- `sum(weight_list, ZERO)`
abbrev pub total_of : Decimal → List Decimal → Decimal
total_of total [] = total
total_of total (weight ∷ weights) = total_of (add total weight) weights

abbrev pub largest : Decimal → List Decimal → Decimal
largest most [] = most
largest most (weight ∷ weights) = largest (max_decimal most weight) weights

unfoldable pub scale : Decimal → Decimal → Decimal
scale max_weight weight = mul (div weight max_weight) u16_max_decimal

abbrev pub round_half_up : Decimal → ℕ
round_half_up value = (2 * value.coefficient + 10 ^ value.scale) / (2 * 10 ^ value.scale)

abbrev pub floor : Decimal → ℕ
floor value = value.coefficient / 10 ^ value.scale

unfoldable pub remainder : Decimal → Decimal
remainder value = sub value (of_int (floor value))

-- `scaled_weights[index]`
abbrev pub weight_at : List Decimal → ℕ → Decimal
weight_at scaled_weights index = or_else (get_elem? scaled_weights index) (of_int 0)

-- `units[index] = unit`
abbrev pub set_at : ℕ → ℕ → List ℕ → List ℕ
set_at index unit [] = []
set_at zero unit (x ∷ xs) = unit ∷ xs
set_at (suc index) unit (x ∷ xs) = x ∷ set_at index unit xs

module _ (scaled_weights : List Decimal) where
  abbrev pub remainder_at : ℕ → Decimal
  remainder_at index = remainder (weight_at scaled_weights index)

  -- The units that the remainders round to, summed smallest first
  abbrev pub spare_units : List ℕ → ℕ
  spare_units members =
      round_half_up (total_of (of_int 0) (sort_by (λ x y. below y x) (map remainder_at members)))

  -- The members with the largest remainder first
  abbrev pub ranked : List ℕ → List ℕ
  ranked members = sort_by (λ a b. below (remainder_at a) (remainder_at b)) members

  abbrev pub extra : ℕ → ℕ → ℕ
  extra rank spare = if ltb rank spare then 1 else 0

  unfoldable pub give_units : ℕ → ℕ → List ℕ → List ℕ → List ℕ
  give_units spare rank [] units = units
  give_units spare rank (index ∷ members) units =
      give_units spare (suc rank) members
        (set_at index (floor (weight_at scaled_weights index) + extra rank spare) units)

  unfoldable pub round_groups : List (List ℕ) → List ℕ → List ℕ
  unfolding give_units
  round_groups [] units = units
  round_groups (members ∷ groups) units =
      round_groups groups (give_units (spare_units members) 0 (ranked members) units)

-- `_group_positions`
abbrev pub is_uid_in : ℕ → List ℕ → Bool
is_uid_in uid uids = any (λ other. other == uid) uids

abbrev pub has_repetition : List ℕ → Bool
has_repetition [] = false
has_repetition (uid ∷ uids) = is_uid_in uid uids || has_repetition uids

abbrev pub position_of : ℕ → ℕ → List ℕ → Option ℕ
position_of index uid [] = none
position_of index uid (other ∷ uids) =
    let rest = position_of (suc index) uid uids in if other == uid then some index else rest

abbrev pub keep_position : Option ℕ → List ℕ → List ℕ
keep_position none positions = positions
keep_position (some index) positions = index ∷ positions

abbrev pub positions_of : List ℕ → List ℕ → List ℕ
positions_of uids [] = []
positions_of uids (uid ∷ group) = keep_position (position_of 0 uid uids) (positions_of uids group)

abbrev pub flatten : List (List ℕ) → List ℕ
flatten [] = []
flatten (group ∷ groups) = group ++ flatten groups

unfoldable pub group_positions : List ℕ → List (List ℕ) → Result EmitError (List (List ℕ))
group_positions uids [] = ok []
group_positions uids (group ∷ groups) = do
  raise_if (has_repetition uids) uids_not_distinct
  raise_if (has_repetition (flatten (group ∷ groups))) uid_in_two_groups
  ok (map (positions_of uids) (group ∷ groups))

-- The loop that leaves out the zeros
abbrev pub emitted : List ℕ → List ℕ → List ℕ × List ℕ
emitted (unit ∷ units) (uid ∷ uids) =
    let (weight_uids, weight_vals) = emitted units uids in
    if unit == 0 then (weight_uids, weight_vals) else (uid ∷ weight_uids, unit ∷ weight_vals)
emitted _ _ = ([], [])

abbrev pub scaled_by_largest : List Decimal → List Decimal
scaled_by_largest [] = []
scaled_by_largest (weight ∷ weights) = map (scale (largest weight weights)) (weight ∷ weights)

unfoldable pub convert_weights_and_uids_for_emit :
    List ℕ → List Decimal → List (List ℕ) → Result EmitError (List ℕ × List ℕ)
unfolding round_groups group_positions
convert_weights_and_uids_for_emit uids weights groups = do
  raise_if (length uids /= length weights) lengths_differ
  if (total_of (of_int 0) weights).coefficient == 0 then ok ([], []) else (do
    positions ← group_positions uids groups
    let scaled_weights = scaled_by_largest weights
    ok (emitted (round_groups scaled_weights positions (map round_half_up scaled_weights)) uids))
