-- ===== src/Scoring/WeightProcessing/Examples.antt =====
-- A vector of three weights, two of them in a group.
use endure_subnet.Prelude.{any, not, ℕ, ◌≡◌, refl, [], ◌∷◌, ok, err, arith}
use endure_subnet.Decimal.{
  of_int, Decimal, limit, add, sub, mul, div, round_ratio, half_even, digits_after, digits_dropped,
}
use endure_subnet.Scoring.WeightProcessing.{
  total_of, scale, remainder, convert_weights_and_uids_for_emit, uid_in_two_groups,
}
use endure_subnet.Scoring.WeightProcessing.Bounds.{IsVector}
use endure_subnet.Scoring.WeightProcessing.Top.{convert_weights_and_uids_for_emit-ok}
use endure_subnet.Prelude.Eq.{◌==◌, nat_eq}

abbrev tenths : ℕ → Decimal
tenths n = record { coefficient = n; scale = 1 }

-- Two weights scale to 10922.5, and their group gives the unit that is left to its first.
three_weights :
    convert_weights_and_uids_for_emit
      (7 ∷ 8 ∷ 9 ∷ [])
      (tenths 6 ∷ tenths 1 ∷ tenths 1 ∷ [])
      ((9 ∷ 8 ∷ []) ∷ [])
    ≡ ok (7 ∷ 8 ∷ 9 ∷ [], 65_535 ∷ 10_922 ∷ 10_923 ∷ [])
unfolding convert_weights_and_uids_for_emit scale remainder add sub mul div round_ratio limit
    half_even digits_after digits_dropped
three_weights = refl

in_two_groups :
    convert_weights_and_uids_for_emit (7 ∷ []) (tenths 6 ∷ []) ((7 ∷ []) ∷ (7 ∷ []) ∷ [])
    ≡ err uid_in_two_groups
unfolding convert_weights_and_uids_for_emit add round_ratio limit half_even digits_after
    digits_dropped
in_two_groups = refl

convert_weights_and_uids_for_emit-ok_example :
    IsVector (7 ∷ 8 ∷ 9 ∷ [], 65_535 ∷ 10_922 ∷ 10_923 ∷ [])
    × (any (λ (unit : ℕ). unit == 65_535) (65_535 ∷ 10_922 ∷ 10_923 ∷ [])
        ≡ not ((total_of (of_int 0) (tenths 6 ∷ tenths 1 ∷ tenths 1 ∷ [])).coefficient == 0))
unfolding limit
convert_weights_and_uids_for_emit-ok_example =
    convert_weights_and_uids_for_emit-ok (7 ∷ 8 ∷ 9 ∷ []) (tenths 6 ∷ tenths 1 ∷ tenths 1 ∷ [])
      ((9 ∷ 8 ∷ []) ∷ []) (omega arith, tt) three_weights
