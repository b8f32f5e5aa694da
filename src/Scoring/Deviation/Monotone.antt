-- ===== src/Scoring/Deviation/Monotone.antt =====
-- assessment_orchestrator.py, `deviation_score`: its range and its order.
use native.Mathlib.Nat.{mul-le-mul_left, zero-add}
use endure_subnet.Prelude.{
  ℕ, ◌+◌, ◌-◌, ◌*◌, ◌^◌, ◌≤◌, ◌<◌, Bool, true, false, ◌&&◌, ◌≡◌, refl, arith, Bool-cases, inl, inr,
}
use endure_subnet.Prelude.Int.{ℤ, ◌-ℤ◌}
use endure_subnet.Prelude.Eq.{◌==◌, nat_eq}
use endure_subnet.Decimal.{Decimal, of_int, limit, sub, mul, div, at_most, ◌≼◌}
use endure_subnet.Decimal.Rounding.{pow_pos}
use endure_subnet.Decimal.Order.{round_ratio_pos, round_ratio_mono}
use endure_subnet.Decimal.Laws.{
  ≼_refl, ≼_trans, at_most-≼, le-round_ratio, mul_mono, sub_mono, div_mono, sub-le, one-IsShort,
  int-IsShort,
}
use endure_subnet.Scoring.Deviation.{
  ScoringSpec, DeviationMode, absolute, relative, abs, on_aggressive_side, effective_cutoff, banded,
  magnitude, rounded, is_relative, deviation_score,
}

sub_pos : (x : Decimal) (n : ℕ) → at_most x (of_int n) ≡ false → 0 < (sub x (of_int n)).coefficient
unfolding sub
sub_pos x n h =
    round_ratio_pos (x.coefficient * 10 ^ 0 - n * 10 ^ x.scale) (10 ^ (x.scale + 0))
      (ground (arith, h)) (pow_pos (x.scale + 0))

banded-le-one : (g : ℕ) (c m : Decimal) → banded g c m ≼ of_int 1
unfolding banded
banded-le-one g c m =
    ground (arith, sub-le (of_int 1) (div (sub m (of_int g)) (sub c (of_int g))) one-IsShort)

banded_inside :
    (g : ℕ) (c c' m m' : Decimal)
    → at_most m (of_int g) ≡ false
    → at_most c' (of_int g) ≡ false
    → m ≼ m'
    → c' ≼ c
    → at_most c (of_int g) ≡ false
    → sub (of_int 1) (div (sub m' (of_int g)) (sub c' (of_int g)))
      ≼ sub (of_int 1) (div (sub m (of_int g)) (sub c (of_int g)))
banded_inside g c c' m m' h k less more j =
    sub_mono (of_int 1) (div (sub m' (of_int g)) (sub c' (of_int g))) (of_int 1)
      (div (sub m (of_int g)) (sub c (of_int g))) (≼_refl (of_int 1))
      (div_mono (sub m (of_int g)) (sub c (of_int g)) (sub m' (of_int g)) (sub c' (of_int g))
        (sub_pos c g j) (sub_pos c' g k)
        (sub_mono m (of_int g) m' (of_int g) less (≼_refl (of_int g)))
        (sub_mono c' (of_int g) c (of_int g) more (≼_refl (of_int g))))

-- A comparison that fails, with its sides further apart
still_above : (x y x' y' : Decimal) → at_most x' y' ≡ false → x' ≼ x → y ≼ y' → at_most x y ≡ false
still_above x y x' y' h more less = elim (Bool-cases (at_most x y)) [
  | inl yes_it_is ↦
      absurd
        (ground (arith, h, ≼_trans x' x y' more (≼_trans x y y' (at_most-≼ x y yes_it_is) less)))
  | inr it_is_not ↦ it_is_not
]

-- A larger magnitude against a cutoff that is not greater
banded_mono :
    (g : ℕ) (c c' m m' : Decimal)
    → at_most c (of_int g) ≡ false
    → at_most c' (of_int g) ≡ false
    → m ≼ m'
    → c' ≼ c
    → banded g c' m' ≼ banded g c m
banded_mono g c c' m m' j k less more = elim (Bool-cases (at_most m (of_int g))) [
  | inl inside ↦ rw (banded_inside_grace g c m inside) (banded-le-one g c' m')
  | inr outside ↦ elim (Bool-cases (at_most c' m')) [
    | inl beyond ↦
        rw
          (banded_beyond g c' m'
            (still_above m' (of_int g) m (of_int g) outside less (≼_refl (of_int g))) beyond)
          (omega arith)
    | inr before ↦
        rw
          (
            banded_between g c' m'
                (still_above m' (of_int g) m (of_int g) outside less (≼_refl (of_int g))) before,
            banded_between g c m outside (still_above c m c' m' before more less),
          )
          (banded_inside g c c' m m' outside k less more j)
  ]
]
  where
    banded_inside_grace :
        (g : ℕ) (c m : Decimal) → at_most m (of_int g) ≡ true → banded g c m ≡ of_int 1
    banded_inside_grace g c m h = unfold banded in rw h

    banded_beyond :
        (g : ℕ) (c m : Decimal)
        → at_most m (of_int g) ≡ false
        → at_most c m ≡ true
        → banded g c m ≡ of_int 0
    banded_beyond g c m h k = unfold banded in rw (h, k)

    banded_between :
        (g : ℕ) (c m : Decimal)
        → at_most m (of_int g) ≡ false
        → at_most c m ≡ false
        → banded g c m ≡ sub (of_int 1) (div (sub m (of_int g)) (sub c (of_int g)))
    banded_between g c m h k = unfold banded in rw (h, k)

-- The cutoff on the lenient side is not below the other.
cutoff_order :
    (spec : ScoringSpec) (a b : Bool)
    → spec.cutoff < limit
    → of_int 1 ≼ spec.lenient_multiplier
    → (a ≡ true → b ≡ true)
    → effective_cutoff spec b ≼ effective_cutoff spec a
unfolding mul
cutoff_order spec true true short lenient h = ≼_refl (of_int spec.cutoff)
cutoff_order spec true false short lenient h = absurd (cc (h refl))
cutoff_order spec false false short lenient h = ≼_refl (effective_cutoff spec false)
cutoff_order spec false true short lenient h =
    le-round_ratio (spec.cutoff * spec.lenient_multiplier.coefficient)
      (10 ^ (0 + spec.lenient_multiplier.scale)) (of_int spec.cutoff)
      (pow_pos (0 + spec.lenient_multiplier.scale)) (int-IsShort spec.cutoff short)
      (rw (zero-add spec.lenient_multiplier.scale)
        (let f = mul-le-mul_left spec.cutoff lenient in omega (arith, f)))

magnitude_mono :
    (mode : DeviationMode) (d d' t : ℕ)
    → is_relative mode && t == 0 ≡ false
    → d ≤ d'
    → magnitude mode d t ≼ magnitude mode d' t
magnitude_mono absolute d d' t h less = omega (arith, less)
magnitude_mono relative d d' t h less =
    mul_mono (div (rounded d) (rounded t)) (of_int 10_000) (div (rounded d') (rounded t))
      (of_int 10_000)
      (div_mono (rounded d) (rounded t) (rounded d') (rounded t) (rounded_pos t h) (rounded_pos t h)
        (round_ratio_mono d 1 d' 1 (omega arith) (omega arith) (omega (arith, less)))
        (≼_refl (rounded t)))
      (≼_refl (of_int 10_000))
  where
    rounded_pos : (t : ℕ) → t == 0 ≡ false → 0 < (rounded t).coefficient
    rounded_pos t h = round_ratio_pos t 1 (ground (arith, h)) (omega arith)

over_cutoff :
    (spec : ScoringSpec) (a : Bool)
    → spec.grace_band < spec.cutoff
    → spec.cutoff < limit
    → of_int 1 ≼ spec.lenient_multiplier
    → at_most (effective_cutoff spec a) (of_int spec.grace_band) ≡ false
over_cutoff spec a wide short lenient =
    still_above (effective_cutoff spec a) (of_int spec.grace_band) (of_int spec.cutoff)
      (of_int spec.grace_band) (ground (arith, wide))
      (cutoff_order spec a true short lenient (λ _. refl)) (≼_refl (of_int spec.grace_band))

-- Of two forecasts for one target, the one that is nearer, and on the aggressive side only if the
-- other one is, has no lower score; and no score is above 1. The specification is one that
-- `validate_parameter_bounds` takes, with a cutoff of at most 28 digits.
pub deviation_score_mono :
    (spec : ScoringSpec) (target near far : ℤ)
    → spec.grace_band < spec.cutoff
    → spec.cutoff < limit
    → of_int 1 ≼ spec.lenient_multiplier
    → abs (near -ℤ target) ≤ abs (far -ℤ target)
    → (on_aggressive_side spec.aggressive_direction (near -ℤ target) ≡ true
        → on_aggressive_side spec.aggressive_direction (far -ℤ target) ≡ true)
    → (deviation_score far target spec ≼ deviation_score near target spec)
      × (deviation_score near target spec ≼ of_int 1)
unfolding deviation_score
deviation_score_mono spec target near far wide short lenient less sides =
    elim (Bool-cases (is_relative spec.deviation_mode && abs target == 0)) [
      | inl zero_target ↦ rw zero_target (ground (arith, less))
      | inr other ↦ rw other (
          let c =
            effective_cutoff spec (on_aggressive_side spec.aggressive_direction (near -ℤ target)) in
          let c' =
            effective_cutoff spec (on_aggressive_side spec.aggressive_direction (far -ℤ target)) in
          let m = magnitude spec.deviation_mode (abs (near -ℤ target)) (abs target) in
          let m' = magnitude spec.deviation_mode (abs (far -ℤ target)) (abs target) in
          (
            banded_mono spec.grace_band c c' m m'
                (over_cutoff spec (on_aggressive_side spec.aggressive_direction (near -ℤ target))
                  wide short lenient)
                (over_cutoff spec (on_aggressive_side spec.aggressive_direction (far -ℤ target))
                  wide short lenient)
                (magnitude_mono spec.deviation_mode (abs (near -ℤ target)) (abs (far -ℤ target))
                  (abs target) other less)
                (cutoff_order spec (on_aggressive_side spec.aggressive_direction (near -ℤ target))
                  (on_aggressive_side spec.aggressive_direction (far -ℤ target)) short lenient
                  sides),
            banded-le-one spec.grace_band c m,
          ))
    ]
