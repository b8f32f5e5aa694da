-- ===== src/Scoring/Weights/Bounds.antt =====
-- weights.py, `ema_update`: its range and its order.
use native.Mathlib.Nat.{add-mul, pow-le-pow_right, mul-one, mul-le-mul_left, zero-add}
use endure_subnet.Prelude.{
  ℕ, ◌+◌, ◌-◌, ◌*◌, ◌^◌, ◌≤◌, ◌<◌, ◌≡◌, sym, ap, Option, Result, ok, err, arith, or_else,
  if◌then◌else◌,
}
use endure_subnet.Prelude.Eq.{◌==◌, nat_eq}
use endure_subnet.Decimal.{Decimal, of_int, limit, add, sub, mul, ◌≼◌}
use endure_subnet.Decimal.Rounding.{limit_pos, pow_pos, pow_add}
use endure_subnet.Decimal.Order.{IsShort, round_ratio-IsShort}
use endure_subnet.Decimal.Laws.{
  ≼_refl, ≼_trans, add_mono, mul_mono, sub_mono, round_ratio-le, le-round_ratio, one-IsShort,
  int-IsShort,
}
use endure_subnet.Scoring.Weights.{
  averaged, ema_update, IsDecay, HalfLifeError, half_life_not_positive,
}

-- 1 - decay, exactly
abbrev rest_of : Decimal → Decimal
rest_of d = record { coefficient = 10 ^ d.scale - d.coefficient; scale = d.scale }

pow_le_limit : (s : ℕ) → s ≤ 28 → 10 ^ s ≤ limit
unfolding limit
pow_le_limit s h = pow-le-pow_right {n = 10} (omega arith) h

IsShort-of : (c s : ℕ) → c < limit → IsShort (record { coefficient = c; scale = s })
IsShort-of c s h = (c, 0, h, sym (mul-one c))

rest-IsShort : (d : Decimal) → IsDecay d → IsShort (rest_of d)
rest-IsShort d (p, q, r) =
    IsShort-of (10 ^ d.scale - d.coefficient) d.scale (omega (arith, p, q, pow_le_limit d.scale r))

decay-IsShort : (d : Decimal) → IsDecay d → IsShort d
decay-IsShort d (p, q, r) =
    IsShort-of d.coefficient d.scale (omega (arith, q, pow_le_limit d.scale r))

sub-IsShort : (x y : Decimal) → IsShort (sub x y)
unfolding sub
sub-IsShort x y =
    round_ratio-IsShort (x.coefficient * 10 ^ y.scale - y.coefficient * 10 ^ x.scale)
      (10 ^ (x.scale + y.scale)) (pow_pos (x.scale + y.scale))

one_minus : (p c : ℕ) → (1 * p - c * 10 ^ 0) * p ≡ (p - c) * p
one_minus p c = ap (λ (t : ℕ). t * p) (omega arith)

alpha-le : (d : Decimal) → IsDecay d → sub (of_int 1) d ≼ rest_of d
unfolding sub
alpha-le d h =
    round_ratio-le (1 * 10 ^ d.scale - d.coefficient * 10 ^ 0) (10 ^ (0 + d.scale)) (rest_of d)
      (pow_pos (0 + d.scale)) (rest-IsShort d h)
      (rw (zero-add d.scale) (omega (arith, one_minus (10 ^ d.scale) d.coefficient)))

le-alpha : (d : Decimal) → IsDecay d → rest_of d ≼ sub (of_int 1) d
unfolding sub
le-alpha d h =
    le-round_ratio (1 * 10 ^ d.scale - d.coefficient * 10 ^ 0) (10 ^ (0 + d.scale)) (rest_of d)
      (pow_pos (0 + d.scale)) (rest-IsShort d h)
      (rw (zero-add d.scale) (omega (arith, one_minus (10 ^ d.scale) d.coefficient)))

two_minus : (p c : ℕ) → c < p → (1 * p - (p - c) * 10 ^ 0) * p ≡ c * p
two_minus p c h = ap (λ (t : ℕ). t * p) (omega (arith, h))

rest_of-back : (d : Decimal) → IsDecay d → sub (of_int 1) (rest_of d) ≼ d
unfolding sub
rest_of-back d (p, q, r) =
    round_ratio-le (1 * 10 ^ d.scale - (10 ^ d.scale - d.coefficient) * 10 ^ 0) (10 ^ (0 + d.scale))
      d (pow_pos (0 + d.scale)) (decay-IsShort d (p, q, r))
      (rw (zero-add d.scale) (omega (arith, two_minus (10 ^ d.scale) d.coefficient q)))

-- 1 - alpha is at most the decay.
beta-le : (d : Decimal) → IsDecay d → sub (of_int 1) (sub (of_int 1) d) ≼ d
beta-le d h =
    ≼_trans (sub (of_int 1) (sub (of_int 1) d)) (sub (of_int 1) (rest_of d)) d
      (sub_mono (of_int 1) (sub (of_int 1) d) (of_int 1) (rest_of d) (≼_refl (of_int 1))
        (le-alpha d h))
      (rest_of-back d h)

-- A product with a factor of at most 1
mul-le_left : (x y : Decimal) → IsShort x → y ≼ of_int 1 → mul x y ≼ x
unfolding mul
mul-le_left x y short h =
    round_ratio-le (x.coefficient * y.coefficient) (10 ^ (x.scale + y.scale)) x
      (pow_pos (x.scale + y.scale)) short
      (rw (pow_add x.scale y.scale)
        (let f = mul-le-mul_left (x.coefficient * 10 ^ x.scale) h in omega (arith, f)))

mul-le_right : (x y : Decimal) → IsShort y → x ≼ of_int 1 → mul x y ≼ y
unfolding mul
mul-le_right x y short h =
    round_ratio-le (x.coefficient * y.coefficient) (10 ^ (x.scale + y.scale)) y
      (pow_pos (x.scale + y.scale)) short
      (rw (pow_add x.scale y.scale)
        (let f = mul-le-mul_left (y.coefficient * 10 ^ y.scale) h in omega (arith, f)))

parts : (p c : ℕ) → c < p → (p - c) * p + c * p ≡ p * p
parts p c h = rw (← add-mul (p - c) c p) (ap (λ (t : ℕ). t * p) (omega (arith, h)))

whole : (d : Decimal) → IsDecay d → add (rest_of d) d ≼ of_int 1
unfolding add
whole d (p, q, r) =
    round_ratio-le ((10 ^ d.scale - d.coefficient) * 10 ^ d.scale + d.coefficient * 10 ^ d.scale)
      (10 ^ (d.scale + d.scale)) (of_int 1) (pow_pos (d.scale + d.scale)) one-IsShort
      (rw (pow_add d.scale d.scale) (omega (arith, parts (10 ^ d.scale) d.coefficient q)))

averaged-le-one :
    (d o p : Decimal) → IsDecay d → o ≼ of_int 1 → p ≼ of_int 1 → averaged d o p ≼ of_int 1
unfolding averaged
averaged-le-one d o p h small small' =
    ≼_trans (averaged d o p) (add (rest_of d) d) (of_int 1)
      (add_mono (mul (sub (of_int 1) d) o) (mul (sub (of_int 1) (sub (of_int 1) d)) p) (rest_of d) d
        (≼_trans (mul (sub (of_int 1) d) o) (sub (of_int 1) d) (rest_of d)
          (mul-le_left (sub (of_int 1) d) o (sub-IsShort (of_int 1) d) small) (alpha-le d h))
        (≼_trans (mul (sub (of_int 1) (sub (of_int 1) d)) p) (sub (of_int 1) (sub (of_int 1) d)) d
          (mul-le_left (sub (of_int 1) (sub (of_int 1) d)) p
            (sub-IsShort (of_int 1) (sub (of_int 1) d)) small')
          (beta-le d h)))
      (whole d h)

averaged_mono : (d o p o' p' : Decimal) → o ≼ o' → p ≼ p' → averaged d o p ≼ averaged d o' p'
unfolding averaged
averaged_mono d o p o' p' h k =
    let alpha = sub (of_int 1) d in
    let beta = sub (of_int 1) alpha in
    add_mono (mul alpha o) (mul beta p) (mul alpha o') (mul beta p')
      (mul_mono alpha o alpha o' (≼_refl alpha) h) (mul_mono beta p beta p' (≼_refl beta) k)

nothing-le : (x : Decimal) → mul x (of_int 0) ≼ of_int 0
unfolding mul
nothing-le x =
    round_ratio-le (x.coefficient * 0) (10 ^ (x.scale + 0)) (of_int 0) (pow_pos (x.scale + 0))
      (int-IsShort 0 limit_pos) (omega arith)

zero_plus-le : (p : Decimal) → IsShort p → add (of_int 0) p ≼ p
unfolding add
zero_plus-le p short =
    round_ratio-le (0 * 10 ^ p.scale + p.coefficient * 10 ^ 0) (10 ^ (0 + p.scale)) p
      (pow_pos (0 + p.scale)) short (rw (zero-add p.scale) (omega arith))

averaged-zero-le : (d p : Decimal) → IsDecay d → IsShort p → averaged d (of_int 0) p ≼ p
unfolding averaged
averaged-zero-le d p h short =
    let alpha = sub (of_int 1) d in
    let beta = sub (of_int 1) alpha in
    ≼_trans (add (mul alpha (of_int 0)) (mul beta p)) (add (of_int 0) p) p
      (add_mono (mul alpha (of_int 0)) (mul beta p) (of_int 0) p (nothing-le alpha)
        (mul-le_right beta p short (≼_trans beta d (of_int 1) (beta-le d h) (omega (arith, h.1)))))
      (zero_plus-le p short)

zero-le : (x : Decimal) → of_int 0 ≼ x
zero-le x = omega arith

-- With a half life of at least one round, a power of 2 below 1 with at most 28 digits after its point,
-- and a previous average of at most 28 digits and at most 1: an absent miner's average does not rise, it
-- is not above the average of any score in its place, a better score gives no lower average, and the
-- average of a score up to 1 is up to 1. A miner without an average starts from 0.
pub ema_update_bounds :
    (decay : ℕ → Decimal) (previous : Option Decimal) (worse better : Decimal) (h : ℕ)
    → 0 < h
    → IsDecay (decay h)
    → IsShort (or_else previous (of_int 0))
    → or_else previous (of_int 0) ≼ of_int 1
    → worse ≼ better
    → better ≼ of_int 1
    → (absent low high : Decimal) × (ema_update decay previous (of_int 0) h ≡ ok absent)
      × (ema_update decay previous worse h ≡ ok low)
      × (ema_update decay previous better h ≡ ok high)
      × (absent ≼ or_else previous (of_int 0))
      × (absent ≼ low)
      × (low ≼ high)
      × (high ≼ of_int 1)
unfolding ema_update
ema_update_bounds decay previous worse better h positive is_decay short small less at_most_one =
    let p = or_else previous (of_int 0) in
    let d = decay h in
    (
      averaged d (of_int 0) p,
      averaged d worse p,
      averaged d better p,
      taken h (averaged d (of_int 0) p) positive,
      taken h (averaged d worse p) positive,
      taken h (averaged d better p) positive,
      averaged-zero-le d p is_decay short,
      averaged_mono d (of_int 0) p worse p (zero-le worse) (≼_refl p),
      averaged_mono d worse p better p less (≼_refl p),
      averaged-le-one d better p is_decay at_most_one small,
    )
  where
    taken :
        (h : ℕ) (x : Decimal)
        → 0 < h
        → ◌≡◌ {A = Result HalfLifeError Decimal}
            (if h == 0 then err half_life_not_positive else ok x)
            (ok x)
    taken h x positive = ground (arith, positive)
