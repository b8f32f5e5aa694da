-- ===== src/Decimal.antt =====
-- endure/scoring/context.py, `TR_CONTEXT`: the numbers of Python's `decimal` that are not negative,
-- with 28 digits and ties to even. A number is coefficient / 10 ^ scale. Two of them are equal in
-- Python where their values are. The context's least and greatest exponents are out of reach.
pub mod Rounding
pub mod Order
pub mod Laws
use endure_subnet.Prelude.{
  ℕ, zero, suc, ◌+◌, ◌-◌, ◌*◌, ◌/◌, ◌%◌, ◌^◌, ◌≤◌, Bool, ltb, leb, if◌then◌else◌,
}
use endure_subnet.Prelude.Eq.{◌==◌, nat_eq}

pub record Decimal : Type 0 where
  pub coefficient : ℕ
  pub scale : ℕ

-- `Decimal(n)`
abbrev pub of_int : ℕ → Decimal
of_int n = record { coefficient = n; scale = 0 }

-- 10 ^ 28: a coefficient of 28 digits is below it
unfoldable pub limit : ℕ
limit = 10_000_000_000_000_000_000_000_000_000

-- n / d to the nearest whole number, a tie to the even one
unfoldable pub half_even : ℕ → ℕ → ℕ
half_even n d =
    if ltb (2 * (n % d)) d
    then n / d
    else if ltb d (2 * (n % d))
    then n / d + 1
    else n / d + n / d % 2

-- How often n can be multiplied by 10 below limit * d
unfoldable pub digits_after : ℕ → ℕ → ℕ → ℕ
digits_after zero n d = 0
digits_after (suc fuel) n d =
    let more = suc (digits_after fuel (10 * n) d) in if ltb (10 * n) (limit * d) then more else 0

-- How often d has to be multiplied by 10 for n to be below limit * d
unfoldable pub digits_dropped : ℕ → ℕ → ℕ → ℕ
digits_dropped zero n d = 0
digits_dropped (suc fuel) n d =
    let more = suc (digits_dropped fuel n (10 * d)) in if ltb n (limit * d) then 0 else more

-- n / d with 28 digits
unfoldable pub round_ratio : ℕ → ℕ → Decimal
round_ratio n d =
    if n == 0
    then of_int 0
    else if ltb n (limit * d)
    then (let s = digits_after (d + 28) n d in
        record { coefficient = half_even (n * 10 ^ s) d; scale = s })
    else (let k = digits_dropped n n d in of_int (half_even n (d * 10 ^ k) * 10 ^ k))

-- The operations of the context
unfoldable pub add : Decimal → Decimal → Decimal
add x y =
    round_ratio (x.coefficient * 10 ^ y.scale + y.coefficient * 10 ^ x.scale)
      (10 ^ (x.scale + y.scale))

-- Where y is not greater than x
unfoldable pub sub : Decimal → Decimal → Decimal
sub x y =
    round_ratio (x.coefficient * 10 ^ y.scale - y.coefficient * 10 ^ x.scale)
      (10 ^ (x.scale + y.scale))

unfoldable pub mul : Decimal → Decimal → Decimal
mul x y = round_ratio (x.coefficient * y.coefficient) (10 ^ (x.scale + y.scale))

-- Where y is not zero
unfoldable pub div : Decimal → Decimal → Decimal
div x y = round_ratio (x.coefficient * 10 ^ y.scale) (y.coefficient * 10 ^ x.scale)

-- Comparisons are exact.
infix 50 ◌≼◌
abbrev pub ◌≼◌ : Decimal → Decimal → Type 0
x ≼ y = x.coefficient * 10 ^ y.scale ≤ y.coefficient * 10 ^ x.scale

abbrev pub at_most : Decimal → Decimal → Bool
at_most x y = leb (x.coefficient * 10 ^ y.scale) (y.coefficient * 10 ^ x.scale)

abbrev pub below : Decimal → Decimal → Bool
below x y = ltb (x.coefficient * 10 ^ y.scale) (y.coefficient * 10 ^ x.scale)
