-- ===== src/Scoring/Weights.antt =====
-- endure/scoring/weights.py, `ema_update`. What `decimal` has for 2 to the power -1 / h is an argument,
-- a function of h.
pub mod Bounds
use endure_subnet.Prelude.{
  ℕ, ◌≤◌, ◌<◌, ◌^◌, Option, none, some, Result, ok, err, if◌then◌else◌, or_else,
}
use endure_subnet.Prelude.Eq.{◌==◌, nat_eq}
use endure_subnet.Decimal.{Decimal, of_int, add, sub, mul}

pub data HalfLifeError : Type 0 where
  half_life_not_positive : HalfLifeError

-- alpha * observation + (1 - alpha) * previous, with alpha = 1 - decay
unfoldable pub averaged : Decimal → Decimal → Decimal → Decimal
averaged decay observation previous =
    let alpha = sub (of_int 1) decay in
    add (mul alpha observation) (mul (sub (of_int 1) alpha) previous)

unfoldable pub ema_update :
    (ℕ → Decimal) → Option Decimal → Decimal → ℕ → Result HalfLifeError Decimal
unfolding averaged
ema_update decay previous observation half_life_rounds =
    if half_life_rounds == 0
    then err half_life_not_positive
    else ok (averaged (decay half_life_rounds) observation (or_else previous (of_int 0)))

-- What `decimal` says of such a power: for an h below 10 ^ 27 it is above 0, below 1 and has at most 28
-- digits after its point.
abbrev pub IsDecay : Decimal → Type 0
IsDecay d = (0 < d.coefficient) × (d.coefficient < 10 ^ d.scale) × (d.scale ≤ 28)
