-- ===== src/Decimal/Laws.antt =====
-- TR_CONTEXT: the operations in the order of numbers.
use native.Mathlib.Nat.{
  mul-pos, mul-le-mul, mul-le-mul_right, le_of_mul-le-mul_right, mul-sub, mul_comm, mul-one,
}
use endure_subnet.Prelude.{
  ℕ, ◌+◌, ◌-◌, ◌*◌, ◌^◌, ◌≤◌, ◌<◌, ◌≡◌, sym, ap, arith, true, leb→le, le→leb,
}
use endure_subnet.Decimal.{Decimal, of_int, limit, round_ratio, add, sub, mul, div, at_most, ◌≼◌}
use endure_subnet.Decimal.Rounding.{pow_add, pow_pos}
use endure_subnet.Decimal.Order.{round_ratio_mono, round_ratio_exact, round_ratio-IsShort, IsShort}

pub ≼_refl : (x : Decimal) → x ≼ x
≼_refl x = omega arith

pub at_most-≼ : (x y : Decimal) → at_most x y ≡ true → x ≼ y
at_most-≼ x y h = leb→le (x.coefficient * 10 ^ y.scale) (y.coefficient * 10 ^ x.scale) h

pub ≼-at_most : (x y : Decimal) → x ≼ y → at_most x y ≡ true
≼-at_most x y h = le→leb (x.coefficient * 10 ^ y.scale) (y.coefficient * 10 ^ x.scale) h

trans_scaled : (a b c p q r : ℕ) → 0 < q → a * q ≤ b * p → b * r ≤ c * q → a * r ≤ c * p
trans_scaled a b c p q r pos h k =
    let f = mul-le-mul_right r h in
    let g = mul-le-mul_right p k in le_of_mul-le-mul_right {k = q} (omega (arith, f, g)) pos

pub ≼_trans : (x y z : Decimal) → x ≼ y → y ≼ z → x ≼ z
≼_trans x y z h k =
    trans_scaled x.coefficient y.coefficient z.coefficient (10 ^ x.scale) (10 ^ y.scale)
      (10 ^ z.scale) (pow_pos y.scale) h k

-- A short number is its own rounding.
pub round_self :
    (v : Decimal)
    → IsShort v
    → (round_ratio v.coefficient (10 ^ v.scale) ≼ v)
      × (v ≼ round_ratio v.coefficient (10 ^ v.scale))
round_self v short =
    let same =
      round_ratio_exact v.coefficient (10 ^ v.scale) short.0 short.1 v.scale (pow_pos v.scale)
        short.2 (ap (λ (t : ℕ). t * 10 ^ v.scale) short.3) in
    (
      omega (
        arith,
        same,
        ap (λ (t : ℕ). t * 10 ^ (round_ratio v.coefficient (10 ^ v.scale)).scale) short.3,
      ),
      omega (
        arith,
        same,
        ap (λ (t : ℕ). t * 10 ^ (round_ratio v.coefficient (10 ^ v.scale)).scale) short.3,
      ),
    )

-- Against a short number, rounding changes no comparison.
pub round_ratio-le :
    (n d : ℕ) (v : Decimal)
    → 0 < d
    → IsShort v
    → n * 10 ^ v.scale ≤ v.coefficient * d
    → round_ratio n d ≼ v
round_ratio-le n d v p short h =
    ≼_trans (round_ratio n d) (round_ratio v.coefficient (10 ^ v.scale)) v
      (round_ratio_mono n d v.coefficient (10 ^ v.scale) p (pow_pos v.scale) h)
      (round_self v short).0

pub le-round_ratio :
    (n d : ℕ) (v : Decimal)
    → 0 < d
    → IsShort v
    → v.coefficient * d ≤ n * 10 ^ v.scale
    → v ≼ round_ratio n d
le-round_ratio n d v p short h =
    ≼_trans v (round_ratio v.coefficient (10 ^ v.scale)) (round_ratio n d) (round_self v short).1
      (round_ratio_mono v.coefficient (10 ^ v.scale) n d (pow_pos v.scale) p h)

pub int-IsShort : (n : ℕ) → n < limit → IsShort (of_int n)
int-IsShort n h = (n, 0, h, sym (mul-one n))

sum_scaled :
    (a b a' b' p q p' q' : ℕ)
    → a * p' ≤ a' * p
    → b * q' ≤ b' * q
    → (a * q + b * p) * (p' * q') ≤ (a' * q' + b' * p') * (p * q)
sum_scaled a b a' b' p q p' q' h k =
    let f = mul-le-mul_right (q * q') h in
    let g = mul-le-mul_right (p * p') k in omega (arith, f, g)

pub add_mono : (x y x' y' : Decimal) → x ≼ x' → y ≼ y' → add x y ≼ add x' y'
unfolding add
add_mono x y x' y' h k =
    round_ratio_mono (x.coefficient * 10 ^ y.scale + y.coefficient * 10 ^ x.scale)
      (10 ^ (x.scale + y.scale)) (x'.coefficient * 10 ^ y'.scale + y'.coefficient * 10 ^ x'.scale)
      (10 ^ (x'.scale + y'.scale)) (pow_pos (x.scale + y.scale)) (pow_pos (x'.scale + y'.scale))
      (rw (pow_add x.scale y.scale, pow_add x'.scale y'.scale)
        (sum_scaled x.coefficient y.coefficient x'.coefficient y'.coefficient (10 ^ x.scale)
          (10 ^ y.scale) (10 ^ x'.scale) (10 ^ y'.scale) h k))

product_scaled :
    (a b a' b' p q p' q' : ℕ)
    → a * p' ≤ a' * p
    → b * q' ≤ b' * q
    → a * b * (p' * q') ≤ a' * b' * (p * q)
product_scaled a b a' b' p q p' q' h k = let f = mul-le-mul h k in omega (arith, f)

pub mul_mono : (x y x' y' : Decimal) → x ≼ x' → y ≼ y' → mul x y ≼ mul x' y'
unfolding mul
mul_mono x y x' y' h k =
    round_ratio_mono (x.coefficient * y.coefficient) (10 ^ (x.scale + y.scale))
      (x'.coefficient * y'.coefficient) (10 ^ (x'.scale + y'.scale)) (pow_pos (x.scale + y.scale))
      (pow_pos (x'.scale + y'.scale))
      (rw (pow_add x.scale y.scale, pow_add x'.scale y'.scale)
        (product_scaled x.coefficient y.coefficient x'.coefficient y'.coefficient (10 ^ x.scale)
          (10 ^ y.scale) (10 ^ x'.scale) (10 ^ y'.scale) h k))

difference_scaled :
    (a b a' b' p q p' q' : ℕ)
    → a * p' ≤ a' * p
    → b' * q ≤ b * q'
    → (a * q - b * p) * (p' * q') ≤ (a' * q' - b' * p') * (p * q)
difference_scaled a b a' b' p q p' q' h k =
    let f = mul-le-mul_right (q * q') h in
    let g = mul-le-mul_right (p * p') k in
    rw
      (
        mul_comm (a * q - b * p) (p' * q'),
        mul-sub (p' * q') (a * q) (b * p),
        mul_comm (a' * q' - b' * p') (p * q),
        mul-sub (p * q) (a' * q') (b' * p'),
      )
      (omega (arith, f, g))

pub sub_mono : (x y x' y' : Decimal) → x ≼ x' → y' ≼ y → sub x y ≼ sub x' y'
unfolding sub
sub_mono x y x' y' h k =
    round_ratio_mono (x.coefficient * 10 ^ y.scale - y.coefficient * 10 ^ x.scale)
      (10 ^ (x.scale + y.scale)) (x'.coefficient * 10 ^ y'.scale - y'.coefficient * 10 ^ x'.scale)
      (10 ^ (x'.scale + y'.scale)) (pow_pos (x.scale + y.scale)) (pow_pos (x'.scale + y'.scale))
      (rw (pow_add x.scale y.scale, pow_add x'.scale y'.scale)
        (difference_scaled x.coefficient y.coefficient x'.coefficient y'.coefficient (10 ^ x.scale)
          (10 ^ y.scale) (10 ^ x'.scale) (10 ^ y'.scale) h k))

quotient_scaled :
    (a b a' b' p q p' q' : ℕ)
    → a * p' ≤ a' * p
    → b' * q ≤ b * q'
    → a * q * (b' * p') ≤ a' * q' * (b * p)
quotient_scaled a b a' b' p q p' q' h k = let f = mul-le-mul h k in omega (arith, f)

-- A larger number by a smaller one
pub div_mono :
    (x y x' y' : Decimal)
    → 0 < y.coefficient
    → 0 < y'.coefficient
    → x ≼ x'
    → y' ≼ y
    → div x y ≼ div x' y'
unfolding div
div_mono x y x' y' p p' h k =
    round_ratio_mono (x.coefficient * 10 ^ y.scale) (y.coefficient * 10 ^ x.scale)
      (x'.coefficient * 10 ^ y'.scale) (y'.coefficient * 10 ^ x'.scale)
      (mul-pos p (pow_pos x.scale)) (mul-pos p' (pow_pos x'.scale))
      (quotient_scaled x.coefficient y.coefficient x'.coefficient y'.coefficient (10 ^ x.scale)
        (10 ^ y.scale) (10 ^ x'.scale) (10 ^ y'.scale) h k)

pub one-IsShort : IsShort (of_int 1)
unfolding limit
one-IsShort = int-IsShort 1 (omega arith)

pub div-le-one : (x y : Decimal) → 0 < y.coefficient → x ≼ y → div x y ≼ of_int 1
unfolding div
div-le-one x y p h =
    round_ratio-le (x.coefficient * 10 ^ y.scale) (y.coefficient * 10 ^ x.scale) (of_int 1)
      (mul-pos p (pow_pos x.scale)) one-IsShort (omega (arith, h))

-- A difference is not greater than what is diminished.
pub sub-le : (x y : Decimal) → IsShort x → sub x y ≼ x
unfolding sub
sub-le x y short =
    round_ratio-le (x.coefficient * 10 ^ y.scale - y.coefficient * 10 ^ x.scale)
      (10 ^ (x.scale + y.scale)) x (pow_pos (x.scale + y.scale)) short
      (rw (pow_add x.scale y.scale) (
        let f =
          mul-le-mul_right (10 ^ x.scale)
            (sub_part (x.coefficient * 10 ^ y.scale) (y.coefficient * 10 ^ x.scale)) in
        omega (arith, f)))
  where
    sub_part : (a b : ℕ) → a - b ≤ a
    sub_part a b = omega arith

pub add-IsShort : (x y : Decimal) → IsShort (add x y)
unfolding add
add-IsShort x y =
    round_ratio-IsShort (x.coefficient * 10 ^ y.scale + y.coefficient * 10 ^ x.scale)
      (10 ^ (x.scale + y.scale)) (pow_pos (x.scale + y.scale))
