-- ===== src/Scoring/WeightProcessing/Remainders.antt =====
-- weight_processing.py: scaled weights, their remainders and the rounding of both.
use native.Mathlib.Nat.{
  add-zero, div-le_of_le-mul, div-lt_iff_lt-mul, lt-mul-div-succ, mul-pos, mul-le-mul_right,
}
use endure_subnet.Prelude.{
  true_ne_false, ℕ, ◌+◌, ◌-◌, ◌*◌, ◌/◌, ◌^◌, ◌≤◌, ◌<◌, Bool, true, false, ◌≡◌, refl, sym, ap, ◌∙◌,
  subst, List, [], ◌∷◌, sort_by, insert_by, ltb, if◌then◌else◌, ltb→lt, arith, All, Bool-cases, inl,
  inr,
}
use endure_subnet.Prelude.Eq.{◌==◌, nat_eq}
use endure_subnet.Decimal.{Decimal, of_int, limit, round_ratio, add, sub, mul, div, ◌≼◌, below}
use endure_subnet.Decimal.Rounding.{pow_pos, pow_add}
use endure_subnet.Decimal.Order.{IsShort, round_ratio-zero}
use endure_subnet.Decimal.Laws.{
  ≼_refl, ≼_trans, div-le-one, round_ratio-le, int-IsShort, one-IsShort,
}
use endure_subnet.Aggregation.Consensus.{max_decimal}
use endure_subnet.Scoring.WeightProcessing.{
  u16_max_decimal, total_of, largest, scale, round_half_up, floor, remainder,
}

-- A quotient by p of at most m
pub u16-IsShort : IsShort u16_max_decimal
unfolding limit
u16-IsShort = int-IsShort 65_535 (omega arith)

pub quotient-le : (c m p : ℕ) → 0 < p → c ≤ m * p → c / p ≤ m
quotient-le c m p h k = div-le_of_le-mul p (omega (arith, k))

pub floor-le : (x : Decimal) (m : ℕ) → x ≼ of_int m → floor x ≤ m
floor-le x m h = quotient-le x.coefficient m (10 ^ x.scale) (pow_pos x.scale) (omega (arith, h))

-- A number of at most m does not round to more.
pub round_half_up-le : (x : Decimal) (m : ℕ) → x ≼ of_int m → round_half_up x ≤ m
round_half_up-le x m h = rounded (10 ^ x.scale) x.coefficient m (pow_pos x.scale) (omega (arith, h))
  where
    rounded : (p c m : ℕ) → 0 < p → c ≤ m * p → (2 * c + p) / (2 * p) ≤ m
    rounded p c m h k =
        let f =
          (div-lt_iff_lt-mul {k = 2 * p} {x = 2 * c + p} {y = m + 1} (omega (arith, h))).1
            (omega (arith, h, k)) in
        omega (arith, f)

-- The list of numbers that are above zero, counted
abbrev pub positives : List Decimal → ℕ
positives [] = 0
positives (x ∷ xs) = (if x.coefficient == 0 then 0 else 1) + positives xs

pub positives-insert_by :
    (f : Decimal → Decimal → Bool) (x : Decimal) (xs : List Decimal)
    → positives (insert_by f x xs) ≡ positives (x ∷ xs)
positives-insert_by f x [] = refl
positives-insert_by f x (y ∷ ys) = ground (arith, positives-insert_by f x ys)

pub positives-sort_by :
    (f : Decimal → Decimal → Bool) (xs : List Decimal) → positives (sort_by f xs) ≡ positives xs
positives-sort_by f [] = refl
positives-sort_by f (x ∷ xs) =
    ground (arith, positives-insert_by f x (sort_by f xs), positives-sort_by f xs)

pub add-le-int :
    (x y : Decimal) (k j : ℕ)
    → k + j < limit
    → x ≼ of_int k
    → y ≼ of_int j
    → add x y ≼ of_int (k + j)
unfolding add
add-le-int x y k j short h h' =
    round_ratio-le (x.coefficient * 10 ^ y.scale + y.coefficient * 10 ^ x.scale)
      (10 ^ (x.scale + y.scale)) (of_int (k + j)) (pow_pos (x.scale + y.scale))
      (int-IsShort (k + j) short)
      (rw (pow_add x.scale y.scale) (
        let f = mul-le-mul_right (10 ^ y.scale) h in
        let g = mul-le-mul_right (10 ^ x.scale) h' in omega (arith, f, g)))

abbrev pub sign : Decimal → ℕ
sign x = if x.coefficient == 0 then 0 else 1

pub le-sign : (x : Decimal) → x ≼ of_int 1 → x ≼ of_int (sign x)
le-sign x h = ground (arith, h)

-- A sum of numbers of at most 1 is at most the number of those above zero.
pub total_of-le :
    (total : Decimal) (k : ℕ) (xs : List Decimal)
    → k + positives xs < limit
    → total ≼ of_int k
    → All (λ x. x ≼ of_int 1) xs
    → total_of total xs ≼ of_int (k + positives xs)
total_of-le total k [] short h small = rw (add-zero k) h
total_of-le total k (x ∷ xs) short h (first, small) =
    subst (λ n. total_of (add total x) xs ≼ of_int n) (omega arith)
      (total_of-le (add total x) (k + sign x) xs (omega (arith, short))
        (add-le-int total x k (sign x) (omega (arith, short)) h (le-sign x first)) small)

-- The remainder of a number is at most 1, and a number with one is below the next whole number.
pub rest_of_floor : (c p f : ℕ) → c < p * (f + 1) → (c * 10 ^ 0 - f * p) * 10 ^ 0 ≤ 1 * p
rest_of_floor c p f h = omega (arith, h)

pub remainder-le-one : (x : Decimal) → remainder x ≼ of_int 1
unfolding remainder sub
remainder-le-one x =
    round_ratio-le (x.coefficient * 10 ^ 0 - floor x * 10 ^ x.scale) (10 ^ (x.scale + 0)) (of_int 1)
      (pow_pos (x.scale + 0)) one-IsShort
      (rw (add-zero x.scale) (
        rest_of_floor x.coefficient (10 ^ x.scale) (floor x)
          (lt-mul-div-succ x.coefficient {b = 10 ^ x.scale} (pow_pos x.scale))))

pub no_rest : (c p f m : ℕ) → c ≤ m * p → m ≤ f → c * 10 ^ 0 - f * p ≡ 0
no_rest c p f m h k = let g = mul-le-mul_right p k in omega (arith, g, h)

pub remainder-zero : (x : Decimal) (m : ℕ) → x ≼ of_int m → m ≤ floor x → remainder x ≡ of_int 0
unfolding remainder sub
remainder-zero x m h k =
    ap (λ (n : ℕ). round_ratio n (10 ^ (x.scale + 0)))
      (no_rest x.coefficient (10 ^ x.scale) (floor x) m (omega (arith, h)) k)
    ∙ round_ratio-zero (10 ^ (x.scale + 0))

pub remainder-pos :
    (x : Decimal) (m : ℕ) → x ≼ of_int m → ((remainder x).coefficient == 0) ≡ false → floor x < m
remainder-pos x m h k = elim (Bool-cases (ltb (floor x) m)) [
  | inl less ↦ ltb→lt (floor x) m less
  | inr not_less ↦ absurd (
      true_ne_false (
        sym (
          ap (λ (d : Decimal). d.coefficient == 0)
            (remainder-zero x m h (ground (arith, not_less))))
        ∙ k))
]

-- No weight is above the largest, so none scales above 65535.
pub largest-le : (most : Decimal) (xs : List Decimal) → most ≼ largest most xs
largest-le most [] = ≼_refl most
largest-le most (x ∷ xs) =
    ≼_trans most (max_decimal most x) (largest most (x ∷ xs)) (ground (arith, ≼_refl most))
      (largest-le (max_decimal most x) xs)

pub largest-All : (most : Decimal) (xs : List Decimal) → All (λ x. x ≼ largest most xs) xs
largest-All most [] = tt
largest-All most (x ∷ xs) = (
  ≼_trans x (max_decimal most x) (largest most (x ∷ xs)) (ground (arith, ≼_refl x))
      (largest-le (max_decimal most x) xs),
  largest-All (max_decimal most x) xs,
)

pub product_zero : (n p : ℕ) → n ≡ 0 → n * p ≡ 0
product_zero n p e = rw e (omega arith)

pub none_at_all : (x m : Decimal) → x.coefficient ≡ 0 → div x m ≼ of_int 1
unfolding div
none_at_all x m e =
    subst (λ (d : Decimal). d ≼ of_int 1)
      (sym (
        ap (λ (n : ℕ). round_ratio n (m.coefficient * 10 ^ x.scale))
          (product_zero x.coefficient (10 ^ m.scale) e)
        ∙ round_ratio-zero (m.coefficient * 10 ^ x.scale)))
      (omega arith)

pub share-le-one : (x m : Decimal) → x ≼ m → div x m ≼ of_int 1
share-le-one x m h = elim (Bool-cases (m.coefficient == 0)) [
  | inl zero_max ↦
      none_at_all x m (
        ground
          (arith, h, zero_max, pow_pos m.scale, mul-pos {m = x.coefficient} {n = 10 ^ m.scale}))
  | inr above ↦ div-le-one x m (ground (arith, above)) h
]

pub scale-le : (m x : Decimal) → x ≼ m → scale m x ≼ u16_max_decimal
unfolding scale mul
scale-le m x h =
    let d = div x m in
    round_ratio-le (d.coefficient * 65_535) (10 ^ (d.scale + 0)) u16_max_decimal
      (pow_pos (d.scale + 0)) u16-IsShort
      (rw (add-zero d.scale) (let f = share-le-one x m h in omega (arith, f)))

pub above_zero : (a b : Decimal) → below a b ≡ true → (b.coefficient == 0) ≡ true → ⊥
above_zero a b h e =
    let f = product_zero b.coefficient (10 ^ a.scale) ((nat_eq.eqb_iff b.coefficient 0).0 e) in
    omega (arith, f, ltb→lt (a.coefficient * 10 ^ b.scale) (b.coefficient * 10 ^ a.scale) h)

pub zero_below :
    (a b : Decimal) → below a b ≡ false → (a.coefficient == 0) ≡ true → b.coefficient ≡ 0
zero_below a b h e =
    let f = product_zero a.coefficient (10 ^ b.scale) ((nat_eq.eqb_iff a.coefficient 0).0 e) in
    ground (arith, f, h, mul-pos {m = b.coefficient} {n = 10 ^ a.scale}, pow_pos a.scale)

pub sign-le-one : (x : Decimal) → sign x ≤ 1
sign-le-one x = ground arith

-- A unit more only goes to a member with a remainder.
pub unit-le :
    (x : Decimal) (rank spare after : ℕ)
    → x ≼ u16_max_decimal
    → (((remainder x).coefficient == 0) ≡ true → after ≡ 0)
    → spare ≤ rank + (sign (remainder x) + after)
    → floor x + (if ltb rank spare then 1 else 0) ≤ 65_535
unit-le x rank spare after small front enough = elim (Bool-cases ((remainder x).coefficient == 0)) [
  | inl empty ↦ kept (sign_zero (remainder x) empty) (front empty)
  | inr some_left ↦ given (remainder-pos x 65_535 small some_left)
]
  where
    sign_zero : (y : Decimal) → (y.coefficient == 0) ≡ true → sign y ≡ 0
    sign_zero y h = rw h refl

    kept : sign (remainder x) ≡ 0 → after ≡ 0 → floor x + (if ltb rank spare then 1 else 0) ≤ 65_535
    kept e e' = elim (Bool-cases (ltb rank spare)) [
      | inl less ↦ absurd (omega (arith, e, e', enough, ltb→lt rank spare less))
      | inr not_less ↦ rw not_less (omega (arith, floor-le x 65_535 small))
    ]

    given : floor x < 65_535 → floor x + (if ltb rank spare then 1 else 0) ≤ 65_535
    given h = elim (Bool-cases (ltb rank spare)) [
      | inl less ↦ rw less (omega (arith, h))
      | inr not_less ↦ rw not_less (omega (arith, h))
    ]

module _ {A : Type 0} (P : A → Type 0) (f : A → A → Bool) where
  pub All-insert_by : (x : A) (xs : List A) → P x → All P xs → All P (insert_by f x xs)
  All-insert_by x [] h k = (h, tt)
  All-insert_by x (y ∷ ys) h (first, rest) = elim (Bool-cases (f x y)) [
    | inl before ↦ rw before (first, All-insert_by x ys h rest)
    | inr after ↦ rw after (h, (first, rest))
  ]

  pub All-sort_by : (xs : List A) → All P xs → All P (sort_by f xs)
  All-sort_by [] h = tt
  All-sort_by (x ∷ xs) (first, rest) = All-insert_by x (sort_by f xs) first (All-sort_by xs rest)
