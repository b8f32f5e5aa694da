-- ===== src/Decimal/Order.antt =====
-- TR_CONTEXT: rounded results in the order of numbers.
use native.Mathlib.Nat.{
  eq_of_mul-eq-mul_right, mul-le-mul_right, mul-le-mul_left, mul_comm, mul-lt-mul_of_pos_right,
  mul-pos, le_of_lt, pow-le-pow_right, pow-suc,
}
use endure_subnet.Prelude.{
  ℕ, zero, suc, ◌+◌, ◌-◌, ◌*◌, ◌^◌, ◌≤◌, ◌<◌, false, ltb, ◌≡◌, refl, ap, arith, ◌⊎◌, inl, inr,
  Bool-cases, subst, ltb→lt,
}
use endure_subnet.Prelude.Eq.{nat_eq}
use endure_subnet.Decimal.{Decimal, of_int, limit, half_even, round_ratio, ◌≼◌}
use endure_subnet.Decimal.Rounding.{
  half_even_whole, half_even_cross, half_even_mono, pow_add, pow_pos, IsNormal,
  round_ratio-IsNormal, limit_pos,
}

above_grid :
    (l d1 d2 n1 n2 k1 s1 k2 s2 : ℕ)
    → l * (d1 * k1) ≤ 10 * (n1 * s1)
    → n2 * s2 < l * (d2 * k2)
    → n1 * d2 ≤ n2 * d1
    → 10 * (k2 * s1) ≤ k1 * s2
    → 0 < d1 * s1
    → ⊥
above_grid l d1 d2 n1 n2 k1 s1 k2 s2 full fits h e p =
    let a = mul-le-mul_right (d2 * s2) full in
    let b = mul-le-mul_right (s1 * s2) h in
    let c = mul-lt-mul_of_pos_right {k = d1 * s1} fits p in
    let f = mul-le-mul_right (l * (d1 * d2)) e in absurd (omega (arith, a, b, c, f))

half_even-le : (a d l : ℕ) → 0 < d → a ≤ l * d → half_even a d ≤ l
half_even-le a d l p h =
    subst (λ t. half_even a d ≤ t) (half_even_whole l d p) (half_even_mono a (l * d) d p h)

le-half_even : (a d l : ℕ) → 0 < d → l * d ≤ a → l ≤ half_even a d
le-half_even a d l p h =
    subst (λ t. t ≤ half_even a d) (half_even_whole l d p) (half_even_mono (l * d) a d p h)

abbrev tenth : ℕ
tenth = 1_000_000_000_000_000_000_000_000_000

-- The coefficients of a rounded number have 28 digits.
rounded_coefficient :
    (n d s k : ℕ)
    → 0 < d
    → IsNormal n d s k
    → (half_even (n * 10 ^ s) (d * 10 ^ k) ≤ limit)
      × (limit ≤ 10 * half_even (n * 10 ^ s) (d * 10 ^ k))
unfolding limit
rounded_coefficient n d s k p r =
    let b = mul-pos p (pow_pos k) in
    (
      half_even-le (n * 10 ^ s) (d * 10 ^ k) limit b (le_of_lt r.fits),
      omega (arith, le-half_even (n * 10 ^ s) (d * 10 ^ k) tenth b (omega (arith, r.full))),
    )

-- A finer grid below a coarser one
below_grid : (l x y k1 s2 b : ℕ) → x ≤ l → l ≤ 10 * y → 10 * (k1 * s2) ≤ b → x * (k1 * s2) ≤ y * b
below_grid l x y k1 s2 b h e f =
    let a = mul-le-mul_right (k1 * s2) h in
    let c = mul-le-mul_right (k1 * s2) e in let g = mul-le-mul_left y f in omega (arith, a, c, g)

-- One grid
same_grid :
    (n1 d1 n2 d2 s1 k1 s2 k2 : ℕ)
    → n1 * d2 ≤ n2 * d1
    → k1 * s2 ≡ k2 * s1
    → n1 * s1 * (d2 * k2) ≤ n2 * s2 * (d1 * k1)
same_grid n1 d1 n2 d2 s1 k1 s2 k2 h e =
    let a = mul-le-mul_right (k2 * s1) h in
    let b = ap (λ (t : ℕ). n2 * d1 * t) e in omega (arith, a, b)

pow_step : (a b : ℕ) → a < b → 10 * 10 ^ a ≤ 10 ^ b
pow_step a b h = rw (mul_comm 10 (10 ^ a), ← pow-suc 10 a) (pow-le-pow_right (omega arith) h)

pow_less : (k1 s2 k2 s1 : ℕ) → k1 + s2 < k2 + s1 → 10 * (10 ^ k1 * 10 ^ s2) ≤ 10 ^ k2 * 10 ^ s1
pow_less k1 s2 k2 s1 h = rw (← pow_add k1 s2, ← pow_add k2 s1) (pow_step (k1 + s2) (k2 + s1) h)

pow_same : (k1 s2 k2 s1 : ℕ) → k1 + s2 ≡ k2 + s1 → 10 ^ k1 * 10 ^ s2 ≡ 10 ^ k2 * 10 ^ s1
pow_same k1 s2 k2 s1 e = rw (← pow_add k1 s2, ← pow_add k2 s1, e)

order_cases : (a b : ℕ) → (a < b) ⊎ ((a ≡ b) ⊎ (b < a))
order_cases a b = elim (Bool-cases (ltb a b)) [
  | inl less ↦ inl (ltb→lt a b less)
  | inr more ↦ elim (Bool-cases (ltb b a)) [
    | inl greater ↦ inr (inr (ltb→lt b a greater))
    | inr same ↦ inr (inl (ground (arith, more, same)))
  ]
]

-- The rounding of a smaller number is not greater.
normal_mono :
    (n1 d1 n2 d2 s1 k1 s2 k2 : ℕ)
    → 0 < d1
    → 0 < d2
    → IsNormal n1 d1 s1 k1
    → IsNormal n2 d2 s2 k2
    → n1 * d2 ≤ n2 * d1
    → half_even (n1 * 10 ^ s1) (d1 * 10 ^ k1) * (10 ^ k1 * 10 ^ s2)
      ≤ half_even (n2 * 10 ^ s2) (d2 * 10 ^ k2) * (10 ^ k2 * 10 ^ s1)
normal_mono n1 d1 n2 d2 s1 k1 s2 k2 p1 p2 r1 r2 h =
    let x = rounded_coefficient n1 d1 s1 k1 p1 r1 in
    let y = rounded_coefficient n2 d2 s2 k2 p2 r2 in
    elim (order_cases (k1 + s2) (k2 + s1)) [
      | inl less ↦
          below_grid limit (half_even (n1 * 10 ^ s1) (d1 * 10 ^ k1))
            (half_even (n2 * 10 ^ s2) (d2 * 10 ^ k2)) (10 ^ k1) (10 ^ s2) (10 ^ k2 * 10 ^ s1) x.0
            y.1 (pow_less k1 s2 k2 s1 less)
      | inr (inl same) ↦ rw (pow_same k1 s2 k2 s1 same) (
          mul-le-mul_right (10 ^ k2 * 10 ^ s1) (
            half_even_cross (n1 * 10 ^ s1) (d1 * 10 ^ k1) (n2 * 10 ^ s2) (d2 * 10 ^ k2)
              (mul-pos p1 (pow_pos k1)) (mul-pos p2 (pow_pos k2))
              (same_grid n1 d1 n2 d2 (10 ^ s1) (10 ^ k1) (10 ^ s2) (10 ^ k2) h
                (pow_same k1 s2 k2 s1 same))))
      | inr (inr more) ↦ absurd (
          above_grid limit d1 d2 n1 n2 (10 ^ k1) (10 ^ s1) (10 ^ k2) (10 ^ s2) r1.full r2.fits h
            (pow_less k2 s1 k1 s2 more) (mul-pos p1 (pow_pos s1)))
    ]

pub round_ratio-zero : (d : ℕ) → round_ratio 0 d ≡ of_int 0
unfolding round_ratio
round_ratio-zero d = refl

normal_mono_ratio :
    (n1 d1 n2 d2 : ℕ)
    → 0 < n1
    → 0 < n2
    → 0 < d1
    → 0 < d2
    → n1 * d2 ≤ n2 * d1
    → round_ratio n1 d1 ≼ round_ratio n2 d2
normal_mono_ratio n1 d1 n2 d2 m1 m2 p1 p2 h =
    let (s1, k1, r1, e1) = round_ratio-IsNormal n1 d1 m1 p1 in
    let (s2, k2, r2, e2) = round_ratio-IsNormal n2 d2 m2 p2 in
    rw (e1, e2) (omega (arith, normal_mono n1 d1 n2 d2 s1 k1 s2 k2 p1 p2 r1 r2 h))

-- Rounding keeps the order.
pub round_ratio_mono :
    (n1 d1 n2 d2 : ℕ) → 0 < d1 → 0 < d2 → n1 * d2 ≤ n2 * d1 → round_ratio n1 d1 ≼ round_ratio n2 d2
round_ratio_mono zero d1 n2 d2 p1 p2 h = rw (round_ratio-zero d1) (omega arith)
round_ratio_mono (suc n1) d1 zero d2 p1 p2 h =
    absurd (omega (arith, h, mul-pos {m = suc n1} {n = d2} (omega arith) p2))
round_ratio_mono (suc n1) d1 (suc n2) d2 p1 p2 h =
    normal_mono_ratio (suc n1) d1 (suc n2) d2 (omega arith) (omega arith) p1 p2 h

-- The grid of a rounded number has the digits of a short number.
on_grid :
    (l n d c s10 j10 k10 t10 : ℕ)
    → l * (d * k10) ≤ 10 * (n * t10)
    → n * s10 ≡ c * j10 * d
    → 10 * (t10 * j10) ≤ k10 * s10
    → c < l
    → 0 < d * (k10 * s10)
    → ⊥
on_grid l n d c s10 j10 k10 t10 full e h less p =
    let a = mul-le-mul_right s10 full in
    let b = ap (λ (t : ℕ). t * t10) e in
    let f = mul-le-mul_right (c * d) h in
    let g = mul-lt-mul_of_pos_right {m = c} {n = l} {k = d * (k10 * s10)} less p in
    absurd (omega (arith, a, b, f, g))

enough_digits :
    (n d c j s shift drop : ℕ)
    → 0 < d
    → c < limit
    → n * 10 ^ s ≡ c * 10 ^ j * d
    → IsNormal n d shift drop
    → drop + s ≤ shift + j
enough_digits n d c j s shift drop p h e r = elim (Bool-cases (ltb (shift + j) (drop + s))) [
  | inl short ↦ absurd (
      on_grid limit n d c (10 ^ s) (10 ^ j) (10 ^ drop) (10 ^ shift) r.full e
        (rw (← pow_add drop s, ← pow_add shift j)
          (pow_step (shift + j) (drop + s) (ltb→lt (shift + j) (drop + s) short)))
        h (mul-pos p (mul-pos (pow_pos drop) (pow_pos s))))
  | inr fine ↦ ground (arith, fine)
]

cancel_scale : (a b s10 : ℕ) → 0 < s10 → a * s10 ≡ b * s10 → a ≡ b
cancel_scale a b s10 p e = eq_of_mul-eq-mul_right s10 p a b e

exact_numerator :
    (n d c j s shift drop more : ℕ)
    → n * 10 ^ s ≡ c * 10 ^ j * d
    → shift + j ≡ drop + s + more
    → n * 10 ^ shift ≡ c * 10 ^ more * (d * 10 ^ drop)
exact_numerator n d c j s shift drop more e f =
    let powers : 10 ^ shift * 10 ^ j ≡ 10 ^ drop * 10 ^ s * 10 ^ more =
      rw (← pow_add shift j, f, pow_add (drop + s) more, pow_add drop s) in
    cancel_scale (n * 10 ^ shift) (c * 10 ^ more * (d * 10 ^ drop)) (10 ^ s) (pow_pos s)
      (omega (arith, ap (λ (t : ℕ). t * 10 ^ shift) e, ap (λ (t : ℕ). c * d * t) powers))

exact_value :
    (c j s shift drop more : ℕ)
    → shift + j ≡ drop + s + more
    → c * 10 ^ more * 10 ^ drop * 10 ^ s ≡ c * 10 ^ j * 10 ^ shift
exact_value c j s shift drop more f =
    let powers : 10 ^ shift * 10 ^ j ≡ 10 ^ drop * 10 ^ s * 10 ^ more =
      rw (← pow_add shift j, f, pow_add (drop + s) more, pow_add drop s) in
    omega (arith, ap (λ (t : ℕ). c * t) powers)

-- A number of at most 28 digits, before zeros, is not changed.
pub round_ratio_exact :
    (n d c j s : ℕ)
    → 0 < d
    → c < limit
    → n * 10 ^ s ≡ c * 10 ^ j * d
    → (round_ratio n d).coefficient * 10 ^ s ≡ c * 10 ^ j * 10 ^ (round_ratio n d).scale
round_ratio_exact zero d c j s p h e =
    rw (round_ratio-zero d) (ground (arith, mul-pos {m = c * 10 ^ j} {n = d}, p, e))
round_ratio_exact (suc n) d c j s p h e =
    let (shift, drop, r, eq) = round_ratio-IsNormal (suc n) d (omega arith) p in
    let enough = enough_digits (suc n) d c j s shift drop p h e r in
    let more = shift + j - (drop + s) in
    let whole : shift + j ≡ drop + s + more = omega (arith, enough) in
    let q = half_even_whole (c * 10 ^ more) (d * 10 ^ drop) (mul-pos p (pow_pos drop)) in
    rw (eq, exact_numerator (suc n) d c j s shift drop more e whole, q)
      (exact_value c j s shift drop more whole)

-- At most 28 digits, before zeros
abbrev pub IsShort : Decimal → Type 0
IsShort x = (c j : ℕ) × (c < limit) × (x.coefficient ≡ c * 10 ^ j)

short_of_bound : (q k : ℕ) → q ≤ limit → (c j : ℕ) × (c < limit) × (q * 10 ^ k ≡ c * 10 ^ j)
unfolding limit
short_of_bound q k h = elim (Bool-cases (ltb q limit)) [
  | inl less ↦ (q, k, ltb→lt q limit less, refl)
  | inr full ↦ (
    tenth,
    suc k,
    omega arith,
    rw (pow-suc 10 k) (ground (arith, full, ap (λ (t : ℕ). t * 10 ^ k) (at_limit q h full))),
  )
]
  where
    at_limit : (q : ℕ) → q ≤ limit → ltb q limit ≡ false → q ≡ limit
    at_limit q h f = ground arith

pub round_ratio-IsShort : (n d : ℕ) → 0 < d → IsShort (round_ratio n d)
round_ratio-IsShort zero d p = rw (round_ratio-zero d) (0, 0, limit_pos, refl)
round_ratio-IsShort (suc n) d p =
    let (shift, drop, r, e) = round_ratio-IsNormal (suc n) d (omega arith) p in
    rw e (
      short_of_bound (half_even (suc n * 10 ^ shift) (d * 10 ^ drop)) drop
        (rounded_coefficient (suc n) d shift drop p r).0)

-- Rounding makes no number zero.
pub round_ratio_pos : (n d : ℕ) → 0 < n → 0 < d → 0 < (round_ratio n d).coefficient
round_ratio_pos n d p q =
    let (shift, drop, r, e) = round_ratio-IsNormal n d p q in
    let b = rounded_coefficient n d shift drop q r in
    rw e (mul-pos (omega (arith, b.1, limit_pos)) (pow_pos drop))
