-- ===== src/Decimal/Rounding.antt =====
-- TR_CONTEXT: rounding keeps the order and the numbers that have 28 digits.
use native.Mathlib.Nat.{
  le-div_iff_mul-le, mul-le-mul_right, mul-le-mul_left, mul-div-mul_right, mod-add-div', mul_assoc,
  mul_comm, add-mul, mul-lt-mul_of_pos_right, mul-pos, mul-div_cancel, mul-mod_left, le_of_lt,
  mul-le-mul, one-le-pow, pow-suc, pow-zero, mul-one, add-zero, add-suc,
}
use endure_subnet.Prelude.{
  ℕ, zero, suc, ◌+◌, ◌*◌, ◌/◌, ◌%◌, ◌^◌, ◌≤◌, ◌<◌, false, ltb, ◌≡◌, ap, arith, inl, inr, Bool-cases,
  subst, ltb→lt,
}
use endure_subnet.Prelude.Eq.{◌==◌, nat_eq}
use endure_subnet.Decimal.{limit, half_even, digits_after, digits_dropped, round_ratio}

-- With one denominator, rounding is monotone.
div_mono : (a b d : ℕ) → 0 < d → a ≤ b → a / d ≤ b / d
div_mono a b d p h = grind (arith, le-div_iff_mul-le, mod-add-div')

half_even_step : (a b d : ℕ) → 0 < d → a ≤ b → a / d ≡ b / d → half_even a d ≤ half_even b d
unfolding half_even
half_even_step a b d p h e =
    ground (arith, mod-add-div' a d, mod-add-div' b d, ap (λ (t : ℕ). t * d) e, e)

half_even_bounds : (a d : ℕ) → (a / d ≤ half_even a d) × (half_even a d ≤ a / d + 1)
unfolding half_even
half_even_bounds a d = ground arith

pub half_even_mono : (a b d : ℕ) → 0 < d → a ≤ b → half_even a d ≤ half_even b d
half_even_mono a b d p h = elim (Bool-cases (a / d == b / d)) [
  | inl e ↦ half_even_step a b d p h ((nat_eq.eqb_iff (a / d) (b / d)).0 e)
  | inr f ↦ ground (arith, f, div_mono a b d p h, half_even_bounds a d, half_even_bounds b d)
]

mod_scaled : (a d c : ℕ) → 0 < c → (a * c) % (d * c) ≡ a % d * c
mod_scaled a d c p =
    let whole = mod-add-div' (a * c) (d * c) in
    let part = mod-add-div' a d in
    let q = mul-div-mul_right a d p in
    ground (
      arith,
      q,
      ap (λ (t : ℕ). t * (d * c)) q,
      ap (λ (t : ℕ). t * c) part,
      whole,
      mul_assoc (a / d) d c,
      add-mul (a % d) (a / d * d) c,
    )

ltb_scaled : (a b c : ℕ) → 0 < c → ltb (a * c) (b * c) ≡ ltb a b
ltb_scaled a b c p =
    ground
      (arith, mul-lt-mul_of_pos_right {m = a} {n = b} {k = c}, mul-le-mul_right {m = b} {n = a} c)

half_even_scaled : (a d c : ℕ) → 0 < c → half_even (a * c) (d * c) ≡ half_even a d
unfolding half_even
half_even_scaled a d c p = rw (
  mul-div-mul_right a d p,
  mod_scaled a d c p,
  ← mul_assoc 2 (a % d) c,
  ltb_scaled (2 * (a % d)) d c p,
  ltb_scaled d (2 * (a % d)) c p,
)

pub half_even_cross : (a b c d : ℕ) → 0 < b → 0 < d → a * d ≤ c * b → half_even a b ≤ half_even c d
half_even_cross a b c d p q h =
    subst (λ t. t ≤ half_even c d) (half_even_scaled a b d q)
      (subst (λ t. half_even (a * d) (b * d) ≤ t) (half_even_scaled c d b p)
        (subst (λ t. half_even (a * d) (b * d) ≤ half_even (c * b) t) (mul_comm b d)
          (half_even_mono (a * d) (c * b) (b * d) (mul-pos p q) h)))

-- Powers of ten
pub pow_add : (a b : ℕ) → 10 ^ (a + b) ≡ 10 ^ a * 10 ^ b
pow_add a zero = rw (add-zero a, pow-zero 10, mul-one (10 ^ a))
pow_add a (suc b) =
    rw (add-suc a b, pow-suc 10 (a + b), pow-suc 10 b, pow_add a b, mul_assoc (10 ^ a) (10 ^ b) 10)

pub pow_pos : (a : ℕ) → 0 < 10 ^ a
pow_pos a = one-le-pow a 10 (omega arith)

one_more : (n t : ℕ) → n * 10 ^ suc t ≡ 10 * n * 10 ^ t
one_more n t = rw (pow-suc 10 t, mul_comm (10 ^ t) 10, ← mul_assoc n 10 (10 ^ t), mul_comm n 10)

-- The exponents of a number with 28 digits: it is n / d with `shift` more digits and `drop` fewer
pub record IsNormal (n d shift drop : ℕ) : Type 0 where
  pub fits : n * 10 ^ shift < limit * (d * 10 ^ drop)
  pub full : limit * (d * 10 ^ drop) ≤ 10 * (n * 10 ^ shift)

digits_after-fits : (fuel n d : ℕ) → n < limit * d → n * 10 ^ digits_after fuel n d < limit * d
unfolding digits_after
digits_after-fits zero n d h = rw (pow-zero 10, mul-one n) h
digits_after-fits (suc fuel) n d h = elim (Bool-cases (ltb (10 * n) (limit * d))) [
  | inl more ↦
      rw (more, one_more n (digits_after fuel (10 * n) d))
        (digits_after-fits fuel (10 * n) d (ltb→lt (10 * n) (limit * d) more))
  | inr stop ↦ rw (stop, pow-zero 10, mul-one n) h
]

-- The fuel is enough for the digits.
digits_after-full :
    (fuel n d : ℕ) → limit * d ≤ n * 10 ^ fuel → limit * d ≤ 10 * (n * 10 ^ digits_after fuel n d)
unfolding digits_after
digits_after-full zero n d h =
    rw (pow-zero 10, mul-one n) (omega (arith, rw (pow-zero 10, mul-one n) at h))
digits_after-full (suc fuel) n d h = elim (Bool-cases (ltb (10 * n) (limit * d))) [
  | inl more ↦
      rw (more, one_more n (digits_after fuel (10 * n) d))
        (digits_after-full fuel (10 * n) d (rw (one_more n fuel) at h))
  | inr stop ↦ rw (stop, pow-zero 10, mul-one n) (ground (arith, stop))
]

digits_dropped-fits :
    (fuel n d : ℕ) → n < limit * (d * 10 ^ fuel) → n < limit * (d * 10 ^ digits_dropped fuel n d)
unfolding digits_dropped
digits_dropped-fits zero n d h = h
digits_dropped-fits (suc fuel) n d h = elim (Bool-cases (ltb n (limit * d))) [
  | inl stop ↦ rw (stop, pow-zero 10, mul-one d) (ltb→lt n (limit * d) stop)
  | inr more ↦
      rw (more, one_more d (digits_dropped fuel n (10 * d)))
        (digits_dropped-fits fuel n (10 * d) (rw (one_more d fuel) at h))
]

digits_dropped-full :
    (fuel n d : ℕ) → limit * d ≤ 10 * n → limit * (d * 10 ^ digits_dropped fuel n d) ≤ 10 * n
unfolding digits_dropped
digits_dropped-full zero n d h = rw (pow-zero 10, mul-one d) h
digits_dropped-full (suc fuel) n d h = elim (Bool-cases (ltb n (limit * d))) [
  | inl stop ↦ rw (stop, pow-zero 10, mul-one d) h
  | inr more ↦
      rw (more, one_more d (digits_dropped fuel n (10 * d)))
        (digits_dropped-full fuel n (10 * d) (ground (arith, more)))
]

lt_pow : (n : ℕ) → n < 10 ^ n
lt_pow zero = rw (pow-zero 10) (omega arith)
lt_pow (suc n) = rw (pow-suc 10 n) (omega (arith, lt_pow n))

after_fuel : (n d : ℕ) → 0 < n → limit * d ≤ n * 10 ^ (d + 28)
unfolding limit
after_fuel n d p = rw (pow_add d 28) (
    let a = mul-le-mul_left 10_000_000_000_000_000_000_000_000_000 (le_of_lt (lt_pow d)) in
    let b = mul-le-mul_right (10 ^ d * 10_000_000_000_000_000_000_000_000_000) p in
    omega (arith, a, b))

pub limit_pos : 0 < limit
unfolding limit
limit_pos = omega arith

dropped_fuel : (n d : ℕ) → 0 < d → n < limit * (d * 10 ^ n)
dropped_fuel n d p =
    let a = mul-le-mul_right (10 ^ n) (mul-le-mul limit_pos p) in omega (arith, a, lt_pow n)

not_zero : (n : ℕ) → 0 < n → (n == 0) ≡ false
not_zero n p = ground arith

-- What rounding gives for a number that is not zero
pub round_ratio-IsNormal :
    (n d : ℕ)
    → 0 < n
    → 0 < d
    → (shift drop : ℕ) × IsNormal n d shift drop
      × (round_ratio n d ≡ record {
        coefficient = half_even (n * 10 ^ shift) (d * 10 ^ drop) * 10 ^ drop;
        scale = shift;
      })
unfolding round_ratio
round_ratio-IsNormal n d p q = elim (Bool-cases (ltb n (limit * d))) [
  | inl small ↦ (
    digits_after (d + 28) n d,
    0,
    record {
      fits = rw (mul-one d) (digits_after-fits (d + 28) n d (ltb→lt n (limit * d) small));
      full = rw (mul-one d) (digits_after-full (d + 28) n d (after_fuel n d p));
    },
    rw (not_zero n p, small, mul-one d, mul-one (half_even (n * 10 ^ digits_after (d + 28) n d) d)),
  )
  | inr large ↦ (
    0,
    digits_dropped n n d,
    record {
      fits = rw (mul-one n) (digits_dropped-fits n n d (dropped_fuel n d q));
      full = rw (mul-one n) (digits_dropped-full n n d (ground (arith, large)));
    },
    rw (not_zero n p, large, mul-one n),
  )
]

-- A whole number is not changed.
pub half_even_whole : (l d : ℕ) → 0 < d → half_even (l * d) d ≡ l
unfolding half_even
half_even_whole l d p = rw (mul-div_cancel l p, mul-mod_left l d) (ground (arith, p))
