-- ===== src/Scoring/WeightProcessing/Top.antt =====
-- weight_processing.py, `convert_weights_and_uids_for_emit`: the largest weight.
use native.Mathlib.Nat.{mul-pos, le-div_iff_mul-le}
use endure_subnet.Prelude.{
  ℕ, zero, suc, ◌+◌, ◌*◌, ◌^◌, ◌≤◌, ◌<◌, Bool, true, false, ◌||◌, not, ◌≡◌, refl, sym, ap, ◌∙◌,
  subst, some, List, [], ◌∷◌, map, any, length, get_elem?, if◌then◌else◌, or_else, ok, ◌>>=◌,
  bind_ok, then_ok, raise_if, raise_if_ok, leb, le→leb, arith, All, Bool-cases, inl, inr,
  true_ne_false,
}
use endure_subnet.Prelude.Eq.{◌==◌, ◌/=◌, nat_eq}
use endure_subnet.Decimal.{Decimal, of_int, limit, round_ratio, add, mul, div, ◌≼◌, below}
use endure_subnet.Decimal.Rounding.{pow_pos}
use endure_subnet.Decimal.Order.{round_ratio-zero}
use endure_subnet.Decimal.Laws.{≼_refl, ≼_trans, mul_mono, le-round_ratio, one-IsShort}
use endure_subnet.Scoring.WeightProcessing.{
  lengths_differ, u16_max_decimal, total_of, largest, scale, round_half_up, floor, weight_at,
  set_at, spare_units, ranked, extra, give_units, round_groups, group_positions, emitted,
  scaled_by_largest, convert_weights_and_uids_for_emit,
}
use endure_subnet.Scoring.WeightProcessing.Remainders.{
  u16-IsShort, largest-le, largest-All, product_zero,
}
use endure_subnet.Scoring.WeightProcessing.Bounds.{
  IsVector, convert_weights_and_uids_for_emit-IsVector, ok_same,
}

-- The largest weight is one of them.
largest-here :
    (most : Decimal) (xs : List Decimal)
    → (i : ℕ) × (get_elem? (most ∷ xs) i ≡ some (largest most xs))
largest-here most [] = (0, refl)
largest-here most (x ∷ xs) = elim (Bool-cases (below most x)) [
  | inl less ↦ rw less (let (i, e) = largest-here x xs in (suc i, e))
  | inr not_less ↦ rw not_less (past (largest-here most xs))
]
  where
    past :
        {v : Decimal}
        → (i : ℕ) × (get_elem? (most ∷ xs) i ≡ some v)
        → (i : ℕ) × (get_elem? (most ∷ x ∷ xs) i ≡ some v)
    past (zero, e) = (0, e)
    past (suc i, e) = (suc (suc i), e)

add-zero_zero : (x y : Decimal) → x.coefficient ≡ 0 → y.coefficient ≡ 0 → (add x y).coefficient ≡ 0
unfolding add
add-zero_zero x y e e' =
    ap (λ (n : ℕ). (round_ratio n (10 ^ (x.scale + y.scale))).coefficient)
      (let f = product_zero x.coefficient (10 ^ y.scale) e in
        let g = product_zero y.coefficient (10 ^ x.scale) e' in omega (arith, f, g))
    ∙ ap (λ (d : Decimal). d.coefficient) (round_ratio-zero (10 ^ (x.scale + y.scale)))

zero_total :
    (total m : Decimal) (xs : List Decimal)
    → total.coefficient ≡ 0
    → m.coefficient ≡ 0
    → All (λ x. x ≼ m) xs
    → (total_of total xs).coefficient ≡ 0
zero_total total m [] e e' h = e
zero_total total m (x ∷ xs) e e' (first, rest) =
    zero_total (add total x) m xs (add-zero_zero total x e (below_zero x first)) e' rest
  where
    below_zero : (x : Decimal) → x ≼ m → x.coefficient ≡ 0
    below_zero x h =
        let f = product_zero m.coefficient (10 ^ x.scale) e' in
        ground (arith, f, h, mul-pos {m = x.coefficient} {n = 10 ^ m.scale}, pow_pos m.scale)

-- It scales to 65535 or, as no weight does, more.
whole_share : (m : Decimal) → 0 < m.coefficient → of_int 1 ≼ div m m
unfolding div
whole_share m p =
    le-round_ratio (m.coefficient * 10 ^ m.scale) (m.coefficient * 10 ^ m.scale) (of_int 1)
      (mul-pos p (pow_pos m.scale)) one-IsShort (omega arith)

itself : u16_max_decimal ≼ mul (of_int 1) u16_max_decimal
unfolding mul
itself =
    le-round_ratio (1 * 65_535) (10 ^ (0 + 0)) u16_max_decimal (pow_pos (0 + 0)) u16-IsShort
      (omega arith)

top-scale : (m : Decimal) → 0 < m.coefficient → u16_max_decimal ≼ scale m m
unfolding scale
top-scale m p =
    ≼_trans u16_max_decimal (mul (of_int 1) u16_max_decimal) (mul (div m m) u16_max_decimal) itself
      (mul_mono (of_int 1) u16_max_decimal (div m m) u16_max_decimal (whole_share m p)
        (≼_refl u16_max_decimal))

top-floor : (x : Decimal) → u16_max_decimal ≼ x → 65_535 ≤ floor x
top-floor x h =
    (le-div_iff_mul-le {k = 10 ^ x.scale} {x = 65_535} (pow_pos x.scale)).1 (omega (arith, h))

top-round_half_up : (x : Decimal) → u16_max_decimal ≼ x → 65_535 ≤ round_half_up x
top-round_half_up x h =
    (le-div_iff_mul-le {k = 2 * 10 ^ x.scale} {x = 65_535} (omega (arith, pow_pos x.scale))).1
      (omega (arith, h))

abbrev unit_at : List ℕ → ℕ → ℕ
unit_at units i = or_else (get_elem? units i) 0

set_at-unit_at :
    (i j unit : ℕ) (units : List ℕ)
    → 65_535 ≤ unit_at units i
    → (i ≡ j → 65_535 ≤ unit)
    → 65_535 ≤ unit_at (set_at j unit units) i
set_at-unit_at i j unit [] h k = h
set_at-unit_at zero zero unit (u ∷ us) h k = k refl
set_at-unit_at zero (suc j) unit (u ∷ us) h k = h
set_at-unit_at (suc i) zero unit (u ∷ us) h k = h
set_at-unit_at (suc i) (suc j) unit (u ∷ us) h k = set_at-unit_at i j unit us h (λ e. k (ap suc e))

module _ (scaled : List Decimal) (i : ℕ) (top : u16_max_decimal ≼ weight_at scaled i) where
  give_units-unit_at :
      (spare rank : ℕ) (members units : List ℕ)
      → 65_535 ≤ unit_at units i
      → 65_535 ≤ unit_at (give_units scaled spare rank members units) i
  unfolding give_units
  give_units-unit_at spare rank [] units h = h
  give_units-unit_at spare rank (j ∷ members) units h =
      give_units-unit_at spare (suc rank) members _ (
        set_at-unit_at i j (floor (weight_at scaled j) + extra scaled rank spare) units h
          (λ e. at_top e))
    where
      at_top : {j : ℕ} → i ≡ j → 65_535 ≤ floor (weight_at scaled j) + extra scaled rank spare
      at_top e =
          subst (λ j. 65_535 ≤ floor (weight_at scaled j) + extra scaled rank spare) e
            (omega (arith, top-floor (weight_at scaled i) top))

  round_groups-unit_at :
      (groups : List (List ℕ)) (units : List ℕ)
      → 65_535 ≤ unit_at units i
      → 65_535 ≤ unit_at (round_groups scaled groups units) i
  unfolding round_groups
  round_groups-unit_at [] units h = h
  round_groups-unit_at (members ∷ groups) units h =
      round_groups-unit_at groups _
        (give_units-unit_at (spare_units scaled members) 0 (ranked scaled members) units h)

length-set_at : (j unit : ℕ) (units : List ℕ) → length (set_at j unit units) ≡ length units
length-set_at j unit [] = refl
length-set_at zero unit (u ∷ us) = refl
length-set_at (suc j) unit (u ∷ us) = ap suc (length-set_at j unit us)

length-give_units :
    (scaled : List Decimal) (spare rank : ℕ) (members units : List ℕ)
    → length (give_units scaled spare rank members units) ≡ length units
unfolding give_units
length-give_units scaled spare rank [] units = refl
length-give_units scaled spare rank (j ∷ members) units =
    length-give_units scaled spare (suc rank) members _
    ∙ length-set_at j (floor (weight_at scaled j) + extra scaled rank spare) units

length-round_groups :
    (scaled : List Decimal) (groups : List (List ℕ)) (units : List ℕ)
    → length (round_groups scaled groups units) ≡ length units
unfolding round_groups
length-round_groups scaled [] units = refl
length-round_groups scaled (members ∷ groups) units =
    length-round_groups scaled groups _
    ∙ length-give_units scaled (spare_units scaled members) 0 (ranked scaled members) units

length-map : {A B : Type 0} (f : A → B) (xs : List A) → length (map f xs) ≡ length xs
length-map f [] = refl
length-map f (x ∷ xs) = ap suc (length-map f xs)

get-map :
    {A B : Type 0} (f : A → B) (xs : List A) (i : ℕ) {x : A}
    → get_elem? xs i ≡ some x
    → get_elem? (map f xs) i ≡ some (f x)
get-map f [] i e = absurd (cc)
get-map f (y ∷ ys) zero e = cc
get-map f (y ∷ ys) (suc i) e = get-map f ys i e

-- A unit of 65535 is sent.
emitted-top :
    (units uids : List ℕ) (i : ℕ)
    → length units ≤ length uids
    → 65_535 ≤ unit_at units i
    → any (λ unit. leb 65_535 unit) (emitted units uids).1 ≡ true
emitted-top [] uids i h k = absurd (omega (arith, k))
emitted-top (u ∷ us) [] i h k = absurd (omega (arith, h))
emitted-top (u ∷ us) (uid ∷ uids) zero h k = elim (Bool-cases (u == 0)) [
  | inl nothing ↦ absurd (omega (arith, k, (nat_eq.eqb_iff u 0).0 nothing))
  | inr something ↦ rw (something, le→leb 65_535 u k) refl
]
emitted-top (u ∷ us) (uid ∷ uids) (suc i) h k = elim (Bool-cases (u == 0)) [
  | inl nothing ↦ rw nothing (emitted-top us uids i (omega (arith, h)) k)
  | inr something ↦ rw something (later (leb 65_535 u) (emitted-top us uids i (omega (arith, h)) k))
]
  where
    later : (b : Bool) {c : Bool} → c ≡ true → (b || c) ≡ true
    later true e = refl
    later false e = e

exactly :
    (units : List ℕ)
    → All (λ unit. (0 < unit) × (unit ≤ 65_535)) units
    → any (λ unit. leb 65_535 unit) units ≡ any (λ unit. unit == 65_535) units
exactly [] h = refl
exactly (u ∷ us) (first, rest) = rw (exactly us rest, same u first.1) refl
  where
    same : (u : ℕ) → u ≤ 65_535 → leb 65_535 u ≡ (u == 65_535)
    same u h = ground (arith, h)

same_length : (n m : ℕ) → (n /= m) ≡ false → n ≡ m
same_length n m h = ground (arith, h)

largest_pos :
    (weight : Decimal) (weights : List Decimal)
    → ((total_of (of_int 0) (weight ∷ weights)).coefficient == 0) ≡ false
    → 0 < (largest weight weights).coefficient
largest_pos weight weights some_weight =
    let m = largest weight weights in
    elim (Bool-cases (m.coefficient == 0)) [
      | inl e ↦ absurd (
          true_ne_false (
            sym (
              (nat_eq.eqb_iff (total_of (of_int 0) (weight ∷ weights)).coefficient 0).1 (
                zero_total (of_int 0) m (weight ∷ weights) refl
                  ((nat_eq.eqb_iff m.coefficient 0).0 e)
                  (largest-le weight weights, largest-All weight weights)))
            ∙ some_weight))
      | inr positive ↦ ground (arith, positive)
    ]

top_of :
    (uids : List ℕ) (weight : Decimal) (weights : List Decimal) (positions : List (List ℕ))
    → length uids ≡ length (weight ∷ weights)
    → ((total_of (of_int 0) (weight ∷ weights)).coefficient == 0) ≡ false
    → any
        (λ unit. leb 65_535 unit)
        (emitted
          (round_groups
            (scaled_by_largest (weight ∷ weights))
            positions
            (map round_half_up (scaled_by_largest (weight ∷ weights))))
          uids).1
      ≡ true
top_of uids weight weights positions same some_weight =
    let m = largest weight weights in
    let scaled = scaled_by_largest (weight ∷ weights) in
    let units = map round_half_up scaled in
    let (i, here) = largest-here weight weights in
    let above = largest_pos weight weights some_weight in
    let scaled_here = get-map (scale m) (weight ∷ weights) i here in
    let top = top-scale m above in
    let at_i : u16_max_decimal ≼ weight_at scaled i = at_some scaled i scaled_here top in
    emitted-top (round_groups scaled positions units) uids i
      (omega (
        arith,
        same,
        length-round_groups scaled positions units,
        length-map round_half_up scaled,
        length-map (scale m) (weight ∷ weights),
      ))
      (round_groups-unit_at scaled i at_i positions units (
        unit_some units i (get-map round_half_up scaled i scaled_here)
          (top-round_half_up (scale m m) top)))
  where
    at_some :
        (xs : List Decimal) (i : ℕ) {x : Decimal}
        → get_elem? xs i ≡ some x
        → u16_max_decimal ≼ x
        → u16_max_decimal ≼ weight_at xs i
    at_some xs i e h = rw e h

    unit_some :
        (xs : List ℕ) (i : ℕ) {x : ℕ} → get_elem? xs i ≡ some x → 65_535 ≤ x → 65_535 ≤ unit_at xs i
    unit_some xs i e h = rw e h

-- The vector that is sent, for any weights and groups of fewer than 10 ^ 28 UIDs: as many UIDs as
-- weights, each weight from 1 to 65535, and unless all weights are 0 one of exactly 65535.
pub convert_weights_and_uids_for_emit-ok :
    (uids : List ℕ) (weights : List Decimal) (groups : List (List ℕ)) {vector : List ℕ × List ℕ}
    → All (λ group. length group < limit) groups
    → convert_weights_and_uids_for_emit uids weights groups ≡ ok vector
    → IsVector vector
      × (any (λ unit. unit == 65_535) vector.1
          ≡ not ((total_of (of_int 0) weights).coefficient == 0))
unfolding convert_weights_and_uids_for_emit
convert_weights_and_uids_for_emit-ok uids weights groups {vector} short e =
    let is_vector = convert_weights_and_uids_for_emit-IsVector uids weights groups short e in
    let checked = then_ok (raise_if (length uids /= length weights) lengths_differ) _ e in
    (
      is_vector,
      sym (exactly vector.1 is_vector.1)
          ∙ sent weights (same_length (length uids) (length weights) (raise_if_ok _ _ checked.0))
              checked.1,
    )
  where
    sent :
        (weights : List Decimal)
        → length uids ≡ length weights
        → (if (total_of (of_int 0) weights).coefficient == 0
            then ok ([], [])
            else (group_positions uids groups >>= λ positions. ok (
                emitted
                  (round_groups
                    (scaled_by_largest weights)
                    positions
                    (map round_half_up (scaled_by_largest weights)))
                  uids)))
          ≡ ok vector
        → any (λ unit. leb 65_535 unit) vector.1
          ≡ not ((total_of (of_int 0) weights).coefficient == 0)
    sent [] same e =
        subst (λ (v : List ℕ × List ℕ). any (λ unit. leb 65_535 unit) v.1 ≡ false) (ok_same e) refl
    sent (weight ∷ weights) same e =
        elim (Bool-cases ((total_of (of_int 0) (weight ∷ weights)).coefficient == 0)) [
          | inl nothing ↦ rw nothing (
              subst (λ (v : List ℕ × List ℕ). any (λ unit. leb 65_535 unit) v.1 ≡ false)
                (ok_same (rw nothing at e)) refl)
          | inr something ↦
              let positions = bind_ok (group_positions uids groups) _ (rw something at e) in
              rw something (
                subst (λ (v : List ℕ × List ℕ). any (λ unit. leb 65_535 unit) v.1 ≡ true)
                  (ok_same positions.2) (top_of uids weight weights positions.0 same something))
        ]
