-- ===== src/Scoring/WeightProcessing/Bounds.antt =====
-- weight_processing.py, `convert_weights_and_uids_for_emit`: its units fit in 16 bits.
use endure_subnet.Prelude.{
  ℕ, zero, suc, ◌+◌, ◌≤◌, ◌<◌, Bool, true, false, ◌≡◌, refl, ap, ◌∙◌, subst, Option, none, some,
  List, [], ◌∷◌, map, length, sort_by, insert_by, if◌then◌else◌, Result, ok, ◌>>=◌, bind_ok,
  then_ok, raise_if, arith, All, Bool-cases, inl, inr,
}
use endure_subnet.Prelude.Eq.{◌==◌, ◌/=◌, nat_eq}
use endure_subnet.Decimal.{Decimal, of_int, limit, ◌≼◌, below}
use endure_subnet.Decimal.Laws.{≼_refl}
use endure_subnet.Scoring.WeightProcessing.{
  EmitError, lengths_differ, u16_max_decimal, total_of, largest, scale, round_half_up, weight_at,
  set_at, remainder_at, spare_units, ranked, give_units, round_groups, group_positions, emitted,
  has_repetition, uids_not_distinct, uid_in_two_groups, flatten, positions_of, position_of,
  keep_position, scaled_by_largest, convert_weights_and_uids_for_emit,
}
use endure_subnet.Scoring.WeightProcessing.Remainders.{
  All-sort_by, round_half_up-le, positives, positives-sort_by, sign, total_of-le, remainder-le-one,
  largest-le, largest-All, scale-le, above_zero, zero_below, sign-le-one, unit-le,
}

-- The members whose remainder is above zero stand before the others.
module _ (scaled : List Decimal) where
  abbrev left : ℕ → Decimal
  left index = remainder_at scaled index

  abbrev by_remainder : ℕ → ℕ → Bool
  by_remainder a b = below (left a) (left b)

  abbrev IsFront : List ℕ → Type 0
  IsFront [] = Unit
  IsFront (i ∷ is) = (((left i).coefficient == 0) ≡ true → positives (map left is) ≡ 0) × IsFront is

  insert_by-IsFront : (x : ℕ) (ys : List ℕ) → IsFront ys → IsFront (insert_by by_remainder x ys)
  insert_by-IsFront x [] h = (λ _. refl, tt)
  insert_by-IsFront x (y ∷ ys) (first, rest) = elim (Bool-cases (by_remainder x y)) [
    | inl before ↦
        rw before
          ((λ e. absurd (above_zero (left x) (left y) before e)), insert_by-IsFront x ys rest)
    | inr after ↦ rw after (
      (λ e. none_left (left y).coefficient (zero_below (left x) (left y) after e) first),
      (first, rest),
    )
  ]
    where
      none_left :
          (n : ℕ) {k : ℕ} → n ≡ 0 → ((n == 0) ≡ true → k ≡ 0) → (if n == 0 then 0 else 1) + k ≡ 0
      none_left n e h = ground (arith, e, h)

  ranked-IsFront : (members : List ℕ) → IsFront (sort_by by_remainder members)
  ranked-IsFront [] = tt
  ranked-IsFront (x ∷ xs) = insert_by-IsFront x (sort_by by_remainder xs) (ranked-IsFront xs)

  positives-insert_members :
      (x : ℕ) (ys : List ℕ)
      → positives (map left (insert_by by_remainder x ys)) ≡ positives (map left (x ∷ ys))
  positives-insert_members x [] = refl
  positives-insert_members x (y ∷ ys) = elim (Bool-cases (by_remainder x y)) [
    | inl before ↦ rw (before, positives-insert_members x ys) (omega arith)
    | inr after ↦ rw after refl
  ]

  positives-ranked :
      (members : List ℕ)
      → positives (map left (sort_by by_remainder members)) ≡ positives (map left members)
  positives-ranked [] = refl
  positives-ranked (x ∷ xs) =
      positives-insert_members x (sort_by by_remainder xs)
      ∙ ap (λ (n : ℕ). sign (left x) + n) (positives-ranked xs)

  -- Units of at most 65535, each
  abbrev Fits : List ℕ → Type 0
  Fits units = All (λ unit. unit ≤ 65_535) units

  set_at-Fits :
      (i unit : ℕ) (units : List ℕ) → unit ≤ 65_535 → Fits units → Fits (set_at i unit units)
  set_at-Fits i unit [] h k = tt
  set_at-Fits zero unit (u ∷ us) h (first, rest) = (h, rest)
  set_at-Fits (suc i) unit (u ∷ us) h (first, rest) = (first, set_at-Fits i unit us h rest)

  give_units-Fits :
      (spare rank : ℕ) (members units : List ℕ)
      → ((i : ℕ) → weight_at scaled i ≼ u16_max_decimal)
      → IsFront members
      → spare ≤ rank + positives (map left members)
      → Fits units
      → Fits (give_units scaled spare rank members units)
  unfolding give_units
  give_units-Fits spare rank [] units small front enough fits = fits
  give_units-Fits spare rank (i ∷ members) units small (first, front) enough fits =
      give_units-Fits spare (suc rank) members _ small front
        (omega (arith, enough, sign-le-one (left i)))
        (set_at-Fits i _ units
          (unit-le (weight_at scaled i) rank spare (positives (map left members)) (small i) first
            enough)
          fits)

  remainders-All : (members : List ℕ) → All (λ x. x ≼ of_int 1) (map left members)
  remainders-All [] = tt
  remainders-All (i ∷ members) = (remainder-le-one (weight_at scaled i), remainders-All members)

  positives-members : (members : List ℕ) → positives (map left members) ≤ length members
  positives-members [] = omega arith
  positives-members (i ∷ members) = omega (arith, sign-le-one (left i), positives-members members)

  spare-le :
      (members : List ℕ)
      → length members < limit
      → spare_units scaled members ≤ positives (map left members)
  spare-le members short =
      let lefts = map left members in
      let ordered = sort_by (λ x y. below y x) lefts in
      let same = positives-sort_by (λ x y. below y x) lefts in
      let count = positives-members members in
      let bound = round_half_up-le (total_of (of_int 0) ordered) (0 + positives ordered) (
        total_of-le (of_int 0) 0 ordered (omega (arith, short, same, count)) (≼_refl (of_int 0))
          (All-sort_by (λ x. x ≼ of_int 1) (λ x y. below y x) lefts (remainders-All members))) in
      omega (arith, bound, same)

  round_groups-Fits :
      (groups : List (List ℕ)) (units : List ℕ)
      → ((i : ℕ) → weight_at scaled i ≼ u16_max_decimal)
      → All (λ members. length members < limit) groups
      → Fits units
      → Fits (round_groups scaled groups units)
  unfolding round_groups
  round_groups-Fits [] units small short fits = fits
  round_groups-Fits (members ∷ groups) units small (first, short) fits =
      round_groups-Fits groups _ small short (
        give_units-Fits (spare_units scaled members) 0 (ranked scaled members) units small
          (ranked-IsFront members) (omega (arith, spare-le members first, positives-ranked members))
          fits)

positions-length : (uids group : List ℕ) → length (positions_of uids group) ≤ length group
positions-length uids [] = omega arith
positions-length uids (uid ∷ group) =
    kept (position_of 0 uid uids) (positions_of uids group) (positions-length uids group)
  where
    kept :
        (o : Option ℕ) (positions : List ℕ) {n : ℕ}
        → length positions ≤ n
        → length (keep_position o positions) ≤ suc n
    kept none positions h = omega (arith, h)
    kept (some i) positions h = omega (arith, h)

positions-All :
    (uids : List ℕ) (groups : List (List ℕ))
    → All (λ group. length group < limit) groups
    → All (λ members. length members < limit) (map (positions_of uids) groups)
positions-All uids [] h = tt
positions-All uids (group ∷ groups) (first, rest) =
    (omega (arith, first, positions-length uids group), positions-All uids groups rest)

scaled-All :
    (m : Decimal) (weights : List Decimal)
    → All (λ x. x ≼ m) weights
    → All (λ x. x ≼ u16_max_decimal) (map (scale m) weights)
scaled-All m [] h = tt
scaled-All m (x ∷ xs) (first, rest) = (scale-le m x first, scaled-All m xs rest)

scaled_by_largest-All :
    (weights : List Decimal) → All (λ x. x ≼ u16_max_decimal) (scaled_by_largest weights)
scaled_by_largest-All [] = tt
scaled_by_largest-All (weight ∷ weights) =
    scaled-All (largest weight weights) (weight ∷ weights)
      (largest-le weight weights, largest-All weight weights)

weight_at-le :
    (scaled : List Decimal)
    → All (λ x. x ≼ u16_max_decimal) scaled
    → (i : ℕ) → weight_at scaled i ≼ u16_max_decimal
weight_at-le [] h i = omega arith
weight_at-le (x ∷ xs) (first, rest) zero = first
weight_at-le (x ∷ xs) (first, rest) (suc i) = weight_at-le xs rest i

rounded-Fits :
    (scaled : List Decimal)
    → All (λ x. x ≼ u16_max_decimal) scaled
    → All (λ unit. unit ≤ 65_535) (map round_half_up scaled)
rounded-Fits [] h = tt
rounded-Fits (x ∷ xs) (first, rest) = (round_half_up-le x 65_535 first, rounded-Fits xs rest)

abbrev pub IsVector : List ℕ × List ℕ → Type 0
IsVector (uids, units) =
    (length uids ≡ length units) × All (λ unit. (0 < unit) × (unit ≤ 65_535)) units

emitted-IsVector :
    (units uids : List ℕ) → All (λ unit. unit ≤ 65_535) units → IsVector (emitted units uids)
emitted-IsVector [] uids h = (refl, tt)
emitted-IsVector (u ∷ us) [] h = (refl, tt)
emitted-IsVector (u ∷ us) (uid ∷ uids) (first, rest) =
    let (same, all_fit) = emitted-IsVector us uids rest in
    elim (Bool-cases (u == 0)) [
      | inl nothing ↦ rw nothing (same, all_fit)
      | inr something ↦ rw something (ap suc same, ((ground (arith, something), first), all_fit))
    ]

pub ok_same : {A : Type 0} {x y : A} → ◌≡◌ {A = Result EmitError A} (ok x) (ok y) → x ≡ y
ok_same e = cc

group_positions-All :
    (uids : List ℕ) (groups : List (List ℕ)) {positions : List (List ℕ)}
    → group_positions uids groups ≡ ok positions
    → All (λ group. length group < limit) groups
    → All (λ members. length members < limit) positions
unfolding group_positions
group_positions-All uids [] e h = subst (All (λ members. length members < limit)) (ok_same e) tt
group_positions-All uids (group ∷ groups) e h =
    let a = then_ok (raise_if (has_repetition uids) uids_not_distinct) _ e in
    let b =
      then_ok (raise_if (has_repetition (flatten (group ∷ groups))) uid_in_two_groups) _ a.1 in
    subst (All (λ members. length members < limit)) (ok_same b.1)
      (positions-All uids (group ∷ groups) h)

-- The vector that is sent: as many UIDs as weights, and each weight from 1 to 65535. The weights and
-- groups are any, with fewer than 10 ^ 28 UIDs in a group.
pub convert_weights_and_uids_for_emit-IsVector :
    (uids : List ℕ) (weights : List Decimal) (groups : List (List ℕ)) {vector : List ℕ × List ℕ}
    → All (λ group. length group < limit) groups
    → convert_weights_and_uids_for_emit uids weights groups ≡ ok vector
    → IsVector vector
unfolding convert_weights_and_uids_for_emit
convert_weights_and_uids_for_emit-IsVector uids weights groups {vector} short e =
    sent ((total_of (of_int 0) weights).coefficient == 0)
      (then_ok (raise_if (length uids /= length weights) lengths_differ) _ e).1
  where
    scaled : List Decimal
    scaled = scaled_by_largest weights

    sent :
        (nothing : Bool)
        → (if nothing
            then ok ([], [])
            else (group_positions uids groups >>= λ positions.
                ok (emitted (round_groups scaled positions (map round_half_up scaled)) uids)))
          ≡ ok vector
        → IsVector vector
    sent true e = subst IsVector (ok_same e) (refl, tt)
    sent false e =
        let positions = bind_ok (group_positions uids groups) _ e in
        subst IsVector (ok_same positions.2) (
          emitted-IsVector (round_groups scaled positions.0 (map round_half_up scaled)) uids (
            round_groups-Fits scaled positions.0 (map round_half_up scaled)
              (weight_at-le scaled (scaled_by_largest-All weights))
              (group_positions-All uids groups positions.1 short)
              (rounded-Fits scaled (scaled_by_largest-All weights))))
