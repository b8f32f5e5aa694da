-- ===== src/Aggregation/Consensus/Median.antt =====
-- consensus.py, `weighted_median`: where the loop stops.
use endure_subnet.Prelude.{
  true, false, ◌≡◌, refl, ap, subst, ◌*◌, ◌^◌, List, [], ◌∷◌, ◌++◌, Result, ok, arith, Bool-cases,
  inl, inr,
}
use mathlib.Core.List.{Perm}
use mathlib.Core.List.Perm
use endure_subnet.Prelude.Int.{ℤ}
use endure_subnet.Decimal.{Decimal, of_int, add, div, at_most, ◌≼◌}
use native.Mathlib.Nat.{mul-pos}
use endure_subnet.Decimal.Rounding.{pow_pos, limit_pos}
use endure_subnet.Decimal.Order.{IsShort, round_ratio_pos}
use endure_subnet.Decimal.Laws.{round_ratio-le, add-IsShort, int-IsShort, ≼-at_most}
use endure_subnet.Aggregation.Consensus.{
  Sample, is_less, insert_sample, sort_samples, sum_from, reach, median_of, weighted_median,
  last_value, NoSamples,
}

-- The value of the sample at which the cumulative weight comes to half
abbrev pub IsReachedAt : Decimal → Decimal → List Sample → ℤ → Type 0
IsReachedAt half cumulative ordered value =
    (before : List Sample) × (weight : Decimal) × (after : List Sample) × (ordered
      ≡ before ++ ((value, weight) ∷ after))
    × (at_most half (sum_from cumulative before) ≡ false)
    × (at_most half (sum_from cumulative (before ++ ((value, weight) ∷ []))) ≡ true)

reach-IsReachedAt :
    (half cumulative : Decimal) (ordered : List Sample) (last : ℤ)
    → at_most half cumulative ≡ false
    → at_most half (sum_from cumulative ordered) ≡ true
    → IsReachedAt half cumulative ordered (reach half cumulative ordered last)
unfolding sum_from reach
reach-IsReachedAt half cumulative [] last h k = absurd (ground (arith, h, k))
reach-IsReachedAt half cumulative ((v, w) ∷ xs) last h k =
    elim (Bool-cases (at_most half (add cumulative w))) [
      | inl now ↦ rw now ([], w, xs, refl, h, now)
      | inr later ↦
          let rest = reach-IsReachedAt half (add cumulative w) xs last later k in
          rw later ((v, w) ∷ rest.0, rest.1, rest.2, ap (λ t. (v, w) ∷ t) rest.3, rest.4, rest.5)
    ]

insert_sample-perm : (x : Sample) (ys : List Sample) → Perm (insert_sample x ys) (x ∷ ys)
unfolding insert_sample
insert_sample-perm x [] = Perm.refl (x ∷ [])
insert_sample-perm x (y ∷ ys) = elim (Bool-cases (is_less y x)) [
  | inl past ↦ rw past (Perm.trans (Perm.cons y (insert_sample-perm x ys)) (Perm.swap x y ys))
  | inr here ↦ rw here (Perm.refl (x ∷ y ∷ ys))
]

sort_samples-perm : (xs : List Sample) → Perm (sort_samples xs) xs
unfolding sort_samples
sort_samples-perm [] = Perm.refl []
sort_samples-perm (x ∷ xs) =
    Perm.trans (insert_sample-perm x (sort_samples xs)) (Perm.cons x (sort_samples-perm xs))

-- No sample stands before a lesser one.
abbrev pub IsBefore : Sample → List Sample → Type 0
IsBefore x [] = Unit
IsBefore x (y ∷ _) = is_less y x ≡ false

abbrev pub IsOrdered : List Sample → Type 0
IsOrdered [] = Unit
IsOrdered (x ∷ xs) = IsBefore x xs × IsOrdered xs

is_less_asymm : (x y : Sample) → is_less x y ≡ true → is_less y x ≡ false
is_less_asymm (v, w) (v', w') h = ground (arith, h)

IsBefore-insert_sample :
    (y x : Sample) (ys : List Sample)
    → is_less x y ≡ false
    → IsBefore y ys
    → IsBefore y (insert_sample x ys)
unfolding insert_sample
IsBefore-insert_sample y x [] h k = h
IsBefore-insert_sample y x (z ∷ ys) h k = elim (Bool-cases (is_less z x)) [
  | inl past ↦ rw past k
  | inr here ↦ rw here h
]

insert_sample-IsOrdered :
    (x : Sample) (ys : List Sample) → IsOrdered ys → IsOrdered (insert_sample x ys)
unfolding insert_sample
insert_sample-IsOrdered x [] h = (tt, tt)
insert_sample-IsOrdered x (y ∷ ys) h = elim (Bool-cases (is_less y x)) [
  | inl past ↦
      rw past (
        IsBefore-insert_sample y x ys (is_less_asymm y x past) h.0,
        insert_sample-IsOrdered x ys h.1,
      )
  | inr here ↦ rw here (here, h)
]

sort_samples-IsOrdered : (xs : List Sample) → IsOrdered (sort_samples xs)
unfolding sort_samples
sort_samples-IsOrdered [] = tt
sort_samples-IsOrdered (x ∷ xs) =
    insert_sample-IsOrdered x (sort_samples xs) (sort_samples-IsOrdered xs)

sum_from-IsShort :
    (total : Decimal) (xs : List Sample) → IsShort total → IsShort (sum_from total xs)
unfolding sum_from
sum_from-IsShort total [] h = h
sum_from-IsShort total ((v, w) ∷ xs) h = sum_from-IsShort (add total w) xs (add-IsShort total w)

half_of_total : (total : Decimal) → IsShort total → div total (of_int 2) ≼ total
unfolding div
half_of_total total short =
    round_ratio-le (total.coefficient * 10 ^ 0) (2 * 10 ^ total.scale) total
      (mul-pos {m = 2} (omega arith) (pow_pos total.scale)) short (omega arith)

half_of_total_pos :
    (total : Decimal)
    → at_most total (of_int 0) ≡ false
    → at_most (div total (of_int 2)) (of_int 0) ≡ false
unfolding div
half_of_total_pos total h = ground (
  arith,
  h,
  round_ratio_pos (total.coefficient * 10 ^ 0) (2 * 10 ^ total.scale),
  mul-pos {m = 2} {n = 10 ^ total.scale},
  pow_pos total.scale,
)

median_of-IsReachedAt :
    (ordered : List Sample) (first : ℤ)
    → at_most (sum_from (of_int 0) ordered) (of_int 0) ≡ false
    → IsReachedAt
        (div (sum_from (of_int 0) ordered) (of_int 2))
        (of_int 0)
        ordered
        (median_of (sum_from (of_int 0) ordered) ordered first)
unfolding median_of
median_of-IsReachedAt ordered first positive =
    let total = sum_from (of_int 0) ordered in
    rw positive (
      reach-IsReachedAt (div total (of_int 2)) (of_int 0) ordered (last_value first ordered)
        (half_of_total_pos total positive)
        (≼-at_most (div total (of_int 2)) total
          (half_of_total total (sum_from-IsShort (of_int 0) ordered (int-IsShort 0 limit_pos)))))

ok_of : {a b : ℤ} → ◌≡◌ {A = Result NoSamples ℤ} (ok a) (ok b) → a ≡ b
ok_of e = cc

-- The weighted median of samples with a positive total weight: in their order by value and weight,
-- which is an arrangement of all of them, it is the value at which the cumulative weight first comes
-- to half of the total, all weights added and halved in the context of 28 digits.
pub weighted_median-ok :
    (samples : List Sample) (value : ℤ)
    → weighted_median samples ≡ ok value
    → at_most (sum_from (of_int 0) (sort_samples samples)) (of_int 0) ≡ false
    → Perm (sort_samples samples) samples
      × IsOrdered (sort_samples samples)
      × IsReachedAt
          (div (sum_from (of_int 0) (sort_samples samples)) (of_int 2))
          (of_int 0)
          (sort_samples samples)
          value
unfolding weighted_median
weighted_median-ok [] value e positive = absurd (cc)
weighted_median-ok ((v, w) ∷ rest) value e positive =
    let samples = (v, w) ∷ rest in
    (
      sort_samples-perm samples,
      sort_samples-IsOrdered samples,
      subst
          (IsReachedAt (div (sum_from (of_int 0) (sort_samples samples)) (of_int 2)) (of_int 0)
            (sort_samples samples))
          (ok_of e) (median_of-IsReachedAt (sort_samples samples) v positive),
    )
