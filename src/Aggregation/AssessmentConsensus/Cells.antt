-- ===== src/Aggregation/AssessmentConsensus/Cells.antt =====
-- assessment_consensus.py: the rows of a consensus against the forecasts for each coordinate.
use mathlib.Core.List.{append-nil, append_assoc}
use endure_subnet.Prelude.{
  String, Bool, false, ◌≡◌, refl, sym, ◌∙◌, ap, subst, Option, none, some, List, [], ◌∷◌, ◌++◌,
  if◌then◌else◌, or_else, Result, ok, err, bind_ok, arith, Bool-cases, inl, inr,
}
use endure_subnet.Prelude.Int.{ℤ}
use endure_subnet.Prelude.Eq.{◌==◌}
use endure_subnet.Prelude.Dict.{Dict, lookup, lookup-insert, HasUniqueKeys, insert-HasUniqueKeys}
use endure_subnet.Decimal.{Decimal}
use endure_subnet.Assessment.Coordinates.{
  AssessmentCoordinate, CoordinateError, subnet_coordinate, coordinate_eq,
}
use endure_subnet.Aggregation.Consensus.{Sample, consensus_weight}
use endure_subnet.Aggregation.AssessmentConsensus.{
  AssessmentOutputValue, AssessmentBundle, ConsensusError, coordinate_or_raise, Samples,
  append_sample, add_outputs, add_assets, add_bundles,
}

-- The forecasts for a coordinate, with the weights of their miners
abbrev pub is_about : AssessmentCoordinate → Result CoordinateError AssessmentCoordinate → Bool
is_about c (ok d) = d == c
is_about c (err _) = false

abbrev pub output_samples :
    AssessmentCoordinate → ℤ → Decimal → List AssessmentOutputValue → List Sample
output_samples c netuid weight [] = []
output_samples c netuid weight (o ∷ os) =
    (if is_about c (subnet_coordinate netuid o.horizon_seconds o.output)
      then (o.value, weight) ∷ []
      else [])
    ++ output_samples c netuid weight os

abbrev pub asset_samples : AssessmentCoordinate → Decimal → AssessmentBundle → List Sample
asset_samples c weight [] = []
asset_samples c weight (asset ∷ assets) =
    output_samples c asset.netuid weight asset.outputs ++ asset_samples c weight assets

abbrev pub samples_for :
    AssessmentCoordinate → Dict String Decimal → List (String × AssessmentBundle) → List Sample
samples_for c blends [] = []
samples_for c blends ((hotkey, bundle) ∷ bundles) =
    asset_samples c (consensus_weight blends hotkey) bundle ++ samples_for c blends bundles

-- A cell that is there has samples.
abbrev pub as_cell : List Sample → Option (List Sample)
as_cell [] = none
as_cell (x ∷ xs) = some (x ∷ xs)

abbrev pub Holds : Samples → (AssessmentCoordinate → List Sample) → Type 0
Holds d s = (c : AssessmentCoordinate) → lookup c d ≡ as_cell (s c)

as_cell-snoc : (xs : List Sample) (x : Sample) → as_cell (xs ++ (x ∷ [])) ≡ some (xs ++ (x ∷ []))
as_cell-snoc [] x = refl
as_cell-snoc (y ∷ xs) x = refl

or_else-as_cell : (xs : List Sample) → or_else (as_cell xs) [] ≡ xs
or_else-as_cell [] = refl
or_else-as_cell (x ∷ xs) = refl

append_sample-Holds :
    (d : Samples) (s : AssessmentCoordinate → List Sample) (c' : AssessmentCoordinate) (x : Sample)
    → Holds d s
    → Holds (append_sample c' x d) (λ c. s c ++ (if c' == c then x ∷ [] else []))
unfolding append_sample
append_sample-Holds d s c' x h c =
    lookup-insert c' c (or_else (lookup c' d) [] ++ (x ∷ [])) d ∙ elim (Bool-cases (c' == c)) [
      | inl same ↦ rw same (
          ap (λ xs. some (xs ++ (x ∷ [])))
            (ap (λ o. or_else o []) (h c')
              ∙ (or_else-as_cell (s c') ∙ ap s ((coordinate_eq.eqb_iff c' c).0 same)))
          ∙ sym (as_cell-snoc (s c) x))
      | inr other ↦ rw (other, append-nil (s c)) (h c)
    ]

Holds-regroup :
    (d : Samples) (s t : AssessmentCoordinate → List Sample)
    → Holds d s
    → ((c : AssessmentCoordinate) → s c ≡ t c)
    → Holds d t
Holds-regroup d s t h e c = h c ∙ ap as_cell (e c)

ok_of : {a b : Samples} → ◌≡◌ {A = Result ConsensusError Samples} (ok a) (ok b) → a ≡ b
ok_of e = cc

coordinate_or_raise_ok :
    (r : Result CoordinateError AssessmentCoordinate) (c : AssessmentCoordinate)
    → coordinate_or_raise r ≡ ok c
    → r ≡ ok c
coordinate_or_raise_ok (ok d) c e = ground (arith, e)
coordinate_or_raise_ok (err x) c e = absurd cc

add_outputs-Holds :
    (netuid : ℤ) (weight : Decimal) (os : List AssessmentOutputValue) (d : Samples) {d' : Samples}
    (s : AssessmentCoordinate → List Sample)
    → add_outputs netuid weight os d ≡ ok d'
    → Holds d s
    → Holds d' (λ c. s c ++ output_samples c netuid weight os)
unfolding add_outputs
add_outputs-Holds netuid weight [] d {d'} s e h =
    Holds-regroup d' s (λ c. s c ++ []) (subst (λ t. Holds t s) (ok_of e) h)
      (λ c. sym (append-nil (s c)))
add_outputs-Holds netuid weight (o ∷ os) d {d'} s e h =
    let first =
      bind_ok (coordinate_or_raise (subnet_coordinate netuid o.horizon_seconds o.output)) _ e in
    let named =
      coordinate_or_raise_ok (subnet_coordinate netuid o.horizon_seconds o.output) first.0
        first.1 in
    let rest =
      add_outputs-Holds netuid weight os (append_sample first.0 (o.value, weight) d)
        (λ c. s c ++ (if first.0 == c then (o.value, weight) ∷ [] else [])) first.2
        (append_sample-Holds d s first.0 (o.value, weight) h) in
    Holds-regroup d'
      (λ c.
        (s c ++ (if first.0 == c then (o.value, weight) ∷ [] else []))
        ++ output_samples c netuid weight os)
      (λ c. s c ++ output_samples c netuid weight (o ∷ os)) rest
      (λ c.
        append_assoc (s c) (if first.0 == c then (o.value, weight) ∷ [] else [])
          (output_samples c netuid weight os)
        ∙ ap
            (λ (b : Bool).
              s c
              ++ ((if b then (o.value, weight) ∷ [] else []) ++ output_samples c netuid weight os))
            (sym (ap (is_about c) named)))

add_assets-Holds :
    (weight : Decimal) (assets : AssessmentBundle) (d : Samples) {d' : Samples}
    (s : AssessmentCoordinate → List Sample)
    → add_assets weight assets d ≡ ok d'
    → Holds d s
    → Holds d' (λ c. s c ++ asset_samples c weight assets)
unfolding add_assets
add_assets-Holds weight [] d {d'} s e h =
    Holds-regroup d' s (λ c. s c ++ []) (subst (λ t. Holds t s) (ok_of e) h)
      (λ c. sym (append-nil (s c)))
add_assets-Holds weight (asset ∷ assets) d {d'} s e h =
    let first = bind_ok (add_outputs asset.netuid weight asset.outputs d) _ e in
    let here = add_outputs-Holds asset.netuid weight asset.outputs d s first.1 h in
    Holds-regroup d'
      (λ c.
        (s c ++ output_samples c asset.netuid weight asset.outputs)
        ++ asset_samples c weight assets)
      (λ c. s c ++ asset_samples c weight (asset ∷ assets))
      (add_assets-Holds weight assets first.0
        (λ c. s c ++ output_samples c asset.netuid weight asset.outputs) first.2 here)
      (λ c.
        append_assoc (s c) (output_samples c asset.netuid weight asset.outputs)
          (asset_samples c weight assets))

pub add_bundles-Holds :
    (blends : Dict String Decimal) (bundles : List (String × AssessmentBundle)) (d : Samples)
    {d' : Samples} (s : AssessmentCoordinate → List Sample)
    → add_bundles blends bundles d ≡ ok d'
    → Holds d s
    → Holds d' (λ c. s c ++ samples_for c blends bundles)
unfolding add_bundles
add_bundles-Holds blends [] d {d'} s e h =
    Holds-regroup d' s (λ c. s c ++ []) (subst (λ t. Holds t s) (ok_of e) h)
      (λ c. sym (append-nil (s c)))
add_bundles-Holds blends ((hotkey, bundle) ∷ bundles) d {d'} s e h =
    let weight = consensus_weight blends hotkey in
    let first = bind_ok (add_assets weight bundle d) _ e in
    Holds-regroup d' (λ c. (s c ++ asset_samples c weight bundle) ++ samples_for c blends bundles)
      (λ c. s c ++ samples_for c blends ((hotkey, bundle) ∷ bundles))
      (add_bundles-Holds blends bundles first.0 (λ c. s c ++ asset_samples c weight bundle) first.2
        (add_assets-Holds weight bundle d s first.1 h))
      (λ c. append_assoc (s c) (asset_samples c weight bundle) (samples_for c blends bundles))

-- The keys stay apart.
add_outputs-HasUniqueKeys :
    (netuid : ℤ) (weight : Decimal) (os : List AssessmentOutputValue) (d : Samples) {d' : Samples}
    → add_outputs netuid weight os d ≡ ok d'
    → HasUniqueKeys d
    → HasUniqueKeys d'
unfolding add_outputs append_sample
add_outputs-HasUniqueKeys netuid weight [] d e h = subst HasUniqueKeys (ok_of e) h
add_outputs-HasUniqueKeys netuid weight (o ∷ os) d e h =
    let first =
      bind_ok (coordinate_or_raise (subnet_coordinate netuid o.horizon_seconds o.output)) _ e in
    add_outputs-HasUniqueKeys netuid weight os (append_sample first.0 (o.value, weight) d) first.2
      (insert-HasUniqueKeys first.0 (or_else (lookup first.0 d) [] ++ ((o.value, weight) ∷ [])) d h)

add_assets-HasUniqueKeys :
    (weight : Decimal) (assets : AssessmentBundle) (d : Samples) {d' : Samples}
    → add_assets weight assets d ≡ ok d'
    → HasUniqueKeys d
    → HasUniqueKeys d'
unfolding add_assets
add_assets-HasUniqueKeys weight [] d e h = subst HasUniqueKeys (ok_of e) h
add_assets-HasUniqueKeys weight (asset ∷ assets) d e h =
    let first = bind_ok (add_outputs asset.netuid weight asset.outputs d) _ e in
    add_assets-HasUniqueKeys weight assets first.0 first.2
      (add_outputs-HasUniqueKeys asset.netuid weight asset.outputs d first.1 h)

pub add_bundles-HasUniqueKeys :
    (blends : Dict String Decimal) (bundles : List (String × AssessmentBundle)) (d : Samples)
    {d' : Samples}
    → add_bundles blends bundles d ≡ ok d'
    → HasUniqueKeys d
    → HasUniqueKeys d'
unfolding add_bundles
add_bundles-HasUniqueKeys blends [] d e h = subst HasUniqueKeys (ok_of e) h
add_bundles-HasUniqueKeys blends ((hotkey, bundle) ∷ bundles) d e h =
    let first = bind_ok (add_assets (consensus_weight blends hotkey) bundle d) _ e in
    add_bundles-HasUniqueKeys blends bundles first.0 first.2
      (add_assets-HasUniqueKeys (consensus_weight blends hotkey) bundle d first.1 h)
