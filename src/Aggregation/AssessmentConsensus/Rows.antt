-- ===== src/Aggregation/AssessmentConsensus/Rows.antt =====
-- assessment_consensus.py: the row of each coordinate.
use endure_subnet.Prelude.{
  ℕ, String, Bool, true, false, ◌≡◌, refl, sym, ◌∙◌, ap, subst, Option, none, some, List, [], ◌∷◌,
  if◌then◌else◌, Result, ok, err, bind_ok, arith,
}
use endure_subnet.Prelude.Int.{ℤ}
use endure_subnet.Prelude.Eq.{◌==◌}
use endure_subnet.Prelude.Dict.{Dict, lookup, HasUniqueKeys}
use endure_subnet.Decimal.{Decimal}
use endure_subnet.Assessment.Coordinates.{
  AssessmentCoordinate, AssessmentConsensusRow, coordinate_order, coordinate_eq,
}
use endure_subnet.Aggregation.Consensus.{Sample, aggregate_cell, NoSamples}
use endure_subnet.Aggregation.AssessmentConsensus.{
  AssessmentBundle, ConsensusError, cell_or_raise, Samples, add_bundles, sort_bundles, insert_cell,
  sort_cells, consensus_row, rows_of, compute_assessment_consensus,
}
use Prim.Native.Nat.{Ordering}
use endure_subnet.Aggregation.AssessmentConsensus.Cells.{
  samples_for, as_cell, add_bundles-Holds, add_bundles-HasUniqueKeys,
}

abbrev Cell : Type 0
Cell = AssessmentCoordinate × List Sample

swap_tests :
    {A : Type 0} (a b : Bool) (x y z : A)
    → (a ≡ true → b ≡ true → ⊥)
    → (if b then y else (if a then x else z)) ≡ (if a then x else (if b then y else z))
swap_tests true true x y z h = absurd (h refl refl)
swap_tests true false x y z h = refl
swap_tests false b x y z h = refl

lookup-placed :
    (o : Ordering) (k c d : AssessmentCoordinate) (xs ys : List Sample) (rest cells : Samples)
    → (d == c) ≡ false
    → lookup k rest ≡ (if c == k then some xs else lookup k cells)
    → lookup k (elim o [ Ordering.gt ↦ (d, ys) ∷ rest | _ ↦ (c, xs) ∷ (d, ys) ∷ cells ])
      ≡ (if c == k then some xs else lookup k ((d, ys) ∷ cells))
unfolding lookup
lookup-placed Ordering.lt k c d xs ys rest cells apart h = refl
lookup-placed Ordering.eq k c d xs ys rest cells apart h = refl
lookup-placed Ordering.gt k c d xs ys rest cells apart h =
    ap (λ o. if d == k then some ys else o) h
    ∙ swap_tests (c == k) (d == k) (some xs) (some ys) (lookup k cells) (λ p q. cc (
        sym apart
        ∙ (coordinate_eq.eqb_iff d c).1
            ((coordinate_eq.eqb_iff d k).0 q ∙ sym ((coordinate_eq.eqb_iff c k).0 p))))

lookup-insert_cell :
    (k c : AssessmentCoordinate) (xs : List Sample) (cells : Samples)
    → lookup c cells ≡ none
    → lookup k (insert_cell (c, xs) cells) ≡ (if c == k then some xs else lookup k cells)
unfolding insert_cell lookup
lookup-insert_cell k c xs [] h = refl
lookup-insert_cell k c xs ((d, ys) ∷ cells) h =
    let split = apart (d == c) ys (lookup c cells) h in
    lookup-placed (coordinate_order c d) k c d xs ys (insert_cell (c, xs) cells) cells split.0
      (lookup-insert_cell k c xs cells split.1)
  where
    apart :
        (b : Bool) (ys : List Sample) (o : Option (List Sample))
        → (if b then some ys else o) ≡ none
        → (b ≡ false) × (o ≡ none)
    apart true ys o e = absurd cc
    apart false ys o e = (refl, e)

lookup-sort_cells :
    (k : AssessmentCoordinate) (cells : Samples)
    → HasUniqueKeys cells
    → lookup k (sort_cells cells) ≡ lookup k cells
unfolding sort_cells lookup
lookup-sort_cells k [] h = refl
lookup-sort_cells k ((c, xs) ∷ cells) h =
    lookup-insert_cell k c xs (sort_cells cells) (lookup-sort_cells c cells h.1 ∙ h.0)
    ∙ ap (λ o. if c == k then some xs else o) (lookup-sort_cells k cells h.1)

-- The row of a coordinate
abbrev pub find_row :
    AssessmentCoordinate → List AssessmentConsensusRow → Option AssessmentConsensusRow
find_row c [] = none
find_row c (row ∷ rows) = if row.coordinate == c then some row else find_row c rows

abbrev pub IsRowFor : Option (List Sample) → Option AssessmentConsensusRow → Type 0
IsRowFor none found = found ≡ none
IsRowFor (some entries) found =
    (row : AssessmentConsensusRow) × (found ≡ some row)
    × (aggregate_cell entries ≡ ok (row.value, row.dispersion, row.n_submitters))

ok_value : {A : Type 0} {a b : A} → ◌≡◌ {A = Result ConsensusError A} (ok a) (ok b) → a ≡ b
ok_value e = cc

cell_or_raise_ok : {A : Type 0} (r : Result NoSamples A) {a : A} → cell_or_raise r ≡ ok a → r ≡ ok a
cell_or_raise_ok (ok b) e = ap ok (ok_value e)
cell_or_raise_ok (err x) e = absurd cc

consensus_row_ok :
    (c : AssessmentCoordinate) (v d : ℤ) (n : ℕ) {row : AssessmentConsensusRow}
    → consensus_row c v d n ≡ ok row
    → (row.coordinate ≡ c) × (row.value ≡ v) × (row.dispersion ≡ d) × (row.n_submitters ≡ n)
unfolding consensus_row
consensus_row_ok c v d n e = ground (arith, e)

cell_fields :
    (row : AssessmentConsensusRow) (cell : ℤ × ℤ × ℕ)
    → row.value ≡ cell.0
    → row.dispersion ≡ cell.1
    → row.n_submitters ≡ cell.2
    → cell ≡ (row.value, row.dispersion, row.n_submitters)
cell_fields row cell v d n = ground (arith, v, d, n)

IsRowFor-if :
    (b : Bool) (entries : List Sample) (o : Option (List Sample)) (row : AssessmentConsensusRow)
    (found : Option AssessmentConsensusRow)
    → aggregate_cell entries ≡ ok (row.value, row.dispersion, row.n_submitters)
    → IsRowFor o found
    → IsRowFor (if b then some entries else o) (if b then some row else found)
IsRowFor-if true entries o row found e h = (row, refl, e)
IsRowFor-if false entries o row found e h = h

rows_of-IsRowFor :
    (cells : Samples) {rows : List AssessmentConsensusRow}
    → rows_of cells ≡ ok rows
    → (k : AssessmentCoordinate) → IsRowFor (lookup k cells) (find_row k rows)
unfolding rows_of lookup
rows_of-IsRowFor [] e k = subst (λ rs. find_row k rs ≡ none) (ok_value e) refl
rows_of-IsRowFor ((c, entries) ∷ cells) e k =
    let cell = bind_ok (cell_or_raise (aggregate_cell entries)) _ e in
    let row = bind_ok (consensus_row c cell.0.0 cell.0.1 cell.0.2) _ cell.2 in
    let rest = bind_ok (rows_of cells) _ row.2 in
    let fields = consensus_row_ok c cell.0.0 cell.0.1 cell.0.2 row.1 in
    let ih = rows_of-IsRowFor cells rest.1 k in
    let same = ap ok (cell_fields row.0 cell.0 fields.1 fields.2 fields.3) in
    subst (λ rs. IsRowFor (lookup k ((c, entries) ∷ cells)) (find_row k rs)) (ok_value rest.2)
      (subst
        (λ d.
          IsRowFor (lookup k ((c, entries) ∷ cells))
            (if d == k then some row.0 else find_row k rest.0))
        (sym fields.0)
        (IsRowFor-if (c == k) entries (lookup k cells) row.0 (find_row k rest.0)
          (cell_or_raise_ok (aggregate_cell entries) cell.1 ∙ same) ih))

abbrev pub IsConsensus : List Sample → Option AssessmentConsensusRow → Type 0
IsConsensus [] found = found ≡ none
IsConsensus (x ∷ entries) found = IsRowFor (some (x ∷ entries)) found

of_cell :
    (entries : List Sample) (found : Option AssessmentConsensusRow)
    → IsRowFor (as_cell entries) found
    → IsConsensus entries found
of_cell [] found h = h
of_cell (x ∷ entries) found h = h

-- Where a consensus is computed, a coordinate has a row exactly if some bundle forecasts it, and the
-- row has the weighted median, the dispersion and the number of all the forecasts for it, each with the
-- weight of its miner's blended score.
pub compute_assessment_consensus-rows :
    (bundles : List (String × AssessmentBundle)) (blends : Dict String Decimal)
    {rows : List AssessmentConsensusRow}
    → compute_assessment_consensus bundles blends ≡ ok rows
    → (c : AssessmentCoordinate)
    → IsConsensus (samples_for c blends (sort_bundles bundles)) (find_row c rows)
unfolding compute_assessment_consensus lookup
compute_assessment_consensus-rows bundles blends {rows} e c =
    let samples = bind_ok (add_bundles blends (sort_bundles bundles) []) _ e in
    let held = add_bundles-Holds blends (sort_bundles bundles) [] (λ k. []) samples.1 (λ k. refl) in
    let unique = add_bundles-HasUniqueKeys blends (sort_bundles bundles) [] samples.1 tt in
    of_cell (samples_for c blends (sort_bundles bundles)) (find_row c rows) (
      subst (λ o. IsRowFor o (find_row c rows)) (lookup-sort_cells c samples.0 unique ∙ held c)
        (rows_of-IsRowFor (sort_cells samples.0) samples.2 c))
