-- ===== src/Aggregation/AssessmentConsensus.antt =====
-- endure/aggregation/assessment_consensus.py: the consensus of a round, coordinate by coordinate. A
-- bundle is the tuple of its assets.
pub mod Cells
pub mod Rows
use Prim.Native.Nat.{Ordering}
use Prim.Native.String.{compare as compare_texts}
use endure_subnet.Prelude.{
  ℕ, String, Bool, true, false, List, [], ◌∷◌, ◌++◌, if◌then◌else◌, or_else, Result, ok, err, ◌>>=◌,
  ◌>>◌, raise_if,
}
use endure_subnet.Prelude.Int.{ℤ, pos, ltb_ℤ}
use endure_subnet.Prelude.Eq.{◌==◌, nat_eq}
use endure_subnet.Prelude.Dict.{Dict, lookup, insert}
use endure_subnet.Decimal.{Decimal}
use endure_subnet.Assessment.Coordinates.{
  AssessmentCoordinate, AssessmentConsensusRow, CoordinateError, subnet_coordinate,
  coordinate_order, coordinate_eq,
}
use endure_subnet.Aggregation.Consensus.{Sample, NoSamples, aggregate_cell, consensus_weight}

pub record AssessmentOutputValue : Type 0 where
  pub horizon_seconds : ℕ
  pub output : String
  pub value : ℤ

pub record AssessmentAsset : Type 0 where
  pub netuid : ℤ
  pub outputs : List AssessmentOutputValue

abbrev pub AssessmentBundle : Type 0
AssessmentBundle = List AssessmentAsset

pub data ConsensusError : Type 0 where
  bad_coordinate : CoordinateError → ConsensusError
  empty_cell negative_dispersion no_submitters : ConsensusError

abbrev pub coordinate_or_raise : {A : Type 0} → Result CoordinateError A → Result ConsensusError A
coordinate_or_raise (ok a) = ok a
coordinate_or_raise (err e) = err (bad_coordinate e)

abbrev pub cell_or_raise : {A : Type 0} → Result NoSamples A → Result ConsensusError A
cell_or_raise (ok a) = ok a
cell_or_raise (err _) = err empty_cell

abbrev pub Samples : Type 0
Samples = Dict AssessmentCoordinate (List Sample)

-- `samples.setdefault(coordinate, []).append(...)`
unfoldable pub append_sample : AssessmentCoordinate → Sample → Samples → Samples
append_sample coordinate sample samples =
    insert coordinate (or_else (lookup coordinate samples) [] ++ (sample ∷ [])) samples

unfoldable pub add_outputs :
    ℤ → Decimal → List AssessmentOutputValue → Samples → Result ConsensusError Samples
unfolding append_sample
add_outputs netuid weight [] samples = ok samples
add_outputs netuid weight (o ∷ os) samples = do
  coordinate ← coordinate_or_raise (subnet_coordinate netuid o.horizon_seconds o.output)
  add_outputs netuid weight os (append_sample coordinate (o.value, weight) samples)

unfoldable pub add_assets : Decimal → AssessmentBundle → Samples → Result ConsensusError Samples
unfolding add_outputs
add_assets weight [] samples = ok samples
add_assets weight (asset ∷ assets) samples = do
  samples' ← add_outputs asset.netuid weight asset.outputs samples
  add_assets weight assets samples'

unfoldable pub add_bundles :
    Dict String Decimal → List (String × AssessmentBundle) → Samples → Result ConsensusError Samples
unfolding add_assets
add_bundles blends [] samples = ok samples
add_bundles blends ((hotkey, bundle) ∷ bundles) samples = do
  samples' ← add_assets (consensus_weight blends hotkey) bundle samples
  add_bundles blends bundles samples'

-- `sorted(bundles)`, with their values
unfoldable pub insert_bundle :
    String × AssessmentBundle → List (String × AssessmentBundle) → List (String × AssessmentBundle)
insert_bundle b [] = b ∷ []
insert_bundle b (c ∷ bs) =
    let rest = insert_bundle b bs in
    elim (compare_texts b.0 c.0) [ Ordering.gt ↦ c ∷ rest | _ ↦ b ∷ c ∷ bs ]

unfoldable pub sort_bundles : List (String × AssessmentBundle) → List (String × AssessmentBundle)
unfolding insert_bundle
sort_bundles [] = []
sort_bundles (b ∷ bs) = insert_bundle b (sort_bundles bs)

-- `sorted(samples)`, with their values
unfoldable pub insert_cell : AssessmentCoordinate × List Sample → Samples → Samples
insert_cell (c, xs) [] = (c, xs) ∷ []
insert_cell (c, xs) ((d, ys) ∷ cells) =
    let rest = insert_cell (c, xs) cells in
    elim (coordinate_order c d) [ Ordering.gt ↦ (d, ys) ∷ rest | _ ↦ (c, xs) ∷ (d, ys) ∷ cells ]

unfoldable pub sort_cells : Samples → Samples
unfolding insert_cell
sort_cells [] = []
sort_cells (cell ∷ cells) = insert_cell cell (sort_cells cells)

-- The row, as its constructor takes it
unfoldable pub consensus_row :
    AssessmentCoordinate → ℤ → ℤ → ℕ → Result ConsensusError AssessmentConsensusRow
consensus_row coordinate value dispersion n_submitters = do
  raise_if (ltb_ℤ dispersion (pos 0)) negative_dispersion
  raise_if (n_submitters == 0) no_submitters
  ok (record {
    coordinate = coordinate;
    value = value;
    dispersion = dispersion;
    n_submitters = n_submitters;
  })

unfoldable pub rows_of : Samples → Result ConsensusError (List AssessmentConsensusRow)
unfolding consensus_row
rows_of [] = ok []
rows_of ((coordinate, entries) ∷ cells) = do
  cell ← cell_or_raise (aggregate_cell entries)
  row ← consensus_row coordinate cell.0 cell.1 cell.2
  rows ← rows_of cells
  ok (row ∷ rows)

unfoldable pub compute_assessment_consensus :
    List (String × AssessmentBundle)
    → Dict String Decimal
    → Result ConsensusError (List AssessmentConsensusRow)
unfolding add_bundles sort_bundles sort_cells rows_of
compute_assessment_consensus bundles blends = do
  samples ← add_bundles blends (sort_bundles bundles) []
  rows_of (sort_cells samples)
