-- ===== src/Scoring/Orchestrator.antt =====
-- endure/scoring/assessment_orchestrator.py: the scores of a round at one horizon. The functions of a
-- configuration are arguments, so is what the clock reads; reading n is what it shows at
-- the n-th call of `exhausted`.
pub mod Resolve
pub mod Score
pub mod Pass
pub mod Fresh
pub mod Known
pub mod Once
use endure_subnet.Prelude.{
  ℕ, suc, ◌+◌, ◌/◌, ◌^◌, String, Bool, true, false, ◌&&◌, ◌||◌, Option, none, some, List, [], ◌∷◌,
  ◌++◌, map, any, leb, ltb, if◌then◌else◌, Result, ok, err,
}
use endure_subnet.Prelude.Int.{ℤ}
use endure_subnet.Prelude.Eq.{◌==◌, string_eq}
use endure_subnet.Prelude.Dict.{Dict, insert}
use endure_subnet.Decimal.{Decimal}
use endure_subnet.Assessment.Coordinates.{
  AssessmentCoordinate, AssessmentRealizedTarget, coordinate_eq,
}
use endure_subnet.Scoring.Deviation.{ScoringSpec}

-- What a resolver does: it finds a target or none, its data provider hits the deadline, or it raises.
pub data ResolverAnswer : Type 0 where
  found : AssessmentRealizedTarget → ResolverAnswer
  not_found deadline_exceeded raised : ResolverAnswer

-- A resolver with the context of the pass
abbrev pub AssessmentResolver : Type 0
AssessmentResolver = ℕ → ℕ → ResolverAnswer

pub record ScoredOutputConfig : Type 0 where
  pub output : String
  pub resolver : AssessmentResolver
  pub spec : ScoringSpec

pub record AssessmentScoringConfig : Type 0 where
  pub schema_id : String
  pub horizons : List ℕ
  pub universe_members : List String → List ℕ
  pub accepted_values : String → Dict String (Dict AssessmentCoordinate ℤ)
  pub outputs : List ScoredOutputConfig
  pub active_coordinates : Option (List AssessmentCoordinate)
  pub coordinate_for : ℕ → ℕ → String → AssessmentCoordinate

pub record ResolutionBudget : Type 0 where
  pub deadline_monotonic_ns : Option ℕ
  pub now_ns_fn : ℕ → ℕ

abbrev pub reaches : Option ℕ → ℕ → Bool
reaches none now = false
reaches (some deadline) now = leb deadline now

unfoldable pub exhausted : ResolutionBudget → ℕ → Bool
exhausted budget reading = reaches budget.deadline_monotonic_ns (budget.now_ns_fn reading)

pub data OrchestratorError : Type 0 where
  not_one_horizon no_stored_universe resolver_raised unknown_output : OrchestratorError
  not_scored_live half_life_not_positive empty_active_coordinates foreign_key_failed :
      OrchestratorError

abbrev pub is_in : AssessmentCoordinate → List AssessmentCoordinate → Bool
is_in c cs = any (λ d. d == c) cs

-- The loops `for netuid in netuids: for output in outputs`
abbrev pub AssetOutput : Type 0
AssetOutput = ℕ × ScoredOutputConfig

abbrev pub cells_of : List ℕ → List ScoredOutputConfig → List AssetOutput
cells_of [] outputs = []
cells_of (netuid ∷ netuids) outputs =
    map (λ output. (netuid, output)) outputs ++ cells_of netuids outputs

abbrev pub cell_coordinate : AssessmentScoringConfig → ℕ → AssetOutput → AssessmentCoordinate
cell_coordinate config horizon (netuid, output) = config.coordinate_for netuid horizon output.output

abbrev pub coordinates_of :
    AssessmentScoringConfig → ℕ → List AssetOutput → List AssessmentCoordinate
coordinates_of config horizon cells = map (cell_coordinate config horizon) cells

-- `round_coordinates`, horizon by horizon
abbrev pub round_coordinates :
    AssessmentScoringConfig → List AssetOutput → List ℕ → List AssessmentCoordinate
round_coordinates config cells [] = []
round_coordinates config cells (horizon ∷ horizons) =
    coordinates_of config horizon cells ++ round_coordinates config cells horizons

abbrev pub has_output : AssessmentCoordinate → List ScoredOutputConfig → Bool
has_output c outputs = any (λ (output : ScoredOutputConfig). output.output == c.output) outputs

abbrev pub eligible_under :
    Option (List AssessmentCoordinate) → List ScoredOutputConfig → AssessmentCoordinate → Bool
eligible_under none outputs c = has_output c outputs
eligible_under (some active) outputs c = is_in c active

abbrev pub eligible_coordinate : AssessmentScoringConfig → AssessmentCoordinate → Bool
eligible_coordinate config c = eligible_under config.active_coordinates config.outputs c
