-- ===== src/Scoring/Orchestrator/Resolve.antt =====
-- assessment_orchestrator.py, `_resolve_targets`: the targets that are found until the budget ends.
use endure_subnet.Prelude.{
  ℕ, suc, String, Option, none, some, List, [], ◌∷◌, if◌then◌else◌, Result, ok, err,
}
use endure_subnet.Prelude.Eq.{◌==◌, string_eq}
use endure_subnet.Prelude.Dict.{Dict, insert}
use endure_subnet.Decimal.{Decimal}
use endure_subnet.Assessment.Coordinates.{
  AssessmentCoordinate, AssessmentRealizedTarget, coordinate_eq,
}
use endure_subnet.Scoring.Orchestrator.{
  ResolverAnswer, found, not_found, deadline_exceeded, raised, AssessmentScoringConfig,
  ResolutionBudget, exhausted, OrchestratorError, resolver_raised, AssetOutput, cell_coordinate,
  is_in,
}

-- The reading of the clock that is next, and the targets
abbrev pub Targets : Type 0
Targets = ℕ × Result OrchestratorError (List AssessmentRealizedTarget)

abbrev pub with_target : AssessmentRealizedTarget → Targets → Targets
with_target target (reading, ok targets) = (reading, ok (target ∷ targets))
with_target target (reading, err e) = (reading, err e)

-- After an answer, with what the loop has for the cells that are left
abbrev pub after_answer : ResolverAnswer → ℕ → Targets → Targets
after_answer (found target) reading rest = with_target target rest
after_answer not_found reading rest = rest
after_answer deadline_exceeded reading rest = (reading, ok [])
after_answer raised reading rest = (reading, err resolver_raised)

unfoldable pub resolve_targets :
    AssessmentScoringConfig
    → ℕ
    → List AssessmentCoordinate
    → ResolutionBudget
    → List AssetOutput
    → ℕ
    → Targets
resolve_targets config horizon existing budget [] reading = (reading, ok [])
resolve_targets config horizon existing budget (cell ∷ cells) reading =
    let skipped = resolve_targets config horizon existing budget cells reading in
    let rest = resolve_targets config horizon existing budget cells (suc reading) in
    if is_in (cell_coordinate config horizon cell) existing
    then skipped
    else if exhausted budget reading
    then (suc reading, ok [])
    else after_answer (cell.1.resolver cell.0 horizon) (suc reading) rest

-- `REALIZED_TARGET_RESOLVED`
abbrev pub resolved_status : String
resolved_status = "resolved"

abbrev pub add_resolved :
    AssessmentRealizedTarget
    → Option Decimal
    → Dict AssessmentCoordinate Decimal
    → Dict AssessmentCoordinate Decimal
add_resolved target none values = values
add_resolved target (some value) values =
    if target.status == resolved_status then insert target.coordinate value values else values

unfoldable pub resolved_from :
    List AssessmentRealizedTarget
    → Dict AssessmentCoordinate Decimal
    → Dict AssessmentCoordinate Decimal
resolved_from [] values = values
resolved_from (target ∷ targets) values =
    resolved_from targets (add_resolved target target.value values)
