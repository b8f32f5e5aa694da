-- ===== src/Scoring/Orchestrator/Fresh.antt =====
-- assessment_orchestrator.py, `_resolve_targets`: no target at a coordinate that has one.
use endure_subnet.Prelude.{
  true_ne_false, ℕ, suc, Bool, true, false, ◌≡◌, refl, sym, ◌∙◌, subst, Option, none, some, List,
  [], ◌∷◌, ◌++◌, map, if◌then◌else◌, Result, ok, err, Bool-cases, inl, inr, All, or_false,
  of_or_false,
}
use endure_subnet.Prelude.Eq.{◌==◌, nat_eq, string_eq, pair_eq}
use endure_subnet.Prelude.Dict.{Dict, has_entry, has_entry-insert}
use endure_subnet.Decimal.{Decimal}
use endure_subnet.Assessment.Coordinates.{
  AssessmentCoordinate, AssessmentRealizedTarget, coordinate_eq,
}
use endure_subnet.Scoring.Orchestrator.{
  ResolverAnswer, found, not_found, deadline_exceeded, raised, ScoredOutputConfig,
  AssessmentScoringConfig, ResolutionBudget, exhausted, OrchestratorError, AssetOutput, cells_of,
  is_in,
}
use endure_subnet.Scoring.Orchestrator.Resolve.{
  resolved_status, Targets, after_answer, resolve_targets, add_resolved, resolved_from,
}
use endure_subnet.Scoring.Orchestrator.Pass.{coordinates_in}

-- A resolver's target is that of the coordinate it is asked for.
abbrev pub AnswersAt : AssessmentCoordinate → ResolverAnswer → Type 0
AnswersAt c (found target) = target.coordinate ≡ c
AnswersAt c _ = Unit

abbrev pub CellAnswers : AssessmentScoringConfig → ℕ → AssetOutput → Type 0
CellAnswers config horizon (netuid, output) =
    AnswersAt (config.coordinate_for netuid horizon output.output) (output.resolver netuid horizon)

abbrev pub OutputAnswers : AssessmentScoringConfig → ℕ → ScoredOutputConfig → Type 0
OutputAnswers config horizon output =
    (netuid : ℕ)
    → AnswersAt (config.coordinate_for netuid horizon output.output)
        (output.resolver netuid horizon)

pub answers_beside :
    (config : AssessmentScoringConfig) (horizon netuid : ℕ) (outputs : List ScoredOutputConfig)
    (cells : List AssetOutput)
    → All (OutputAnswers config horizon) outputs
    → All (CellAnswers config horizon) cells
    → All (CellAnswers config horizon) (map (λ output. (netuid, output)) outputs ++ cells)
answers_beside config horizon netuid [] cells h k = k
answers_beside config horizon netuid (output ∷ outputs) cells (a, h) k =
    (a netuid, answers_beside config horizon netuid outputs cells h k)

pub answers_everywhere :
    (config : AssessmentScoringConfig) (horizon : ℕ) (netuids : List ℕ)
    (outputs : List ScoredOutputConfig)
    → All (OutputAnswers config horizon) outputs
    → All (CellAnswers config horizon) (cells_of netuids outputs)
answers_everywhere config horizon [] outputs h = tt
answers_everywhere config horizon (netuid ∷ netuids) outputs h =
    answers_beside config horizon netuid outputs (cells_of netuids outputs) h
      (answers_everywhere config horizon netuids outputs h)

-- No target at the coordinate
abbrev pub Avoids :
    AssessmentCoordinate → Result OrchestratorError (List AssessmentRealizedTarget) → Type 0
Avoids c (ok targets) = is_in c (coordinates_in targets) ≡ false
Avoids c (err _) = Unit

module _ (config : AssessmentScoringConfig) (horizon : ℕ) (c : AssessmentCoordinate) where
  after_answer-Avoids :
      (d : AssessmentCoordinate) (answer : ResolverAnswer) (reading : ℕ) (rest : Targets)
      → (d == c) ≡ false
      → AnswersAt d answer
      → Avoids c rest.1
      → Avoids c (after_answer answer reading rest).1
  after_answer-Avoids d (found target) reading (n, ok targets) other same h =
      or_false (subst (λ (x : AssessmentCoordinate). (x == c) ≡ false) (sym same) other) h
  after_answer-Avoids d (found target) reading (n, err e) other same h = tt
  after_answer-Avoids d not_found reading rest other same h = h
  after_answer-Avoids d deadline_exceeded reading rest other same h = refl
  after_answer-Avoids d raised reading rest other same h = tt

  Avoids-if :
      (b : Bool) (x y : Targets)
      → (b ≡ true → Avoids c x.1)
      → (b ≡ false → Avoids c y.1)
      → Avoids c (if b then x else y).1
  Avoids-if true x y h k = h refl
  Avoids-if false x y h k = k refl

  pub resolve_targets-Avoids :
      (existing : List AssessmentCoordinate) (budget : ResolutionBudget) (cells : List AssetOutput)
      → All (CellAnswers config horizon) cells
      → is_in c existing ≡ true
      → (reading : ℕ) → Avoids c (resolve_targets config horizon existing budget cells reading).1
  unfolding resolve_targets
  resolve_targets-Avoids existing budget [] answers known reading = refl
  resolve_targets-Avoids existing budget ((netuid, output) ∷ cells) (answer, answers) known
        reading =
      let d = config.coordinate_for netuid horizon output.output in
      Avoids-if (is_in d existing) _ _
        (λ _. resolve_targets-Avoids existing budget cells answers known reading)
        (λ fresh.
          Avoids-if (exhausted budget reading) _ _ (λ _. refl)
            (λ _.
              after_answer-Avoids d (output.resolver netuid horizon) (suc reading) _
                (distinct d fresh) answer
                (resolve_targets-Avoids existing budget cells answers known (suc reading))))
    where
      distinct : (d : AssessmentCoordinate) → is_in d existing ≡ false → (d == c) ≡ false
      distinct d fresh = elim (Bool-cases (d == c)) [
        | inl same ↦ absurd (
            true_ne_false (
              sym known
              ∙ subst (λ x. is_in x existing ≡ false) ((coordinate_eq.eqb_iff d c).0 same) fresh))
        | inr other ↦ other
      ]

pub has_entry-resolved_from :
    (c : AssessmentCoordinate) (targets : List AssessmentRealizedTarget)
    (items : Dict AssessmentCoordinate Decimal)
    → is_in c (coordinates_in targets) ≡ false
    → has_entry c items ≡ false
    → has_entry c (resolved_from targets items) ≡ false
unfolding resolved_from
has_entry-resolved_from c [] items h k = k
has_entry-resolved_from c (target ∷ targets) items h k =
    let (other, rest) = of_or_false h in
    has_entry-resolved_from c targets (add_resolved target target.value items) rest
      (added target.value other)
  where
    added :
        (value : Option Decimal)
        → (target.coordinate == c) ≡ false
        → has_entry c (add_resolved target value items) ≡ false
    added none other = k
    added (some v) other = elim (Bool-cases (target.status == resolved_status)) [
      | inl yes_it_is ↦ rw yes_it_is (has_entry-insert c target.coordinate v items other k)
      | inr it_is_not ↦ rw it_is_not k
    ]
