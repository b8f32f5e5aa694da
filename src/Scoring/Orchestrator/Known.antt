-- ===== src/Scoring/Orchestrator/Known.antt =====
-- assessment_orchestrator.py, `resolve_and_score`: what a pass does at a coordinate that was realized
-- before it.
use endure_subnet.Prelude.{
  true_ne_false, ℕ, String, Bool, true, false, ◌&&◌, ◌||◌, ◌≡◌, refl, sym, ap, ◌∙◌, subst, none,
  some, List, [], ◌∷◌, map, any, any-insert_by, any-append, insert_by, &&-eq-true, if◌then◌else◌,
  Result, ok, bind_ok, is_some, Bool-cases, inl, inr, or_else, &&-false, or_false, of_or_false,
}
use endure_subnet.Prelude.Eq.{◌==◌, ==_refl, nat_eq, string_eq, pair_eq}
use endure_subnet.Prelude.Int.{ℤ}
use endure_subnet.Prelude.Dict.{Dict, lookup, has_entry, last_row}
use endure_subnet.Decimal.{Decimal}
use endure_subnet.Assessment.Coordinates.{
  AssessmentCoordinate, AssessmentRealizedTarget, coordinate_eq, goes_after,
}
use endure_subnet.Storage.Tables.{RoundKey}
use endure_subnet.Storage.Scores.{EmaKey, TargetKey, TargetRow, score_state_row}
use endure_subnet.Storage.Scores.Writes.{target_of, targets_at}
use endure_subnet.Scoring.Weights.{ema_update}
use endure_subnet.Scoring.Orchestrator.{AssessmentScoringConfig, OrchestratorError, is_in}
use endure_subnet.Scoring.Orchestrator.Score.{
  output_or_raise, output_by_name, score_of, truncated, half_life_or_raise, ema_of, ScoredCell,
  PreviousEmas, score_cell, score_cells, score_hotkeys,
}
use endure_subnet.Scoring.Orchestrator.Pass.{coordinates_in, cells_in}

pub ok_eq : {A : Type 0} {x y : A} → ◌≡◌ {A = Result OrchestratorError A} (ok x) (ok y) → x ≡ y
ok_eq e = cc

abbrev pub touches : AssessmentCoordinate → List ScoredCell → Bool
touches c cells = any (λ (cell : ScoredCell). cell.ema_row.coordinate == c) cells

module _ (config : AssessmentScoringConfig) (decay : ℕ → Decimal) (half_life : ℕ)
    (c : AssessmentCoordinate) where
  score_cell-coordinate :
      (hotkey : String) (values : Dict AssessmentCoordinate ℤ) (previous : PreviousEmas)
      (d : AssessmentCoordinate) (value : Decimal) {cell : ScoredCell}
      → score_cell config decay half_life hotkey values previous d value ≡ ok cell
      → cell.ema_row.coordinate ≡ d
  unfolding score_cell
  score_cell-coordinate hotkey values previous d value e =
      let a = bind_ok (output_or_raise (output_by_name d.output config.outputs)) _ e in
      let b = bind_ok (score_of (lookup d values) (truncated value) a.0.spec) _ a.2 in
      let x =
        bind_ok
          (half_life_or_raise
            (ema_update decay (ema_of (lookup (hotkey, d) previous)) b.0.0 half_life))
          _ b.2 in
      sym (ap (λ (cell : ScoredCell). cell.ema_row.coordinate) (ok_eq x.2))

  score_cells-touches :
      (hotkey : String) (values : Dict AssessmentCoordinate ℤ) (previous : PreviousEmas)
      (items : Dict AssessmentCoordinate Decimal) {cells : List ScoredCell}
      → has_entry c items ≡ false
      → score_cells config decay half_life hotkey values previous items ≡ ok cells
      → touches c cells ≡ false
  unfolding score_cells
  score_cells-touches hotkey values previous [] h e =
      subst (λ cells. touches c cells ≡ false) (ok_eq e) refl
  score_cells-touches hotkey values previous ((d, value) ∷ items) h e =
      let first = bind_ok (score_cell config decay half_life hotkey values previous d value) _ e in
      let rest =
        bind_ok (score_cells config decay half_life hotkey values previous items) _ first.2 in
      let (other, others) = of_or_false h in
      subst (λ cells. touches c cells ≡ false) (ok_eq rest.2)
        (or_false
          (subst (λ (x : AssessmentCoordinate). (x == c) ≡ false)
            (sym (score_cell-coordinate hotkey values previous d value first.1)) other)
          (score_cells-touches hotkey values previous items others rest.1))

  pub score_hotkeys-touches :
      (accepted : Dict String (Dict AssessmentCoordinate ℤ)) (previous : PreviousEmas)
      (items : Dict AssessmentCoordinate Decimal) (hotkeys : List String)
      {scored : List (String × List ScoredCell)}
      → has_entry c items ≡ false
      → score_hotkeys config decay half_life accepted previous items hotkeys ≡ ok scored
      → touches c (cells_in scored) ≡ false
  unfolding score_hotkeys
  score_hotkeys-touches accepted previous items [] h e =
      subst (λ scored. touches c (cells_in scored) ≡ false) (ok_eq e) refl
  score_hotkeys-touches accepted previous items (hotkey ∷ hotkeys) h e =
      let values = or_else (lookup hotkey accepted) [] in
      let first = bind_ok (score_cells config decay half_life hotkey values previous items) _ e in
      let rest =
        bind_ok (score_hotkeys config decay half_life accepted previous items hotkeys) _ first.2 in
      subst (λ scored. touches c (cells_in scored) ≡ false) (ok_eq rest.2)
        (any-append (λ (cell : ScoredCell). cell.ema_row.coordinate == c) first.0 (cells_in rest.0)
          ∙ or_false (score_cells-touches hotkey values previous items h first.1)
              (score_hotkeys-touches accepted previous items hotkeys h rest.1))

pub no_row :
    (schema_id hotkey schema : String) (now : ℕ) (c : AssessmentCoordinate)
    (cells : List ScoredCell)
    → touches c cells ≡ false
    → last_row
        (score_state_row schema_id now)
        ((hotkey, schema), c)
        (map (λ (cell : ScoredCell). cell.ema_row) cells)
      ≡ none
no_row schema_id hotkey schema now c [] h = refl
no_row schema_id hotkey schema now c (cell ∷ cells) h =
    let (other, rest) = of_or_false h in
    rw
      (
        no_row schema_id hotkey schema now c cells rest,
        no_pair cell.ema_row.miner_hotkey hotkey schema_id schema cell.ema_row.coordinate other,
      )
      refl
  where
    no_pair :
        (a b x y : String) (d : AssessmentCoordinate)
        → (d == c) ≡ false
        → ◌==◌ {X = EmaKey} ((a, x), d) ((b, y), c) ≡ false
    no_pair a b x y d other = rw other (&&-false (◌==◌ {X = String × String} (a, x) (b, y)))

abbrev pub is_at : AssessmentCoordinate → AssessmentRealizedTarget → Bool
is_at c target = target.coordinate == c

pub is_in-coordinates_in :
    (c : AssessmentCoordinate) (targets : List AssessmentRealizedTarget)
    → is_in c (coordinates_in targets) ≡ any (is_at c) targets
is_in-coordinates_in c [] = refl
is_in-coordinates_in c (target ∷ targets) =
    ap (λ b. target.coordinate == c || b) (is_in-coordinates_in c targets)

or_true : (a : Bool) {b : Bool} → b ≡ true → (a || b) ≡ true
or_true true h = refl
or_true false h = h

true_or : {a : Bool} (b : Bool) → a ≡ true → (a || b) ≡ true
true_or b h = rw h refl

abbrev by_coordinate : AssessmentRealizedTarget → AssessmentRealizedTarget → Bool
by_coordinate a b = goes_after a.coordinate b.coordinate

stays_in :
    (c : AssessmentCoordinate) (b : Bool) (x : AssessmentRealizedTarget)
    (xs : List AssessmentRealizedTarget)
    → any (is_at c) xs ≡ true
    → any (is_at c) (if b then insert_by by_coordinate x xs else xs) ≡ true
stays_in c true x xs h = any-insert_by (is_at c) by_coordinate x xs ∙ or_true (is_at c x) h
stays_in c false x xs h = h

comes_in :
    (c : AssessmentCoordinate) {b : Bool} (x : AssessmentRealizedTarget)
    (xs : List AssessmentRealizedTarget)
    → b ≡ true
    → x.coordinate ≡ c
    → any (is_at c) (if b then insert_by by_coordinate x xs else xs) ≡ true
comes_in c x xs taken same = rw taken (
    any-insert_by (is_at c) by_coordinate x xs
    ∙ true_or (any (is_at c) xs) ((coordinate_eq.eqb_iff x.coordinate c).1 same))

-- A realized target of a horizon is among those that are read for it.
pub known_there :
    (key : RoundKey) (c : AssessmentCoordinate) (table : Dict TargetKey TargetRow)
    → is_some (lookup (key, c) table) ≡ true
    → any (is_at c) (targets_at key c.horizon_value table) ≡ true
unfolding targets_at lookup
known_there key c [] h = absurd (true_ne_false (sym h))
known_there key c (((k, d), row) ∷ rows) h =
    elim (Bool-cases (◌==◌ {X = TargetKey} (k, d) (key, c))) [
      | inl here ↦
          let (same_key, same) = &&-eq-true (k == key) (d == c) here in
          let e = (coordinate_eq.eqb_iff d c).0 same in
          comes_in c (target_of d row) (targets_at key c.horizon_value rows)
            (rw (same_key, e) (==_refl c.horizon_value)) e
      | inr elsewhere ↦
          stays_in c (k == key && d.horizon_value == c.horizon_value) (target_of d row)
            (targets_at key c.horizon_value rows)
            (known_there key c rows (
              subst (λ b. is_some (if b then some row else lookup (key, c) rows) ≡ true) elsewhere
                h))
    ]
