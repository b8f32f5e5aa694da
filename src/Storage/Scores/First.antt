-- ===== src/Storage/Scores/First.antt =====
-- repository.py, the tables of scores: the first write of a row stays under all writes.
use endure_subnet.Prelude.{
  ℕ, String, Bool, ◌≡◌, refl, Option, none, some, List, [], ◌∷◌, is_some, Bool-cases, inl, inr,
  Option-cases, not, ◌&&◌,
}
use endure_subnet.Prelude.Eq.{Eq, nat_eq, string_eq, pair_eq, triple_eq}
use endure_subnet.Prelude.Dict.{Dict, lookup, first_of, insert_rows, lookup-insert_rows}
use endure_subnet.Assessment.Coordinates.{coordinate_eq}
use endure_subnet.Storage.Tables.{Storage}
use endure_subnet.Storage.Scores.{
  ScoreTables, TargetKey, ScoreKey, HorizonKey, ScoringPass, target_row, output_score_row,
  score_history_row, has_none, is_empty_set, needs_round, horizon_marker, write_pass,
  has_assessment_resolution_marker, record_assessment_scoring_pass,
}
use endure_subnet.Storage.Scores.Writes.{
  ScoreOp, pass_op, targets_op, scores_op, history_op, ema_op, archive_op, apply_scores, run_scores,
  refers, or_unchanged, record_assessment_realized_targets, record_assessment_output_scores,
  record_assessment_score_history, upsert_assessment_ema, archive_assessment_ema_horizon,
}

-- A row that is there is there later, unchanged.
abbrev pub Stays : {V : Type 0} → Option V → Option V → Type 0
Stays before after = first_of before after ≡ after

pub Stays-refl : {V : Type 0} (o : Option V) → Stays o o
Stays-refl none = refl
Stays-refl (some v) = refl

pub Stays-trans : {V : Type 0} (a b c : Option V) → Stays a b → Stays b c → Stays a c
Stays-trans none b c h k = refl
Stays-trans (some a) b c h k = cc

module _ {K V : Type 0} ⦃e : Eq K⦄ {R : Type 0} where
  insert_rows-Stays :
      (row : R → K × V) (k : K) (rs : List R) (d : Dict K V)
      → Stays (lookup k d) (lookup k (insert_rows row rs d))
  insert_rows-Stays row k rs d = elim (Option-cases (lookup k d)) [
    | inl missing ↦ rw missing refl
    | inr (v, found) ↦ rw (lookup-insert_rows row k rs d, found) refl
  ]

module _ (target : TargetKey) (score : ScoreKey) (marker : HorizonKey) where
  abbrev pub IsKept : ScoreTables → ScoreTables → Type 0
  IsKept t t' =
      Stays (lookup target t.assessment_realized_targets)
        (lookup target t'.assessment_realized_targets)
      × Stays (lookup score t.assessment_output_scores) (lookup score t'.assessment_output_scores)
      × Stays (lookup score t.assessment_score_history) (lookup score t'.assessment_score_history)
      × Stays (lookup marker t.assessment_horizon_resolutions)
          (lookup marker t'.assessment_horizon_resolutions)

  pub IsKept-refl : (t : ScoreTables) → IsKept t t
  IsKept-refl t = (
    Stays-refl (lookup target t.assessment_realized_targets),
    Stays-refl (lookup score t.assessment_output_scores),
    Stays-refl (lookup score t.assessment_score_history),
    Stays-refl (lookup marker t.assessment_horizon_resolutions),
  )

  pub IsKept-trans : (t t' t'' : ScoreTables) → IsKept t t' → IsKept t' t'' → IsKept t t''
  IsKept-trans t t' t'' (a, b, c, d) (a', b', c', d') = (
    Stays-trans (lookup target t.assessment_realized_targets)
        (lookup target t'.assessment_realized_targets)
        (lookup target t''.assessment_realized_targets) a a',
    Stays-trans (lookup score t.assessment_output_scores) (lookup score t'.assessment_output_scores)
        (lookup score t''.assessment_output_scores) b b',
    Stays-trans (lookup score t.assessment_score_history) (lookup score t'.assessment_score_history)
        (lookup score t''.assessment_score_history) c c',
    Stays-trans (lookup marker t.assessment_horizon_resolutions)
        (lookup marker t'.assessment_horizon_resolutions)
        (lookup marker t''.assessment_horizon_resolutions) d d',
  )

  IsKept-refers :
      (none_here : Bool) (round_id schema_id : String) (s : Storage) (t t' : ScoreTables)
      → IsKept t t'
      → IsKept t (or_unchanged (refers none_here round_id schema_id s t') t)
  IsKept-refers b r c s t t' h =
      elim (Bool-cases (not b && not (is_some (lookup (r, c) s.rounds)))) [
        | inl broken ↦ rw broken (IsKept-refl t)
        | inr fine ↦ rw fine h
      ]

  write_pass-IsKept :
      (key : String × String) (pass : ScoringPass) (now_iso : ℕ) (t : ScoreTables)
      → IsKept t (write_pass key pass now_iso t)
  unfolding write_pass
  write_pass-IsKept key pass now t = (
    insert_rows-Stays (target_row key now) target pass.realized_targets
        t.assessment_realized_targets,
    insert_rows-Stays (output_score_row key now) score pass.output_scores
        t.assessment_output_scores,
    insert_rows-Stays (score_history_row key now) score pass.score_history
        t.assessment_score_history,
    insert_rows-Stays (λ (k : HorizonKey). (k, now)) marker (horizon_marker key pass now)
        t.assessment_horizon_resolutions,
  )

  pub pass-IsKept :
      (r c : String) (pass : ScoringPass) (now : ℕ) (s : Storage) (t : ScoreTables)
      → IsKept t (or_unchanged (record_assessment_scoring_pass r c pass now s t) t)
  unfolding record_assessment_scoring_pass
  pass-IsKept r c pass now s t = elim (Bool-cases (is_empty_set pass.pruned_coordinates)) [
    | inl bad ↦ rw bad (IsKept-refl t)
    | inr good ↦
        rw good (elim (Bool-cases (has_assessment_resolution_marker r c pass.horizon_value t)) [
          | inl done ↦ rw done (IsKept-refl t)
          | inr pending ↦
              rw pending
                (elim (Bool-cases (needs_round pass && not (is_some (lookup (r, c) s.rounds)))) [
                  | inl broken ↦ rw broken (IsKept-refl t)
                  | inr fine ↦ rw fine (write_pass-IsKept (r, c) pass now t)
                ])
        ])
  ]

  apply_scores-IsKept :
      (op : ScoreOp) (s : Storage) (t : ScoreTables) → IsKept t (apply_scores op s t)
  unfolding apply_scores record_assessment_realized_targets record_assessment_output_scores
      record_assessment_score_history upsert_assessment_ema archive_assessment_ema_horizon
  apply_scores-IsKept (pass_op r c pass now) s t = pass-IsKept r c pass now s t
  apply_scores-IsKept (targets_op r c rows now) s t =
      let (_, b, d, e) = IsKept-refl t in
      IsKept-refers (has_none rows) r c s t _ (
        insert_rows-Stays (target_row (r, c) now) target rows t.assessment_realized_targets,
        b,
        d,
        e,
      )
  apply_scores-IsKept (scores_op r c rows now) s t =
      let (a, _, d, e) = IsKept-refl t in
      IsKept-refers (has_none rows) r c s t _ (
        a,
        insert_rows-Stays (output_score_row (r, c) now) score rows t.assessment_output_scores,
        d,
        e,
      )
  apply_scores-IsKept (history_op r c rows now) s t =
      let (a, b, _, e) = IsKept-refl t in
      IsKept-refers (has_none rows) r c s t _ (
        a,
        b,
        insert_rows-Stays (score_history_row (r, c) now) score rows t.assessment_score_history,
        e,
      )
  apply_scores-IsKept (ema_op c row now) s t = IsKept-refl t
  apply_scores-IsKept (archive_op c horizon hotkeys) s t = IsKept-refl t

-- Whatever passes and other writes follow, in any order and on any rounds: a realized target, a score,
-- a row of the history and the marker of a horizon stay as they were first written.
pub run_scores-IsKept :
    (ops : List (Storage × ScoreOp)) (t : ScoreTables) (target : TargetKey) (score : ScoreKey)
    (marker : HorizonKey)
    → IsKept target score marker t (run_scores ops t)
unfolding run_scores
run_scores-IsKept [] t target score marker = IsKept-refl target score marker t
run_scores-IsKept ((s, op) ∷ ops) t target score marker =
    IsKept-trans target score marker t (apply_scores op s t) (run_scores ops (apply_scores op s t))
      (apply_scores-IsKept target score marker op s t)
      (run_scores-IsKept ops (apply_scores op s t) target score marker)
