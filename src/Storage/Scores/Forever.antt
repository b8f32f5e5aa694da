-- ===== src/Storage/Scores/Forever.antt =====
-- repository.py, the tables of scores: what the first write of a row keeps out.
use endure_subnet.Prelude.{
  ◌⊎◌, then_ok, raise_if, subst, ℕ, String, Bool, true, false, ◌≡◌, refl, Option, none, some, List,
  [], ◌∷◌, if◌then◌else◌, is_some, Result, ok, err, inl, inr, not, ◌&&◌,
}
use endure_subnet.Prelude.Eq.{==_refl, nat_eq, string_eq, pair_eq, triple_eq}
use endure_subnet.Prelude.Dict.{Dict, lookup, first_of, insert_rows, lookup-insert_rows}
use endure_subnet.Assessment.Coordinates.{
  AssessmentCoordinate, coordinate_eq, subnet_asset, seconds,
}
use endure_subnet.Storage.Tables.{Storage}
use endure_subnet.Storage.Scores.{
  ScoreTables, HorizonKey, ScoringPass, ScoringPassError, is_empty_set, needs_round, write_pass,
  has_assessment_resolution_marker, record_assessment_scoring_pass, empty_active_coordinates,
  foreign_key_failed,
}
use endure_subnet.Storage.Scores.Writes.{ScoreOp, run_scores}
use endure_subnet.Storage.Scores.First.{Stays, run_scores-IsKept}

ok_tables :
    {t t' : ScoreTables} → ◌≡◌ {A = Result ScoringPassError ScoreTables} (ok t) (ok t') → t ≡ t'
ok_tables e = cc

step_ok :
    (b c : Bool) (x : ScoringPassError) (t t' t'' : ScoreTables)
    → ◌≡◌ {A = Result ScoringPassError ScoreTables}
        (if b then ok t else if c then err x else ok t')
        (ok t'')
    → (b ≡ true) × (t ≡ t'') ⊎ (b ≡ false) × (t' ≡ t'')
step_ok true c x t t' t'' e = inl (refl, ok_tables e)
step_ok false true x t t' t'' e = absurd (cc)
step_ok false false x t t' t'' e = inr (refl, ok_tables e)

-- A pass that returns has either found its marker or written all its rows.
pub pass_cases :
    (r c : String) (pass : ScoringPass) (now : ℕ) (s : Storage) (t : ScoreTables) {t' : ScoreTables}
    → record_assessment_scoring_pass r c pass now s t ≡ ok t'
    → (has_assessment_resolution_marker r c pass.horizon_value t ≡ true) × (t ≡ t')
      ⊎ (has_assessment_resolution_marker r c pass.horizon_value t ≡ false)
        × (write_pass (r, c) pass now t ≡ t')
unfolding record_assessment_scoring_pass
pass_cases r c pass now s t {t'} e =
    step_ok (has_assessment_resolution_marker r c pass.horizon_value t)
      (needs_round pass && not (is_some (lookup (r, c) s.rounds))) foreign_key_failed t
      (write_pass (r, c) pass now t) t'
      (then_ok (raise_if (is_empty_set pass.pruned_coordinates) empty_active_coordinates) _ e).1

some_Stays :
    {V : Type 0} (before after : Option V)
    → Stays before after
    → is_some before ≡ true
    → is_some after ≡ true
some_Stays none after h e = absurd (cc)
some_Stays (some v) after h e = subst (λ o. is_some o ≡ true) h refl

is_some-first_of : {V : Type 0} (o : Option V) (v : V) → is_some (first_of o (some v)) ≡ true
is_some-first_of none v = refl
is_some-first_of (some w) v = refl

marker_written :
    (key : HorizonKey) (now : ℕ) (d : Dict HorizonKey ℕ)
    → is_some (lookup key (insert_rows (λ (k : HorizonKey). (k, now)) (key ∷ []) d)) ≡ true
marker_written key now d =
    rw (lookup-insert_rows (λ (k : HorizonKey). (k, now)) key (key ∷ []) d, ==_refl key)
      (is_some-first_of (lookup key d) now)

marked :
    (r c : String) (pass : ScoringPass) (now : ℕ) (s : Storage) (t : ScoreTables) {t' : ScoreTables}
    → pass.complete ≡ true
    → record_assessment_scoring_pass r c pass now s t ≡ ok t'
    → has_assessment_resolution_marker r c pass.horizon_value t' ≡ true
unfolding has_assessment_resolution_marker write_pass
marked r c pass now s t complete e = elim (pass_cases r c pass now s t e) [
  | inl (found, same) ↦
      subst (λ x. has_assessment_resolution_marker r c pass.horizon_value x ≡ true) same found
  | inr (_, written) ↦
      subst (λ x. has_assessment_resolution_marker r c pass.horizon_value x ≡ true) written
        (rw complete
          (marker_written ((r, c), pass.horizon_value) now t.assessment_horizon_resolutions))
]

still_marked :
    (ops : List (Storage × ScoreOp)) (t : ScoreTables) (r c : String) (horizon : ℕ)
    → has_assessment_resolution_marker r c horizon t ≡ true
    → has_assessment_resolution_marker r c horizon (run_scores ops t) ≡ true
unfolding has_assessment_resolution_marker
still_marked ops t r c horizon h =
    let kept =
      run_scores-IsKept ops t ((r, c), some_coordinate) ((r, c, r), some_coordinate)
        ((r, c), horizon) in
    some_Stays (lookup ((r, c), horizon) t.assessment_horizon_resolutions)
      (lookup ((r, c), horizon) (run_scores ops t).assessment_horizon_resolutions) kept.3 h
  where
    some_coordinate : AssessmentCoordinate
    some_coordinate = record {
      target_kind = subnet_asset;
      target_id = "";
      horizon_kind = seconds;
      horizon_value = horizon;
      output = "";
    }

-- A pass that completes a horizon of a round takes effect once: when it is made again later, with any
-- scores, any active coordinates but none at all, and after any other writes, it changes nothing.
pub record_assessment_scoring_pass-once :
    (r c : String) (pass again : ScoringPass) (now later : ℕ) (s s' : Storage) (t : ScoreTables)
    {t' : ScoreTables} (ops : List (Storage × ScoreOp))
    → pass.complete ≡ true
    → record_assessment_scoring_pass r c pass now s t ≡ ok t'
    → again.horizon_value ≡ pass.horizon_value
    → is_empty_set again.pruned_coordinates ≡ false
    → record_assessment_scoring_pass r c again later s' (run_scores ops t') ≡ ok (run_scores ops t')
unfolding record_assessment_scoring_pass has_assessment_resolution_marker
record_assessment_scoring_pass-once r c pass again now later s s' t {t'} ops complete e same
      active =
    rw
      (
        active,
        same,
        still_marked ops t' r c pass.horizon_value (marked r c pass now s t complete e),
      )
      refl
