-- ===== src/Protocol/Vertical/Examples.antt =====
-- Ticks and passes over a round of one asset, at small inputs.
use endure_subnet.Prelude.{
  ℕ, String, Bool, true, false, ◌≡◌, refl, Option, some, none, [], ◌∷◌, all, ap, is_some,
  if◌then◌else◌, Result, ok, err, ◌⊎◌, ◌≢◌, arith,
}
use endure_subnet.Prelude.Int.{pos, ◌-ℤ◌}
use endure_subnet.Prelude.Eq.{nat_eq, string_eq, pair_eq, triple_eq, ◌==◌}
use endure_subnet.Prelude.Dict.{
  Dict, lookup, lookup-insert, lookup-insert_self, insert, insert_rows, upsert_rows, erase_where,
}
use endure_subnet.Decimal.{
  Decimal, of_int, limit, add, sub, mul, div, round_ratio, half_even, digits_after, digits_dropped,
  ◌≼◌,
}
use endure_subnet.Assessment.Coordinates.{
  AssessmentCoordinate, subnet_asset, seconds, coordinate_eq, TargetKind-discrete,
  HorizonKind-discrete, AssessmentRealizedTarget,
}
use endure_subnet.Protocol.RoundEngine.{RoundWindows}
use endure_subnet.Storage.Tables.{Storage, RoundRow, empty, revealed, closed}
use endure_subnet.Storage.Rounds.{round_state, universe_for}
use endure_subnet.Storage.Consensus.{set_round_state, snapshot_if_open}
use endure_subnet.Storage.Scores.{
  HorizonKey, ScoreTables, record_assessment_scoring_pass, write_pass,
  has_assessment_resolution_marker,
}
use endure_subnet.Storage.Scores.Writes.{
  assessment_realized_targets_for_horizon, assessment_ema_states,
  assessment_hotkeys_eligible_for_round,
}
use endure_subnet.Storage.Scores.First.{IsKept}
use endure_subnet.Scoring.Deviation.{ScoringSpec, higher, absolute, score_output, deviation_score}
use endure_subnet.Scoring.Weights.{ema_update}
use endure_subnet.Scoring.Weights.Bounds.{ema_update_bounds}
use endure_subnet.Scoring.Orchestrator.{
  ScoredOutputConfig, AssessmentScoringConfig, ResolutionBudget, exhausted, found,
  OrchestratorError,
}
use endure_subnet.Scoring.Orchestrator.Resolve.{resolved_from}
use endure_subnet.Scoring.Orchestrator.Score.{score_hotkeys}
use endure_subnet.Scoring.Orchestrator.Pass.{Scored, resolve_and_score}
use endure_subnet.Scoring.Orchestrator.Once.{resolve_and_score_once}
use endure_subnet.Protocol.Vertical.{
  AssessmentRoundProgram, Scorer, scored, assessment_scorer, resolve_due, Progress,
}
use endure_subnet.Protocol.Vertical.Closing.{Completes, resolve_due-closed, resolve_due-closes}
use endure_subnet.Protocol.Vertical.Kept.{resolve_due-IsKept}

abbrev no_scores : ScoreTables
no_scores = record {
  assessment_realized_targets = [];
  assessment_horizon_resolutions = [];
  assessment_output_scores = [];
  assessment_miner_score_state = [];
  assessment_score_history = [];
}

abbrev revealed_round : RoundRow
revealed_round = record {
  state = revealed;
  universe_stale = false;
  degraded = false;
  commit_open_at = 0;
  commit_close_at = 1;
  reveal_open_at = 2;
  reveal_close_at = 3;
  publication_available_at = 3;
  t0_close_at = 1;
  created_at = 0;
  updated_at = 3;
}

abbrev with_round : Storage
with_round = record empty {
  rounds = (("day", "risk"), revealed_round) ∷ [];
  universe_snapshots =
      (("day", "risk"), record { tickers = "3" ∷ []; source_hash = "h"; fetched_at = 0 }) ∷ [];
}

abbrev windows : RoundWindows
windows = record {
  round_id = "day";
  commit_open = 0;
  commit_close = 1;
  t0_close = 1;
  reveal_open = 2;
  reveal_close = 3;
}

abbrev price_at : ℕ → AssessmentCoordinate
price_at horizon = record {
  target_kind = subnet_asset;
  target_id = "3";
  horizon_kind = seconds;
  horizon_value = horizon;
  output = "price";
}

abbrev price : AssessmentCoordinate
price = price_at 60

abbrev target_seven : ℕ → AssessmentRealizedTarget
target_seven horizon = record {
  coordinate = price_at horizon;
  value = some (of_int 7);
  status = "resolved";
  provider_payload_hash = none;
}

abbrev spec : ScoringSpec
spec = record {
  grace_band = 1;
  cutoff = 5;
  aggressive_direction = higher;
  lenient_multiplier = of_int 2;
  deviation_mode = absolute;
  scored_live = true;
}

abbrev price_output : ScoredOutputConfig
price_output = record {
  output = "price";
  resolver = λ netuid horizon. found (target_seven horizon);
  spec = spec;
}

abbrev config : AssessmentScoringConfig
config = record {
  schema_id = "risk";
  horizons = 60 ∷ [];
  universe_members = λ tickers. 3 ∷ [];
  accepted_values = λ round_id. ("miner", (price, pos 9) ∷ []) ∷ [];
  outputs = price_output ∷ [];
  active_coordinates = none;
  coordinate_for = λ netuid horizon output. price_at horizon;
}

abbrev unlimited : ResolutionBudget
unlimited = record { deadline_monotonic_ns = none; now_ns_fn = λ n. n }

-- 2 ** (-1 / 5), with 28 digits
abbrev decay : ℕ → Decimal
decay h = record { coefficient = 8_705_505_632_961_241_391_362_700_175; scale = 28 }

ema_update_bounds_example :
    (absent low high : Decimal) × (ema_update decay (some (of_int 1)) (of_int 0) 5 ≡ ok absent)
    × (ema_update decay (some (of_int 1)) (of_int 0) 5 ≡ ok low)
    × (ema_update decay (some (of_int 1)) (of_int 1) 5 ≡ ok high)
    × (absent ≼ of_int 1)
    × (absent ≼ low)
    × (low ≼ high)
    × (high ≼ of_int 1)
unfolding limit
ema_update_bounds_example =
    ema_update_bounds decay (some (of_int 1)) (of_int 0) (of_int 1) 5 (omega arith)
      (omega arith, omega arith, omega arith) (1, 0, omega arith, refl) (omega arith) (omega arith)
      (omega arith)

-- A target that an earlier pass has recorded, and the average of its scores
abbrev half_done : ScoreTables
half_done = record no_scores {
  assessment_realized_targets =
      (
        (("day", "risk"), price),
        record {
          value_text = some (of_int 7);
          status = "resolved";
          provider_payload_hash = none;
          fetched_at = 20;
        },
      )
      ∷ [];
  assessment_miner_score_state =
      (
        (("miner", "risk"), price),
        record { ema_text = of_int 1; resolved_rounds = 1; updated_at = 20 },
      )
      ∷ [];
}

abbrev resumed : ScoreTables
resumed = record half_done { assessment_horizon_resolutions = ((("day", "risk"), 60), 30) ∷ [] }

pass_resumed :
    (resolve_and_score config decay 5 "day" (some 60) 30 [] unlimited with_round half_done 0).1
    ≡ ok ([], resumed)
unfolding resolve_and_score has_assessment_resolution_marker lookup exhausted universe_for
    assessment_realized_targets_for_horizon TargetKind-discrete HorizonKind-discrete score_hotkeys
    assessment_ema_states assessment_hotkeys_eligible_for_round resolved_from
    record_assessment_scoring_pass write_pass insert_rows erase_where insert upsert_rows
pass_resumed = refl

resolve_and_score_once_example :
    (lookup (("miner", "risk"), price) resumed.assessment_miner_score_state ≡ none)
    ⊎ (lookup (("miner", "risk"), price) resumed.assessment_miner_score_state
        ≡ lookup (("miner", "risk"), price) half_done.assessment_miner_score_state)
unfolding lookup TargetKind-discrete HorizonKind-discrete
resolve_and_score_once_example =
    resolve_and_score_once config decay 5 "day" (some 60) 30 [] unlimited with_round half_done 0
      price (λ netuid. refl, tt) pass_resumed refl refl "miner"

-- The first pass: 9 against 7, with 1 for free and nothing at 5
abbrev scores_of : Result OrchestratorError Scored → Dict String Decimal
scores_of (ok (scores, t)) = scores
scores_of (err e) = []

first_scores :
    scores_of
      (resolve_and_score config decay 5 "day" (some 60) 30 [] unlimited with_round no_scores 0).1
    ≡ ("miner", record { coefficient = 7_500_000_000_000_000_000_000_000_000; scale = 28 }) ∷ []
unfolding resolve_and_score has_assessment_resolution_marker lookup exhausted universe_for
    assessment_realized_targets_for_horizon TargetKind-discrete HorizonKind-discrete score_hotkeys
    assessment_ema_states assessment_hotkeys_eligible_for_round resolved_from
    record_assessment_scoring_pass write_pass insert_rows erase_where insert upsert_rows
    score_output deviation_score ema_update add sub mul div round_ratio limit half_even digits_after
    digits_dropped ◌-ℤ◌
first_scores = refl

abbrev program : AssessmentRoundProgram
program = record { schema_id = "risk"; horizons = 60 ∷ []; due_seconds_by_horizon = [] }

abbrev after_tick : Progress × Storage
after_tick =
    resolve_due program (assessment_scorer config decay 5 "day" 60_000_004 unlimited with_round)
      "day" windows 60_000_004 unlimited with_round half_done 0

tick_closes : round_state "day" "risk" after_tick.1 ≡ some closed
unfolding resolve_due assessment_scorer resolve_and_score has_assessment_resolution_marker lookup
    exhausted universe_for assessment_realized_targets_for_horizon TargetKind-discrete
    HorizonKind-discrete score_hotkeys assessment_ema_states assessment_hotkeys_eligible_for_round
    resolved_from record_assessment_scoring_pass write_pass insert_rows erase_where insert
    upsert_rows set_round_state round_state snapshot_if_open
tick_closes = refl

not_yet : round_state "day" "risk" with_round ≢ some closed
unfolding round_state lookup
not_yet e = cc

resolve_due-closed_example :
    all (λ h. has_assessment_resolution_marker "day" "risk" h after_tick.0.tables) (60 ∷ []) ≡ true
resolve_due-closed_example =
    resolve_due-closed program
      (assessment_scorer config decay 5 "day" 60_000_004 unlimited with_round) "day" windows
      60_000_004 unlimited with_round half_done 0 not_yet tick_closes

resolve_due-IsKept_example :
    IsKept
      (("day", "risk"), price)
      (("day", "risk", "miner"), price)
      (("day", "risk"), 60)
      half_done
      after_tick.0.tables
resolve_due-IsKept_example =
    resolve_due-IsKept program config decay 5 "day" windows 60_000_004 unlimited with_round
      half_done 0 (("day", "risk"), price) (("day", "risk", "miner"), price) (("day", "risk"), 60)

-- A scorer that only writes the marker
abbrev marking : Scorer
marking horizon t reading = (
  reading,
  scored (record t {
    assessment_horizon_resolutions =
        insert (("day", "risk"), horizon) 30 t.assessment_horizon_resolutions;
  }),
)

marking-Completes :
    (h : ℕ) (t : ScoreTables) (n : ℕ) → Completes program "day" h t (marking h t n).1
unfolding has_assessment_resolution_marker
marking-Completes h t n = (
  ap is_some (lookup-insert_self (("day", "risk"), h) 30 t.assessment_horizon_resolutions),
  λ k m.
      rw
        (lookup-insert (("day", "risk"), h) (("day", "risk"), k) 30
          t.assessment_horizon_resolutions)
        (is_some-if (◌==◌ {X = HorizonKey} (("day", "risk"), h) (("day", "risk"), k))
          (lookup (("day", "risk"), k) t.assessment_horizon_resolutions) m),
)
  where
    is_some-if :
        (b : Bool) (o : Option ℕ) → is_some o ≡ true → is_some (if b then some 30 else o) ≡ true
    is_some-if true o m = refl
    is_some-if false o m = m

resolve_due-closes_example :
    round_state "day" "risk"
      (resolve_due program marking "day" windows 60_000_004 unlimited with_round no_scores 0).1
    ≡ some closed
unfolding lookup exhausted
resolve_due-closes_example =
    resolve_due-closes program marking "day" windows 60_000_004 unlimited with_round no_scores 0
      (λ n. refl) marking-Completes (refl, tt) refl
