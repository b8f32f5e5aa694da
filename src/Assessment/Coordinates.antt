-- ===== src/Assessment/Coordinates.antt =====
-- endure/assessment/coordinates.py: one target, horizon and output. The rows that carry a coordinate
-- have the fields of the source; their numbers are `Decimal`s that are not negative.
use Prim.Native.Nat.{Ordering}
use Prim.Native.Nat.{compare as compare_numbers}
use Prim.Native.String.{compare as compare_texts, ◌++◌ as join}
use endure_subnet.Prelude.{
  ℕ, zero, suc, ◌/◌, ◌%◌, String, Bool, true, false, ◌&&◌, ◌≡◌, ◌↔◌, Option, if◌then◌else◌, ltb,
  Result, ok, err, ◌>>◌, raise_if, arith,
}
use endure_subnet.Prelude.Int.{ℤ, pos, negsuc}
use endure_subnet.Prelude.Eq.{Eq, ◌==◌, eq_by, nat_eq, string_eq}
use endure_subnet.Decimal.{Decimal}

pub data TargetKind : Type 0 where
  equity_ticker subnet_asset : TargetKind

pub data HorizonKind : Type 0 where
  trading_days seconds : HorizonKind

unfoldable pub TargetKind-discrete : Discrete TargetKind
TargetKind-discrete = hlevel

instance abbrev pub target_kind_eq : Eq TargetKind
target_kind_eq = eq_by TargetKind-discrete

unfoldable pub HorizonKind-discrete : Discrete HorizonKind
HorizonKind-discrete = hlevel

instance abbrev pub horizon_kind_eq : Eq HorizonKind
horizon_kind_eq = eq_by HorizonKind-discrete

pub record AssessmentCoordinate : Type 0 where
  pub target_kind : TargetKind
  pub target_id : String
  pub horizon_kind : HorizonKind
  pub horizon_value : ℕ
  pub output : String

abbrev pub coordinate_eqb : AssessmentCoordinate → AssessmentCoordinate → Bool
coordinate_eqb a b =
    a.target_kind == b.target_kind
    && (a.target_id == b.target_id
        && (a.horizon_kind == b.horizon_kind
            && (a.horizon_value == b.horizon_value && a.output == b.output)))

pub coordinate_eqb_iff : (a b : AssessmentCoordinate) → (coordinate_eqb a b ≡ true) ↔ (a ≡ b)
coordinate_eqb_iff a b = ground (
  arith,
  target_kind_eq.eqb_iff a.target_kind b.target_kind,
  string_eq.eqb_iff a.target_id b.target_id,
  horizon_kind_eq.eqb_iff a.horizon_kind b.horizon_kind,
  nat_eq.eqb_iff a.horizon_value b.horizon_value,
  string_eq.eqb_iff a.output b.output,
)

instance abbrev pub coordinate_eq : Eq AssessmentCoordinate
coordinate_eq = record { eqb = coordinate_eqb; eqb_iff = coordinate_eqb_iff }

-- The order of the fields; the kinds compare as their texts.
abbrev pub target_kind_order : TargetKind → TargetKind → Ordering
target_kind_order equity_ticker subnet_asset = Ordering.lt
target_kind_order subnet_asset equity_ticker = Ordering.gt
target_kind_order _ _ = Ordering.eq

abbrev pub horizon_kind_order : HorizonKind → HorizonKind → Ordering
horizon_kind_order seconds trading_days = Ordering.lt
horizon_kind_order trading_days seconds = Ordering.gt
horizon_kind_order _ _ = Ordering.eq

abbrev pub then_by : Ordering → Ordering → Ordering
then_by Ordering.eq next = next
then_by order _ = order

abbrev pub coordinate_order : AssessmentCoordinate → AssessmentCoordinate → Ordering
coordinate_order a b = then_by (target_kind_order a.target_kind b.target_kind) (
    then_by (compare_texts a.target_id b.target_id) (
      then_by (horizon_kind_order a.horizon_kind b.horizon_kind) (
        then_by (compare_numbers a.horizon_value b.horizon_value)
          (compare_texts a.output b.output))))

abbrev pub is_gt : Ordering → Bool
is_gt Ordering.gt = true
is_gt _ = false

-- `a > b`
abbrev pub goes_after : AssessmentCoordinate → AssessmentCoordinate → Bool
goes_after a b = is_gt (coordinate_order a b)

pub data CoordinateError : Type 0 where
  empty_target_id horizon_not_positive empty_output negative_netuid : CoordinateError

-- `__post_init__`
unfoldable pub checked : AssessmentCoordinate → Result CoordinateError AssessmentCoordinate
checked c = do
  raise_if (c.target_id == "") empty_target_id
  raise_if (c.horizon_value == 0) horizon_not_positive
  raise_if (c.output == "") empty_output
  ok c

-- `str(n)`, on n + 1 as fuel for its digits
abbrev pub digit : ℕ → String
digit n =
    if n == 0
    then "0"
    else if n == 1
    then "1"
    else if n == 2
    then "2"
    else if n == 3
    then "3"
    else if n == 4
    then "4"
    else if n == 5
    then "5"
    else if n == 6
    then "6"
    else if n == 7
    then "7"
    else if n == 8
    then "8"
    else "9"

unfoldable pub digits_text : ℕ → ℕ → String → String
digits_text zero n text = text
digits_text (suc fuel) n text =
    let rest = digits_text fuel (n / 10) (join (digit (n % 10)) text) in
    if ltb n 10 then join (digit n) text else rest

unfoldable pub str : ℕ → String
unfolding digits_text
str n = digits_text (suc n) n ""

unfoldable pub subnet_coordinate : ℤ → ℕ → String → Result CoordinateError AssessmentCoordinate
unfolding checked
subnet_coordinate (negsuc _) horizon_seconds output = err negative_netuid
subnet_coordinate (pos netuid) horizon_seconds output = checked (record {
  target_kind = subnet_asset;
  target_id = str netuid;
  horizon_kind = seconds;
  horizon_value = horizon_seconds;
  output = output;
})

unfoldable pub equity_coordinate : String → ℕ → String → Result CoordinateError AssessmentCoordinate
unfolding checked
equity_coordinate ticker horizon_trading_days output = checked (record {
  target_kind = equity_ticker;
  target_id = ticker;
  horizon_kind = trading_days;
  horizon_value = horizon_trading_days;
  output = output;
})

-- The constructors of these rows raise on an empty hotkey and on negative numbers.
pub record AssessmentConsensusRow : Type 0 where
  pub coordinate : AssessmentCoordinate
  pub value : ℤ
  pub dispersion : ℤ
  pub n_submitters : ℕ

pub record AssessmentRealizedTarget : Type 0 where
  pub coordinate : AssessmentCoordinate
  pub value : Option Decimal
  pub status : String
  pub provider_payload_hash : Option String

pub record AssessmentOutputScore : Type 0 where
  pub miner_hotkey : String
  pub coordinate : AssessmentCoordinate
  pub score : Decimal
  pub error : Option Decimal

pub record AssessmentEmaState : Type 0 where
  pub miner_hotkey : String
  pub coordinate : AssessmentCoordinate
  pub ema : Decimal
  pub resolved_rounds : ℕ

pub record AssessmentScoreHistoryRow : Type 0 where
  pub miner_hotkey : String
  pub coordinate : AssessmentCoordinate
  pub round_score : Decimal
  pub ema_after : Decimal
