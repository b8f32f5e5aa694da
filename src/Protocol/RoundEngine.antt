-- ===== src/Protocol/RoundEngine.antt =====
-- endure/protocol/round_engine.py: the windows of a round and the phase machine. A `datetime` in
-- UTC is the microseconds since `datetime.min`, the start of the year 1; a `timedelta` is a number
-- of microseconds, which may be negative.
pub mod Phases
use endure_subnet.Prelude.{
  ℕ, String, ltb, leb, if◌then◌else◌, Result, ok, err, ◌>>=◌, ◌>>◌, raise_if,
}
use endure_subnet.Prelude.Int.{ℤ, pos, negsuc, ◌+ℤ◌, ◌-ℤ◌, leb_ℤ}

pub record WindowOffsets : Type 0 where
  pub commit_open_before_close : ℤ
  pub commit_close_before_close : ℤ
  pub reveal_open_after_close : ℤ
  pub reveal_close_after_close : ℤ

pub record RoundWindows : Type 0 where
  pub round_id : String
  pub commit_open : ℕ
  pub commit_close : ℕ
  pub t0_close : ℕ
  pub reveal_open : ℕ
  pub reveal_close : ℕ

pub data RoundPhase : Type 0 where
  pre_open commit awaiting_close reveal closed : RoundPhase

pub data OffsetsError : Type 0 where
  commit_closes_first reveal_closes_first : OffsetsError

-- `WindowOffsets.__post_init__`
unfoldable pub window_offsets : WindowOffsets → Result OffsetsError WindowOffsets
window_offsets o = do
  raise_if (leb_ℤ o.commit_open_before_close o.commit_close_before_close) commit_closes_first
  raise_if (leb_ℤ o.reveal_close_after_close o.reveal_open_after_close) reveal_closes_first
  ok o

unfoldable pub phase_at : ℕ → RoundWindows → RoundPhase
phase_at now windows =
    if ltb now windows.commit_open
    then pre_open
    else if leb now windows.commit_close
    then commit
    else if ltb now windows.reveal_open
    then awaiting_close
    else if leb now windows.reveal_close
    then reveal
    else closed

-- `datetime.max`, the last microsecond of the year 9999
abbrev pub datetime_max : ℕ
datetime_max = 315537897599999999

pub data OverflowError : Type 0 where
  date_value_out_of_range : OverflowError

-- The instant that a `datetime` plus or minus a `timedelta` comes to
unfoldable pub as_datetime : ℤ → Result OverflowError ℕ
as_datetime (pos n) = if leb n datetime_max then ok n else err date_value_out_of_range
as_datetime (negsuc _) = err date_value_out_of_range

-- The windows around a close, as both `compute_windows` and `compute_fixed_utc_windows` lay them.
unfoldable pub windows_around : String → ℕ → WindowOffsets → Result OverflowError RoundWindows
windows_around round_id close offsets = do
  commit_open ← as_datetime (pos close -ℤ offsets.commit_open_before_close)
  commit_close ← as_datetime (pos close -ℤ offsets.commit_close_before_close)
  reveal_open ← as_datetime (pos close +ℤ offsets.reveal_open_after_close)
  reveal_close ← as_datetime (pos close +ℤ offsets.reveal_close_after_close)
  ok (record {
    round_id = round_id;
    commit_open = commit_open;
    commit_close = commit_close;
    t0_close = close;
    reveal_open = reveal_open;
    reveal_close = reveal_close;
  })
