-- ===== src/Cr4.antt =====
-- endure/base/cr4_schedule.py: the block by which a CR4 weight commitment must have been revealed.
-- Block numbers, the tempo and the epoch index are the chain's unsigned values, so they are
-- naturals; the two arguments that the code tests for a negative value are integers.
pub mod Bounds
pub mod Deadline
mod Examples
use endure_subnet.Prelude.{
  ℕ, zero, suc, ◌+◌, ◌-◌, min, max, Bool, ◌&&◌, ◌||◌, ltb, leb, if◌then◌else◌, Result, ok, err,
  ◌>>=◌, ◌>>◌, raise_if,
}
use endure_subnet.Prelude.Eq.{◌==◌, nat_eq}
use endure_subnet.Prelude.Int.{ℤ, pos, negsuc, pos_part, ◌+ℤ◌, ltb_ℤ, leb_ℤ}

abbrev pub max_reveal_period_epochs : ℕ
max_reveal_period_epochs = 100

abbrev pub max_tempo_blocks : ℕ
max_tempo_blocks = 50400

abbrev pub commit_inclusion_block_offset : ℕ
commit_inclusion_block_offset = 1

-- The messages of `Cr4ScheduleError`.
pub data Cr4ScheduleError : Type 0 where
  not_positive negative_margin period_exceeds_bound search_exceeded : Cr4ScheduleError

pub record Cr4EpochSchedule : Type 0 where
  pub last_epoch_block : ℕ
  pub pending_epoch_at : ℕ
  pub subnet_epoch_index : ℕ
  pub tempo : ℕ
  pub blocks_since_last_step : ℕ
  pub current_block : ℕ

-- `block - last_epoch_block >= tempo`, on Python's signed integers, is a sum on the right side
pub runs_epoch : Cr4EpochSchedule → ℕ → Bool
runs_epoch schedule block =
    ltb 0 schedule.pending_epoch_at && leb schedule.pending_epoch_at block
    || (ltb max_tempo_blocks schedule.blocks_since_last_step
        || leb (schedule.last_epoch_block + schedule.tempo) block)

pub epoch_before_coinbase : Cr4EpochSchedule → ℕ → ℕ
unfolding runs_epoch
epoch_before_coinbase schedule block =
    schedule.subnet_epoch_index + (if runs_epoch schedule block then 1 else 0)

-- The count of blocks that the first `replace` adds up is reset by the second.
pub advance : Cr4EpochSchedule → ℕ → Cr4EpochSchedule
advance schedule block = record schedule {
  current_block = block;
  last_epoch_block = block;
  pending_epoch_at = 0;
  subnet_epoch_index = schedule.subnet_epoch_index + 1;
  blocks_since_last_step = 0;
}

pub next_epoch_block : Cr4EpochSchedule → ℕ
next_epoch_block schedule =
    let by_tempo = schedule.last_epoch_block + schedule.tempo in
    let by_step =
      schedule.current_block + max 1 (max_tempo_blocks + 1 - schedule.blocks_since_last_step) in
    let earliest =
      if ltb 0 schedule.pending_epoch_at
      then min (min by_tempo by_step) schedule.pending_epoch_at
      else min by_tempo by_step in
    max (schedule.current_block + 1) earliest

-- The `for` loop, on the rounds that are left. What `let` binds waits, as the early returns do.
pub search : ℕ → ℕ → Cr4EpochSchedule → Result Cr4ScheduleError ℕ
search zero target_epoch state = err search_exceeded
search (suc rounds) target_epoch state =
    let epoch_block = next_epoch_block state in
    let state' = advance state epoch_block in
    let rest = search rounds target_epoch state' in
    if (state.subnet_epoch_index + 1 == target_epoch) && runs_epoch state epoch_block
    then ok epoch_block
    else if state'.subnet_epoch_index == target_epoch
    then ok (epoch_block + 1)
    else rest

pub epoch_start_after_commit : Cr4EpochSchedule → ℤ → Result Cr4ScheduleError ℕ
epoch_start_after_commit schedule epochs_after_commit =
    if leb schedule.tempo 0 || leb_ℤ epochs_after_commit (pos 0)
    then err not_positive
    else let epochs = pos_part epochs_after_commit in
      let inclusion_block = schedule.current_block + commit_inclusion_block_offset in
      let commit_epoch = epoch_before_coinbase schedule inclusion_block in
      search (epochs + 1) (commit_epoch + epochs) schedule

pub cr4_reveal_deadline_block : Cr4EpochSchedule → ℤ → ℤ → Result Cr4ScheduleError ℕ
cr4_reveal_deadline_block schedule reveal_period_epochs finality_margin_blocks = do
  raise_if (ltb_ℤ finality_margin_blocks (pos 0)) negative_margin
  raise_if (ltb_ℤ (pos max_reveal_period_epochs) reveal_period_epochs) period_exceeds_bound
  start ← epoch_start_after_commit schedule (reveal_period_epochs +ℤ pos 1)
  ok (start + pos_part finality_margin_blocks)
