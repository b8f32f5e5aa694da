-- ===== src/Cr4/Deadline.antt =====
-- What `cr4_reveal_deadline_block` of cr4_schedule.py returns, on every input.
use endure_subnet.Prelude.{ℕ, suc, ◌+◌, ◌*◌, ◌≤◌, ◌<◌, ◌≡◌, ◌≢◌, ◌↔◌, true, arith, ok, err, is_ok}
use endure_subnet.Prelude.Int.{ℤ, pos, negsuc, ◌+ℤ◌, ◌≤ℤ◌}
use endure_subnet.Cr4.{
  Cr4EpochSchedule, search_exceeded, not_positive, epoch_before_coinbase, epoch_start_after_commit,
  cr4_reveal_deadline_block, max_tempo_blocks, max_reveal_period_epochs,
}
use endure_subnet.Cr4.Bounds.{
  Within, search_finds, after, boundary, epochs_to_expiry, epoch_start-eq-boundary,
}

pub pos-+ℤ-one : (n : ℕ) → pos n +ℤ pos 1 ≡ pos (suc n)
unfolding ◌+ℤ◌
pos-+ℤ-one n = ground arith

-- With a positive tempo, a period of at most 100 epochs and a margin that is not negative, the
-- deadline is the first block of the epoch after the period's last, found by running the epochs
-- one by one from the schedule, and the margin on top.
pub deadline-eq-boundary :
    (s : Cr4EpochSchedule) (period margin : ℕ)
    → 0 < s.tempo
    → period ≤ max_reveal_period_epochs
    → cr4_reveal_deadline_block s (pos period) (pos margin)
      ≡ ok (boundary (after (epochs_to_expiry s period) s) + margin)
unfolding cr4_reveal_deadline_block
deadline-eq-boundary s period margin h k =
    ground (arith, pos-+ℤ-one period, epoch_start-eq-boundary s period h)

pub negsuc-+ℤ-one : (n : ℕ) → negsuc n +ℤ pos 1 ≤ℤ pos 0
unfolding ◌+ℤ◌
negsuc-+ℤ-one n = ground arith

pub epoch_start_not_positive :
    (s : Cr4EpochSchedule) (epochs : ℤ)
    → epochs ≤ℤ pos 0
    → epoch_start_after_commit s epochs ≡ err not_positive
unfolding epoch_start_after_commit
epoch_start_not_positive s epochs h = ground arith

pub epoch_start_no_tempo :
    (s : Cr4EpochSchedule) (epochs : ℤ)
    → s.tempo ≡ 0
    → epoch_start_after_commit s epochs ≡ err not_positive
unfolding epoch_start_after_commit
epoch_start_no_tempo s epochs h = ground arith

pub epoch_start_bounds :
    (s : Cr4EpochSchedule) (period : ℕ)
    → 0 < s.tempo
    → Within s.current_block
        (s.current_block + (period + 2) * (max_tempo_blocks + 1) + 1)
        (epoch_start_after_commit s (pos (suc period)))
unfolding epoch_start_after_commit epoch_before_coinbase
epoch_start_bounds s period h = ground (
  arith,
  search_finds (suc period + 1) (epoch_before_coinbase s (s.current_block + 1) + suc period) s,
)

-- With a positive tempo, a period of at most 100 epochs and a margin that is not negative, the
-- deadline is returned, lies after the schedule's block by more than the margin, and within one
-- longest tempo for each epoch of the period and two more.
pub deadline_bounds :
    (s : Cr4EpochSchedule) (period margin : ℕ)
    → 0 < s.tempo
    → period ≤ max_reveal_period_epochs
    → Within
        (s.current_block + margin)
        (s.current_block + (period + 2) * (max_tempo_blocks + 1) + 1 + margin)
        (cr4_reveal_deadline_block s (pos period) (pos margin))
unfolding cr4_reveal_deadline_block
deadline_bounds s period margin h k =
    ground (arith, pos-+ℤ-one period, epoch_start_bounds s period h)

-- A deadline is returned exactly for a positive tempo, a period from 0 to 100 and a margin that
-- is not negative; every other input raises.
pub deadline_total :
    (s : Cr4EpochSchedule) (period margin : ℤ)
    → (is_ok (cr4_reveal_deadline_block s period margin) ≡ true) ↔ (
        (0 < s.tempo)
        × (pos 0 ≤ℤ period)
        × (period ≤ℤ pos max_reveal_period_epochs)
        × (pos 0 ≤ℤ margin))
unfolding cr4_reveal_deadline_block
deadline_total s (pos period) (pos margin) = ground (
  arith,
  pos-+ℤ-one period,
  epoch_start_bounds s period,
  epoch_start_no_tempo s (pos period +ℤ pos 1),
)
deadline_total s (pos period) (negsuc margin) = ground arith
deadline_total s (negsuc period) margin =
    ground (arith, negsuc-+ℤ-one period, epoch_start_not_positive s (negsuc period +ℤ pos 1))

-- The search never leaves its loop without an answer, whatever the input.
pub deadline-ne-search_exceeded :
    (s : Cr4EpochSchedule) (period margin : ℤ)
    → cr4_reveal_deadline_block s period margin ≢ err search_exceeded
unfolding cr4_reveal_deadline_block
deadline-ne-search_exceeded s (pos period) margin = ground (
  arith,
  pos-+ℤ-one period,
  epoch_start_bounds s period,
  epoch_start_no_tempo s (pos period +ℤ pos 1),
)
deadline-ne-search_exceeded s (negsuc period) margin =
    ground (arith, negsuc-+ℤ-one period, epoch_start_not_positive s (negsuc period +ℤ pos 1))
