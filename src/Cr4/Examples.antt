-- ===== src/Cr4/Examples.antt =====
-- The deadlines of cr4_schedule.py at concrete schedules.
use endure_subnet.Prelude.{
  ℕ, ◌+◌, ◌*◌, ◌<◌, ◌≡◌, ◌≢◌, ◌↔◌, refl, true, false, ok, err, is_ok, arith,
}
use endure_subnet.Prelude.Int.{pos, ◌+ℤ◌, ◌≤ℤ◌}
use endure_subnet.Cr4.{
  Cr4EpochSchedule, runs_epoch, epoch_before_coinbase, next_epoch_block, advance, search,
  max_reveal_period_epochs, search_exceeded, epoch_start_after_commit, cr4_reveal_deadline_block,
}
use endure_subnet.Cr4.Bounds.{
  Within, after, boundary, next_epoch_block-first, due_at, epochs_to_expiry,
}
use endure_subnet.Cr4.Deadline.{
  deadline-eq-boundary, deadline_bounds, deadline_total, deadline-ne-search_exceeded,
}

abbrev schedule : Cr4EpochSchedule
schedule = record {
  last_epoch_block = 1000;
  pending_epoch_at = 0;
  subnet_epoch_index = 7;
  tempo = 360;
  blocks_since_last_step = 100;
  current_block = 1100;
}

deadline_at_schedule : cr4_reveal_deadline_block schedule (pos 1) (pos 8) ≡ ok 1728
unfolding cr4_reveal_deadline_block epoch_start_after_commit search epoch_before_coinbase runs_epoch
    next_epoch_block advance ◌+ℤ◌
deadline_at_schedule = refl

deadline-eq-boundary_example :
    cr4_reveal_deadline_block schedule (pos 1) (pos 8)
    ≡ ok (boundary (after (epochs_to_expiry schedule 1) schedule) + 8)
deadline-eq-boundary_example = deadline-eq-boundary schedule 1 8 (omega arith) (omega arith)

deadline_bounds_example :
    Within
      (1100 + 8)
      (1100 + 3 * 50401 + 1 + 8)
      (cr4_reveal_deadline_block schedule (pos 1) (pos 8))
deadline_bounds_example = deadline_bounds schedule 1 8 (omega arith) (omega arith)

deadline_total_example : (is_ok (cr4_reveal_deadline_block schedule (pos 101) (pos 8)) ≡ true) ↔ (
    (0 < 360) × (pos 0 ≤ℤ pos 101) × (pos 101 ≤ℤ pos max_reveal_period_epochs) × (pos 0 ≤ℤ pos 8))
deadline_total_example = deadline_total schedule (pos 101) (pos 8)

deadline-ne-search_exceeded_example :
    cr4_reveal_deadline_block schedule (pos 100) (pos 8) ≢ err search_exceeded
deadline-ne-search_exceeded_example = deadline-ne-search_exceeded schedule (pos 100) (pos 8)

next_epoch_block-first_example :
    (due_at schedule (next_epoch_block schedule) ≡ true)
    × ((b : ℕ) → 1100 < b → b < next_epoch_block schedule → due_at schedule b ≡ false)
next_epoch_block-first_example = next_epoch_block-first schedule
