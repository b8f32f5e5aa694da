-- ===== src/Cr4/Bounds.antt =====
-- The search of cr4_schedule.py ends within its bound, and the deadline that it returns lies
-- after the block of the commitment and within a window that the tempo and the period give.
use endure_subnet.Prelude.{
  ℕ, zero, suc, ◌+◌, ◌*◌, ◌≤◌, ◌<◌, ◌≡◌, refl, Bool, true, false, ◌-◌, if◌then◌else◌, arith, Result,
  ok, err,
}
use endure_subnet.Prelude.Int.{pos}
use endure_subnet.Cr4.{
  Cr4EpochSchedule, Cr4ScheduleError, runs_epoch, advance, next_epoch_block, search,
  epoch_before_coinbase, epoch_start_after_commit, max_tempo_blocks,
}

-- The next epoch is always in the future.
pub current-lt-next_epoch_block : (s : Cr4EpochSchedule) → s.current_block < next_epoch_block s
unfolding next_epoch_block
current-lt-next_epoch_block s = ground arith

-- With no overdue step, the next epoch is at most one tempo, or the forced step, away.
pub next_epoch_block_le :
    (s : Cr4EpochSchedule) → next_epoch_block s ≤ s.current_block + max_tempo_blocks + 1
unfolding next_epoch_block
next_epoch_block_le s = ground arith

pub index-advance :
    (s : Cr4EpochSchedule) (b : ℕ) → (advance s b).subnet_epoch_index ≡ s.subnet_epoch_index + 1
unfolding advance
index-advance s b = refl

-- What a search has found: a block after the one it began from, within the rounds' reach.
abbrev pub Within : ℕ → ℕ → Result Cr4ScheduleError ℕ → Type 0
Within low high (ok block) = (low < block) × (block ≤ high)
Within low high (err _) = ⊥

-- A search that has as many rounds left as epochs to go finds its block.
pub search_finds :
    (rounds target : ℕ) (s : Cr4EpochSchedule)
    → s.subnet_epoch_index < target
    → target ≤ s.subnet_epoch_index + rounds
    → Within s.current_block
        (s.current_block + rounds * (max_tempo_blocks + 1) + 1)
        (search rounds target s)
unfolding search advance
search_finds zero target s low high = absurd (omega arith)
search_finds (suc rounds) target s low high = ground (
  arith,
  current-lt-next_epoch_block s,
  next_epoch_block_le s,
  search_finds rounds target (advance s (next_epoch_block s)),
)

-- The blocks that `blocks_since_last_step` counts go on to a later block.
abbrev pub due_at : Cr4EpochSchedule → ℕ → Bool
due_at s b =
    runs_epoch
      (record s { blocks_since_last_step = s.blocks_since_last_step + (b - s.current_block) }) b

-- The next epoch block is the first block after the current one at which an epoch is due, once
-- the blocks since the last step are counted on.
pub next_epoch_block-first :
    (s : Cr4EpochSchedule)
    → (due_at s (next_epoch_block s) ≡ true)
      × ((b : ℕ) → s.current_block < b → b < next_epoch_block s → due_at s b ≡ false)
unfolding next_epoch_block runs_epoch
next_epoch_block-first s = (ground arith, λ b low high. ground arith)

-- The schedule after a number of epochs have run.
pub after : ℕ → Cr4EpochSchedule → Cr4EpochSchedule
after zero s = s
after (suc n) s = after n (advance s (next_epoch_block s))

-- The first block of the epoch that the schedule runs next: the epoch block, or the block after
-- it where only the count of blocks since the last step makes it run.
abbrev pub boundary : Cr4EpochSchedule → ℕ
boundary s =
    if runs_epoch s (next_epoch_block s) then next_epoch_block s else next_epoch_block s + 1

pub search-eq-boundary :
    (n rounds target : ℕ) (s : Cr4EpochSchedule)
    → target ≡ s.subnet_epoch_index + suc n
    → n < rounds
    → search rounds target s ≡ ok (boundary (after n s))
unfolding search advance after
search-eq-boundary n zero target s e h = absurd (omega arith)
search-eq-boundary zero (suc rounds) target s e h = ground arith
search-eq-boundary (suc n) (suc rounds) target s e h =
    ground (arith, search-eq-boundary n rounds target (advance s (next_epoch_block s)))

-- The epochs that run between the schedule's block and the deadline's epoch, less one: the
-- period, and the one that already runs at the block of the commitment.
abbrev pub epochs_to_expiry : Cr4EpochSchedule → ℕ → ℕ
epochs_to_expiry s period = period + (if runs_epoch s (s.current_block + 1) then 1 else 0)

pub epoch_start-eq-boundary :
    (s : Cr4EpochSchedule) (period : ℕ)
    → 0 < s.tempo
    → epoch_start_after_commit s (pos (suc period))
      ≡ ok (boundary (after (epochs_to_expiry s period) s))
unfolding epoch_start_after_commit epoch_before_coinbase
epoch_start-eq-boundary s period h = ground (
  arith,
  search-eq-boundary (epochs_to_expiry s period) (suc period + 1)
      (epoch_before_coinbase s (s.current_block + 1) + suc period) s,
)
