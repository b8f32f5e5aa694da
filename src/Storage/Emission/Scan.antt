-- ===== src/Storage/Emission/Scan.antt =====
-- repository.py, `cr4_reveal_scan_window` and `advance_cr4_reveal_scan_cursor`: the blocks in which
-- the reveal of an open committed vote is looked for, some at a time.
use endure_subnet.Prelude.{
  ℕ, ◌+◌, ◌-◌, ◌*◌, ◌≤◌, ◌<◌, Bool, true, false, ◌||◌, ◌≡◌, ◌↔◌, Option, none, some, ltb, leb, min,
  max, if◌then◌else◌, or_else, arith, List, [], ◌∷◌, ◌++◌, All, length, refl,
}
use endure_subnet.Storage.Emission.Blocks.{blocks_from, blocks_from-++, minus_self}

abbrev pub cr4_reveal_scan_batch_blocks : ℕ
cr4_reveal_scan_batch_blocks = 32

pub record Cr4RevealScanWindow : Type 0 where
  pub start_block : ℕ
  pub end_block : ℕ
  pub complete : Bool

abbrev pub start_after : ℕ → Option ℕ → ℕ
start_after submission_block none = submission_block
start_after submission_block (some cursor) = max submission_block (cursor + 1)

-- On the one open batch with a reveal deadline, by its submission block, deadline and cursor
unfoldable pub cr4_reveal_scan_window : ℕ → ℕ → Option ℕ → ℕ → Option Cr4RevealScanWindow
cr4_reveal_scan_window submission_block reveal_deadline cursor finalized_block =
    let start_block = start_after submission_block cursor in
    let end_block =
      min finalized_block (min reveal_deadline (start_block + cr4_reveal_scan_batch_blocks - 1)) in
    if ltb end_block start_block
    then none
    else some (record {
      start_block = start_block;
      end_block = end_block;
      complete = leb reveal_deadline end_block;
    })

unfoldable pub advance_cr4_reveal_scan_cursor : Option ℕ → ℕ → Option ℕ
advance_cr4_reveal_scan_cursor cursor scanned_through =
    some (max (or_else cursor scanned_through) scanned_through)

-- A window starts at the first block not scanned, has at most 32 blocks, all of them finalized and by
-- the deadline, is marked complete exactly where it ends at the deadline, and once it is scanned the
-- next one starts right after it.
pub scan_window_bounds :
    (submission deadline finalized : ℕ) (cursor : Option ℕ) (w : Cr4RevealScanWindow)
    → cr4_reveal_scan_window submission deadline cursor finalized ≡ some w
    → (w.start_block ≡ start_after submission cursor)
      × (w.start_block ≤ w.end_block)
      × (w.end_block < w.start_block + cr4_reveal_scan_batch_blocks)
      × (w.end_block ≤ finalized)
      × (w.end_block ≤ deadline)
      × ((w.complete ≡ true) ↔ (w.end_block ≡ deadline))
      × (start_after submission (advance_cr4_reveal_scan_cursor cursor w.end_block)
          ≡ w.end_block + 1)
unfolding cr4_reveal_scan_window advance_cr4_reveal_scan_cursor
scan_window_bounds submission deadline finalized none w e = ground arith
scan_window_bounds submission deadline finalized (some c) w e = ground arith

abbrev pub window_blocks : Option Cr4RevealScanWindow → List ℕ
window_blocks none = []
window_blocks (some w) = blocks_from w.start_block (w.end_block + 1 - w.start_block)

abbrev pub scanned : Option ℕ → Option Cr4RevealScanWindow → Option ℕ
scanned cursor none = cursor
scanned cursor (some w) = advance_cr4_reveal_scan_cursor cursor w.end_block

abbrev pub marked_complete : Option Cr4RevealScanWindow → Bool
marked_complete none = false
marked_complete (some w) = w.complete

-- The batch that the scan is for: its submission block and its reveal deadline
module _ (submission deadline : ℕ) where
  abbrev pub window_at : Option ℕ → ℕ → Option Cr4RevealScanWindow
  window_at cursor finalized = cr4_reveal_scan_window submission deadline cursor finalized

  -- The cursor after passes at these finalized blocks, each of which scans the window that it is
  -- given, and the blocks that the passes scan, in their order
  abbrev pub cursor_after : List ℕ → Option ℕ → Option ℕ
  cursor_after [] cursor = cursor
  cursor_after (finalized ∷ passes) cursor =
      cursor_after passes (scanned cursor (window_at cursor finalized))

  abbrev pub blocks_scanned : List ℕ → Option ℕ → List ℕ
  blocks_scanned [] cursor = []
  blocks_scanned (finalized ∷ passes) cursor =
      window_blocks (window_at cursor finalized)
      ++ blocks_scanned passes (scanned cursor (window_at cursor finalized))

  -- Whether one of the passes was given a window that is marked complete
  abbrev pub is_completed : List ℕ → Option ℕ → Bool
  is_completed [] cursor = false
  is_completed (finalized ∷ passes) cursor =
      marked_complete (window_at cursor finalized)
      || is_completed passes (scanned cursor (window_at cursor finalized))

  abbrev pub next_block : Option ℕ → ℕ
  next_block cursor = start_after submission cursor

window_blocks-eq :
    (submission deadline finalized : ℕ) (cursor : Option ℕ) (o : Option Cr4RevealScanWindow)
    → cr4_reveal_scan_window submission deadline cursor finalized ≡ o
    → (window_blocks o
        ≡ blocks_from
            (start_after submission cursor)
            (start_after submission (scanned cursor o) - start_after submission cursor))
      × (start_after submission cursor ≤ start_after submission (scanned cursor o))
window_blocks-eq submission deadline finalized cursor none e =
    (rw (minus_self (start_after submission cursor)) refl, omega arith)
window_blocks-eq submission deadline finalized cursor (some w) e =
    let (starts, order, short, below, due, complete, next) =
      scan_window_bounds submission deadline finalized cursor w e in
    (rw starts (rw next refl), omega (arith, starts, order, next))

one_scan :
    (submission deadline finalized : ℕ) (cursor : Option ℕ)
    → start_after submission (scanned cursor (window_at submission deadline cursor finalized))
      ≡ max (start_after submission cursor) (
          min
            (min finalized deadline + 1)
            (start_after submission cursor + cr4_reveal_scan_batch_blocks))
unfolding cr4_reveal_scan_window advance_cr4_reveal_scan_cursor
one_scan submission deadline finalized none = ground arith
one_scan submission deadline finalized (some c) = ground arith

module _ (submission deadline : ℕ) where
  blocks_scanned-eq :
      (passes : List ℕ) (cursor : Option ℕ)
      → (blocks_scanned submission deadline passes cursor
          ≡ blocks_from (next_block submission deadline cursor) (
              next_block submission deadline (cursor_after submission deadline passes cursor)
              - next_block submission deadline cursor))
        × (next_block submission deadline cursor
            ≤ next_block submission deadline (cursor_after submission deadline passes cursor))
  blocks_scanned-eq [] cursor =
      (rw (minus_self (next_block submission deadline cursor)) refl, omega arith)
  blocks_scanned-eq (finalized ∷ passes) cursor =
      let o = window_at submission deadline cursor finalized in
      let (first, forward) = window_blocks-eq submission deadline finalized cursor o refl in
      let (others, onward) = blocks_scanned-eq passes (scanned cursor o) in
      (
        rw first (
            rw others
              (blocks_from-++ _ _ _ _ _ (omega (arith, forward)) (omega (arith, forward, onward)))),
        omega (arith, forward, onward),
      )

  window_complete :
      (finalized : ℕ) (cursor : Option ℕ) (o : Option Cr4RevealScanWindow)
      → cr4_reveal_scan_window submission deadline cursor finalized ≡ o
      → leb (deadline + 1) (start_after submission (scanned cursor o))
        ≡ (leb (deadline + 1) (start_after submission cursor) || marked_complete o)
  window_complete finalized cursor none e = ground arith
  window_complete finalized cursor (some w) e =
      let (starts, order, short, below, due, complete, next) =
        scan_window_bounds submission deadline finalized cursor w e in
      ground (arith, starts, order, due, complete, next)

  is_completed-eq :
      (passes : List ℕ) (cursor : Option ℕ)
      → leb (deadline + 1) (start_after submission (cursor_after submission deadline passes cursor))
        ≡ (leb (deadline + 1) (start_after submission cursor)
            || is_completed submission deadline passes cursor)
  is_completed-eq [] cursor = ground arith
  is_completed-eq (finalized ∷ passes) cursor =
      let o = window_at submission deadline cursor finalized in
      ground
        (arith, window_complete finalized cursor o refl, is_completed-eq passes (scanned cursor o))

  stop_bounds :
      (low high : ℕ) (passes : List ℕ) (cursor : Option ℕ)
      → All (λ finalized. (low ≤ finalized) × (finalized ≤ high)) passes
      → start_after submission cursor ≤ deadline + 1
      → let start = start_after submission cursor in
        let stop = start_after submission (cursor_after submission deadline passes cursor) in
        (stop ≤ start + length passes * cr4_reveal_scan_batch_blocks)
        × (stop ≤ max start (min high deadline + 1))
        × (min (min low deadline + 1) (start + length passes * cr4_reveal_scan_batch_blocks) ≤ stop)
  stop_bounds low high [] cursor bounded due = (omega arith, omega arith, omega arith)
  stop_bounds low high (finalized ∷ passes) cursor ((above, below), rest) due =
      let o = window_at submission deadline cursor finalized in
      let step = one_scan submission deadline finalized cursor in
      let (many, last, least) =
        stop_bounds low high passes (scanned cursor o) rest (omega (arith, due, step)) in
      (
        omega (arith, step, many),
        omega (arith, step, last, above, below, due),
        omega (arith, step, least, above, below, due),
      )

  -- The passes of a scan, each at a finalized block of its own, between `low` and `high`, and with a
  -- cursor that is not past the deadline. They scan each block once, in order and with none left
  -- out, from the first one not yet scanned up to where they stop. That is at most 32 blocks a pass
  -- further, with no block scanned that is past `high` or the deadline, and it is all of these 32
  -- blocks a pass unless `low` or the deadline is reached. It is past the deadline exactly if it was
  -- so at first or a window of the passes was marked complete.
  pub cursor_after-progress :
      (low high : ℕ) (passes : List ℕ) (cursor : Option ℕ)
      → All (λ finalized. (low ≤ finalized) × (finalized ≤ high)) passes
      → start_after submission cursor ≤ deadline + 1
      → let start = start_after submission cursor in
        let stop = start_after submission (cursor_after submission deadline passes cursor) in
        (blocks_scanned submission deadline passes cursor ≡ blocks_from start (stop - start))
        × (stop ≤ start + length passes * cr4_reveal_scan_batch_blocks)
        × (stop ≤ max start (min high deadline + 1))
        × (min (min low deadline + 1) (start + length passes * cr4_reveal_scan_batch_blocks) ≤ stop)
        × (leb (deadline + 1) stop
            ≡ (leb (deadline + 1) start || is_completed submission deadline passes cursor))
  cursor_after-progress low high passes cursor bounded due =
      let (many, last, least) = stop_bounds low high passes cursor bounded due in
      ((blocks_scanned-eq passes cursor).0, many, last, least, is_completed-eq passes cursor)
