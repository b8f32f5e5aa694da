-- ===== src/Protocol/RoundEngine/Phases.antt =====
-- The phases of endure/protocol/round_engine.py against the windows, and their order in time.
use endure_subnet.Prelude.{
  ℕ, ◌+◌, ◌≤◌, ◌<◌, String, false, ◌≡◌, refl, ap, subst, ◌↔◌, Result, ok, bind_ok, then_ok,
  raise_if_ok, arith,
}
use endure_subnet.Prelude.Int.{
  ℤ, pos, pos_part, neg_part, leb_ℤ, negsuc, ◌+ℤ◌, ◌-ℤ◌, ◌≤ℤ◌, +ℤ_parts, -ℤ_parts,
}
use endure_subnet.Protocol.RoundEngine.{
  WindowOffsets, RoundWindows, RoundPhase, pre_open, commit, awaiting_close, reveal, closed,
  window_offsets, phase_at, as_datetime, windows_around,
}

-- The place of a phase in a round
abbrev pub rank : RoundPhase → ℕ
rank pre_open = 0
rank commit = 1
rank awaiting_close = 2
rank reveal = 3
rank closed = 4

-- A round never goes back to an earlier phase, whatever its windows.
pub phase_at-monotone :
    (windows : RoundWindows) (now later : ℕ)
    → now ≤ later
    → rank (phase_at now windows) ≤ rank (phase_at later windows)
unfolding phase_at
phase_at-monotone windows now later h = ground arith

as_datetime-ok : (z : ℤ) (n : ℕ) → as_datetime z ≡ ok n → z ≡ pos n
unfolding as_datetime
as_datetime-ok (pos m) n e = ground arith
as_datetime-ok (negsuc m) n e = absurd cc

before_ok :
    (close n : ℕ) (o : ℤ)
    → as_datetime (pos close -ℤ o) ≡ ok n
    → close + neg_part o ≡ n + pos_part o
before_ok close n o e = omega (
  arith,
  -ℤ_parts (pos close) o,
  ap pos_part (as_datetime-ok (pos close -ℤ o) n e),
  ap neg_part (as_datetime-ok (pos close -ℤ o) n e),
)

after_ok :
    (close n : ℕ) (o : ℤ)
    → as_datetime (pos close +ℤ o) ≡ ok n
    → close + pos_part o ≡ n + neg_part o
after_ok close n o e = omega (
  arith,
  +ℤ_parts (pos close) o,
  ap pos_part (as_datetime-ok (pos close +ℤ o) n e),
  ap neg_part (as_datetime-ok (pos close +ℤ o) n e),
)

-- Each boundary of laid windows against the close and its offset
abbrev Laid : ℕ → WindowOffsets → RoundWindows → Type 0
Laid close o w =
    (w.t0_close ≡ close)
    × (close + neg_part o.commit_open_before_close
        ≡ w.commit_open + pos_part o.commit_open_before_close)
    × (close + neg_part o.commit_close_before_close
        ≡ w.commit_close + pos_part o.commit_close_before_close)
    × (close + pos_part o.reveal_open_after_close
        ≡ w.reveal_open + neg_part o.reveal_open_after_close)
    × (close + pos_part o.reveal_close_after_close
        ≡ w.reveal_close + neg_part o.reveal_close_after_close)

ok-inj : {E A : Type 0} {a b : A} → ◌≡◌ {A = Result E A} (ok a) (ok b) → a ≡ b
ok-inj e = cc

windows_around-Laid :
    (round_id : String) (close : ℕ) (o : WindowOffsets) (w : RoundWindows)
    → windows_around round_id close o ≡ ok w
    → Laid close o w
unfolding windows_around
windows_around-Laid round_id close o w e =
    let (n1, e1, r1) = bind_ok (as_datetime (pos close -ℤ o.commit_open_before_close)) _ e in
    let (n2, e2, r2) = bind_ok (as_datetime (pos close -ℤ o.commit_close_before_close)) _ r1 in
    let (n3, e3, r3) = bind_ok (as_datetime (pos close +ℤ o.reveal_open_after_close)) _ r2 in
    let (n4, e4, r4) = bind_ok (as_datetime (pos close +ℤ o.reveal_close_after_close)) _ r3 in
    subst (Laid close o) (ok-inj r4) (
      refl,
      before_ok close n1 o.commit_open_before_close e1,
      before_ok close n2 o.commit_close_before_close e2,
      after_ok close n3 o.reveal_open_after_close e3,
      after_ok close n4 o.reveal_close_after_close e4,
    )

-- The offsets that are taken
window_offsets-ok :
    (o : WindowOffsets)
    → window_offsets o ≡ ok o
    → (leb_ℤ o.commit_open_before_close o.commit_close_before_close ≡ false)
      × (leb_ℤ o.reveal_close_after_close o.reveal_open_after_close ≡ false)
unfolding window_offsets
window_offsets-ok o e =
    let (first, rest) = then_ok _ _ e in
    let (second, last) = then_ok _ _ rest in (raise_if_ok _ _ first, raise_if_ok _ _ second)

-- The windows that the schedulers lay around a close, where `WindowOffsets` takes the offsets and
-- the windows are dates. Each window opens before it closes; the commit window closes by the close
-- exactly where its offset is not negative, and the reveal window opens from the close on exactly
-- where its offset is not. The phases at an instant are the windows, with the commit window first
-- where the two overlap.
pub phase_at-windows :
    (round_id : String) (close now : ℕ) (o : WindowOffsets) (w : RoundWindows)
    → window_offsets o ≡ ok o
    → windows_around round_id close o ≡ ok w
    → (w.t0_close ≡ close)
      × (w.commit_open < w.commit_close)
      × (w.reveal_open < w.reveal_close)
      × ((w.commit_close ≤ close) ↔ (pos 0 ≤ℤ o.commit_close_before_close))
      × ((close ≤ w.reveal_open) ↔ (pos 0 ≤ℤ o.reveal_open_after_close))
      × ((phase_at now w ≡ pre_open) ↔ (now < w.commit_open))
      × ((phase_at now w ≡ commit) ↔ ((w.commit_open ≤ now) × (now ≤ w.commit_close)))
      × ((phase_at now w ≡ awaiting_close) ↔ ((w.commit_close < now) × (now < w.reveal_open)))
      × ((phase_at now w ≡ reveal)
          ↔ ((w.commit_close < now) × (w.reveal_open ≤ now) × (now ≤ w.reveal_close)))
      × ((phase_at now w ≡ closed) ↔ ((w.commit_close < now) × (w.reveal_close < now)))
unfolding phase_at
phase_at-windows round_id close now o w valid fits =
    let (first, second) = window_offsets-ok o valid in
    let (at, opened, shut, revealed, ended) = windows_around-Laid round_id close o w fits in
    ground (arith, at, first, second, opened, shut, revealed, ended)
