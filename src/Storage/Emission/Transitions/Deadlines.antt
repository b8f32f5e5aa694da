-- ===== src/Storage/Emission/Transitions/Deadlines.antt =====
-- repository.py, what `transition_weight_emission_attempt` writes, its deadlines above all.
use endure_subnet.Prelude.{
  ℕ, ◌≤◌, true, false, ◌≡◌, refl, ap, sym, leb, inl, inr, Bool-cases, Option, none, some, max,
  arith,
}
use endure_subnet.Storage.Emission.{Batch}
use endure_subnet.Storage.Emission.Transitions.{
  Transition, later, later_deadline, later_reveal_deadline, moved, IsLater, no_argument,
  null_column, moved_back, kept, Becomes,
}

leb-true : (old new : ℕ) → leb old new ≡ true → old ≤ new
leb-true old new e = ground arith

leb-false : (old new : ℕ) → leb old new ≡ false → new ≤ old
leb-false old new e = ground arith

max-right : (old new : ℕ) → old ≤ new → max old new ≡ new
max-right old new h = omega (arith, h)

max-left : (old new : ℕ) → new ≤ old → max old new ≡ old
max-left old new h = omega (arith, h)

module _ (if_null : ℕ → Option ℕ) where
  max-IsLater : (old new : ℕ) → IsLater if_null (some old) (some new) (some (max old new))
  max-IsLater old new = elim (Bool-cases (leb old new)) [
    | inl e ↦ rw (max-right old new (leb-true old new e)) (moved_back old new (leb-true old new e))
    | inr e ↦ rw (max-left old new (leb-false old new e)) (kept old new (leb-false old new e))
  ]

  later-IsLater_self :
      (column argument : Option ℕ) → IsLater if_null column argument (later if_null column argument)
  later-IsLater_self column none = no_argument column
  later-IsLater_self none (some d) = null_column d
  later-IsLater_self (some old) (some d) = max-IsLater old d

  IsLater-eq :
      {column argument new : Option ℕ}
      → IsLater if_null column argument new
      → new ≡ later if_null column argument
  IsLater-eq (no_argument none) = refl
  IsLater-eq (no_argument (some c)) = refl
  IsLater-eq (null_column d) = refl
  IsLater-eq (moved_back old d h) = ap some (sym (max-right old d h))
  IsLater-eq (kept old d h) = ap some (sym (max-left old d h))

pub moved-Becomes :
    (t : Transition) (batch batch' : Batch) → batch' ≡ moved t batch → Becomes t batch batch'
moved-Becomes t batch batch' e = (
  later_deadline batch.confirmation_deadline_block t.confirmation_deadline_block,
  later_reveal_deadline batch.cr4_reveal_deadline_block t.cr4_reveal_deadline_block,
  later-IsLater_self (λ _. none) batch.confirmation_deadline_block t.confirmation_deadline_block,
  later-IsLater_self some batch.cr4_reveal_deadline_block t.cr4_reveal_deadline_block,
  e,
)

pub Becomes-moved :
    (t : Transition) (batch batch' : Batch) → Becomes t batch batch' → batch' ≡ moved t batch
Becomes-moved t batch batch' (deadline, reveal_deadline, first, second, e) =
    rw (sym (IsLater-eq (λ _. none) first)) (rw (sym (IsLater-eq some second)) e)
