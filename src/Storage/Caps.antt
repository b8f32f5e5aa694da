-- ===== src/Storage/Caps.antt =====
-- The caps on commits and reveals, and what an accepted row holds.
use endure_subnet.Prelude.{
  ℕ, ◌≤◌, ◌≡◌, Option, none, some, List, [], ◌∷◌, inl, inr, Bool-cases, arith, true, is_some, All,
  subst,
}
use endure_subnet.Prelude.Eq.{triple_eq, string_eq}
use endure_subnet.Prelude.Dict.{lookup, lookup-insert}
use endure_subnet.Storage.Tables.{Storage, SubmissionRow, SubmissionKey, is_accepted, empty}
use endure_subnet.Storage.Ops.{StorageOp, apply, run}
use endure_subnet.Storage.Steps.{
  RowStep, first_step, recommit_step, attempt_step, bare_reveal_step, reveal_step, Touches,
  untouched, touched, apply-Touches, UsesCaps,
}

-- The counters are within the caps, a commit is counted, and an accepted row is complete.
pub record RowIsValid (max_commits max_reveals : ℕ) (row : SubmissionRow) : Type 0 where
  pub commits : row.commit_count ≤ max_commits
  pub reveals : row.reveal_count ≤ max_reveals
  pub counted : row.commit_hash ≡ none → row.commit_count ≡ 0
  pub has_bundle : is_accepted row.verdict ≡ true → is_some row.bundle_json ≡ true
  pub has_nonce : is_accepted row.verdict ≡ true → is_some row.nonce_hex ≡ true

abbrev OptionIsValid : ℕ → ℕ → Option SubmissionRow → Type 0
OptionIsValid mc mr none = Unit
OptionIsValid mc mr (some row) = RowIsValid mc mr row

module _ (mc mr : ℕ) (room : 1 ≤ mc) where
  RowStep-IsValid :
      {o : Option SubmissionRow} {row : SubmissionRow}
      → RowStep (some mc) (some mr) o row
      → OptionIsValid mc mr o
      → RowIsValid mc mr row
  RowStep-IsValid (first_step hash now) v = ground arith
  RowStep-IsValid (recommit_step hash now row t) v = ground arith
  RowStep-IsValid (attempt_step row p q) v = ground arith
  RowStep-IsValid (bare_reveal_step rv) v = ground arith
  RowStep-IsValid (reveal_step rv row f) v = ground arith

  Touches-IsValid :
      (key : SubmissionKey) {s s' : Storage}
      → Touches (some mc) (some mr) s s'
      → ((k : SubmissionKey) → OptionIsValid mc mr (lookup k s.submissions))
      → OptionIsValid mc mr (lookup key s'.submissions)
  Touches-IsValid key (untouched same) v = rw same (v key)
  Touches-IsValid key {s = s} (touched k row opened step after) v = rw after (
      rw (lookup-insert k key row s.submissions) (elim (Bool-cases (triple_eq.eqb k key)) [
        | inl same ↦ rw same (RowStep-IsValid step (v k))
        | inr other ↦ rw other (v key)
      ]))

  run-OptionIsValid :
      (ops : List StorageOp) (s : Storage)
      → All (UsesCaps (some mc) (some mr)) ops
      → ((k : SubmissionKey) → OptionIsValid mc mr (lookup k s.submissions))
      → (key : SubmissionKey) → OptionIsValid mc mr (lookup key (run ops s).submissions)
  unfolding run
  run-OptionIsValid [] s u v key = v key
  run-OptionIsValid (op ∷ ops) s u v key =
      run-OptionIsValid ops (apply op s) u.1
        (λ k. Touches-IsValid k (apply-Touches (some mc) (some mr) op s u.0) v) key

  valid_row :
      {o : Option SubmissionRow} {row : SubmissionRow}
      → OptionIsValid mc mr o
      → o ≡ some row
      → RowIsValid mc mr row
  valid_row {o} {row} v e = subst (OptionIsValid mc mr) e v

  -- Begun from an empty store, with every commit and reveal attempt made under the two caps (at
  -- least one commit), no miner's row exceeds either cap, and every accepted row holds the bundle
  -- and the nonce.
  pub run-RowIsValid :
      (ops : List StorageOp) (key : SubmissionKey) (row : SubmissionRow)
      → All (UsesCaps (some mc) (some mr)) ops
      → lookup key (run ops empty).submissions ≡ some row
      → RowIsValid mc mr row
  unfolding lookup
  run-RowIsValid ops key row u e = valid_row (run-OptionIsValid ops empty u (λ k. tt) key) e
