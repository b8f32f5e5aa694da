-- ===== src/Storage/Terminal.antt =====
-- An accepted reveal is terminal: what operations of repository.py leave of its row.
use endure_subnet.Prelude.{
  ℕ, String, ◌≡◌, false, Option, none, some, List, inl, inr, if◌then◌else◌, Bool-cases, arith, true,
  ◌+◌, ◌≤◌, refl,
}
use endure_subnet.Prelude.Eq.{triple_eq, string_eq}
use endure_subnet.Prelude.Dict.{lookup, lookup-insert}
use endure_subnet.Storage.Tables.{Storage, SubmissionRow, SubmissionKey, is_accepted}
use endure_subnet.Storage.Submissions.{may_recommit}
use endure_subnet.Storage.Ops.{StorageOp, run, run_keeps}
use endure_subnet.Storage.Steps.{
  RowStep, first_step, recommit_step, attempt_step, bare_reveal_step, reveal_step, Touches,
  untouched, touched, apply-Touches_any,
}

-- What a reveal's retry and its scoring need of an accepted row
abbrev pub Accepted : Type 0
Accepted = Option String × Option String × Option String × ℕ

abbrev pub accepted_part : Option SubmissionRow → Option Accepted
accepted_part none = none
accepted_part (some row) =
    if is_accepted row.verdict
    then some (row.commit_hash, row.bundle_json, row.nonce_hex, row.commit_count)
    else none

accepted_ne_recommit :
    (hash : String) (cap : Option ℕ) (row : SubmissionRow)
    → may_recommit hash cap row ≡ true
    → is_accepted row.verdict ≡ false
accepted_ne_recommit hash cap row t = ground arith

-- A row, with at least as many attempts of a reveal
abbrev pub IsSince : SubmissionRow → Option SubmissionRow → Type 0
IsSince row o = (n : ℕ) × (o ≡ some (record row { reveal_count = n })) × (row.reveal_count ≤ n)

module _ (row : SubmissionRow) (accepted : is_accepted row.verdict ≡ true) where
  RowStep-IsSince :
      {commits reveals : Option ℕ} {o : Option SubmissionRow} {row' : SubmissionRow}
      → RowStep commits reveals o row'
      → IsSince row o
      → IsSince row (some row')
  RowStep-IsSince (first_step hash now) (n, e, h) = absurd cc
  RowStep-IsSince {commits = commits} (recommit_step hash now old t) (n, e, h) =
      absurd (ground (arith, accepted_ne_recommit hash commits old t, accepted, e))
  RowStep-IsSince (attempt_step old p q) (n, e, h) = (n + 1, cc, omega (arith, h))
  RowStep-IsSince (bare_reveal_step r) (n, e, h) = absurd cc
  RowStep-IsSince (reveal_step r old f) (n, e, h) = absurd (ground (arith, accepted, e, f))

  module _ (key : SubmissionKey) where
    abbrev Holds : Storage → Type 0
    Holds s = IsSince row (lookup key s.submissions)

    Touches-Holds :
        {commits reveals : Option ℕ} {s s' : Storage}
        → Touches commits reveals s s'
        → Holds s
        → Holds s'
    Touches-Holds (untouched same) e = rw same e
    Touches-Holds {s = s} (touched k row' opened step after) e = rw after (
        rw (lookup-insert k key row' s.submissions) (elim (Bool-cases (triple_eq.eqb k key)) [
          | inl same ↦ rw same (RowStep-IsSince step (rw ((triple_eq.eqb_iff k key).0 same) e))
          | inr other ↦ rw other e
        ]))

    -- Once a submission is accepted, its row stays, after any operations with any arguments: all of
    -- it is the same but the count of attempts to reveal, which does not fall.
    pub accepted_terminal :
        (ops : List StorageOp) (s : Storage)
        → lookup key s.submissions ≡ some row
        → (n : ℕ) × (lookup key (run ops s).submissions ≡ some (record row { reveal_count = n }))
          × (row.reveal_count ≤ n)
    accepted_terminal ops s e =
        run_keeps {P = Holds} (λ op s e. Touches-Holds (apply-Touches_any op s).2 e) ops s
          (row.reveal_count, e, omega arith)

accepted_row :
    (o : Option SubmissionRow) (x : Accepted)
    → accepted_part o ≡ some x
    → (row : SubmissionRow) × (o ≡ some row)
      × (is_accepted row.verdict ≡ true)
      × (accepted_part (some row) ≡ some x)
accepted_row none x e = absurd cc
accepted_row (some row) x e = (row, refl, ground arith, e)

-- What was accepted stays accepted.
pub accepted_part-run :
    (key : SubmissionKey) (x : Accepted) (ops : List StorageOp) (s : Storage)
    → accepted_part (lookup key s.submissions) ≡ some x
    → accepted_part (lookup key (run ops s).submissions) ≡ some x
accepted_part-run key x ops s e =
    let (row, at, accepted, part) = accepted_row (lookup key s.submissions) x e in
    let (n, later, h) = accepted_terminal row accepted key ops s at in rw later part
