-- ===== src/Storage/Steps.antt =====
-- What the operations of repository.py can do to the submissions: at most one row changes, its
-- round is open, and the change is one of five.
use endure_subnet.Prelude.{
  ℕ, ◌+◌, String, ◌≡◌, refl, inl, inr, Bool, true, false, ◌&&◌, Option, none, some, arith, is_some,
  Bool-cases, if◌then◌else◌, List, ◌∙◌, &&-false, &&-eq-true,
}
use endure_subnet.Prelude.Eq.{triple_eq, string_eq, pair_eq}
use endure_subnet.Prelude.Dict.{lookup, insert}
use endure_subnet.Protocol.RoundEngine.{RoundWindows}
use endure_subnet.Storage.Tables.{
  Storage, SubmissionRow, SubmissionKey, RoundState, RoundRow, is_accepted, is_opened, ConsensusRow,
}
use endure_subnet.Storage.Rounds.{open_round, UniverseSnapshot}
use endure_subnet.Storage.Submissions.{
  row_at, is_open, first_commit, recommit, may_recommit, below_cap, record_commit, commit_row,
  record_reveal_attempt, attempt_row, record_reveal, reveal_row, Reveal, revealed_row,
  uncommitted_row, same_reveal,
}
use endure_subnet.Storage.Consensus.{
  snapshot_if_open, set_round_state, put_state, flip_round_revealed,
  insert_assessment_consensus_if_absent, publish_from_accepted_bundles_and_reveal,
  publish_assessment_consensus_and_reveal, snapshot_consensus_bundles_if_open,
}
use endure_subnet.Storage.Ops.{
  StorageOp, open_op, commit_op, attempt_op, reveal_op, publish_op, publish_rows_op, state_op,
  apply, or_rolled_back,
}

-- One change of a row, under the caps on commits and on reveals.
pub data RowStep (commits reveals : Option ℕ) : Option SubmissionRow → SubmissionRow → Type 0 where
  first_step : (hash : String) (now : ℕ) → RowStep commits reveals none (first_commit hash now)
  recommit_step :
      (hash : String) (now : ℕ) (row : SubmissionRow)
      → may_recommit hash commits row ≡ true
      → RowStep commits reveals (some row) (recommit hash now row)
  attempt_step :
      (row : SubmissionRow)
      → is_some row.commit_hash ≡ true
      → below_cap reveals row.reveal_count ≡ true
      → RowStep commits reveals (some row) (record row { reveal_count = row.reveal_count + 1 })
  bare_reveal_step : (r : Reveal) → RowStep commits reveals none (revealed_row r uncommitted_row)
  reveal_step :
      (r : Reveal) (row : SubmissionRow)
      → is_accepted row.verdict ≡ false
      → RowStep commits reveals (some row) (revealed_row r row)

-- The submissions after an operation: as before, or with one row of an open round changed.
pub data Touches (commits reveals : Option ℕ) (s s' : Storage) : Type 0 where
  untouched : s'.submissions ≡ s.submissions → Touches commits reveals s s'
  touched :
      (k : SubmissionKey) (row : SubmissionRow)
      → is_open k.0 k.1 s ≡ true
      → RowStep commits reveals (lookup k s.submissions) row
      → s'.submissions ≡ insert k row s.submissions
      → Touches commits reveals s s'

-- An operation that is refused changes nothing.
if_Touches :
    {commits reveals : Option ℕ} {s : Storage} (b : Bool) (x : Bool × Storage) (y : Bool)
    → (b ≡ true → Touches commits reveals s x.1)
    → Touches commits reveals s (if b then x else (y, s)).1
if_Touches true x y h = h refl
if_Touches false x y h = untouched refl

module _ (k : SubmissionKey) (s : Storage) (opened : is_open k.0 k.1 s ≡ true) where
  commit_row-Touches :
      (hash : String) (now : ℕ) (cap reveals : Option ℕ) (o : Option SubmissionRow)
      → lookup k s.submissions ≡ o
      → Touches cap reveals s (commit_row k hash now cap o s).1
  unfolding commit_row
  commit_row-Touches hash now cap reveals none p =
      touched k (first_commit hash now) opened (rw p (first_step hash now)) refl
  commit_row-Touches hash now cap reveals (some row) p =
      elim (Bool-cases (may_recommit hash cap row)) [
        | inl t ↦
            rw t
              (touched k (recommit hash now row) opened (rw p (recommit_step hash now row t)) refl)
        | inr f ↦ rw f (untouched refl)
      ]

  reveal_row-Touches :
      (commits reveals : Option ℕ) (r : Reveal) (o : Option SubmissionRow)
      → lookup k s.submissions ≡ o
      → Touches commits reveals s (reveal_row k r o s).1
  unfolding reveal_row
  reveal_row-Touches commits reveals r none p =
      touched k (revealed_row r uncommitted_row) opened (rw p (bare_reveal_step r)) refl
  reveal_row-Touches commits reveals r (some row) p = elim (Bool-cases (is_accepted row.verdict)) [
    | inl t ↦ rw t (untouched refl)
    | inr f ↦ rw f (elim (Bool-cases (same_reveal r row)) [
      | inl same ↦ rw same (untouched refl)
      | inr new ↦ rw new (touched k (revealed_row r row) opened (rw p (reveal_step r row f)) refl)
    ])
  ]

attempt_row-Touches :
    (k : SubmissionKey) (s : Storage) (commits cap : Option ℕ) (b : Bool) (o : Option SubmissionRow)
    → is_open k.0 k.1 s ≡ b
    → lookup k s.submissions ≡ o
    → Touches commits cap s (attempt_row k b cap o s).1
unfolding attempt_row
attempt_row-Touches k s commits cap b none q p = untouched refl
attempt_row-Touches k s commits cap false (some row) q p =
    rw (&&-false (is_some row.commit_hash)) (untouched refl)
attempt_row-Touches k s commits cap true (some row) q p =
    elim (Bool-cases (is_some row.commit_hash && below_cap cap row.reveal_count)) [
      | inl t ↦
          let both = &&-eq-true _ _ t in
          rw t (
            touched k (record row { reveal_count = row.reveal_count + 1 }) q
              (rw p (attempt_step row both.0 both.1)) refl)
      | inr f ↦ rw f (untouched refl)
    ]

submissions-open_round :
    (w : RoundWindows) (c : String) (u : Option UniverseSnapshot) (now : ℕ) (at : Option ℕ)
    (s : Storage)
    → (or_rolled_back (open_round w c u now at s) s).submissions ≡ s.submissions
unfolding open_round
submissions-open_round w c u now at s = ground arith

module _ (r c : String) (now : ℕ) where
  pub submissions-snapshot_if_open :
      (s : Storage) → (snapshot_if_open r c now s).submissions ≡ s.submissions
  unfolding snapshot_if_open
  submissions-snapshot_if_open s = ground arith

  submissions-flip_round_revealed :
      (s : Storage) → (flip_round_revealed r c now s).submissions ≡ s.submissions
  unfolding flip_round_revealed
  submissions-flip_round_revealed s = ground arith

  submissions-insert_assessment_consensus :
      (rows : List ConsensusRow) (s : Storage)
      → (insert_assessment_consensus_if_absent r c rows s).submissions ≡ s.submissions
  unfolding insert_assessment_consensus_if_absent
  submissions-insert_assessment_consensus rows s = ground arith

  submissions-put_state :
      (state : RoundState) (o : Option RoundRow) (s : Storage)
      → (put_state (r, c) state now o s).submissions ≡ s.submissions
  submissions-put_state state none s = refl
  submissions-put_state state (some row) s = refl

  submissions-set_round_state :
      (state : RoundState) (s : Storage)
      → (set_round_state r c state now s).submissions ≡ s.submissions
  unfolding set_round_state
  submissions-set_round_state state s = ground (
    arith,
    submissions-put_state state
        (lookup (r, c) (if is_opened state then s else snapshot_if_open r c now s).rounds)
        (if is_opened state then s else snapshot_if_open r c now s),
    submissions-snapshot_if_open s,
  )

  submissions-publish :
      (rows : List ConsensusRow) (s : Storage)
      → (flip_round_revealed r c now
          (insert_assessment_consensus_if_absent r c rows (snapshot_if_open r c now s))).submissions
        ≡ s.submissions
  submissions-publish rows s =
      submissions-flip_round_revealed _
      ∙ submissions-insert_assessment_consensus rows _
      ∙ submissions-snapshot_if_open s

-- An operation that has a cap passes on the given one.
abbrev pub UsesCaps : Option ℕ → Option ℕ → StorageOp → Type 0
UsesCaps commits reveals (commit_op _ _ _ _ _ cap) = cap ≡ commits
UsesCaps commits reveals (attempt_op _ _ _ cap) = cap ≡ reveals
UsesCaps commits reveals _ = Unit

record_commit-Touches :
    (r c h hash : String) (now : ℕ) (cap reveals : Option ℕ) (s : Storage)
    → Touches cap reveals s (record_commit r c h hash now cap s).1
unfolding record_commit
record_commit-Touches r c h hash now cap reveals s =
    if_Touches (is_open r c s) _ _
      (λ t. commit_row-Touches (r, c, h) s t hash now cap reveals (row_at r c h s) refl)

record_reveal-Touches :
    (r c h : String) (reveal : Reveal) (commits reveals : Option ℕ) (s : Storage)
    → Touches commits reveals s (record_reveal r c h reveal s).1
unfolding record_reveal
record_reveal-Touches r c h reveal commits reveals s =
    if_Touches (is_open r c s) _ _
      (λ t. reveal_row-Touches (r, c, h) s t commits reveals reveal (row_at r c h s) refl)

-- Every operation changes at most one submission, of an open round, by one of the five changes.
pub apply-Touches :
    (commits reveals : Option ℕ) (op : StorageOp) (s : Storage)
    → UsesCaps commits reveals op
    → Touches commits reveals s (apply op s)
unfolding apply record_reveal_attempt publish_from_accepted_bundles_and_reveal
    publish_assessment_consensus_and_reveal snapshot_consensus_bundles_if_open
apply-Touches cs rs (open_op w c u now at) s h = untouched (submissions-open_round w c u now at s)
apply-Touches cs rs (commit_op r c h hash now cap) s e =
    rw (← e) (record_commit-Touches r c h hash now cap rs s)
apply-Touches cs rs (attempt_op r c h cap) s e =
    rw (← e) (attempt_row-Touches (r, c, h) s cs cap (is_open r c s) (row_at r c h s) refl refl)
apply-Touches cs rs (reveal_op r c h reveal) s e = record_reveal-Touches r c h reveal cs rs s
apply-Touches cs rs (publish_op r c f now) s h = untouched (submissions-publish r c now _ s)
apply-Touches cs rs (publish_rows_op r c rows now) s h =
    untouched (submissions-publish r c now rows s)
apply-Touches cs rs (state_op r c st now) s h = untouched (submissions-set_round_state r c now st s)

-- Whatever caps it passes on, an operation touches the submissions under some caps.
pub apply-Touches_any :
    (op : StorageOp) (s : Storage)
    → (commits : Option ℕ) × (reveals : Option ℕ) × Touches commits reveals s (apply op s)
apply-Touches_any (commit_op r c h hash now cap) s = (cap, none, apply-Touches cap none _ s refl)
apply-Touches_any (attempt_op r c h cap) s = (none, cap, apply-Touches none cap _ s refl)
apply-Touches_any op s = (none, none, apply-Touches none none op s tt)
