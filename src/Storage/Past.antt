-- ===== src/Storage/Past.antt =====
-- A round of repository.py that is past its opening stays past it.
use endure_subnet.Prelude.{
  ℕ, String, ◌≡◌, refl, ◌∙◌, ap, sym, subst, Bool, true, false, Option, none, some, List, inl, inr,
  if◌then◌else◌, Bool-cases, Option-cases, arith, ltb, or_else,
}
use mathlib.Core.Bool.{false≢true}
use endure_subnet.Prelude.Eq.{pair_eq, triple_eq, string_eq}
use endure_subnet.Prelude.Dict.{lookup, lookup-insert}
use endure_subnet.Protocol.RoundEngine.{RoundWindows}
use endure_subnet.Storage.Tables.{
  Storage, SubmissionRow, SubmissionKey, RoundState, RoundRow, opened, revealed, is_opened,
  RoundKey, ConsensusRow,
}
use endure_subnet.Storage.Rounds.{
  UniverseSnapshot, open_round, round_state, state_of, is_open_state, insert_round,
}
use endure_subnet.Storage.Submissions.{
  record_commit, record_reveal, record_reveal_attempt, commit_row, reveal_row, attempt_row, Reveal,
}
use endure_subnet.Storage.Consensus.{
  snapshot_if_open, set_round_state, put_state, flip_round_revealed,
  insert_assessment_consensus_if_absent, publish_from_accepted_bundles_and_reveal,
  publish_assessment_consensus_and_reveal, snapshot_consensus_bundles_if_open,
}
use endure_subnet.Storage.Ops.{
  StorageOp, open_op, commit_op, attempt_op, reveal_op, publish_op, publish_rows_op, state_op,
  apply, or_rolled_back,
}

-- The round has been revealed, in whole or in part scored, or closed.
abbrev pub is_past_open : Option RoundState → Bool
is_past_open none = false
is_past_open (some opened) = false
is_past_open (some _) = true

-- The program sets a round's state to "partially_scored" and "closed" alone.
abbrev pub KeepsClosed : StorageOp → Type 0
KeepsClosed (state_op _ _ state _) = is_opened state ≡ false
KeepsClosed _ = Unit

past_open-ne-open : (o : Option RoundState) → is_past_open o ≡ true → is_open_state o ≡ false
past_open-ne-open o h = ground arith

-- A change of state that does not open a round keeps another round past its opening.
put_state-past_open :
    (r c r' c' : String) (state : RoundState) (now : ℕ) (s : Storage)
    → is_opened state ≡ false
    → is_past_open (round_state r c s) ≡ true
    → is_past_open (round_state r c (put_state (r', c') state now (lookup (r', c') s.rounds) s))
      ≡ true
unfolding round_state
put_state-past_open r c r' c' state now s keep h = elim (Option-cases (lookup (r', c') s.rounds)) [
  | inl p ↦ rw p h
  | inr (row, p) ↦ rw p (
      rw (lookup-insert (r', c') (r, c) _ s.rounds)
        (elim (Bool-cases (pair_eq.eqb (r', c') (r, c))) [
          | inl same ↦ rw same (ground arith)
          | inr other ↦ rw other h
        ]))
]

insert_round-past_open :
    (r c : String) (k : RoundKey) (row : RoundRow) (u : Option UniverseSnapshot) (now : ℕ)
    (o : Option RoundRow) (s : Storage)
    → lookup k s.rounds ≡ o
    → is_past_open (round_state r c s) ≡ true
    → is_past_open (round_state r c (insert_round o k row u now s)) ≡ true
unfolding insert_round round_state
insert_round-past_open r c k row u now (some existing) s p h = h
insert_round-past_open r c k row u now none s p h =
    rw (lookup-insert k (r, c) row s.rounds) (elim (Bool-cases (pair_eq.eqb k (r, c))) [
      | inl same ↦
          let q : lookup (r, c) s.rounds ≡ none =
            subst (λ j. lookup j s.rounds ≡ none) ((pair_eq.eqb_iff k (r, c)).0 same) p in
          absurd (false≢true (ap (λ o. is_past_open (state_of o)) (sym q) ∙ h))
      | inr other ↦ rw other h
    ])

open_round-past_open :
    (r c : String) (w : RoundWindows) (c' : String) (u : Option UniverseSnapshot) (now : ℕ)
    (at : Option ℕ) (s : Storage)
    → is_past_open (round_state r c s) ≡ true
    → is_past_open (round_state r c (or_rolled_back (open_round w c' u now at s) s)) ≡ true
unfolding open_round
open_round-past_open r c w c' u now at s h =
    elim (Bool-cases (ltb (or_else at w.reveal_close) w.reveal_close)) [
      | inl early ↦ rw early h
      | inr on_time ↦ rw on_time (
          insert_round-past_open r c (w.round_id, c') _ u now (lookup (w.round_id, c') s.rounds) s
            refl h)
    ]

module _ (r c : String) where
  abbrev pub IsPast : Storage → Type 0
  IsPast s = is_past_open (round_state r c s) ≡ true

  -- These leave the table of the rounds alone.
  pub rounds-snapshot_if_open :
      (r' c' : String) (now : ℕ) (s : Storage) → (snapshot_if_open r' c' now s).rounds ≡ s.rounds
  unfolding snapshot_if_open
  rounds-snapshot_if_open r' c' now s = ground arith

  pub rounds-insert_assessment_consensus :
      (r' c' : String) (rows : List ConsensusRow) (s : Storage)
      → (insert_assessment_consensus_if_absent r' c' rows s).rounds ≡ s.rounds
  unfolding insert_assessment_consensus_if_absent
  rounds-insert_assessment_consensus r' c' rows s = ground arith

  IsPast-of_rounds : (s s' : Storage) → s'.rounds ≡ s.rounds → IsPast s → IsPast s'
  unfolding round_state
  IsPast-of_rounds s s' e h = rw e h

  flip-IsPast :
      (r' c' : String) (now : ℕ) (s : Storage) → IsPast s → IsPast (flip_round_revealed r' c' now s)
  unfolding flip_round_revealed
  flip-IsPast r' c' now s h = elim (Bool-cases (is_open_state (round_state r' c' s))) [
    | inl t ↦ rw t (put_state-past_open r c r' c' revealed now s refl h)
    | inr f ↦ rw f h
  ]

  publish-IsPast :
      (r' c' : String) (rows : List ConsensusRow) (now : ℕ) (s : Storage)
      → IsPast s
      → IsPast (
          flip_round_revealed r' c' now
            (insert_assessment_consensus_if_absent r' c' rows (snapshot_if_open r' c' now s)))
  publish-IsPast r' c' rows now s h = flip-IsPast r' c' now _ (
      IsPast-of_rounds (snapshot_if_open r' c' now s) _
        (rounds-insert_assessment_consensus r' c' rows _)
        (IsPast-of_rounds s _ (rounds-snapshot_if_open r' c' now s) h))

  set_state-IsPast :
      (r' c' : String) (state : RoundState) (now : ℕ) (s : Storage)
      → is_opened state ≡ false
      → IsPast s
      → IsPast (set_round_state r' c' state now s)
  unfolding set_round_state
  set_state-IsPast r' c' state now s keep h = rw keep (
      put_state-past_open r c r' c' state now (snapshot_if_open r' c' now s) keep
        (IsPast-of_rounds s _ (rounds-snapshot_if_open r' c' now s) h))

-- The writes of a submission leave every other table alone.
pub record SameRounds (s s' : Storage) : Type 0 where
  pub rounds : s'.rounds ≡ s.rounds
  pub snapshots : s'.consensus_bundle_snapshots ≡ s.consensus_bundle_snapshots

module _ (key : SubmissionKey) (s : Storage) where
  commit_row-SameRounds :
      (hash : String) (now : ℕ) (cap : Option ℕ) (o : Option SubmissionRow)
      → SameRounds s (commit_row key hash now cap o s).1
  unfolding commit_row
  commit_row-SameRounds hash now cap none = record { rounds = refl; snapshots = refl }
  commit_row-SameRounds hash now cap (some row) = ground arith

  attempt_row-SameRounds :
      (b : Bool) (cap : Option ℕ) (o : Option SubmissionRow)
      → SameRounds s (attempt_row key b cap o s).1
  unfolding attempt_row
  attempt_row-SameRounds b cap none = record { rounds = refl; snapshots = refl }
  attempt_row-SameRounds b cap (some row) = ground arith

  reveal_row-SameRounds :
      (r : Reveal) (o : Option SubmissionRow) → SameRounds s (reveal_row key r o s).1
  unfolding reveal_row
  reveal_row-SameRounds r none = record { rounds = refl; snapshots = refl }
  reveal_row-SameRounds r (some row) = ground arith

if_SameRounds :
    (s : Storage) (b : Bool) (x : Bool × Storage) (y : Bool)
    → SameRounds s x.1
    → SameRounds s (if b then x else (y, s)).1
if_SameRounds s true x y h = h
if_SameRounds s false x y h = record { rounds = refl; snapshots = refl }

pub record_commit-SameRounds :
    (r c h hash : String) (now : ℕ) (cap : Option ℕ) (s : Storage)
    → SameRounds s (record_commit r c h hash now cap s).1
unfolding record_commit
record_commit-SameRounds r c h hash now cap s =
    if_SameRounds s _ _ _ (commit_row-SameRounds (r, c, h) s hash now cap _)

pub record_reveal_attempt-SameRounds :
    (r c h : String) (cap : Option ℕ) (s : Storage)
    → SameRounds s (record_reveal_attempt r c h cap s).1
unfolding record_reveal_attempt
record_reveal_attempt-SameRounds r c h cap s = attempt_row-SameRounds (r, c, h) s _ cap _

pub record_reveal-SameRounds :
    (r c h : String) (reveal : Reveal) (s : Storage) → SameRounds s (record_reveal r c h reveal s).1
unfolding record_reveal
record_reveal-SameRounds r c h reveal s =
    if_SameRounds s _ _ _ (reveal_row-SameRounds (r, c, h) s reveal _)

-- A round that is past its opening stays past it, unless a round's state is set to "open".
pub apply-IsPast :
    (r c : String) (op : StorageOp) (s : Storage)
    → KeepsClosed op
    → IsPast r c s
    → IsPast r c (apply op s)
unfolding apply publish_from_accepted_bundles_and_reveal publish_assessment_consensus_and_reveal
    snapshot_consensus_bundles_if_open
apply-IsPast r c (open_op w c' u now at) s k h = open_round-past_open r c w c' u now at s h
apply-IsPast r c (commit_op r' c' hk hash now cap) s k h =
    IsPast-of_rounds r c s _ (record_commit-SameRounds r' c' hk hash now cap s).rounds h
apply-IsPast r c (attempt_op r' c' hk cap) s k h =
    IsPast-of_rounds r c s _ (record_reveal_attempt-SameRounds r' c' hk cap s).rounds h
apply-IsPast r c (reveal_op r' c' hk reveal) s k h =
    IsPast-of_rounds r c s _ (record_reveal-SameRounds r' c' hk reveal s).rounds h
apply-IsPast r c (publish_op r' c' f now) s k h = publish-IsPast r c r' c' _ now s h
apply-IsPast r c (publish_rows_op r' c' rows now) s k h = publish-IsPast r c r' c' rows now s h
apply-IsPast r c (state_op r' c' st now) s k h = set_state-IsPast r c r' c' st now s k h
