-- ===== src/Storage/Frozen.antt =====
-- A closed round is frozen: once its state is no longer "open", no operation of repository.py
-- changes a submission of the round, the bundles that were snapshotted, or what is scored.
use mathlib.Core.Bool.{false≢true}
use endure_subnet.Prelude.{
  ℕ, String, ◌≡◌, refl, ◌∙◌, ap, sym, subst, true, false, ◌&&◌, Option, none, some, List, [], ◌∷◌,
  inl, inr, Bool-cases, arith, All,
}
use endure_subnet.Prelude.Eq.{◌==◌, pair_eq, triple_eq, string_eq}
use endure_subnet.Prelude.Dict.{Dict, lookup, insert, lookup-insert}
use endure_subnet.Protocol.RoundEngine.{RoundWindows}
use endure_subnet.Storage.Tables.{
  Storage, SubmissionKey, SnapshotRow, RoundState, opened, revealed, partially_scored, closed,
  is_opened, ConsensusRow, RoundRow,
}
use endure_subnet.Storage.Rounds.{round_state, is_open_state, UniverseSnapshot, open_round}
use endure_subnet.Storage.Submissions.{is_open}
use endure_subnet.Storage.Consensus.{
  Bundle, snapshot_if_open, set_round_state, put_state, flip_round_revealed, of_round,
  snapshot_rows, consensus_bundles_of, insert_snapshots, insert_if_absent,
  insert_assessment_consensus_if_absent, publish_from_accepted_bundles_and_reveal,
  publish_assessment_consensus_and_reveal, snapshot_consensus_bundles_if_open, bundles_for,
  scoring_bundles, page, is_empty, order_by_hotkey,
}
use endure_subnet.Storage.Ops.{
  StorageOp, open_op, commit_op, attempt_op, reveal_op, publish_op, publish_rows_op, state_op,
  apply, or_rolled_back, run,
}
use endure_subnet.Storage.Steps.{Touches, untouched, touched, apply-Touches_any}
use endure_subnet.Storage.Past.{
  is_past_open, KeepsClosed, IsPast, apply-IsPast, record_commit-SameRounds,
  record_reveal_attempt-SameRounds, record_reveal-SameRounds,
}

open_ne_past : (o : Option RoundState) → is_open_state o ≡ true → is_past_open o ≡ true → ⊥
open_ne_past o p q = ground arith

-- A submission of a round that is past its opening is not touched.
Touches-lookup_past :
    (key : SubmissionKey) {commits reveals : Option ℕ} {s s' : Storage}
    → Touches commits reveals s s'
    → IsPast key.0 key.1 s
    → lookup key s'.submissions ≡ lookup key s.submissions
Touches-lookup_past key (untouched same) past = ap (lookup key) same
Touches-lookup_past key {s = s} (touched k row was_open step after) past = rw after (
    rw (lookup-insert k key row s.submissions) (elim (Bool-cases (triple_eq.eqb k key)) [
      | inl same ↦ absurd (
          open_ne_past (round_state key.0 key.1 s)
            (subst (λ (j : SubmissionKey). is_open j.0 j.1 s ≡ true)
              ((triple_eq.eqb_iff k key).0 same) was_open)
            past)
      | inr other ↦ rw other refl
    ]))

-- Snapshots of another round do not show among those of this one.
module _ (r c : String) where
  snapshot_rows-insert :
      (k : SubmissionKey) (row : SnapshotRow) (table : Dict SubmissionKey SnapshotRow)
      → of_round r c k ≡ false
      → snapshot_rows r c (insert k row table) ≡ snapshot_rows r c table
  unfolding snapshot_rows insert
  snapshot_rows-insert k row [] h = rw h refl
  snapshot_rows-insert k row ((j, w) ∷ table) h = elim (Bool-cases (triple_eq.eqb j k)) [
    | inl same ↦
        let e : j ≡ k = (triple_eq.eqb_iff j k).0 same in
        let hj : of_round r c j ≡ false = subst (λ i. of_round r c i ≡ false) (sym e) h in
        rw same (rw h (rw hj refl))
    | inr other ↦ rw other (rw (snapshot_rows-insert k row table h) refl)
  ]

  snapshot_rows-insert_if_absent :
      (o : Option SnapshotRow) (k : SubmissionKey) (row : SnapshotRow)
      (table : Dict SubmissionKey SnapshotRow)
      → of_round r c k ≡ false
      → snapshot_rows r c (insert_if_absent o k row table) ≡ snapshot_rows r c table
  snapshot_rows-insert_if_absent none k row table h = snapshot_rows-insert k row table h
  snapshot_rows-insert_if_absent (some _) k row table h = refl

  insert_snapshots_apart :
      (r' c' : String) (now : ℕ) (bundles : List Bundle) (table : Dict SubmissionKey SnapshotRow)
      → (r' == r && c' == c) ≡ false
      → snapshot_rows r c (insert_snapshots r' c' now bundles table) ≡ snapshot_rows r c table
  unfolding insert_snapshots
  insert_snapshots_apart r' c' now [] table h = refl
  insert_snapshots_apart r' c' now ((hotkey, bundle) ∷ bundles) table h =
      insert_snapshots_apart r' c' now bundles _ h
      ∙ snapshot_rows-insert_if_absent (lookup (r', c', hotkey) table) (r', c', hotkey) _ table h

  -- A snapshot is taken of an open round alone, so that of a round past its opening stays.
  snapshot_rows_past :
      (r' c' : String) (now : ℕ) (s : Storage)
      → IsPast r c s
      → snapshot_rows r c (snapshot_if_open r' c' now s).consensus_bundle_snapshots
        ≡ snapshot_rows r c s.consensus_bundle_snapshots
  unfolding snapshot_if_open
  snapshot_rows_past r' c' now s past = elim (Bool-cases (is_open_state (round_state r' c' s))) [
    | inr f ↦ rw f refl
    | inl t ↦ elim (Bool-cases (r' == r && c' == c)) [
      | inl same ↦
          let e : (r', c') ≡ (r, c) = (pair_eq.eqb_iff (r', c') (r, c)).0 same in
          absurd (
            open_ne_past (round_state r c s)
              (subst (λ (k : String × String). is_open_state (round_state k.0 k.1 s) ≡ true) e t)
              past)
      | inr other ↦ elim (Bool-cases (is_empty (consensus_bundles_of r' c' s))) [
        | inl fresh ↦ rw (t, fresh) (insert_snapshots_apart r' c' now _ _ other)
        | inr taken ↦ rw (t, taken) refl
      ]
    ]
  ]

  abbrev snapshots_of : Storage → List Bundle
  snapshots_of s = snapshot_rows r c s.consensus_bundle_snapshots

  pub snapshots_of-flip :
      (r' c' : String) (now : ℕ) (s : Storage)
      → snapshots_of (flip_round_revealed r' c' now s) ≡ snapshots_of s
  unfolding flip_round_revealed
  snapshots_of-flip r' c' now s = ground arith

  pub snapshots_of-insert_assessment_consensus :
      (r' c' : String) (rows : List ConsensusRow) (s : Storage)
      → snapshots_of (insert_assessment_consensus_if_absent r' c' rows s) ≡ snapshots_of s
  unfolding insert_assessment_consensus_if_absent
  snapshots_of-insert_assessment_consensus r' c' rows s = ground arith

  snapshots_of-publish :
      (r' c' : String) (rows : List ConsensusRow) (now : ℕ) (s : Storage)
      → IsPast r c s
      → snapshots_of (
          flip_round_revealed r' c' now
            (insert_assessment_consensus_if_absent r' c' rows (snapshot_if_open r' c' now s)))
        ≡ snapshots_of s
  snapshots_of-publish r' c' rows now s past =
      snapshots_of-flip r' c' now _
      ∙ snapshots_of-insert_assessment_consensus r' c' rows _
      ∙ snapshot_rows_past r' c' now s past

  snapshots_of-put_state :
      (k : String × String) (state : RoundState) (now : ℕ) (o : Option RoundRow) (s : Storage)
      → snapshots_of (put_state k state now o s) ≡ snapshots_of s
  snapshots_of-put_state k state now none s = refl
  snapshots_of-put_state k state now (some row) s = refl

  snapshots_of-set_round_state :
      (r' c' : String) (state : RoundState) (now : ℕ) (s : Storage)
      → is_opened state ≡ false
      → IsPast r c s
      → snapshots_of (set_round_state r' c' state now s) ≡ snapshots_of s
  unfolding set_round_state
  snapshots_of-set_round_state r' c' state now s keep past = rw keep (
      snapshots_of-put_state (r', c') state now _ (snapshot_if_open r' c' now s)
      ∙ snapshot_rows_past r' c' now s past)

  snapshots_of-open_round :
      (w : RoundWindows) (c' : String) (u : Option UniverseSnapshot) (now : ℕ) (at : Option ℕ)
      (s : Storage)
      → snapshots_of (or_rolled_back (open_round w c' u now at s) s) ≡ snapshots_of s
  unfolding open_round
  snapshots_of-open_round w c' u now at s = ground arith

  snapshots_of-apply :
      (op : StorageOp) (s : Storage)
      → KeepsClosed op
      → IsPast r c s
      → snapshots_of (apply op s) ≡ snapshots_of s
  unfolding apply publish_from_accepted_bundles_and_reveal publish_assessment_consensus_and_reveal
      snapshot_consensus_bundles_if_open
  snapshots_of-apply (open_op w c' u now at) s k h = snapshots_of-open_round w c' u now at s
  snapshots_of-apply (commit_op r' c' hk hash now cap) s k h =
      ap (snapshot_rows r c) (record_commit-SameRounds r' c' hk hash now cap s).snapshots
  snapshots_of-apply (attempt_op r' c' hk cap) s k h =
      ap (snapshot_rows r c) (record_reveal_attempt-SameRounds r' c' hk cap s).snapshots
  snapshots_of-apply (reveal_op r' c' hk reveal) s k h =
      ap (snapshot_rows r c) (record_reveal-SameRounds r' c' hk reveal s).snapshots
  snapshots_of-apply (publish_op r' c' f now) s k h = snapshots_of-publish r' c' _ now s h
  snapshots_of-apply (publish_rows_op r' c' rows now) s k h =
      snapshots_of-publish r' c' rows now s h
  snapshots_of-apply (state_op r' c' st now) s k h = snapshots_of-set_round_state r' c' st now s k h

  -- What a run leaves of a round past its opening.
  pub record SameRound (s s' : Storage) : Type 0 where
    pub past : IsPast r c s'
    pub rows : (h : String) → lookup (r, c, h) s'.submissions ≡ lookup (r, c, h) s.submissions
    pub snapshots : snapshots_of s' ≡ snapshots_of s

  run-SameRound :
      (ops : List StorageOp) (s : Storage)
      → All KeepsClosed ops
      → IsPast r c s
      → SameRound s (run ops s)
  unfolding run
  run-SameRound [] s k h = record { past = h; rows = λ _. refl; snapshots = refl }
  run-SameRound (op ∷ ops) s k h =
      let rest = run-SameRound ops (apply op s) k.1 (apply-IsPast r c op s k.0 h) in
      record {
        past = rest.past;
        rows = λ hk. rest.rows hk ∙ Touches-lookup_past (r, c, hk) (apply-Touches_any op s).2 h;
        snapshots = rest.snapshots ∙ snapshots_of-apply op s k.0 h;
      }

pub bundles_past :
    (r c : String) (o : Option RoundState) (s : Storage)
    → is_past_open o ≡ true
    → bundles_for o r c s ≡ consensus_bundles_of r c s
unfolding bundles_for
bundles_past r c none s h = absurd (false≢true h)
bundles_past r c (some opened) s h = absurd (false≢true h)
bundles_past r c (some revealed) s h = refl
bundles_past r c (some partially_scored) s h = refl
bundles_past r c (some closed) s h = refl

-- Once a round is past its opening, its submissions, and the bundles that are scored under any
-- limit and offset, are the same after any operations but one that sets a round's state to "open".
pub closed_round_frozen :
    (r c : String) (ops : List StorageOp) (s : Storage)
    → All KeepsClosed ops
    → is_past_open (round_state r c s) ≡ true
    → ((h : String) → lookup (r, c, h) (run ops s).submissions ≡ lookup (r, c, h) s.submissions)
      × ((limit : Option ℕ) (offset : ℕ)
          → scoring_bundles r c limit offset (run ops s) ≡ scoring_bundles r c limit offset s)
unfolding scoring_bundles consensus_bundles_of
closed_round_frozen r c ops s k h =
    let same = run-SameRound r c ops s k h in
    (
      same.rows,
      λ limit offset. ap (page limit offset) (
          bundles_past r c (round_state r c (run ops s)) (run ops s) same.past
          ∙ ap order_by_hotkey same.snapshots
          ∙ sym (bundles_past r c (round_state r c s) s h)),
    )
