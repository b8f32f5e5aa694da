-- ===== src/Storage/Published.antt =====
-- repository.py, the close of a round: what is published and what is scored come from one set.
use endure_subnet.Prelude.{
  ℕ, String, ◌≡◌, refl, ap, ◌∙◌, true, Option, none, some, List, All, if◌then◌else◌,
}
use endure_subnet.Prelude.Eq.{string_eq, pair_eq}
use endure_subnet.Prelude.Dict.{Dict, lookup, lookup-insert_self}
use endure_subnet.Storage.Tables.{
  Storage, RoundKey, RoundRow, RoundState, ConsensusRow, opened, revealed, partially_scored, closed,
}
use endure_subnet.Storage.Rounds.{round_state, state_of, is_open_state}
use endure_subnet.Storage.Consensus.{
  Bundle, snapshot_if_open, snapshot_consensus_bundles_if_open, flip_round_revealed,
  insert_assessment_consensus_if_absent, publish_from_accepted_bundles_and_reveal, scoring_bundles,
  consensus_bundles_of, order_by_hotkey, put_state,
}
use endure_subnet.Storage.Past.{
  is_past_open, KeepsClosed, rounds-snapshot_if_open, rounds-insert_assessment_consensus,
}
use endure_subnet.Storage.Ops.{StorageOp, run}
use endure_subnet.Storage.Frozen.{
  snapshots_of-flip, snapshots_of-insert_assessment_consensus, bundles_past, closed_round_frozen,
}

module _ (r c : String) (now : ℕ) where
  flip_row_past :
      (o : Option RoundRow) (st : RoundState) (s : Storage)
      → lookup (r, c) s.rounds ≡ o
      → state_of o ≡ some st
      → is_past_open (
          round_state r c
            (if is_open_state (state_of o) then put_state (r, c) revealed now o s else s))
        ≡ true
  unfolding round_state
  flip_row_past none st s e f = absurd cc
  flip_row_past (some row) st s e f = by_state row.state refl
    where
      by_state :
          (t : RoundState)
          → row.state ≡ t
          → is_past_open (
              round_state r c (
                if is_open_state (some row.state)
                then put_state (r, c) revealed now (some row) s
                else s))
            ≡ true
      by_state opened g = rw g (
          rw
            (lookup-insert_self (r, c) (record row { state = revealed; updated_at = now }) s.rounds)
            refl)
      by_state revealed g = rw g (rw e (rw g refl))
      by_state partially_scored g = rw g (rw e (rw g refl))
      by_state closed g = rw g (rw e (rw g refl))

  flip-past :
      (st : RoundState) (s : Storage)
      → round_state r c s ≡ some st
      → is_past_open (round_state r c (flip_round_revealed r c now s)) ≡ true
  unfolding flip_round_revealed round_state
  flip-past st s e = flip_row_past (lookup (r, c) s.rounds) st s refl e

  -- The store once the snapshot is taken and the consensus is in, before the flip.
  abbrev before_flip : List ConsensusRow → Storage → Storage
  before_flip rows s = insert_assessment_consensus_if_absent r c rows (snapshot_if_open r c now s)

  round_state-before_flip :
      (rows : List ConsensusRow) (s : Storage)
      → round_state r c (before_flip rows s) ≡ round_state r c s
  unfolding round_state
  round_state-before_flip rows s =
      ap (λ (table : Dict RoundKey RoundRow). state_of (lookup (r, c) table))
        (rounds-insert_assessment_consensus r c r c rows (snapshot_if_open r c now s)
          ∙ rounds-snapshot_if_open r c r c now s)

  -- When a round that exists is published, in whatever state it is, the bundles from which the
  -- consensus is computed are those that are scored afterwards, and they stay so after any
  -- operations but one that sets a round's state to "open".
  pub publish-scoring_bundles :
      (consensus_rows : List Bundle → List ConsensusRow) (st : RoundState) (s : Storage)
      (later : List StorageOp)
      → round_state r c s ≡ some st
      → All KeepsClosed later
      → let p = publish_from_accepted_bundles_and_reveal r c consensus_rows now s in
        (p.1 ≡ consensus_rows p.0) × (scoring_bundles r c none 0 (run later p.2) ≡ p.0)
  unfolding publish_from_accepted_bundles_and_reveal snapshot_consensus_bundles_if_open
      scoring_bundles consensus_bundles_of
  publish-scoring_bundles f st s later e keep =
      let s1 = snapshot_if_open r c now s in
      let rows = f (consensus_bundles_of r c s1) in
      let past = flip-past st (before_flip rows s) (round_state-before_flip rows s ∙ e) in
      let s2 = flip_round_revealed r c now (before_flip rows s) in
      (
        refl,
        (closed_round_frozen r c later s2 keep past).1 none 0
            ∙ (bundles_past r c (round_state r c s2) s2 past
                ∙ ap order_by_hotkey (
                    snapshots_of-flip r c r c now (before_flip rows s)
                    ∙ snapshots_of-insert_assessment_consensus r c r c rows s1)),
      )
