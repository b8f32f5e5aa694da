-- ===== src/Storage/Consensus.antt =====
-- repository.py, "consensus": the snapshot of the accepted bundles that closes a round, the
-- consensus rows, and the transitions of a round's state.
use Prim.Native.Nat.{Ordering}
use Prim.Native.String.{compare}
use endure_subnet.Prelude.{
  ℕ, String, Bool, true, false, ◌&&◌, Option, none, some, List, [], ◌∷◌, ◌++◌, map, any, take, drop,
  if◌then◌else◌,
}
use endure_subnet.Prelude.Eq.{◌==◌, string_eq, pair_eq, triple_eq}
use endure_subnet.Prelude.Dict.{Dict, lookup, insert}
use endure_subnet.Storage.Tables.{
  Storage, RoundRow, RoundKey, SubmissionKey, SubmissionRow, SnapshotRow, ConsensusRow, RoundState,
  opened, revealed, is_opened, is_accepted,
}
use endure_subnet.Storage.Rounds.{round_state, is_open_state}

abbrev pub Bundle : Type 0
Bundle = String × Option String

-- The order of a text column.
abbrev pub text_leb : String → String → Bool
text_leb s t = elim (compare s t) [ Ordering.gt ↦ false | _ ↦ true ]

unfoldable pub insert_by_hotkey : Bundle → List Bundle → List Bundle
insert_by_hotkey b [] = b ∷ []
insert_by_hotkey b (c ∷ bs) = if text_leb b.0 c.0 then b ∷ c ∷ bs else c ∷ insert_by_hotkey b bs

unfoldable pub order_by_hotkey : List Bundle → List Bundle
unfolding insert_by_hotkey
order_by_hotkey [] = []
order_by_hotkey (b ∷ bs) = insert_by_hotkey b (order_by_hotkey bs)

abbrev pub of_round : String → String → SubmissionKey → Bool
of_round round_id schema_id (r, c, _) = r == round_id && c == schema_id

unfoldable pub accepted_rows : String → String → Dict SubmissionKey SubmissionRow → List Bundle
accepted_rows round_id schema_id [] = []
accepted_rows round_id schema_id ((key, row) ∷ table) =
    let rest = accepted_rows round_id schema_id table in
    if of_round round_id schema_id key && is_accepted row.verdict
    then (key.2, row.bundle_json) ∷ rest
    else rest

unfoldable pub snapshot_rows : String → String → Dict SubmissionKey SnapshotRow → List Bundle
snapshot_rows round_id schema_id [] = []
snapshot_rows round_id schema_id ((key, row) ∷ table) =
    let rest = snapshot_rows round_id schema_id table in
    if of_round round_id schema_id key then (key.2, row.bundle_json) ∷ rest else rest

-- `_accepted_bundles_from_connection`
unfoldable pub accepted_bundles_of : String → String → Storage → List Bundle
unfolding order_by_hotkey accepted_rows
accepted_bundles_of round_id schema_id s =
    order_by_hotkey (accepted_rows round_id schema_id s.submissions)

-- `_consensus_bundles_from_connection`
unfoldable pub consensus_bundles_of : String → String → Storage → List Bundle
unfolding order_by_hotkey snapshot_rows
consensus_bundles_of round_id schema_id s =
    order_by_hotkey (snapshot_rows round_id schema_id s.consensus_bundle_snapshots)

-- An insertion that leaves a row with the same key as it is.
abbrev pub insert_if_absent :
    Option SnapshotRow
    → SubmissionKey
    → SnapshotRow
    → Dict SubmissionKey SnapshotRow
    → Dict SubmissionKey SnapshotRow
insert_if_absent none key row table = insert key row table
insert_if_absent (some _) key row table = table

abbrev pub insert_or_ignore :
    SubmissionKey → SnapshotRow → Dict SubmissionKey SnapshotRow → Dict SubmissionKey SnapshotRow
insert_or_ignore key row table = insert_if_absent (lookup key table) key row table

unfoldable pub insert_snapshots :
    String
    → String
    → ℕ
    → List Bundle
    → Dict SubmissionKey SnapshotRow
    → Dict SubmissionKey SnapshotRow
insert_snapshots round_id schema_id now_iso [] table = table
insert_snapshots round_id schema_id now_iso ((hotkey, bundle_json) ∷ bundles) table =
    insert_snapshots round_id schema_id now_iso bundles (
      insert_or_ignore (round_id, schema_id, hotkey)
        (record { bundle_json = bundle_json; snapshotted_at = now_iso }) table)

abbrev pub is_empty : List Bundle → Bool
is_empty [] = true
is_empty _ = false

-- `_snapshot_consensus_bundles_if_open`, up to the bundles that it returns
unfoldable pub snapshot_if_open : String → String → ℕ → Storage → Storage
snapshot_if_open round_id schema_id now_iso s =
    if is_open_state (round_state round_id schema_id s)
      && is_empty (consensus_bundles_of round_id schema_id s)
    then record s {
      consensus_bundle_snapshots =
          insert_snapshots round_id schema_id now_iso (accepted_bundles_of round_id schema_id s)
            s.consensus_bundle_snapshots;
    }
    else s

unfoldable pub snapshot_consensus_bundles_if_open :
    String → String → ℕ → Storage → List Bundle × Storage
snapshot_consensus_bundles_if_open round_id schema_id now_iso s =
    let s' = snapshot_if_open round_id schema_id now_iso s in
    (consensus_bundles_of round_id schema_id s', s')

unfoldable pub has_consensus : String → String → Storage → Bool
has_consensus round_id schema_id s =
    any (λ (e : RoundKey × ConsensusRow). e.0 == (round_id, schema_id)) s.assessment_consensus

unfoldable pub insert_assessment_consensus_if_absent :
    String → String → List ConsensusRow → Storage → Storage
unfolding has_consensus
insert_assessment_consensus_if_absent round_id schema_id rows s =
    if has_consensus round_id schema_id s then s else record s {
      assessment_consensus =
          s.assessment_consensus ++ map (λ row. ((round_id, schema_id), row)) rows;
    }

-- `UPDATE rounds SET state` of the one row with the key
abbrev pub put_state : RoundKey → RoundState → ℕ → Option RoundRow → Storage → Storage
put_state key state now_iso none s = s
put_state key state now_iso (some row) s = record s {
  rounds = insert key (record row { state = state; updated_at = now_iso }) s.rounds;
}

unfoldable pub flip_round_revealed : String → String → ℕ → Storage → Storage
flip_round_revealed round_id schema_id now_iso s =
    if is_open_state (round_state round_id schema_id s)
    then put_state (round_id, schema_id) revealed now_iso (lookup (round_id, schema_id) s.rounds) s
    else s

-- The texts of VALID_ROUND_STATES are the constructors of `RoundState`.
unfoldable pub set_round_state : String → String → RoundState → ℕ → Storage → Storage
set_round_state round_id schema_id state now_iso s =
    let s' = if is_opened state then s else snapshot_if_open round_id schema_id now_iso s in
    put_state (round_id, schema_id) state now_iso (lookup (round_id, schema_id) s'.rounds) s'

unfoldable pub publish_assessment_consensus_and_reveal :
    String → String → List ConsensusRow → ℕ → Storage → Storage
publish_assessment_consensus_and_reveal round_id schema_id rows now_iso s =
    let s' = snapshot_if_open round_id schema_id now_iso s in
    flip_round_revealed round_id schema_id now_iso
      (insert_assessment_consensus_if_absent round_id schema_id rows s')

unfoldable pub publish_from_accepted_bundles_and_reveal :
    String
    → String
    → (List Bundle → List ConsensusRow)
    → ℕ
    → Storage
    → List Bundle × List ConsensusRow × Storage
publish_from_accepted_bundles_and_reveal round_id schema_id consensus_rows now_iso s =
    let (bundles, s') = snapshot_consensus_bundles_if_open round_id schema_id now_iso s in
    let rows = consensus_rows bundles in
    (
      bundles,
      rows,
      flip_round_revealed round_id schema_id now_iso
          (insert_assessment_consensus_if_absent round_id schema_id rows s'),
    )

-- The bundles that `scoring_bundles` pages: the snapshot after the reveal, and the live accepted
-- bundles before it.
unfoldable pub bundles_for : Option RoundState → String → String → Storage → List Bundle
bundles_for none round_id schema_id s = accepted_bundles_of round_id schema_id s
bundles_for (some opened) round_id schema_id s = accepted_bundles_of round_id schema_id s
bundles_for (some _) round_id schema_id s = consensus_bundles_of round_id schema_id s

abbrev pub page : Option ℕ → ℕ → List Bundle → List Bundle
page none offset bundles = drop offset bundles
page (some limit) offset bundles = take limit (drop offset bundles)

unfoldable pub scoring_bundles : String → String → Option ℕ → ℕ → Storage → List Bundle
unfolding bundles_for
scoring_bundles round_id schema_id limit offset s =
    page limit offset (bundles_for (round_state round_id schema_id s) round_id schema_id s)
