-- ===== src/Storage/Rounds.antt =====
-- repository.py, "rounds": opening a round, its windows, its state and its universe.
use endure_subnet.Prelude.{
  ℕ, String, Bool, true, false, Option, none, some, List, ltb, if◌then◌else◌, is_none, or_else,
  Result, ok, err,
}
use endure_subnet.Prelude.Eq.{string_eq, pair_eq}
use endure_subnet.Prelude.Dict.{Dict, lookup, insert}
use endure_subnet.Protocol.RoundEngine.{RoundWindows}
use endure_subnet.Storage.Tables.{Storage, RoundRow, RoundKey, RoundState, opened, UniverseRow}

pub record UniverseSnapshot : Type 0 where
  pub round_id : String
  pub tickers : List String
  pub source_hash : String

pub data OpenRoundError : Type 0 where
  publication_precedes_reveal_close : OpenRoundError

abbrev universe_row : UniverseSnapshot → ℕ → UniverseRow
universe_row universe now_iso = record {
  tickers = universe.tickers;
  source_hash = universe.source_hash;
  fetched_at = now_iso;
}

abbrev pub insert_universe :
    RoundKey → Option UniverseSnapshot → ℕ → Dict RoundKey UniverseRow → Dict RoundKey UniverseRow
insert_universe key none now_iso table = table
insert_universe key (some universe) now_iso table = insert key (universe_row universe now_iso) table

abbrev pub opened_row : RoundWindows → Option UniverseSnapshot → ℕ → ℕ → RoundRow
opened_row windows universe now_iso publication_at = record {
  state = opened;
  universe_stale = is_none universe;
  degraded = false;
  commit_open_at = windows.commit_open;
  commit_close_at = windows.commit_close;
  reveal_open_at = windows.reveal_open;
  reveal_close_at = windows.reveal_close;
  publication_available_at = publication_at;
  t0_close_at = windows.t0_close;
  created_at = now_iso;
  updated_at = now_iso;
}

-- The writes of `open_round`, unless the round is there already.
unfoldable pub insert_round :
    Option RoundRow → RoundKey → RoundRow → Option UniverseSnapshot → ℕ → Storage → Storage
insert_round (some existing) key row universe now_iso s = s
insert_round none key row universe now_iso s = record s {
  universe_snapshots = insert_universe key universe now_iso s.universe_snapshots;
  rounds = insert key row s.rounds;
}

unfoldable pub open_round :
    RoundWindows
    → String
    → Option UniverseSnapshot
    → ℕ
    → Option ℕ
    → Storage
    → Result OpenRoundError Storage
unfolding insert_round
open_round windows schema_id universe now_iso publication_available_at s =
    let publication_at = or_else publication_available_at windows.reveal_close in
    let key : RoundKey = (windows.round_id, schema_id) in
    if ltb publication_at windows.reveal_close
    then err publication_precedes_reveal_close
    else ok (
        insert_round (lookup key s.rounds) key (opened_row windows universe now_iso publication_at)
          universe now_iso s)

unfoldable pub round_windows : String → String → Storage → Option RoundWindows
round_windows round_id schema_id s = elim (lookup (round_id, schema_id) s.rounds) [
  | none ↦ none
  | some row ↦ some (record {
    round_id = round_id;
    commit_open = row.commit_open_at;
    commit_close = row.commit_close_at;
    t0_close = row.t0_close_at;
    reveal_open = row.reveal_open_at;
    reveal_close = row.reveal_close_at;
  })
]

abbrev pub state_of : Option RoundRow → Option RoundState
state_of none = none
state_of (some row) = some row.state

unfoldable pub round_state : String → String → Storage → Option RoundState
round_state round_id schema_id s = state_of (lookup (round_id, schema_id) s.rounds)

-- `state == ROUND_STATE_OPEN`, of a state that may be missing
abbrev pub is_open_state : Option RoundState → Bool
is_open_state (some opened) = true
is_open_state _ = false

unfoldable pub universe_for : String → String → Storage → Option UniverseSnapshot
universe_for round_id schema_id s = elim (lookup (round_id, schema_id) s.universe_snapshots) [
  | none ↦ none
  | some row ↦
      some (record { round_id = round_id; tickers = row.tickers; source_hash = row.source_hash })
]
