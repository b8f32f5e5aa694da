-- ===== src/Protocol/Handlers/HandleReveal.antt =====
-- endure/protocol/handlers.py, `handle_reveal`. `now` is the value of the injected clock.
use endure_subnet.Prelude.{
  ℕ, String, Bool, false, not, ◌&&◌, ◌||◌, Option, none, some, List, if◌then◌else◌, is_some,
  is_none,
}
use endure_subnet.Prelude.Eq.{◌==◌, ◌/=◌, nat_eq, string_eq, option_eq, pair_eq}
use endure_subnet.Protocol.Synapses.{
  RejectionCode, RejectionCode-discrete, code_eq, SubmitReveal, version_mismatch, unknown_schema,
  late_reveal, malformed_bundle, rate_limited, round_unavailable,
}
use endure_subnet.Protocol.RoundEngine.{RoundWindows}
use endure_subnet.Protocol.Validation.{
  Verdict, is_canonical_round_id, reveal_payload_rejection, validate_reveal, current_version_key,
  within, reject,
}
use endure_subnet.Protocol.Calls.{Call, pure, ◌>>=◌, transact, read}
use endure_subnet.Protocol.Handlers.{SubmissionHandlers, accept}
use endure_subnet.Storage.Rounds.{
  UniverseSnapshot, round_windows, round_state, universe_for, is_open_state,
}
use endure_subnet.Storage.Submissions.{
  committed_hash, record_reveal_attempt, accepted_reveal, Reveal, record_reveal,
}

module _ (h : SubmissionHandlers) (synapse : SubmitReveal) (miner_hotkey : String) (now : ℕ) where
  abbrev pub reject_reveal : RejectionCode → SubmitReveal
  reject_reveal code = record synapse { accepted = false; rejection_code = some code }

  abbrev pub apply_reveal : Verdict → SubmitReveal
  apply_reveal verdict = record synapse {
    accepted = verdict.accepted;
    rejection_code = verdict.rejection_code;
  }

  -- `self._storage.accepted_reveal(...) == (synapse.bundle_json, synapse.nonce_hex)`
  abbrev pub is_this_reveal : Option (String × String) → Bool
  is_this_reveal found = found == some (synapse.bundle_json, synapse.nonce_hex)

  abbrev pub read_accepted : Call (Option (String × String))
  read_accepted = read (accepted_reveal synapse.round_id h.schema_id miner_hotkey)

  unfoldable pub validated : Option String → RoundWindows → List String → Verdict
  validated committed windows tickers =
      validate_reveal h.digest synapse.round_id synapse.schema_id synapse.spec_version
        synapse.bundle_json synapse.nonce_hex committed miner_hotkey now windows.reveal_open
        windows.reveal_close tickers h.registry

  abbrev pub reveal_refusal : Bool → RejectionCode
  reveal_refusal is_open = if is_open then rate_limited else late_reveal

  unfoldable pub uncharged : Call Verdict
  uncharged = read_accepted >>= λ found.
      (if is_this_reveal found
        then pure accept
        else (read (round_state synapse.round_id h.schema_id) >>= λ state.
            pure (reject (reveal_refusal (is_open_state state)))))

  unfoldable pub if_charged : Bool → Verdict → Call Verdict
  unfolding uncharged
  if_charged charged verdict = if charged then pure verdict else uncharged

  -- `_admit_reveal`
  unfoldable pub admit_reveal : Option String → Bool → RoundWindows → List String → Call Verdict
  unfolding if_charged
  admit_reveal committed is_open_window windows tickers =
      if not is_open_window || is_none committed
      then pure (validated committed windows tickers)
      else (transact
            (record_reveal_attempt synapse.round_id h.schema_id miner_hotkey (some h.max_reveals))
          >>= λ charged. if_charged charged (validated committed windows tickers))

  abbrev pub reveal_of : Verdict → Reveal
  reveal_of verdict = record {
    revealed_at = now;
    bundle_json = synapse.bundle_json;
    nonce_hex = synapse.nonce_hex;
    accepted = verdict.accepted;
    rejection_code = verdict.rejection_code;
  }

  -- A write that did nothing is a success only for the reveal that is already accepted.
  unfoldable pub confirm : Verdict → Bool → Call Verdict
  confirm verdict recorded =
      if verdict.accepted && not recorded
      then (read_accepted >>= λ found.
          pure (if is_this_reveal found then verdict else reject late_reveal))
      else pure verdict

  unfoldable pub record_verdict : Option String → Bool → Bool → Verdict → Call Verdict
  unfolding confirm RejectionCode-discrete
  record_verdict committed is_open_window is_accepted_retry verdict =
      if is_some committed
        && (is_open_window
            && (not is_accepted_retry && not (verdict.rejection_code == some rate_limited)))
      then (transact (record_reveal synapse.round_id h.schema_id miner_hotkey (reveal_of verdict))
          >>= λ recorded. confirm verdict recorded)
      else pure verdict

  unfoldable pub admit_unless_retry :
      Bool → Option String → Bool → RoundWindows → List String → Call Verdict
  unfolding admit_reveal
  admit_unless_retry is_accepted_retry committed is_open_window windows tickers =
      if is_accepted_retry
      then pure accept
      else admit_reveal committed is_open_window windows tickers

  unfoldable pub in_reveal_round : RoundWindows → List String → Call SubmitReveal
  unfolding admit_unless_retry record_verdict
  in_reveal_round windows tickers =
      let is_open_window = within windows.reveal_open now windows.reveal_close in
      read_accepted >>= λ found.
      read (committed_hash synapse.round_id h.schema_id miner_hotkey) >>= λ committed.
      admit_unless_retry (is_open_window && is_this_reveal found) committed is_open_window windows
        tickers
      >>= λ verdict.
          record_verdict committed is_open_window (is_open_window && is_this_reveal found) verdict
          >>= λ final. pure (apply_reveal final)

  abbrev pub if_universe : RoundWindows → Option UniverseSnapshot → Call SubmitReveal
  if_universe windows none = pure (reject_reveal round_unavailable)
  if_universe windows (some universe) = in_reveal_round windows universe.tickers

  abbrev pub if_reveal_round : Option RoundWindows → Call SubmitReveal
  if_reveal_round none = pure (reject_reveal round_unavailable)
  if_reveal_round (some windows) =
      read (universe_for synapse.round_id h.schema_id) >>= λ universe. if_universe windows universe

  unfoldable pub early_rejection : Option RejectionCode
  early_rejection =
      if synapse.spec_version /= current_version_key
      then some version_mismatch
      else reveal_payload_rejection synapse.bundle_json synapse.nonce_hex

  abbrev pub unless_rejected : Option RejectionCode → Call SubmitReveal
  unless_rejected (some code) = pure (reject_reveal code)
  unless_rejected none =
      read (round_windows synapse.round_id h.schema_id) >>= λ windows. if_reveal_round windows

unfoldable pub handle_reveal : SubmissionHandlers → SubmitReveal → String → ℕ → Call SubmitReveal
unfolding in_reveal_round early_rejection
handle_reveal h synapse miner_hotkey now =
    if synapse.schema_id /= h.schema_id
    then pure (reject_reveal h synapse miner_hotkey now unknown_schema)
    else if not (is_canonical_round_id synapse.round_id)
    then pure (reject_reveal h synapse miner_hotkey now malformed_bundle)
    else unless_rejected h synapse miner_hotkey now (early_rejection h synapse miner_hotkey now)
