-- ===== src/Protocol/Handlers/HandleCommit.antt =====
-- endure/protocol/handlers.py, `handle_commit`. `now` is the value of the injected clock.
use endure_subnet.Prelude.{
  ℕ, String, Bool, false, not, ◌&&◌, Option, none, some, leb, if◌then◌else◌,
}
use endure_subnet.Prelude.Eq.{◌==◌, ◌/=◌, string_eq, option_eq}
use endure_subnet.Protocol.Synapses.{
  RejectionCode, SubmitCommit, unknown_schema, late_commit, malformed_bundle, rate_limited,
  round_unavailable,
}
use endure_subnet.Protocol.RoundEngine.{RoundWindows}
use endure_subnet.Protocol.Validation.{Verdict, is_canonical_round_id, validate_commit}
use endure_subnet.Protocol.Calls.{Call, pure, ◌>>=◌, transact, read}
use endure_subnet.Protocol.Handlers.{SubmissionHandlers}
use endure_subnet.Storage.Rounds.{round_windows, round_state, is_open_state}
use endure_subnet.Storage.Submissions.{record_commit, committed_hash, commit_count}

module _ (h : SubmissionHandlers) (synapse : SubmitCommit) (miner_hotkey : String) (now : ℕ) where
  abbrev pub reject_commit : RejectionCode → SubmitCommit
  reject_commit code = record synapse { accepted = false; rejection_code = some code }

  abbrev pub apply_commit : Verdict → SubmitCommit
  apply_commit verdict = record synapse {
    accepted = verdict.accepted;
    rejection_code = verdict.rejection_code;
  }

  abbrev pub commit_refusal : Bool → RejectionCode
  commit_refusal is_open = if is_open then rate_limited else late_commit

  unfoldable pub settle_commit : Bool → Verdict → Call SubmitCommit
  settle_commit recorded verdict =
      if recorded
      then pure (apply_commit verdict)
      else (read (round_state synapse.round_id h.schema_id) >>= λ state.
          pure (reject_commit (commit_refusal (is_open_state state))))

  unfoldable pub record_if_accepted : Verdict → Call SubmitCommit
  unfolding settle_commit
  record_if_accepted verdict =
      if verdict.accepted
      then (transact (
            record_commit synapse.round_id h.schema_id miner_hotkey synapse.bundle_hash now
              (some h.max_commits))
          >>= λ recorded. settle_commit recorded verdict)
      else pure (apply_commit verdict)

  unfoldable pub is_idempotent_retry : ℕ → Call Bool
  is_idempotent_retry count =
      if leb h.max_commits count
      then (read (committed_hash synapse.round_id h.schema_id miner_hotkey) >>= λ hash.
          pure (hash == some synapse.bundle_hash))
      else pure false

  unfoldable pub in_round : RoundWindows → Call SubmitCommit
  unfolding record_if_accepted is_idempotent_retry
  in_round windows = read (commit_count synapse.round_id h.schema_id miner_hotkey) >>= λ count.
      is_idempotent_retry count >>= λ is_retry.
      (if leb h.max_commits count && not is_retry
        then pure (reject_commit rate_limited)
        else record_if_accepted (
            validate_commit synapse.round_id synapse.schema_id synapse.spec_version
              synapse.bundle_hash now windows.commit_open windows.commit_close h.registry))

  abbrev pub if_round : Option RoundWindows → Call SubmitCommit
  if_round none = pure (reject_commit round_unavailable)
  if_round (some windows) = in_round windows

unfoldable pub handle_commit : SubmissionHandlers → SubmitCommit → String → ℕ → Call SubmitCommit
unfolding in_round
handle_commit h synapse miner_hotkey now =
    if synapse.schema_id /= h.schema_id
    then pure (reject_commit h synapse miner_hotkey now unknown_schema)
    else if not (is_canonical_round_id synapse.round_id)
    then pure (reject_commit h synapse miner_hotkey now malformed_bundle)
    else (read (round_windows synapse.round_id h.schema_id) >>= λ windows.
        if_round h synapse miner_hotkey now windows)
