-- ===== src/Protocol/Handlers/Commits.antt =====
-- What the commit handler of endure/protocol/handlers.py replies, against the store.
use endure_subnet.Prelude.{
  ℕ, String, Bool, ◌≡◌, refl, true, false, not, ◌&&◌, Option, none, some, leb,
}
use endure_subnet.Prelude.Eq.{◌/=◌, string_eq}
use endure_subnet.Protocol.Synapses.{
  RejectionCode, SubmitCommit, unknown_schema, malformed_bundle, rate_limited, round_unavailable,
}
use endure_subnet.Protocol.RoundEngine.{RoundWindows}
use endure_subnet.Protocol.Validation.{Verdict, is_canonical_round_id, validate_commit}
use endure_subnet.Protocol.Calls.{
  Call, World, Others, after_others, pure, read, Earns, pure-Earns, if_Earns, bind-Earns,
}
use endure_subnet.Protocol.Handlers.{SubmissionHandlers}
use endure_subnet.Protocol.Handlers.HandleCommit.{
  reject_commit, apply_commit, settle_commit, record_if_accepted, is_idempotent_retry, in_round,
  if_round, handle_commit,
}
use endure_subnet.Storage.Tables.{Storage}
use endure_subnet.Storage.Rounds.{round_windows}
use endure_subnet.Storage.Submissions.{commit_count, committed_hash}
use endure_subnet.Storage.Recorded.{record_commit-committed}

module _ (h : SubmissionHandlers) (synapse : SubmitCommit) (miner_hotkey : String) (now : ℕ) where
  abbrev IsCommitted : Storage → Type 0
  IsCommitted s =
      committed_hash synapse.round_id h.schema_id miner_hotkey s ≡ some synapse.bundle_hash

  abbrev is_accepted_reply : SubmitCommit → Bool
  is_accepted_reply reply = reply.accepted

  abbrev EarnsCommit : Call SubmitCommit → Type 0
  EarnsCommit = Earns IsCommitted is_accepted_reply

  settle_commit-IsCommitted :
      (recorded : Bool) (verdict : Verdict) (others : Others) (w : World)
      → (recorded ≡ true → IsCommitted w.storage)
      → is_accepted_reply (settle_commit h synapse miner_hotkey now recorded verdict others w).0
        ≡ true
      → IsCommitted (settle_commit h synapse miner_hotkey now recorded verdict others w).1.storage
  unfolding settle_commit
  settle_commit-IsCommitted true verdict others w p t = p refl
  settle_commit-IsCommitted false verdict others w p t = absurd cc

  record_if_accepted-Earns :
      (verdict : Verdict) → EarnsCommit (record_if_accepted h synapse miner_hotkey now verdict)
  unfolding record_if_accepted Earns
  record_if_accepted-Earns verdict =
      if_Earns IsCommitted is_accepted_reply verdict.accepted _ _
        (λ a others w. settle_commit-IsCommitted _ verdict others _ (
          record_commit-committed synapse.round_id h.schema_id miner_hotkey synapse.bundle_hash now
            (some h.max_commits) (after_others others w)))
        (λ a.
          pure-Earns IsCommitted is_accepted_reply (apply_commit h synapse miner_hotkey now verdict)
            a)

  rejected-Earns :
      (code : RejectionCode) → EarnsCommit (pure (reject_commit h synapse miner_hotkey now code))
  rejected-Earns code =
      pure-Earns IsCommitted is_accepted_reply (reject_commit h synapse miner_hotkey now code) refl

  in_round-Earns :
      (windows : RoundWindows) → EarnsCommit (in_round h synapse miner_hotkey now windows)
  unfolding in_round
  in_round-Earns windows =
      bind-Earns IsCommitted is_accepted_reply
        (read (commit_count synapse.round_id h.schema_id miner_hotkey)) _
        (λ count.
          bind-Earns IsCommitted is_accepted_reply
            (is_idempotent_retry h synapse miner_hotkey now count) _
            (λ is_retry.
              if_Earns IsCommitted is_accepted_reply (leb h.max_commits count && not is_retry) _ _
                (λ e. rejected-Earns rate_limited)
                (λ e. record_if_accepted-Earns (
                  validate_commit synapse.round_id synapse.schema_id synapse.spec_version
                    synapse.bundle_hash now windows.commit_open windows.commit_close h.registry))))

  if_round-Earns : (o : Option RoundWindows) → EarnsCommit (if_round h synapse miner_hotkey now o)
  if_round-Earns none = rejected-Earns round_unavailable
  if_round-Earns (some windows) = in_round-Earns windows

  handle_commit-Earns : EarnsCommit (handle_commit h synapse miner_hotkey now)
  unfolding handle_commit
  handle_commit-Earns =
      if_Earns IsCommitted is_accepted_reply (synapse.schema_id /= h.schema_id) _ _
        (λ e. rejected-Earns unknown_schema)
        (λ e.
          if_Earns IsCommitted is_accepted_reply (not (is_canonical_round_id synapse.round_id)) _ _
            (λ e. rejected-Earns malformed_bundle)
            (λ e.
              bind-Earns IsCommitted is_accepted_reply
                (read (round_windows synapse.round_id h.schema_id)) _ if_round-Earns))

  -- Whatever other callers write between the calls of `handle_commit`: if the reply says that the
  -- commit was accepted, then the store that the handler leaves holds its hash as the miner's
  -- commitment for the round.
  pub handle_commit-committed :
      (others : Others) (w : World)
      → (handle_commit h synapse miner_hotkey now others w).0.accepted ≡ true
      → committed_hash synapse.round_id h.schema_id miner_hotkey
          (handle_commit h synapse miner_hotkey now others w).1.storage
        ≡ some synapse.bundle_hash
  unfolding Earns
  handle_commit-committed = handle_commit-Earns
