-- ===== src/Protocol/Handlers/Reveals.antt =====
-- What the reveal handler of endure/protocol/handlers.py replies, against the store.
use endure_subnet.Prelude.{
  ℕ, String, Bool, ◌≡◌, refl, ◌∙◌, sym, true, false, not, ◌&&◌, Option, none, some, List,
  if◌then◌else◌, is_some, arith, &&-eq-true,
}
use endure_subnet.Prelude.Eq.{◌==◌, ◌/=◌, nat_eq, string_eq, option_eq, pair_eq, option_beq_iff}
use endure_subnet.Protocol.Synapses.{
  RejectionCode, RejectionCode-discrete, code_eq, SubmitReveal, unknown_schema, late_reveal,
  malformed_bundle, rate_limited, round_unavailable,
}
use endure_subnet.Protocol.RoundEngine.{RoundWindows}
use endure_subnet.Protocol.Validation.{Verdict, is_canonical_round_id, within, reject}
use endure_subnet.Protocol.Calls.{
  Call, World, Others, pure, read, after_others, Earns, pure-Earns, if_Earns, bind-Earns, if_at,
}
use endure_subnet.Protocol.Handlers.{SubmissionHandlers}
use endure_subnet.Protocol.Handlers.HandleReveal.{
  reject_reveal, is_this_reveal, read_accepted, reveal_of, confirm, record_verdict,
  admit_unless_retry, in_reveal_round, if_universe, if_reveal_round, early_rejection,
  unless_rejected, handle_reveal,
}
use endure_subnet.Protocol.Handlers.Admission.{
  true_ne_false, written, Admits, admit_unless_retry-Admits,
}
use endure_subnet.Storage.Tables.{Storage}
use endure_subnet.Storage.Ops.{StorageOp, run}
use endure_subnet.Storage.Rounds.{UniverseSnapshot, round_windows, universe_for}
use endure_subnet.Storage.Submissions.{committed_hash}
use endure_subnet.Storage.Recorded.{
  HoldsReveal, accepted_reveal-HoldsReveal, record_reveal-HoldsReveal,
}
use endure_subnet.Storage.Terminal.{accepted_part-run}

-- An accepted reveal is in its row after any operations.
HoldsReveal-run :
    (r c h bundle nonce : String) (ops : List StorageOp) (s : Storage)
    → HoldsReveal r c h bundle nonce s
    → HoldsReveal r c h bundle nonce (run ops s)
HoldsReveal-run r c h bundle nonce ops s (hash, count, e) =
    (hash, count, accepted_part-run (r, c, h) (hash, some bundle, some nonce, count) ops s e)

accepts_if :
    (b : Bool) (verdict : Verdict) (code : RejectionCode)
    → (if b then verdict else reject code).accepted ≡ true
    → b ≡ true
accepts_if true verdict code e = refl
accepts_if false verdict code e = absurd cc

module _ (h : SubmissionHandlers) (synapse : SubmitReveal) (miner_hotkey : String) (now : ℕ) where
  abbrev Holds : Storage → Type 0
  Holds =
      HoldsReveal synapse.round_id h.schema_id miner_hotkey synapse.bundle_json synapse.nonce_hex

  -- A result whose verdict, if it accepts, finds the reveal in the store
  abbrev Sound : Verdict × World → Type 0
  Sound r = r.0.accepted ≡ true → Holds r.1.storage

  found-Holds :
      (others : Others) (w : World)
      → is_this_reveal h synapse miner_hotkey now
          (read_accepted h synapse miner_hotkey now others w).0
        ≡ true
      → Holds (after_others others w)
  found-Holds others w e =
      accepted_reveal-HoldsReveal synapse.round_id h.schema_id miner_hotkey synapse.bundle_json
        synapse.nonce_hex (after_others others w)
        ((option_beq_iff pair_eq _ (some (synapse.bundle_json, synapse.nonce_hex))).0 e)

  confirm-Sound :
      (verdict : Verdict) (recorded : Bool) (others : Others) (w : World)
      → (verdict.accepted ≡ true → recorded ≡ true → Holds w.storage)
      → Sound (confirm h synapse miner_hotkey now verdict recorded others w)
  unfolding confirm
  confirm-Sound verdict recorded others w held =
      if_at Sound (verdict.accepted && not recorded) _ _ others w
        (λ e a. found-Holds others w (accepts_if _ verdict late_reveal a))
        (λ e a. held a (ground arith))

  record_verdict-Sound :
      (committed : Option String) (is_open_window retry : Bool) (verdict : Verdict)
      (others : Others) (w : World)
      → (retry ≡ true → Holds w.storage)
      → (retry ≡ false → Admits h synapse miner_hotkey now committed is_open_window verdict)
      → Sound (
          record_verdict h synapse miner_hotkey now committed is_open_window retry verdict others w)
  unfolding record_verdict RejectionCode-discrete
  record_verdict-Sound committed is_open_window retry verdict others w kept admits =
      if_at Sound
        (is_some committed
          && (is_open_window && (not retry && not (verdict.rejection_code == some rate_limited))))
        _ _ others w
        (λ e. confirm-Sound verdict _ others _ (
          record_reveal-HoldsReveal synapse.round_id h.schema_id miner_hotkey
            (reveal_of h synapse miner_hotkey now verdict) (after_others others w)))
        (λ e a. unrecorded retry kept admits a e)
    where
      unrecorded :
          (b : Bool)
          → (b ≡ true → Holds w.storage)
          → (b ≡ false → Admits h synapse miner_hotkey now committed is_open_window verdict)
          → verdict.accepted ≡ true
          → is_some committed
              && (is_open_window && (not b && not (verdict.rejection_code == some rate_limited)))
            ≡ false
          → Holds w.storage
      unrecorded true kept admits a e = kept refl
      unrecorded false kept admits a e = absurd (
          true_ne_false
            (sym (written committed is_open_window verdict.rejection_code (admits refl a)) ∙ e))

  admit_unless_retry-Holds :
      (retry : Bool) (committed : Option String) (is_open_window : Bool) (windows : RoundWindows)
      (tickers : List String) (others : Others) (w : World)
      → Holds w.storage
      → retry ≡ true
      → Holds
          (admit_unless_retry h synapse miner_hotkey now retry committed is_open_window windows
            tickers others w).1.storage
  unfolding admit_unless_retry
  admit_unless_retry-Holds true committed is_open_window windows tickers others w held e = held
  admit_unless_retry-Holds false committed is_open_window windows tickers others w held e =
      absurd (true_ne_false (sym e))

  abbrev is_accepted_reply : SubmitReveal → Bool
  is_accepted_reply reply = reply.accepted

  abbrev EarnsReveal : Call SubmitReveal → Type 0
  EarnsReveal = Earns Holds is_accepted_reply

  in_reveal_round-Earns :
      (windows : RoundWindows) (tickers : List String)
      → EarnsReveal (in_reveal_round h synapse miner_hotkey now windows tickers)
  unfolding in_reveal_round Earns
  in_reveal_round-Earns windows tickers others w =
      record_verdict-Sound committed is_open_window retry verdict.0 others verdict.1
        (λ e.
          admit_unless_retry-Holds retry committed is_open_window windows tickers others second
            (HoldsReveal-run synapse.round_id h.schema_id miner_hotkey synapse.bundle_json
              synapse.nonce_hex (others first.calls) first.storage
              (found-Holds others w (&&-eq-true is_open_window _ e).1))
            e)
        (λ e.
          admit_unless_retry-Admits h synapse miner_hotkey now retry committed windows tickers
            others second e)
    where
      is_open_window : Bool
      is_open_window = within windows.reveal_open now windows.reveal_close

      first : World
      first = (read_accepted h synapse miner_hotkey now others w).1

      retry : Bool
      retry =
          is_open_window
          && is_this_reveal h synapse miner_hotkey now
              (read_accepted h synapse miner_hotkey now others w).0

      committed : Option String
      committed = (read (committed_hash synapse.round_id h.schema_id miner_hotkey) others first).0

      second : World
      second = (read (committed_hash synapse.round_id h.schema_id miner_hotkey) others first).1

      verdict : Verdict × World
      verdict =
          admit_unless_retry h synapse miner_hotkey now retry committed is_open_window windows
            tickers others second

  rejected-Earns :
      (code : RejectionCode) → EarnsReveal (pure (reject_reveal h synapse miner_hotkey now code))
  rejected-Earns code =
      pure-Earns Holds is_accepted_reply (reject_reveal h synapse miner_hotkey now code) refl

  if_universe-Earns :
      (windows : RoundWindows) (o : Option UniverseSnapshot)
      → EarnsReveal (if_universe h synapse miner_hotkey now windows o)
  if_universe-Earns windows none = rejected-Earns round_unavailable
  if_universe-Earns windows (some universe) = in_reveal_round-Earns windows universe.tickers

  if_reveal_round-Earns :
      (o : Option RoundWindows) → EarnsReveal (if_reveal_round h synapse miner_hotkey now o)
  if_reveal_round-Earns none = rejected-Earns round_unavailable
  if_reveal_round-Earns (some windows) =
      bind-Earns Holds is_accepted_reply (read (universe_for synapse.round_id h.schema_id)) _
        (if_universe-Earns windows)

  unless_rejected-Earns :
      (o : Option RejectionCode) → EarnsReveal (unless_rejected h synapse miner_hotkey now o)
  unless_rejected-Earns (some code) = rejected-Earns code
  unless_rejected-Earns none =
      bind-Earns Holds is_accepted_reply (read (round_windows synapse.round_id h.schema_id)) _
        if_reveal_round-Earns

  handle_reveal-Earns : EarnsReveal (handle_reveal h synapse miner_hotkey now)
  unfolding handle_reveal
  handle_reveal-Earns =
      if_Earns Holds is_accepted_reply (synapse.schema_id /= h.schema_id) _ _
        (λ e. rejected-Earns unknown_schema)
        (λ e.
          if_Earns Holds is_accepted_reply (not (is_canonical_round_id synapse.round_id)) _ _
            (λ e. rejected-Earns malformed_bundle)
            (λ e. unless_rejected-Earns (early_rejection h synapse miner_hotkey now)))

  -- Whatever other callers write between the calls of `handle_reveal`: if the reply says that the
  -- reveal was accepted, then the store that the handler leaves has an accepted row for the miner
  -- and the round with this bundle and this nonce, and it has it after any further operations.
  pub handle_reveal-HoldsReveal :
      (others : Others) (w : World) (later : List StorageOp)
      → (handle_reveal h synapse miner_hotkey now others w).0.accepted ≡ true
      → HoldsReveal synapse.round_id h.schema_id miner_hotkey synapse.bundle_json synapse.nonce_hex
          (run later (handle_reveal h synapse miner_hotkey now others w).1.storage)
  unfolding Earns
  handle_reveal-HoldsReveal others w later a =
      HoldsReveal-run synapse.round_id h.schema_id miner_hotkey synapse.bundle_json
        synapse.nonce_hex later _ (handle_reveal-Earns others w a)
