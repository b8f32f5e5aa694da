-- ===== src/Protocol/Handlers/Admission.antt =====
-- endure/protocol/handlers.py, `_admit_reveal`: what its verdicts say when they accept.
use endure_subnet.Prelude.{
  ℕ, ◌≤◌, String, Bool, ◌≡◌, refl, sym, true, false, not, ◌&&◌, ◌||◌, Option, none, some, List,
  is_some, is_none, arith,
}
use endure_subnet.Prelude.Eq.{◌==◌, nat_eq, string_eq, option_eq, pair_eq}
use endure_subnet.Protocol.Synapses.{
  RejectionCode, RejectionCode-discrete, code_eq, SubmitReveal, rate_limited,
}
use endure_subnet.Protocol.RoundEngine.{RoundWindows}
use endure_subnet.Protocol.Validation.{Verdict, within}
use endure_subnet.Protocol.Validation.Verdicts.{validate_reveal-accepted}
use endure_subnet.Protocol.Validation.Codes.{validate_reveal-code}
use endure_subnet.Protocol.Calls.{World, Others, if_at}
use endure_subnet.Protocol.Handlers.{SubmissionHandlers}
use endure_subnet.Protocol.Handlers.HandleReveal.{
  is_this_reveal, read_accepted, validated, uncharged, if_charged, admit_reveal, admit_unless_retry,
}

pub true_ne_false : true ≡ false → ⊥
true_ne_false e = cc

not_limited : (code : Option RejectionCode) → code ≡ none → not (code == some rate_limited) ≡ true
unfolding RejectionCode-discrete
not_limited code e = rw e refl

pub written :
    (committed : Option String) (is_open : Bool) (code : Option RejectionCode)
    → (is_some committed ≡ true) × (is_open ≡ true) × (code ≡ none)
    → is_some committed && (is_open && (true && not (code == some rate_limited))) ≡ true
unfolding RejectionCode-discrete
written committed is_open code (c, o, n) = rw c (rw o (not_limited code n))

within_intro : (opens now closes : ℕ) → opens ≤ now → now ≤ closes → within opens now closes ≡ true
within_intro opens now closes a b = ground arith

window_of :
    (committed : Option String) (b : Bool)
    → not b || is_none committed ≡ false
    → (is_some committed ≡ true) × (b ≡ true)
window_of none b e = ground arith
window_of (some hash) b e = ground arith

module _ (h : SubmissionHandlers) (synapse : SubmitReveal) (miner_hotkey : String) (now : ℕ) where
  -- What a verdict that accepts says of the call it comes from
  abbrev pub Admits : Option String → Bool → Verdict → Type 0
  Admits committed is_open_window verdict =
      verdict.accepted ≡ true
      → (is_some committed ≡ true) × (is_open_window ≡ true) × (verdict.rejection_code ≡ none)

  -- `_admit_reveal` accepts no reveal without a commitment or outside the window.
  validated-Admits :
      (committed : Option String) (windows : RoundWindows) (tickers : List String)
      → Admits committed
          (within windows.reveal_open now windows.reveal_close)
          (validated h synapse miner_hotkey now committed windows tickers)
  unfolding validated
  validated-Admits committed windows tickers a =
      let x =
        (validate_reveal-accepted h.digest synapse.round_id synapse.schema_id synapse.spec_version
            synapse.bundle_json synapse.nonce_hex committed miner_hotkey now windows.reveal_open
            windows.reveal_close tickers h.registry).0
          a in
      (
        rw x.1.3 refl,
        within_intro windows.reveal_open now windows.reveal_close x.0.3 x.0.4,
        validate_reveal-code h.digest synapse.round_id synapse.schema_id synapse.spec_version
            synapse.bundle_json synapse.nonce_hex committed miner_hotkey now windows.reveal_open
            windows.reveal_close tickers h.registry a,
      )

  abbrev AdmitsAll : Option String → Bool → Verdict × World → Type 0
  AdmitsAll committed is_open_window r = Admits committed is_open_window r.0

  abbrev NoCode : Verdict × World → Type 0
  NoCode r = r.0.accepted ≡ true → r.0.rejection_code ≡ none

  uncharged-code :
      (others : Others) (w : World)
      → (uncharged h synapse miner_hotkey now others w).0.accepted ≡ true
      → (uncharged h synapse miner_hotkey now others w).0.rejection_code ≡ none
  unfolding uncharged
  uncharged-code others w =
      if_at NoCode
        (is_this_reveal h synapse miner_hotkey now
          (read_accepted h synapse miner_hotkey now others w).0)
        _ _ others (read_accepted h synapse miner_hotkey now others w).1 (λ e a. refl)
        (λ e a. absurd (true_ne_false (sym a)))

  if_charged-Admits :
      (charged : Bool) (committed : Option String) (is_open_window : Bool) (verdict : Verdict)
      (others : Others) (w : World)
      → is_some committed ≡ true
      → is_open_window ≡ true
      → Admits committed is_open_window verdict
      → Admits committed is_open_window
          (if_charged h synapse miner_hotkey now charged verdict others w).0
  unfolding if_charged
  if_charged-Admits true committed is_open_window verdict others w c o admits = admits
  if_charged-Admits false committed is_open_window verdict others w c o admits =
      λ a. (c, o, uncharged-code others w a)

  admit_reveal-Admits :
      (committed : Option String) (windows : RoundWindows) (tickers : List String) (others : Others)
      (w : World)
      → Admits committed
          (within windows.reveal_open now windows.reveal_close)
          (admit_reveal h synapse miner_hotkey now committed
            (within windows.reveal_open now windows.reveal_close)
            windows
            tickers
            others
            w).0
  unfolding admit_reveal
  admit_reveal-Admits committed windows tickers others w =
      if_at (AdmitsAll committed is_open_window) (not is_open_window || is_none committed) _ _
        others w (λ e. validated-Admits committed windows tickers)
        (λ e.
          if_charged-Admits _ committed is_open_window _ others _
            (window_of committed is_open_window e).0 (window_of committed is_open_window e).1
            (validated-Admits committed windows tickers))
    where
      is_open_window : Bool
      is_open_window = within windows.reveal_open now windows.reveal_close

  pub admit_unless_retry-Admits :
      (retry : Bool) (committed : Option String) (windows : RoundWindows) (tickers : List String)
      (others : Others) (w : World)
      → retry ≡ false
      → Admits committed
          (within windows.reveal_open now windows.reveal_close)
          (admit_unless_retry h synapse miner_hotkey now retry committed
            (within windows.reveal_open now windows.reveal_close)
            windows
            tickers
            others
            w).0
  unfolding admit_unless_retry
  admit_unless_retry-Admits true committed windows tickers others w e = absurd (true_ne_false e)
  admit_unless_retry-Admits false committed windows tickers others w e =
      admit_reveal-Admits committed windows tickers others w
