-- ===== src/Storage/Recorded.antt =====
-- What a row of `submissions` holds after a call of repository.py that reports success.
use endure_subnet.Prelude.{
  ℕ, String, Bool, ◌≡◌, refl, ◌∙◌, ap, true, false, Option, none, some, if◌then◌else◌, ◌&&◌, ◌||◌,
  &&-eq-true,
}
use endure_subnet.Prelude.Eq.{string_eq, option_eq, option_beq_iff, triple_eq}
use endure_subnet.Prelude.Dict.{lookup, lookup-insert_self}
use endure_subnet.Storage.Tables.{
  Storage, SubmissionRow, SnapshotRow, RoundState, is_accepted, is_opened,
}
use endure_subnet.Storage.Rounds.{round_state}
use endure_subnet.Storage.Submissions.{
  row_at, put_row, first_commit, recommit, may_recommit, commit_row, record_commit, committed_hash,
  hash_of, retry_identity, accepted_reveal, Reveal, reveal_row, record_reveal, revealed_row,
  same_reveal, is_open, reveal_pair, is_frozen, uncommitted_row,
}
use endure_subnet.Storage.Terminal.{accepted_part}

module _ {κ} (P : Storage → Type κ) where
  -- The property that a call leaves where it reports success
  abbrev Reports : Bool × Storage → Type κ
  Reports r = r.0 ≡ true → P r.1

  if_Reports :
      (b : Bool) {x y : Bool × Storage} → Reports x → Reports y → Reports (if b then x else y)
  if_Reports true p q = p
  if_Reports false p q = q

  refused : (s : Storage) → Reports (false, s)
  refused s e = cc

module _ (r c h : String) where
  abbrev Commits : String → Storage → Type 0
  Commits hash s = hash_of (row_at r c h s) ≡ some hash

  commit_row-Commits :
      (hash : String) (now : ℕ) (limit : Option ℕ) (o : Option SubmissionRow) (s : Storage)
      → row_at r c h s ≡ o
      → Reports (Commits hash) (commit_row (r, c, h) hash now limit o s)
  unfolding commit_row
  commit_row-Commits hash now limit none s e =
      λ t. ap hash_of (lookup-insert_self (r, c, h) (first_commit hash now) s.submissions)
  commit_row-Commits hash now limit (some row) s e =
      if_Reports (Commits hash) (may_recommit hash limit row)
        (λ t. ap hash_of (lookup-insert_self (r, c, h) (recommit hash now row) s.submissions))
        (λ t. ap hash_of e ∙ (option_beq_iff string_eq row.commit_hash (some hash)).0 t)

  -- When `record_commit` reports success, the stored commitment is the new one.
  pub record_commit-committed :
      (hash : String) (now : ℕ) (limit : Option ℕ) (s : Storage)
      → (record_commit r c h hash now limit s).0 ≡ true
      → committed_hash r c h (record_commit r c h hash now limit s).1 ≡ some hash
  unfolding record_commit committed_hash
  record_commit-committed hash now limit s =
      if_Reports (Commits hash) (is_open r c s)
        (commit_row-Commits hash now limit (row_at r c h s) s refl) (refused (Commits hash) s)

  -- The row of the miner is accepted, with this bundle and this nonce.
  abbrev pub HoldsReveal : String → String → Storage → Type 0
  HoldsReveal bundle_json nonce_hex s =
      (hash : Option String) × (count : ℕ) × (accepted_part (row_at r c h s)
        ≡ some (hash, some bundle_json, some nonce_hex, count))

  reveal_pair_inv :
      (a b : Option String) (bundle nonce : String)
      → reveal_pair a b ≡ some (bundle, nonce)
      → (a ≡ some bundle) × (b ≡ some nonce)
  reveal_pair_inv none b bundle nonce e = absurd cc
  reveal_pair_inv (some a) none bundle nonce e = absurd cc
  reveal_pair_inv (some a) (some b) bundle nonce e = (cc, cc)

  if_some_inv :
      {A : Type 0} (b : Bool) {x : Option A} {y : A}
      → ◌≡◌ {A = Option A} (if b then x else none) (some y)
      → (b ≡ true) × (x ≡ some y)
  if_some_inv true e = (refl, e)
  if_some_inv false e = absurd cc

  accepted_row :
      (row : SubmissionRow) (bundle nonce : String)
      → is_accepted row.verdict ≡ true
      → row.bundle_json ≡ some bundle
      → row.nonce_hex ≡ some nonce
      → accepted_part (some row) ≡ some (row.commit_hash, some bundle, some nonce, row.commit_count)
  accepted_row row bundle nonce a e f = rw a (rw e (rw f refl))

  retry_identity-accepted :
      (bundle nonce : String) (st : Option RoundState) (o : Option SubmissionRow)
      (p : Option SnapshotRow)
      → retry_identity st o p ≡ some (bundle, nonce)
      → (hash : Option String) × (count : ℕ) × (accepted_part o
          ≡ some (hash, some bundle, some nonce, count))
  unfolding retry_identity
  retry_identity-accepted bundle nonce none o p e = absurd cc
  retry_identity-accepted bundle nonce (some st) none p e = absurd cc
  retry_identity-accepted bundle nonce (some st) (some row) p e =
      let found =
        if_some_inv (is_accepted row.verdict && (is_opened st || is_frozen row.bundle_json p)) e in
      let held = reveal_pair_inv row.bundle_json row.nonce_hex bundle nonce found.1 in
      (
        row.commit_hash,
        row.commit_count,
        accepted_row row bundle nonce
            (&&-eq-true (is_accepted row.verdict) (is_opened st || is_frozen row.bundle_json p)
              found.0).0
            held.0 held.1,
      )

  -- What `accepted_reveal` finds is in an accepted row.
  pub accepted_reveal-HoldsReveal :
      (bundle nonce : String) (s : Storage)
      → accepted_reveal r c h s ≡ some (bundle, nonce)
      → HoldsReveal bundle nonce s
  unfolding accepted_reveal
  accepted_reveal-HoldsReveal bundle nonce s e =
      retry_identity-accepted bundle nonce (round_state r c s) (row_at r c h s)
        (lookup (r, c, h) s.consensus_bundle_snapshots) e

  put_revealed :
      (v : Reveal) (row : SubmissionRow) (s : Storage)
      → v.accepted ≡ true
      → HoldsReveal v.bundle_json v.nonce_hex (put_row (r, c, h) (revealed_row v row) s)
  put_revealed v row s a = (
    row.commit_hash,
    row.commit_count,
    ap accepted_part (lookup-insert_self (r, c, h) (revealed_row v row) s.submissions)
        ∙ accepted_row (revealed_row v row) v.bundle_json v.nonce_hex (rw a refl) refl refl,
  )

  reveal_row-HoldsReveal :
      (v : Reveal) (o : Option SubmissionRow) (s : Storage)
      → v.accepted ≡ true
      → Reports (HoldsReveal v.bundle_json v.nonce_hex) (reveal_row (r, c, h) v o s)
  unfolding reveal_row
  reveal_row-HoldsReveal v none s a = λ t. put_revealed v uncommitted_row s a
  reveal_row-HoldsReveal v (some row) s a =
      if_Reports (HoldsReveal v.bundle_json v.nonce_hex) (is_accepted row.verdict)
        (refused (HoldsReveal v.bundle_json v.nonce_hex) s)
        (if_Reports (HoldsReveal v.bundle_json v.nonce_hex) (same_reveal v row)
          (refused (HoldsReveal v.bundle_json v.nonce_hex) s) (λ t. put_revealed v row s a))

  -- When `record_reveal` reports success for an accepted reveal, that reveal is in the row.
  pub record_reveal-HoldsReveal :
      (v : Reveal) (s : Storage)
      → v.accepted ≡ true
      → (record_reveal r c h v s).0 ≡ true
      → HoldsReveal v.bundle_json v.nonce_hex (record_reveal r c h v s).1
  unfolding record_reveal
  record_reveal-HoldsReveal v s a =
      if_Reports (HoldsReveal v.bundle_json v.nonce_hex) (is_open r c s)
        (reveal_row-HoldsReveal v (row_at r c h s) s a)
        (refused (HoldsReveal v.bundle_json v.nonce_hex) s)
