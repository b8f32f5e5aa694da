-- ===== src/Protocol/Validation/Verdicts.antt =====
-- When endure/protocol/validation.py accepts a commit, and when it accepts a reveal.
use endure_subnet.Prelude.{
  ℕ, ◌≤◌, String, ◌≡◌, refl, true, not, Option, none, some, List, length, is_some, if◌then◌else◌,
  ◌↔◌, arith, some_of, subst,
}
use endure_subnet.Prelude.Eq.{nat_eq, string_eq, list_beq_iff}
use endure_subnet.Prelude.Dict.{lookup}
use endure_subnet.Protocol.Synapses.{late_reveal}
use endure_subnet.Protocol.Canonical.{code_points, utf8, fromhex, commit_hash}
use endure_subnet.Protocol.Validation.{
  Verdict, CanonicalBundle, SchemaRegistry, SchemaRegistryEntry, Parsed, unreadable,
  validation_error, other_model, bundle_model, is_canonical_round_id, current_version_key,
  commit_nonce_bytes, is_hex_digest, reveal_payload_rejection, is_member, bundle_verdict,
  validate_reveal_bundle, nonce_verdict, committed_verdict, payload_verdict, entry_verdict,
  validate_reveal, reject, within,
}

module _ (round_id schema_id : String) (spec_version : ℕ) (bundle_hash : String)
    (now commit_open commit_close : ℕ) (registry : SchemaRegistry) where
  abbrev pub CommitIsDue : Type 0
  CommitIsDue =
      (is_canonical_round_id round_id ≡ true)
      × (spec_version ≡ current_version_key)
      × (is_some (lookup schema_id registry) ≡ true)
      × (commit_open ≤ now)
      × (now ≤ commit_close)
      × (is_hex_digest bundle_hash ≡ true)

bundle_of : {a b : CanonicalBundle} → bundle_model a ≡ bundle_model b → b ≡ a
bundle_of e = cc

module _ (entry : SchemaRegistryEntry) (round_id schema_id bundle_json : String)
    (universe : List String) where
  abbrev pub BundleIsValid : CanonicalBundle → Type 0
  BundleIsValid bundle =
      (bundle.round_id ≡ round_id)
      × (bundle.schema_id ≡ schema_id)
      × (bundle.canonical_bytes ≡ utf8 (code_points bundle_json))
      × (is_member entry.bundle_membership_valid bundle universe ≡ true)

  bundle_verdict-bundle :
      (bundle : CanonicalBundle)
      → ((bundle_verdict entry round_id schema_id bundle_json universe
            (bundle_model bundle)).accepted
          ≡ true)
        ↔ BundleIsValid bundle
  unfolding bundle_verdict
  bundle_verdict-bundle bundle = ground (
    arith,
    string_eq.eqb_iff bundle.round_id round_id,
    string_eq.eqb_iff bundle.schema_id schema_id,
    list_beq_iff nat_eq bundle.canonical_bytes (utf8 (code_points bundle_json)),
  )

  abbrev pub ParsesTo : CanonicalBundle → Type 0
  ParsesTo bundle = (entry.model_validate bundle_json ≡ bundle_model bundle) × BundleIsValid bundle

  bundle_verdict-accepted :
      (p : Parsed)
      → ((bundle_verdict entry round_id schema_id bundle_json universe p).accepted ≡ true)
        ↔ ((bundle : CanonicalBundle) × (p ≡ bundle_model bundle) × BundleIsValid bundle)
  unfolding bundle_verdict
  bundle_verdict-accepted unreadable = (λ e. cc, λ (_, e, _). cc)
  bundle_verdict-accepted (validation_error error) = (λ e. cc, λ (_, e, _). cc)
  bundle_verdict-accepted other_model = (λ e. cc, λ (_, e, _). cc)
  bundle_verdict-accepted (bundle_model bundle) = (
    λ e. (bundle, refl, (bundle_verdict-bundle bundle).0 e),
    λ (b, e, valid). (bundle_verdict-bundle bundle).1 (subst BundleIsValid (bundle_of e) valid),
  )

  module _ (digest : List ℕ → String) (committed_hash miner_hotkey : String) where
    abbrev pub Opens : CanonicalBundle → List ℕ → Type 0
    Opens bundle nonce =
        (commit_nonce_bytes ≤ length nonce)
        × (commit_hash digest (utf8 (code_points bundle_json)) nonce miner_hotkey ≡ committed_hash)
        × ParsesTo bundle

    nonce_verdict-some :
        (nonce : List ℕ)
        → ((nonce_verdict digest entry round_id schema_id bundle_json committed_hash miner_hotkey
              universe
              (some nonce)).accepted
            ≡ true)
          ↔ ((commit_nonce_bytes ≤ length nonce)
              × (commit_hash digest (utf8 (code_points bundle_json)) nonce miner_hotkey
                  ≡ committed_hash)
              × ((validate_reveal_bundle entry round_id schema_id bundle_json universe).accepted
                  ≡ true))
    unfolding nonce_verdict
    nonce_verdict-some nonce = ground (
      arith,
      string_eq.eqb_iff (commit_hash digest (utf8 (code_points bundle_json)) nonce miner_hotkey)
          committed_hash,
    )

    opened_by :
        (nonce : List ℕ)
        → (nonce_verdict digest entry round_id schema_id bundle_json committed_hash miner_hotkey
            universe
            (some nonce)).accepted
          ≡ true
        → (bundle : CanonicalBundle) × Opens bundle nonce
    unfolding validate_reveal_bundle
    opened_by nonce e =
        let s = (nonce_verdict-some nonce).0 e in
        let p = (bundle_verdict-accepted (entry.model_validate bundle_json)).0 s.2 in
        (p.0, (s.0, s.1, (p.1, p.2)))

    opens :
        (nonce : List ℕ) (bundle : CanonicalBundle)
        → Opens bundle nonce
        → (nonce_verdict digest entry round_id schema_id bundle_json committed_hash miner_hotkey
            universe
            (some nonce)).accepted
          ≡ true
    unfolding validate_reveal_bundle
    opens nonce bundle (le, hashed, parses) = (nonce_verdict-some nonce).1 (
      le,
      hashed,
      (bundle_verdict-accepted (entry.model_validate bundle_json)).1 (bundle, parses.0, parses.1),
    )

    nonce_verdict-accepted :
        (o : Option (List ℕ))
        → ((nonce_verdict digest entry round_id schema_id bundle_json committed_hash miner_hotkey
              universe o).accepted
            ≡ true)
          ↔ ((bundle : CanonicalBundle) × (nonce : List ℕ) × (o ≡ some nonce) × Opens bundle nonce)
    unfolding nonce_verdict
    nonce_verdict-accepted none = (λ e. cc, λ (_, _, e, _). cc)
    nonce_verdict-accepted (some nonce) = (
      λ e. ((opened_by nonce e).0, nonce, refl, (opened_by nonce e).1),
      λ (bundle, n, e, o). opens nonce bundle (subst (Opens bundle) (some_of e) o),
    )

entry_verdict-accepted :
    (o : Option SchemaRegistryEntry) (verdict : SchemaRegistryEntry → Verdict)
    → ((entry_verdict o verdict).accepted ≡ true)
      ↔ ((entry : SchemaRegistryEntry) × (o ≡ some entry) × ((verdict entry).accepted ≡ true))
entry_verdict-accepted none verdict = (λ e. cc, λ (_, e, _). cc)
entry_verdict-accepted (some entry) verdict =
    (λ a. (entry, refl, a), λ (x, e, a). subst (λ y. (verdict y).accepted ≡ true) (some_of e) a)

module _ (digest : List ℕ → String) (entry : SchemaRegistryEntry)
    (round_id schema_id bundle_json : String) (nonce_hex : String) (miner_hotkey : String)
    (universe : List String) where
  abbrev pub OpensHash : String → Type 0
  OpensHash hash =
      (bundle : CanonicalBundle) × (nonce : List ℕ) × (fromhex (code_points nonce_hex) ≡ some nonce)
      × Opens entry round_id schema_id bundle_json universe digest hash miner_hotkey bundle nonce

  committed_verdict-accepted :
      (o : Option String)
      → ((committed_verdict digest entry round_id schema_id bundle_json nonce_hex o miner_hotkey
            universe).accepted
          ≡ true)
        ↔ ((hash : String) × (o ≡ some hash) × OpensHash hash)
  committed_verdict-accepted none = (λ e. cc, λ (_, e, _). cc)
  committed_verdict-accepted (some hash) = (
    λ a. (hash, refl, (by_nonce hash).0 a),
    λ (x, e, o). (by_nonce hash).1 (subst OpensHash (some_of e) o),
  )
    where
      by_nonce :
          (hash : String)
          → ((nonce_verdict digest entry round_id schema_id bundle_json hash miner_hotkey universe
                (fromhex (code_points nonce_hex))).accepted
              ≡ true)
            ↔ OpensHash hash
      by_nonce hash =
          nonce_verdict-accepted entry round_id schema_id bundle_json universe digest hash
            miner_hotkey (fromhex (code_points nonce_hex))

module _ (digest : List ℕ → String) (round_id schema_id : String) (spec_version : ℕ)
    (bundle_json nonce_hex : String) (committed_hash : Option String) (miner_hotkey : String)
    (now reveal_open reveal_close : ℕ) (universe : List String) (registry : SchemaRegistry) where
  abbrev pub RevealIsDue : Type 0
  RevealIsDue =
      (is_canonical_round_id round_id ≡ true)
      × (spec_version ≡ current_version_key)
      × (reveal_payload_rejection bundle_json nonce_hex ≡ none)
      × (reveal_open ≤ now)
      × (now ≤ reveal_close)

  -- The entry, the commitment, the nonce and the bundle of a reveal that is accepted.
  abbrev pub RevealOpens : Type 0
  RevealOpens =
      (entry : SchemaRegistryEntry) × (lookup schema_id registry ≡ some entry)
      × (hash : String) × (committed_hash ≡ some hash)
      × OpensHash digest entry round_id schema_id bundle_json nonce_hex miner_hotkey universe hash

  abbrev due_verdict : SchemaRegistryEntry → Verdict
  due_verdict entry = payload_verdict (reveal_payload_rejection bundle_json nonce_hex) (
      if not (within reveal_open now reveal_close)
      then reject late_reveal
      else committed_verdict digest entry round_id schema_id bundle_json nonce_hex committed_hash
          miner_hotkey universe)

  guards_accepted :
      ((validate_reveal digest round_id schema_id spec_version bundle_json nonce_hex committed_hash
          miner_hotkey now reveal_open reveal_close universe registry).accepted
        ≡ true)
      ↔ ((is_canonical_round_id round_id ≡ true)
          × (spec_version ≡ current_version_key)
          × ((entry_verdict (lookup schema_id registry) due_verdict).accepted ≡ true))
  unfolding validate_reveal
  guards_accepted = ground arith

  due_verdict-accepted :
      (entry : SchemaRegistryEntry)
      → ((due_verdict entry).accepted ≡ true) ↔ (
          (reveal_payload_rejection bundle_json nonce_hex ≡ none)
          × (reveal_open ≤ now)
          × (now ≤ reveal_close)
          × ((committed_verdict digest entry round_id schema_id bundle_json nonce_hex committed_hash
                miner_hotkey universe).accepted
              ≡ true))
  due_verdict-accepted entry = ground arith

  -- A reveal is accepted exactly when its round is a canonical date, its version is the current
  -- one, the payload is in its caps, the clock is in the window, its schema is registered, the miner
  -- has committed, and the bundle and a nonce of 16 bytes or more hash with the hotkey to that
  -- commitment; and the bundle is the canonical text of a valid bundle of this round and schema,
  -- whose tickers are in the universe.
  pub validate_reveal-accepted :
      ((validate_reveal digest round_id schema_id spec_version bundle_json nonce_hex committed_hash
          miner_hotkey now reveal_open reveal_close universe registry).accepted
        ≡ true)
      ↔ (RevealIsDue × RevealOpens)
  validate_reveal-accepted = (
    λ a.
        let g = guards_accepted.0 a in
        let x = (entry_verdict-accepted (lookup schema_id registry) due_verdict).0 g.2 in
        let d = (due_verdict-accepted x.0).0 x.2 in
        let c = (by_commitment x.0).0 d.3 in ((g.0, g.1, d.0, d.1, d.2), (x.0, x.1, c.0, c.1, c.2)),
    λ ((canonical, version, payload, opened, closes), (entry, found, hash, committed, opens)).
        guards_accepted.1 (
          canonical,
          version,
          (entry_verdict-accepted (lookup schema_id registry) due_verdict).1 (
            entry,
            found,
            (due_verdict-accepted entry).1
                (payload, opened, closes, (by_commitment entry).1 (hash, committed, opens)),
          ),
        ),
  )
    where
      by_commitment :
          (entry : SchemaRegistryEntry)
          → ((committed_verdict digest entry round_id schema_id bundle_json nonce_hex committed_hash
                miner_hotkey universe).accepted
              ≡ true)
            ↔ ((hash : String) × (committed_hash ≡ some hash)
                × OpensHash digest entry round_id schema_id bundle_json nonce_hex miner_hotkey
                    universe hash)
      by_commitment entry =
          committed_verdict-accepted digest entry round_id schema_id bundle_json nonce_hex
            miner_hotkey universe committed_hash
