-- ===== src/Protocol/Validation/Codes.antt =====
-- endure/protocol/validation.py: an accepted verdict has no rejection code.
use endure_subnet.Prelude.{
  ℕ, String, Bool, ◌≡◌, refl, true, false, not, ◌||◌, Option, none, some, List, ltb, length,
  if◌then◌else◌,
}
use endure_subnet.Prelude.Eq.{◌/=◌, nat_eq, string_eq, list_eq}
use endure_subnet.Prelude.Dict.{lookup}
use endure_subnet.Protocol.Synapses.{
  RejectionCode, version_mismatch, malformed_bundle, late_reveal, no_commit, hash_mismatch,
  invalid_ticker, unknown_schema,
}
use endure_subnet.Protocol.Canonical.{code_points, utf8, fromhex, commit_hash}
use endure_subnet.Protocol.Validation.{
  Verdict, reject, SchemaRegistry, SchemaRegistryEntry, Parsed, unreadable, validation_error,
  classify_validation_error, other_model, bundle_model, bundle_verdict, validate_reveal_bundle,
  nonce_verdict, committed_verdict, payload_verdict, entry_verdict, validate_reveal,
  is_canonical_round_id, is_member, current_version_key, commit_nonce_bytes,
  reveal_payload_rejection, within,
}

abbrev IsConsistent : Verdict → Type 0
IsConsistent v = v.accepted ≡ true → v.rejection_code ≡ none

reject-IsConsistent : (code : RejectionCode) → IsConsistent (reject code)
reject-IsConsistent code e = absurd cc

guard-IsConsistent :
    (b : Bool) (code : RejectionCode) (v : Verdict)
    → IsConsistent v
    → IsConsistent (if b then reject code else v)
guard-IsConsistent true code v c = reject-IsConsistent code
guard-IsConsistent false code v c = c

module _ (entry : SchemaRegistryEntry) (round_id schema_id bundle_json : String)
    (universe : List String) where
  bundle_verdict-IsConsistent :
      (p : Parsed) → IsConsistent (bundle_verdict entry round_id schema_id bundle_json universe p)
  unfolding bundle_verdict
  bundle_verdict-IsConsistent unreadable = reject-IsConsistent malformed_bundle
  bundle_verdict-IsConsistent (validation_error error) =
      reject-IsConsistent (classify_validation_error error)
  bundle_verdict-IsConsistent other_model = reject-IsConsistent malformed_bundle
  bundle_verdict-IsConsistent (bundle_model bundle) =
      guard-IsConsistent (bundle.round_id /= round_id || bundle.schema_id /= schema_id)
        malformed_bundle _
        (guard-IsConsistent (bundle.canonical_bytes /= utf8 (code_points bundle_json))
          malformed_bundle _
          (guard-IsConsistent (not (is_member entry.bundle_membership_valid bundle universe))
            invalid_ticker _ (λ e. refl)))

  module _ (digest : List ℕ → String) (miner_hotkey : String) where
    nonce_verdict-IsConsistent :
        (hash : String) (o : Option (List ℕ))
        → IsConsistent
            (nonce_verdict digest entry round_id schema_id bundle_json hash miner_hotkey universe o)
    unfolding nonce_verdict validate_reveal_bundle
    nonce_verdict-IsConsistent hash none = reject-IsConsistent malformed_bundle
    nonce_verdict-IsConsistent hash (some nonce) =
        guard-IsConsistent (ltb (length nonce) commit_nonce_bytes) malformed_bundle _ (
          guard-IsConsistent
            (commit_hash digest (utf8 (code_points bundle_json)) nonce miner_hotkey /= hash)
            hash_mismatch _ (bundle_verdict-IsConsistent (entry.model_validate bundle_json)))

    committed_verdict-IsConsistent :
        (nonce_hex : String) (o : Option String)
        → IsConsistent (
            committed_verdict digest entry round_id schema_id bundle_json nonce_hex o miner_hotkey
              universe)
    committed_verdict-IsConsistent nonce_hex none = reject-IsConsistent no_commit
    committed_verdict-IsConsistent nonce_hex (some hash) =
        nonce_verdict-IsConsistent hash (fromhex (code_points nonce_hex))

payload_verdict-IsConsistent :
    (o : Option RejectionCode) (v : Verdict) → IsConsistent v → IsConsistent (payload_verdict o v)
payload_verdict-IsConsistent none v c = c
payload_verdict-IsConsistent (some code) v c = reject-IsConsistent code

entry_verdict-IsConsistent :
    (o : Option SchemaRegistryEntry) (f : SchemaRegistryEntry → Verdict)
    → ((entry : SchemaRegistryEntry) → IsConsistent (f entry))
    → IsConsistent (entry_verdict o f)
entry_verdict-IsConsistent none f c = reject-IsConsistent unknown_schema
entry_verdict-IsConsistent (some entry) f c = c entry

pub validate_reveal-code :
    (digest : List ℕ → String) (round_id schema_id : String) (version : ℕ)
    (bundle_json nonce_hex : String) (committed : Option String) (hotkey : String)
    (now opens closes : ℕ) (universe : List String) (registry : SchemaRegistry)
    → IsConsistent (
        validate_reveal digest round_id schema_id version bundle_json nonce_hex committed hotkey now
          opens closes universe registry)
unfolding validate_reveal
validate_reveal-code digest r c version bundle_json nonce_hex committed hotkey now opens closes
      universe registry =
    guard-IsConsistent (not (is_canonical_round_id r)) malformed_bundle _ (
      guard-IsConsistent (version /= current_version_key) version_mismatch _ (
        entry_verdict-IsConsistent (lookup c registry) _ (λ entry.
          payload_verdict-IsConsistent (reveal_payload_rejection bundle_json nonce_hex) _ (
            guard-IsConsistent (not (within opens now closes)) late_reveal _ (
              committed_verdict-IsConsistent entry r c bundle_json universe digest hotkey nonce_hex
                committed)))))
