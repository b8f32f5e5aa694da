-- ===== src/Protocol/Validation.antt =====
-- endure/protocol/validation.py: the verdicts on a commit and on a reveal. The hash, the JSON
-- reader and the schema models (hashlib, json, pydantic) are arguments. Times are ticks of the
-- clock; a `spec_version` below 0, which the wire could carry, is left out.
pub mod Verdicts
pub mod Binding
pub mod Codes
use Prim.Native.String.{count}
use endure_subnet.Prelude.{
  ℕ, ◌*◌, String, Bool, true, false, ◌&&◌, ◌||◌, not, Option, none, some, List, [], ◌∷◌, ltb, leb,
  if◌then◌else◌, is_some, any, length,
}
use endure_subnet.Prelude.Eq.{Eq, ◌==◌, ◌/=◌, nat_eq, string_eq, list_eq}
use endure_subnet.Prelude.Dict.{Dict, lookup}
use endure_subnet.Protocol.Synapses.{
  RejectionCode, version_mismatch, unknown_schema, late_commit, no_commit, late_reveal,
  hash_mismatch, invalid_ticker, out_of_bounds, malformed_bundle, payload_too_large,
}
use endure_subnet.Protocol.Canonical.{
  code_points, utf8, encode, fromhex, commit_hash, Date, fromisoformat, isoformat,
}

-- A parsed bundle: its fields, and the bytes of `canonical_bundle_bytes` on its payload.
pub record CanonicalBundle : Type 0 where
  pub round_id : String
  pub schema_id : String
  pub canonical_bytes : List ℕ

-- What `json.loads` and then `model_validate` do with a text: the exception of the reader, the
-- types of the `ValidationError`, a model that is no `CanonicalBundle`, or a bundle.
pub data Parsed : Type 0 where
  unreadable : Parsed
  validation_error : List String → Parsed
  other_model : Parsed
  bundle_model : CanonicalBundle → Parsed

pub record SchemaRegistryEntry : Type 0 where
  pub model_validate : String → Parsed
  pub bundle_membership_valid : Option (CanonicalBundle → List String → Bool)

abbrev pub SchemaRegistry : Type 0
SchemaRegistry = Dict String SchemaRegistryEntry

pub record Verdict : Type 0 where
  pub accepted : Bool
  pub rejection_code : Option RejectionCode
  pub bundle : Option CanonicalBundle

abbrev pub reject : RejectionCode → Verdict
reject c = record { accepted = false; rejection_code = some c; bundle = none }

abbrev pub current_version_key : ℕ
current_version_key = 2044

abbrev pub max_reveal_bundle_bytes : ℕ
max_reveal_bundle_bytes = 262144

abbrev pub max_nonce_bytes : ℕ
max_nonce_bytes = 32

abbrev pub max_round_id_length : ℕ
max_round_id_length = 64

abbrev pub commit_hash_digest_size : ℕ
commit_hash_digest_size = 32

abbrev pub commit_nonce_bytes : ℕ
commit_nonce_bytes = 16

abbrev size_rejection : String → Option (List ℕ) → Option RejectionCode
size_rejection nonce_hex none = some malformed_bundle
size_rejection nonce_hex (some bundle_bytes) =
    if ltb max_reveal_bundle_bytes (length bundle_bytes)
      || ltb (max_nonce_bytes * 2) (count nonce_hex)
    then some payload_too_large
    else none

unfoldable pub reveal_payload_rejection : String → String → Option RejectionCode
reveal_payload_rejection bundle_json nonce_hex =
    size_rejection nonce_hex (encode (code_points bundle_json))

-- ASCII capitals are what `lower()` changes in a text that `fromhex` reads.
abbrev is_upper : ℕ → Bool
is_upper c = leb b'A' c && leb c b'Z'

unfoldable pub is_hex_digest : String → Bool
is_hex_digest value =
    count value == commit_hash_digest_size * 2
    && (not (any is_upper (code_points value)) && is_some (fromhex (code_points value)))

abbrev pub prints_as : Option Date → List ℕ → Bool
prints_as none value = false
prints_as (some parsed) value = isoformat parsed == value

unfoldable pub is_canonical_round_id : String → Bool
is_canonical_round_id value =
    leb (count value) max_round_id_length
    && prints_as (fromisoformat (code_points value)) (code_points value)

abbrev pub within : ℕ → ℕ → ℕ → Bool
within opens now closes = leb opens now && leb now closes

unfoldable pub validate_commit : String → String → ℕ → String → ℕ → ℕ → ℕ → SchemaRegistry → Verdict
validate_commit round_id schema_id spec_version bundle_hash now commit_open commit_close registry =
    if not (is_canonical_round_id round_id)
    then reject malformed_bundle
    else if spec_version /= current_version_key
    then reject version_mismatch
    else if not (is_some (lookup schema_id registry))
    then reject unknown_schema
    else if not (within commit_open now commit_close)
    then reject late_commit
    else if not (is_hex_digest bundle_hash)
    then reject malformed_bundle
    else record { accepted = true; rejection_code = none; bundle = none }

abbrev pub out_of_bounds_error : String
out_of_bounds_error = "endure_out_of_bounds"

unfoldable pub classify_validation_error : List String → RejectionCode
classify_validation_error error =
    if any (λ item. item == out_of_bounds_error) error then out_of_bounds else malformed_bundle

abbrev pub is_member :
    Option (CanonicalBundle → List String → Bool) → CanonicalBundle → List String → Bool
is_member none bundle universe = true
is_member (some membership_valid) bundle universe = membership_valid bundle universe

unfoldable pub bundle_verdict :
    SchemaRegistryEntry → String → String → String → List String → Parsed → Verdict
unfolding classify_validation_error
bundle_verdict entry round_id schema_id bundle_json universe unreadable = reject malformed_bundle
bundle_verdict entry round_id schema_id bundle_json universe (validation_error error) =
    reject (classify_validation_error error)
bundle_verdict entry round_id schema_id bundle_json universe other_model = reject malformed_bundle
bundle_verdict entry round_id schema_id bundle_json universe (bundle_model bundle) =
    if bundle.round_id /= round_id || bundle.schema_id /= schema_id
    then reject malformed_bundle
    else if bundle.canonical_bytes /= utf8 (code_points bundle_json)
    then reject malformed_bundle
    else if not (is_member entry.bundle_membership_valid bundle universe)
    then reject invalid_ticker
    else record { accepted = true; rejection_code = none; bundle = some bundle }

unfoldable pub validate_reveal_bundle :
    SchemaRegistryEntry → String → String → String → List String → Verdict
unfolding bundle_verdict
validate_reveal_bundle entry round_id schema_id bundle_json universe =
    bundle_verdict entry round_id schema_id bundle_json universe (entry.model_validate bundle_json)

-- The steps of `validate_reveal` from the commitment on: the nonce, the hash and the bundle.
unfoldable pub nonce_verdict :
    (List ℕ → String)
    → SchemaRegistryEntry
    → String
    → String
    → String
    → String
    → String
    → List String
    → Option (List ℕ)
    → Verdict
unfolding validate_reveal_bundle commit_hash
nonce_verdict digest entry round_id schema_id bundle_json committed_hash miner_hotkey universe
      none =
    reject malformed_bundle
nonce_verdict digest entry round_id schema_id bundle_json committed_hash miner_hotkey universe
      (some nonce) =
    if ltb (length nonce) commit_nonce_bytes
    then reject malformed_bundle
    else if commit_hash digest (utf8 (code_points bundle_json)) nonce miner_hotkey /= committed_hash
    then reject hash_mismatch
    else validate_reveal_bundle entry round_id schema_id bundle_json universe

abbrev pub committed_verdict :
    (List ℕ → String)
    → SchemaRegistryEntry
    → String
    → String
    → String
    → String
    → Option String
    → String
    → List String
    → Verdict
committed_verdict digest entry round_id schema_id bundle_json nonce_hex none miner_hotkey universe =
    reject no_commit
committed_verdict digest entry round_id schema_id bundle_json nonce_hex (some committed_hash)
      miner_hotkey universe =
    nonce_verdict digest entry round_id schema_id bundle_json committed_hash miner_hotkey universe
      (fromhex (code_points nonce_hex))

abbrev pub payload_verdict : Option RejectionCode → Verdict → Verdict
payload_verdict (some code) verdict = reject code
payload_verdict none verdict = verdict

abbrev pub entry_verdict : Option SchemaRegistryEntry → (SchemaRegistryEntry → Verdict) → Verdict
entry_verdict none verdict = reject unknown_schema
entry_verdict (some entry) verdict = verdict entry

unfoldable pub validate_reveal :
    (List ℕ → String)
    → String
    → String
    → ℕ
    → String
    → String
    → Option String
    → String
    → ℕ
    → ℕ
    → ℕ
    → List String
    → SchemaRegistry
    → Verdict
unfolding nonce_verdict
validate_reveal digest round_id schema_id spec_version bundle_json nonce_hex committed_hash
      miner_hotkey now reveal_open reveal_close universe registry =
    if not (is_canonical_round_id round_id)
    then reject malformed_bundle
    else if spec_version /= current_version_key
    then reject version_mismatch
    else entry_verdict (lookup schema_id registry) (λ entry.
      payload_verdict (reveal_payload_rejection bundle_json nonce_hex) (
        if not (within reveal_open now reveal_close)
        then reject late_reveal
        else committed_verdict digest entry round_id schema_id bundle_json nonce_hex committed_hash
            miner_hotkey universe))
