-- ===== src/Storage/Emission/Resolve.antt =====
-- repository.py, `resolve_weight_emission_confirmations` on one batch, and the transition of a batch
-- after its call of the chain. `intent_hash_of` is the hash of a vote's intent: blake2b over JSON.
use endure_subnet.Prelude.{
  ℕ, ◌+◌, ◌-◌, ◌*◌, String, Bool, true, false, ◌&&◌, ◌||◌, Option, none, some, List, [], ◌∷◌, map,
  ltb, leb, max, if◌then◌else◌, all, length,
}
use endure_subnet.Prelude.Eq.{◌==◌, ◌/=◌, nat_eq, string_eq, option_eq, pair_eq, list_eq}
use endure_subnet.Prelude.Dict.{lookup}
use endure_subnet.Protocol.Canonical.{code_points}
use endure_subnet.Protocol.Validation.{current_version_key}
use endure_subnet.Storage.Emission.{
  confirmed, unconfirmed, is_open_confirmation, SubmissionMode, direct, cr4,
  WeightEmissionChainSnapshot, Batch, WeightResolutionDecision, observe, confirm, unconfirm, wait,
  direct_weight_resolution, cr4_weight_resolution,
}

abbrev pub IntentHash : Type 0
IntentHash = Option ℕ → String → ℕ → ℕ → String → List (ℕ × String × ℕ) → String

abbrev is_hex_character : ℕ → Bool
is_hex_character c = leb b'0' c && leb c b'9' || leb b'a' c && leb c b'f'

abbrev is_hex_hash : List ℕ → Bool
is_hex_hash cs = length cs == 64 && all is_hex_character cs

pub data RecordedVersion : Type 0 where
  unversioned : RecordedVersion
  versioned : ℕ → RecordedVersion
  invalid_format : RecordedVersion

-- The digits up to a colon, read after a first digit, and a hash after it
abbrev version_from : ℕ → List ℕ → RecordedVersion
version_from n [] = invalid_format
version_from n (c ∷ cs) =
    let rest = version_from (n * 10 + (c - b'0')) cs in
    if c == b':'
    then (if is_hex_hash cs then versioned n else invalid_format)
    else if leb b'0' c && leb c b'9'
    then rest
    else invalid_format

-- `(0|[1-9][0-9]*):[0-9a-f]{64}`
abbrev versioned_text : List ℕ → RecordedVersion
versioned_text [] = invalid_format
versioned_text (c ∷ []) = invalid_format
versioned_text (c ∷ d ∷ cs) =
    if c == b'0' && d /= b':'
    then invalid_format
    else if leb b'0' c && leb c b'9'
    then version_from (c - b'0') (d ∷ cs)
    else invalid_format

unfoldable pub recorded_protocol_version : List ℕ → RecordedVersion
recorded_protocol_version text = if is_hex_hash text then unversioned else versioned_text text

abbrev pub intent_matches_version :
    IntentHash → WeightEmissionChainSnapshot → Batch → RecordedVersion → Bool
intent_matches_version intent_hash_of snapshot batch invalid_format = false
intent_matches_version intent_hash_of snapshot batch unversioned =
    batch.intent_hash
    == intent_hash_of none snapshot.chain_identity snapshot.netuid snapshot.validator_uid
        snapshot.validator_hotkey batch.targets
intent_matches_version intent_hash_of snapshot batch (versioned version) =
    version == current_version_key
    && batch.intent_hash
      == intent_hash_of (some version) snapshot.chain_identity snapshot.netuid
          snapshot.validator_uid snapshot.validator_hotkey batch.targets

-- `sorted` on pairs of a UID and a weight
abbrev insert_pair : ℕ × ℕ → List (ℕ × ℕ) → List (ℕ × ℕ)
insert_pair p [] = p ∷ []
insert_pair p (q ∷ qs) =
    let rest = insert_pair p qs in
    if ltb p.0 q.0 || p.0 == q.0 && leb p.1 q.1 then p ∷ q ∷ qs else q ∷ rest

abbrev sort_pairs : List (ℕ × ℕ) → List (ℕ × ℕ)
sort_pairs [] = []
sort_pairs (p ∷ ps) = insert_pair p (sort_pairs ps)

unfoldable pub vector_matches : WeightEmissionChainSnapshot → Batch → Bool
vector_matches snapshot batch =
    map (λ (t : ℕ × String × ℕ). (t.0, t.2)) batch.targets == sort_pairs snapshot.weights
    && all (λ (t : ℕ × String × ℕ). lookup t.0 snapshot.hotkeys == some t.1) batch.targets

unfoldable pub same_identity : WeightEmissionChainSnapshot → Batch → Bool
same_identity snapshot batch =
    batch.chain_identity == snapshot.chain_identity
    && (batch.netuid == snapshot.netuid
        && (batch.validator_uid == snapshot.validator_uid
            && batch.validator_hotkey == snapshot.validator_hotkey))

abbrev pub keep_set {ℓ} : {A : Type ℓ} → Option A → Option A → Option A
keep_set (some a) other = some a
keep_set none other = other

-- `_apply_weight_resolution`
unfoldable pub apply_weight_resolution : WeightResolutionDecision → ℕ → Batch → Batch
apply_weight_resolution (observe o) confirmed_at batch = record batch {
  commitment_observed_block = some o.commit_block;
  commitment_observed_last_update_block = some o.last_update_block;
  commitment_hash = keep_set o.commitment_hash batch.commitment_hash;
  reveal_round = keep_set o.reveal_round batch.reveal_round;
}
apply_weight_resolution confirm confirmed_at batch = record batch {
  confirmation_state = confirmed;
  confirmed_at = some confirmed_at;
  emitted = true;
}
apply_weight_resolution unconfirm confirmed_at batch = record batch {
  confirmation_state = unconfirmed;
}
apply_weight_resolution wait confirmed_at batch = batch

-- The deadlines that are set have all passed, and one is set.
abbrev pub all_past : Option ℕ → Option ℕ → ℕ → Bool
all_past none none block = false
all_past (some deadline) none block = ltb deadline block
all_past none (some deadline) block = ltb deadline block
all_past (some deadline) (some other) block = ltb (max deadline other) block

module _ (intent_hash_of : IntentHash) (snapshot : WeightEmissionChainSnapshot) (margin : ℕ) where
  abbrev pub evidence_matches : Batch → Bool
  evidence_matches batch =
      vector_matches snapshot batch
      && intent_matches_version intent_hash_of snapshot batch
          (recorded_protocol_version (code_points batch.intent_hash))

  abbrev pub decide : SubmissionMode → Batch → ℕ → ℕ → WeightResolutionDecision
  decide direct batch submission_block baseline_block =
      direct_weight_resolution snapshot submission_block baseline_block
        batch.confirmation_deadline_block margin (evidence_matches batch)
  decide cr4 batch submission_block baseline_block =
      cr4_weight_resolution snapshot batch submission_block margin (evidence_matches batch)

  abbrev pub decide_sent : Batch → Option ℕ → Option ℕ → WeightResolutionDecision
  decide_sent batch (some submission_block) (some baseline_block) =
      if ltb snapshot.block (max submission_block baseline_block)
      then wait
      else decide batch.submission_mode batch submission_block baseline_block
  decide_sent batch _ _ = wait

  -- One pass of the loop, up to the decision that it applies
  unfoldable pub decision : Batch → WeightResolutionDecision
  decision batch =
      if same_identity snapshot batch
      then decide_sent batch batch.submission_block batch.baseline_last_update_block
      else if all_past batch.confirmation_deadline_block batch.cr4_reveal_deadline_block
          snapshot.block
      then unconfirm
      else wait

  unfoldable pub resolve_batch : String → ℕ → Batch → Batch
  unfolding decision apply_weight_resolution
  resolve_batch schema_id confirmed_at batch =
      if batch.schema_id == schema_id && is_open_confirmation batch.confirmation_state
      then apply_weight_resolution (decision batch) confirmed_at batch
      else batch

-- `resolve_weight_emission_confirmations`, after the checks of its arguments, on the table
unfoldable pub resolve_weight_emission_confirmations :
    IntentHash → WeightEmissionChainSnapshot → ℕ → String → ℕ → List Batch → List Batch
unfolding resolve_batch
resolve_weight_emission_confirmations intent_hash_of snapshot margin schema_id confirmed_at
      batches =
    map (resolve_batch intent_hash_of snapshot margin schema_id confirmed_at) batches
