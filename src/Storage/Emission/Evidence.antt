-- ===== src/Storage/Emission/Evidence.antt =====
-- What the resolution of weight emissions in repository.py needs before it confirms a vote, and
-- when it gives one up.
use endure_subnet.Prelude.{
  ℕ, ◌≤◌, ◌<◌, String, Bool, true, false, ◌≡◌, refl, ◌&&◌, Option, some, ltb, max, any,
  if◌then◌else◌, arith,
}
use endure_subnet.Prelude.Eq.{◌==◌, string_eq}
use endure_subnet.Storage.Emission.{
  is_open_confirmation, SubmissionMode, direct, cr4, WeightEmissionChainSnapshot, Batch,
  WeightResolutionDecision, observe, confirm, unconfirm, wait, direct_weight_resolution, is_reveal,
  by_expiry,
}
use endure_subnet.Storage.Emission.Resolve.{
  vector_matches, IntentHash, same_identity, evidence_matches, decision, apply_weight_resolution,
  resolve_batch,
}

true_ne_false : false ≡ true → ⊥
true_ne_false e = cc

abbrev pub is_confirm : WeightResolutionDecision → Bool
is_confirm confirm = true
is_confirm _ = false

abbrev decides : WeightResolutionDecision → Bool
decides confirm = true
decides unconfirm = true
decides _ = false

-- A batch to which such a decision is applied is open no more.
closed_by :
    (same is_open : Bool) (d : WeightResolutionDecision) (now : ℕ) (batch : Batch)
    → same ≡ true
    → is_open_confirmation batch.confirmation_state ≡ is_open
    → decides d ≡ true
    → is_open_confirmation
        (if same && is_open then apply_weight_resolution d now batch else batch).confirmation_state
      ≡ false
unfolding apply_weight_resolution
closed_by same false d now batch e f g = rw e f
closed_by same true confirm now batch e f g = rw e refl
closed_by same true unconfirm now batch e f g = rw e refl
closed_by same true (observe o) now batch e f g = absurd (true_ne_false g)
closed_by same true wait now batch e f g = absurd (true_ne_false g)

direct_decides :
    (snapshot : WeightEmissionChainSnapshot) (sub base deadline margin : ℕ) (matches : Bool)
    → deadline < snapshot.block
    → decides (direct_weight_resolution snapshot sub base (some deadline) margin matches) ≡ true
unfolding direct_weight_resolution
direct_decides snapshot sub base deadline margin matches h = ground arith

not_ltb : (n m : ℕ) → m ≤ n → ltb n m ≡ false
not_ltb n m h = ground arith

module _ (intent_hash_of : IntentHash) (snapshot : WeightEmissionChainSnapshot) (margin : ℕ) where
  -- What a direct vote and a committed vote show on the chain
  abbrev pub Shows : SubmissionMode → Batch → ℕ → ℕ → Type 0
  Shows direct batch submission_block baseline_block =
      (submission_block < snapshot.last_update_block)
      × (baseline_block < snapshot.last_update_block)
      × (by_expiry batch.confirmation_deadline_block margin snapshot.last_update_block ≡ true)
  Shows cr4 batch submission_block baseline_block =
      any (is_reveal snapshot batch submission_block) snapshot.reveals ≡ true

  abbrev pub SentEvidence : Batch → Option ℕ → Option ℕ → Type 0
  SentEvidence batch o p =
      (sub : ℕ) × (base : ℕ) × (o ≡ some sub)
      × (p ≡ some base)
      × (sub ≤ snapshot.block)
      × (base ≤ snapshot.block)
      × (evidence_matches intent_hash_of snapshot margin batch ≡ true)
      × Shows batch.submission_mode batch sub base

  -- A direct vote that is open, and was sent by the validator of the snapshot, is decided as soon as
  -- the finalized block is past its deadline: it no longer waits.
  pub resolve_batch-direct_decided :
      (schema_id : String) (now : ℕ) (batch : Batch) (sub base deadline : ℕ)
      → batch.schema_id ≡ schema_id
      → same_identity snapshot batch ≡ true
      → batch.submission_mode ≡ direct
      → batch.submission_block ≡ some sub
      → batch.baseline_last_update_block ≡ some base
      → batch.confirmation_deadline_block ≡ some deadline
      → max sub base ≤ snapshot.block
      → deadline < snapshot.block
      → is_open_confirmation
          (resolve_batch intent_hash_of snapshot margin schema_id now batch).confirmation_state
        ≡ false
  unfolding resolve_batch decision vector_matches
  resolve_batch-direct_decided schema_id now batch sub base deadline e same mode s b d late past =
      closed_by (batch.schema_id == schema_id) (is_open_confirmation batch.confirmation_state)
        (decision intent_hash_of snapshot margin batch) now batch
        ((string_eq.eqb_iff batch.schema_id schema_id).1 e) refl
        (rw same (
          rw s (
            rw b (
              rw (not_ltb snapshot.block (max sub base) late) (
                rw mode (
                  rw d (
                    direct_decides snapshot sub base deadline margin
                      (evidence_matches intent_hash_of snapshot margin batch) past)))))))
