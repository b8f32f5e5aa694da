-- ===== src/Storage/Emission.antt =====
-- repository.py, weight emissions: whether a vote that was sent is confirmed by what the finalized
-- chain shows. Block numbers are naturals; the source's `deadline - margin`, which may be negative,
-- is a sum on the other side. The intent hash (sha256 over JSON) is an argument.
pub mod Resolve
pub mod Evidence
pub mod Blocks
pub mod Scan
pub mod Transitions
pub mod Lifecycle
mod Examples
use endure_subnet.Prelude.{
  ℕ, ◌+◌, String, Bool, true, false, ◌&&◌, ◌||◌, not, Option, none, some, List, [], ◌∷◌, map, ltb,
  leb, max, if◌then◌else◌, is_some, is_none, any, all, or_else, length,
}
use endure_subnet.Prelude.Eq.{Eq, ◌==◌, ◌/=◌, nat_eq, string_eq, option_eq, pair_eq, list_eq}
use endure_subnet.Prelude.Dict.{Dict, lookup}

pub data ConfirmationState : Type 0 where
  prepared submitted ambiguous failed confirmed unconfirmed : ConfirmationState

-- OPEN_WEIGHT_EMISSION_CONFIRMATION_STATES
abbrev pub is_open_confirmation : ConfirmationState → Bool
is_open_confirmation prepared = true
is_open_confirmation submitted = true
is_open_confirmation ambiguous = true
is_open_confirmation _ = false

pub data SubmissionMode : Type 0 where
  direct cr4 : SubmissionMode

pub record WeightCommitEvidence : Type 0 where
  pub validator_hotkey : String
  pub commit_block : ℕ
  pub commitment_hash : String
  pub reveal_round : ℕ

pub record WeightRevealEvidence : Type 0 where
  pub validator_hotkey : String
  pub netuid : ℕ
  pub reveal_block : ℕ

pub record WeightEmissionChainSnapshot : Type 0 where
  pub chain_identity : String
  pub netuid : ℕ
  pub validator_uid : ℕ
  pub validator_hotkey : String
  pub block : ℕ
  pub last_update_block : ℕ
  pub weights : List (ℕ × ℕ)
  pub commitments : List WeightCommitEvidence
  pub reveals : List WeightRevealEvidence
  pub hotkeys : Dict ℕ String
  pub reveal_scan_complete : Bool

-- A row of `weight_emission_batches`, as far as its confirmation reads it, with the rows of
-- `weight_emission_rows` that have a u16 weight, by UID
-- WEIGHT_EMISSION_STATUSES
pub data Status : Type 0 where
  submitted_status failed_status error_status : Status

pub record Batch : Type 0 where
  pub schema_id : String
  pub status : Status
  pub confirmation_state : ConfirmationState
  pub submission_block : Option ℕ
  pub baseline_last_update_block : Option ℕ
  pub period_blocks : ℕ
  pub confirmation_deadline_block : Option ℕ
  pub cr4_reveal_deadline_block : Option ℕ
  pub chain_identity : String
  pub netuid : ℕ
  pub validator_uid : ℕ
  pub validator_hotkey : String
  pub submission_mode : SubmissionMode
  pub intent_hash : String
  pub commitment_hash : Option String
  pub reveal_round : Option ℕ
  pub commitment_observed_block : Option ℕ
  pub commitment_observed_last_update_block : Option ℕ
  pub targets : List (ℕ × String × ℕ)
  pub confirmed_at : Option ℕ
  pub emitted : Bool

pub record Observation : Type 0 where
  pub commit_block : ℕ
  pub last_update_block : ℕ
  pub commitment_hash : Option String
  pub reveal_round : Option ℕ

-- `WeightResolutionDecision`, in the order in which `_apply_weight_resolution` reads its fields
pub data WeightResolutionDecision : Type 0 where
  observe : Observation → WeightResolutionDecision
  confirm unconfirm wait : WeightResolutionDecision

abbrev pub is_past : Option ℕ → ℕ → Bool
is_past none block = false
is_past (some deadline) block = ltb deadline block

-- A decision that only unconfirms, or waits
abbrev pub unconfirm_if : Bool → WeightResolutionDecision
unconfirm_if b = if b then unconfirm else wait

abbrev pub by_expiry : Option ℕ → ℕ → ℕ → Bool
by_expiry none margin block = false
by_expiry (some deadline) margin block = leb (block + margin) deadline

unfoldable pub direct_weight_resolution :
    WeightEmissionChainSnapshot → ℕ → ℕ → Option ℕ → ℕ → Bool → WeightResolutionDecision
direct_weight_resolution snapshot submission_block baseline_block deadline margin vector_matches =
    if by_expiry deadline margin snapshot.last_update_block
      && (ltb (max submission_block baseline_block) snapshot.last_update_block && vector_matches)
    then confirm
    else unconfirm_if (is_past deadline snapshot.block)

abbrev pub by_inclusion_deadline : Option ℕ → ℕ → ℕ → ℕ → Bool
by_inclusion_deadline (some deadline) margin end block = leb (block + margin) deadline
by_inclusion_deadline none margin end block = leb block end

abbrev pub is_candidate : WeightEmissionChainSnapshot → Batch → ℕ → ℕ → WeightCommitEvidence → Bool
is_candidate snapshot batch submission_block margin commit =
    commit.validator_hotkey == snapshot.validator_hotkey
    && (leb submission_block commit.commit_block
        && (by_inclusion_deadline batch.confirmation_deadline_block margin
              (submission_block + batch.period_blocks) commit.commit_block
            && (is_none batch.commitment_hash && is_none batch.reveal_round
                || batch.commitment_hash == some commit.commitment_hash
                  && batch.reveal_round == some commit.reveal_round)))

unfoldable pub candidates_in :
    (WeightCommitEvidence → Bool) → List WeightCommitEvidence → List WeightCommitEvidence
candidates_in p [] = []
candidates_in p (c ∷ cs) = let rest = candidates_in p cs in if p c then c ∷ rest else rest

abbrev pub by_reveal_deadline : Option ℕ → ℕ → Bool
by_reveal_deadline none block = true
by_reveal_deadline (some deadline) block = leb block deadline

abbrev pub is_reveal : WeightEmissionChainSnapshot → Batch → ℕ → WeightRevealEvidence → Bool
is_reveal snapshot batch submission_block reveal =
    reveal.validator_hotkey == snapshot.validator_hotkey
    && (reveal.netuid == snapshot.netuid
        && (leb (or_else batch.commitment_observed_block submission_block) reveal.reveal_block
            && by_reveal_deadline batch.cr4_reveal_deadline_block reveal.reveal_block))

abbrev pub unless_set {ℓ} : {A : Type ℓ} → Option A → A → Option A
unless_set none a = some a
unless_set (some _) a = none

abbrev pub first_deadline : Option ℕ → Option ℕ → Option ℕ
first_deadline (some deadline) other = some deadline
first_deadline none other = other

abbrev pub observation :
    WeightEmissionChainSnapshot → Batch → WeightCommitEvidence → WeightResolutionDecision
observation snapshot batch commit = observe (record {
  commit_block = commit.commit_block;
  last_update_block = snapshot.last_update_block;
  commitment_hash = unless_set batch.commitment_hash commit.commitment_hash;
  reveal_round = unless_set batch.reveal_round commit.reveal_round;
})

-- The last tests of `_cr4_weight_resolution`, once the reveal is not found
abbrev pub unrevealed :
    WeightEmissionChainSnapshot → Batch → List WeightCommitEvidence → WeightResolutionDecision
unrevealed snapshot batch (commit ∷ _) =
    if is_none batch.commitment_observed_block
    then observation snapshot batch commit
    else unconfirm_if (
        is_none batch.commitment_observed_last_update_block
        && (snapshot.reveal_scan_complete
            && is_past
                (first_deadline batch.cr4_reveal_deadline_block batch.confirmation_deadline_block)
                snapshot.block))
unrevealed snapshot batch [] = unconfirm_if (
    snapshot.reveal_scan_complete
    && is_past (first_deadline batch.cr4_reveal_deadline_block batch.confirmation_deadline_block)
        snapshot.block)

unfoldable pub cr4_by_candidates :
    WeightEmissionChainSnapshot
    → Batch
    → ℕ
    → Bool
    → List WeightCommitEvidence
    → WeightResolutionDecision
cr4_by_candidates snapshot batch submission_block vector_matches candidates =
    if ltb 1 (length candidates)
    then unconfirm_if (is_past batch.confirmation_deadline_block snapshot.block)
    else if any (is_reveal snapshot batch submission_block) snapshot.reveals && vector_matches
    then confirm
    else unrevealed snapshot batch candidates

unfoldable pub cr4_weight_resolution :
    WeightEmissionChainSnapshot → Batch → ℕ → ℕ → Bool → WeightResolutionDecision
unfolding candidates_in cr4_by_candidates
cr4_weight_resolution snapshot batch submission_block margin vector_matches =
    cr4_by_candidates snapshot batch submission_block vector_matches
      (candidates_in (is_candidate snapshot batch submission_block margin) snapshot.commitments)
