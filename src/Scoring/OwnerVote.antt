-- ===== src/Scoring/OwnerVote.antt =====
-- endure/scoring/emission_policy.py: who the subnet owner is, when a validator may send its vote, and
-- the checks of a vote that names the owner. UIDs, u16 weights and basis points are naturals, as the
-- chain and the encoder give them; `submission_due` reads signed integers.
pub mod Recheck
pub mod Due
pub mod State
use endure_subnet.Prelude.{
  ℕ, ◌+◌, ◌-◌, ◌*◌, zero, suc, String, Bool, true, false, ◌&&◌, ◌||◌, not, Option, none, some, List,
  [], ◌∷◌, ltb, leb, if◌then◌else◌, is_some, is_none, Result, ok, err, ◌>>=◌, ◌>>◌, raise_if,
  length, get_elem?, any, max,
}
use endure_subnet.Prelude.Eq.{Eq, ◌==◌, ◌/=◌, nat_eq, string_eq, option_eq, list_eq}
use endure_subnet.Scoring.Network.{
  OwnerVoteNetwork, mainnet, testnet, sn30_netuid, sn30_owner_hotkey, is_mainnet,
}
use endure_subnet.Prelude.Int.{ℤ, pos, negsuc, pos_part, ◌-ℤ◌, ltb_ℤ, leb_ℤ}

pub data EmissionBlockReason : Type 0 where
  owner_vote_chain_mismatch owner_hotkey_mismatch owner_unregistered : EmissionBlockReason
  owner_snapshot_inconsistent chain_snapshot_inconsistent validator_identity_invalid :
      EmissionBlockReason
  owner_vote_vector_invalid score_state_unavailable owner_commitment_unavailable :
      EmissionBlockReason

abbrev pub full_burn_bps : ℕ
full_burn_bps = 10000

abbrev pub u16_max : ℕ
u16_max = 65535

pub record OwnerVoteRecipient : Type 0 where
  pub network : OwnerVoteNetwork
  pub hotkey : String
  pub uid : ℕ
  pub burn_bps : ℕ
  pub owner_coldkey : Option String
  pub withheld : List ℕ

-- `[uid for uid, hotkey in enumerate(hotkeys) if hotkey == owner_hotkey]`, from a first UID
unfoldable pub matches_from : ℕ → String → List String → List ℕ
matches_from uid owner_hotkey [] = []
matches_from uid owner_hotkey (hotkey ∷ hotkeys) =
    let rest = matches_from (suc uid) owner_hotkey hotkeys in
    if hotkey == owner_hotkey then uid ∷ rest else rest

abbrev pub one_match : List ℕ → Result EmissionBlockReason ℕ
one_match [] = err owner_unregistered
one_match (uid ∷ []) = ok uid
one_match (uid ∷ _ ∷ _) = err owner_snapshot_inconsistent

-- No hotkey, or the empty one
abbrev pub is_missing : Option String → Bool
is_missing none = true
is_missing (some text) = text == ""

abbrev pub text_of : Option String → String
text_of none = ""
text_of (some text) = text

abbrev pub network_check :
    OwnerVoteNetwork → String → ℕ → Option String → Result EmissionBlockReason Unit
network_check mainnet chain_identity netuid owner_hotkey = do
  raise_if (not (is_mainnet chain_identity) || netuid /= sn30_netuid) owner_vote_chain_mismatch
  raise_if (not (owner_hotkey == some sn30_owner_hotkey)) owner_hotkey_mismatch
network_check testnet chain_identity netuid owner_hotkey =
    raise_if (is_mainnet chain_identity) owner_vote_chain_mismatch

unfoldable pub resolve_owner_vote_uid :
    OwnerVoteNetwork → String → ℕ → List String → Option String → Result EmissionBlockReason ℕ
unfolding matches_from
resolve_owner_vote_uid network chain_identity netuid hotkeys owner_hotkey = do
  network_check network chain_identity netuid owner_hotkey
  raise_if (is_missing owner_hotkey) owner_snapshot_inconsistent
  one_match (matches_from 0 (text_of owner_hotkey) hotkeys)

abbrev pub out_of_range : ℤ → ℕ → Bool
out_of_range i n = ltb_ℤ i (pos 0) || leb_ℤ (pos n) i

-- The last step of `submission_due`, on the validator's own entries
unfoldable pub due_by : Option Bool → Option ℤ → ℤ → ℤ → Result EmissionBlockReason Bool
due_by (some permit) (some last_update) block weights_rate_limit = do
  raise_if
      (ltb_ℤ block (pos 0)
        || (ltb_ℤ weights_rate_limit (pos 0)
            || (ltb_ℤ last_update (pos 0) || ltb_ℤ block last_update)))
      chain_snapshot_inconsistent
  ok (permit && ltb_ℤ weights_rate_limit (block -ℤ last_update))
due_by _ _ block weights_rate_limit = err chain_snapshot_inconsistent

unfoldable pub submission_due :
    ℤ → String → List String → List Bool → List ℤ → ℤ → ℤ → Result EmissionBlockReason Bool
unfolding due_by
submission_due validator_uid validator_hotkey hotkeys validator_permits last_updates block
      weights_rate_limit =
    do
      raise_if (out_of_range validator_uid (length hotkeys)) validator_identity_invalid
      raise_if
          (validator_hotkey == ""
            || not (get_elem? hotkeys (pos_part validator_uid) == some validator_hotkey))
          validator_identity_invalid
      due_by (get_elem? validator_permits (pos_part validator_uid))
          (get_elem? last_updates (pos_part validator_uid)) block weights_rate_limit

abbrev pub has : ℕ → List ℕ → Bool
has uid uids = any (λ other. other == uid) uids

-- `len(set(uids)) == len(uids)`
abbrev pub all_different : List ℕ → Bool
all_different [] = true
all_different (uid ∷ uids) = not (has uid uids) && all_different uids

abbrev pub sum : List ℕ → ℕ
sum [] = 0
sum (w ∷ ws) = w + sum ws

abbrev pub maximum : List ℕ → ℕ
maximum [] = 0
maximum (w ∷ ws) = max w (maximum ws)

-- `uint_weights[uint_uids.index(uid)]`
abbrev pub weight_of : ℕ → List ℕ → List ℕ → ℕ
weight_of uid (other ∷ uids) (weight ∷ weights) =
    let rest = weight_of uid uids weights in if other == uid then weight else rest
weight_of uid _ _ = 0

abbrev pub deviation : ℕ → ℕ → ℕ
deviation a b = a - b + (b - a)

unfoldable pub recheck_owner_burn_share :
    OwnerVoteRecipient → List String → List ℕ → List ℕ → Result EmissionBlockReason Unit
recheck_owner_burn_share recipient hotkeys uint_uids uint_weights = do
  raise_if
      (length uint_weights == 0
        || (length uint_uids /= length uint_weights
            || (not (all_different uint_uids)
                || (ltb 0 recipient.burn_bps && not (has recipient.uid uint_uids)
                    || (any (λ uid. leb (length hotkeys) uid) uint_uids
                        || (any (λ weight. weight == 0 || ltb u16_max weight) uint_weights
                            || maximum uint_weights /= u16_max))))))
      owner_vote_vector_invalid
  if recipient.burn_bps == 0
      then ok tt
      else raise_if
          (ltb (full_burn_bps * (length hotkeys + 1)) (
            2
            * deviation (full_burn_bps * weight_of recipient.uid uint_uids uint_weights)
                (recipient.burn_bps * sum uint_weights)))
          owner_vote_vector_invalid

-- A chain limit as a `Decimal`: not finite, or the quotient of two naturals
pub data Limit : Type 0 where
  not_finite : Limit
  quotient : ℕ → ℕ → Limit

abbrev pub is_one : Option Limit → Bool
is_one none = false
is_one (some not_finite) = false
is_one (some (quotient a b)) = a == b && ltb 0 b

-- The last step of `recheck_owner_vote`: the owner's share and the withheld UIDs, or the one entry
-- of a full burn.
unfoldable pub prepared_check :
    OwnerVoteRecipient → List String → List ℕ → List ℕ → Result EmissionBlockReason Unit
unfolding recheck_owner_burn_share
prepared_check recipient hotkeys uint_uids uint_weights =
    if recipient.burn_bps == full_burn_bps
    then raise_if (not (uint_uids == recipient.uid ∷ [] && uint_weights == u16_max ∷ []))
        owner_vote_vector_invalid
    else (recheck_owner_burn_share recipient hotkeys uint_uids uint_weights
        >> raise_if
            (any
              (λ uid.
                has uid recipient.withheld
                && not (ltb 0 recipient.burn_bps && uid == recipient.uid))
              uint_uids)
            owner_vote_vector_invalid)

unfoldable pub recheck_owner_vote :
    OwnerVoteRecipient
    → String
    → ℕ
    → List String
    → List ℕ
    → List ℕ
    → Option ℕ
    → Option Limit
    → Result EmissionBlockReason Unit
unfolding prepared_check resolve_owner_vote_uid
recheck_owner_vote recipient chain_identity netuid hotkeys uint_uids uint_weights
      min_allowed_weights max_weight_limit =
    do
      owner_uid ←
          resolve_owner_vote_uid recipient.network chain_identity netuid hotkeys
            (some recipient.hotkey)
      raise_if (owner_uid /= recipient.uid) owner_snapshot_inconsistent
      raise_if (not (min_allowed_weights == some 1) || not (is_one max_weight_limit))
          owner_vote_vector_invalid
      prepared_check recipient hotkeys uint_uids uint_weights
