-- ===== src/Scoring/OwnerVote/Recheck.antt =====
-- What the checks of endure/scoring/emission_policy.py guarantee of a vote that they let pass.
use endure_subnet.Prelude.{
  ℕ, zero, suc, ◌+◌, ◌*◌, ◌≤◌, ◌<◌, String, Bool, true, false, ◌&&◌, ◌||◌, not, ◌≡◌, ◌≢◌, ◌⊎◌, inl,
  inr, refl, Option, some, List, [], ◌∷◌, ltb, if◌then◌else◌, ok, length, get_elem?, any, arith,
  Bool-cases, raise_if, then_ok, bind_ok, raise_if_ok, ap, subst,
}
use endure_subnet.Prelude.Eq.{
  ◌==◌, nat_eq, string_eq, option_eq, list_eq, list_beq_iff, option_beq_iff, ◌/=◌,
}
use endure_subnet.Scoring.Network.{
  OwnerVoteNetwork, mainnet, testnet, is_mainnet, sn30_netuid, sn30_owner_hotkey,
}
use endure_subnet.Scoring.OwnerVote.{
  OwnerVoteRecipient, Limit, matches_from, one_match, is_one, owner_vote_vector_invalid,
  owner_snapshot_inconsistent, resolve_owner_vote_uid, has, sum, maximum, weight_of, deviation,
  full_burn_bps, u16_max, recheck_owner_burn_share, prepared_check, recheck_owner_vote,
}

else_of :
    {A : Type 0} (b : Bool) (x : A) {y z : A} → (b ≡ true → ⊥) → (if b then x else y) ≡ z → y ≡ z
else_of true x n e = absurd (n refl)
else_of false x n e = e

matches_none :
    (n : ℕ) (owner : String) (hotkeys : List String) (j : ℕ)
    → matches_from n owner hotkeys ≡ []
    → get_elem? hotkeys j ≢ some owner
unfolding matches_from
matches_none n owner [] j e = λ f. cc
matches_none n owner (h ∷ hs) zero e = ground (arith, string_eq.eqb_iff h owner)
matches_none n owner (h ∷ hs) (suc j) e =
    ground (arith, matches_none (suc n) owner hs j, string_eq.eqb_iff h owner)

-- Every place of the owner is the one match, counted from `n`.
matches_at :
    (n : ℕ) (owner : String) (hotkeys : List String) (uid j : ℕ)
    → matches_from n owner hotkeys ≡ uid ∷ []
    → get_elem? hotkeys j ≡ some owner
    → uid ≡ n + j
unfolding matches_from
matches_at n owner [] uid j e f = absurd cc
matches_at n owner (h ∷ hs) uid zero e f = ground (arith, string_eq.eqb_iff h owner)
matches_at n owner (h ∷ hs) uid (suc j) e f =
    ground (arith, matches_none (suc n) owner hs j, matches_at (suc n) owner hs uid j)

matches_found :
    (n : ℕ) (owner : String) (hotkeys : List String) (uid : ℕ)
    → matches_from n owner hotkeys ≡ uid ∷ []
    → (i : ℕ) × (uid ≡ n + i) × (get_elem? hotkeys i ≡ some owner)
unfolding matches_from
matches_found n owner [] uid e = absurd cc
matches_found n owner (h ∷ hs) uid e = elim (Bool-cases (h == owner)) [
  | inl t ↦ (0, ground arith, ap some ((string_eq.eqb_iff h owner).0 t))
  | inr f ↦
      let r = matches_found (suc n) owner hs uid (ground arith) in
      (suc r.0, omega (arith, r.1), r.2)
]

one_match_inv : (us : List ℕ) (uid : ℕ) → one_match us ≡ ok uid → us ≡ uid ∷ []
one_match_inv [] uid e = absurd cc
one_match_inv (u ∷ []) uid e = cc
one_match_inv (u ∷ v ∷ us) uid e = absurd cc

-- The owner's one place
abbrev pub IsOnlyAt : String → List String → ℕ → Type 0
IsOnlyAt owner hotkeys uid =
    (get_elem? hotkeys uid ≡ some owner) × ((j : ℕ) → get_elem? hotkeys j ≡ some owner → uid ≡ j)

one_match-IsOnlyAt :
    (owner : String) (hotkeys : List String) (uid : ℕ)
    → one_match (matches_from 0 owner hotkeys) ≡ ok uid
    → IsOnlyAt owner hotkeys uid
one_match-IsOnlyAt owner hotkeys uid e =
    let one = one_match_inv (matches_from 0 owner hotkeys) uid e in
    let found = matches_found 0 owner hotkeys uid one in
    (
      subst (λ i. get_elem? hotkeys i ≡ some owner) (omega (arith, found.1)) found.2,
      λ j f. omega (arith, matches_at 0 owner hotkeys uid j one f),
    )

-- What the network asks of the chain, the subnet and the owner
abbrev pub Agrees : OwnerVoteNetwork → String → ℕ → String → Type 0
Agrees mainnet chain_identity netuid owner =
    (is_mainnet chain_identity ≡ true) × (netuid ≡ sn30_netuid) × (owner ≡ sn30_owner_hotkey)
Agrees testnet chain_identity netuid owner = is_mainnet chain_identity ≡ false

-- Where the owner is found, it has that UID and no other, and the vote is on its network: on the
-- mainnet it is the pinned subnet with its pinned owner, on the testnet the chain is not the mainnet.
pub resolve_owner_vote_uid-ok :
    (network : OwnerVoteNetwork) (chain_identity : String) (netuid : ℕ) (hotkeys : List String)
    (owner : String) (uid : ℕ)
    → resolve_owner_vote_uid network chain_identity netuid hotkeys (some owner) ≡ ok uid
    → Agrees network chain_identity netuid owner × IsOnlyAt owner hotkeys uid
unfolding resolve_owner_vote_uid
resolve_owner_vote_uid-ok mainnet chain_identity netuid hotkeys owner uid e = (
  ground (arith, string_eq.eqb_iff owner sn30_owner_hotkey),
  one_match-IsOnlyAt owner hotkeys uid (ground arith),
)
resolve_owner_vote_uid-ok testnet chain_identity netuid hotkeys owner uid e =
    (ground arith, one_match-IsOnlyAt owner hotkeys uid (ground arith))

maximum-le-sum : (ws : List ℕ) → maximum ws ≤ sum ws
maximum-le-sum [] = omega arith
maximum-le-sum (w ∷ ws) = ground (arith, maximum-le-sum ws)

-- The share that `recheck_owner_burn_share` accepts
pub recheck_owner_burn_share-ok :
    (r : OwnerVoteRecipient) (hotkeys : List String) (uids weights : List ℕ)
    → recheck_owner_burn_share r hotkeys uids weights ≡ ok tt
    → 0 < r.burn_bps
    → (has r.uid uids ≡ true)
      × (u16_max ≤ sum weights)
      × (2 * deviation (full_burn_bps * weight_of r.uid uids weights) (r.burn_bps * sum weights)
          ≤ full_burn_bps * (length hotkeys + 1))
unfolding recheck_owner_burn_share
recheck_owner_burn_share-ok r hotkeys uids weights e p = ground (arith, maximum-le-sum weights)

abbrev pub Withholds : OwnerVoteRecipient → List ℕ → Type 0
Withholds r uids =
    (uid : ℕ) → has uid uids ≡ true → has uid r.withheld ≡ true → (uid ≡ r.uid) × (0 < r.burn_bps)

none_any :
    (p : ℕ → Bool) (uid : ℕ) (uids : List ℕ)
    → any p uids ≡ false
    → has uid uids ≡ true
    → p uid ≡ false
none_any p uid [] e h = absurd cc
none_any p uid (x ∷ xs) e h = ground (arith, none_any p uid xs)

prepared_check-full :
    (r : OwnerVoteRecipient) (hotkeys : List String) (uids weights : List ℕ)
    → prepared_check r hotkeys uids weights ≡ ok tt
    → r.burn_bps ≡ full_burn_bps
    → (uids ≡ r.uid ∷ []) × (weights ≡ u16_max ∷ [])
unfolding prepared_check
prepared_check-full r hotkeys uids weights e p =
    ground
      (arith, list_beq_iff nat_eq uids (r.uid ∷ []), list_beq_iff nat_eq weights (u16_max ∷ []))

abbrev earns : OwnerVoteRecipient → ℕ → Bool
earns r uid = has uid r.withheld && not (ltb 0 r.burn_bps && uid == r.uid)

prepared_check-part :
    (r : OwnerVoteRecipient) (hotkeys : List String) (uids weights : List ℕ)
    → prepared_check r hotkeys uids weights ≡ ok tt
    → r.burn_bps ≢ full_burn_bps
    → (recheck_owner_burn_share r hotkeys uids weights ≡ ok tt) × (any (earns r) uids ≡ false)
unfolding prepared_check
prepared_check-part r hotkeys uids weights e p =
    let both = then_ok (recheck_owner_burn_share r hotkeys uids weights) _ (
      else_of (nat_eq.eqb r.burn_bps full_burn_bps) _
        (λ t. p ((nat_eq.eqb_iff r.burn_bps full_burn_bps).0 t)) e) in
    (both.0, raise_if_ok (any (earns r) uids) owner_vote_vector_invalid both.1)

abbrev pub IsFullBurn : OwnerVoteRecipient → List ℕ → List ℕ → Type 0
IsFullBurn r uids weights =
    (r.burn_bps ≡ full_burn_bps) × (uids ≡ r.uid ∷ []) × (weights ≡ u16_max ∷ [])

abbrev pub HasShare : OwnerVoteRecipient → List String → List ℕ → List ℕ → Type 0
HasShare r hotkeys uids weights =
    (has r.uid uids ≡ true)
    × (u16_max ≤ sum weights)
    × (2 * deviation (full_burn_bps * weight_of r.uid uids weights) (r.burn_bps * sum weights)
        ≤ full_burn_bps * (length hotkeys + 1))

abbrev pub IsPartBurn : OwnerVoteRecipient → List String → List ℕ → List ℕ → Type 0
IsPartBurn r hotkeys uids weights =
    (r.burn_bps ≢ full_burn_bps)
    × Withholds r uids
    × ((r.burn_bps ≡ 0) ⊎ HasShare r hotkeys uids weights)

part_share :
    (r : OwnerVoteRecipient) (hotkeys : List String) (uids weights : List ℕ)
    → recheck_owner_burn_share r hotkeys uids weights ≡ ok tt
    → (r.burn_bps ≡ 0) ⊎ HasShare r hotkeys uids weights
part_share r hotkeys uids weights e = elim (Bool-cases (r.burn_bps == 0)) [
  | inl t ↦ inl ((nat_eq.eqb_iff r.burn_bps 0).0 t)
  | inr f ↦ inr (recheck_owner_burn_share-ok r hotkeys uids weights e (ground arith))
]

prepared_check-burns :
    (r : OwnerVoteRecipient) (hotkeys : List String) (uids weights : List ℕ)
    → prepared_check r hotkeys uids weights ≡ ok tt
    → IsFullBurn r uids weights ⊎ IsPartBurn r hotkeys uids weights
prepared_check-burns r hotkeys uids weights e = elim (Bool-cases (r.burn_bps == full_burn_bps)) [
  | inl t ↦
      let full = (nat_eq.eqb_iff r.burn_bps full_burn_bps).0 t in
      let one = prepared_check-full r hotkeys uids weights e full in inl (full, one.0, one.1)
  | inr f ↦
      let p : r.burn_bps ≢ full_burn_bps = λ t. ground arith in
      let part = prepared_check-part r hotkeys uids weights e p in
      inr (
        p,
        λ uid named withheld.
            ground (arith, named, withheld, none_any (earns r) uid uids part.1 named),
        part_share r hotkeys uids weights part.0,
      )
]

-- A vote that `recheck_owner_vote` lets pass has the owner at its one UID on its network, and a chain
-- whose minimum count of weights is 1. A full burn is the owner's one entry at the u16 maximum. Any
-- other vector names no withheld UID but that of an owner who burns, and it burns nothing or names
-- the owner, has a total of at least that maximum, and gives the owner its rate of the total, up to
-- the rounding of half a unit for each hotkey and one more.
pub recheck_owner_vote-ok :
    (r : OwnerVoteRecipient) (chain_identity : String) (netuid : ℕ) (hotkeys : List String)
    (uids weights : List ℕ) (minimum : Option ℕ) (limit : Option Limit)
    → recheck_owner_vote r chain_identity netuid hotkeys uids weights minimum limit ≡ ok tt
    → Agrees r.network chain_identity netuid r.hotkey
      × IsOnlyAt r.hotkey hotkeys r.uid
      × (minimum ≡ some 1)
      × (IsFullBurn r uids weights ⊎ IsPartBurn r hotkeys uids weights)
unfolding recheck_owner_vote
recheck_owner_vote-ok r chain_identity netuid hotkeys uids weights minimum limit e =
    let found =
      bind_ok (resolve_owner_vote_uid r.network chain_identity netuid hotkeys (some r.hotkey)) _
        e in
    let owner =
      resolve_owner_vote_uid-ok r.network chain_identity netuid hotkeys r.hotkey found.0 found.1 in
    let same = then_ok (raise_if (found.0 /= r.uid) owner_snapshot_inconsistent) _ found.2 in
    let limits =
      then_ok (raise_if (not (minimum == some 1) || not (is_one limit)) owner_vote_vector_invalid) _
        same.1 in
    (
      owner.0,
      subst (IsOnlyAt r.hotkey hotkeys) (ground (arith, same.0)) owner.1,
      ground (arith, limits.0, option_beq_iff nat_eq minimum (some 1)),
      prepared_check-burns r hotkeys uids weights limits.1,
    )
