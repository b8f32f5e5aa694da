-- ===== src/Scoring/Examples.antt =====
-- The theorems on endure/scoring at small inputs.
use endure_subnet.Prelude.{
  ℕ, any, length, ◌≤◌, ◌+◌, String, true, ◌≡◌, ◌↔◌, ◌⊎◌, refl, Option, none, some, List, [], ◌∷◌,
  ok, if◌then◌else◌, ◌++◌, arith,
}
use endure_subnet.Prelude.Eq.{string_eq}
use endure_subnet.Prelude.Dict.{Dict, lookup, insert}
use endure_subnet.Prelude.Sets.{mem}
use endure_subnet.Scoring.Eligibility.{DeregistrationTracker, advance, missed, confirmed}
use endure_subnet.Scoring.Eligibility.Generations.{
  lookup-advance, is_tracked, advance_all, confirmed_after,
}
use endure_subnet.Scoring.Network.{testnet, is_mainnet, normalize_genesis_hash}
use endure_subnet.Scoring.OwnerVote.{
  has, OwnerVoteRecipient, quotient, matches_from, resolve_owner_vote_uid, recheck_owner_burn_share,
  prepared_check, recheck_owner_vote,
}
use endure_subnet.Scoring.OwnerVote.Recheck.{
  Agrees, IsOnlyAt, IsFullBurn, IsPartBurn, recheck_owner_vote-ok,
}
use endure_subnet.Scoring.OwnerVote.State.{
  OwnerState, IsKept, recheck_owner_state, check_uids, check_uid, recheck_owner_state-ok,
}
use endure_subnet.Scoring.Duplicates.{IdenticalGroups, Place, duplicate_pools}
use endure_subnet.Scoring.Duplicates.Forecasts.{same_items, identical_forecast_groups}
use endure_subnet.Scoring.Duplicates.Forecasts.Grouped.{
  is_forecast, identical_forecast_groups-share,
}
use endure_subnet.Scoring.Duplicates.Assigned.{oldest_in}
use endure_subnet.Scoring.Duplicates.Pools.{has_both, duplicate_pools-share}
use endure_subnet.Scoring.Duplicates.Overlap.{pools_with, duplicate_pools-disjoint}
use endure_subnet.Protocol.Canonical.{code_points}
use endure_subnet.Scoring.Burn.{
  burn_commitment_prefix, decimal, burn_commitment_text, parse_burn_rate,
}
use endure_subnet.Scoring.Burn.RoundTrip.{
  parse_burn_rate-burn_commitment_text, burn_commitment_text-parse_burn_rate,
}

abbrev tracker : DeregistrationTracker
tracker = record { missing_counts = ("gone", 1) ∷ []; last_registered = "left" ∷ "stays" ∷ [] }

lookup-advance_example : lookup "left" (advance tracker ("stays" ∷ [])).missing_counts ≡ (
    if mem "left" ("stays" ∷ [])
    then none
    else if is_tracked tracker "left"
    then some (missed tracker "left" + 1)
    else none)
lookup-advance_example = lookup-advance tracker ("stays" ∷ []) "left"

confirmed_after_example :
    mem "left" (confirmed (advance_all (advance tracker ("left" ∷ [])) (("stays" ∷ []) ∷ [] ∷ [])))
    ≡ true
confirmed_after_example =
    confirmed_after tracker "left" ("left" ∷ []) (("stays" ∷ []) ∷ [] ∷ []) refl (refl, (refl, tt))

abbrev recipient : OwnerVoteRecipient
recipient = record {
  network = testnet;
  hotkey = "owner";
  uid = 1;
  burn_bps = 5000;
  owner_coldkey = some "cold";
  withheld = 1 ∷ 2 ∷ [];
}

abbrev hotkeys : List String
hotkeys = "miner" ∷ "owner" ∷ "second" ∷ []

recheck_owner_vote-ok_example :
    Agrees testnet "0xabc" 7 "owner"
    × IsOnlyAt "owner" hotkeys 1
    × ◌≡◌ {A = Option ℕ} (some 1) (some 1)
    × (IsFullBurn recipient (0 ∷ 1 ∷ []) (65535 ∷ 65535 ∷ [])
        ⊎ IsPartBurn recipient hotkeys (0 ∷ 1 ∷ []) (65535 ∷ 65535 ∷ []))
unfolding recheck_owner_vote prepared_check recheck_owner_burn_share resolve_owner_vote_uid
    matches_from is_mainnet normalize_genesis_hash
recheck_owner_vote-ok_example =
    recheck_owner_vote-ok recipient "0xabc" 7 hotkeys (0 ∷ 1 ∷ []) (65535 ∷ 65535 ∷ []) (some 1)
      (some (quotient 1 1)) refl

abbrev owner_state : OwnerState
owner_state = record {
  block = 500;
  owner_hotkey = some "owner";
  owner_coldkey = some "cold";
  hotkeys = some hotkeys;
  coldkeys = some ("warm" ∷ "cold" ∷ "cold" ∷ []);
}

recheck_owner_state-ok_example :
    ◌≡◌ {A = ℕ} 500 500
    × ◌≡◌ {A = Option String} (some "owner") (some "owner")
    × ◌≡◌ {A = Option String} (some "cold") (some "cold")
    × (held coldkeys : List String) × (owner_state.hotkeys ≡ some held)
    × (owner_state.coldkeys ≡ some coldkeys)
    × (length coldkeys ≡ length held)
    × ((uid : ℕ)
        → has uid (1 ∷ 0 ∷ 1 ∷ []) ≡ true
        → IsKept recipient owner_state held coldkeys hotkeys uid)
unfolding recheck_owner_state check_uids check_uid
recheck_owner_state-ok_example =
    recheck_owner_state-ok recipient owner_state 500 hotkeys (0 ∷ 1 ∷ []) refl

parse_burn_rate-burn_commitment_text_example :
    (burn_commitment_text 2500 ≡ ok (burn_commitment_prefix ++ decimal 2500))
    × (parse_burn_rate (some (burn_commitment_prefix ++ decimal 2500)) ≡ 2500)
parse_burn_rate-burn_commitment_text_example =
    parse_burn_rate-burn_commitment_text 2500 (omega arith)

burn_commitment_text-parse_burn_rate_example :
    burn_commitment_text (parse_burn_rate (some (code_points "endure.burn_bps=307")))
    ≡ ok (code_points "endure.burn_bps=307")
unfolding parse_burn_rate
burn_commitment_text-parse_burn_rate_example =
    burn_commitment_text-parse_burn_rate (code_points "endure.burn_bps=307") (omega arith)

-- The newest round first; b leaves its group with a for one with c.
abbrev forecast_rounds : List IdenticalGroups
forecast_rounds = (("b" ∷ "c" ∷ []) ∷ []) ∷ (("d" ∷ "e" ∷ []) ∷ ("a" ∷ "b" ∷ "x" ∷ []) ∷ []) ∷ []

pools_run :
    duplicate_pools forecast_rounds (some ("e" ∷ "c" ∷ "b" ∷ "a" ∷ [])) ≡ ("a" ∷ "b" ∷ []) ∷ []
unfolding duplicate_pools lookup insert
pools_run = refl

duplicate_pools-share_example :
    any (has_both "a" "b") (duplicate_pools forecast_rounds none) ≡ true
    ↔ (place : Place) × (oldest_in none 0 forecast_rounds "a" ≡ some place)
      × (oldest_in none 0 forecast_rounds "b" ≡ some place)
duplicate_pools-share_example = duplicate_pools-share forecast_rounds none "a" "b" refl

duplicate_pools-disjoint_example : pools_with "b" (duplicate_pools forecast_rounds none) ≤ 1
duplicate_pools-disjoint_example = duplicate_pools-disjoint forecast_rounds none "b"

-- Forecasts in basis points by a coordinate; c gives the items of a in another order.
abbrev forecasts : List (String × Dict String ℕ)
forecasts =
    ("a", ("usd", 10) ∷ ("eur", 20) ∷ [])
    ∷ ("b", ("usd", 10) ∷ [])
    ∷ ("c", ("eur", 20) ∷ ("usd", 10) ∷ [])
    ∷ ("d", [])
    ∷ ("e", [])
    ∷ []

groups_run : identical_forecast_groups forecasts ≡ ("a" ∷ "c" ∷ []) ∷ []
unfolding identical_forecast_groups same_items
groups_run = refl

identical_forecast_groups-share_example :
    any (has_both "a" "c") (identical_forecast_groups forecasts) ≡ true
    ↔ (u v : Dict String ℕ) × (lookup "a" forecasts ≡ some u)
      × (lookup "c" forecasts ≡ some v)
      × (is_forecast u ≡ true)
      × (same_items u v ≡ true)
identical_forecast_groups-share_example =
    identical_forecast_groups-share forecasts "a" "c" (refl, (refl, (refl, (refl, (refl, tt)))))
      refl
