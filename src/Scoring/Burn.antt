-- ===== src/Scoring/Burn.antt =====
-- endure/scoring/emission_policy.py, `burn_commitment_text` and `parse_burn_rate`: the text with which
-- the owner publishes its burn rate. A text is the list of its code points.
pub mod RoundTrip
use endure_subnet.Prelude.{
  ℕ, zero, suc, ◌+◌, ◌-◌, ◌*◌, ◌/◌, ◌%◌, ◌^◌, Bool, true, false, ◌&&◌, ◌||◌, not, Option, none,
  some, List, [], ◌∷◌, ◌++◌, ltb, leb, if◌then◌else◌, Result, ok, err, length,
}
use endure_subnet.Prelude.Eq.{◌==◌, nat_eq}
use endure_subnet.Protocol.Canonical.{code_points}
use endure_subnet.Scoring.OwnerVote.{full_burn_bps}

abbrev pub burn_commitment_prefix : List ℕ
burn_commitment_prefix = code_points "endure.burn_bps="

-- The digits of a number in front of a text, on fuel
abbrev pub digits : ℕ → ℕ → List ℕ → List ℕ
digits zero n text = text
digits (suc fuel) n text =
    let rest = digits fuel (n / 10) ((b'0' + n % 10) ∷ text) in
    if ltb n 10 then (b'0' + n) ∷ text else rest

-- `str(n)`: n + 1 digits are enough
abbrev pub decimal : ℕ → List ℕ
decimal n = digits (suc n) n []

pub data BurnRateError : Type 0 where
  burn_rate_out_of_range : BurnRateError

unfoldable pub burn_commitment_text : ℕ → Result BurnRateError (List ℕ)
burn_commitment_text burn_bps =
    if leb burn_bps full_burn_bps
    then ok (burn_commitment_prefix ++ decimal burn_bps)
    else err burn_rate_out_of_range

abbrev pub is_digit : ℕ → Bool
is_digit c = leb b'0' c && leb c b'9'

-- The value of digits alone
abbrev pub value_of : ℕ → List ℕ → Option ℕ
value_of n [] = some n
value_of n (c ∷ cs) =
    let rest = value_of (n * 10 + (c - b'0')) cs in if is_digit c then rest else none

-- `(0|[1-9][0-9]{0,4})`
abbrev pub rate_text : List ℕ → Option ℕ
rate_text [] = none
rate_text (c ∷ cs) =
    let value = value_of (c - b'0') cs in
    if c == b'0'
    then (if length cs == 0 then some 0 else none)
    else if is_digit c && leb (length cs) 4
    then value
    else none

abbrev pub after_prefix : List ℕ → List ℕ → Option (List ℕ)
after_prefix [] text = some text
after_prefix (p ∷ ps) [] = none
after_prefix (p ∷ ps) (c ∷ cs) = let rest = after_prefix ps cs in if p == c then rest else none

abbrev pub matched : Option (List ℕ) → Option ℕ
matched none = none
matched (some text) = rate_text text

abbrev pub rate_or_full : Option ℕ → ℕ
rate_or_full none = full_burn_bps
rate_or_full (some burn_bps) = if leb burn_bps full_burn_bps then burn_bps else full_burn_bps

unfoldable pub parse_burn_rate : Option (List ℕ) → ℕ
parse_burn_rate none = full_burn_bps
parse_burn_rate (some text) = rate_or_full (matched (after_prefix burn_commitment_prefix text))
