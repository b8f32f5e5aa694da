-- ===== src/Protocol/Canonical.antt =====
-- endure/protocol/canonical.py, `commit_hash`, and the texts and dates of Python that the verdicts
-- read: UTF-8, `bytes.fromhex`, and the ISO form of a date. A bundle may hold a lone surrogate, which
-- `encode` refuses; a hotkey and a bundle that was encoded before hold none, and their bytes are
-- `utf8`.
use Prim.Native.Char.{code}
use Prim.Native.String.{String}
use endure_subnet.Prelude.{
  ℕ, ◌+◌, ◌-◌, ◌*◌, ◌/◌, ◌%◌, Bool, true, false, ◌&&◌, ◌||◌, not, Option, none, some, List, [], ◌∷◌,
  ◌++◌, ltb, leb, any, if◌then◌else◌,
}
use endure_subnet.Prelude.Eq.{◌==◌, nat_eq}

abbrev pub code_points : String → List ℕ
code_points String.[] = []
code_points (String.◌∷◌ c s) = code c ∷ code_points s

-- The UTF-8 bytes of a code point.
unfoldable pub utf8_of : ℕ → List ℕ
utf8_of c =
    if ltb c 0x80
    then c ∷ []
    else if ltb c 0x800
    then (0xc0 + c / 64) ∷ (0x80 + c % 64) ∷ []
    else if ltb c 0x10000
    then (0xe0 + c / 4096) ∷ (0x80 + c / 64 % 64) ∷ (0x80 + c % 64) ∷ []
    else (0xf0 + c / 262144) ∷ (0x80 + c / 4096 % 64) ∷ (0x80 + c / 64 % 64) ∷ (0x80 + c % 64) ∷ []

unfoldable pub utf8 : List ℕ → List ℕ
unfolding utf8_of
utf8 [] = []
utf8 (c ∷ cs) = utf8_of c ++ utf8 cs

-- The code points that `str.encode` refuses
abbrev is_surrogate : ℕ → Bool
is_surrogate c = leb 0xd800 c && leb c 0xdfff

-- `encode("utf-8")`; none is its `UnicodeEncodeError`.
abbrev pub encode : List ℕ → Option (List ℕ)
encode cs = if any is_surrogate cs then none else some (utf8 cs)

unfoldable pub hex_digit : ℕ → Option ℕ
hex_digit c =
    if leb b'0' c && leb c b'9'
    then some (c - b'0')
    else if leb b'a' c && leb c b'f'
    then some (c - b'a' + 10)
    else if leb b'A' c && leb c b'F'
    then some (c - b'A' + 10)
    else none

-- ASCII white space, which `bytes.fromhex` skips between bytes
unfoldable pub is_space : ℕ → Bool
is_space c = c == 32 || leb 9 c && leb c 13

abbrev push_byte : Option ℕ → Option ℕ → Option (List ℕ) → Option (List ℕ)
push_byte (some high) (some low) (some bytes) = some ((high * 16 + low) ∷ bytes)
push_byte _ _ _ = none

-- `bytes.fromhex`; `none` is its `ValueError`
unfoldable pub fromhex : List ℕ → Option (List ℕ)
unfolding hex_digit is_space
fromhex [] = some []
fromhex (c ∷ []) = if is_space c then some [] else none
fromhex (c ∷ d ∷ cs) = elim (is_space c) [
  | true ↦ fromhex (d ∷ cs)
  | false ↦ push_byte (hex_digit c) (hex_digit d) (fromhex cs)
]

-- The bytes that `commit_hash` hashes: the bundle, the nonce and the miner's hotkey.
unfoldable pub commit_preimage : List ℕ → List ℕ → String → List ℕ
commit_preimage bundle_bytes nonce miner_hotkey =
    bundle_bytes ++ (nonce ++ utf8 (code_points miner_hotkey))

-- blake2b with a digest of 32 bytes, in hex, is the argument `digest`.
unfoldable pub commit_hash : (List ℕ → String) → List ℕ → List ℕ → String → String
unfolding commit_preimage
commit_hash digest bundle_bytes nonce miner_hotkey =
    digest (commit_preimage bundle_bytes nonce miner_hotkey)

pub record Date : Type 0 where
  pub day : ℕ
  pub month : ℕ
  pub year : ℕ

abbrev is_leap : ℕ → Bool
is_leap y = y % 4 == 0 && not (y % 100 == 0) || y % 400 == 0

abbrev month_length : ℕ → ℕ → ℕ
month_length year month =
    if month == 4 || (month == 6 || (month == 9 || month == 11))
    then 30
    else if month == 2
    then (if is_leap year then 29 else 28)
    else 31

unfoldable pub is_date : Date → Bool
is_date d =
    leb 1 d.year
    && leb d.year 9999
    && (leb 1 d.month && leb d.month 12 && (leb 1 d.day && leb d.day (month_length d.year d.month)))

unfoldable pub digit : ℕ → Option ℕ
digit c = if leb b'0' c && leb c b'9' then some (c - b'0') else none

abbrev date_of :
    Option ℕ
    → Option ℕ
    → Option ℕ
    → Option ℕ
    → Option ℕ
    → Option ℕ
    → Option ℕ
    → Option ℕ
    → Option Date
date_of (some a) (some b) (some c) (some d) (some e) (some f) (some g) (some h) =
    some (record { year = a * 1000 + b * 100 + c * 10 + d; month = e * 10 + f; day = g * 10 + h })
date_of _ _ _ _ _ _ _ _ = none

abbrev valid_date : Option Date → Option Date
valid_date none = none
valid_date (some d) = if is_date d then some d else none

-- `date.fromisoformat` on the form YYYY-MM-DD. The other forms that it takes (YYYYMMDD and those
-- by week) are never what `isoformat` prints, so a test for the canonical text refuses them too.
unfoldable pub fromisoformat : List ℕ → Option Date
unfolding digit is_date
fromisoformat (a ∷ b ∷ c ∷ d ∷ h1 ∷ e ∷ f ∷ h2 ∷ g ∷ h ∷ []) =
    if h1 == b'-' && h2 == b'-'
    then valid_date
        (date_of (digit a) (digit b) (digit c) (digit d) (digit e) (digit f) (digit g) (digit h))
    else none
fromisoformat _ = none

abbrev two_digits : ℕ → List ℕ
two_digits n = (b'0' + n / 10 % 10) ∷ (b'0' + n % 10) ∷ []

unfoldable pub isoformat : Date → List ℕ
isoformat d =
    two_digits (d.year / 100)
    ++ (two_digits (d.year % 100) ++ (b'-' ∷ two_digits d.month ++ (b'-' ∷ two_digits d.day)))
