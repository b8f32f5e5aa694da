-- ===== src/Scoring/Burn/RoundTrip.antt =====
-- endure/scoring/emission_policy.py: the text of `burn_commitment_text`, read by `parse_burn_rate`.
use endure_subnet.Prelude.{
  ℕ, zero, suc, ◌+◌, ◌*◌, ◌/◌, ◌%◌, ◌≤◌, ◌<◌, ◌≡◌, refl, Option, none, some, List, [], ◌∷◌, ◌++◌,
  ok, arith, ap, sym, ◌∙◌,
}
use endure_subnet.Prelude.Eq.{nat_eq}
use endure_subnet.Scoring.OwnerVote.{full_burn_bps}
use endure_subnet.Scoring.Burn.{
  burn_commitment_prefix, digits, decimal, burn_commitment_text, rate_text, after_prefix, matched,
  rate_or_full, parse_burn_rate,
}

after_prefix-append : (ps text : List ℕ) → after_prefix ps (ps ++ text) ≡ some text
after_prefix-append [] text = refl
after_prefix-append (p ∷ ps) text = ground (arith, after_prefix-append ps text)

small : (fuel n : ℕ) (text : List ℕ) → n < 10 → digits (suc fuel) n text ≡ (48 + n) ∷ text
small fuel n text h = ground arith

large :
    (fuel n : ℕ) (text : List ℕ)
    → 10 ≤ n
    → digits (suc fuel) n text ≡ digits fuel (n / 10) ((48 + n % 10) ∷ text)
large fuel n text h = ground arith

abbrev pow10 : ℕ → ℕ
pow10 zero = 1
pow10 (suc k) = 10 * pow10 k

-- As many digits as the number has are enough.
enough :
    (k n fuel : ℕ) (text : List ℕ)
    → n < pow10 (suc k)
    → n < fuel
    → digits fuel n text ≡ digits (suc k) n text
enough k n zero text h f = absurd (omega arith)
enough zero n (suc fuel) text h f = ground arith
enough (suc k) n (suc fuel) text h f = ground (arith, enough k (n / 10) fuel ((48 + n % 10) ∷ text))

rate_1 : (n : ℕ) → n < 10 → rate_text ((48 + n) ∷ []) ≡ some n
rate_1 n h = ground arith

rate_2 : (n : ℕ) → 10 ≤ n → n < 100 → rate_text ((48 + n / 10) ∷ (48 + n % 10) ∷ []) ≡ some n
rate_2 n h k = ground arith

rate_3 :
    (n : ℕ)
    → 100 ≤ n
    → n < 1000
    → rate_text ((48 + n / 10 / 10) ∷ (48 + n / 10 % 10) ∷ (48 + n % 10) ∷ []) ≡ some n
rate_3 n h k = ground arith

rate_4 :
    (n : ℕ)
    → 1000 ≤ n
    → n < 10000
    → rate_text (
        (48 + n / 10 / 10 / 10) ∷ (48 + n / 10 / 10 % 10) ∷ (48 + n / 10 % 10) ∷ (48 + n % 10) ∷ [])
      ≡ some n
rate_4 n h k = ground arith

rate_decimal : (n : ℕ) → n ≤ full_burn_bps → rate_text (digits 5 n []) ≡ some n
rate_decimal n h = ground (
  arith,
  rate_1 n,
  rate_2 n,
  rate_3 n,
  rate_4 n,
  small 4 n [],
  large 4 n [],
  small 3 (n / 10) ((48 + n % 10) ∷ []),
  large 3 (n / 10) ((48 + n % 10) ∷ []),
  small 2 (n / 10 / 10) ((48 + n / 10 % 10) ∷ (48 + n % 10) ∷ []),
  large 2 (n / 10 / 10) ((48 + n / 10 % 10) ∷ (48 + n % 10) ∷ []),
  small 1 (n / 10 / 10 / 10) ((48 + n / 10 / 10 % 10) ∷ (48 + n / 10 % 10) ∷ (48 + n % 10) ∷ []),
)

-- A text that reads as a rate below the full burn is its decimal form.
decimal_1 : (c n : ℕ) → rate_text (c ∷ []) ≡ some n → (n < 10) × (c ≡ 48 + n)
decimal_1 c n e = ground arith

decimal_2 :
    (c d n : ℕ)
    → rate_text (c ∷ d ∷ []) ≡ some n
    → (10 ≤ n) × (n < 100) × (c ≡ 48 + n / 10) × (d ≡ 48 + n % 10)
decimal_2 c d n e = ground arith

decimal_3 :
    (c d f n : ℕ)
    → rate_text (c ∷ d ∷ f ∷ []) ≡ some n
    → (100 ≤ n) × (n < 1000) × (c ≡ 48 + n / 10 / 10) × (d ≡ 48 + n / 10 % 10) × (f ≡ 48 + n % 10)
decimal_3 c d f n e = ground arith

decimal_4 :
    (c d f g n : ℕ)
    → rate_text (c ∷ d ∷ f ∷ g ∷ []) ≡ some n
    → (1000 ≤ n)
      × (n < 10000)
      × (c ≡ 48 + n / 10 / 10 / 10)
      × (d ≡ 48 + n / 10 / 10 % 10)
      × (f ≡ 48 + n / 10 % 10)
      × (g ≡ 48 + n % 10)
decimal_4 c d f g n e = ground arith

decimal_5 :
    (c d f g k n : ℕ) (cs : List ℕ)
    → rate_text (c ∷ d ∷ f ∷ g ∷ k ∷ cs) ≡ some n
    → full_burn_bps ≤ n
decimal_5 c d f g k n [] e = ground arith
decimal_5 c d f g k n (l ∷ cs) e = ground arith

after_prefix-some : (ps text rest : List ℕ) → after_prefix ps text ≡ some rest → text ≡ ps ++ rest
after_prefix-some [] text rest e = ground arith
after_prefix-some (p ∷ ps) [] rest e = ground arith
after_prefix-some (p ∷ ps) (c ∷ cs) rest e = ground (arith, after_prefix-some ps cs rest)

matched-decimal :
    (n : ℕ)
    → n ≤ full_burn_bps
    → matched (after_prefix burn_commitment_prefix (burn_commitment_prefix ++ decimal n)) ≡ some n
matched-decimal n h =
    ap matched (after_prefix-append burn_commitment_prefix (decimal n))
    ∙ (ap rate_text (enough 4 n (suc n) [] (omega arith) (omega arith)) ∙ rate_decimal n h)

-- Every burn rate up to the full burn has a commitment text, the prefix and the rate in decimal, and
-- the text reads as that rate again.
pub parse_burn_rate-burn_commitment_text :
    (n : ℕ)
    → n ≤ full_burn_bps
    → (burn_commitment_text n ≡ ok (burn_commitment_prefix ++ decimal n))
      × (parse_burn_rate (some (burn_commitment_prefix ++ decimal n)) ≡ n)
unfolding burn_commitment_text parse_burn_rate
parse_burn_rate-burn_commitment_text n h =
    (ground arith, ap rate_or_full (matched-decimal n h) ∙ ground arith)

rate_text-decimal :
    (text : List ℕ) (n : ℕ) → n < full_burn_bps → rate_text text ≡ some n → digits 4 n [] ≡ text
rate_text-decimal [] n h e = ground arith
rate_text-decimal (c ∷ []) n h e = ground (arith, decimal_1 c n e, small 3 n [])
rate_text-decimal (c ∷ d ∷ []) n h e =
    ground (arith, decimal_2 c d n e, large 3 n [], small 2 (n / 10) ((48 + n % 10) ∷ []))
rate_text-decimal (c ∷ d ∷ f ∷ []) n h e = ground (
  arith,
  decimal_3 c d f n e,
  large 3 n [],
  large 2 (n / 10) ((48 + n % 10) ∷ []),
  small 1 (n / 10 / 10) ((48 + n / 10 % 10) ∷ (48 + n % 10) ∷ []),
)
rate_text-decimal (c ∷ d ∷ f ∷ g ∷ []) n h e = ground (
  arith,
  decimal_4 c d f g n e,
  large 3 n [],
  large 2 (n / 10) ((48 + n % 10) ∷ []),
  large 1 (n / 10 / 10) ((48 + n / 10 % 10) ∷ (48 + n % 10) ∷ []),
  small 0 (n / 10 / 10 / 10) ((48 + n / 10 / 10 % 10) ∷ (48 + n / 10 % 10) ∷ (48 + n % 10) ∷ []),
)
rate_text-decimal (c ∷ d ∷ f ∷ g ∷ k ∷ cs) n h e = ground (arith, decimal_5 c d f g k n cs e)

-- A reading below the full burn comes from the digits after the prefix.
below_full :
    (value : Option ℕ) → rate_or_full value < full_burn_bps → value ≡ some (rate_or_full value)
below_full none h = absurd (omega arith)
below_full (some n) h = ground arith

decimal-rate_text :
    (rest : List ℕ) (n : ℕ) → n < full_burn_bps → rate_text rest ≡ some n → decimal n ≡ rest
decimal-rate_text rest n h e =
    enough 3 n (suc n) [] (omega arith) (omega arith) ∙ rate_text-decimal rest n h e

text-decimal :
    (text : List ℕ) (after : Option (List ℕ))
    → after_prefix burn_commitment_prefix text ≡ after
    → rate_or_full (matched after) < full_burn_bps
    → burn_commitment_prefix ++ decimal (rate_or_full (matched after)) ≡ text
text-decimal text none e h = absurd (omega arith)
text-decimal text (some rest) e h =
    ap (λ d. burn_commitment_prefix ++ d)
      (decimal-rate_text rest (rate_or_full (rate_text rest)) h (below_full (rate_text rest) h))
    ∙ sym (after_prefix-some burn_commitment_prefix text rest e)

-- A text that reads as a rate below the full burn is the commitment text of that rate, letter by
-- letter: every other text burns all.
pub burn_commitment_text-parse_burn_rate :
    (text : List ℕ)
    → parse_burn_rate (some text) < full_burn_bps
    → burn_commitment_text (parse_burn_rate (some text)) ≡ ok text
unfolding burn_commitment_text parse_burn_rate
burn_commitment_text-parse_burn_rate text h =
    ground (arith, text-decimal text (after_prefix burn_commitment_prefix text) refl h)
