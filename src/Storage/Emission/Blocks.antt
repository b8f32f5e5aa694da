-- ===== src/Storage/Emission/Blocks.antt =====
-- Blocks of the chain in a row, as a scan of repository.py reads them.
use endure_subnet.Prelude.{ℕ, zero, suc, ◌+◌, ◌-◌, ◌≡◌, refl, ap, List, [], ◌∷◌, ◌++◌, arith}

-- `count` blocks from `start_block` on
abbrev pub blocks_from : ℕ → ℕ → List ℕ
blocks_from start_block zero = []
blocks_from start_block (suc count) = start_block ∷ blocks_from (start_block + 1) count

zero_plus : (k n : ℕ) → k ≡ 0 + n → k ≡ n
zero_plus k n e = omega (arith, e)

plus_zero : (b a : ℕ) → b ≡ a + 0 → b ≡ a
plus_zero b a e = omega (arith, e)

split_suc : (k m n : ℕ) → k ≡ suc m + n → k ≡ suc (m + n)
split_suc k m n e = omega (arith, e)

pub blocks_from-++ :
    (a m n b k : ℕ) → b ≡ a + m → k ≡ m + n → blocks_from a m ++ blocks_from b n ≡ blocks_from a k
blocks_from-++ a zero n b k at sum = rw (zero_plus k n sum) (rw (plus_zero b a at) refl)
blocks_from-++ a (suc m) n b k at sum =
    let shorter = blocks_from-++ (a + 1) m n b (m + n) (omega (arith, at)) refl in
    rw (split_suc k m n sum) (ap (λ bs. a ∷ bs) shorter)

pub minus_self : (n : ℕ) → n - n ≡ 0
minus_self n = omega arith
