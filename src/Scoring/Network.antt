-- ===== src/Scoring/Network.antt =====
-- endure/protocol/consensus_policy.py: the networks on which a validator votes for the owner, the
-- pins of the mainnet, and the one form of a genesis hash. `lower` is read on ASCII alone: no other
-- character lowers to one of a hash.
use endure_subnet.Prelude.{
  ℕ, ◌+◌, String, Bool, false, ◌&&◌, ◌||◌, List, [], ◌∷◌, leb, any, if◌then◌else◌,
}
use endure_subnet.Prelude.Eq.{◌==◌, nat_eq, string_eq, list_eq}
use endure_subnet.Protocol.Canonical.{code_points}

pub data OwnerVoteNetwork : Type 0 where
  mainnet testnet : OwnerVoteNetwork

abbrev pub mainnet_genesis_hash : String
mainnet_genesis_hash = "0x2f0555cc76fc2840a25a6ea3b9637146806f1f44b090c175ffde2a7e5ab36c03"

abbrev pub sn30_netuid : ℕ
sn30_netuid = 30

abbrev pub sn30_owner_hotkey : String
sn30_owner_hotkey = "5HW12NvEZoGz8ZzcWMh4xyDUy6H1Af85m5LB8V1L11erK1S1"

-- What `str.strip` takes for white space
abbrev is_strip_space : ℕ → Bool
is_strip_space c =
    leb 9 c && leb c 13
    || (leb 28 c && leb c 32
        || (leb 8192 c && leb c 8202
            || any (λ d. c == d) (133 ∷ 160 ∷ 5760 ∷ 8232 ∷ 8233 ∷ 8239 ∷ 8287 ∷ 12288 ∷ [])))

abbrev lstrip : List ℕ → List ℕ
lstrip [] = []
lstrip (c ∷ cs) = let rest = lstrip cs in if is_strip_space c then rest else c ∷ cs

abbrev cons_unless_space : ℕ → List ℕ → List ℕ
cons_unless_space c [] = if is_strip_space c then [] else c ∷ []
cons_unless_space c (d ∷ ds) = c ∷ d ∷ ds

abbrev rstrip : List ℕ → List ℕ
rstrip [] = []
rstrip (c ∷ cs) = cons_unless_space c (rstrip cs)

abbrev lower : List ℕ → List ℕ
lower [] = []
lower (c ∷ cs) = (if leb b'A' c && leb c b'Z' then c + 32 else c) ∷ lower cs

abbrev with_prefix : List ℕ → List ℕ
with_prefix [] = b'0' ∷ b'x' ∷ []
with_prefix (c ∷ []) = b'0' ∷ b'x' ∷ c ∷ []
with_prefix (c ∷ d ∷ cs) = if c == b'0' && d == b'x' then c ∷ d ∷ cs else b'0' ∷ b'x' ∷ c ∷ d ∷ cs

unfoldable pub normalize_genesis_hash : List ℕ → List ℕ
normalize_genesis_hash value = with_prefix (lower (rstrip (lstrip value)))

-- `normalize_genesis_hash(chain_identity) if chain_identity else ""`, against the mainnet's hash
unfoldable pub is_mainnet : String → Bool
unfolding normalize_genesis_hash
is_mainnet chain_identity =
    if chain_identity == ""
    then false
    else normalize_genesis_hash (code_points chain_identity) == code_points mainnet_genesis_hash
