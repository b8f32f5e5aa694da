-- ===== src/Scoring/OwnerVote/State.antt =====
-- endure/scoring/emission_policy.py, `recheck_owner_state`: the facts on the owner that a prepared
-- vote relies on, read again at the block at which it is sent. The source goes over a set of UIDs; the
-- list here is in another order, which decides which of several failures is raised. UIDs are natural
-- numbers, so the test of a negative one has no case here.
use endure_subnet.Prelude.{
  ℕ, ◌<◌, String, Bool, true, false, ◌||◌, not, ◌≡◌, refl, Option, none, some, List, [], ◌∷◌, leb,
  Result, ok, err, ◌>>◌, ◌>>=◌, raise_if, then_ok, bind_ok, raise_if_ok, length, get_elem?, arith,
  if◌then◌else◌, Bool-cases, inl, inr, subst,
}
use endure_subnet.Prelude.Eq.{◌==◌, nat_eq, string_eq, option_eq, option_beq_iff}
use endure_subnet.Scoring.OwnerVote.{
  OwnerVoteRecipient, EmissionBlockReason, chain_snapshot_inconsistent, owner_snapshot_inconsistent,
  has,
}

pub record OwnerState : Type 0 where
  pub block : ℕ
  pub owner_hotkey : Option String
  pub owner_coldkey : Option String
  pub hotkeys : Option (List String)
  pub coldkeys : Option (List String)

-- `a != b` on Booleans
abbrev pub differ : Bool → Bool → Bool
differ true b = not b
differ false b = b

module _ (recipient : OwnerVoteRecipient) (state : OwnerState)
    (hotkeys coldkeys prepared_hotkeys : List String) where
  abbrev pub changed_hands : ℕ → Bool
  changed_hands uid =
      leb (length hotkeys) uid
      || (leb (length prepared_hotkeys) uid
          || not (get_elem? hotkeys uid == get_elem? prepared_hotkeys uid))

  -- The chain withholds the incentive of the owner and of its coldkey's hotkeys.
  abbrev pub is_withheld : ℕ → Bool
  is_withheld uid = uid == recipient.uid || get_elem? coldkeys uid == state.owner_coldkey

  unfoldable pub check_uid : ℕ → Result EmissionBlockReason Unit
  check_uid uid = do
    raise_if (changed_hands uid) chain_snapshot_inconsistent
    raise_if (differ (is_withheld uid) (has uid recipient.withheld)) owner_snapshot_inconsistent

  unfoldable pub check_uids : List ℕ → Result EmissionBlockReason Unit
  unfolding check_uid
  check_uids [] = ok tt
  check_uids (uid ∷ uids) = check_uid uid >> check_uids uids

abbrev pub at_block : Option OwnerState → Option ℕ → Result EmissionBlockReason OwnerState
at_block (some state) (some block) =
    if state.block == block then ok state else err chain_snapshot_inconsistent
at_block _ _ = err chain_snapshot_inconsistent

abbrev pub lists_of :
    Option (List String)
    → Option (List String)
    → Result EmissionBlockReason (List String × List String)
lists_of (some hotkeys) (some coldkeys) =
    if length coldkeys == length hotkeys
    then ok (hotkeys, coldkeys)
    else err owner_snapshot_inconsistent
lists_of _ _ = err owner_snapshot_inconsistent

unfoldable pub recheck_owner_state :
    OwnerVoteRecipient
    → Option OwnerState
    → Option ℕ
    → List String
    → List ℕ
    → Result EmissionBlockReason Unit
unfolding check_uids
recheck_owner_state recipient read_state block prepared_hotkeys uint_uids = do
  state ← at_block read_state block
  raise_if
      (not (state.owner_hotkey == some recipient.hotkey)
        || not (state.owner_coldkey == recipient.owner_coldkey))
      owner_snapshot_inconsistent
  lists ← lists_of state.hotkeys state.coldkeys
  check_uids recipient state lists.0 lists.1 prepared_hotkeys (recipient.uid ∷ uint_uids)

module _ (recipient : OwnerVoteRecipient) (state : OwnerState)
    (hotkeys coldkeys prepared_hotkeys : List String) where
  -- The UID has the hotkey for which the vote was prepared, and is withheld exactly where it was.
  abbrev pub IsKept : ℕ → Type 0
  IsKept uid =
      (uid < length hotkeys)
      × (get_elem? hotkeys uid ≡ get_elem? prepared_hotkeys uid)
      × (is_withheld recipient state hotkeys coldkeys prepared_hotkeys uid
          ≡ has uid recipient.withheld)

  check_uid-IsKept :
      (uid : ℕ)
      → check_uid recipient state hotkeys coldkeys prepared_hotkeys uid ≡ ok tt
      → IsKept uid
  unfolding check_uid
  check_uid-IsKept uid e =
      let first =
        then_ok
          (raise_if (changed_hands recipient state hotkeys coldkeys prepared_hotkeys uid)
            chain_snapshot_inconsistent)
          _ e in
      let there =
        raise_if_ok (changed_hands recipient state hotkeys coldkeys prepared_hotkeys uid)
          chain_snapshot_inconsistent first.0 in
      (
        ground (arith, there),
        (option_beq_iff string_eq (get_elem? hotkeys uid) (get_elem? prepared_hotkeys uid)).0
            (ground (arith, there)),
        same_of_differ _ _ (
            raise_if_ok
              (differ (is_withheld recipient state hotkeys coldkeys prepared_hotkeys uid)
                (has uid recipient.withheld))
              owner_snapshot_inconsistent first.1),
      )
    where
      same_of_differ : (a b : Bool) → differ a b ≡ false → a ≡ b
      same_of_differ a b h = ground arith

  check_uids-IsKept :
      (uids : List ℕ) (uid : ℕ)
      → check_uids recipient state hotkeys coldkeys prepared_hotkeys uids ≡ ok tt
      → has uid uids ≡ true
      → IsKept uid
  unfolding check_uids
  check_uids-IsKept [] uid e h = absurd cc
  check_uids-IsKept (x ∷ xs) uid e h =
      let both = then_ok (check_uid recipient state hotkeys coldkeys prepared_hotkeys x) _ e in
      elim (Bool-cases (x == uid)) [
        | inl t ↦ subst IsKept ((nat_eq.eqb_iff x uid).0 t) (check_uid-IsKept x both.0)
        | inr f ↦ check_uids-IsKept xs uid both.1 (ground (arith, h, f))
      ]

pass_if :
    {A B : Type 0} (b : Bool) (a : A) (x : EmissionBlockReason)
    (f : A → Result EmissionBlockReason B) {c : B}
    → ((if b then ok a else err x) >>= f) ≡ ok c
    → (b ≡ true) × (f a ≡ ok c)
pass_if true a x f e = (refl, e)
pass_if false a x f e = absurd cc

lists_of_ok :
    (h c : Option (List String)) {lists : List String × List String}
    → lists_of h c ≡ ok lists
    → (h ≡ some lists.0) × (c ≡ some lists.1) × (length lists.1 ≡ length lists.0)
lists_of_ok none c e = absurd cc
lists_of_ok (some h) none e = absurd cc
lists_of_ok (some h) (some c) {lists} e = ground (arith, e)

-- Where `recheck_owner_state` passes, the state was read at the block of the submission, the owner's
-- hotkey and coldkey are those of the plan, the state has one coldkey for each hotkey, and each UID of
-- the vote and the owner's has the hotkey it was prepared for and is withheld exactly where it was: no
-- weight reaches a new holder of a UID.
pub recheck_owner_state-ok :
    (recipient : OwnerVoteRecipient) (state : OwnerState) (block : ℕ)
    (prepared_hotkeys : List String) (uids : List ℕ)
    → recheck_owner_state recipient (some state) (some block) prepared_hotkeys uids ≡ ok tt
    → (state.block ≡ block)
      × (state.owner_hotkey ≡ some recipient.hotkey)
      × (state.owner_coldkey ≡ recipient.owner_coldkey)
      × (hotkeys coldkeys : List String) × (state.hotkeys ≡ some hotkeys)
      × (state.coldkeys ≡ some coldkeys)
      × (length coldkeys ≡ length hotkeys)
      × ((uid : ℕ)
          → has uid (recipient.uid ∷ uids) ≡ true
          → IsKept recipient state hotkeys coldkeys prepared_hotkeys uid)
unfolding recheck_owner_state
recheck_owner_state-ok recipient state block prepared_hotkeys uids e =
    let read = pass_if (state.block == block) state chain_snapshot_inconsistent _ e in
    let owner =
      then_ok
        (raise_if
          (not (state.owner_hotkey == some recipient.hotkey)
            || not (state.owner_coldkey == recipient.owner_coldkey))
          owner_snapshot_inconsistent)
        _ read.1 in
    let both = bind_ok (lists_of state.hotkeys state.coldkeys) _ owner.1 in
    let lists = lists_of_ok state.hotkeys state.coldkeys both.1 in
    (
      (nat_eq.eqb_iff state.block block).0 read.0,
      (option_beq_iff string_eq state.owner_hotkey (some recipient.hotkey)).0
          (ground (arith, owner.0)),
      (option_beq_iff string_eq state.owner_coldkey recipient.owner_coldkey).0
          (ground (arith, owner.0)),
      both.0.0,
      both.0.1,
      lists.0,
      lists.1,
      lists.2,
      λ uid named.
          check_uids-IsKept recipient state both.0.0 both.0.1 prepared_hotkeys
            (recipient.uid ∷ uids) uid both.2 named,
    )
