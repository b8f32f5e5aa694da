-- ===== src/Scoring/OwnerVote/Due.antt =====
-- endure/scoring/emission_policy.py, `submission_due`: exactly when a vote may be sent.
use endure_subnet.Prelude.{
  ℕ, zero, suc, [], ◌∷◌, ◌>>◌, ◌∙◌, ◌+◌, ◌<◌, String, Bool, true, false, ◌≡◌, ◌≢◌, ◌↔◌, refl,
  Option, none, some, List, Result, ok, length, get_elem?, arith, raise_if, then_ok, raise_if_ok,
  not, ◌||◌,
}
use endure_subnet.Prelude.Eq.{◌==◌, string_eq, option_eq, option_beq_iff}
use endure_subnet.Prelude.Int.{ℤ, pos, negsuc, ◌-ℤ◌, pos_part}
use endure_subnet.Scoring.OwnerVote.{
  submission_due, due_by, out_of_range, validator_identity_invalid,
}

-- The chain's rate limit has passed since the validator's last vote.
abbrev pub HasWaited : Option Bool → Option ℤ → ℤ → ℤ → Type 0
HasWaited permit last_update block limit =
    (b : ℕ) × (l : ℕ) × (t : ℕ) × (block ≡ pos b)
    × (limit ≡ pos l)
    × (last_update ≡ some (pos t))
    × (permit ≡ some true)
    × (t + l < b)

due_by_waited :
    (b l t : ℕ) → t + l < b → due_by (some true) (some (pos t)) (pos b) (pos l) ≡ ok true
unfolding due_by ◌-ℤ◌
due_by_waited b l t h = ground arith

waited_of_due :
    (permit : Option Bool) (last_update : Option ℤ) (block limit : ℤ)
    → due_by permit last_update block limit ≡ ok true
    → HasWaited permit last_update block limit
unfolding due_by ◌-ℤ◌
waited_of_due none last_update block limit e = absurd cc
waited_of_due (some p) none block limit e = absurd cc
waited_of_due (some p) (some (negsuc t)) block limit e = absurd (ground arith)
waited_of_due (some p) (some (pos t)) (negsuc b) limit e = absurd (ground arith)
waited_of_due (some p) (some (pos t)) (pos b) (negsuc l) e = absurd (ground arith)
waited_of_due (some false) (some (pos t)) (pos b) (pos l) e = absurd (ground arith)
waited_of_due (some true) (some (pos t)) (pos b) (pos l) e =
    (b, l, t, refl, refl, refl, refl, ground arith)

get_elem?-lt : {A : Type 0} (xs : List A) (i : ℕ) (x : A) → get_elem? xs i ≡ some x → i < length xs
get_elem?-lt [] i x e = absurd cc
get_elem?-lt (y ∷ ys) zero x e = omega arith
get_elem?-lt (y ∷ ys) (suc i) x e = omega (arith, get_elem?-lt ys i x e)

due_of_waited :
    (permit : Option Bool) (last_update : Option ℤ) (block limit : ℤ)
    → HasWaited permit last_update block limit
    → due_by permit last_update block limit ≡ ok true
due_of_waited permit last_update block limit (b, l, t, is_block, is_limit, is_last, is_permit, h) =
    rw is_block (rw is_limit (rw is_last (rw is_permit (due_by_waited b l t h))))

pass :
    {E A : Type 0} (b c : Bool) (x y : E) (k : Result E A)
    → b ≡ false
    → c ≡ false
    → (raise_if b x >> (raise_if c y >> k)) ≡ k
pass b c x y k e f = rw e (rw f refl)

in_range : (uid : ℤ) (i n : ℕ) → uid ≡ pos i → i < n → out_of_range uid n ≡ false
in_range uid i n e h = rw e (ground arith)

has_identity :
    (hotkey : String) (found : Option String)
    → hotkey ≢ ""
    → found ≡ some hotkey
    → (hotkey == "" || not (found == some hotkey)) ≡ false
has_identity hotkey found named e =
    ground (arith, string_eq.eqb_iff hotkey "", option_beq_iff string_eq found (some hotkey))

module _ (validator_uid : ℤ) (validator_hotkey : String) (hotkeys : List String)
    (permits : List Bool) (last_updates : List ℤ) (block limit : ℤ) where
  -- The validator stands at its UID, with a permit, and the limit has passed.
  abbrev pub IsDue : Type 0
  IsDue =
      (i : ℕ) × (validator_uid ≡ pos i)
      × (validator_hotkey ≢ "")
      × (get_elem? hotkeys i ≡ some validator_hotkey)
      × HasWaited (get_elem? permits i) (get_elem? last_updates i) block limit

  due_of_checks :
      out_of_range validator_uid (length hotkeys) ≡ false
      → (validator_hotkey == ""
          || not (get_elem? hotkeys (pos_part validator_uid) == some validator_hotkey))
        ≡ false
      → due_by
          (get_elem? permits (pos_part validator_uid))
          (get_elem? last_updates (pos_part validator_uid))
          block
          limit
        ≡ ok true
      → IsDue
  due_of_checks range identity due = (
    pos_part validator_uid,
    ground arith,
    λ e. ground (arith, string_eq.eqb_iff validator_hotkey ""),
    (option_beq_iff string_eq (get_elem? hotkeys (pos_part validator_uid))
          (some validator_hotkey)).0
        (ground arith),
    waited_of_due (get_elem? permits (pos_part validator_uid))
        (get_elem? last_updates (pos_part validator_uid)) block limit due,
  )

  -- A vote is due exactly when the UID is the validator's, its hotkey is not empty and has a permit,
  -- the block, the limit and its last update are not negative, and more blocks than the limit have
  -- passed since that update. At exactly the limit, or where a check raises, it is not due.
  pub submission_due-true :
      (submission_due validator_uid validator_hotkey hotkeys permits last_updates block limit
        ≡ ok true)
      ↔ IsDue
  unfolding submission_due
  submission_due-true = (
    λ e.
        let range =
          then_ok
            (raise_if (out_of_range validator_uid (length hotkeys)) validator_identity_invalid) _
            e in
        let identity =
          then_ok
            (raise_if
              (validator_hotkey == ""
                || not (get_elem? hotkeys (pos_part validator_uid) == some validator_hotkey))
              validator_identity_invalid)
            _ range.1 in
        due_of_checks (raise_if_ok _ validator_identity_invalid range.0)
          (raise_if_ok _ validator_identity_invalid identity.0) identity.1,
    λ due. due_of due,
  )
    where
      due_of :
          IsDue
          → submission_due validator_uid validator_hotkey hotkeys permits last_updates block limit
            ≡ ok true
      due_of (i, uid, named, found, waited) =
          pass _ _ validator_identity_invalid validator_identity_invalid _
            (in_range validator_uid i (length hotkeys) uid
              (get_elem?-lt hotkeys i validator_hotkey found))
            (has_identity validator_hotkey (get_elem? hotkeys (pos_part validator_uid)) named
              (rw uid found))
          ∙ rw uid (due_of_waited _ _ block limit waited)
