-- ===== src/Protocol/Validation/Binding.antt =====
-- endure/protocol/validation.py with canonical.py: what a commitment binds. The digest takes the
-- bundle, the nonce and the hotkey without their lengths between them.
use text.Mathlib.TextEquality.{Char-path}
use Prim.Native.String.{String as Text}
use mathlib.Core.List.{append_assoc}
use endure_subnet.Prelude.{
  some_of, ℕ, ◌<◌, String, ◌≡◌, refl, sym, ◌∙◌, true, some, List, [], ◌∷◌, ◌++◌, length, All, arith,
  append-injective,
}
use endure_subnet.Protocol.Canonical.{
  code_points, utf8_of, utf8, fromhex, commit_preimage, commit_hash,
}
use endure_subnet.Protocol.Validation.{validate_reveal, SchemaRegistry}
use endure_subnet.Protocol.Validation.Verdicts.{validate_reveal-accepted}

abbrev pub IsAscii : List ℕ → Type 0
IsAscii cs = All (λ c. c < 128) cs

utf8-ascii : (cs : List ℕ) → IsAscii cs → utf8 cs ≡ cs
unfolding utf8 utf8_of
utf8-ascii [] h = refl
utf8-ascii (c ∷ cs) (h, hs) = ground (arith, utf8-ascii cs hs)

code_points_cons :
    {c d : ℕ} {cs ds : List ℕ} → ◌≡◌ {A = List ℕ} (c ∷ cs) (d ∷ ds) → (c ≡ d) × (cs ≡ ds)
code_points_cons e = (cc, cc)

code_points-injective : (s t : String) → code_points s ≡ code_points t → s ≡ t
code_points-injective Text.[] Text.[] e = refl
code_points-injective Text.[] (Text.◌∷◌ d t) e = cc
code_points-injective (Text.◌∷◌ c s) Text.[] e = cc
code_points-injective (Text.◌∷◌ c s) (Text.◌∷◌ d t) e =
    let parts = code_points_cons e in
    λ i. Text.◌∷◌ (Char-path c d parts.0 i) (code_points-injective s t parts.1 i)

-- The hotkeys of one length whose preimages agree are one hotkey.
preimage-hotkey :
    (bundle nonce bundle' nonce' : List ℕ) (hotkey hotkey' : String)
    → IsAscii (code_points hotkey)
    → IsAscii (code_points hotkey')
    → length (code_points hotkey) ≡ length (code_points hotkey')
    → commit_preimage bundle nonce hotkey ≡ commit_preimage bundle' nonce' hotkey'
    → (bundle ++ nonce ≡ bundle' ++ nonce') × (hotkey ≡ hotkey')
unfolding commit_preimage
preimage-hotkey bundle nonce bundle' nonce' hotkey hotkey' ascii ascii' size e =
    let parts =
      append-injective (bundle ++ nonce) (bundle' ++ nonce') (utf8 (code_points hotkey))
        (utf8 (code_points hotkey'))
        (rw (utf8-ascii (code_points hotkey) ascii)
          (rw (utf8-ascii (code_points hotkey') ascii') size))
        (append_assoc bundle nonce (utf8 (code_points hotkey))
          ∙ (e ∙ sym (append_assoc bundle' nonce' (utf8 (code_points hotkey'))))) in
    (
      parts.0,
      code_points-injective hotkey hotkey' (
          sym (utf8-ascii (code_points hotkey) ascii)
          ∙ (parts.1 ∙ utf8-ascii (code_points hotkey') ascii')),
    )

module _ (digest : List ℕ → String) (bundle_json bundle_json' nonce_hex nonce_hex' hash : String)
    (hotkey hotkey' : String) where
  -- The digest tells apart what these two reveals could have hashed.
  abbrev pub NoCollision : Type 0
  NoCollision =
      (nonce nonce' : List ℕ)
      → fromhex (code_points nonce_hex) ≡ some nonce
      → fromhex (code_points nonce_hex') ≡ some nonce'
      → commit_hash digest (utf8 (code_points bundle_json)) nonce hotkey
        ≡ commit_hash digest (utf8 (code_points bundle_json')) nonce' hotkey'
      → commit_preimage (utf8 (code_points bundle_json)) nonce hotkey
        ≡ commit_preimage (utf8 (code_points bundle_json')) nonce' hotkey'

  -- If two reveals are accepted against one commitment, where the digest has no collision between
  -- their preimages and the hotkeys are ASCII of one length, then the hotkeys are the same: what one
  -- hotkey has committed, no other can reveal. The two rounds, times and universes may differ.
  pub validate_reveal-hotkey :
      (r c r' c' : String) (v v' now opens closes now' opens' closes' : ℕ)
      (universe universe' : List String) (registry registry' : SchemaRegistry)
      → NoCollision
      → IsAscii (code_points hotkey)
      → IsAscii (code_points hotkey')
      → length (code_points hotkey) ≡ length (code_points hotkey')
      → (validate_reveal digest r c v bundle_json nonce_hex
          (some hash)
          hotkey
          now
          opens
          closes
          universe
          registry).accepted
        ≡ true
      → (validate_reveal digest r' c' v' bundle_json' nonce_hex'
          (some hash)
          hotkey'
          now'
          opens'
          closes'
          universe'
          registry').accepted
        ≡ true
      → hotkey ≡ hotkey'
  validate_reveal-hotkey r c r' c' v v' now opens closes now' opens' closes' universe universe'
        registry registry' distinct ascii ascii' size a a' =
      let h =
        hashed_of r c v bundle_json nonce_hex hash hotkey now opens closes universe registry a in
      let h' =
        hashed_of r' c' v' bundle_json' nonce_hex' hash hotkey' now' opens' closes' universe'
          registry' a' in
      (preimage-hotkey (utf8 (code_points bundle_json)) h.0 (utf8 (code_points bundle_json')) h'.0
        hotkey hotkey' ascii ascii' size (distinct h.0 h'.0 h.1 h'.1 (h.2 ∙ sym h'.2))).1
    where
      hashed_of :
          (r c : String) (v : ℕ) (bundle nonce_hex hash hotkey : String) (now opens closes : ℕ)
          (universe : List String) (registry : SchemaRegistry)
          → (validate_reveal digest r c v bundle nonce_hex
              (some hash)
              hotkey
              now
              opens
              closes
              universe
              registry).accepted
            ≡ true
          → (nonce : List ℕ) × (fromhex (code_points nonce_hex) ≡ some nonce)
            × (commit_hash digest (utf8 (code_points bundle)) nonce hotkey ≡ hash)
      hashed_of r c v bundle nonce_hex hash hotkey now opens closes universe registry a =
          let x =
            (validate_reveal-accepted digest r c v bundle nonce_hex (some hash) hotkey now opens
                closes universe registry).0
              a in
          (x.1.4.1, x.1.4.2, x.1.4.3.1 ∙ some_of x.1.3)
