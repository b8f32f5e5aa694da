-- ===== src/Scoring/Duplicates/Forecasts/Grouped.antt =====
-- endure/scoring/duplicates.py, `identical_forecast_groups`: which hotkeys are in one group.
use endure_subnet.Prelude.{
  ℕ, String, Bool, true, false, ◌&&◌, ◌||◌, ◌≡◌, ◌↔◌, refl, ◌∙◌, Option, none, some, List, [], ◌∷◌,
  ◌++◌, if◌then◌else◌, any, arith, Bool-cases, inl, inr,
}
use endure_subnet.Prelude.Eq.{◌==◌, Eq, pair_eq, nat_eq, string_eq}
use endure_subnet.Prelude.Dict.{Dict, lookup}
use endure_subnet.Prelude.Sets.{mem, mem-append, keys, mem-keys, IsDistinct}
use endure_subnet.Scoring.Duplicates.Pools.{has_both, has_both-large}
use endure_subnet.Scoring.Duplicates.Forecasts.{
  same_items, add_to, add_forecast, group_forecasts, groups_of_two, identical_forecast_groups,
}
use endure_subnet.Scoring.Duplicates.Forecasts.Items.{
  same_items_sym, same_items_trans, same_items_refl,
}

module _ {C : Type 0} ⦃e : Eq C⦄ where
  -- The group of some values
  abbrev group_with : Dict C ℕ → List (Dict C ℕ × List String) → List String
  group_with v [] = []
  group_with v ((w, members) ∷ groups) =
      let rest = group_with v groups in if same_items w v then members else rest

  group_with-if :
      (v : Dict C ℕ) (b : Bool) (xs ys : List (Dict C ℕ × List String))
      → group_with v (if b then xs else ys) ≡ (if b then group_with v xs else group_with v ys)
  group_with-if v true xs ys = refl
  group_with-if v false xs ys = refl

  mem-add_to :
      (h k : String) (u v : Dict C ℕ) (groups : List (Dict C ℕ × List String))
      → mem h (group_with v (add_to u k groups))
        ≡ (mem h (group_with v groups) || same_items u v && k == h)
  unfolding add_to
  mem-add_to h k u v [] = ground arith
  mem-add_to h k u v ((w, members) ∷ groups) = ground (
    arith,
    mem-add_to h k u v groups,
    mem-append h members (k ∷ []),
    same_items_trans w u v,
    same_items_trans u w v,
    same_items_sym w u,
    same_items_trans w v u,
    same_items_sym u v,
    group_with-if v (same_items w u) ((w, members ++ (k ∷ [])) ∷ groups)
        ((w, members) ∷ add_to u k groups),
  )

  abbrev pub is_forecast : Dict C ℕ → Bool
  is_forecast [] = false
  is_forecast (_ ∷ _) = true

  abbrev has_forecast : Option (Dict C ℕ) → Dict C ℕ → Bool
  has_forecast none v = false
  has_forecast (some u) v = is_forecast u && same_items u v

  mem-add_forecast :
      (h k : String) (u v : Dict C ℕ) (groups : List (Dict C ℕ × List String))
      → mem h (group_with v (add_forecast u k groups))
        ≡ (mem h (group_with v groups) || has_forecast (some u) v && k == h)
  mem-add_forecast h k [] v groups = ground arith
  mem-add_forecast h k (i ∷ u) v groups = mem-add_to h k (i ∷ u) v groups

  mem-group_forecasts :
      (h : String) (v : Dict C ℕ) (accepted : List (String × Dict C ℕ))
      (groups : List (Dict C ℕ × List String))
      → IsDistinct (keys accepted)
      → mem h (group_with v (group_forecasts accepted groups))
        ≡ (mem h (group_with v groups) || has_forecast (lookup h accepted) v)
  unfolding group_forecasts lookup
  mem-group_forecasts h v [] groups u = ground arith
  mem-group_forecasts h v ((k, w) ∷ accepted) groups u = ground (
    arith,
    u.0,
    mem-group_forecasts h v accepted (add_forecast w k groups) u.1,
    mem-add_forecast h k w v groups,
    string_eq.eqb_iff k h,
    mem-keys k accepted,
  )

  -- No two entries have the same values.
  abbrev IsApart : List (Dict C ℕ × List String) → Type 0
  IsApart [] = Unit
  IsApart ((v, _) ∷ groups) = (group_with v groups ≡ []) × IsApart groups

  group_with_same :
      (v w : Dict C ℕ) (groups : List (Dict C ℕ × List String))
      → same_items v w ≡ true
      → group_with v groups ≡ group_with w groups
  group_with_same v w [] h = refl
  group_with_same v w ((u, members) ∷ groups) h = ground (
    arith,
    h,
    group_with_same v w groups h,
    same_items_trans u v w,
    same_items_trans u w v,
    same_items_sym v w,
  )

  group_with-add_to :
      (k : String) (u v : Dict C ℕ) (groups : List (Dict C ℕ × List String))
      → same_items u v ≡ false
      → group_with v (add_to u k groups) ≡ group_with v groups
  unfolding add_to
  group_with-add_to k u v [] h = ground arith
  group_with-add_to k u v ((w, members) ∷ groups) h = ground (
    arith,
    h,
    group_with-add_to k u v groups h,
    same_items_trans u w v,
    same_items_sym w u,
    group_with-if v (same_items w u) ((w, members ++ (k ∷ [])) ∷ groups)
        ((w, members) ∷ add_to u k groups),
  )

  IsApart-if :
      (b : Bool) (xs ys : List (Dict C ℕ × List String))
      → (b ≡ true → IsApart xs)
      → (b ≡ false → IsApart ys)
      → IsApart (if b then xs else ys)
  IsApart-if true xs ys f g = f refl
  IsApart-if false xs ys f g = g refl

  opposite : (u w : Dict C ℕ) → same_items w u ≡ false → same_items u w ≡ false
  opposite u w h = ground (arith, h, same_items_sym u w)

  add_to-IsApart :
      (k : String) (u : Dict C ℕ) (groups : List (Dict C ℕ × List String))
      → IsApart groups
      → IsApart (add_to u k groups)
  unfolding add_to
  add_to-IsApart k u [] a = (refl, tt)
  add_to-IsApart k u ((w, members) ∷ groups) a =
      IsApart-if (same_items w u) ((w, members ++ (k ∷ [])) ∷ groups)
        ((w, members) ∷ add_to u k groups) (λ _. a)
        (λ f.
          (group_with-add_to k u w groups (opposite u w f) ∙ a.0, add_to-IsApart k u groups a.1))

  group_forecasts-IsApart :
      (accepted : List (String × Dict C ℕ)) (groups : List (Dict C ℕ × List String))
      → IsApart groups
      → IsApart (group_forecasts accepted groups)
  unfolding group_forecasts
  group_forecasts-IsApart [] groups a = a
  group_forecasts-IsApart ((k, []) ∷ accepted) groups a = group_forecasts-IsApart accepted groups a
  group_forecasts-IsApart ((k, i ∷ v) ∷ accepted) groups a =
      group_forecasts-IsApart accepted _ (add_to-IsApart k (i ∷ v) groups a)

  module _ (h k : String) (distinct : (h == k) ≡ false) where
    grouped-both :
        (v : Dict C ℕ) (groups : List (Dict C ℕ × List String))
        → has_both h k (group_with v groups) ≡ true
        → any (has_both h k) (groups_of_two groups) ≡ true
    grouped-both v [] b = absurd cc
    grouped-both v ((w, members) ∷ groups) b =
        ground (arith, b, grouped-both v groups, has_both-large h k distinct members)

    both-grouped :
        (groups : List (Dict C ℕ × List String))
        → IsApart groups
        → any (has_both h k) (groups_of_two groups) ≡ true
        → (v : Dict C ℕ) × (has_both h k (group_with v groups) ≡ true)
    both-grouped [] a b = absurd cc
    both-grouped ((w, members) ∷ groups) a b = elim (Bool-cases (has_both h k members)) [
      | inl here ↦ (w, ground (arith, here, same_items_refl w))
      | inr f ↦
          let rest = both-grouped groups a.1 (ground (arith, b, f)) in
          (rest.0, later rest.0 w members groups a.0 rest.1)
    ]
      where
        later :
            (v w : Dict C ℕ) (members : List String) (groups : List (Dict C ℕ × List String))
            → group_with w groups ≡ []
            → has_both h k (group_with v groups) ≡ true
            → has_both h k (group_with v ((w, members) ∷ groups)) ≡ true
        later v w members groups absent b = ground (arith, absent, b, group_with_same w v groups)

  -- A forecast with the items of `v`
  found_forecast :
      (found : Option (Dict C ℕ)) (v : Dict C ℕ)
      → has_forecast found v ≡ true
      → (u : Dict C ℕ) × (found ≡ some u) × (is_forecast u ≡ true) × (same_items u v ≡ true)
  found_forecast none v b = absurd cc
  found_forecast (some u) v b = (u, refl, ground (arith, b), ground (arith, b))

  is_forecast_same :
      (u v : Dict C ℕ) → same_items u v ≡ true → is_forecast u ≡ true → is_forecast v ≡ true
  unfolding same_items
  is_forecast_same [] v h f = absurd cc
  is_forecast_same (i ∷ u) [] h f = absurd cc
  is_forecast_same (i ∷ u) (j ∷ v) h f = refl

-- Two hotkeys are in one group of a round exactly when both have forecasts there, and these have the
-- same items, at least one.
pub identical_forecast_groups-share :
    {C : Type 0} ⦃e : Eq C⦄
    → (accepted : List (String × Dict C ℕ)) (h k : String) → IsDistinct (keys accepted)
    → (h == k) ≡ false
    → any (has_both h k) (identical_forecast_groups accepted) ≡ true
      ↔ (u v : Dict C ℕ) × (lookup h accepted ≡ some u)
        × (lookup k accepted ≡ some v)
        × (is_forecast u ≡ true)
        × (same_items u v ≡ true)
unfolding identical_forecast_groups lookup
identical_forecast_groups-share accepted h k unique distinct =
    let groups = group_forecasts accepted [] in
    (
      λ shared.
          let both =
            both-grouped h k distinct groups (group_forecasts-IsApart accepted [] tt) shared in
          let of_h =
            found_forecast (lookup h accepted) both.0
              (ground (arith, both.1, mem-group_forecasts h both.0 accepted [] unique)) in
          let of_k =
            found_forecast (lookup k accepted) both.0
              (ground (arith, both.1, mem-group_forecasts k both.0 accepted [] unique)) in
          (
            of_h.0,
            of_k.0,
            of_h.1,
            of_k.1,
            of_h.2,
            same_items_trans of_h.0 both.0 of_k.0 of_h.3 (same_items_sym of_k.0 both.0 of_k.3),
          ),
      λ same. grouped-both h k distinct same.0 groups (
          ground (
            arith,
            same.2,
            same.3,
            same.4,
            same.5,
            same_items_refl same.0,
            same_items_sym same.0 same.1 same.5,
            is_forecast_same same.0 same.1 same.5 same.4,
            mem-group_forecasts h same.0 accepted [] unique,
            mem-group_forecasts k same.0 accepted [] unique,
          )),
    )
