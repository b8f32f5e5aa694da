-- ===== src/Scoring/Duplicates/Forecasts/Items.antt =====
-- endure/scoring/duplicates.py, `identical_forecast_groups`: forecasts with the same items.
use endure_subnet.Prelude.{
  ℕ, Bool, true, ◌&&◌, ◌≡◌, ◌↔◌, refl, ◌∙◌, sym, ap, [], ◌∷◌, all, arith, Bool-cases, inl, inr,
}
use endure_subnet.Prelude.Eq.{◌==◌, Eq, pair_eq, nat_eq, string_eq, ==_refl}
use endure_subnet.Prelude.Dict.{Dict}
use endure_subnet.Scoring.Duplicates.Forecasts.{has_item, same_items}

module _ {C : Type 0} ⦃e : Eq C⦄ where
  all-item :
      (p : C × ℕ → Bool) (values : Dict C ℕ) (item : C × ℕ)
      → all p values ≡ true
      → has_item values item ≡ true
      → p item ≡ true
  all-item p [] item h i = absurd cc
  all-item p (v ∷ values) item h i = elim (Bool-cases (v == item)) [
    | inl same ↦ ap p (sym ((pair_eq.eqb_iff v item).0 same)) ∙ first (p v) (all p values) h
    | inr f ↦ all-item p values item (ground (arith, h)) (ground (arith, i, f))
  ]
    where
      first : (a b : Bool) → a && b ≡ true → a ≡ true
      first a b h = ground arith

  all_of :
      (p : C × ℕ → Bool) (values : Dict C ℕ)
      → ((item : C × ℕ) → has_item values item ≡ true → p item ≡ true)
      → all p values ≡ true
  all_of p [] h = refl
  all_of p (v ∷ values) h = ground (
    arith,
    h v (ground (arith, ==_refl v)),
    all_of p values (λ item i. h item (ground (arith, i))),
  )

  abbrev HasAll : Dict C ℕ → Dict C ℕ → Type 0
  HasAll values others = (item : C × ℕ) → has_item values item ≡ true → has_item others item ≡ true

  same_items-HasAll : (u v : Dict C ℕ) → same_items u v ≡ true ↔ HasAll u v × HasAll v u
  unfolding same_items
  same_items-HasAll u v = (
    λ h. (
      λ item. all-item (has_item v) u item (ground (arith, h)),
      λ item. all-item (has_item u) v item (ground (arith, h)),
    ),
    λ both. ground (arith, all_of (has_item v) u both.0, all_of (has_item u) v both.1),
  )

  pub same_items_sym : (u v : Dict C ℕ) → same_items u v ≡ true → same_items v u ≡ true
  same_items_sym u v h =
      let both = (same_items-HasAll u v).0 h in (same_items-HasAll v u).1 (both.1, both.0)

  pub same_items_trans :
      (u v w : Dict C ℕ) → same_items u v ≡ true → same_items v w ≡ true → same_items u w ≡ true
  same_items_trans u v w h k =
      let a = (same_items-HasAll u v).0 h in
      let b = (same_items-HasAll v w).0 k in
      (same_items-HasAll u w).1 (λ item i. b.0 item (a.0 item i), λ item i. a.1 item (b.1 item i))

  pub same_items_refl : (u : Dict C ℕ) → same_items u u ≡ true
  same_items_refl u = (same_items-HasAll u u).1 (λ item i. i, λ item i. i)
