-- ===== src/Scoring/Duplicates/Forecasts.antt =====
-- endure/scoring/duplicates.py, `identical_forecast_groups`: the groups of one round. The coordinates
-- of a forecast are only compared; `frozenset(values.items())` is equal for the same items.
pub mod Items
pub mod Grouped
use endure_subnet.Prelude.{
  ℕ, String, Bool, true, false, ◌&&◌, List, [], ◌∷◌, ◌++◌, ltb, if◌then◌else◌, length, any, all,
}
use endure_subnet.Prelude.Eq.{◌==◌, Eq, pair_eq, nat_eq}
use endure_subnet.Prelude.Dict.{Dict}
use endure_subnet.Scoring.Duplicates.{IdenticalGroups}

module _ {C : Type 0} ⦃e : Eq C⦄ where
  abbrev pub has_item : Dict C ℕ → C × ℕ → Bool
  has_item values item = any (λ other. other == item) values

  unfoldable pub same_items : Dict C ℕ → Dict C ℕ → Bool
  same_items values others = all (has_item others) values && all (has_item values) others

  -- `groups.setdefault(frozenset(values.items()), set()).add(hotkey)`
  unfoldable pub add_to :
      Dict C ℕ → String → List (Dict C ℕ × List String) → List (Dict C ℕ × List String)
  add_to values hotkey [] = (values, hotkey ∷ []) ∷ []
  add_to values hotkey ((others, members) ∷ groups) =
      let rest = add_to values hotkey groups in
      if same_items others values
      then (others, members ++ (hotkey ∷ [])) ∷ groups
      else (others, members) ∷ rest

  abbrev pub add_forecast :
      Dict C ℕ → String → List (Dict C ℕ × List String) → List (Dict C ℕ × List String)
  add_forecast [] hotkey groups = groups
  add_forecast (item ∷ items) hotkey groups = add_to (item ∷ items) hotkey groups

  unfoldable pub group_forecasts :
      List (String × Dict C ℕ) → List (Dict C ℕ × List String) → List (Dict C ℕ × List String)
  unfolding add_to
  group_forecasts [] groups = groups
  group_forecasts ((hotkey, values) ∷ accepted) groups =
      group_forecasts accepted (add_forecast values hotkey groups)

  abbrev pub groups_of_two : List (Dict C ℕ × List String) → IdenticalGroups
  groups_of_two [] = []
  groups_of_two ((_, members) ∷ groups) =
      let rest = groups_of_two groups in if ltb 1 (length members) then members ∷ rest else rest

  unfoldable pub identical_forecast_groups : List (String × Dict C ℕ) → IdenticalGroups
  unfolding group_forecasts
  identical_forecast_groups accepted = groups_of_two (group_forecasts accepted [])
