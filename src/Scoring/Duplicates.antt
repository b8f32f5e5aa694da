-- ===== src/Scoring/Duplicates.antt =====
-- endure/scoring/duplicates.py, `duplicate_pools`: hotkeys with the same forecasts share a pool. A
-- frozenset is a list without repetitions; a pool of the result is in the order of its hotkeys.
pub mod Assigned
pub mod Pools
pub mod Overlap
pub mod Forecasts
use Prim.Native.String.{compare}
use Prim.Native.Nat.{Ordering}
use endure_subnet.Prelude.{
  ℕ, suc, String, Bool, true, false, Option, none, some, List, [], ◌∷◌, ◌++◌, ltb, if◌then◌else◌,
  is_some, or_else, length,
}
use endure_subnet.Prelude.Eq.{pair_eq, nat_eq, string_eq}
use endure_subnet.Prelude.Dict.{Dict, lookup, insert}
use endure_subnet.Prelude.Sets.{mem, filter, sorted}

-- A group of identical forecasts: the age of its round and its index there
abbrev pub Place : Type 0
Place = ℕ × ℕ

abbrev pub IdenticalGroups : Type 0
IdenticalGroups = List (List String)

abbrev pub members_in : Option (List String) → List String → List String
members_in none group = group
members_in (some scored) group = filter (λ hotkey. mem hotkey scored) group

-- `assigned.setdefault(hotkey, place)` for each of the hotkeys
unfoldable pub assign_members : Place → List String → Dict String Place → Dict String Place
assign_members place [] assigned = assigned
assign_members place (hotkey ∷ hotkeys) assigned =
    assign_members place hotkeys
      (if is_some (lookup hotkey assigned) then assigned else insert hotkey place assigned)

abbrev pub assign_group : Place → List String → Dict String Place → Dict String Place
assign_group place members assigned =
    if ltb 1 (length members) then assign_members place members assigned else assigned

unfoldable pub assign_groups :
    Option (List String) → ℕ → ℕ → IdenticalGroups → Dict String Place → Dict String Place
unfolding assign_members
assign_groups scored age index [] assigned = assigned
assign_groups scored age index (group ∷ groups) assigned =
    assign_groups scored age (suc index) groups
      (assign_group (age, index) (members_in scored group) assigned)

-- The rounds from `age` on, newest first; the oldest is assigned first.
unfoldable pub assign_rounds : Option (List String) → ℕ → List IdenticalGroups → Dict String Place
unfolding assign_groups
assign_rounds scored age [] = []
assign_rounds scored age (groups ∷ rounds) =
    assign_groups scored age 0 groups (assign_rounds scored (suc age) rounds)

-- `pools.setdefault(group, set()).add(hotkey)` for each assigned hotkey
unfoldable pub gather : List (String × Place) → Dict Place (List String) → Dict Place (List String)
gather [] pools = pools
gather ((hotkey, place) ∷ assigned) pools =
    gather assigned (insert place (or_else (lookup place pools) [] ++ (hotkey ∷ [])) pools)

-- `frozenset(members)` for each pool of two or more
abbrev pub pooled : List (Place × List String) → List (List String)
pooled [] = []
pooled ((_, members) ∷ pools) =
    let rest = pooled pools in if ltb 1 (length members) then sorted members ∷ rest else rest

-- The order of Python on lists of texts
abbrev pub is_after : List String → List String → Bool
is_after [] ys = false
is_after (x ∷ xs) [] = true
is_after (x ∷ xs) (y ∷ ys) =
    let rest = is_after xs ys in
    elim (compare x y) [ Ordering.lt ↦ false | Ordering.eq ↦ rest | Ordering.gt ↦ true ]

abbrev pub insert_pool : List String → List (List String) → List (List String)
insert_pool pool [] = pool ∷ []
insert_pool pool (other ∷ pools) =
    let rest = insert_pool pool pools in
    if is_after pool other then other ∷ rest else pool ∷ other ∷ pools

abbrev pub sorted_pools : List (List String) → List (List String)
sorted_pools [] = []
sorted_pools (pool ∷ pools) = insert_pool pool (sorted_pools pools)

unfoldable pub duplicate_pools : List IdenticalGroups → Option (List String) → List (List String)
unfolding assign_rounds gather
duplicate_pools rounds scored = sorted_pools (pooled (gather (assign_rounds scored 0 rounds) []))
