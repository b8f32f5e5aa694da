-- ===== src/Scoring/Duplicates/Assigned.antt =====
-- endure/scoring/duplicates.py: the group that each hotkey is assigned to.
use endure_subnet.Prelude.{
  ℕ, suc, String, Bool, false, ◌&&◌, ◌||◌, ◌≡◌, refl, Option, none, some, List, [], ◌∷◌, ◌++◌, ltb,
  if◌then◌else◌, or_else, length, arith,
}
use endure_subnet.Prelude.Eq.{◌==◌, pair_eq, nat_eq, string_eq}
use endure_subnet.Prelude.Dict.{Dict, lookup, insert, lookup-insert}
use endure_subnet.Prelude.Sets.{mem, keys, mem-keys, IsDistinct, mem-append}
use endure_subnet.Scoring.Duplicates.{
  Place, IdenticalGroups, members_in, assign_members, assign_group, assign_groups, assign_rounds,
  gather,
}

-- The oldest group of two or more counted hotkeys that a hotkey is in: the first such group of its
-- round, in the oldest of the rounds
abbrev pub or_place : Option Place → Option Place → Option Place
or_place (some place) other = some place
or_place none other = other

abbrev pub is_pooled_in : Option (List String) → List String → String → Bool
is_pooled_in scored group hotkey =
    ltb 1 (length (members_in scored group)) && mem hotkey (members_in scored group)

abbrev pub first_in : Option (List String) → ℕ → ℕ → IdenticalGroups → String → Option Place
first_in scored age index [] hotkey = none
first_in scored age index (group ∷ groups) hotkey =
    let rest = first_in scored age (suc index) groups hotkey in
    if is_pooled_in scored group hotkey then some (age, index) else rest

abbrev pub oldest_in : Option (List String) → ℕ → List IdenticalGroups → String → Option Place
oldest_in scored age [] hotkey = none
oldest_in scored age (groups ∷ rounds) hotkey =
    or_place (oldest_in scored (suc age) rounds hotkey) (first_in scored age 0 groups hotkey)

lookup-assign_members :
    (place : Place) (ms : List String) (h : String) (d : Dict String Place)
    → lookup h (assign_members place ms d)
      ≡ or_place (lookup h d) (if mem h ms then some place else none)
unfolding assign_members
lookup-assign_members place [] h d = ground arith
lookup-assign_members place (m ∷ ms) h d = ground (
  arith,
  lookup-assign_members place ms h d,
  lookup-assign_members place ms h (insert m place d),
  lookup-insert m h place d,
  string_eq.eqb_iff m h,
)

lookup-assign_groups :
    (scored : Option (List String)) (age index : ℕ) (gs : IdenticalGroups) (h : String)
    (d : Dict String Place)
    → lookup h (assign_groups scored age index gs d)
      ≡ or_place (lookup h d) (first_in scored age index gs h)
unfolding assign_groups
lookup-assign_groups scored age index [] h d = ground arith
lookup-assign_groups scored age index (g ∷ gs) h d = ground (
  arith,
  lookup-assign_groups scored age (suc index) gs h
      (assign_group (age, index) (members_in scored g) d),
  lookup-assign_members (age, index) (members_in scored g) h d,
)

pub lookup-assign_rounds :
    (scored : Option (List String)) (age : ℕ) (rounds : List IdenticalGroups) (h : String)
    → lookup h (assign_rounds scored age rounds) ≡ oldest_in scored age rounds h
unfolding assign_rounds lookup
lookup-assign_rounds scored age [] h = refl
lookup-assign_rounds scored age (gs ∷ rounds) h = ground (
  arith,
  lookup-assign_groups scored age 0 gs h (assign_rounds scored (suc age) rounds),
  lookup-assign_rounds scored (suc age) rounds h,
)

insert-IsDistinct :
    (k : String) (v : Place) (d : Dict String Place)
    → IsDistinct (keys d)
    → IsDistinct (keys (insert k v d))
unfolding insert lookup
insert-IsDistinct k v [] h = (refl, tt)
insert-IsDistinct k v ((j, w) ∷ d) h = ground (
  arith,
  insert-IsDistinct k v d,
  mem-keys j (insert k v d),
  mem-keys j d,
  lookup-insert k j v d,
  string_eq.eqb_iff j k,
  string_eq.eqb_iff k j,
)

assign_members-IsDistinct :
    (place : Place) (ms : List String) (d : Dict String Place)
    → IsDistinct (keys d)
    → IsDistinct (keys (assign_members place ms d))
unfolding assign_members
assign_members-IsDistinct place [] d h = h
assign_members-IsDistinct place (m ∷ ms) d h = ground (
  arith,
  assign_members-IsDistinct place ms d,
  assign_members-IsDistinct place ms (insert m place d),
  insert-IsDistinct m place d,
  h,
)

assign_groups-IsDistinct :
    (scored : Option (List String)) (age index : ℕ) (gs : IdenticalGroups) (d : Dict String Place)
    → IsDistinct (keys d)
    → IsDistinct (keys (assign_groups scored age index gs d))
unfolding assign_groups
assign_groups-IsDistinct scored age index [] d h = h
assign_groups-IsDistinct scored age index (g ∷ gs) d h =
    assign_groups-IsDistinct scored age (suc index) gs _
      (ground (arith, h, assign_members-IsDistinct (age, index) (members_in scored g) d))

pub assign_rounds-IsDistinct :
    (scored : Option (List String)) (age : ℕ) (rounds : List IdenticalGroups)
    → IsDistinct (keys (assign_rounds scored age rounds))
unfolding assign_rounds
assign_rounds-IsDistinct scored age [] = tt
assign_rounds-IsDistinct scored age (gs ∷ rounds) =
    assign_groups-IsDistinct scored age 0 gs _ (assign_rounds-IsDistinct scored (suc age) rounds)

-- The entries of a dictionary are what it is looked up for.
abbrev pub place_of : Option Place → Place → Bool
place_of none place = false
place_of (some here) place = here == place

abbrev pub members_of : Place → Dict Place (List String) → List String
members_of place pools = or_else (lookup place pools) []

pub mem-gather :
    (h : String) (place : Place) (d : Dict String Place) (pools : Dict Place (List String))
    → IsDistinct (keys d)
    → mem h (members_of place (gather d pools))
      ≡ (mem h (members_of place pools) || place_of (lookup h d) place)
unfolding gather lookup
mem-gather h place [] pools u = ground arith
mem-gather h place ((k, p) ∷ d) pools u = ground (
  arith,
  u.0,
  mem-gather h place d (insert p (members_of p pools ++ (k ∷ [])) pools) u.1,
  lookup-insert p place (members_of p pools ++ (k ∷ [])) pools,
  mem-append h (members_of p pools) (k ∷ []),
  string_eq.eqb_iff k h,
  pair_eq.eqb_iff p place,
  mem-keys k d,
)
