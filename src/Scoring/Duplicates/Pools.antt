-- ===== src/Scoring/Duplicates/Pools.antt =====
-- endure/scoring/duplicates.py: which hotkeys share a pool.
use endure_subnet.Prelude.{
  String, Bool, true, false, ◌&&◌, ◌||◌, ◌≡◌, ◌↔◌, refl, ◌∙◌, sym, ap, Option, none, some, List, [],
  ◌∷◌, ◌++◌, ltb, length, any, arith, Bool-cases, inl, inr,
}
use endure_subnet.Prelude.Eq.{◌==◌, pair_eq, nat_eq, string_eq}
use endure_subnet.Prelude.Dict.{Dict, lookup, insert, lookup-insert}
use endure_subnet.Prelude.Sets.{mem, sorted, mem-sorted, keys, IsDistinct}
use endure_subnet.Scoring.Duplicates.{
  Place, IdenticalGroups, assign_rounds, gather, pooled, insert_pool, sorted_pools, duplicate_pools,
}
use endure_subnet.Scoring.Duplicates.Assigned.{
  oldest_in, lookup-assign_rounds, assign_rounds-IsDistinct, place_of, members_of, mem-gather,
}

abbrev pub IsUnique : Dict Place (List String) → Type 0
IsUnique [] = Unit
IsUnique ((place, _) ∷ pools) = (lookup place pools ≡ none) × IsUnique pools

insert-IsUnique :
    (place : Place) (members : List String) (pools : Dict Place (List String))
    → IsUnique pools
    → IsUnique (insert place members pools)
unfolding insert lookup
insert-IsUnique place members [] u = (refl, tt)
insert-IsUnique place members ((p, ms) ∷ pools) u = ground (
  arith,
  u.0,
  u.1,
  insert-IsUnique place members pools u.1,
  lookup-insert place p members pools,
  pair_eq.eqb_iff p place,
  pair_eq.eqb_iff place p,
)

pub gather-IsUnique :
    (d : List (String × Place)) (pools : Dict Place (List String))
    → IsUnique pools
    → IsUnique (gather d pools)
unfolding gather
gather-IsUnique [] pools u = u
gather-IsUnique ((k, p) ∷ d) pools u =
    gather-IsUnique d _ (insert-IsUnique p (members_of p pools ++ (k ∷ [])) pools u)

abbrev pub has_both : String → String → List String → Bool
has_both h k pool = mem h pool && mem k pool

module _ (h k : String) (distinct : (h == k) ≡ false) where
  pub has_both-large :
      (pool : List String) → (has_both h k) pool ≡ true → ltb 1 (length pool) ≡ true
  has_both-large [] e = ground arith
  has_both-large (x ∷ []) e =
      ground
        (arith, distinct, e, string_eq.eqb_iff x h, string_eq.eqb_iff x k, string_eq.eqb_iff h k)
  has_both-large (x ∷ y ∷ pool) e = ground arith

  has_both-sorted : (pool : List String) → (has_both h k) (sorted pool) ≡ (has_both h k) pool
  has_both-sorted pool = ground (arith, mem-sorted h pool, mem-sorted k pool)

  any-insert_pool :
      (pool : List String) (pools : List (List String))
      → any (has_both h k) (insert_pool pool pools)
        ≡ ((has_both h k) pool || any (has_both h k) pools)
  any-insert_pool pool [] = refl
  any-insert_pool pool (other ∷ pools) = ground (arith, any-insert_pool pool pools)

  any-sorted_pools :
      (pools : List (List String))
      → any (has_both h k) (sorted_pools pools) ≡ any (has_both h k) pools
  any-sorted_pools [] = refl
  any-sorted_pools (pool ∷ pools) =
      ground (arith, any-insert_pool pool (sorted_pools pools), any-sorted_pools pools)

  any-pooled_step :
      (place : Place) (members : List String) (pools : Dict Place (List String))
      → any (has_both h k) (pooled ((place, members) ∷ pools))
        ≡ ((has_both h k) members || any (has_both h k) (pooled pools))
  any-pooled_step place members pools =
      ground (arith, has_both-large members, has_both-sorted members)

  pooled-both :
      (place : Place) (pools : Dict Place (List String))
      → (has_both h k) (members_of place pools) ≡ true
      → any (has_both h k) (pooled pools) ≡ true
  unfolding lookup
  pooled-both place [] e = ground arith
  pooled-both place ((p, ms) ∷ pools) e =
      ground (arith, e, any-pooled_step p ms pools, pooled-both place pools)

  later_place :
      (place p : Place) (ms : List String) (pools : Dict Place (List String))
      → lookup p pools ≡ none
      → (has_both h k) (members_of place pools) ≡ true
      → (has_both h k) (members_of place ((p, ms) ∷ pools)) ≡ true
  unfolding lookup
  later_place place p ms pools absent e = ground (arith, absent, e, pair_eq.eqb_iff p place)

  both-pooled :
      (pools : Dict Place (List String))
      → IsUnique pools
      → any (has_both h k) (pooled pools) ≡ true
      → (place : Place) × ((has_both h k) (members_of place pools) ≡ true)
  unfolding lookup
  both-pooled [] u e = absurd cc
  both-pooled ((p, ms) ∷ pools) u e = elim (Bool-cases (has_both h k ms)) [
    | inl both ↦ (p, ground (arith, both, pair_eq.eqb_iff p p))
    | inr f ↦
        let rest = both-pooled pools u.1 (ground (arith, e, f, any-pooled_step p ms pools)) in
        (rest.0, later_place rest.0 p ms pools u.0 rest.1)
  ]

pub named_place :
    (found : Option Place) (place : Place) → place_of found place ≡ true → found ≡ some place
named_place none place e = absurd cc
named_place (some here) place e = ap some ((pair_eq.eqb_iff here place).0 e)

has_both-place :
    (h k : String) (place : Place) (d : Dict String Place)
    → IsDistinct (keys d)
    → has_both h k (members_of place (gather d [])) ≡ true
      ↔ (lookup h d ≡ some place) × (lookup k d ≡ some place)
unfolding lookup
has_both-place h k place d u = (
  λ e. (
    named_place (lookup h d) place (ground (arith, e, mem-gather h place d [] u)),
    named_place (lookup k d) place (ground (arith, e, mem-gather k place d [] u)),
  ),
  λ both. ground (
    arith,
    both.0,
    both.1,
    mem-gather h place d [] u,
    mem-gather k place d [] u,
    pair_eq.eqb_iff place place,
  ),
)

-- Two hotkeys share a pool exactly when the oldest group that each was in, of those with two or more
-- counted hotkeys, is the same group.
pub duplicate_pools-share :
    (rounds : List IdenticalGroups) (scored : Option (List String)) (h k : String)
    → (h == k) ≡ false
    → any (has_both h k) (duplicate_pools rounds scored) ≡ true
      ↔ (place : Place) × (oldest_in scored 0 rounds h ≡ some place)
        × (oldest_in scored 0 rounds k ≡ some place)
unfolding duplicate_pools lookup
duplicate_pools-share rounds scored h k distinct =
    let assigned = assign_rounds scored 0 rounds in
    let unique = assign_rounds-IsDistinct scored 0 rounds in
    let sort = any-sorted_pools h k distinct (pooled (gather assigned [])) in
    (
      λ e.
          let both =
            both-pooled h k distinct (gather assigned []) (gather-IsUnique assigned [] tt)
              (sym sort ∙ e) in
          let places = (has_both-place h k both.0 assigned unique).0 both.1 in
          (
            both.0,
            sym (lookup-assign_rounds scored 0 rounds h) ∙ places.0,
            sym (lookup-assign_rounds scored 0 rounds k) ∙ places.1,
          ),
      λ same.
          sort
          ∙ pooled-both h k distinct same.0 (gather assigned []) (
              (has_both-place h k same.0 assigned unique).1 (
                lookup-assign_rounds scored 0 rounds h ∙ same.1,
                lookup-assign_rounds scored 0 rounds k ∙ same.2,
              )),
    )
