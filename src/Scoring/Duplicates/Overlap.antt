-- ===== src/Scoring/Duplicates/Overlap.antt =====
-- endure/scoring/duplicates.py: the number of pools that a hotkey is in.
use endure_subnet.Prelude.{
  ℕ, String, true, ◌≡◌, refl, sym, Option, none, some, List, [], ◌∷◌, if◌then◌else◌, arith, ◌≤◌,
  ◌+◌, subst, Bool-cases, inl, inr,
}
use endure_subnet.Prelude.Eq.{pair_eq, nat_eq, string_eq}
use endure_subnet.Prelude.Dict.{Dict, lookup}
use endure_subnet.Prelude.Sets.{mem, mem-sorted}
use endure_subnet.Scoring.Duplicates.{
  Place, IdenticalGroups, assign_rounds, gather, pooled, insert_pool, sorted_pools, duplicate_pools,
}
use endure_subnet.Scoring.Duplicates.Assigned.{assign_rounds-IsDistinct, members_of, mem-gather}
use endure_subnet.Scoring.Duplicates.Pools.{IsUnique, gather-IsUnique, named_place}

module _ (h : String) where
  abbrev pub pools_with : List (List String) → ℕ
  pools_with [] = 0
  pools_with (pool ∷ pools) = (if mem h pool then 1 else 0) + pools_with pools

  pools_with-insert_pool :
      (pool : List String) (pools : List (List String))
      → pools_with (insert_pool pool pools) ≡ pools_with (pool ∷ pools)
  pools_with-insert_pool pool [] = refl
  pools_with-insert_pool pool (other ∷ pools) = ground (arith, pools_with-insert_pool pool pools)

  pools_with-sorted_pools :
      (pools : List (List String)) → pools_with (sorted_pools pools) ≡ pools_with pools
  pools_with-sorted_pools [] = refl
  pools_with-sorted_pools (pool ∷ pools) =
      ground
        (arith, pools_with-insert_pool pool (sorted_pools pools), pools_with-sorted_pools pools)

  abbrev IsAt : Option Place → Dict Place (List String) → Type 0
  IsAt found pools = (q : Place) → mem h (members_of q pools) ≡ true → found ≡ some q

  IsAt-tail :
      (found : Option Place) (p : Place) (ms : List String) (pools : Dict Place (List String))
      → lookup p pools ≡ none
      → IsAt found ((p, ms) ∷ pools)
      → IsAt found pools
  unfolding lookup
  IsAt-tail found p ms pools absent at q e = at q (ground (arith, absent, e, pair_eq.eqb_iff p q))

  IsAt-head :
      (found : Option Place) (p : Place) (ms : List String) (pools : Dict Place (List String))
      → IsAt found ((p, ms) ∷ pools)
      → mem h ms ≡ true
      → found ≡ some p
  unfolding lookup
  IsAt-head found p ms pools at e = at p (ground (arith, e, pair_eq.eqb_iff p p))

  pools_with-elsewhere :
      (p : Place) (pools : Dict Place (List String))
      → lookup p pools ≡ none
      → IsUnique pools
      → IsAt (some p) pools
      → pools_with (pooled pools) ≡ 0
  unfolding lookup
  pools_with-elsewhere p [] absent u at = refl
  pools_with-elsewhere p ((q, ms) ∷ pools) absent u at = ground (
    arith,
    absent,
    mem-sorted h ms,
    IsAt-head (some p) q ms pools at,
    pair_eq.eqb_iff q p,
    pools_with-elsewhere p pools (ground (arith, absent)) u.1
        (IsAt-tail (some p) q ms pools u.0 at),
  )

  pools_with-pooled :
      (found : Option Place) (pools : Dict Place (List String))
      → IsUnique pools
      → IsAt found pools
      → pools_with (pooled pools) ≤ 1
  pools_with-pooled found [] u at = omega arith
  pools_with-pooled found ((q, ms) ∷ pools) u at =
      let tail = IsAt-tail found q ms pools u.0 at in
      elim (Bool-cases (mem h ms)) [
        | inl here ↦
            let none_else =
              pools_with-elsewhere q pools u.0 u.1
                (subst (λ o. IsAt o pools) (IsAt-head found q ms pools at here) tail) in
            ground (arith, none_else, here, mem-sorted h ms)
        | inr f ↦ ground (arith, f, mem-sorted h ms, pools_with-pooled found pools u.1 tail)
      ]

-- No two pools overlap: a hotkey is in one pool at most.
pub duplicate_pools-disjoint :
    (rounds : List IdenticalGroups) (scored : Option (List String)) (h : String)
    → pools_with h (duplicate_pools rounds scored) ≤ 1
unfolding duplicate_pools lookup
duplicate_pools-disjoint rounds scored h =
    let assigned = assign_rounds scored 0 rounds in
    let unique = assign_rounds-IsDistinct scored 0 rounds in
    let pools = gather assigned [] in
    subst (λ n. n ≤ 1) (sym (pools_with-sorted_pools h (pooled pools)))
      (pools_with-pooled h (lookup h assigned) pools (gather-IsUnique assigned [] tt) (λ q e.
        named_place (lookup h assigned) q (ground (arith, e, mem-gather h q assigned [] unique))))
