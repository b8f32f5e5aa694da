-- ===== src/Prelude/Sets.antt =====
-- Lists read as sets of texts, and the tables that loops over them write.
use Prim.Native.String.{String, compare}
use Prim.Native.Nat.{Ordering}
use mathlib.Core.Path.{◌≡◌, refl}
use mathlib.Core.Bool.{Bool, false, ◌&&◌, ◌||◌}
use mathlib.Core.List.{List, [], ◌∷◌, ◌++◌}
use mathlib.Core.Option.{none}
use native.Mathlib.Omega.{arith}
use endure_subnet.Prelude.Tests.{if◌then◌else◌, is_some}
use endure_subnet.Prelude.Eq.{◌==◌, string_eq}
use endure_subnet.Prelude.Dict.{Dict, lookup, erase, lookup-erase}

abbrev pub mem : String → List String → Bool
mem h [] = false
mem h (k ∷ ks) = k == h || mem h ks

abbrev pub filter : (String → Bool) → List String → List String
filter p [] = []
filter p (k ∷ ks) = let rest = filter p ks in if p k then k ∷ rest else rest

abbrev pub unique : List String → List String
unique [] = []
unique (k ∷ ks) = let rest = unique ks in if mem k ks then rest else k ∷ rest

abbrev pub IsDistinct : List String → Type 0
IsDistinct [] = Unit
IsDistinct (k ∷ ks) = (mem k ks ≡ false) × IsDistinct ks

abbrev pub keys {ℓ} : {V : Type ℓ} → List (String × V) → List String
keys [] = []
keys ((k, _) ∷ d) = k ∷ keys d

-- `sorted`, on texts
abbrev insert_sorted : String → List String → List String
insert_sorted k [] = k ∷ []
insert_sorted k (j ∷ ks) =
    let rest = insert_sorted k ks in elim (compare k j) [ Ordering.gt ↦ j ∷ rest | _ ↦ k ∷ j ∷ ks ]

abbrev pub sorted : List String → List String
sorted [] = []
sorted (k ∷ ks) = insert_sorted k (sorted ks)

pub mem-append : (h : String) (xs ys : List String) → mem h (xs ++ ys) ≡ (mem h xs || mem h ys)
mem-append h [] ys = refl
mem-append h (x ∷ xs) ys = ground (arith, mem-append h xs ys)

pub mem-filter :
    (p : String → Bool) (h : String) (xs : List String) → mem h (filter p xs) ≡ (mem h xs && p h)
mem-filter p h [] = refl
mem-filter p h (x ∷ xs) = ground (arith, mem-filter p h xs, string_eq.eqb_iff x h)

pub mem-unique : (h : String) (xs : List String) → mem h (unique xs) ≡ mem h xs
mem-unique h [] = refl
mem-unique h (x ∷ xs) = ground (arith, mem-unique h xs, string_eq.eqb_iff x h)

pub unique-IsDistinct : (xs : List String) → IsDistinct (unique xs)
unique-IsDistinct [] = tt
unique-IsDistinct (x ∷ xs) = ground (arith, unique-IsDistinct xs, mem-unique x xs)

mem-insert_sorted : (h k : String) (xs : List String) → mem h (insert_sorted k xs) ≡ mem h (k ∷ xs)
mem-insert_sorted h k [] = refl
mem-insert_sorted h k (x ∷ xs) = ground (arith, mem-insert_sorted h k xs)

pub mem-sorted : (h : String) (xs : List String) → mem h (sorted xs) ≡ mem h xs
mem-sorted h [] = refl
mem-sorted h (x ∷ xs) = ground (arith, mem-insert_sorted h x (sorted xs), mem-sorted h xs)

module _ {V : Type 0} where
  pub mem-keys : (h : String) (d : Dict String V) → mem h (keys d) ≡ is_some (lookup h d)
  unfolding lookup
  mem-keys h [] = refl
  mem-keys h ((k, v) ∷ d) = ground (arith, mem-keys h d)

  -- `for key in ks: d.pop(key, None)`
  unfoldable pub erase_all : List String → Dict String V → Dict String V
  erase_all [] d = d
  erase_all (k ∷ ks) d = erase_all ks (erase k d)

  pub lookup-erase_all :
      (h : String) (ks : List String) (d : Dict String V)
      → lookup h (erase_all ks d) ≡ (if mem h ks then none else lookup h d)
  unfolding erase_all
  lookup-erase_all h [] d = refl
  lookup-erase_all h (k ∷ ks) d =
      ground (arith, lookup-erase_all h ks (erase k d), lookup-erase k h d, string_eq.eqb_iff k h)
