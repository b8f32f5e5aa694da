-- ===== src/Prelude/Dict.antt =====
-- Dictionaries and tables with a unique key, as association lists in insertion order.
use mathlib.Core.Path.{◌≡◌, refl, sym, ap, ◌∙◌}
use mathlib.Core.Logic.{inl, inr}
use mathlib.Core.Bool.{Bool, true, false}
use mathlib.Core.Option.{Option, none, some}
use mathlib.Core.List.{List, [], ◌∷◌}
use native.Mathlib.Omega.{arith}
use endure_subnet.Prelude.Lists.{any}
use endure_subnet.Prelude.Tests.{if◌then◌else◌, Bool-cases, Option-cases}
use endure_subnet.Prelude.Eq.{Eq, ◌==◌}

abbrev pub Dict : Type 0 → Type 0 → Type 0
Dict K V = List (K × V)

-- An option, or where it is empty another one
abbrev pub first_of : {V : Type 0} → Option V → Option V → Option V
first_of none o = o
first_of (some v) o = some v

first_of_assoc :
    {V : Type 0} (a b c : Option V) → first_of (first_of a b) c ≡ first_of a (first_of b c)
first_of_assoc none b c = refl
first_of_assoc (some v) b c = refl

first_of-none : {V : Type 0} (o : Option V) → o ≡ first_of o none
first_of-none none = refl
first_of-none (some v) = refl

first_of_if :
    {V : Type 0} (b : Bool) (v : V) (o : Option V)
    → (if b then some v else o) ≡ first_of (if b then some v else none) o
first_of_if true v o = refl
first_of_if false v o = refl

module _ {K V : Type 0} ⦃e : Eq K⦄ where
  unfoldable pub lookup : K → Dict K V → Option V
  lookup k [] = none
  lookup k ((j, v) ∷ d) = if j == k then some v else lookup k d

  -- `d[k] = v`, or the insertion of a row under a key that no row has
  unfoldable pub insert : K → V → Dict K V → Dict K V
  insert k v [] = (k, v) ∷ []
  insert k v ((j, w) ∷ d) = if j == k then (k, v) ∷ d else (j, w) ∷ insert k v d

  -- `d.pop(k, None)`
  unfoldable pub erase : K → Dict K V → Dict K V
  erase k [] = []
  erase k ((j, w) ∷ d) = let rest = erase k d in if j == k then rest else (j, w) ∷ rest

  pub lookup-insert :
      (k j : K) (v : V) (d : Dict K V)
      → lookup j (insert k v d) ≡ (if k == j then some v else lookup j d)
  unfolding lookup insert
  lookup-insert k j v [] = refl
  lookup-insert k j v ((i, w) ∷ d) =
      ground (arith, e.eqb_iff k j, e.eqb_iff i k, e.eqb_iff i j, lookup-insert k j v d)

  pub lookup-erase :
      (k j : K) (d : Dict K V) → lookup j (erase k d) ≡ (if k == j then none else lookup j d)
  unfolding lookup erase
  lookup-erase k j [] = ground arith
  lookup-erase k j ((i, w) ∷ d) =
      ground (arith, e.eqb_iff k j, e.eqb_iff i k, e.eqb_iff i j, lookup-erase k j d)

  pub lookup-insert_self : (k : K) (v : V) (d : Dict K V) → lookup k (insert k v d) ≡ some v
  lookup-insert_self k v d = ground (arith, lookup-insert k k v d, e.eqb_iff k k)

  -- `INSERT ... ON CONFLICT DO NOTHING`
  abbrev pub insert_absent : K → V → Dict K V → Dict K V
  insert_absent k v d = elim (lookup k d) [ none ↦ insert k v d | some _ ↦ d ]

  pub lookup-insert_absent :
      (k j : K) (v : V) (d : Dict K V)
      → lookup j (insert_absent k v d) ≡ first_of (lookup j d) (if k == j then some v else none)
  lookup-insert_absent k j v d =
      ground (arith, e.eqb_iff k j, Option-cases (lookup k d), lookup-insert k j v d)

  -- A loop that inserts a row for each of `rs`
  module _ {R : Type 0} (row : R → K × V) where
    unfoldable pub insert_rows : List R → Dict K V → Dict K V
    insert_rows [] d = d
    insert_rows (r ∷ rs) d = insert_rows rs (insert_absent (row r).0 (row r).1 d)

    -- A loop that inserts or overwrites a row for each of `rs`
    unfoldable pub upsert_rows : List R → Dict K V → Dict K V
    upsert_rows [] d = d
    upsert_rows (r ∷ rs) d = upsert_rows rs (insert (row r).0 (row r).1 d)

    -- The rows under a key: the first of them, and the last
    abbrev pub first_row : K → List R → Option V
    first_row k [] = none
    first_row k (r ∷ rs) =
        first_of (if (row r).0 == k then some (row r).1 else none) (first_row k rs)

    abbrev pub last_row : K → List R → Option V
    last_row k [] = none
    last_row k (r ∷ rs) = first_of (last_row k rs) (if (row r).0 == k then some (row r).1 else none)

    pub lookup-insert_rows :
        (k : K) (rs : List R) (d : Dict K V)
        → lookup k (insert_rows rs d) ≡ first_of (lookup k d) (first_row k rs)
    unfolding insert_rows
    lookup-insert_rows k [] d = first_of-none (lookup k d)
    lookup-insert_rows k (r ∷ rs) d =
        lookup-insert_rows k rs (insert_absent (row r).0 (row r).1 d)
        ∙ ap (λ o. first_of o (first_row k rs)) (lookup-insert_absent (row r).0 k (row r).1 d)
        ∙ first_of_assoc (lookup k d) (if (row r).0 == k then some (row r).1 else none)
            (first_row k rs)

    pub lookup-upsert_rows :
        (k : K) (rs : List R) (d : Dict K V)
        → lookup k (upsert_rows rs d) ≡ first_of (last_row k rs) (lookup k d)
    unfolding upsert_rows
    lookup-upsert_rows k [] d = refl
    lookup-upsert_rows k (r ∷ rs) d =
        lookup-upsert_rows k rs (insert (row r).0 (row r).1 d)
        ∙ ap (first_of (last_row k rs)) (
            lookup-insert (row r).0 k (row r).1 d
            ∙ first_of_if ((row r).0 == k) (row r).1 (lookup k d))
        ∙ sym (
            first_of_assoc (last_row k rs) (if (row r).0 == k then some (row r).1 else none)
              (lookup k d))

  -- `DELETE ... WHERE` on the keys
  unfoldable pub erase_where : (K → Bool) → Dict K V → Dict K V
  erase_where p [] = []
  erase_where p ((k, v) ∷ d) = let rest = erase_where p d in if p k then rest else (k, v) ∷ rest

  pub lookup-erase_where :
      (p : K → Bool) (j : K) (d : Dict K V)
      → lookup j (erase_where p d) ≡ (if p j then none else lookup j d)
  unfolding lookup erase_where
  lookup-erase_where p j [] = ground arith
  lookup-erase_where p j ((k, v) ∷ d) = elim (Bool-cases (k == j)) [
    | inl same ↦
        rw ((e.eqb_iff k j).0 same) (ground (arith, lookup-erase_where p j d, e.eqb_iff j j))
    | inr other ↦ ground (arith, other, lookup-erase_where p j d)
  ]

  -- No key twice
  abbrev pub HasUniqueKeys : Dict K V → Type 0
  HasUniqueKeys [] = Unit
  HasUniqueKeys ((k, v) ∷ d) = (lookup k d ≡ none) × HasUniqueKeys d

  pub insert-HasUniqueKeys :
      (k : K) (v : V) (d : Dict K V) → HasUniqueKeys d → HasUniqueKeys (insert k v d)
  unfolding lookup insert
  insert-HasUniqueKeys k v [] h = (refl, tt)
  insert-HasUniqueKeys k v ((j, w) ∷ d) h = ground (
    arith,
    h.0,
    h.1,
    insert-HasUniqueKeys k v d h.1,
    lookup-insert k j v d,
    e.eqb_iff j k,
    e.eqb_iff k j,
  )

  abbrev pub has_entry : K → Dict K V → Bool
  has_entry k d = any (λ ((j, _) : K × V). j == k) d

  pub has_entry-insert :
      (k j : K) (v : V) (d : Dict K V)
      → (j == k) ≡ false
      → has_entry k d ≡ false
      → has_entry k (insert j v d) ≡ false
  unfolding insert
  has_entry-insert k j v [] other h = ground (arith, other)
  has_entry-insert k j v ((i, w) ∷ d) other h =
      ground (arith, other, h, has_entry-insert k j v d other)
