-- ===== src/Prelude/Lists.antt =====
-- Lists measured and indexed by the native numbers, under the library's names.
use Prim.Native.Nat.{ℕ, zero, suc, ◌+◌}
use mathlib.Core.Path.{◌≡◌, refl, ap}
use mathlib.Core.Bool.{Bool, true, false, ◌&&◌, ◌||◌}
use mathlib.Core.List.{List, [], ◌∷◌, ◌++◌}
use mathlib.Core.Option.{Option, none, some}
use native.Mathlib.Omega.{arith}
use endure_subnet.Prelude.Tests.{if◌then◌else◌}

module _ {ℓ} {A : Type ℓ} where
  abbrev pub length : List A → ℕ
  length [] = 0
  length (x ∷ xs) = suc (length xs)

  abbrev pub get_elem? : List A → ℕ → Option A
  get_elem? [] i = none
  get_elem? (x ∷ xs) zero = some x
  get_elem? (x ∷ xs) (suc i) = get_elem? xs i

  abbrev pub take : ℕ → List A → List A
  take zero xs = []
  take (suc n) [] = []
  take (suc n) (x ∷ xs) = x ∷ take n xs

  abbrev pub drop : ℕ → List A → List A
  drop zero xs = xs
  drop (suc n) [] = []
  drop (suc n) (x ∷ xs) = drop n xs

  abbrev pub any : (A → Bool) → List A → Bool
  any p [] = false
  any p (x ∷ xs) = p x || any p xs

  abbrev pub all : (A → Bool) → List A → Bool
  all p [] = true
  all p (x ∷ xs) = p x && all p xs

  abbrev pub All {κ} : (A → Type κ) → List A → Type κ
  All P [] = Unit
  All P (x ∷ xs) = P x × All P xs

  -- `sorted`: stable, with `goes_after a b` for a > b
  abbrev pub insert_by : (A → A → Bool) → A → List A → List A
  insert_by goes_after x [] = x ∷ []
  insert_by goes_after x (y ∷ ys) =
      let rest = insert_by goes_after x ys in if goes_after x y then y ∷ rest else x ∷ y ∷ ys

  abbrev pub sort_by : (A → A → Bool) → List A → List A
  sort_by goes_after [] = []
  sort_by goes_after (x ∷ xs) = insert_by goes_after x (sort_by goes_after xs)

  pub any-insert_by :
      (p : A → Bool) (goes_after : A → A → Bool) (x : A) (xs : List A)
      → any p (insert_by goes_after x xs) ≡ (p x || any p xs)
  any-insert_by p goes_after x [] = refl
  any-insert_by p goes_after x (y ∷ ys) = ground (arith, any-insert_by p goes_after x ys)

  pub any-sort_by :
      (p : A → Bool) (goes_after : A → A → Bool) (xs : List A)
      → any p (sort_by goes_after xs) ≡ any p xs
  any-sort_by p goes_after [] = refl
  any-sort_by p goes_after (x ∷ xs) =
      ground
        (arith, any-insert_by p goes_after x (sort_by goes_after xs), any-sort_by p goes_after xs)

  pub any-append : (p : A → Bool) (xs ys : List A) → any p (xs ++ ys) ≡ (any p xs || any p ys)
  any-append p [] ys = refl
  any-append p (x ∷ xs) ys = ground (arith, any-append p xs ys)

  pub length-append : (xs ys : List A) → length (xs ++ ys) ≡ length xs + length ys
  length-append [] ys = omega arith
  length-append (x ∷ xs) ys = omega (arith, length-append xs ys)

  tail_eq : {x y : A} {xs ys : List A} → ◌≡◌ {A = List A} (x ∷ xs) (y ∷ ys) → xs ≡ ys
  tail_eq e = cc

  -- Two lists that end in parts of one length agree in both parts.
  pub append-injective :
      (xs ys ends ends' : List A)
      → length ends ≡ length ends'
      → xs ++ ends ≡ ys ++ ends'
      → (xs ≡ ys) × (ends ≡ ends')
  append-injective [] [] ends ends' n e = (refl, e)
  append-injective [] (y ∷ ys) ends ends' n e =
      absurd (omega (arith, n, ap length e, length-append ys ends'))
  append-injective (x ∷ xs) [] ends ends' n e =
      absurd (omega (arith, n, ap length e, length-append xs ends))
  append-injective (x ∷ xs) (y ∷ ys) ends ends' n e =
      let tails = append-injective xs ys ends ends' n (tail_eq e) in (cc, tails.1)
