-- ===== src/Prelude/Eq.antt =====
-- Boolean equality as an instance: numbers, texts, options, lists, pairs and triples.
use text.Mathlib.Text.{◌==◌ as text_eqb}
use text.Mathlib.TextEquality.{eq_iff}
use Prim.Native.Nat.{ℕ}
use Prim.Native.String.{String}
use mathlib.Core.Path.{◌≡◌, refl}
use mathlib.Core.Logic.{◌↔◌}
use mathlib.Core.Bool.{Bool, true, false, ◌&&◌}
use mathlib.Core.Option.{Option, none, some}
use mathlib.Core.List.{List, [], ◌∷◌}
use native.Mathlib.Omega.{arith}
use endure_subnet.Prelude.Tests.{nat_beq, nat_beq_iff}

-- A type with a test for the equality of its values.
pub record Eq {ℓ} (X : Type ℓ) : Type ℓ where
  pub eqb : X → X → Bool
  pub eqb_iff : (x y : X) → (eqb x y ≡ true) ↔ (x ≡ y)

module _ {ℓ} {X : Type ℓ} ⦃e : Eq X⦄ where
  infix 50 ◌==◌
  abbrev pub ◌==◌ : X → X → Bool
  x == y = e.eqb x y

abbrev flip : Bool → Bool
flip true = false
flip false = true

module _ {ℓ} {X : Type ℓ} ⦃e : Eq X⦄ where
  infix 50 ◌/=◌
  abbrev pub ◌/=◌ : X → X → Bool
  x /= y = flip (e.eqb x y)

instance abbrev pub nat_eq : Eq ℕ
nat_eq = record { eqb_iff = nat_beq_iff; eqb = nat_beq }

instance abbrev pub string_eq : Eq String
string_eq = record { eqb_iff = eq_iff; eqb = text_eqb }

module _ {A : Type 0} (e : Eq A) where
  abbrev pub option_beq : Option A → Option A → Bool
  option_beq none none = true
  option_beq (some a) (some b) = e.eqb a b
  option_beq _ _ = false

  pub option_beq_iff : (a b : Option A) → (option_beq a b ≡ true) ↔ (a ≡ b)
  option_beq_iff none none = ground arith
  option_beq_iff none (some b) = ground arith
  option_beq_iff (some a) none = ground arith
  option_beq_iff (some a) (some b) = ground (arith, e.eqb_iff a b)

instance abbrev pub option_eq : {A : Type 0} ⦃e : Eq A⦄ → Eq (Option A)
option_eq ⦃e⦄ = record { eqb = option_beq e; eqb_iff = option_beq_iff e }

module _ {A B : Type 0} (e : Eq A) (f : Eq B) where
  abbrev pub pair_beq : A × B → A × B → Bool
  pair_beq (a, b) (c, d) = e.eqb a c && f.eqb b d

  pub pair_beq_iff : (p q : A × B) → (pair_beq p q ≡ true) ↔ (p ≡ q)
  pair_beq_iff (a, b) (c, d) = ground (arith, e.eqb_iff a c, f.eqb_iff b d)

instance abbrev pub pair_eq : {A B : Type 0} ⦃e : Eq A⦄ ⦃f : Eq B⦄ → Eq (A × B)
pair_eq ⦃e⦄ ⦃f⦄ = record { eqb = pair_beq e f; eqb_iff = pair_beq_iff e f }

module _ {A B C : Type 0} (e : Eq A) (f : Eq B) (g : Eq C) where
  abbrev pub triple_beq : A × B × C → A × B × C → Bool
  triple_beq (a, b, c) (a', b', c') = e.eqb a a' && (f.eqb b b' && g.eqb c c')

  pub triple_beq_iff : (p q : A × B × C) → (triple_beq p q ≡ true) ↔ (p ≡ q)
  triple_beq_iff (a, b, c) (a', b', c') =
      ground (arith, e.eqb_iff a a', f.eqb_iff b b', g.eqb_iff c c')

instance abbrev pub triple_eq : {A B C : Type 0} ⦃e : Eq A⦄ ⦃f : Eq B⦄ ⦃g : Eq C⦄ → Eq (A × B × C)
triple_eq ⦃e⦄ ⦃f⦄ ⦃g⦄ = record { eqb = triple_beq e f g; eqb_iff = triple_beq_iff e f g }

module _ {A : Type 0} (e : Eq A) where
  abbrev pub list_beq : List A → List A → Bool
  list_beq [] [] = true
  list_beq (a ∷ xs) (b ∷ ys) = e.eqb a b && list_beq xs ys
  list_beq _ _ = false

  pub list_beq_iff : (xs ys : List A) → (list_beq xs ys ≡ true) ↔ (xs ≡ ys)
  list_beq_iff [] [] = ground arith
  list_beq_iff [] (b ∷ ys) = ground arith
  list_beq_iff (a ∷ xs) [] = ground arith
  list_beq_iff (a ∷ xs) (b ∷ ys) = ground (arith, e.eqb_iff a b, list_beq_iff xs ys)

instance abbrev pub list_eq : {A : Type 0} ⦃e : Eq A⦄ → Eq (List A)
list_eq ⦃e⦄ = record { eqb = list_beq e; eqb_iff = list_beq_iff e }

pub ==_refl {ℓ} : {A : Type ℓ} ⦃e : Eq A⦄ (a : A) → (a == a) ≡ true
==_refl ⦃e⦄ a = (e.eqb_iff a a).1 refl

-- Equality of an enumeration, by its decision.
abbrev pub test_of {ℓ} : {P : Type ℓ} → Dec P → Bool
test_of (yes _) = true
test_of (no _) = false

pub test_of_iff {ℓ} : {P : Type ℓ} (d : Dec P) → (test_of d ≡ true) ↔ P
test_of_iff (yes p) = (λ _. p, λ _. refl)
test_of_iff (no n) = (λ e. cc, λ p. absurd (n p))

abbrev pub eq_by {ℓ} : {A : Type ℓ} → Discrete A → Eq A
eq_by d = record { eqb = λ a b. test_of (d a b); eqb_iff = λ a b. test_of_iff (d a b) }
