-- ===== src/Prelude/Sets.antt =====
-- Equality tests as an interface, and what Python's `in` and `set` are used for.
use Prim.Native.Nat.{ℕ, ◌≤◌}
use Prim.Native.String.{String}
use text.Mathlib.Text.{◌==◌ as str_eq}
use text.Mathlib.TextEquality.{eq_iff}
use mathlib.Core.Path.{◌≡◌, refl}
use mathlib.Core.Logic.{◌↔◌}
use mathlib.Core.Bool.{Bool, true, false, not, ◌&&◌, ◌||◌, decide, decide_iff}
use mathlib.Core.List.{List, [], ◌∷◌, ◌++◌}
use native.Mathlib.Omega.{arith}
use e2h.Prelude.Tests.{if◌then◌else◌, eqb, eqb_iff}
use e2h.Prelude.Lists.{length}

-- A type whose values Python compares by `==`.
pub record Eq {ℓ} (A : Type ℓ) : Type ℓ where
  pub equal : A → A → Bool
  pub equal_iff : (a b : A) → (equal a b ≡ true) ↔ (a ≡ b)

infix 50 ◌==◌
abbrev pub ◌==◌ {ℓ} : {A : Type ℓ} ⦃e : Eq A⦄ → A → A → Bool
◌==◌ ⦃e⦄ = e.equal

instance abbrev pub number_eq : Eq ℕ
number_eq = record { equal = eqb; equal_iff = eqb_iff }

instance abbrev pub text_eq : Eq String
text_eq = record { equal = str_eq; equal_iff = eq_iff }

-- The test that a decision gives; enumerations use it.
abbrev pub eq_of {ℓ} : {A : Type ℓ} → Discrete A → Eq A
eq_of d = record { equal = λ a b. decide (d a b); equal_iff = λ a b. decide_iff (d a b) }

module _ {ℓ} {A : Type ℓ} ⦃e : Eq A⦄ where
  pub ==-refl : (a : A) → (a == a) ≡ true
  ==-refl a = (e.equal_iff a a).1 refl

  pub ==→≡ : (a b : A) → (a == b) ≡ true → a ≡ b
  ==→≡ a b h = (e.equal_iff a b).0 h

  pub ≡→== : (a b : A) → a ≡ b → (a == b) ≡ true
  ≡→== a b h = (e.equal_iff a b).1 h

  -- `a in xs`
  abbrev pub contains : A → List A → Bool
  contains a [] = false
  contains a (x ∷ xs) = (x == a) || contains a xs

  -- `len(set(xs))` counts each value once.
  abbrev pub set_of : List A → List A
  set_of [] = []
  set_of (x ∷ xs) = if contains x xs then set_of xs else x ∷ set_of xs

  -- `len(xs) == len(set(xs))`
  abbrev pub all_unique : List A → Bool
  all_unique xs = eqb (length xs) (length (set_of xs))

  pub length-set_of-le : (xs : List A) → length (set_of xs) ≤ length xs
  length-set_of-le [] = omega arith
  length-set_of-le (x ∷ xs) = ground (arith, length-set_of-le xs)

  -- The length test decides the element-wise one.
  pub all_unique-cons :
      (x : A) (xs : List A) → all_unique (x ∷ xs) ≡ (not (contains x xs) && all_unique xs)
  all_unique-cons x xs = ground (arith, length-set_of-le xs)

  pub contains-append :
      (a : A) (xs ys : List A) → contains a (xs ++ ys) ≡ (contains a xs || contains a ys)
  contains-append a [] ys = refl
  contains-append a (x ∷ xs) ys = ground (arith, contains-append a xs ys)
