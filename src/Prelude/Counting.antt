-- ===== src/Prelude/Counting.antt =====
-- Counting the values of one list that another list holds.
use Prim.Native.Nat.{◌+◌}
use mathlib.Core.Path.{◌≡◌, refl, ap, sym, ◌∙◌}
use mathlib.Core.Bool.{true, false}
use mathlib.Core.Logic.{inl, inr}
use mathlib.Core.List.{List, [], ◌∷◌, ◌++◌}
use native.Mathlib.Omega.{arith}
use e2h.Prelude.Tests.{if◌then◌else◌, Bool-cases}
use e2h.Prelude.Lists.{length, all, count_if}
use e2h.Prelude.Sets.{Eq, ◌==◌, ==-refl, contains, all_unique, all_unique-cons, contains-append}

module _ {ℓ} {A : Type ℓ} ⦃e : Eq A⦄ where
  count-one :
      (x : A) (ys : List A)
      → all_unique ys ≡ true
      → count_if (λ y. x == y) ys ≡ (if contains x ys then 1 else 0)
  count-one x [] h = refl
  count-one x (y ∷ ys) h =
      ground (arith, h, all_unique-cons y ys, count-one x ys, e.equal_iff x y, e.equal_iff y x)

  count-split :
      (x : A) (xs ys : List A)
      → contains x xs ≡ false
      → count_if (λ y. contains y (x ∷ xs)) ys
        ≡ count_if (λ y. x == y) ys + count_if (λ y. contains y xs) ys
  count-split x xs [] h = refl
  count-split x xs (y ∷ ys) h = elim (Bool-cases (x == y)) [
    | inl same ↦
        let here : contains y xs ≡ false =
          ap (λ z. contains z xs) (sym ((e.equal_iff x y).0 same)) ∙ h in
        ground (arith, same, here, count-split x xs ys h)
    | inr differ ↦ ground (arith, differ, count-split x xs ys h)
  ]

  none-counted : (ys : List A) → count_if (λ y. contains y []) ys ≡ 0
  none-counted [] = refl
  none-counted (y ∷ ys) = omega (arith, none-counted ys)

  -- Distinct values that a list of distinct values holds are counted once each.
  pub count_if-contains :
      (xs ys : List A)
      → all_unique xs ≡ true
      → all_unique ys ≡ true
      → all (λ x. contains x ys) xs ≡ true
      → count_if (λ y. contains y xs) ys ≡ length xs
  count_if-contains [] ys h k within_ys = none-counted ys
  count_if-contains (x ∷ xs) ys h k within_ys =
      let cons = all_unique-cons x xs in
      let one = count-one x ys k in
      let rest = count_if-contains xs ys (ground (arith, h, cons)) k (ground (arith, within_ys)) in
      let split = count-split x xs ys (ground (arith, h, cons)) in
      ground (arith, split, one, rest, within_ys)

  -- Two lists of distinct values without a common one are distinct together.
  pub all_unique-append :
      (xs ys : List A)
      → all_unique xs ≡ true
      → all_unique ys ≡ true
      → ((x : A) → contains x xs ≡ true → contains x ys ≡ false)
      → all_unique (xs ++ ys) ≡ true
  all_unique-append [] ys h k apart = k
  all_unique-append (x ∷ xs) ys h k apart =
      let cons = all_unique-cons x xs in
      let rest =
        all_unique-append xs ys (ground (arith, h, cons)) k
          (λ z found. apart z (ground (arith, found))) in
      let fresh = apart x (ground (arith, ==-refl x)) in
      ground (arith, h, cons, rest, fresh, contains-append x xs ys, all_unique-cons x (xs ++ ys))
