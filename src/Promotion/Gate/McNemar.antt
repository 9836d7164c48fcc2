-- ===== src/Promotion/Gate/McNemar.antt =====
-- What the exact test of src/e2h/promotion_lifecycle.py counts.
use e2h.Prelude.{
  ℕ, zero, suc, ◌+◌, ◌-◌, ◌^◌, ◌≤◌, ◌<◌, ◌≡◌, ap, sym, refl, Bool, true, false, List, [], ◌∷◌, ◌++◌,
  map, leb, eqb, length, length-map, length-append, count_if, count_if-append, count_if-le-length,
  arith, Bool-cases, inl, inr, ◌||◌,
}
use e2h.Promotion.Gate.{comb, sum_comb, exact_one_sided_mcnemar_tail}

-- All outcomes of so many fair tosses; `true` is a win of the candidate.
abbrev pub outcomes : ℕ → List (List Bool)
outcomes zero = [] ∷ []
outcomes (suc n) = map (λ o. true ∷ o) (outcomes n) ++ map (λ o. false ∷ o) (outcomes n)

abbrev pub wins : List Bool → ℕ
wins outcome = count_if (λ b. b) outcome

-- In how many outcomes the candidate wins at least so often.
abbrev pub at_least : ℕ → ℕ → ℕ
at_least n c = count_if (λ o. leb c (wins o)) (outcomes n)

count_if-map :
    {A : Type 0} (p : A → Bool) (f : A → A) (xs : List A)
    → count_if p (map f xs) ≡ count_if (λ x. p (f x)) xs
count_if-map p f [] = refl
count_if-map p f (x ∷ xs) = omega (arith, count_if-map p f xs)

length-outcomes : (n : ℕ) → length (outcomes n) ≡ 2 ^ n
length-outcomes zero = omega arith
length-outcomes (suc n) = omega (
  arith,
  length-outcomes n,
  length-append (map (λ o. true ∷ o) (outcomes n)) (map (λ o. false ∷ o) (outcomes n)),
  length-map (λ o. true ∷ o) (outcomes n),
  length-map (λ o. false ∷ o) (outcomes n),
)

count_if_cong :
    {A : Type 0} (p q : A → Bool) (xs : List A)
    → ((x : A) → p x ≡ q x)
    → count_if p xs ≡ count_if q xs
count_if_cong p q xs h = ap (λ r. count_if r xs) (λ i x. h x i)

at_least-suc : (n c : ℕ) → at_least (suc n) (suc c) ≡ at_least n c + at_least n (suc c)
at_least-suc n c = omega (
  arith,
  count_if-append (λ o. leb (suc c) (wins o)) (map (λ o. true ∷ o) (outcomes n))
      (map (λ o. false ∷ o) (outcomes n)),
  count_if-map (λ o. leb (suc c) (wins o)) (λ o. true ∷ o) (outcomes n),
  count_if-map (λ o. leb (suc c) (wins o)) (λ o. false ∷ o) (outcomes n),
  count_if_cong (λ o. leb (suc c) (wins (true ∷ o))) (λ o. leb c (wins o)) (outcomes n)
      (λ o. ground arith),
  count_if_cong (λ o. leb (suc c) (wins (false ∷ o))) (λ o. leb (suc c) (wins o)) (outcomes n)
      (λ o. ground arith),
)

at_least_zero : (n : ℕ) → at_least (suc n) 0 ≡ at_least n 0 + at_least n 0
at_least_zero n = omega (
  arith,
  count_if-append (λ o. leb 0 (wins o)) (map (λ o. true ∷ o) (outcomes n))
      (map (λ o. false ∷ o) (outcomes n)),
  count_if-map (λ o. leb 0 (wins o)) (λ o. true ∷ o) (outcomes n),
  count_if-map (λ o. leb 0 (wins o)) (λ o. false ∷ o) (outcomes n),
  count_if_cong (λ o. leb 0 (wins (true ∷ o))) (λ o. leb 0 (wins o)) (outcomes n)
      (λ o. ground arith),
  count_if_cong (λ o. leb 0 (wins (false ∷ o))) (λ o. leb 0 (wins o)) (outcomes n)
      (λ o. ground arith),
)

-- Pascal's rule for the sums.
sum_comb-suc :
    (n start count : ℕ)
    → sum_comb (suc n) (suc start) count ≡ sum_comb n start count + sum_comb n (suc start) count
unfolding sum_comb comb
sum_comb-suc n start zero = omega arith
sum_comb-suc n start (suc count) = omega (arith, sum_comb-suc n (suc start) count)

sum_comb_none : (start count : ℕ) → sum_comb 0 (suc start) count ≡ 0
unfolding sum_comb comb
sum_comb_none start zero = omega arith
sum_comb_none start (suc count) = omega (arith, sum_comb_none (suc start) count)

sum_comb-at_least : (n c count : ℕ) → n < c + count → sum_comb n c count ≡ at_least n c
unfolding sum_comb comb
sum_comb-at_least zero zero zero h = absurd (omega (arith, h))
sum_comb-at_least zero zero (suc count) h = ground (arith, sum_comb_none 0 count)
sum_comb-at_least zero (suc c) count h = ground (arith, sum_comb_none c count)
sum_comb-at_least (suc n) zero zero h = absurd (omega (arith, h))
sum_comb-at_least (suc n) zero (suc count) h = omega (
  arith,
  sum_comb-suc n 0 count,
  sum_comb-at_least n 0 count (omega (arith, h)),
  sum_comb-at_least n 0 (suc count) (omega (arith, h)),
  at_least_zero n,
)
sum_comb-at_least (suc n) (suc c) count h = omega (
  arith,
  sum_comb-suc n c count,
  sum_comb-at_least n c count (omega (arith, h)),
  sum_comb-at_least n (suc c) count (omega (arith, h)),
  at_least-suc n c,
)

-- If the candidate wins more often than the baseline, the p-value is the share of those outcomes of
-- as many fair tosses as there are discordant pairs in which the candidate wins at least as often.
pub mcnemar_tail-at_least :
    (candidate_only baseline_only : ℕ)
    → baseline_only < candidate_only
    → ((exact_one_sided_mcnemar_tail candidate_only baseline_only).numerator
        ≡ at_least (candidate_only + baseline_only) candidate_only)
      × ((exact_one_sided_mcnemar_tail candidate_only baseline_only).denominator
          ≡ length (outcomes (candidate_only + baseline_only)))
unfolding exact_one_sided_mcnemar_tail
mcnemar_tail-at_least c b h =
    let test : (eqb (c + b) 0 || leb c b) ≡ false = ground (arith, h) in
    rw test (
      sum_comb-at_least (c + b) c (suc (c + b) - c) (omega (arith, h)),
      sym (length-outcomes (c + b)),
    )

outcomes_pos : (n : ℕ) → 1 ≤ length (outcomes n)
outcomes_pos zero = omega arith
outcomes_pos (suc n) = omega (
  arith,
  outcomes_pos n,
  length-append (map (λ o. true ∷ o) (outcomes n)) (map (λ o. false ∷ o) (outcomes n)),
  length-map (λ o. true ∷ o) (outcomes n),
)

few_wins :
    (c b : ℕ)
    → leb c b ≡ true
    → ((exact_one_sided_mcnemar_tail c b).numerator ≡ 1)
      × ((exact_one_sided_mcnemar_tail c b).denominator ≡ 1)
unfolding exact_one_sided_mcnemar_tail
few_wins c b h =
    let test : (eqb (c + b) 0 || leb c b) ≡ true = ground (arith, h) in rw test (refl, refl)

-- The p-value lies between zero and one.
pub mcnemar_tail-le :
    (c b : ℕ)
    → ((exact_one_sided_mcnemar_tail c b).numerator
        ≤ (exact_one_sided_mcnemar_tail c b).denominator)
      × (1 ≤ (exact_one_sided_mcnemar_tail c b).denominator)
mcnemar_tail-le c b = elim (Bool-cases (leb c b)) [
  | inl few ↦ let (n, d) = few_wins c b few in omega (arith, n, d)
  | inr more ↦
      let (n, d) = mcnemar_tail-at_least c b (ground (arith, more)) in
      omega (
        arith,
        n,
        d,
        count_if-le-length (λ o. leb c (wins o)) (outcomes (c + b)),
        outcomes_pos (c + b),
      )
]
