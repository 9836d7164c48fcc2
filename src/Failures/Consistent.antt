-- ===== src/Failures/Consistent.antt =====
-- What the validation of a summary derives from the codes that were counted
-- (src/e2h/failures.py, `counts_must_be_consistent`).
pub mod OnCodes
pub mod Total
use e2h.Prelude.{
  ℕ, zero, suc, ◌+◌, ◌≤◌, ◌<◌, ◌≡◌, refl, sym, ap, ◌∙◌, Bool, true, false, not, ◌&&◌, ◌||◌, String,
  Option, none, some, List, [], ◌∷◌, ◌==◌, ltb, leb, eqb, length, map, any, count_if, if◌then◌else◌,
  Eq, text_eq, number_eq, arith, Bool-cases, Option-cases, inl, inr, decide, ==-refl,
}
use e2h.Result.{Result, ok, err, ◌>>=◌}
use e2h.Values.Data.{PyRuntime}
use e2h.Dict.{Dict, lookup, sort_items, same_items, sum_values, add_counts}
use e2h.Dict.Lookup.{IsDict, sort_items-IsDict, lookup-sort_items, same_items_intro}
use e2h.Dict.Tally.{
  sum_if, has_empty, sum_if-add_counts, sum_if-sort_items, add_counts-IsDict, has_empty-add_counts,
  has_empty-sort_items, lookup-eq-sum,
}
use e2h.Failures
use e2h.Failures.{
  FailureCode, FailureImpact, FailureImpact-discrete, FailureCode-discrete, code_value,
  code_category, category_value, code_impact, impact_primary_rank, impact_eq, code_eq,
  evaluation_failure, infrastructure_error, not_evaluated,
}
use e2h.Failures.Record.{FailureRecord}
use e2h.Failures.Summary.{
  SummaryError, FailureSummary, code_counts, expected_categories, expected_impact, code_rank,
  best_rank, primary_of, primary_must_be_first, counts_must_be_consistent, summary_of, is_none,
  primary_counted,
}
use e2h.Failures.Counts.{
  sum_codes, has_zero, codes_counted, categories_counted, counted-filled, counted-IsDict,
  sum_if-counted, sum_values-counted, codes_counted-Reads,
}

pub expected_impact-eq :
    (i : FailureImpact) (counts : List (FailureCode × ℕ))
    → expected_impact i counts ≡ sum_codes (λ c. code_impact c == i) counts
unfolding expected_impact
expected_impact-eq i [] = refl
expected_impact-eq i ((c, n) ∷ counts) = omega (arith, expected_impact-eq i counts)

one_impact :
    (i : FailureImpact)
    → (if i == evaluation_failure then 1 else 0)
        + (if i == infrastructure_error then 1 else 0)
        + (if i == not_evaluated then 1 else 0)
      ≡ 1
unfolding FailureImpact-discrete decide
one_impact evaluation_failure = refl
one_impact infrastructure_error = refl
one_impact not_evaluated = refl

-- Every code has one of the three impacts.
pub impacts-total :
    (cs : List FailureCode)
    → count_if (λ c. code_impact c == evaluation_failure) cs
        + count_if (λ c. code_impact c == infrastructure_error) cs
        + count_if (λ c. code_impact c == not_evaluated) cs
      ≡ length cs
impacts-total [] = omega arith
impacts-total (c ∷ cs) = omega (arith, impacts-total cs, one_impact (code_impact c))

sum_if-categories :
    (p : String → Bool) (counts : List (FailureCode × ℕ))
    → sum_if p (map (λ item. (category_value (code_category item.0), item.1)) counts)
      ≡ sum_codes (λ c. p (category_value (code_category c))) counts
sum_if-categories p [] = refl
sum_if-categories p ((c, n) ∷ counts) = omega (arith, sum_if-categories p counts)

filled-categories :
    (counts : List (FailureCode × ℕ))
    → has_empty (map (λ item. (category_value (code_category item.0), item.1)) counts)
      ≡ has_zero counts
filled-categories [] = refl
filled-categories ((c, n) ∷ counts) = rw (filled-categories counts) refl

pub count_if-map :
    (p : String → Bool) (f : FailureCode → String) (cs : List FailureCode)
    → count_if p (map f cs) ≡ count_if (λ c. p (f c)) cs
count_if-map p f [] = refl
count_if-map p f (c ∷ cs) = omega (arith, count_if-map p f cs)

-- The categories that the validator derives from the codes are those that were counted.
pub categories_agree :
    (cs : List FailureCode) (counts : List (FailureCode × ℕ))
    → ((q : FailureCode → Bool) → sum_codes q counts ≡ count_if q cs)
    → has_zero counts ≡ false
    → same_items (categories_counted cs) (sort_items (expected_categories counts)) ≡ true
unfolding expected_categories
categories_agree cs counts sums filled =
    same_items_intro (categories_counted cs) (sort_items (add_counts [] items))
      (counted-IsDict keys) expected_IsDict agree
  where
    items : List (String × ℕ)
    items = map (λ item. (category_value (code_category item.0), item.1)) counts

    keys : List String
    keys = map (λ c. category_value (code_category c)) cs

    expected_IsDict : IsDict (sort_items (add_counts [] items))
    expected_IsDict = sort_items-IsDict _ (add_counts-IsDict [] items tt)

    expected_filled : has_empty (sort_items (add_counts [] items)) ≡ false
    expected_filled =
        has_empty-sort_items _
          (has_empty-add_counts [] items (filled-categories counts ∙ filled) refl)

    same_sum :
        (k : String)
        → sum_if (λ j. j == k) (categories_counted cs)
          ≡ sum_if (λ j. j == k) (sort_items (add_counts [] items))
    same_sum k = omega (
      arith,
      sum_if-counted (λ j. j == k) keys,
      count_if-map (λ j. j == k) (λ c. category_value (code_category c)) cs,
      sums (λ c. category_value (code_category c) == k),
      sum_if-categories (λ j. j == k) counts,
      sum_if-sort_items (λ j. j == k) (add_counts [] items),
      sum_if-add_counts (λ j. j == k) [] items,
    )

    agree :
        (k : String)
        → lookup k (categories_counted cs) ≡ lookup k (sort_items (add_counts [] items))
    agree k =
        rw
          (
            lookup-eq-sum k (categories_counted cs) (counted-IsDict keys) (counted-filled keys),
            lookup-eq-sum k (sort_items (add_counts [] items)) expected_IsDict expected_filled,
            same_sum k,
          )
          refl

best_rank-ge :
    (r r' : ℕ) (counts : List (FailureCode × ℕ))
    → has_zero counts ≡ false
    → sum_codes (λ c. ltb (code_rank c) r) counts ≡ 0
    → best_rank counts ≡ some r'
    → r ≤ r'
unfolding best_rank
best_rank-ge r r' [] f z e = cc
best_rank-ge r r' ((c, n) ∷ counts) f z e = elim (Option-cases (best_rank counts)) [
  | inl nothing ↦ ground (arith, nothing)
  | inr (b, found) ↦ ground (arith, found, best_rank-ge r b counts)
]

-- The least rank is the one that occurs and has none below it.
pub best_rank-eq :
    (r : ℕ) (counts : List (FailureCode × ℕ))
    → has_zero counts ≡ false
    → sum_codes (λ c. ltb (code_rank c) r) counts ≡ 0
    → 0 < sum_codes (λ c. eqb (code_rank c) r) counts
    → best_rank counts ≡ some r
unfolding best_rank
best_rank-eq r [] f z p = absurd (omega arith)
best_rank-eq r ((c, n) ∷ counts) f z p = elim (Option-cases (best_rank counts)) [
  | inl nothing ↦ ground (arith, nothing, best_rank-eq r counts)
  | inr (b, found) ↦ ground (arith, found, best_rank-ge r b counts, best_rank-eq r counts)
]
