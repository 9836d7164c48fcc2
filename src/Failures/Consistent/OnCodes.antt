-- ===== src/Failures/Consistent/OnCodes.antt =====
-- The summary of a list of codes passes the validation of src/e2h/failures.py.
use e2h.Prelude.{
  ℕ, suc, ◌≤◌, ◌<◌, ◌≡◌, refl, ap, ◌∙◌, Bool, true, false, String, some, List, [], ◌∷◌, ◌==◌, ltb,
  eqb, length, map, count_if, count_if-le-length, text_eq, number_eq, arith, ==-refl, ==→≡, ≡→==,
}
use e2h.Result.{ok}
use e2h.Dict.Tally.{lookup-eq-sum}
use e2h.Failures.{
  FailureCode, code_value, code_category, category_value, code_impact, impact_eq, code_eq,
  evaluation_failure, infrastructure_error, not_evaluated,
}
use e2h.Failures.Summary.{
  FailureSummary, code_rank, best_rank, primary_must_be_first, counts_must_be_consistent,
  primary_counted,
}
use e2h.Failures.Counts.{
  sum_codes, has_zero, codes_counted, categories_counted, counted-filled, counted-IsDict,
  sum_if-counted, sum_values-counted, codes_counted-Reads,
}
use e2h.Failures.Consistent.{
  expected_impact-eq, impacts-total, categories_agree, best_rank-eq, count_if-map,
}

pub count_if_mono :
    {A : Type 0} (p q : A → Bool) (xs : List A)
    → ((x : A) → p x ≡ true → q x ≡ true)
    → count_if p xs ≤ count_if q xs
count_if_mono p q [] f = omega arith
count_if_mono p q (x ∷ xs) f = ground (arith, f x, count_if_mono p q xs f)

length-map : {A B : Type 0} (f : A → B) (xs : List A) → length (map f xs) ≡ length xs
length-map f [] = refl
length-map f (x ∷ xs) = ap suc (length-map f xs)

-- The summary, as a function of the codes and of the primary failure.
abbrev pub coded_summary : List FailureCode → String → FailureCode → FailureSummary
coded_summary cs check_id primary = record {
  total = length cs;
  evaluation_failures = count_if (λ c. code_impact c == evaluation_failure) cs;
  infrastructure_errors = count_if (λ c. code_impact c == infrastructure_error) cs;
  not_evaluated_count = count_if (λ c. code_impact c == not_evaluated) cs;
  by_category = categories_counted cs;
  by_code = codes_counted cs;
  primary_check_id = some check_id;
  primary_code = some primary;
}

module _ (cs : List FailureCode) (primary : FailureCode)
    (least : count_if (λ c. ltb (code_rank c) (code_rank primary)) cs ≡ 0)
    (occurs : 0 < count_if (λ c. c == primary) cs) where
  primary-counted : primary_counted (some primary) (codes_counted cs) ≡ true
  primary-counted =
      let same : count_if (λ c. c == primary) cs
          ≤ count_if (λ c. code_value c == code_value primary) cs =
        count_if_mono _ _ cs (λ c e. ≡→== _ _ (ap code_value (==→≡ c primary e))) in
      rw
        (lookup-eq-sum (code_value primary) (codes_counted cs) (counted-IsDict (map code_value cs))
          (counted-filled (map code_value cs)))
        (ground (
          arith,
          same,
          sum_if-counted (λ j. j == code_value primary) (map code_value cs),
          count_if-map (λ j. j == code_value primary) code_value cs,
        ))

  primary-first :
      (counts : List (FailureCode × ℕ))
      → ((q : FailureCode → Bool) → sum_codes q counts ≡ count_if q cs)
      → has_zero counts ≡ false
      → primary_must_be_first (some primary) counts ≡ ok tt
  unfolding primary_must_be_first
  primary-first counts sums filled =
      let same : count_if (λ c. c == primary) cs
          ≤ count_if (λ c. eqb (code_rank c) (code_rank primary)) cs =
        count_if_mono _ _ cs (λ c e. ≡→== _ _ (ap code_rank (==→≡ c primary e))) in
      let best : best_rank counts ≡ some (code_rank primary) =
        best_rank-eq (code_rank primary) counts filled
          (sums (λ c. ltb (code_rank c) (code_rank primary)) ∙ least)
          (omega (arith, same, occurs, sums (λ c. eqb (code_rank c) (code_rank primary)))) in
      rw (best, primary_must_be_first, ==-refl (code_rank primary)) refl

  -- The counts of a non-empty list of codes are consistent, if the primary code is one of the
  -- list and none in the list has a smaller rank.
  pub coded_summary-consistent :
      (check_id : String) → counts_must_be_consistent (coded_summary cs check_id primary) ≡ ok tt
  unfolding counts_must_be_consistent
  coded_summary-consistent check_id =
      let (counts, read, sums, filled) = codes_counted-Reads cs in
      let eval =
        expected_impact-eq evaluation_failure counts
        ∙ sums (λ c. code_impact c == evaluation_failure) in
      let infra =
        expected_impact-eq infrastructure_error counts
        ∙ sums (λ c. code_impact c == infrastructure_error) in
      let not_eval =
        expected_impact-eq not_evaluated counts ∙ sums (λ c. code_impact c == not_evaluated) in
      ground (
        arith,
        counted-filled (map (λ c. category_value (code_category c)) cs),
        counted-filled (map code_value cs),
        impacts-total cs,
        sum_values-counted (map (λ c. category_value (code_category c)) cs),
        length-map (λ c. category_value (code_category c)) cs,
        sum_values-counted (map code_value cs),
        length-map code_value cs,
        read,
        categories_agree cs counts sums filled,
        eval,
        infra,
        not_eval,
        count_if-le-length (λ c. c == primary) cs,
        primary-counted,
        primary-first counts sums filled,
      )
