-- ===== src/Failures/Summary.antt =====
-- `FailureSummary` and `summarize_failures` of src/e2h/failures.py.
use e2h.Prelude.{
  ℕ, ◌+◌, Bool, true, false, not, ◌&&◌, ◌||◌, String, Option, none, some, List, [], ◌∷◌, ◌==◌, ltb,
  leb, eqb, length, map, count_if, if◌then◌else◌, text_eq, number_eq,
}
use e2h.Result.{Result, ok, err, ◌>>=◌, ◌>>◌, refuse, rethrow}
use e2h.Values.Data.{PyRuntime}
use e2h.Dict.{Dict, lookup, sort_items, same_items, sum_values, add_counts, counter}
use e2h.Dict.Tally.{has_empty}
use e2h.Failures.{
  FailureCode, FailureImpact, evaluation_failure, infrastructure_error, not_evaluated,
  code_category, code_impact, impact_primary_rank, category_value, code_value, all_codes, impact_eq,
  code_eq,
}
use e2h.Failures.Record.{FailureError, FailureRecord, validated_record}

pub data SummaryError : Type 0 where
  invalid_record : FailureError → SummaryError
  empty_category_count empty_code_count impacts_not_total categories_not_total : SummaryError
  codes_not_total unknown_code categories_off_taxonomy impacts_off_taxonomy : SummaryError
  primary_half_set primary_of_nothing missing_primary primary_not_counted : SummaryError
  no_code primary_not_first : SummaryError

pub record FailureSummary : Type 0 where
  pub total : ℕ
  pub evaluation_failures : ℕ
  pub infrastructure_errors : ℕ
  pub not_evaluated_count : ℕ
  pub by_category : Dict ℕ
  pub by_code : Dict ℕ
  pub primary_check_id : Option String
  pub primary_code : Option FailureCode

abbrev pub empty_summary : FailureSummary
empty_summary = record {
  total = 0;
  evaluation_failures = 0;
  infrastructure_errors = 0;
  not_evaluated_count = 0;
  by_category = [];
  by_code = [];
  primary_check_id = none;
  primary_code = none;
}

-- `FailureCode(text)`
find_code : List FailureCode → String → Option FailureCode
find_code [] text = none
find_code (c ∷ cs) text = if code_value c == text then some c else find_code cs text

unfoldable pub code_of : String → Option FailureCode
unfolding find_code code_value
code_of = find_code all_codes

-- `{FailureCode(code): count for code, count in self.by_code.items()}`
unfoldable pub code_counts : Dict ℕ → Result SummaryError (List (FailureCode × ℕ))
code_counts [] = ok []
code_counts ((text, n) ∷ d) = do
  rest ← code_counts d
  elim (code_of text) [ none ↦ err unknown_code | some c ↦ ok ((c, n) ∷ rest) ]

-- The loop's `expected_categories`, before the items are sorted.
unfoldable pub expected_categories : List (FailureCode × ℕ) → Dict ℕ
expected_categories counts =
    add_counts [] (map (λ item. (category_value (code_category item.0), item.1)) counts)

-- The loop's `expected_impacts[impact]`.
unfoldable pub expected_impact : FailureImpact → List (FailureCode × ℕ) → ℕ
expected_impact impact [] = 0
expected_impact impact ((c, n) ∷ counts) =
    (if code_impact c == impact then n else 0) + expected_impact impact counts

unfoldable pub code_rank : FailureCode → ℕ
code_rank c = impact_primary_rank (code_impact c)

-- `min(_IMPACT_PRIMARY_RANK[...] for code in code_counts)`; an empty `min` raises.
unfoldable pub best_rank : List (FailureCode × ℕ) → Option ℕ
best_rank [] = none
best_rank ((c, n) ∷ counts) = elim (best_rank counts) [
  | none ↦ some (code_rank c)
  | some r ↦ some (if leb (code_rank c) r then code_rank c else r)
]

abbrev pub is_none {ℓ} : {A : Type ℓ} → Option A → Bool
is_none none = true
is_none (some a) = false

-- The last test of the validator, on a primary code that is set.
unfoldable pub primary_must_be_first :
    Option FailureCode → List (FailureCode × ℕ) → Result SummaryError (Unit {0})
primary_must_be_first none counts = ok tt
primary_must_be_first (some c) counts = elim (best_rank counts) [
  | none ↦ err no_code
  | some r ↦ refuse (not (code_rank c == r)) primary_not_first
]

abbrev pub primary_counted : Option FailureCode → Dict ℕ → Bool
primary_counted none d = true
primary_counted (some c) d = not (is_none (lookup (code_value c) d))

-- `counts_must_be_consistent`
unfoldable pub counts_must_be_consistent : FailureSummary → Result SummaryError (Unit {0})
counts_must_be_consistent s = do
  refuse (has_empty s.by_category) empty_category_count
  refuse (has_empty s.by_code) empty_code_count
  refuse (not (s.evaluation_failures + s.infrastructure_errors + s.not_evaluated_count == s.total))
      impacts_not_total
  refuse (not (sum_values s.by_category == s.total)) categories_not_total
  refuse (not (sum_values s.by_code == s.total)) codes_not_total
  counts ← code_counts s.by_code
  refuse (not (same_items s.by_category (sort_items (expected_categories counts))))
      categories_off_taxonomy
  refuse
      (not (s.evaluation_failures == expected_impact evaluation_failure counts)
        || not (s.infrastructure_errors == expected_impact infrastructure_error counts)
        || not (s.not_evaluated_count == expected_impact not_evaluated counts))
      impacts_off_taxonomy
  refuse
      ((is_none s.primary_check_id && not (is_none s.primary_code))
        || (not (is_none s.primary_check_id) && is_none s.primary_code))
      primary_half_set
  refuse (eqb s.total 0 && not (is_none s.primary_check_id)) primary_of_nothing
  refuse (ltb 0 s.total && is_none s.primary_check_id) missing_primary
  refuse (not (primary_counted s.primary_code s.by_code)) primary_not_counted
  primary_must_be_first s.primary_code counts

-- `FailureSummary(...)`
unfoldable pub validated_summary : FailureSummary → Result SummaryError FailureSummary
validated_summary s = do counts_must_be_consistent s; ok s

module _ {F : Type 0} where
  -- `min(present, key=lambda item: (rank, index))`: of equal ranks the earlier one stays.
  unfoldable pub primary_of :
      String × FailureRecord F → List (String × FailureRecord F) → String × FailureRecord F
  primary_of best [] = best
  primary_of best (next ∷ rest) =
      primary_of
        (if ltb (impact_primary_rank next.1.impact) (impact_primary_rank best.1.impact)
          then next
          else best)
        rest

  -- The summary of the failures that are present.
  unfoldable pub summary_of : List (String × FailureRecord F) → FailureSummary
  summary_of [] = empty_summary
  summary_of (first ∷ rest) =
      let present = first ∷ rest in
      let primary = primary_of first rest in
      record {
        total = length present;
        evaluation_failures = count_if (λ p. p.1.impact == evaluation_failure) present;
        infrastructure_errors = count_if (λ p. p.1.impact == infrastructure_error) present;
        not_evaluated_count = count_if (λ p. p.1.impact == not_evaluated) present;
        by_category = sort_items (counter (map (λ p. category_value p.1.category) present));
        by_code = sort_items (counter (map (λ p. code_value p.1.code) present));
        primary_check_id = some primary.0;
        primary_code = some primary.1.code;
      }

-- The first loop: the failures that are there, each one validated again.
unfoldable pub present_failures :
    {F : Type 0}
    → PyRuntime F
    → List (String × Option (FailureRecord F))
    → Result SummaryError (List (String × FailureRecord F))
present_failures py [] = ok []
present_failures py ((check_id, none) ∷ records) = present_failures py records
present_failures py ((check_id, some failure) ∷ records) = do
  r ← rethrow invalid_record (validated_record py failure)
  rest ← present_failures py records
  ok ((check_id, r) ∷ rest)

unfoldable pub summarize_failures :
    {F : Type 0}
    → PyRuntime F
    → List (String × Option (FailureRecord F))
    → Result SummaryError FailureSummary
unfolding summary_of validated_summary
summarize_failures py records = do
  present ← present_failures py records
  validated_summary (summary_of present)
