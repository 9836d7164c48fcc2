-- ===== src/Failures/Consistent/Total.antt =====
-- `summarize_failures` of src/e2h/failures.py: its summary passes its own validation.
use e2h.Prelude.{
  suc, ◌≡◌, refl, sym, ap, ◌∙◌, String, Option, none, some, List, [], ◌∷◌, ◌==◌, ltb, length, map,
  count_if, text_eq, number_eq, arith,
}
use e2h.Result.{ok}
use e2h.Values.Data.{PyRuntime}
use e2h.Dict.{sort_items, counter}
use e2h.Failures.{
  FailureImpact, code_value, code_category, category_value, code_impact, impact_primary_rank,
  impact_eq, code_eq, evaluation_failure, infrastructure_error, not_evaluated,
}
use e2h.Failures.Record.{FailureRecord, validated_record}
use e2h.Failures.Summary.{
  empty_summary, code_rank, primary_of, present_failures, counts_must_be_consistent,
  validated_summary, summary_of, summarize_failures,
}
use e2h.Failures.Consistent.OnCodes.{coded_summary, coded_summary-consistent}
use e2h.Dict.{same_items, items_within, add_counts}
use e2h.Failures.{category_eq}
use e2h.Failures.Record.{taxonomy_must_be_consistent}
use e2h.Failures.Summary.{code_counts, expected_categories, expected_impact, primary_must_be_first}
use e2h.Failures.Primary.{
  IsClassified, AllClassified, rank_of, codes, IsClassified-primary, primary-occurs, none_below,
  primary-least,
}

no_failures-consistent : counts_must_be_consistent empty_summary ≡ ok tt
unfolding counts_must_be_consistent code_counts same_items items_within sort_items
    expected_categories add_counts expected_impact primary_must_be_first
no_failures-consistent = refl

module _ {F : Type 0} where
  impacts-codes :
      (i : FailureImpact) (ps : List (String × FailureRecord F))
      → AllClassified ps
      → count_if (λ p. p.1.impact == i) ps ≡ count_if (λ c. code_impact c == i) (codes ps)
  impacts-codes i [] k = refl
  impacts-codes i (p ∷ ps) k = rw (k.0.impact) (omega (arith, impacts-codes i ps k.1))

  categories-codes :
      (ps : List (String × FailureRecord F))
      → AllClassified ps
      → map (λ p. category_value p.1.category) ps
        ≡ map (λ c. category_value (code_category c)) (codes ps)
  categories-codes [] k = refl
  categories-codes (p ∷ ps) k = cc (ap category_value k.0.category, categories-codes ps k.1)

  values-codes :
      (ps : List (String × FailureRecord F))
      → map (λ p. code_value p.1.code) ps ≡ map code_value (codes ps)
  values-codes [] = refl
  values-codes (p ∷ ps) = ap (λ l. code_value p.1.code ∷ l) (values-codes ps)

  length-codes : (ps : List (String × FailureRecord F)) → length ps ≡ length (codes ps)
  length-codes [] = refl
  length-codes (p ∷ ps) = ap suc (length-codes ps)

  summary_of-codes :
      (first : String × FailureRecord F) (rest : List (String × FailureRecord F))
      → AllClassified (first ∷ rest)
      → summary_of (first ∷ rest)
        ≡ coded_summary
            (codes (first ∷ rest))
            (primary_of first rest).0
            (primary_of first rest).1.code
  unfolding summary_of
  summary_of-codes first rest h = λ i. record {
    total = length-codes (first ∷ rest) i;
    evaluation_failures = impacts-codes evaluation_failure (first ∷ rest) h i;
    infrastructure_errors = impacts-codes infrastructure_error (first ∷ rest) h i;
    not_evaluated_count = impacts-codes not_evaluated (first ∷ rest) h i;
    by_category = sort_items (counter (categories-codes (first ∷ rest) h i));
    by_code = sort_items (counter (values-codes (first ∷ rest) i));
    primary_check_id = some (primary_of first rest).0;
    primary_code = some (primary_of first rest).1.code;
  }

  -- The summary of classified failures passes its own validation.
  pub summary_of-consistent :
      (ps : List (String × FailureRecord F))
      → AllClassified ps
      → counts_must_be_consistent (summary_of ps) ≡ ok tt
  unfolding summary_of code_rank
  summary_of-consistent [] h = no_failures-consistent
  summary_of-consistent (first ∷ rest) h =
      let p = primary_of first rest in
      rw (summary_of-codes first rest h) (
        coded_summary-consistent (codes (first ∷ rest)) p.1.code
          (ap (λ r. count_if (λ c. ltb (code_rank c) r) (codes (first ∷ rest)))
              (ap impact_primary_rank (sym (IsClassified-primary first rest h).impact))
            ∙ none_below (rank_of p) (first ∷ rest) h (primary-least first rest))
          (primary-occurs p.1.code first rest refl) p.0)

module _ {F : Type 0} (py : PyRuntime F) where
  -- The record has been validated: its construction would return it again.
  abbrev pub IsValid : FailureRecord F → Type 0
  IsValid r = validated_record py r ≡ ok r

  -- Whatever the construction returns is the record that it was given.
  pub validated_record-same :
      (r : FailureRecord F) {r' : FailureRecord F} → validated_record py r ≡ ok r' → r ≡ r'
  unfolding validated_record
  validated_record-same r h = ground (arith, h)

  pub validated_record-IsValid :
      (r : FailureRecord F) {r' : FailureRecord F} → validated_record py r ≡ ok r' → IsValid r'
  validated_record-IsValid r {r'} h =
      let e = validated_record-same r h in ap (validated_record py) (sym e) ∙ h

  pub IsValid-IsClassified : (r : FailureRecord F) → IsValid r → IsClassified r
  unfolding validated_record taxonomy_must_be_consistent
  IsValid-IsClassified r h = record {
    category = ground (arith, h, category_eq.equal_iff r.category (code_category r.code));
    impact = ground (arith, h, impact_eq.equal_iff r.impact (code_impact r.code));
  }

  abbrev pub AllValid : List (String × Option (FailureRecord F)) → Type 0
  AllValid [] = Unit {0}
  AllValid ((check_id, none) ∷ records) = AllValid records
  AllValid ((check_id, some r) ∷ records) = IsValid r × AllValid records

  -- The failures that are there, in order.
  abbrev pub failures_of :
      List (String × Option (FailureRecord F)) → List (String × FailureRecord F)
  failures_of [] = []
  failures_of ((check_id, none) ∷ records) = failures_of records
  failures_of ((check_id, some r) ∷ records) = (check_id, r) ∷ failures_of records

  present_failures-ok :
      (records : List (String × Option (FailureRecord F)))
      → AllValid records
      → present_failures py records ≡ ok (failures_of records)
  unfolding present_failures
  present_failures-ok [] h = refl
  present_failures-ok ((check_id, none) ∷ records) h = present_failures-ok records h
  present_failures-ok ((check_id, some r) ∷ records) h =
      rw (h.0, present_failures-ok records h.1) refl

  failures_of-AllClassified :
      (records : List (String × Option (FailureRecord F)))
      → AllValid records
      → AllClassified (failures_of records)
  failures_of-AllClassified [] h = tt
  failures_of-AllClassified ((check_id, none) ∷ records) h = failures_of-AllClassified records h
  failures_of-AllClassified ((check_id, some r) ∷ records) h =
      (IsValid-IsClassified r h.0, failures_of-AllClassified records h.1)

  pub summary_of-accepted :
      (records : List (String × Option (FailureRecord F)))
      → AllValid records
      → validated_summary (summary_of (failures_of records)) ≡ ok (summary_of (failures_of records))
  unfolding validated_summary
  summary_of-accepted records h =
      rw (summary_of-consistent (failures_of records) (failures_of-AllClassified records h)) refl

  -- For validated records in any order and number, `summarize_failures` returns: the summary that
  -- it builds passes every test of its own validation.
  pub summarize_failures-ok :
      (records : List (String × Option (FailureRecord F)))
      → AllValid records
      → summarize_failures py records ≡ ok (summary_of (failures_of records))
  unfolding summarize_failures
  summarize_failures-ok records h =
      rw (present_failures-ok records h) (summary_of-accepted records h)
