-- ===== src/Tests/Comparisons.antt =====
-- A comparison over one example that only the candidate gets right.
use e2h.Prelude.{◌≡◌, length, refl, String, List, [], ◌∷◌, number_eq, arith}
use e2h.Result.{ok}
use e2h.Dict.{lookup}
use e2h.Promotion.Evidence.{PromotionEvidenceRole, Tally, validated_report}
use e2h.Promotion.Comparison.{VariantPredictionDocument, count_outcomes, start_tally, built_report}
use e2h.Promotion.Gate.{exact_one_sided_mcnemar_tail}
use e2h.Promotion.Gate.McNemar.{at_least, outcomes, mcnemar_tail-at_least}
use e2h.Tests.Evidence.{thousandths, old_variant, new_variant, commitment}
use e2h.Promotion.Paired.{counted_report-accepted}

abbrev keys_of : String → List String
keys_of outputs = "answer" ∷ []

abbrev text_of : String → String
text_of outputs = outputs

abbrev old_document : VariantPredictionDocument String
old_document = record {
  variant = old_variant;
  public_dataset_sha256 = "d";
  public_partition_sha256 = "p";
  role = PromotionEvidenceRole.validation;
  predictions = [];
}

abbrev new_document : VariantPredictionDocument String
new_document = record old_document { variant = new_variant }

abbrev counts : Tally
counts = record {
  both_correct = 0;
  baseline_only_correct = 0;
  candidate_only_correct = 1;
  neither_correct = 0;
}

counted_report-accepted_example :
    validated_report thousandths
      (built_report keys_of text_of thousandths "e1" commitment old_document new_document 1 counts)
    ≡ ok (
        built_report keys_of text_of thousandths "e1" commitment old_document new_document 1 counts)
unfolding count_outcomes start_tally lookup
counted_report-accepted_example =
    counted_report-accepted keys_of text_of thousandths (("e1", "right") ∷ [])
      (("e1", "wrong") ∷ []) (("e1", "right") ∷ []) ("e1" ∷ []) counts "e1" commitment old_document
      new_document refl refl refl (omega arith) (omega arith)

mcnemar_tail-at_least_example :
    ((exact_one_sided_mcnemar_tail 5 1).numerator ≡ at_least 6 5)
    × ((exact_one_sided_mcnemar_tail 5 1).denominator ≡ length (outcomes 6))
mcnemar_tail-at_least_example = mcnemar_tail-at_least 5 1 (omega arith)
