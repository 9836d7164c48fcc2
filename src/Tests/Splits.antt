-- ===== src/Tests/Splits.antt =====
-- Three questions, one for each split.
use e2h.Prelude.{ℕ, ◌≡◌, refl, false, String, [], ◌∷◌, count_if, text_eq, number_eq}
use e2h.Result.{ok}
use e2h.Dict.{Dict, insert_sorted, sort_items}
use e2h.Partitions.{
  PartitionRole, DspyExample, DspyDatasetDocument, DatasetPartitionDocument, insert_text,
  sort_texts, validated_example, validated_examples, one_signature, validated_dataset,
  validated_split, validated_document,
}
use e2h.Partitions.Verify.{
  DatasetPartitionVerification, PartitionDigests, first_fields, public_dataset,
  verify_validated_partitions, verify_dataset_partitions,
}
use e2h.Partitions.Verify.Assigned.{splits_with, verify_dataset_partitions-one_split}
use e2h.Partitions.Verify.Unlabelled.{Relabelled, public_dataset-Relabelled}
use e2h.Partitions.Export.{
  DatasetPartitionExport, same_texts, validated_payload, validated_export, example_for,
  export_example, export_dataset_partition,
}
use e2h.Partitions.Export.Private.{AllHideOutputs, export_dataset_partition-AllHideOutputs}
use e2h.Partitions.Sealed.{
  SealedPredictionDocument, SealedEvaluationReport, prediction_for, validated_sealed_predictions,
  evaluate_sealed_predictions,
}
use e2h.Partitions.Sealed.Scored.{is_right, has_outputs, evaluate_sealed_predictions-right}
use e2h.Tests.Dialogues.{in_thousandths}

abbrev question : String → String → DspyExample String
question id label = record {
  id = id;
  inputs = ("question", "text") ∷ [];
  outputs = ("answer", label) ∷ [];
}

abbrev questions : String → DspyDatasetDocument String
questions label = record {
  id = "questions";
  examples = question "a" label ∷ question "b" label ∷ question "c" label ∷ [];
}

abbrev split : DatasetPartitionDocument
split = record {
  id = "split";
  dataset_sha256 = "questions";
  public_dataset_sha256 = "questions";
  train_ids = "a" ∷ [];
  validation_ids = "b" ∷ [];
  sealed_test_ids = "c" ∷ [];
}

-- Ids stand for digests.
abbrev ids : PartitionDigests String
ids = record {
  dataset = λ d. d.id;
  public_dataset = λ d. d.id;
  partition = λ p. p.id;
  public_partition = λ p. p.id;
}

abbrev verification : DatasetPartitionVerification
verification = record {
  partition_id = "split";
  partition_sha256 = "split";
  public_partition_sha256 = "split";
  dataset_id = "questions";
  dataset_sha256 = "questions";
  public_dataset_sha256 = "questions";
  train_examples = 1;
  validation_examples = 1;
  sealed_test_examples = 1;
  output_fields = "answer" ∷ [];
}

abbrev export : DatasetPartitionExport String
export = record {
  partition_id = "split";
  public_partition_sha256 = "split";
  dataset_id = "questions";
  public_dataset_sha256 = "questions";
  role = PartitionRole.sealed_test;
  labels_revealed = false;
  examples =
      record { id = "c"; values = ("question", "text") ∷ []; input_fields = "question" ∷ [] } ∷ [];
}

abbrev answers : SealedPredictionDocument String
answers = record {
  public_dataset_sha256 = "questions";
  public_partition_sha256 = "split";
  predictions = record { example_id = "c"; outputs = ("answer", "yes") ∷ [] } ∷ [];
}

-- The label stands for the canonical text.
abbrev label_of : Dict String → String
label_of [] = ""
label_of ((k, label) ∷ items) = label

split_holds : validated_document split ≡ ok split
unfolding validated_document validated_split sort_texts insert_text
split_holds = refl

questions_hold : validated_dataset (questions "yes") ≡ ok (questions "yes")
unfolding validated_dataset validated_examples validated_example one_signature
questions_hold = refl

verified : verify_validated_partitions ids split (questions "yes") ≡ ok verification
unfolding verify_validated_partitions first_fields public_dataset sort_texts insert_text
verified = refl

verified_again : verify_dataset_partitions ids split (questions "yes") ≡ ok verification
unfolding verify_dataset_partitions verify_validated_partitions first_fields public_dataset
    sort_texts insert_text validated_document validated_split validated_dataset validated_examples
    validated_example one_signature
verified_again = refl

verify_dataset_partitions-one_split_example : splits_with "b" split ≡ 1
verify_dataset_partitions-one_split_example =
    verify_dataset_partitions-one_split ids split (questions "yes") verification verified_again "b"

public_dataset-Relabelled_example :
    public_dataset (questions "yes") ≡ public_dataset (questions "no")
unfolding Relabelled
public_dataset-Relabelled_example =
    public_dataset-Relabelled (questions "yes") (questions "no") refl
      ((refl, refl, refl, (refl, refl, refl, (refl, refl, refl, tt))))

exported_sealed :
    export_dataset_partition ids split (questions "yes") PartitionRole.sealed_test ≡ ok export
unfolding export_dataset_partition export_example example_for validated_payload validated_export
    same_texts verify_validated_partitions first_fields public_dataset sort_texts insert_text
    validated_document validated_split validated_dataset validated_examples validated_example
    one_signature sort_items insert_sorted
exported_sealed = refl

export_dataset_partition-AllHideOutputs_example :
    (export.labels_revealed ≡ false) × AllHideOutputs (questions "yes").examples export.examples
export_dataset_partition-AllHideOutputs_example =
    export_dataset_partition-AllHideOutputs ids split (questions "yes") export exported_sealed

answers_hold : validated_sealed_predictions answers ≡ ok answers
unfolding validated_sealed_predictions
answers_hold = refl

evaluate_sealed_predictions-right_example :
    (r : SealedEvaluationReport ℕ) × (evaluate_sealed_predictions in_thousandths label_of ids split
        (questions "yes")
        answers
      ≡ ok r)
    × (r.total ≡ 1)
    × (r.correct
        ≡ count_if (is_right label_of (questions "yes").examples answers.predictions) ("c" ∷ []))
    × (r.score ≡ in_thousandths.quotient r.correct r.total)
unfolding has_outputs prediction_for
evaluate_sealed_predictions-right_example =
    evaluate_sealed_predictions-right in_thousandths label_of ids split split (questions "yes")
      answers verification split_holds questions_hold answers_hold verified refl refl refl refl refl
