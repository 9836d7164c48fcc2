-- ===== src/Partitions/Sealed.antt =====
-- `evaluate_sealed_predictions` of src/e2h/partitions.py with its documents. S is the type of scores
-- and `canonical` the canonical text of a mapping.
pub mod Ids
pub mod Scored
use e2h.Prelude.{
  ℕ, suc, ◌+◌, Bool, true, false, not, ◌&&◌, ◌||◌, String, Option, none, some, List, [], ◌∷◌, map,
  any, all, ◌==◌, text_eq, Eq, contains, all_unique, length, leb, ltb, within, if◌then◌else◌,
}
use e2h.Result.{Result, ok, err, refuse, ◌>>=◌, ◌>>◌}
use e2h.Dict.{Dict}
use e2h.LongHorizon.Evaluation.{Quotients}
use e2h.Partitions.{
  PartitionError, wrong_length, repeated_id, no_outputs, missing_examples, unexpected_examples,
  missing_example, wrong_outputs, wrong_public_dataset, wrong_partition, bad_counts, bad_score,
  DspyExample, DspyDatasetDocument, DatasetPartitionDocument, keys, same_set, validated_dataset,
  validated_document,
}
use e2h.Partitions.Verify.{
  DatasetPartitionVerification, PartitionDigests, verify_validated_partitions,
}
use e2h.Partitions.Export.{example_for}

pub record SealedPrediction (V : Type 0) : Type 0 where
  pub example_id : String
  pub outputs : Dict V

pub record SealedPredictionDocument (V : Type 0) : Type 0 where
  pub public_dataset_sha256 : String
  pub public_partition_sha256 : String
  pub predictions : List (SealedPrediction V)

pub record SealedEvaluationReport (S : Type 0) : Type 0 where
  pub partition_id : String
  pub public_partition_sha256 : String
  pub dataset_id : String
  pub public_dataset_sha256 : String
  pub total : ℕ
  pub correct : ℕ
  pub score : S

module _ {V : Type 0} where
  -- `SealedPredictionDocument(...)`
  unfoldable pub validated_sealed_predictions :
      SealedPredictionDocument V → Result PartitionError (SealedPredictionDocument V)
  validated_sealed_predictions document = do
    refuse (not (within 1 10000 (length document.predictions))) wrong_length
    refuse (any (λ p. not (within 1 128 (length p.outputs))) document.predictions) no_outputs
    refuse (not (all_unique (map (λ p. p.example_id) document.predictions))) repeated_id
    ok document

  -- `{prediction.example_id: prediction for prediction in predictions}`, looked up
  unfoldable pub prediction_for : String → List (SealedPrediction V) → Option (SealedPrediction V)
  prediction_for id [] = none
  prediction_for id (p ∷ predictions) = elim (prediction_for id predictions) [
    | some later ↦ some later
    | none ↦ if p.example_id == id then some p else none
  ]

  module _ (canonical : Dict V → String) where
    -- The loop over the sealed ids, with the number of correct ones so far
    unfoldable pub count_correct :
        List (DspyExample V)
        → List (SealedPrediction V)
        → List String
        → ℕ
        → List String
        → Result PartitionError ℕ
    count_correct examples predictions output_fields correct [] = ok correct
    count_correct examples predictions output_fields correct (example_id ∷ ids) =
        elim (prediction_for example_id predictions) [
          | none ↦ err missing_example
          | some prediction ↦
              refuse (not (same_set (keys prediction.outputs) output_fields)) wrong_outputs
              >> elim (example_for example_id examples) [
                | none ↦ err missing_example
                | some expected ↦
                    count_correct examples predictions output_fields
                      (if canonical prediction.outputs == canonical expected.outputs
                        then suc correct
                        else correct)
                      ids
              ]
        ]

module _ {S : Type 0} (quotients : Quotients S) where
  -- `SealedEvaluationReport(...)`
  unfoldable pub validated_sealed_report :
      SealedEvaluationReport S → Result PartitionError (SealedEvaluationReport S)
  validated_sealed_report r = do
    refuse (not (leb 1 r.total)) bad_counts
    refuse (not (quotients.in_unit r.score)) bad_score
    refuse (ltb r.total r.correct) bad_counts
    refuse (not (quotients.is_close r.score (quotients.quotient r.correct r.total))) bad_score
    ok r

  -- `evaluate_sealed_predictions`
  unfoldable pub evaluate_sealed_predictions :
      {V : Type 0}
      → (Dict V → String)
      → PartitionDigests V
      → DatasetPartitionDocument
      → DspyDatasetDocument V
      → SealedPredictionDocument V
      → Result PartitionError (SealedEvaluationReport S)
  evaluate_sealed_predictions canonical digests document dataset predictions = do
    document' ← validated_document document
    dataset' ← validated_dataset dataset
    predictions' ← validated_sealed_predictions predictions
    verification ← verify_validated_partitions digests document' dataset'
    refuse (not (predictions'.public_dataset_sha256 == verification.public_dataset_sha256))
        wrong_public_dataset
    refuse (not (predictions'.public_partition_sha256 == verification.public_partition_sha256))
        wrong_partition
    let actual_ids = map (λ p. p.example_id) predictions'.predictions
    refuse (any (λ id. not (contains id actual_ids)) document'.sealed_test_ids) missing_examples
    refuse (any (λ id. not (contains id document'.sealed_test_ids)) actual_ids) unexpected_examples
    correct ←
        count_correct canonical dataset'.examples predictions'.predictions
          verification.output_fields 0 document'.sealed_test_ids
    validated_sealed_report (record {
      partition_id = document'.id;
      public_partition_sha256 = verification.public_partition_sha256;
      dataset_id = dataset'.id;
      public_dataset_sha256 = verification.public_dataset_sha256;
      total = length document'.sealed_test_ids;
      correct = correct;
      score = quotients.quotient correct (length document'.sealed_test_ids);
    })
