-- ===== src/Partitions/Sealed/Scored.antt =====
-- The score of sealed predictions in src/e2h/partitions.py: one point for each right example.
use e2h.Prelude.{
  ℕ, suc, ◌+◌, ◌≤◌, ◌≡◌, ◌∙◌, ap, refl, Bool, true, false, not, String, none, some, List, [], ◌∷◌,
  ◌++◌, map, any, none_fail-all, all, any-append, count_if, count_if-le-length, ◌==◌, text_eq,
  contains, length, Bool-cases, Option-cases, inl, inr, arith, if◌then◌else◌,
}
use e2h.Result.{ok}
use e2h.Dict.{Dict}
use e2h.LongHorizon.Evaluation.{Quotients}
use e2h.Partitions.{
  DspyExample, DspyDatasetDocument, DatasetPartitionDocument, keys, same_set, validated_dataset,
  validated_document,
}
use e2h.Partitions.Verify.{
  DatasetPartitionVerification, PartitionDigests, verify_validated_partitions,
}
use e2h.Partitions.Export.{example_for}
use e2h.Partitions.Sealed.{
  SealedPrediction, SealedPredictionDocument, SealedEvaluationReport, prediction_for, count_correct,
  validated_sealed_predictions, validated_sealed_report, evaluate_sealed_predictions,
}
use e2h.Partitions.Sealed.Ids.{sealed-some}

module _ {V : Type 0} where
  example_for-some :
      (id : String) (examples : List (DspyExample V))
      → contains id (map (λ e. e.id) examples) ≡ true
      → (e : DspyExample V) × (example_for id examples ≡ some e)
  unfolding example_for
  example_for-some id [] h = absurd (ground (arith, h))
  example_for-some id (x ∷ examples) h = elim (Option-cases (example_for id examples)) [
    | inr (later, found) ↦ (later, rw found refl)
    | inl none_later ↦ elim (Bool-cases (x.id == id)) [
      | inl here ↦ (x, rw (none_later, here) refl)
      | inr other ↦
          let (e, found) = example_for-some id examples (ground (arith, h, other)) in
          absurd (ground (arith, found, none_later))
    ]
  ]

  module _ (canonical : Dict V → String) (examples : List (DspyExample V))
      (predictions : List (SealedPrediction V)) where
    -- The prediction for an example is canonically the example's own outputs.
    unfoldable pub is_right : String → Bool
    is_right id = elim (prediction_for id predictions) [
      | none ↦ false
      | some p ↦ elim (example_for id examples) [
        | none ↦ false
        | some e ↦ canonical p.outputs == canonical e.outputs
      ]
    ]

    -- The prediction for an example has these outputs.
    unfoldable pub has_outputs : List String → String → Bool
    has_outputs fields id = elim (prediction_for id predictions) [
      | none ↦ false
      | some p ↦ same_set (keys p.outputs) fields
    ]

    outputs-given :
        (fields : List String) (id : String)
        → has_outputs fields id ≡ true
        → (p : SealedPrediction V) × (prediction_for id predictions ≡ some p)
    unfolding has_outputs
    outputs-given fields id h = elim (Option-cases (prediction_for id predictions)) [
      | inl missing ↦ absurd (ground (arith, h, missing))
      | inr found ↦ found
    ]

    count_correct-step :
        (fields : List String) (correct : ℕ) (id : String) (ids : List String)
        (p : SealedPrediction V) (e : DspyExample V)
        → prediction_for id predictions ≡ some p
        → example_for id examples ≡ some e
        → has_outputs fields id ≡ true
        → count_correct canonical examples predictions fields correct (id ∷ ids)
          ≡ count_correct canonical examples predictions fields
              (if is_right id then suc correct else correct)
              ids
    unfolding count_correct has_outputs is_right
    count_correct-step fields correct id ids p e given known fits =
        ground (arith, given, known, fits)

    count_correct-right :
        (fields : List String) (correct : ℕ) (ids : List String)
        → all (has_outputs fields) ids ≡ true
        → all (λ id. contains id (map (λ e. e.id) examples)) ids ≡ true
        → count_correct canonical examples predictions fields correct ids
          ≡ ok (count_if is_right ids + correct)
    unfolding count_correct
    count_correct-right fields correct [] fit known = ap ok (omega arith)
    count_correct-right fields correct (id ∷ ids) fit known =
        let fits : has_outputs fields id ≡ true = ground (arith, fit) in
        let (e, found) = example_for-some id examples (ground (arith, known)) in
        let (p, given) = outputs-given fields id fits in
        let rest =
          count_correct-right fields (if is_right id then suc correct else correct) ids
            (ground (arith, fit)) (ground (arith, known)) in
        count_correct-step fields correct id ids p e given found fits ∙ rest ∙ ap ok (ground arith)

module _ {V : Type 0} (digests : PartitionDigests V) where
  -- The sealed ids of a verified partition are ids of the dataset.
  sealed-known :
      (document : DatasetPartitionDocument) (dataset : DspyDatasetDocument V)
      (v : DatasetPartitionVerification)
      → verify_validated_partitions digests document dataset ≡ ok v
      → all (λ id. contains id (map (λ e. e.id) dataset.examples)) document.sealed_test_ids ≡ true
  unfolding verify_validated_partitions
  sealed-known document dataset v h =
      let ids = map (λ e. e.id) dataset.examples in
      none_fail-all (λ id. contains id ids) document.sealed_test_ids
        (ground (
          arith,
          h,
          any-append (λ id. not (contains id ids)) document.train_ids
              (document.validation_ids ++ document.sealed_test_ids),
          any-append (λ id. not (contains id ids)) document.validation_ids document.sealed_test_ids,
        ))

module _ {S : Type 0} (quotients : Quotients S) where
  sealed_report-accepted :
      (r : SealedEvaluationReport S)
      → 1 ≤ r.total
      → r.correct ≤ r.total
      → r.score ≡ quotients.quotient r.correct r.total
      → validated_sealed_report quotients r ≡ ok r
  unfolding validated_sealed_report
  sealed_report-accepted r some_total few score =
      let unit : quotients.in_unit r.score ≡ true =
        ap quotients.in_unit score ∙ quotients.in_unit-quotient r.correct r.total few some_total in
      let close : quotients.is_close r.score (quotients.quotient r.correct r.total) ≡ true =
        ap (λ q. quotients.is_close q (quotients.quotient r.correct r.total)) score
        ∙ quotients.is_close-quotient r.correct r.total in
      ground (arith, some_total, few, unit, close)

  -- For a verified partition and predictions that are bound to it, cover its sealed examples and no
  -- others and have the dataset's outputs for each, `evaluate_sealed_predictions` gives a report
  -- that its validator accepts; it counts exactly the sealed examples whose predicted outputs have
  -- the canonical text of the example's own.
  pub evaluate_sealed_predictions-right :
      {V : Type 0} (canonical : Dict V → String) (digests : PartitionDigests V)
      (document document' : DatasetPartitionDocument) (dataset : DspyDatasetDocument V)
      (predictions : SealedPredictionDocument V) (v : DatasetPartitionVerification)
      → validated_document document ≡ ok document'
      → validated_dataset dataset ≡ ok dataset
      → validated_sealed_predictions predictions ≡ ok predictions
      → verify_validated_partitions digests document' dataset ≡ ok v
      → predictions.public_dataset_sha256 ≡ v.public_dataset_sha256
      → predictions.public_partition_sha256 ≡ v.public_partition_sha256
      → any
          (λ id. not (contains id (map (λ p. p.example_id) predictions.predictions)))
          document'.sealed_test_ids
        ≡ false
      → any
          (λ id. not (contains id document'.sealed_test_ids))
          (map (λ p. p.example_id) predictions.predictions)
        ≡ false
      → all
          (has_outputs canonical dataset.examples predictions.predictions v.output_fields)
          document'.sealed_test_ids
        ≡ true
      → (r : SealedEvaluationReport S) × (evaluate_sealed_predictions quotients canonical digests
            document dataset predictions
          ≡ ok r)
        × (r.total ≡ length document'.sealed_test_ids)
        × (r.correct
            ≡ count_if
                (is_right canonical dataset.examples predictions.predictions)
                document'.sealed_test_ids)
        × (r.score ≡ quotients.quotient r.correct r.total)
  unfolding evaluate_sealed_predictions
  evaluate_sealed_predictions-right canonical digests document document' dataset predictions v fits
        fits' fits'' verified public_dataset public_partition missing unexpected outputs =
      let ids = document'.sealed_test_ids in
      let right = is_right canonical dataset.examples predictions.predictions in
      let counted : count_correct canonical dataset.examples predictions.predictions v.output_fields
            0 ids
          ≡ ok (count_if right ids) =
        count_correct-right canonical dataset.examples predictions.predictions v.output_fields 0 ids
          outputs (sealed-known digests document' dataset v verified)
        ∙ ap ok (omega arith) in
      let r : SealedEvaluationReport S = record {
        partition_id = document'.id;
        public_partition_sha256 = v.public_partition_sha256;
        dataset_id = dataset.id;
        public_dataset_sha256 = v.public_dataset_sha256;
        total = length ids;
        correct = count_if right ids;
        score = quotients.quotient (count_if right ids) (length ids);
      } in
      let accepted =
        sealed_report-accepted r (sealed-some document document' fits)
          (count_if-le-length right ids) refl in
      (
        r,
        rw (fits, fits', fits'', verified)
            (ground (
              arith,
              text_eq.equal_iff predictions.public_dataset_sha256 v.public_dataset_sha256,
              public_dataset,
              text_eq.equal_iff predictions.public_partition_sha256 v.public_partition_sha256,
              public_partition,
              missing,
              unexpected,
              counted,
              accepted,
            )),
        refl,
        refl,
        refl,
      )
