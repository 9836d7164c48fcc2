-- ===== src/Partitions/Export/Private.antt =====
-- What an export of the sealed split in src/e2h/partitions.py reveals.
use e2h.Prelude.{
  ◌≡◌, ◌∙◌, ap, refl, subst, true, false, String, none, some, List, [], ◌∷◌, ◌==◌, text_eq,
  contains, Bool-cases, Option-cases, inl, inr, arith,
}
use e2h.Result.{ok, collect, Result-cases}
use e2h.Dict.{Dict, lookup, sort_items}
use e2h.Dict.Lookup.{lookup-sort_items}
use e2h.Partitions.{
  PartitionRole, DspyExample, DspyDatasetDocument, DatasetPartitionDocument, sort_texts, keys,
  meets, validated_example, validated_examples, validated_dataset, validated_document,
}
use e2h.Partitions.Verify.{PartitionDigests, verify_validated_partitions}
use e2h.Partitions.Export.{
  PartitionExamplePayload, DatasetPartitionExport, validated_payload, validated_export, example_for,
  export_example, export_dataset_partition,
}

module _ {V : Type 0} where
  absent-lookup : (k : String) (d : Dict V) → contains k (keys d) ≡ false → lookup k d ≡ none
  unfolding lookup
  absent-lookup k [] h = refl
  absent-lookup k ((j, v) ∷ d) h = ground (arith, h, absent-lookup k d)

  apart-contains :
      (k : String) (a : Dict V) (bs : List String)
      → meets (keys a) bs ≡ false
      → contains k bs ≡ true
      → contains k (keys a) ≡ false
  apart-contains k [] bs h found = refl
  apart-contains k ((j, v) ∷ a) bs h found = elim (Bool-cases (j == k)) [
    | inr other ↦ ground (arith, other, apart-contains k a bs (ground (arith, h)) found)
    | inl here ↦
        let again : contains j bs ≡ true =
          ap (λ i. contains i bs) ((text_eq.equal_iff j k).0 here) ∙ found in
        absurd (ground (arith, h, again))
  ]

  -- The payload has the inputs of an example and none of its outputs.
  pub record HidesOutputs (examples : List (DspyExample V)) (p : PartitionExamplePayload V)
      : Type 0 where
    pub example : DspyExample V
    pub found : example_for p.id examples ≡ some example
    pub inputs_kept : (k : String) → lookup k p.values ≡ lookup k example.inputs
    pub outputs_hidden :
        (k : String) → contains k (keys example.outputs) ≡ true → lookup k p.values ≡ none

  abbrev pub AllHideOutputs : List (DspyExample V) → List (PartitionExamplePayload V) → Type 0
  AllHideOutputs examples [] = Unit
  AllHideOutputs examples (p ∷ payloads) =
      HidesOutputs examples p × AllHideOutputs examples payloads

  example_for-apart :
      (id : String) (examples : List (DspyExample V)) (e : DspyExample V)
      → validated_examples examples ≡ ok tt
      → example_for id examples ≡ some e
      → (meets (keys e.inputs) (keys e.outputs) ≡ false) × (e.id ≡ id)
  unfolding example_for validated_examples validated_example
  example_for-apart id [] e valid h = absurd (ground (arith, h))
  example_for-apart id (x ∷ examples) e valid h = elim (Option-cases (example_for id examples)) [
    | inr (later, found) ↦
        example_for-apart id examples e (ground (arith, valid)) (ground (arith, h, found))
    | inl none_later ↦
        let same : x ≡ e = ground (arith, h, none_later) in
        let apart : meets (keys x.inputs) (keys x.outputs) ≡ false = ground (arith, valid) in
        let id_same : x.id ≡ id = ground (arith, h, none_later, text_eq.equal_iff x.id id) in
        subst (λ y. (meets (keys y.inputs) (keys y.outputs) ≡ false) × (y.id ≡ id)) same
          (apart, id_same)
  ]

  validated_payload-same : (p p' : PartitionExamplePayload V) → validated_payload p ≡ ok p' → p ≡ p'
  unfolding validated_payload
  validated_payload-same p p' h = ground (arith, h)

  export_example-HidesOutputs :
      (examples : List (DspyExample V)) (id : String) (p : PartitionExamplePayload V)
      → validated_examples examples ≡ ok tt
      → export_example examples false id ≡ ok p
      → HidesOutputs examples p
  unfolding export_example
  export_example-HidesOutputs examples id p valid h =
      elim (Option-cases (example_for id examples)) [
        | inl missing ↦ absurd (ground (arith, h, missing))
        | inr (e, found) ↦
            let built : PartitionExamplePayload V = record {
              id = e.id;
              values = sort_items e.inputs;
              input_fields = sort_texts (keys e.inputs);
            } in
            let made : validated_payload built ≡ ok p = ground (arith, h, found) in
            let (apart, same_id) = example_for-apart id examples e valid found in
            subst (HidesOutputs examples) (validated_payload-same built p made) (record {
              example = e;
              found = ap (λ i. example_for i examples) same_id ∙ found;
              inputs_kept = λ k. lookup-sort_items k e.inputs;
              outputs_hidden = λ k output.
                  lookup-sort_items k e.inputs
                  ∙ absent-lookup k e.inputs
                      (apart-contains k e.inputs (keys e.outputs) apart output);
            })
      ]

  exports-AllHideOutputs :
      (examples : List (DspyExample V)) (ids : List String)
      (payloads : List (PartitionExamplePayload V))
      → validated_examples examples ≡ ok tt
      → collect (export_example examples false) ids ≡ ok payloads
      → AllHideOutputs examples payloads
  exports-AllHideOutputs examples [] payloads valid h =
      let same : [] ≡ payloads = ground (arith, h) in subst (AllHideOutputs examples) same tt
  exports-AllHideOutputs examples (id ∷ ids) payloads valid h =
      elim (Result-cases (export_example examples false id)) [
        | inr (problem, refused) ↦ absurd (ground (arith, h, refused))
        | inl (p, made) ↦ elim (Result-cases (collect (export_example examples false) ids)) [
          | inr (problem, refused) ↦ absurd (ground (arith, h, made, refused))
          | inl (others, rest) ↦
              let same : p ∷ others ≡ payloads = ground (arith, h, made, rest) in
              subst (AllHideOutputs examples) same (
                export_example-HidesOutputs examples id p valid made,
                exports-AllHideOutputs examples ids others valid rest,
              )
        ]
      ]

  -- When the sealed split is exported, labels are not revealed, and each exported example has the
  -- inputs of the dataset's example of its id and a value for none of that example's outputs.
  pub export_dataset_partition-AllHideOutputs :
      (digests : PartitionDigests V) (document : DatasetPartitionDocument)
      (dataset : DspyDatasetDocument V) (e : DatasetPartitionExport V)
      → export_dataset_partition digests document dataset PartitionRole.sealed_test ≡ ok e
      → (e.labels_revealed ≡ false) × AllHideOutputs dataset.examples e.examples
  unfolding export_dataset_partition validated_export validated_dataset
  export_dataset_partition-AllHideOutputs digests document dataset e h =
      elim (Result-cases (validated_document document)) [
        | inr (problem, refused) ↦ absurd (ground (arith, h, refused))
        | inl (document', v) ↦ elim (Result-cases (validated_examples dataset.examples)) [
          | inr (problem, refused) ↦ absurd (ground (arith, h, v, refused))
          | inl (done, valid) ↦
              elim (Result-cases (verify_validated_partitions digests document' dataset)) [
                | inr (problem, refused) ↦ absurd (ground (arith, h, v, valid, refused))
                | inl (verification, verified) ↦
                    elim (Result-cases
                      (collect (export_example dataset.examples false) document'.sealed_test_ids)) [
                        | inr (problem, refused) ↦
                            absurd (ground (arith, h, v, valid, verified, refused))
                        | inl (exported, made) ↦
                            let same : exported ≡ e.examples =
                              ground (arith, h, v, valid, verified, made) in
                            (
                              ground (arith, h, v, valid, verified, made),
                              subst (AllHideOutputs dataset.examples) same (
                                  exports-AllHideOutputs dataset.examples document'.sealed_test_ids
                                    exported (ground (arith, valid)) made),
                            )
                      ]
              ]
        ]
      ]
