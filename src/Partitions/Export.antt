-- ===== src/Partitions/Export.antt =====
-- `export_dataset_partition` of src/e2h/partitions.py with the documents it builds.
pub mod Private
use e2h.Prelude.{
  ℕ, Bool, true, false, not, ◌&&◌, ◌||◌, String, Option, none, some, List, [], ◌∷◌, ◌++◌, map, any,
  all, ◌==◌, text_eq, Eq, contains, all_unique, length, leb, if◌then◌else◌,
}
use e2h.Result.{Result, ok, err, refuse, collect, ◌>>=◌, ◌>>◌}
use e2h.Dict.{Dict, put, sort_items}
use e2h.Partitions.{
  PartitionRole, sealed_test, PartitionError, wrong_length, missing_example, inputs_missing,
  labels_mismatch, sealed_labels, repeated_id, different_fields, unsorted_fields, DspyExample,
  DspyDatasetDocument, DatasetPartitionDocument, sort_texts, keys, same_set, ids_for,
  validated_dataset, validated_document,
}
use e2h.Partitions.Verify.{
  DatasetPartitionVerification, PartitionDigests, verify_validated_partitions,
}

pub record PartitionExamplePayload (V : Type 0) : Type 0 where
  pub id : String
  pub values : Dict V
  pub input_fields : List String

pub record DatasetPartitionExport (V : Type 0) : Type 0 where
  pub partition_id : String
  pub public_partition_sha256 : String
  pub dataset_id : String
  pub public_dataset_sha256 : String
  pub role : PartitionRole
  pub labels_revealed : Bool
  pub examples : List (PartitionExamplePayload V)

-- `==` on lists of texts
unfoldable pub same_texts : List String → List String → Bool
same_texts [] [] = true
same_texts (a ∷ as_) (b ∷ bs) = a == b && same_texts as_ bs
same_texts _ _ = false

-- `role is not PartitionRole.SEALED_TEST`
abbrev pub reveals : PartitionRole → Bool
reveals PartitionRole.train = true
reveals PartitionRole.validation = true
reveals PartitionRole.sealed_test = false

module _ {V : Type 0} where
  -- `PartitionExamplePayload(...)`
  unfoldable pub validated_payload :
      PartitionExamplePayload V → Result PartitionError (PartitionExamplePayload V)
  validated_payload p = do
    refuse (not (leb 1 (length p.input_fields))) wrong_length
    refuse
        (not (same_texts p.input_fields (sort_texts p.input_fields))
          || not (all_unique p.input_fields))
        unsorted_fields
    refuse (not (all (λ k. contains k (keys p.values)) p.input_fields)) inputs_missing
    ok p

  abbrev pub share_fields : List (PartitionExamplePayload V) → Bool
  share_fields [] = true
  share_fields (first ∷ examples) = all (λ p. same_texts p.input_fields first.input_fields) examples

  -- `DatasetPartitionExport(...)`; its examples are validated already.
  unfoldable pub validated_export :
      DatasetPartitionExport V → Result PartitionError (DatasetPartitionExport V)
  validated_export e = do
    refuse (not (leb 1 (length e.examples))) wrong_length
    refuse (not (if reveals e.role then e.labels_revealed else not e.labels_revealed))
        labels_mismatch
    refuse (not (all_unique (map (λ p. p.id) e.examples))) repeated_id
    refuse (not (share_fields e.examples)) different_fields
    refuse
        (not (reveals e.role)
          && any (λ p. not (same_set (keys p.values) p.input_fields)) e.examples)
        sealed_labels
    ok e

  -- `{example.id: example for example in examples}`, looked up: a later example wins.
  unfoldable pub example_for : String → List (DspyExample V) → Option (DspyExample V)
  example_for id [] = none
  example_for id (e ∷ examples) = elim (example_for id examples) [
    | some later ↦ some later
    | none ↦ if e.id == id then some e else none
  ]

  -- `values.update(items)`
  unfoldable pub update_with : Dict V → Dict V → Dict V
  update_with values [] = values
  update_with values ((k, v) ∷ items) = update_with (put k v values) items

  -- The values that an example is exported with
  abbrev pub exported_values : Bool → DspyExample V → Dict V
  exported_values labels_revealed example =
      if labels_revealed
      then sort_items (update_with (sort_items example.inputs) (sort_items example.outputs))
      else sort_items example.inputs

  -- One iteration of the loop over the ids of the split
  unfoldable pub export_example :
      List (DspyExample V) → Bool → String → Result PartitionError (PartitionExamplePayload V)
  export_example examples labels_revealed example_id = elim (example_for example_id examples) [
    | none ↦ err missing_example
    | some example ↦ validated_payload (record {
      id = example.id;
      values = exported_values labels_revealed example;
      input_fields = sort_texts (keys example.inputs);
    })
  ]

  -- `export_dataset_partition`
  unfoldable pub export_dataset_partition :
      PartitionDigests V
      → DatasetPartitionDocument
      → DspyDatasetDocument V
      → PartitionRole
      → Result PartitionError (DatasetPartitionExport V)
  export_dataset_partition digests document dataset role = do
    document' ← validated_document document
    dataset' ← validated_dataset dataset
    verification ← verify_validated_partitions digests document' dataset'
    exported ← collect (export_example dataset'.examples (reveals role)) (ids_for document' role)
    validated_export (record {
      partition_id = document'.id;
      public_partition_sha256 = verification.public_partition_sha256;
      dataset_id = dataset'.id;
      public_dataset_sha256 = verification.public_dataset_sha256;
      role = role;
      labels_revealed = reveals role;
      examples = exported;
    })
