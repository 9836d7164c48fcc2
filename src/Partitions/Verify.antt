-- ===== src/Partitions/Verify.antt =====
-- The public identity of a dataset and `_verify_validated_partitions` of src/e2h/partitions.py. What
-- a digest gives for a payload is a parameter.
pub mod Assigned
pub mod Unlabelled
use e2h.Prelude.{
  ℕ, Bool, true, false, not, ◌&&◌, ◌||◌, String, List, [], ◌∷◌, ◌++◌, map, any, all, ◌==◌, text_eq,
  Eq, contains, all_unique, length, leb, if◌then◌else◌,
}
use e2h.Result.{Result, ok, err, refuse, ◌>>=◌, ◌>>◌}
use e2h.Dict.{Dict, text_ltb, sort_items}
use e2h.Partitions.{
  PartitionError, wrong_dataset, wrong_public_dataset, unknown_examples, missing_examples,
  no_outputs, DspyExample, DspyDatasetDocument, DatasetPartitionDocument, sort_texts, keys,
  validated_dataset, validated_document,
}

-- The payload of `_dspy_dataset_public_sha256_validated`
pub record PublicDataset (V : Type 0) : Type 0 where
  pub id : String
  pub input_fields : List String
  pub output_fields : List String
  pub examples : List (String × Dict V)

-- The payload of `_dataset_partition_public_sha256_validated`
pub record PublicPartition : Type 0 where
  pub id : String
  pub public_dataset_sha256 : String
  pub train_ids : List String
  pub validation_ids : List String
  pub sealed_test_ids : List String

pub record DatasetPartitionVerification : Type 0 where
  pub partition_id : String
  pub partition_sha256 : String
  pub public_partition_sha256 : String
  pub dataset_id : String
  pub dataset_sha256 : String
  pub public_dataset_sha256 : String
  pub train_examples : ℕ
  pub validation_examples : ℕ
  pub sealed_test_examples : ℕ
  pub output_fields : List String

-- SHA-256 of the canonical text of each payload
pub record PartitionDigests (V : Type 0) : Type 0 where
  pub dataset : DspyDatasetDocument V → String
  pub public_dataset : PublicDataset V → String
  pub partition : DatasetPartitionDocument → String
  pub public_partition : PublicPartition → String

module _ {V : Type 0} where
  -- `sorted(examples, key=lambda item: item.id)`; the ids differ.
  unfoldable pub insert_example : DspyExample V → List (DspyExample V) → List (DspyExample V)
  insert_example e [] = e ∷ []
  insert_example e (f ∷ examples) =
      let rest = insert_example e examples in
      if text_ltb f.id e.id then f ∷ rest else e ∷ f ∷ examples

  unfoldable pub sort_examples : List (DspyExample V) → List (DspyExample V)
  unfolding insert_example
  sort_examples [] = []
  sort_examples (e ∷ examples) = insert_example e (sort_examples examples)

  -- The sorted fields of `dataset.examples[0]`; a validated dataset has one.
  unfoldable pub first_fields : (DspyExample V → Dict V) → List (DspyExample V) → List String
  first_fields side [] = []
  first_fields side (first ∷ examples) = sort_texts (keys (side first))

  abbrev pub public_example : DspyExample V → String × Dict V
  public_example e = (e.id, sort_items e.inputs)

  -- `_dspy_dataset_public_sha256_validated`, up to the digest
  unfoldable pub public_dataset : DspyDatasetDocument V → PublicDataset V
  unfolding sort_examples first_fields
  public_dataset d = record {
    id = d.id;
    input_fields = first_fields (λ e. e.inputs) d.examples;
    output_fields = first_fields (λ e. e.outputs) d.examples;
    examples = map public_example (sort_examples d.examples);
  }

-- `_dataset_partition_public_sha256_validated`, up to the digest
abbrev pub public_partition : DatasetPartitionDocument → PublicPartition
public_partition document = record {
  id = document.id;
  public_dataset_sha256 = document.public_dataset_sha256;
  train_ids = document.train_ids;
  validation_ids = document.validation_ids;
  sealed_test_ids = document.sealed_test_ids;
}

abbrev pub is_assigned : DatasetPartitionDocument → String → Bool
is_assigned document id =
    contains id document.train_ids
    || contains id document.validation_ids
    || contains id document.sealed_test_ids

module _ {V : Type 0} (digests : PartitionDigests V) where
  -- `_verify_validated_partitions`
  unfoldable pub verify_validated_partitions :
      DatasetPartitionDocument
      → DspyDatasetDocument V
      → Result PartitionError DatasetPartitionVerification
  verify_validated_partitions document dataset = do
    refuse (not (document.dataset_sha256 == digests.dataset dataset)) wrong_dataset
    let public_digest = digests.public_dataset (public_dataset dataset)
    refuse (not (document.public_dataset_sha256 == public_digest)) wrong_public_dataset
    let dataset_ids = map (λ e. e.id) dataset.examples
    refuse
        (any (λ id. not (contains id dataset_ids))
          (document.train_ids ++ (document.validation_ids ++ document.sealed_test_ids)))
        unknown_examples
    refuse (any (λ id. not (is_assigned document id)) dataset_ids) missing_examples
    let output_fields = first_fields (λ e. e.outputs) dataset.examples
    refuse (not (leb 1 (length output_fields))) no_outputs
    ok (record {
      partition_id = document.id;
      partition_sha256 = digests.partition document;
      public_partition_sha256 = digests.public_partition (public_partition document);
      dataset_id = dataset.id;
      dataset_sha256 = digests.dataset dataset;
      public_dataset_sha256 = public_digest;
      train_examples = length document.train_ids;
      validation_examples = length document.validation_ids;
      sealed_test_examples = length document.sealed_test_ids;
      output_fields = output_fields;
    })

  -- `verify_dataset_partitions`
  unfoldable pub verify_dataset_partitions :
      DatasetPartitionDocument
      → DspyDatasetDocument V
      → Result PartitionError DatasetPartitionVerification
  verify_dataset_partitions document dataset = do
    document' ← validated_document document
    dataset' ← validated_dataset dataset
    verify_validated_partitions document' dataset'
