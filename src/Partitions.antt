-- ===== src/Partitions.antt =====
-- Dataset partitions: the documents of src/e2h/partitions.py and the dataset of
-- src/e2h/optimizer_adapters.py with their validators. V is the type of values; patterns of ids and
-- fields, sizes of values and metadata are not validated here.
pub mod Verify
pub mod Export
pub mod Sealed
use e2h.Prelude.{
  ℕ, Bool, true, false, not, ◌&&◌, ◌||◌, String, List, [], ◌∷◌, ◌++◌, map, any, all, ◌==◌, text_eq,
  Eq, eq_of, contains, all_unique, length, leb, within, if◌then◌else◌,
}
use e2h.Result.{Result, ok, err, refuse, ◌>>=◌, ◌>>◌}
use e2h.Dict.{Dict, text_ltb, sort_items}

pub data PartitionRole : Type 0 where
  train validation sealed_test : PartitionRole

-- `DatasetPartitionError`, and what the validators refuse
pub data PartitionError : Type 0 where
  wrong_length repeated_id overlap fields_overlap different_fields : PartitionError
  wrong_dataset wrong_public_dataset unknown_examples missing_examples no_outputs : PartitionError
  missing_example inputs_missing labels_mismatch sealed_labels wrong_partition : PartitionError
  unexpected_examples wrong_outputs bad_counts bad_score unsorted_fields : PartitionError

pub record DspyExample (V : Type 0) : Type 0 where
  pub id : String
  pub inputs : Dict V
  pub outputs : Dict V

pub record DspyDatasetDocument (V : Type 0) : Type 0 where
  pub id : String
  pub examples : List (DspyExample V)

pub record DatasetPartitionDocument : Type 0 where
  pub id : String
  pub dataset_sha256 : String
  pub public_dataset_sha256 : String
  pub train_ids : List String
  pub validation_ids : List String
  pub sealed_test_ids : List String

-- `sorted(texts)`
unfoldable pub insert_text : String → List String → List String
insert_text t [] = t ∷ []
insert_text t (u ∷ texts) =
    let rest = insert_text t texts in if text_ltb u t then u ∷ rest else t ∷ u ∷ texts

unfoldable pub sort_texts : List String → List String
unfolding insert_text
sort_texts [] = []
sort_texts (t ∷ texts) = insert_text t (sort_texts texts)

-- The keys of a mapping, `set(...)` of it, and equality of two sets
abbrev pub keys : {V : Type 0} → Dict V → List String
keys items = map (λ item. item.0) items

abbrev pub same_set : List String → List String → Bool
same_set a b = all (λ k. contains k b) a && all (λ k. contains k a) b

-- `a & b` is not empty.
abbrev pub meets : List String → List String → Bool
meets a b = any (λ k. contains k b) a

module _ {V : Type 0} where
  -- `DspyExample(...)`
  unfoldable pub validated_example : DspyExample V → Result PartitionError (Unit {0})
  validated_example e = do
    refuse (not (within 1 128 (length e.inputs))) wrong_length
    refuse (not (leb (length e.outputs) 128)) wrong_length
    refuse (meets (keys e.inputs) (keys e.outputs)) fields_overlap

  unfoldable pub validated_examples : List (DspyExample V) → Result PartitionError (Unit {0})
  unfolding validated_example
  validated_examples [] = ok tt
  validated_examples (e ∷ examples) = validated_example e >> validated_examples examples

  abbrev pub same_signature : DspyExample V → DspyExample V → Bool
  same_signature first e =
      same_set (keys e.inputs) (keys first.inputs) && same_set (keys e.outputs) (keys first.outputs)

  -- `dataset_must_have_one_signature`; the list is not empty.
  unfoldable pub one_signature : List (DspyExample V) → Bool
  one_signature [] = true
  one_signature (first ∷ examples) = all (same_signature first) examples

  -- `DspyDatasetDocument(...)`
  unfoldable pub validated_dataset :
      DspyDatasetDocument V → Result PartitionError (DspyDatasetDocument V)
  unfolding validated_examples one_signature
  validated_dataset d = do
    refuse (not (within 1 10000 (length d.examples))) wrong_length
    validated_examples d.examples
    refuse (not (all_unique (map (λ e. e.id) d.examples))) repeated_id
    refuse (not (one_signature d.examples)) different_fields
    ok d

-- `example_ids_must_be_unique_and_canonical`, which sorts the ids of a split
unfoldable pub validated_split : List String → Result PartitionError (List String)
validated_split ids = do
  refuse (not (within 1 10000 (length ids))) wrong_length
  refuse (not (all_unique ids)) repeated_id
  ok (sort_texts ids)

-- `DatasetPartitionDocument(...)` with `splits_must_not_overlap`
unfoldable pub validated_document :
    DatasetPartitionDocument → Result PartitionError DatasetPartitionDocument
unfolding validated_split
validated_document document = do
  train_ids ← validated_split document.train_ids
  validation_ids ← validated_split document.validation_ids
  sealed_test_ids ← validated_split document.sealed_test_ids
  refuse
      (meets train_ids validation_ids
        || meets train_ids sealed_test_ids
        || meets validation_ids sealed_test_ids)
      overlap
  ok (record document {
    train_ids = train_ids;
    validation_ids = validation_ids;
    sealed_test_ids = sealed_test_ids;
  })

-- `ids_for`
abbrev pub ids_for : DatasetPartitionDocument → PartitionRole → List String
ids_for document train = document.train_ids
ids_for document validation = document.validation_ids
ids_for document sealed_test = document.sealed_test_ids
