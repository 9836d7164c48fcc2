-- ===== src/Partitions/Verify/Assigned.antt =====
-- A verified partition of src/e2h/partitions.py puts every example into exactly one split.
use e2h.Prelude.{
  ℕ, ◌+◌, ◌≡◌, ◌∙◌, ap, sym, refl, Bool, true, false, not, ◌||◌, String, List, [], ◌∷◌, ◌++◌, map,
  any, ◌==◌, text_eq, contains, contains-append, Bool-cases, inl, inr, arith, if◌then◌else◌,
}
use e2h.Result.{ok, Result-cases}
use e2h.Partitions.{
  DspyDatasetDocument, DatasetPartitionDocument, insert_text, sort_texts, meets, validated_examples,
  validated_dataset, validated_split, validated_document,
}
use e2h.Partitions.Verify.{
  DatasetPartitionVerification, PartitionDigests, is_assigned, verify_validated_partitions,
  verify_dataset_partitions,
}

contains-insert_text :
    (x t : String) (texts : List String)
    → contains x (insert_text t texts) ≡ ((t == x) || contains x texts)
unfolding insert_text
contains-insert_text x t [] = refl
contains-insert_text x t (u ∷ texts) = ground (arith, contains-insert_text x t texts)

pub contains-sort_texts :
    (x : String) (texts : List String) → contains x (sort_texts texts) ≡ contains x texts
unfolding sort_texts
contains-sort_texts x [] = refl
contains-sort_texts x (t ∷ texts) =
    contains-insert_text x t (sort_texts texts)
    ∙ ap (λ b. (t == x) || b) (contains-sort_texts x texts)

meets-apart :
    (x : String) (a b : List String)
    → meets a b ≡ false
    → contains x a ≡ true
    → contains x b ≡ false
meets-apart x [] b h found = absurd (ground (arith, found))
meets-apart x (y ∷ a) b h found = elim (Bool-cases (y == x)) [
  | inl here ↦ ap (λ z. contains z b) (sym ((text_eq.equal_iff y x).0 here)) ∙ ground (arith, h)
  | inr other ↦ meets-apart x a b (ground (arith, h)) (ground (arith, found, other))
]

-- What no element of a list fails, each element of it passes.
pub none-fails :
    (p : String → Bool) (x : String) (xs : List String)
    → any (λ y. not (p y)) xs ≡ false
    → contains x xs ≡ true
    → p x ≡ true
none-fails p x [] h found = absurd (ground (arith, found))
none-fails p x (y ∷ xs) h found = elim (Bool-cases (y == x)) [
  | inl here ↦ ap p (sym ((text_eq.equal_iff y x).0 here)) ∙ ground (arith, h)
  | inr other ↦ none-fails p x xs (ground (arith, h)) (ground (arith, found, other))
]

abbrev pub splits_with : String → DatasetPartitionDocument → ℕ
splits_with id document =
    (if contains id document.train_ids then 1 else 0)
    + (if contains id document.validation_ids then 1 else 0)
    + (if contains id document.sealed_test_ids then 1 else 0)

split-contains :
    (id : String) (ids sorted : List String)
    → validated_split ids ≡ ok sorted
    → contains id sorted ≡ contains id ids
unfolding validated_split
split-contains id ids sorted h =
    let same : sort_texts ids ≡ sorted = ground (arith, h) in
    ap (contains id) (sym same) ∙ contains-sort_texts id ids

-- The validated document has the same splits, sorted, and they are disjoint.
pub validated_document-splits :
    (document document' : DatasetPartitionDocument) (id : String)
    → validated_document document ≡ ok document'
    → (contains id document'.train_ids ≡ contains id document.train_ids)
      × (contains id document'.validation_ids ≡ contains id document.validation_ids)
      × (contains id document'.sealed_test_ids ≡ contains id document.sealed_test_ids)
      × (meets document'.train_ids document'.validation_ids ≡ false)
      × (meets document'.train_ids document'.sealed_test_ids ≡ false)
      × (meets document'.validation_ids document'.sealed_test_ids ≡ false)
unfolding validated_document
validated_document-splits document document' id h =
    elim (Result-cases (validated_split document.train_ids)) [
      | inr (problem, refused) ↦ absurd (ground (arith, h, refused))
      | inl (a, va) ↦ elim (Result-cases (validated_split document.validation_ids)) [
        | inr (problem, refused) ↦ absurd (ground (arith, h, va, refused))
        | inl (b, vb) ↦ elim (Result-cases (validated_split document.sealed_test_ids)) [
          | inr (problem, refused) ↦ absurd (ground (arith, h, va, vb, refused))
          | inl (c, vc) ↦
              let same_a : a ≡ document'.train_ids = ground (arith, h, va, vb, vc) in
              let same_b : b ≡ document'.validation_ids = ground (arith, h, va, vb, vc) in
              let same_c : c ≡ document'.sealed_test_ids = ground (arith, h, va, vb, vc) in
              (
                ap (contains id) (sym same_a) ∙ split-contains id document.train_ids a va,
                ap (contains id) (sym same_b) ∙ split-contains id document.validation_ids b vb,
                ap (contains id) (sym same_c) ∙ split-contains id document.sealed_test_ids c vc,
                ap (λ l. meets l document'.validation_ids) (sym same_a)
                    ∙ ap (meets a) (sym same_b)
                    ∙ ground (arith, h, va, vb, vc),
                ap (λ l. meets l document'.sealed_test_ids) (sym same_a)
                    ∙ ap (meets a) (sym same_c)
                    ∙ ground (arith, h, va, vb, vc),
                ap (λ l. meets l document'.sealed_test_ids) (sym same_b)
                    ∙ ap (meets b) (sym same_c)
                    ∙ ground (arith, h, va, vb, vc),
              )
        ]
      ]
    ]

module _ {V : Type 0} where
  pub validated_dataset-same : (d d' : DspyDatasetDocument V) → validated_dataset d ≡ ok d' → d ≡ d'
  unfolding validated_dataset
  validated_dataset-same d d' h = elim (Result-cases (validated_examples d.examples)) [
    | inr (problem, refused) ↦ absurd (ground (arith, h, refused))
    | inl (done, valid) ↦ ground (arith, h, valid)
  ]

  -- A partition that is verified against a dataset puts the id of every example of it into exactly
  -- one of its three splits, and no other id into any.
  pub verify_dataset_partitions-one_split :
      (digests : PartitionDigests V) (document : DatasetPartitionDocument)
      (dataset : DspyDatasetDocument V) (v : DatasetPartitionVerification)
      → verify_dataset_partitions digests document dataset ≡ ok v
      → (id : String)
      → splits_with id document ≡ (if contains id (map (λ e. e.id) dataset.examples) then 1 else 0)
  unfolding verify_dataset_partitions verify_validated_partitions
  verify_dataset_partitions-one_split digests document dataset v h id =
      elim (Result-cases (validated_document document)) [
        | inr (problem, refused) ↦ absurd (ground (arith, h, refused))
        | inl (document', fits) ↦ elim (Result-cases (validated_dataset dataset)) [
          | inr (problem, refused) ↦ absurd (ground (arith, h, fits, refused))
          | inl (dataset', fits') ↦
              let (a, b, c, ab, ac, bc) = validated_document-splits document document' id fits in
              let ids = map (λ e. e.id) dataset.examples in
              let same = validated_dataset-same dataset dataset' fits' in
              let fits_same : validated_dataset dataset ≡ ok dataset = fits' ∙ ap ok (sym same) in
              let known =
                none-fails (λ i. contains i ids) id
                  (document'.train_ids ++ (document'.validation_ids ++ document'.sealed_test_ids))
                  (ground (arith, h, fits, fits_same)) in
              let covered =
                none-fails (is_assigned document') id ids (ground (arith, h, fits, fits_same)) in
              ground (
                arith,
                a,
                b,
                c,
                meets-apart id document'.train_ids document'.validation_ids ab,
                meets-apart id document'.train_ids document'.sealed_test_ids ac,
                meets-apart id document'.validation_ids document'.sealed_test_ids bc,
                known,
                covered,
                contains-append id document'.train_ids
                    (document'.validation_ids ++ document'.sealed_test_ids),
                contains-append id document'.validation_ids document'.sealed_test_ids,
              )
        ]
      ]
